-- ===== src/Migration/Command.antt =====
-- `Main` of Historical-ROA/movefromoldtonew/movefromoldtonew.go: the connection, the query of the
-- times, and the transaction that all rows are moved in. The database's client is an interface.
use google_cloud_storage.Base.{ℕ, Bytes, codes, is_empty, List, All, if◌then◌else◌, ◌≡◌}
use google_cloud_storage.Base.Result.{Error, Result, ok, err}
use google_cloud_storage.Base.Effect.{M}
use google_cloud_storage.Migration.{Temp, Columns, Rows, scan_times, buf_of, move_rows}

-- `pgx.ConnConfig`
pub record ConnConfig : Type 0 where
  pub host : Bytes
  pub user : Bytes
  pub password : Bytes
  pub database : Bytes

-- The settings, by the variables DB_PASSWORD and DB_ADDR.
unfoldable pub conn_config : Bytes → Bytes → ConnConfig
conn_config dbpass dbip = record {
  host = if is_empty dbip then codes "/cloudsql/historical-roas:us-east1:history3" else dbip;
  user = codes "postgres";
  password = if is_empty dbpass then codes "datboifff" else dbpass;
  database = codes "roas";
}

-- The database as it is committed, and a transaction with what it has done.
pub record Database : Type 1 where
  pub State : Type 0
  pub Txn : Type 0
  pub connect : ConnConfig → Result (Unit {0})
  pub times : State → Result (Rows ℕ)
  pub columns : State → ℕ → Result (Rows Columns)
  pub begin_txn : State → Result Txn
  -- The `UPDATE`, with the number of rows that it affected, and the `INSERT`.
  pub update : Temp → M Txn ℕ
  pub insert : Temp → List ℕ → M Txn (Unit {0})
  pub commit : Txn → State → State × Result (Unit {0})

module _ (D : Database) where
  unfoldable pub commit_stage : D.State → D.Txn × Result (Unit {0}) → D.State × Result (Unit {0})
  commit_stage s (txn, err e) = (s, err e)
  commit_stage s (txn, ok u) = D.commit txn s

  unfoldable pub rows_stage : D.State → D.Txn → Result (List Temp) → D.State × Result (Unit {0})
  unfolding commit_stage
  rows_stage s txn (err e) = (s, err e)
  rows_stage s txn (ok buf) = commit_stage s (move_rows D.update D.insert buf txn)

  unfoldable pub txn_stage : D.State → List ℕ → Result D.Txn → D.State × Result (Unit {0})
  unfolding rows_stage
  txn_stage s times (err e) = (s, err e)
  txn_stage s times (ok txn) = rows_stage s txn (buf_of (D.columns s) times)

  unfoldable pub times_stage : D.State → Result (Rows ℕ) → D.State × Result (Unit {0})
  unfolding txn_stage scan_times
  times_stage s (err e) = (s, err e)
  times_stage s (ok rows) = txn_stage s (scan_times rows.scans) (D.begin_txn s)

  unfoldable pub connect_stage : D.State → Result (Unit {0}) → D.State × Result (Unit {0})
  unfolding times_stage
  connect_stage s (err e) = (s, err e)
  connect_stage s (ok u) = times_stage s (D.times s)

  -- `Main`, with the database that is committed at its end. An error ends the process there.
  unfoldable pub migrate : Bytes → Bytes → M D.State (Unit {0})
  unfolding connect_stage conn_config
  migrate dbpass dbip s = connect_stage s (D.connect (conn_config dbpass dbip))

  -- A commit that is refused leaves the database as it was.
  pub record IsAtomic : Type 0 where
    pub refused :
        (txn : D.Txn) (s : D.State) (e : Error)
        → (D.commit txn s).1 ≡ err e
        → (D.commit txn s).0 ≡ s

  -- The rows that the queries yielded before they ended, by whatever error, were moved in one
  -- transaction, as their scans left them, and it was committed.
  pub record Moved (s s' : D.State) : Type 0 where
    pub rows : Rows ℕ
    pub buf : List Temp
    pub txn : D.Txn
    pub done : D.Txn
    pub listed : D.times s ≡ ok rows
    pub begun : D.begin_txn s ≡ ok txn
    pub scanned : buf_of (D.columns s) (scan_times rows.scans) ≡ ok buf
    pub moved : move_rows D.update D.insert buf txn ≡ (done, ok tt)
    pub committed : D.commit done s ≡ (s', ok tt)
    pub undated : All (λ r. r.t ≡ 0) buf

  -- What a run leaves.
  abbrev pub Left : D.State → D.State × Result (Unit {0}) → Type 0
  Left s (s', err e) = s' ≡ s
  Left s (s', ok u) = Moved s s'
