-- ===== src/Roa/Update.antt =====
-- `pullToDB` of Historical-ROA/main.go: an update of the table of authorizations.
pub mod Laws
use google_cloud_storage.Base.{
  ℕ, ◌+◌, Bytes, List, [], ◌∷◌, ◌++◌, Option, none, some, Bool, true, false, if◌then◌else◌, ◌≡◌,
}
use google_cloud_storage.Base.Result.{Error, Result, ok, err}
use google_cloud_storage.Base.Effect.{M}
use google_cloud_storage.Base.Run.{Run, returns, panic}
use google_cloud_storage.Roa.{
  ℤ, InputRoa, StoredRoa, TimedRoa, rows_of, divided, put_all, already_done,
}
use google_cloud_storage.Roa.Merge.{merge}

-- The database client: the two tables of the service, and its calls. `buf` is made anew by a
-- deletion and a creation, and `put` inserts rows into it. A query is a job that is run, that is
-- waited for with a status or an error of the wait itself, and whose rows are then read.
pub record Warehouse : Type 1 where
  pub State : Type 0
  pub arr : State → List TimedRoa
  pub buf : State → List TimedRoa
  pub last_modified : State → Result (Result ℕ)
  pub run_current : State → Result (Unit {0})
  pub wait_current : State → Result (Result (Unit {0}))
  pub read_current : State → Result (Unit {0})
  pub delete_buf : M State (Unit {0})
  pub create_buf : M State (Unit {0})
  pub put : List TimedRoa → M State (Unit {0})
  pub run_merge : M State (Unit {0})
  pub wait_merge : M State (Result (Unit {0}))
  pub read_merge : State → Result (Unit {0})

-- Their documented behaviour: a call changes the table that it names alone; a job whose status is no
-- error has run the whole statement, on the tables as they were when it was started, and one whose
-- status is an error has changed nothing.
pub record IsLawful (W : Warehouse) : Type 0 where
  pub arr-delete : (s : W.State) → W.arr (W.delete_buf s).0 ≡ W.arr s
  pub arr-create : (s : W.State) → W.arr (W.create_buf s).0 ≡ W.arr s
  pub buf-create : (s s' : W.State) → W.create_buf s ≡ (s', ok tt) → W.buf s' ≡ []
  pub arr-put : (rows : List TimedRoa) (s : W.State) → W.arr (W.put rows s).0 ≡ W.arr s
  pub buf-put :
      (rows : List TimedRoa) (s s' : W.State)
      → W.put rows s ≡ (s', ok tt)
      → W.buf s' ≡ W.buf s ++ rows
  pub merge_ok :
      (s t s' : W.State)
      → W.run_merge s ≡ (t, ok tt)
      → W.wait_merge t ≡ (s', ok (ok tt))
      → merge (W.buf s) (W.arr s) ≡ ok (W.arr s')
  pub merge_err :
      (s t s' : W.State) (e : Error)
      → W.run_merge s ≡ (t, ok tt)
      → W.wait_merge t ≡ (s', ok (err e))
      → W.arr s' ≡ W.arr s

-- How a request ends.
pub data Outcome : Type 0 where
  refused : Outcome
  failed : Error → Outcome
  updated : Outcome

module _ (W : Warehouse) (atoi : Bytes → ℤ) where
  -- `job.Read`, after the statement has run.
  unfoldable pub read_stage : W.State → Result (Unit {0}) → W.State × Outcome
  read_stage s (ok _) = (s, updated)
  read_stage s (err e) = (s, failed e)

  -- `job.Wait`, whose error is dropped, and `status.Err()`, which needs a status.
  unfoldable pub wait_stage : W.State × Result (Result (Unit {0})) → Run (W.State × Outcome)
  unfolding read_stage
  wait_stage (s, err e) = panic
  wait_stage (s, ok (err e)) = returns (s, failed e)
  wait_stage (s, ok (ok _)) = returns (read_stage s (W.read_merge s))

  -- An error of `query.Run` is reported, and the job that is missing is then waited for.
  unfoldable pub merge_stage : W.State × Result (Unit {0}) → Run (W.State × Outcome)
  unfolding wait_stage
  merge_stage (s, err e) = panic
  merge_stage (s, ok _) = wait_stage (W.wait_merge s)

  -- A chunk that is not inserted is only reported.
  unfoldable pub created_stage :
      List TimedRoa → W.State × Result (Unit {0}) → Run (W.State × Outcome)
  unfolding merge_stage
  created_stage rows (s, err e) = returns (s, failed e)
  created_stage rows (s, ok _) = merge_stage (W.run_merge (put_all W.put (divided rows) s))

  -- What deleting the buffer returns is only logged.
  unfoldable pub rows_stage : Run (List TimedRoa) → W.State → Run (W.State × Outcome)
  unfolding created_stage
  rows_stage panic s = panic
  rows_stage (returns rows) s = created_stage rows (W.create_buf (W.delete_buf s).0)

  unfoldable pub current_stage :
      ℕ → List InputRoa → Result (Unit {0}) → W.State → Run (W.State × Outcome)
  unfolding rows_stage
  current_stage now roas (err e) s = returns (s, failed e)
  current_stage now roas (ok _) s = rows_stage (rows_of atoi now roas) s

  unfoldable pub current_wait_stage :
      ℕ → List InputRoa → Result (Result (Unit {0})) → W.State → Run (W.State × Outcome)
  unfolding current_stage
  current_wait_stage now roas (err e) s = panic
  current_wait_stage now roas (ok (err e)) s = returns (s, failed e)
  current_wait_stage now roas (ok (ok _)) s = current_stage now roas (W.read_current s) s

  unfoldable pub current_run_stage :
      ℕ → List InputRoa → Result (Unit {0}) → W.State → Run (W.State × Outcome)
  unfolding current_wait_stage
  current_run_stage now roas (err e) s = returns (s, failed e)
  current_run_stage now roas (ok _) s = current_wait_stage now roas (W.wait_current s) s

  unfoldable pub schema_stage :
      ℕ → List InputRoa → Result (Unit {0}) → W.State → Run (W.State × Outcome)
  unfolding current_run_stage
  schema_stage now roas (err e) s = returns (s, failed e)
  schema_stage now roas (ok _) s = current_run_stage now roas (W.run_current s) s

  unfoldable pub downloaded_stage :
      ℕ → Result (Unit {0}) → Result (List InputRoa) → W.State → Run (W.State × Outcome)
  unfolding schema_stage
  downloaded_stage now schema (err e) s = returns (s, failed e)
  downloaded_stage now schema (ok roas) s = schema_stage now roas schema s

  unfoldable pub done_stage :
      Run Bool → ℕ → Result (List InputRoa) → Result (Unit {0}) → W.State → Run (W.State × Outcome)
  unfolding downloaded_stage
  done_stage panic now download schema s = panic
  done_stage (returns true) now download schema s = returns (s, refused)
  done_stage (returns false) now download schema s = downloaded_stage now schema download s

  -- The arguments are what `downloadRARC` and `bigquery.InferSchema` return.
  unfoldable pub pull_to_db :
      ℕ → Result (List InputRoa) → Result (Unit {0}) → W.State → Run (W.State × Outcome)
  unfolding done_stage
  pull_to_db now download schema s =
      done_stage (already_done (W.last_modified s) now) now download schema s

-- `downloadRARC`, on what the request returned, and `json.Unmarshal`.
abbrev pub parsed_body : (Bytes → Result (List InputRoa)) → Result Bytes → Result (List InputRoa)
parsed_body unmarshal (err e) = err e
parsed_body unmarshal (ok body) = unmarshal body
