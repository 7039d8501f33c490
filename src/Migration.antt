-- ===== src/Migration.antt =====
-- Historical-ROA/movefromoldtonew/movefromoldtonew.go: the rows of the old table, one for each time,
-- are moved into the new one. The statements are arguments, and every error ends the process.
pub mod Command
use google_cloud_storage.Base.{
  ℕ, Bytes, List, [], ◌∷◌, ◌++◌, Option, Bool, false, All, All-append, if◌then◌else◌, ◌==◌, ◌≡◌,
  refl,
}
use google_cloud_storage.Base.Result.{Error, Result, ok, err, ◌>>=◌}
use google_cloud_storage.Base.Effect.{M}
use google_cloud_storage.Roa.{ℤ}

-- `temp`. A time is a number of nanoseconds since the start of the year 1, which is Go's zero time.
pub record Temp : Type 0 where
  pub asn : Bytes
  pub prefix : Bytes
  pub ta : Bytes
  pub mask : ℤ
  pub maxlen : ℤ
  pub t : ℕ
  pub update : Bool

-- The five columns of a row of the second query.
pub record Columns : Type 0 where
  pub asn : Bytes
  pub prefix : Bytes
  pub mask : ℤ
  pub ta : Bytes
  pub maxlen : ℤ

-- What a query yields: for each of its rows what `Scan` leaves in the variables, and its error, and
-- the error that ended the rows early. The program drops both errors.
pub record Rows (C : Type 0) : Type 0 where
  pub scans : List (C × Option Error)
  pub ending : Option Error

-- `var b temp` and `r.Scan(...)`: the fields that are not scanned are zero.
abbrev pub scanned : Columns → Temp
scanned c = record {
  asn = c.asn;
  prefix = c.prefix;
  ta = c.ta;
  mask = c.mask;
  maxlen = c.maxlen;
  t = 0;
  update = false;
}

-- The rows that `Next` yields, up to whatever ended them.
unfoldable pub scan_all : List (Columns × Option Error) → List Temp
scan_all [] = []
scan_all ((c, e) ∷ rows) = scanned c ∷ scan_all rows

-- The times, likewise. A time that was not scanned is the one that `Scan` left.
unfoldable pub scan_times : List (ℕ × Option Error) → List ℕ
scan_times [] = []
scan_times ((t, e) ∷ rows) = t ∷ scan_times rows

-- `buf`, from the rows of each time.
unfoldable pub buf_of : (ℕ → Result (Rows Columns)) → List ℕ → Result (List Temp)
unfolding scan_all
buf_of query [] = ok []
buf_of query (t ∷ times) = do
  rows ← query t
  rest ← buf_of query times
  ok (scan_all rows.scans ++ rest)

module _ {T : Type 0} (update : Temp → M T ℕ) (insert : Temp → List ℕ → M T (Unit {0})) where
  -- A row that no row of the new table matches is inserted.
  abbrev pub affected : Temp → T × Result ℕ → T × Result (Unit {0})
  affected r (s, err e) = (s, err e)
  affected r (s, ok n) = if n == 0 then insert r (r.t ∷ []) s else (s, ok tt)

  abbrev pub or_stop : (T → T × Result (Unit {0})) → T × Result (Unit {0}) → T × Result (Unit {0})
  or_stop rest (s, err e) = (s, err e)
  or_stop rest (s, ok _) = rest s

  unfoldable pub move_rows : List Temp → M T (Unit {0})
  move_rows [] s = (s, ok tt)
  move_rows (r ∷ rows) s = or_stop (λ u. move_rows rows u) (affected r (update r s))

-- Every row that is moved has the zero time: the time that it was inserted at is not read.
pub buf_of-zero :
    (query : ℕ → Result (Rows Columns)) (times : List ℕ) (rows : List Temp)
    → buf_of query times ≡ ok rows
    → All (λ r. r.t ≡ 0) rows
unfolding buf_of
buf_of-zero query [] rows h = (let e : rows ≡ [] = cc in rw e tt)
buf_of-zero query (t ∷ times) rows h =
    go (query t) refl (buf_of query times) refl (λ out e. buf_of-zero query times out e)
  where
    zeros : (cs : List (Columns × Option Error)) → All (λ r. r.t ≡ 0) (scan_all cs)
    zeros [] = unfold scan_all in tt
    zeros ((c, e) ∷ cs) = unfold scan_all in (refl, zeros cs)

    go :
        (x : Result (Rows Columns))
        → query t ≡ x
        → (y : Result (List Temp)) → buf_of query times ≡ y
        → ((out : List Temp) → buf_of query times ≡ ok out → All (λ r. r.t ≡ 0) out)
        → All (λ r. r.t ≡ 0) rows
    go (err e) p y q ih = (let h' = rw p at h in absurd (cc))
    go (ok cs) p (err e) q ih = (let h' = rw (p, q) at h in absurd (cc))
    go (ok cs) p (ok out) q ih =
        let h' = rw (p, q) at h in
        let e : rows ≡ scan_all cs.scans ++ out = cc in
        rw e (All-append (λ r. r.t ≡ 0) (scan_all cs.scans) out (zeros cs.scans) (ih out q))
