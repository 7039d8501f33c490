-- ===== src/Roa/Merge.antt =====
-- The `MERGE` statement of `pullToDB` in Historical-ROA/main.go, over tables as lists of rows. A row
-- of `roas_arr` has the columns of a stored authorization and its insertion times.
pub mod Laws
pub mod Unique
use google_cloud_storage.Base.{
  Bytes, same, List, [], ◌∷◌, ◌++◌, Option, none, some, Bool, true, false, ◌&&◌, if◌then◌else◌,
}
use google_cloud_storage.Base.Result.{Error, errorf, Result, ok, err, ◌>>=◌}
use google_cloud_storage.Roa.{ℤ, same_int, StoredRoa, TimedRoa}

-- The five equations of the `ON` clause.
unfoldable pub same_roa : StoredRoa → StoredRoa → Bool
unfolding same_int
same_roa a b =
    same a.asn b.asn
    && (same_int a.max_length b.max_length
        && (same a.prefix b.prefix && (same a.ta b.ta && same_int a.subnet b.subnet)))

-- The rows that match an authorization.
unfoldable pub matches : StoredRoa → List TimedRoa → List TimedRoa
matches k [] = []
matches k (r ∷ rows) = let rest = matches k rows in if same_roa r.roa k then r ∷ rest else rest

-- `UPDATE SET inserttimes = ARRAY_CONCAT(b.times, arr.inserttimes)`, for the row of `buf` that
-- matches. Two of them are an error of the statement.
unfoldable pub updated_row : TimedRoa → List TimedRoa → Result TimedRoa
updated_row a [] = ok a
updated_row a (b ∷ []) = ok (record a { times = b.times ++ a.times })
updated_row a (b ∷ c ∷ more) = err (errorf "MERGE must match at most one source row")

unfoldable pub updated_rows : List TimedRoa → List TimedRoa → Result (List TimedRoa)
unfolding matches updated_row
updated_rows buf [] = ok []
updated_rows buf (a ∷ arr) = do
  row ← updated_row a (matches a.roa buf)
  rows ← updated_rows buf arr
  ok (row ∷ rows)

abbrev pub inserted : TimedRoa → List TimedRoa → List TimedRoa → List TimedRoa
inserted b [] rest = b ∷ rest
inserted b (a ∷ found) rest = rest

-- `WHEN NOT MATCHED BY TARGET THEN INSERT`
unfoldable pub inserted_rows : List TimedRoa → List TimedRoa → List TimedRoa
unfolding matches
inserted_rows [] arr = []
inserted_rows (b ∷ buf) arr = inserted b (matches b.roa arr) (inserted_rows buf arr)

unfoldable pub merge : List TimedRoa → List TimedRoa → Result (List TimedRoa)
unfolding updated_rows inserted_rows
merge buf arr = do rows ← updated_rows buf arr; ok (rows ++ inserted_rows buf arr)
