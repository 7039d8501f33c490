-- ===== src/Tests/Warehouses.antt =====
-- The tables of Historical-ROA in memory: an update of them, and the migration.
use google_cloud_storage.Base.{
  ◌⊎◌, ◌↔◌, inl, ◌≢◌, ℕ, Bytes, codes, same, [], ◌∷◌, ◌++◌, List, some, ◌≡◌, refl, sym, ap, ◌∙◌,
}
use google_cloud_storage.Base.Result.{Error, errorf, Result, ok, err}
use google_cloud_storage.Base.Run.{returns}
use google_cloud_storage.Roa.Results.{Shown, results, shown, answer_of}
use google_cloud_storage.Roa.Results.Laws.{Wanted, answer_of-shows}
use mathlib.Core.List.{Memᴰ}
use google_cloud_storage.Roa.{Page, query_of, ℤ, pos, InputRoa, StoredRoa, TimedRoa, rows_of}
use google_cloud_storage.Roa.Merge.{merge}
use google_cloud_storage.Roa.Merge.Laws.{history, Unique, joined}
use google_cloud_storage.Roa.Merge.Unique.{merge-Unique}
use google_cloud_storage.Roa.Update.{Warehouse, IsLawful, Outcome, failed, updated, pull_to_db}
use google_cloud_storage.Roa.Update.Laws.{Inserts, pull_to_db-history, pull_to_db-Whole, Whole}
use google_cloud_storage.Migration.{Columns}

-- The two tables, and the time of the last change when it is known.
pub record Tables : Type 0 where
  pub arr : List TimedRoa
  pub buf : List TimedRoa
  pub changed : Result (Result ℕ)

-- The job runs when it is waited for.
abbrev merged : Tables → Result (List TimedRoa) → Tables × Result (Result (Unit {0}))
merged s (ok rows) = (record s { arr = rows }, ok (ok tt))
merged s (err e) = (s, ok (err e))

abbrev pub tables : Warehouse
tables = record {
  State = Tables;
  arr = λ s. s.arr;
  buf = λ s. s.buf;
  last_modified = λ s. s.changed;
  run_current = λ s. ok tt;
  wait_current = λ s. ok (ok tt);
  read_current = λ s. ok tt;
  delete_buf = λ s. (s, ok tt);
  create_buf = λ s. (record s { buf = [] }, ok tt);
  put = λ rows s. (record s { buf = s.buf ++ rows }, ok tt);
  run_merge = λ s. (s, ok tt);
  wait_merge = λ s. merged s (merge s.buf s.arr);
  read_merge = λ s. ok tt;
}

merged_ok :
    (s s' : Tables) (r : Result (List TimedRoa)) → merged s r ≡ (s', ok (ok tt)) → r ≡ ok s'.arr
merged_ok s s' (ok rows) h = ap (λ p. ok (p.0.arr)) h
merged_ok s s' (err e) h = (let k = ap (λ p. p.1) h in absurd (cc))

merged_err :
    (s s' : Tables) (r : Result (List TimedRoa)) (e : Error)
    → merged s r ≡ (s', ok (err e))
    → s'.arr ≡ s.arr
merged_err s s' (ok rows) e h = (let k = ap (λ p. p.1) h in absurd (cc))
merged_err s s' (err x) e h = ap (λ p. p.0.arr) (sym h)

started : (s t : Tables) → ◌≡◌ {A = Tables × Result (Unit {0})} (s, ok tt) (t, ok tt) → s ≡ t
started s t h = ap (λ p. p.0) h

pub tables-IsLawful : IsLawful tables
tables-IsLawful = record {
  arr-delete = λ s. refl;
  arr-create = λ s. refl;
  buf-create = λ s s' h. ap (λ p. p.0.buf) (sym h);
  arr-put = λ rows s. refl;
  buf-put = λ rows s s' h. ap (λ p. p.0.buf) (sym h);
  merge_ok = λ s t s' run wait.
      ap (λ u. merge u.buf u.arr) (started s t run) ∙ merged_ok t s' (merge t.buf t.arr) wait;
  merge_err = λ s t s' e run wait.
      merged_err t s' (merge t.buf t.arr) e wait ∙ ap (λ u. u.arr) (sym (started s t run));
}

abbrev pub atoi : Bytes → ℤ
atoi s = pos 24

abbrev pub roa : InputRoa
roa = record {
  asn = codes "AS1";
  prefix = codes "10.0.0.0/24";
  max_length = pos 24;
  ta = [];
  parse_cidr = [];
}

abbrev stored : StoredRoa
stored = record {
  asn = codes "AS1";
  prefix = codes "10.0.0.0";
  max_length = pos 24;
  ta = [];
  subnet = pos 24;
}

abbrev other : StoredRoa
other = record stored { asn = codes "AS2" }

-- The row of the download, and the table before it: the authorization was seen at 5, another at 3.
abbrev pub new_row : TimedRoa
new_row = record { roa = stored; times = 9 ∷ [] }

abbrev old : List TimedRoa
old = record { roa = other; times = 3 ∷ [] } ∷ record { roa = stored; times = 5 ∷ [] } ∷ []

abbrev pub before : Tables
before = record { arr = old; buf = []; changed = ok (err (errorf "no time")) }

abbrev pub after : Tables
after = record {
  arr = record { roa = other; times = 3 ∷ [] } ∷ record { roa = stored; times = 9 ∷ 5 ∷ [] } ∷ [];
  buf = new_row ∷ [];
  changed = ok (err (errorf "no time"));
}

pub inserts : Inserts tables tables-IsLawful
inserts = record { put_ok = λ rows s. refl }

pub read : rows_of atoi 9 (roa ∷ []) ≡ returns (new_row ∷ [])
unfolding rows_of google_cloud_storage.Strings.Split.split
read = refl

pub Unique-new_row : Unique (new_row ∷ [])
unfolding history
Unique-new_row = (refl, tt)

pub pulled : pull_to_db tables atoi 9 (ok (roa ∷ [])) (ok tt) before ≡ returns (after, updated)
unfolding pull_to_db google_cloud_storage.Roa.already_done rows_of
    google_cloud_storage.Strings.Split.split merge google_cloud_storage.Roa.put_all
    google_cloud_storage.Roa.divided google_cloud_storage.Roa.Merge.same_roa same
pulled = refl

pull_to_db-history_example : history stored after.arr ≡ joined (some (9 ∷ [])) (history stored old)
unfolding history google_cloud_storage.Roa.Merge.same_roa same
pull_to_db-history_example =
    pull_to_db-history tables tables-IsLawful atoi inserts 9 (roa ∷ []) (new_row ∷ []) (ok tt)
      before after read Unique-new_row pulled stored

-- A download that has the authorization twice, which the statement refuses.
abbrev doubled : Tables
doubled = record before { buf = new_row ∷ new_row ∷ [] }

abbrev twice : Outcome
twice = failed (errorf "MERGE must match at most one source row")

pulled_twice :
    pull_to_db tables atoi 9 (ok (roa ∷ roa ∷ [])) (ok tt) before ≡ returns (doubled, twice)
unfolding pull_to_db google_cloud_storage.Roa.already_done rows_of
    google_cloud_storage.Strings.Split.split merge google_cloud_storage.Roa.put_all
    google_cloud_storage.Roa.divided google_cloud_storage.Roa.Merge.same_roa same
pulled_twice = refl

pull_to_db-Whole_example :
    Whole tables tables-IsLawful atoi 9 (ok (roa ∷ roa ∷ [])) before doubled twice
pull_to_db-Whole_example =
    pull_to_db-Whole tables tables-IsLawful atoi inserts 9 (ok (roa ∷ roa ∷ [])) (ok tt) before
      doubled twice pulled_twice

Unique-old : Unique old
unfolding history google_cloud_storage.Roa.Merge.same_roa same
Unique-old = (refl, (refl, tt))

merged_rows : merge (new_row ∷ []) old ≡ ok after.arr
unfolding merge google_cloud_storage.Roa.Merge.same_roa same
merged_rows = refl

merge-Unique_example : Unique after.arr
merge-Unique_example =
    merge-Unique (new_row ∷ []) old after.arr Unique-new_row Unique-old merged_rows

-- The migration, of one time with one row.
abbrev row : Columns
row = record {
  asn = codes "AS1";
  prefix = codes "10.0.0.0";
  mask = pos 24;
  ta = [];
  maxlen = pos 24;
}

-- The page, on the table after the update, for an origin.
abbrev shown_stored : Shown
shown_stored = record {
  asn = codes "AS1";
  prefix = codes "10.0.0.0";
  mask = pos 24;
  maxlen = pos 24;
  ta = [];
  unix_times = pos 9 ∷ pos 5 ∷ [];
  rfc3339_times = [] ∷ [] ∷ [];
  full = codes "10.0.0.0/24";
  full_range = codes "10.0.0.0/24";
}

abbrev pub print : ℤ → Bytes
print n = codes "24"

asked : (stored.asn ≢ []) ⊎ ((stored.prefix ≢ []) × (stored.subnet ≢ pos 0))
asked = inl (λ h. absurd (cc))

answer_of-shows_example :
    (p : Page) × (rows : List Shown) × (query_of atoi stored ≡ returns p)
    × (answer_of (λ t. pos t) (λ t. []) print after.arr (ok tt) p ≡ results rows)
    × ((x : Shown)
        → Memᴰ x rows ↔ (
            (r : TimedRoa) × Memᴰ r after.arr
            × Wanted stored r.roa
            × (x ≡ shown (λ t. pos t) (λ t. []) print r)))
answer_of-shows_example = answer_of-shows (λ t. pos t) (λ t. []) print atoi after.arr stored asked

-- What is shown of the row.
shown_row :
    shown (λ t. pos t) (λ t. []) print (record { roa = stored; times = 9 ∷ 5 ∷ [] }) ≡ shown_stored
unfolding shown
shown_row = refl
