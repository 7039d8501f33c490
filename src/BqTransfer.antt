-- ===== src/BqTransfer.antt =====
-- pkg/bq_transfer/bq_transfer.go: a transfer to BigQuery for every month directory of a bucket.
pub mod Dirs
pub mod Fetch
pub mod Laws
use google_cloud_storage.Base.{
  ℕ, zero, suc, Bytes, codes, is_empty, List, [], ◌∷◌, ◌++◌, Option, none, some, Bool, true, false,
  if◌then◌else◌,
}
use google_cloud_storage.Base.Dict.{Dict, has}
use google_cloud_storage.Base.Result.{Error, Result, ok, err, within, is_ok}
use google_cloud_storage.Base.Effect.{M}
use google_cloud_storage.Backoff.{Backoff}
use google_cloud_storage.Strings.Split.{split}
use google_cloud_storage.Base.{◌≡◌}

-- `TransferParams`
pub record TransferParams : Type 0 where
  pub project : Bytes
  pub location : Bytes
  pub dataset : Bytes
  pub table : Bytes
  pub bucket : Bytes

-- The fields of a `TransferConfig` that differ between two of them.
pub record TransferConfig : Type 0 where
  pub display_name : Bytes
  pub destination : Bytes
  pub table : Bytes
  pub data_path : Bytes

-- The transfer service: its list of configurations, by the path of their data, and the creation of
-- one. A configuration that was created is in the list, and creating one takes none out of it.
abbrev pub covers : Result (Dict Bytes) → Bytes → Bool
covers (ok d) path = has path d
covers (err e) path = false

pub record TransferService : Type 1 where
  pub State : Type 0
  pub configs : State → Result (Dict Bytes)
  pub create : TransferConfig → M State Bytes
  pub create_covers :
      (c : TransferConfig) (s s' : State) (name : Bytes)
      → create c s ≡ (s', ok name)
      → covers (configs s') c.data_path ≡ true
  pub create_keeps :
      (c : TransferConfig) (s : State) (path : Bytes)
      → covers (configs s) path ≡ true
      → covers (configs (create c s).0) path ≡ true
  pub create_readable :
      (c : TransferConfig) (s : State)
      → is_ok (configs s) ≡ true
      → is_ok (configs (create c s).0) ≡ true

-- `dirs[len(dirs)-2]`, when there are two.
unfoldable pub parent_of : List Bytes → Option Bytes
parent_of [] = none
parent_of (d ∷ []) = none
parent_of (d ∷ e ∷ []) = some d
parent_of (d ∷ e ∷ f ∷ dirs) = parent_of (e ∷ f ∷ dirs)

-- `is_month` is whether `time.Parse("2006.01", parent)` succeeds. `list` gives the prefixes below a
-- prefix, an empty one for an object.
module _ (is_month : Bytes → Bool) where
  abbrev pub month_parent : Option Bytes → Bool
  month_parent none = false
  month_parent (some parent) = is_month parent

  unfoldable pub is_month_dir : Bytes → Bool
  unfolding parent_of
  is_month_dir prefix = month_parent (parent_of (split b'/' prefix))

  abbrev pub has_parent : Option Bytes → Bool
  has_parent none = false
  has_parent (some parent) = true

  -- The month directories among the prefixes of a listing.
  unfoldable pub months_among : List Bytes → List Bytes
  unfolding is_month_dir
  months_among [] = []
  months_among (p ∷ prefixes) =
      let rest = months_among prefixes in if is_month_dir p then p ∷ rest else rest

  -- The other directories among them, which are listed later.
  unfoldable pub queries_among : List Bytes → List Bytes
  unfolding is_month_dir
  queries_among [] = []
  queries_among (p ∷ prefixes) =
      let rest = queries_among prefixes in
      if is_month_dir p
      then rest
      else if has_parent (parent_of (split b'/' p))
      then (if is_empty p then rest else p ∷ rest)
      else rest

  module _ (list : Bytes → Result (List Bytes)) where
    -- The loop over the queries. The first argument bounds the number of listings: `none` when it
    -- runs out.
    unfoldable pub fetch_loop : ℕ → List Bytes → List Bytes → Option (Result (List Bytes))
    unfolding months_among queries_among
    fetch_loop n [] res = some (ok res)
    fetch_loop zero (q ∷ queries) res = none
    fetch_loop (suc n) (q ∷ queries) res = elim (list q) [
      | err e ↦ some (err e)
      | ok prefixes ↦
          fetch_loop n (queries ++ queries_among prefixes) (res ++ months_among prefixes)
    ]

    unfoldable pub fetch_month_dirs : ℕ → Option (Result (List Bytes))
    unfolding fetch_loop
    fetch_month_dirs n = fetch_loop n ([] ∷ []) []

unfoldable pub pattern_of : TransferParams → Bytes → Bytes
pattern_of cfg dir = codes "gs://" ++ cfg.bucket ++ codes "/" ++ dir ++ codes "*/*.gz"

unfoldable pub make_transfer_config : TransferParams → Bytes → Bytes → TransferConfig
make_transfer_config cfg dir pattern = record {
  display_name = dir;
  destination = cfg.dataset;
  table = cfg.table;
  data_path = pattern;
}

-- The loop goes on after a configuration was created.
abbrev pub after_create :
    {S A : Type 0} → (S → S × Result (Unit {0})) → S × Result A → S × Result (Unit {0})
after_create rest (s, ok name) = rest s
after_create rest (s, err e) = (s, err e)

module _ (D : TransferService) (backoff : Backoff D.State Bytes) (cfg : TransferParams) where
  unfoldable pub create_transfer_runs : List Bytes → Dict Bytes → M D.State (Unit {0})
  unfolding pattern_of make_transfer_config
  create_transfer_runs [] covered s = (s, ok tt)
  create_transfer_runs (dir ∷ dirs) covered s =
      if has (pattern_of cfg dir) covered
      then create_transfer_runs dirs covered s
      else after_create (λ t. create_transfer_runs dirs covered t)
          (backoff.retry 3 (D.create (make_transfer_config cfg dir (pattern_of cfg dir))) s)

  abbrev pub covered_stage : List Bytes → Result (Dict Bytes) → M D.State (Unit {0})
  covered_stage dirs (err e) s = (s, err e)
  covered_stage dirs (ok covered) s = create_transfer_runs dirs covered s

  abbrev pub months_stage : Result (List Bytes) → M D.State (Unit {0})
  months_stage (err e) s = (s, err e)
  months_stage (ok dirs) s = covered_stage dirs (within "fetchCoveredDirs(%s)" (D.configs s)) s

  -- `Transfer`, on what `fetchMonthDirs` returned.
  unfoldable pub transfer : Result (List Bytes) → M D.State (Unit {0})
  unfolding create_transfer_runs
  transfer months s = months_stage (within "fetchMonthDirs(%s)" months) s
