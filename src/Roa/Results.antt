-- ===== src/Roa/Results.antt =====
-- The rest of `mainPage` in Historical-ROA/main.go: the rows that its query gives, and how they are
-- shown. `Unix` and `Format` of an instant, and the print of an integer, are arguments.
pub mod Laws
use google_cloud_storage.Base.{
  ℕ, ◌+◌, ◌-◌, ◌%◌, ◌^◌, ◌≤◌, ◌<◌, Bytes, same, same_iff, is_empty, is_empty_iff, List, [], ◌∷◌,
  Option, Bool, true, false, ◌&&◌, not, ltb, if◌then◌else◌, ◌≡◌, ◌≢◌, ◌↔◌, ◌⊎◌, inl, inr, refl, sym,
  ap, ◌∙◌, arith, Bool-cases,
}
use google_cloud_storage.Base.Result.{Error, Result, ok, err}
use google_cloud_storage.Base.Run.{Run, returns, panic}
use mathlib.Core.List.{Memᴰ, map}
use mathlib.Core.List.Memᴰ
use mathlib.Core.Path.{subst}
use google_cloud_storage.Roa
use google_cloud_storage.Roa.{
  ℤ, pos, negsuc, same_int, StoredRoa, TimedRoa, Query, Page, choose_query, query_of, full_prefix,
  full_prefix_range,
}
use google_cloud_storage.Roa.Merge.Laws.{same_int_iff}

-- The `WHERE` clause of each statement, on its three parameters.
unfoldable pub selects : Query → Bytes → Bytes → ℤ → StoredRoa → Bool
selects Query.by_asn asn prefix mask r = same r.asn asn
selects Query.by_prefix asn prefix mask r = same r.prefix prefix && same_int r.subnet mask
selects Query.by_asn_and_prefix asn prefix mask r =
    same r.asn asn && (same r.prefix prefix && same_int r.subnet mask)

unfoldable pub selected : Query → Bytes → Bytes → ℤ → List TimedRoa → List TimedRoa
unfolding selects
selected q asn prefix mask [] = []
selected q asn prefix mask (r ∷ rows) =
    let rest = selected q asn prefix mask rows in
    if selects q asn prefix mask r.roa then r ∷ rest else rest

-- Go's `int32(x)`.
unfoldable pub int32 : ℤ → ℤ
int32 (pos n) =
    if ltb (n % 2 ^ 32) (2 ^ 31) then pos (n % 2 ^ 32) else negsuc (2 ^ 32 - 1 - n % 2 ^ 32)
int32 (negsuc n) =
    if ltb (n % 2 ^ 32) (2 ^ 31) then negsuc (n % 2 ^ 32) else pos (2 ^ 32 - 1 - n % 2 ^ 32)

-- `ResultsFromDB`
pub record Shown : Type 0 where
  pub asn : Bytes
  pub prefix : Bytes
  pub mask : ℤ
  pub maxlen : ℤ
  pub ta : Bytes
  pub unix_times : List ℤ
  pub rfc3339_times : List Bytes
  pub full : Bytes
  pub full_range : Bytes

-- What a request is answered with.
pub data Answer : Type 0 where
  form : Answer
  failed : Error → Answer
  results : List Shown → Answer

module _ (unix : ℕ → ℤ) (rfc3339 : ℕ → Bytes) (decimal : ℤ → Bytes) where
  unfoldable pub shown : TimedRoa → Shown
  unfolding int32 full_prefix full_prefix_range
  shown r = record {
    asn = r.roa.asn;
    prefix = r.roa.prefix;
    mask = int32 r.roa.subnet;
    maxlen = int32 r.roa.max_length;
    ta = r.roa.ta;
    unix_times = map unix r.times;
    rfc3339_times = map rfc3339 r.times;
    full = full_prefix decimal r.roa.prefix (int32 r.roa.subnet);
    full_range =
        full_prefix_range decimal r.roa.prefix (int32 r.roa.subnet) (int32 r.roa.max_length);
  }

  -- The query on the table, by whether it could be run.
  abbrev pub ran : List Shown → Result (Unit {0}) → Answer
  ran rows (err e) = failed e
  ran rows (ok u) = results rows

  abbrev pub shown_all : List TimedRoa → List Shown
  shown_all [] = []
  shown_all (r ∷ rows) = shown r ∷ shown_all rows

  unfoldable pub answer_of : List TimedRoa → Result (Unit {0}) → Page → Answer
  unfolding selected
  answer_of table job Page.form = form
  answer_of table job (Page.search q asn prefix mask) =
      ran (shown_all (selected q asn prefix mask table)) job
