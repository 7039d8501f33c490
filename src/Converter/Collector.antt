-- ===== src/Converter/Collector.antt =====
-- `routeViewsCollectorFromPath` of pkg/mrt_converter/mrt_converter.go.
use mathlib.Core.List.{cons-ne-nil}
use google_cloud_storage.Base.{
  Bytes, codes, same, same_iff, is_empty, List, [], ◌∷◌, ◌++◌, ◌≡◌, ◌≢◌, refl, true, false, not,
  arith, if◌then◌else◌, Bool-cases, inl, inr, ◌==◌,
}
use google_cloud_storage.Base.Result.{Result, ok, err, errorf}
use google_cloud_storage.Base.Run.{Run, returns, index, ◌>>=◌}
use google_cloud_storage.Strings.Split.{split, split-append, split-ne-nil, Lacks}
use google_cloud_storage.Strings.Search.{has_prefix, contains, contains-append_right}

-- The path with a slash in front.
unfoldable pub rooted : Bytes → Bytes
rooted filename = if not (has_prefix filename (codes "/")) then b'/' ∷ filename else filename

unfoldable pub collector_of_dirs : List Bytes → Run (Result Bytes)
collector_of_dirs dirs = do
  d ← index dirs 1
  if same d (codes "bgpdata")
      then returns (ok (codes "route-views2"))
      else do d' ← index dirs 1; returns (ok d')

unfoldable pub collector_from_path : Bytes → Run (Result Bytes)
unfolding rooted collector_of_dirs
collector_from_path filename =
    if is_empty filename
    then returns (err (errorf "empty file path"))
    else if not (contains (rooted filename) (codes "bgpdata"))
    then returns (err (errorf "file %s is not a valid RouteViews archive path"))
    else collector_of_dirs (split b'/' (rooted filename))

-- The first element of a path.
abbrev pub head_or_empty : List Bytes → Bytes
head_or_empty [] = []
head_or_empty (d ∷ dirs) = d

pub first_dir : Bytes → Bytes
first_dir p = head_or_empty (split b'/' p)

abbrev collector_of : Bytes → Result Bytes
collector_of p =
    ok (if same (first_dir p) (codes "bgpdata") then codes "route-views2" else first_dir p)

collector_of_dirs_slash :
    (p : Bytes) → collector_of_dirs (split b'/' (b'/' ∷ p)) ≡ returns (collector_of p)
unfolding collector_of_dirs split first_dir
collector_of_dirs_slash p = ground (arith, split-ne-nil b'/' p)

rooted-slash : (p : Bytes) → rooted (b'/' ∷ p) ≡ b'/' ∷ p
unfolding rooted has_prefix
rooted-slash p = refl

rooted_shape : (p : Bytes) → p ≢ [] → (q : Bytes) × (rooted p ≡ b'/' ∷ q)
unfolding rooted has_prefix
rooted_shape [] h = absurd (h refl)
rooted_shape (c ∷ p) h = elim (Bool-cases (c == b'/')) [
  | inl e ↦ (p, ground arith)
  | inr e ↦ (c ∷ p, ground arith)
]

-- Indexing the elements of the path never panics: every path gives a collector or an error.
pub collector_from_path_total :
    (p : Bytes) → (r : Result Bytes) × (collector_from_path p ≡ returns r)
unfolding collector_from_path is_empty
collector_from_path_total [] = (err (errorf "empty file path"), refl)
collector_from_path_total (c ∷ p) =
    let (q, e) = rooted_shape (c ∷ p) (cons-ne-nil c p) in
    elim (Bool-cases (contains (rooted (c ∷ p)) (codes "bgpdata"))) [
      | inl found ↦ (collector_of q, rw (found, e) (collector_of_dirs_slash q))
      | inr missing ↦ (err (errorf "file %s is not a valid RouteViews archive path"), rw missing)
    ]

-- A leading slash makes no difference.
pub collector_from_path-slash :
    (p : Bytes)
    → p ≢ []
    → has_prefix p (codes "/") ≡ false
    → collector_from_path (b'/' ∷ p) ≡ collector_from_path p
unfolding collector_from_path is_empty
collector_from_path-slash [] h _ = absurd (h refl)
collector_from_path-slash (c ∷ p) _ h = ground (arith, rooted-slash (c ∷ p))

is_empty-append : (root rest : Bytes) → is_empty (root ++ (b'/' ∷ rest)) ≡ false
unfolding is_empty
is_empty-append [] rest = refl
is_empty-append (c ∷ root) rest = refl

first_dir-append : (root rest : Bytes) → Lacks b'/' root → first_dir (root ++ (b'/' ∷ rest)) ≡ root
unfolding first_dir
first_dir-append root rest h = rw (split-append b'/' root rest h)

-- A path whose first element is not empty is read behind a slash.
rooted_of_Lacks :
    (root rest : Bytes)
    → root ≢ []
    → Lacks b'/' root
    → rooted (root ++ (b'/' ∷ rest)) ≡ b'/' ∷ (root ++ (b'/' ∷ rest))
unfolding rooted has_prefix
rooted_of_Lacks [] rest h l = absurd (h refl)
rooted_of_Lacks (c ∷ root) rest h (hc, l) = ground arith

-- An archive path belongs to the collector that it begins with, unless that is the directory
-- `bgpdata` itself, which is route-views2's.
pub collector_from_path_named :
    (root rest : Bytes)
    → Lacks b'/' root
    → root ≢ []
    → contains rest (codes "bgpdata") ≡ true
    → collector_from_path (root ++ (b'/' ∷ rest))
      ≡ returns (ok (if same root (codes "bgpdata") then codes "route-views2" else root))
unfolding collector_from_path
collector_from_path_named root rest l h found = rw (
  empty_no,
  rooted_of_Lacks root rest h l,
  contains-append_right (b'/' ∷ root) (b'/' ∷ rest) (codes "bgpdata")
      (contains-append_right (b'/' ∷ []) rest _ found),
  collector_of_dirs_slash,
  first_dir-append root rest l,
)
  where
    empty_no : is_empty (root ++ (b'/' ∷ rest)) ≡ false
    empty_no = is_empty-append root rest

pub collector_from_path_root :
    (root rest : Bytes)
    → Lacks b'/' root
    → root ≢ []
    → contains rest (codes "bgpdata") ≡ true
    → root ≢ codes "bgpdata"
    → collector_from_path (root ++ (b'/' ∷ rest)) ≡ returns (ok root)
collector_from_path_root root rest l h found differs =
    rw (collector_from_path_named root rest l h found)
      (ground (arith, same_iff root (codes "bgpdata")))
