-- ===== src/Strings/FilePath.antt =====
-- `filepath.Ext`, the last element of `filepath.Split`, and `filepath.Join` with its `Clean`.
use mathlib.Core.List.{reverse}
use google_cloud_storage.Base.{
  Bytes, codes, is_empty, same, List, [], ◌∷◌, Bool, Bool-cases, ◌≢◌, inl, inr, ◌&&◌, ◌||◌, not,
  ◌==◌, if◌then◌else◌, false,
}
use google_cloud_storage.Strings.Split.{split, join}
use google_cloud_storage.Strings.Trim.{in_set}
use google_cloud_storage.Strings.Search.{has_prefix}

-- The text from the last dot of the last element.
unfoldable pub extension : Bytes → Bytes
unfolding in_set
extension [] = []
extension (c ∷ s) =
    let later = extension s in
    if not (is_empty later) then later else if (c == b'.') && not (in_set b'/' s) then c ∷ s else []

unfoldable pub last_of : Bytes → List Bytes → Bytes
last_of p [] = p
last_of p (q ∷ qs) = last_of q qs

-- `_, file := filepath.Split(path)`
unfoldable pub base_name : Bytes → Bytes
unfolding last_of split
base_name path = last_of [] (split b'/' path)

-- The loop of `filepath.Clean` over the elements of a path. The elements kept are stacked.
unfoldable pub clean_elements : Bool → List Bytes → List Bytes → List Bytes
clean_elements rooted [] stack = reverse stack
clean_elements rooted (e ∷ es) [] =
    clean_elements rooted es
      (if is_empty e || same e (codes ".") || (same e (codes "..") && rooted) then [] else e ∷ [])
clean_elements rooted (e ∷ es) (top ∷ stack) = clean_elements rooted es (
    if is_empty e || same e (codes ".")
    then top ∷ stack
    else if same e (codes "..") && not (same top (codes ".."))
    then stack
    else e ∷ top ∷ stack)

unfoldable pub clean : Bytes → Bytes
unfolding clean_elements split join has_prefix same is_empty
clean path =
    let rooted = has_prefix path (codes "/") in
    let body = join b'/' (clean_elements rooted (split b'/' path) []) in
    if rooted then b'/' ∷ body else if is_empty body then codes "." else body

-- `filepath.Join`: leading empty elements are skipped.
unfoldable pub join_path : List Bytes → Bytes
unfolding clean
join_path [] = []
join_path (e ∷ es) = if is_empty e then join_path es else clean (join b'/' (e ∷ es))

or_dot-ne-nil : (b : Bytes) → (if is_empty b then codes "." else b) ≢ []
unfolding is_empty
or_dot-ne-nil [] h = absurd (cc)
or_dot-ne-nil (c ∷ b) h = absurd (cc)

-- A cleaned path is not empty.
pub clean-ne-nil : (path : Bytes) → clean path ≢ []
unfolding clean
clean-ne-nil path = elim (Bool-cases (has_prefix path (codes "/"))) [
  | inl e ↦ rw e (λ h. absurd (cc))
  | inr e ↦ rw e (or_dot-ne-nil (join b'/' (clean_elements false (split b'/' path) [])))
]
