-- ===== src/Synchronizer/Dir.antt =====
-- `prepareDir` of pkg/synchronizer/synchronizer.go: directories with no file are dropped, and the
-- files of the others are sorted. `sort.Strings` is modelled by insertion.
use mathlib.Core.List.{Perm, cons-ne-nil}
use mathlib.Core.List.Perm
use google_cloud_storage.Base.{
  ℕ, ◌+◌, Bytes, List, [], ◌∷◌, Bool, true, false, ◌&&◌, ◌||◌, ltb, ◌==◌, if◌then◌else◌, ◌≡◌, ◌≢◌,
  inl, inr, refl, arith, Bool-cases, All, length,
}
use google_cloud_storage.Base.Dict.{Dict}

-- `s <= t` on strings, byte by byte.
unfoldable pub le_bytes : Bytes → Bytes → Bool
le_bytes [] t = true
le_bytes (x ∷ s) [] = false
le_bytes (x ∷ s) (y ∷ t) = ltb x y || ((x == y) && le_bytes s t)

unfoldable pub insert_sorted : Bytes → List Bytes → List Bytes
insert_sorted x [] = x ∷ []
insert_sorted x (y ∷ ys) = if le_bytes x y then x ∷ y ∷ ys else y ∷ insert_sorted x ys

-- `sort.Strings`
unfoldable pub sort_strings : List Bytes → List Bytes
unfolding insert_sorted
sort_strings [] = []
sort_strings (x ∷ xs) = insert_sorted x (sort_strings xs)

-- The directories kept, and the number of their files.
unfoldable pub prepare_dir : Dict (List Bytes) → Dict (List Bytes) × ℕ
unfolding sort_strings
prepare_dir [] = ([], 0)
prepare_dir ((root, []) ∷ dir) = prepare_dir dir
prepare_dir ((root, f ∷ fs) ∷ dir) =
    let rest = prepare_dir dir in ((root, sort_strings (f ∷ fs)) ∷ rest.0, length (f ∷ fs) + rest.1)

-- Every file is no later in the order than those behind it.
abbrev pub IsSorted : List Bytes → Type 0
IsSorted [] = Unit
IsSorted (x ∷ xs) = All (λ y. le_bytes x y ≡ true) xs × IsSorted xs

le_bytes_total : (s t : Bytes) → le_bytes s t ≡ false → le_bytes t s ≡ true
unfolding le_bytes
le_bytes_total [] t h = cc
le_bytes_total (x ∷ s) [] h = refl
le_bytes_total (x ∷ s) (y ∷ t) h = ground (arith, le_bytes_total s t)

le_bytes_trans : (s t u : Bytes) → le_bytes s t ≡ true → le_bytes t u ≡ true → le_bytes s u ≡ true
unfolding le_bytes
le_bytes_trans [] t u h k = refl
le_bytes_trans (x ∷ s) [] u h k = cc
le_bytes_trans (x ∷ s) (y ∷ t) [] h k = cc
le_bytes_trans (x ∷ s) (y ∷ t) (z ∷ u) h k = ground (arith, le_bytes_trans s t u)

All-le_bytes_trans :
    (x y : Bytes) (ys : List Bytes)
    → le_bytes x y ≡ true
    → All (λ z. le_bytes y z ≡ true) ys
    → All (λ z. le_bytes x z ≡ true) ys
All-le_bytes_trans x y [] h all = tt
All-le_bytes_trans x y (z ∷ ys) h (hz, all) =
    (le_bytes_trans x y z h hz, All-le_bytes_trans x y ys h all)

-- What holds of a file and of the sorted ones holds of all, once it is inserted.
pub All-insert_sorted {κ} :
    (P : Bytes → Type κ) (x : Bytes) (ys : List Bytes) → P x → All P ys → All P (insert_sorted x ys)
unfolding insert_sorted
All-insert_sorted P x [] px all = (px, tt)
All-insert_sorted P x (y ∷ ys) px (py, all) = elim (Bool-cases (le_bytes x y)) [
  | inl e ↦ rw e (px, (py, all))
  | inr e ↦ rw e (py, All-insert_sorted P x ys px all)
]

pub All-sort_strings {κ} :
    (P : Bytes → Type κ) (xs : List Bytes) → All P xs → All P (sort_strings xs)
unfolding sort_strings
All-sort_strings P [] all = tt
All-sort_strings P (x ∷ xs) (px, all) =
    All-insert_sorted P x (sort_strings xs) px (All-sort_strings P xs all)

insert_sorted-IsSorted : (x : Bytes) (ys : List Bytes) → IsSorted ys → IsSorted (insert_sorted x ys)
unfolding insert_sorted
insert_sorted-IsSorted x [] s = (tt, tt)
insert_sorted-IsSorted x (y ∷ ys) (first, s) = elim (Bool-cases (le_bytes x y)) [
  | inl e ↦ rw e ((e, All-le_bytes_trans x y ys e first), (first, s))
  | inr e ↦ rw e (
    All-insert_sorted (λ z. le_bytes y z ≡ true) x ys (le_bytes_total x y e) first,
    insert_sorted-IsSorted x ys s,
  )
]

pub sort_strings-IsSorted : (xs : List Bytes) → IsSorted (sort_strings xs)
unfolding sort_strings
sort_strings-IsSorted [] = tt
sort_strings-IsSorted (x ∷ xs) =
    insert_sorted-IsSorted x (sort_strings xs) (sort_strings-IsSorted xs)

insert_sorted-perm : (x : Bytes) (ys : List Bytes) → Perm (insert_sorted x ys) (x ∷ ys)
unfolding insert_sorted
insert_sorted-perm x [] = Perm.refl (x ∷ [])
insert_sorted-perm x (y ∷ ys) = elim (Bool-cases (le_bytes x y)) [
  | inl e ↦ rw e (Perm.refl (x ∷ y ∷ ys))
  | inr e ↦ rw e (Perm.trans (Perm.cons y (insert_sorted-perm x ys)) (Perm.swap x y ys))
]

sort_strings-perm : (xs : List Bytes) → Perm (sort_strings xs) xs
unfolding sort_strings
sort_strings-perm [] = Perm.refl []
sort_strings-perm (x ∷ xs) =
    Perm.trans (insert_sorted-perm x (sort_strings xs)) (Perm.cons x (sort_strings-perm xs))

insert_sorted-ne-nil : (x : Bytes) (ys : List Bytes) → insert_sorted x ys ≢ []
unfolding insert_sorted
insert_sorted-ne-nil x [] = cons-ne-nil x []
insert_sorted-ne-nil x (y ∷ ys) = ground arith

pub sort_strings-ne-nil : (x : Bytes) (xs : List Bytes) → sort_strings (x ∷ xs) ≢ []
unfolding sort_strings
sort_strings-ne-nil x xs = insert_sorted-ne-nil x (sort_strings xs)

-- What `prepareDir` makes of a directory listing: empty directories are gone, and the others keep
-- their place and hold the same files in order.
pub data Prepared : Dict (List Bytes) → Dict (List Bytes) → Type 0 where
  done : Prepared [] []
  drops : {d e : Dict (List Bytes)} (root : Bytes) → Prepared d e → Prepared ((root, []) ∷ d) e
  keeps :
      {d e : Dict (List Bytes)} (root : Bytes) {fs gs : List Bytes}
      → fs ≢ []
      → IsSorted gs
      → Perm gs fs
      → Prepared d e
      → Prepared ((root, fs) ∷ d) ((root, gs) ∷ e)

abbrev pub count_files : Dict (List Bytes) → ℕ
count_files [] = 0
count_files ((root, fs) ∷ dir) = length fs + count_files dir

-- Empty directories are dropped, the files of the others are sorted, and the total counts every
-- file.
pub prepare_dir_lem :
    (dir : Dict (List Bytes))
    → Prepared dir (prepare_dir dir).0 × ((prepare_dir dir).1 ≡ count_files dir)
unfolding prepare_dir
prepare_dir_lem [] = (done, refl)
prepare_dir_lem ((root, []) ∷ dir) =
    (drops root (prepare_dir_lem dir).0, omega (arith, (prepare_dir_lem dir).1))
prepare_dir_lem ((root, f ∷ fs) ∷ dir) = (
  keeps root (cons-ne-nil f fs) (sort_strings-IsSorted (f ∷ fs)) (sort_strings-perm (f ∷ fs))
      (prepare_dir_lem dir).0,
  omega (arith, (prepare_dir_lem dir).1),
)
