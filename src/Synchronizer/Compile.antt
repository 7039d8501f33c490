-- ===== src/Synchronizer/Compile.antt =====
-- `compileDir` of pkg/synchronizer/synchronizer.go: the archives of a span of time, by collector.
pub mod Covers
use google_cloud_storage.Base.{
  ℕ, ◌≤◌, ◌<◌, Bytes, codes, same, List, [], ◌∷◌, ◌++◌, Bool, true, false, ◌&&◌, ltb, if◌then◌else◌,
  ◌≡◌, ◌≢◌, ◌⊎◌, inl, inr, refl, arith, Bool-cases, All, All-append, length, same_refl,
}
use google_cloud_storage.Base.Dict.{Dict, insert}
use google_cloud_storage.Base.Result.{errorf, wrap, Result, ok, err}
use google_cloud_storage.Strings.FilePath.{join_path}
use google_cloud_storage.Synchronizer.Months.{in_months}
use google_cloud_storage.Synchronizer.FileTime.{time_from_filename}
use google_cloud_storage.Synchronizer.Dir.{
  prepare_dir, All-sort_strings, IsSorted, sort_strings-IsSorted, sort_strings-ne-nil,
}

-- `ftp.Entry`, with whether it is a folder.
pub record Entry : Type 0 where
  pub name : Bytes
  pub is_folder : Bool

-- The collectors of the top directory. `bgpdata` itself stands for the root.
unfoldable pub roots_of : List Entry → Dict (List Bytes) → Dict (List Bytes)
roots_of [] res = res
roots_of (e ∷ entries) res = roots_of entries (
    if e.is_folder
    then insert (if same e.name (codes "bgpdata") then [] else e.name) [] res
    else res)

abbrev pub month_dir : Bytes → Bytes → Bytes
month_dir root m = join_path (root ∷ codes "bgpdata" ∷ m ∷ codes "UPDATES" ∷ [])

abbrev pub file_path : Bytes → Bytes → Bytes → Bytes
file_path root m name = join_path (root ∷ codes "bgpdata" ∷ m ∷ codes "UPDATES" ∷ name ∷ [])

-- `ts.After(start) && ts.Before(end)`, for a name that has a time.
unfoldable pub in_span : ℕ → ℕ → Result ℕ → Bool
in_span start end (err e) = false
in_span start end (ok ts) = ltb start ts && ltb ts end

unfoldable pub month_files : ℕ → ℕ → Bytes → Bytes → List Entry → List Bytes
unfolding in_span
month_files start end root m [] = []
month_files start end root m (f ∷ files) =
    let rest = month_files start end root m files in
    if in_span start end (time_from_filename f.name) then file_path root m f.name ∷ rest else rest

-- A listing that failed is only logged.
abbrev pub listed : Result (List Entry) → List Entry
listed (ok files) = files
listed (err e) = []

-- The second argument of the section is `ftpConn.List`.
module _ (start end : ℕ) (list : Bytes → Result (List Entry)) where
  unfoldable pub root_files : Bytes → List Bytes → List Bytes
  unfolding month_files
  root_files root [] = []
  root_files root (m ∷ months) =
      month_files start end root m (listed (list (month_dir root m))) ++ root_files root months

  -- The files of each root, which had none.
  unfoldable pub fill : List Bytes → Dict (List Bytes) → Dict (List Bytes)
  unfolding root_files
  fill months [] = []
  fill months ((root, fs) ∷ res) = (root, fs ++ root_files root months) ∷ fill months res

  unfoldable pub enough : ℕ → Dict (List Bytes) × ℕ → Result (Dict (List Bytes))
  enough expected (res, total) =
      if ltb (length res) expected then err (errorf "missing collectors") else ok res

  -- `compileDir`, with the number of collectors that the synchronizer expects.
  unfoldable pub compile_dir : ℕ → List Bytes → Result (Dict (List Bytes))
  unfolding roots_of fill enough
  compile_dir expected months = elim (list (codes "/")) [
    | err e ↦ err (wrap "ftp LIST" e)
    | ok entries ↦ enough expected (prepare_dir (fill months (roots_of entries [])))
  ]

  abbrev pub Listed : Bytes → List Entry → Type 0
  Listed name [] = ⊥
  Listed name (f ∷ files) = (f.name ≡ name) ⊎ Listed name files

  -- An archive of a root: it was listed under one of the months, and its name has a time strictly
  -- inside the span.
  pub record IsArchive (months : List Bytes) (root path : Bytes) : Type 0 where
    pub month : Bytes
    pub name : Bytes
    pub time : ℕ
    pub spelled : path ≡ file_path root month name
    pub spanned : in_months month months ≡ true
    pub found : Listed name (listed (list (month_dir root month)))
    pub timed : time_from_filename name ≡ ok time
    pub after : start < time
    pub before : time < end

  in_span_time :
      (r : Result ℕ) → in_span start end r ≡ true → (t : ℕ) × (r ≡ ok t) × (start < t) × (t < end)
  unfolding in_span
  in_span_time (err e) h = cc
  in_span_time (ok t) h = (t, refl, ground arith, ground arith)

  All-Listed_tail :
      (g : Entry) (files all : List Entry)
      → All (λ f. Listed f.name all) files
      → All (λ f. Listed f.name (g ∷ all)) files
  All-Listed_tail g [] all h = tt
  All-Listed_tail g (f ∷ files) all (hf, h) = (inr hf, All-Listed_tail g files all h)

  All-Listed : (files : List Entry) → All (λ f. Listed f.name files) files
  All-Listed [] = tt
  All-Listed (f ∷ files) = (inl refl, All-Listed_tail f files files (All-Listed files))

  module _ (months : List Bytes) (root m : Bytes) (spanned : in_months m months ≡ true) where
    month_files-IsArchive :
        (files : List Entry)
        → All (λ f. Listed f.name (listed (list (month_dir root m)))) files
        → All (IsArchive months root) (month_files start end root m files)
    unfolding month_files
    month_files-IsArchive [] h = tt
    month_files-IsArchive (f ∷ files) (found, h) =
        elim (Bool-cases (in_span start end (time_from_filename f.name))) [
          | inr e ↦ rw e (month_files-IsArchive files h)
          | inl e ↦
              let (t, timed, after, before) = in_span_time (time_from_filename f.name) e in
              rw e (
                record {
                  month = m;
                  name = f.name;
                  time = t;
                  spelled = refl;
                  spanned = spanned;
                  found = found;
                  timed = timed;
                  after = after;
                  before = before;
                },
                month_files-IsArchive files h,
              )
        ]

  root_files-IsArchive :
      (all : List Bytes) (root : Bytes) (months : List Bytes)
      → All (λ m. in_months m all ≡ true) months
      → All (IsArchive all root) (root_files root months)
  unfolding root_files
  root_files-IsArchive all root [] h = tt
  root_files-IsArchive all root (m ∷ months) (spanned, h) =
      All-append (IsArchive all root) (month_files start end root m _) _
        (month_files-IsArchive all root m spanned _ (All-Listed _))
        (root_files-IsArchive all root months h)

  -- A root with nothing but archives.
  abbrev Archives : List Bytes → Bytes × List Bytes → Type 0
  Archives months (root, files) = All (IsArchive months root) files

  abbrev AllEmpty : Dict (List Bytes) → Type 0
  AllEmpty = All (λ p. p.1 ≡ [])

  insert-AllEmpty :
      (root : Bytes) (res : Dict (List Bytes)) → AllEmpty res → AllEmpty (insert root [] res)
  unfolding insert
  insert-AllEmpty root [] h = (refl, tt)
  insert-AllEmpty root ((r, fs) ∷ res) (e, h) = elim (Bool-cases (same r root)) [
    | inl f ↦ rw f (refl, h)
    | inr f ↦ rw f (e, insert-AllEmpty root res h)
  ]

  roots_of-AllEmpty :
      (entries : List Entry) (res : Dict (List Bytes))
      → AllEmpty res
      → AllEmpty (roots_of entries res)
  unfolding roots_of
  roots_of-AllEmpty [] res h = h
  roots_of-AllEmpty (e ∷ entries) res h = elim (Bool-cases e.is_folder) [
    | inl f ↦ rw f (
        roots_of-AllEmpty entries _
          (insert-AllEmpty (if same e.name (codes "bgpdata") then [] else e.name) res h))
    | inr f ↦ rw f (roots_of-AllEmpty entries res h)
  ]

  All-in_months_tail :
      (m : Bytes) (ms all : List Bytes)
      → All (λ x. in_months x all ≡ true) ms
      → All (λ x. in_months x (m ∷ all) ≡ true) ms
  unfolding in_months
  All-in_months_tail m [] all h = tt
  All-in_months_tail m (x ∷ ms) all (hx, h) = (ground arith, All-in_months_tail m ms all h)

  All-in_months : (ms : List Bytes) → All (λ x. in_months x ms ≡ true) ms
  unfolding in_months
  All-in_months [] = tt
  All-in_months (m ∷ ms) = (rw (same_refl m), All-in_months_tail m ms ms (All-in_months ms))

  fill-Archives :
      (months : List Bytes) (res : Dict (List Bytes))
      → AllEmpty res
      → All (Archives months) (fill months res)
  unfolding fill
  fill-Archives months [] h = tt
  fill-Archives months ((root, fs) ∷ res) (e, h) = (
    rw e (root_files-IsArchive months root months (All-in_months months)),
    fill-Archives months res h,
  )

  -- A collector's archives, at least one, in order.
  abbrev pub IsListing : List Bytes → Bytes × List Bytes → Type 0
  IsListing months (root, files) = (files ≢ []) × IsSorted files × All (IsArchive months root) files

  prepare_dir-IsListing :
      (months : List Bytes) (dir : Dict (List Bytes))
      → All (Archives months) dir
      → All (IsListing months) (prepare_dir dir).0
  unfolding prepare_dir
  prepare_dir-IsListing months [] h = tt
  prepare_dir-IsListing months ((root, []) ∷ dir) (e, h) = prepare_dir-IsListing months dir h
  prepare_dir-IsListing months ((root, f ∷ fs) ∷ dir) (e, h) = (
    (
      sort_strings-ne-nil f fs,
      sort_strings-IsSorted (f ∷ fs),
      All-sort_strings (IsArchive months root) (f ∷ fs) e,
    ),
    prepare_dir-IsListing months dir h,
  )

  pub enough_ok :
      (expected : ℕ) (r : Dict (List Bytes) × ℕ) (res : Dict (List Bytes))
      → enough expected r ≡ ok res
      → (r.0 ≡ res) × (expected ≤ length res)
  unfolding enough
  enough_ok expected (d, total) res h = ground arith

  -- A compiled directory has at least the expected number of collectors. Each has some archives
  -- listed, in order, and every one of them was found by FTP under a month asked for, with a time
  -- strictly between the start and the end.
  pub compile_dir_sound :
      (expected : ℕ) (months : List Bytes) (res : Dict (List Bytes))
      → compile_dir expected months ≡ ok res
      → (expected ≤ length res) × All (IsListing months) res
  unfolding compile_dir
  compile_dir_sound expected months res h = go (list (codes "/")) h
    where
      go :
          (r : Result (List Entry))
          → (elim r [
            | err e ↦ err (wrap "ftp LIST" e)
            | ok entries ↦ enough expected (prepare_dir (fill months (roots_of entries [])))
          ])
            ≡ ok res
          → (expected ≤ length res) × All (IsListing months) res
      go (err e) h = cc
      go (ok entries) h =
          let dir : Dict (List Bytes) = fill months (roots_of entries []) in
          let (same_res, many) = enough_ok expected (prepare_dir dir) res h in
          (
            many,
            rw (← same_res) (
                prepare_dir-IsListing months dir
                  (fill-Archives months (roots_of entries []) (roots_of-AllEmpty entries [] tt))),
          )
