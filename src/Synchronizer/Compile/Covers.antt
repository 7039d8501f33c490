-- ===== src/Synchronizer/Compile/Covers.antt =====
-- What `compileDir` of pkg/synchronizer/synchronizer.go does not leave out.
use google_cloud_storage.Base.{
  ℕ, Bytes, codes, same, same_iff, List, [], ◌∷◌, ◌++◌, true, if◌then◌else◌, ◌<◌, ◌≡◌, ◌⊎◌, inl,
  inr, refl, sym, ap, ◌∙◌, arith, Bool-cases, All,
}
use google_cloud_storage.Base.Dict.{Dict, has, insert}
use google_cloud_storage.Base.Result.{Result, ok}
use google_cloud_storage.Synchronizer.Months.{in_months}
use google_cloud_storage.Synchronizer.FileTime.{time_from_filename}
use google_cloud_storage.Synchronizer.Dir.{le_bytes, insert_sorted, sort_strings, prepare_dir}
use google_cloud_storage.Synchronizer.Compile.{
  Entry, roots_of, month_dir, file_path, in_span, month_files, listed, root_files, fill, enough,
  enough_ok, compile_dir, Listed, IsArchive,
}
use mathlib.Core.List.{Memᴰ}
use mathlib.Core.List.Memᴰ
use mathlib.Core.Path.{subst}

-- The directory that a top folder stands for.
abbrev pub root_of : Bytes → Bytes
root_of name = if same name (codes "bgpdata") then [] else name

All-right {κ} : (P : Bytes → Type κ) (xs ys : List Bytes) → All P (xs ++ ys) → All P ys
All-right P [] ys h = h
All-right P (x ∷ xs) ys (hx, h) = All-right P xs ys h

All-left {κ} : (P : Bytes → Type κ) (xs ys : List Bytes) → All P (xs ++ ys) → All P xs
All-left P [] ys h = tt
All-left P (x ∷ xs) ys (hx, h) = (hx, All-left P xs ys h)

All-uninserted {κ} :
    (P : Bytes → Type κ) (x : Bytes) (ys : List Bytes) → All P (insert_sorted x ys) → P x × All P ys
unfolding insert_sorted
All-uninserted P x [] h = h
All-uninserted P x (y ∷ ys) h = elim (Bool-cases (le_bytes x y)) [
  | inl e ↦ rw e at h
  | inr e ↦ let (hy, k) = rw e at h in let (hx, hs) = All-uninserted P x ys k in (hx, (hy, hs))
]

All-unsorted {κ} : (P : Bytes → Type κ) (xs : List Bytes) → All P (sort_strings xs) → All P xs
unfolding sort_strings
All-unsorted P [] h = tt
All-unsorted P (x ∷ xs) h =
    let (hx, k) = All-uninserted P x (sort_strings xs) h in (hx, All-unsorted P xs k)

-- Every file of every collector.
abbrev pub AllFiles {κ} : (Bytes → Type κ) → Dict (List Bytes) → Type κ
AllFiles P = All (λ p. All P p.1)

prepared-AllFiles {κ} :
    (P : Bytes → Type κ) (dir : Dict (List Bytes)) → AllFiles P (prepare_dir dir).0 → AllFiles P dir
unfolding prepare_dir
prepared-AllFiles P [] h = tt
prepared-AllFiles P ((root, []) ∷ dir) h = (tt, prepared-AllFiles P dir h)
prepared-AllFiles P ((root, f ∷ fs) ∷ dir) (hf, h) =
    (All-unsorted P (f ∷ fs) hf, prepared-AllFiles P dir h)

has-insert :
    (k j : Bytes) (v : List Bytes) (d : Dict (List Bytes))
    → (same j k ≡ true) ⊎ (has k d ≡ true)
    → has k (insert j v d) ≡ true
unfolding has insert
has-insert k j v [] (inl e) = rw e refl
has-insert k j v [] (inr e) = absurd (cc)
has-insert k j v ((i, w) ∷ d) h =
    ground (arith, same_iff i j, same_iff i k, same_iff j k, has-insert k j v d)

module _ (start end : ℕ) (list : Bytes → Result (List Entry)) where
  roots_of-keeps :
      (entries : List Entry) (res : Dict (List Bytes)) (k : Bytes)
      → has k res ≡ true
      → has k (roots_of entries res) ≡ true
  unfolding roots_of
  roots_of-keeps [] res k h = h
  roots_of-keeps (e ∷ entries) res k h = elim (Bool-cases e.is_folder) [
    | inl f ↦ rw f (roots_of-keeps entries _ k (has-insert k (root_of e.name) [] res (inr h)))
    | inr f ↦ rw f (roots_of-keeps entries res k h)
  ]

  roots_of-has :
      (entries : List Entry) (res : Dict (List Bytes)) (e : Entry)
      → Memᴰ e entries
      → e.is_folder ≡ true
      → has (root_of e.name) (roots_of entries res) ≡ true
  unfolding roots_of
  roots_of-has [] res e m f = absurd (Memᴰ.not-nil m)
  roots_of-has (x ∷ entries) res e m f = elim (Memᴰ.cases_cons m) [
    | inl s ↦
        let g : x.is_folder ≡ true = ap (λ y. y.is_folder) (sym s) ∙ f in
        rw g (
          roots_of-keeps entries _ (root_of e.name) (
            has-insert (root_of e.name) (root_of x.name) [] res (
              inl (
                (same_iff (root_of x.name) (root_of e.name)).1
                  (ap (λ y. root_of y.name) (sym s))))))
    | inr k ↦ roots_of-has entries _ e k f
  ]

  module _ {κ} (P : Bytes → Type κ) where
    filled-files :
        (months : List Bytes) (res : Dict (List Bytes)) (root : Bytes)
        → AllFiles P (fill start end list months res)
        → has root res ≡ true
        → All P (root_files start end list root months)
    unfolding fill has
    filled-files months [] root h k = absurd (cc)
    filled-files months ((r, fs) ∷ res) root (hr, h) k = elim (Bool-cases (same r root)) [
      | inl e ↦
          let own : r ≡ root = (same_iff r root).0 e in
          All-right P fs (root_files start end list root months)
            (subst (λ x. All P (fs ++ root_files start end list x months)) own hr)
      | inr e ↦ filled-files months res root h (rw e at k)
    ]

    months-files :
        (root m : Bytes) (months : List Bytes)
        → All P (root_files start end list root months)
        → in_months m months ≡ true
        → All P (month_files start end root m (listed (list (month_dir root m))))
    unfolding root_files in_months
    months-files root m [] h k = absurd (cc)
    months-files root m (x ∷ months) h k = elim (Bool-cases (same x m)) [
      | inl e ↦
          let own : x ≡ m = (same_iff x m).0 e in
          subst (λ y. All P (month_files start end root y (listed (list (month_dir root y))))) own
            (All-left P _ (root_files start end list root months) h)
      | inr e ↦
          months-files root m months
            (All-right P (month_files start end root x (listed (list (month_dir root x)))) _ h)
            (rw e at k)
    ]

    in_span_ok : (t : ℕ) → start < t → t < end → in_span start end (ok t) ≡ true
    unfolding in_span
    in_span_ok t a b = ground arith

    month-file :
        (root m name : Bytes) (t : ℕ) (files : List Entry)
        → All P (month_files start end root m files)
        → Listed start end list name files
        → time_from_filename name ≡ ok t
        → start < t
        → t < end
        → P (file_path root m name)
    unfolding month_files
    month-file root m name t [] h l timed a b = absurd l
    month-file root m name t (f ∷ files) h (inl s) timed a b =
        let e : in_span start end (time_from_filename f.name) ≡ true =
          ap (λ x. in_span start end (time_from_filename x)) s
          ∙ ap (in_span start end) timed
          ∙ in_span_ok t a b in
        subst (λ x. P (file_path root m x)) s (rw e at h).0
    month-file root m name t (f ∷ files) h (inr l) timed a b =
        elim (Bool-cases (in_span start end (time_from_filename f.name))) [
          | inl e ↦ month-file root m name t files (rw e at h).1 l timed a b
          | inr e ↦ month-file root m name t files (rw e at h) l timed a b
        ]

  -- A path of the FTP server: an archive below one of the folders of its top directory.
  pub record IsListed (months : List Bytes) (path : Bytes) : Type 0 where
    pub entries : List Entry
    pub top : list (codes "/") ≡ ok entries
    pub collector : Entry
    pub held : Memᴰ collector entries
    pub folder : collector.is_folder ≡ true
    pub archive : IsArchive start end list months (root_of collector.name) path

  -- What holds of every file of a compiled directory holds of every archive that the FTP server
  -- lists under one of the months, below any folder, with a time inside the span.
  pub compile_dir-IsListed {κ} :
      (P : Bytes → Type κ) (expected : ℕ) (months : List Bytes) (res : Dict (List Bytes))
      → compile_dir start end list expected months ≡ ok res
      → AllFiles P res
      → (path : Bytes) → IsListed months path
      → P path
  unfolding compile_dir
  compile_dir-IsListed P expected months res h all path l =
      let dir : Dict (List Bytes) = fill start end list months (roots_of l.entries []) in
      let k : enough start end list expected (prepare_dir dir) ≡ ok res =
        rw (l.top, compile_dir) at h in
      let (same_res, many) = enough_ok start end list expected (prepare_dir dir) res k in
      let everything = prepared-AllFiles P dir (subst (AllFiles P) (sym same_res) all) in
      let a = l.archive in
      let root = root_of l.collector.name in
      let in_root =
        filled-files P months (roots_of l.entries []) root everything
          (roots_of-has l.entries [] l.collector l.held l.folder) in
      subst P (sym a.spelled) (
        month-file P root a.month a.name a.time (listed (list (month_dir root a.month)))
          (months-files P root a.month months in_root a.spanned) a.found a.timed a.after a.before)
