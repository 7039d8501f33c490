-- ===== src/BqTransfer/Dirs.antt =====
-- The directories that `fetchMonthDirs` of pkg/bq_transfer/bq_transfer.go collects, and those that it
-- goes down into, by how their paths are spelled.
use google_cloud_storage.Base.{
  Bytes, List, [], ◌∷◌, ◌++◌, Option, none, some, Bool, true, false, Bool-cases, is_empty, ◌≡◌, ◌≢◌,
  ◌↔◌, ◌⊎◌, ◌∙◌, inl, inr, refl, ap, sym,
}
use google_cloud_storage.Strings.Split.{split}
use google_cloud_storage.BqTransfer.{
  parent_of, month_parent, is_month_dir, has_parent, months_among, queries_among,
}
use mathlib.Core.List.{Memᴰ}
use mathlib.Core.List.Memᴰ
use mathlib.Core.Path.{subst}

-- The part of a path before its last slash, after the slash before it: `a/2022.04/` has the parent
-- `2022.04`.
pub record Parent (path parent : Bytes) : Type 0 where
  pub before : List Bytes
  pub last : Bytes
  pub spelled : split b'/' path ≡ before ++ (parent ∷ last ∷ [])

parent_of-some :
    (ds : List Bytes) (d : Bytes)
    → parent_of ds ≡ some d
    → (before : List Bytes) × (last : Bytes) × (ds ≡ before ++ (d ∷ last ∷ []))
unfolding parent_of
parent_of-some [] d h = absurd (cc)
parent_of-some (x ∷ []) d h = absurd (cc)
parent_of-some (x ∷ e ∷ []) d h = let y : x ≡ d = cc in ([], e, rw y refl)
parent_of-some (x ∷ e ∷ f ∷ ds) d h =
    let (before, last, s) = parent_of-some (e ∷ f ∷ ds) d h in
    (x ∷ before, last, ap (λ (l : List Bytes). x ∷ l) s)

parent_of-append :
    (before : List Bytes) (d last : Bytes) → parent_of (before ++ (d ∷ last ∷ [])) ≡ some d
unfolding parent_of
parent_of-append [] d last = refl
parent_of-append (x ∷ []) d last = refl
parent_of-append (x ∷ y ∷ []) d last = refl
parent_of-append (x ∷ y ∷ z ∷ before) d last = parent_of-append (y ∷ z ∷ before) d last

Parent-iff : (path d : Bytes) → parent_of (split b'/' path) ≡ some d ↔ Parent path d
Parent-iff path d = (
  λ h.
      let (before, last, s) = parent_of-some (split b'/' path) d h in
      record { before = before; last = last; spelled = s },
  λ p. ap parent_of p.spelled ∙ parent_of-append p.before d p.last,
)

module _ (is_month : Bytes → Bool) where
  -- A path whose parent is a month.
  pub record IsMonthDir (path : Bytes) : Type 0 where
    pub parent : Bytes
    pub named : Parent path parent
    pub month : is_month parent ≡ true

  -- A path that has a parent, which is no month.
  pub record IsInner (path : Bytes) : Type 0 where
    pub parent : Bytes
    pub named : Parent path parent
    pub other : is_month parent ≡ false
    pub filled : path ≢ []

  is_month_dir_iff : (path : Bytes) → is_month_dir is_month path ≡ true ↔ IsMonthDir path
  unfolding is_month_dir
  is_month_dir_iff path = (
    λ h. go (parent_of (split b'/' path)) refl h,
    λ m. rw ((Parent-iff path m.parent).1 m.named) m.month,
  )
    where
      go :
          (x : Option Bytes)
          → parent_of (split b'/' path) ≡ x
          → month_parent is_month x ≡ true
          → IsMonthDir path
      go none e h = absurd (cc)
      go (some d) e h = record { parent = d; named = (Parent-iff path d).0 e; month = h }

  -- The tests of the code for a directory that is gone down into.
  abbrev IsQuery : Bytes → Type 0
  IsQuery path =
      (is_month_dir is_month path ≡ false)
      × (has_parent is_month (parent_of (split b'/' path)) ≡ true)
      × (is_empty path ≡ false)

  IsQuery-iff : (path : Bytes) → IsQuery path ↔ IsInner path
  unfolding is_month_dir is_empty
  IsQuery-iff path = (
    λ (n, p, f). go (parent_of (split b'/' path)) refl n p (filled path f),
    λ i.
        let e = (Parent-iff path i.parent).1 i.named in
        (rw e i.other, rw e refl, is_filled path i.filled),
  )
    where
      filled : (p : Bytes) → is_empty p ≡ false → p ≢ []
      filled [] h e = absurd (cc)
      filled (c ∷ p) h e = absurd (cc)

      is_filled : (p : Bytes) → p ≢ [] → is_empty p ≡ false
      is_filled [] h = absurd (h refl)
      is_filled (c ∷ p) h = refl

      go :
          (x : Option Bytes)
          → parent_of (split b'/' path) ≡ x
          → month_parent is_month x ≡ false
          → has_parent is_month x ≡ true
          → path ≢ []
          → IsInner path
      go none e n h f = absurd (cc)
      go (some d) e n h f = record {
        parent = d;
        named = (Parent-iff path d).0 e;
        other = n;
        filled = f;
      }

  months_from :
      (ps : List Bytes) (p : Bytes)
      → Memᴰ p (months_among is_month ps)
      → Memᴰ p ps × (is_month_dir is_month p ≡ true)
  unfolding months_among
  months_from [] p m = absurd (Memᴰ.not-nil m)
  months_from (q ∷ ps) p m = elim (Bool-cases (is_month_dir is_month q)) [
    | inl e ↦ elim (Memᴰ.cases_cons (rw e at m)) [
      | inl s ↦ (Memᴰ.head s, rw s e)
      | inr k ↦ let (a, b) = months_from ps p k in (Memᴰ.tail a, b)
    ]
    | inr e ↦ let (a, b) = months_from ps p (rw e at m) in (Memᴰ.tail a, b)
  ]

  months_to :
      (ps : List Bytes) (p : Bytes)
      → Memᴰ p ps
      → is_month_dir is_month p ≡ true
      → Memᴰ p (months_among is_month ps)
  unfolding months_among
  months_to [] p m e = absurd (Memᴰ.not-nil m)
  months_to (q ∷ ps) p m e = elim (Memᴰ.cases_cons m) [
    | inl s ↦ rw (rw s at e) (Memᴰ.head s)
    | inr k ↦
        let i = months_to ps p k e in
        elim (Bool-cases (is_month_dir is_month q)) [ inl y ↦ rw y (Memᴰ.tail i) | inr n ↦ rw n i ]
  ]

  -- What is collected of a listing: its month directories.
  pub months_among_iff :
      (ps : List Bytes) (p : Bytes) → Memᴰ p (months_among is_month ps) ↔ Memᴰ p ps × IsMonthDir p
  months_among_iff ps p = (
    λ m. let (a, b) = months_from ps p m in (a, (is_month_dir_iff p).0 b),
    λ (a, b). months_to ps p a ((is_month_dir_iff p).1 b),
  )

  -- One entry of a listing, by the tests of the code.
  IsQuery-step :
      (q : Bytes) (ps : List Bytes)
      → (IsQuery q × (queries_among is_month (q ∷ ps) ≡ q ∷ queries_among is_month ps))
        ⊎ (¬ IsQuery q × (queries_among is_month (q ∷ ps) ≡ queries_among is_month ps))
  unfolding queries_among
  IsQuery-step q ps = elim (Bool-cases (is_month_dir is_month q)) [
    | inl e ↦ inr (λ (n, p, r). absurd (cc), rw e refl)
    | inr e ↦ elim (Bool-cases (has_parent is_month (parent_of (split b'/' q)))) [
      | inr f ↦ inr (λ (n, p, r). absurd (cc), rw (e, f) refl)
      | inl f ↦ elim (Bool-cases (is_empty q)) [
        | inl g ↦ inr (λ (n, p, r). absurd (cc), rw (e, f, g) refl)
        | inr g ↦ inl ((e, f, g), rw (e, f, g) refl)
      ]
    ]
  ]

  queries_from :
      (ps : List Bytes) (p : Bytes) → Memᴰ p (queries_among is_month ps) → Memᴰ p ps × IsQuery p
  unfolding queries_among
  queries_from [] p m = absurd (Memᴰ.not-nil m)
  queries_from (q ∷ ps) p m = elim (IsQuery-step q ps) [
    | inl (i, e) ↦ elim (Memᴰ.cases_cons (subst (λ (l : List Bytes). Memᴰ p l) e m)) [
      | inl s ↦ (Memᴰ.head s, subst IsQuery (sym s) i)
      | inr k ↦ let (a, b) = queries_from ps p k in (Memᴰ.tail a, b)
    ]
    | inr (n, e) ↦
        let (a, b) = queries_from ps p (subst (λ (l : List Bytes). Memᴰ p l) e m) in
        (Memᴰ.tail a, b)
  ]

  queries_to :
      (ps : List Bytes) (p : Bytes) → Memᴰ p ps → IsQuery p → Memᴰ p (queries_among is_month ps)
  queries_to [] p m i = absurd (Memᴰ.not-nil m)
  queries_to (q ∷ ps) p m i = elim (IsQuery-step q ps) [
    | inl (j, e) ↦ elim (Memᴰ.cases_cons m) [
      | inl s ↦ subst (λ (l : List Bytes). Memᴰ p l) (sym e) (Memᴰ.head s)
      | inr k ↦ subst (λ (l : List Bytes). Memᴰ p l) (sym e) (Memᴰ.tail (queries_to ps p k i))
    ]
    | inr (n, e) ↦ elim (Memᴰ.cases_cons m) [
      | inl s ↦ absurd (n (subst IsQuery s i))
      | inr k ↦ subst (λ (l : List Bytes). Memᴰ p l) (sym e) (queries_to ps p k i)
    ]
  ]

  -- What is gone down into: the other directories that have a parent.
  pub queries_among_iff :
      (ps : List Bytes) (p : Bytes) → Memᴰ p (queries_among is_month ps) ↔ Memᴰ p ps × IsInner p
  queries_among_iff ps p = (
    λ m. let (a, b) = queries_from ps p m in (a, (IsQuery-iff p).0 b),
    λ (a, b). queries_to ps p a ((IsQuery-iff p).1 b),
  )

  -- The second list has the paths of the first that are gone down into.
  pub data Inner : List Bytes → List Bytes → Type 0 where
    none_left : Inner [] []
    takes :
        {ps ds : List Bytes} (path : Bytes)
        → IsInner path
        → Inner ps ds
        → Inner (path ∷ ps) (path ∷ ds)
    leaves :
        {ps ds : List Bytes} (path : Bytes) → ¬ IsInner path → Inner ps ds → Inner (path ∷ ps) ds

  pub queries_among-Inner : (ps : List Bytes) → Inner ps (queries_among is_month ps)
  unfolding queries_among
  queries_among-Inner [] = none_left
  queries_among-Inner (p ∷ ps) = elim (IsQuery-step p ps) [
    | inl (i, e) ↦
        subst (Inner (p ∷ ps)) (sym e) (takes p ((IsQuery-iff p).0 i) (queries_among-Inner ps))
    | inr (n, e) ↦
        subst (Inner (p ∷ ps)) (sym e)
          (leaves p (λ i. n ((IsQuery-iff p).1 i)) (queries_among-Inner ps))
  ]

  pub Inner-queries_among : {ps ds : List Bytes} → Inner ps ds → ds ≡ queries_among is_month ps
  Inner-queries_among none_left = unfold queries_among in refl
  Inner-queries_among (takes {ps = qs} p i r) = elim (IsQuery-step p qs) [
    | inl (j, e) ↦ ap (λ (l : List Bytes). p ∷ l) (Inner-queries_among r) ∙ sym e
    | inr (n, e) ↦ absurd (n ((IsQuery-iff p).1 i))
  ]
  Inner-queries_among (leaves {ps = qs} p n r) = elim (IsQuery-step p qs) [
    | inl (j, e) ↦ absurd (n ((IsQuery-iff p).0 j))
    | inr (m, e) ↦ Inner-queries_among r ∙ sym e
  ]
