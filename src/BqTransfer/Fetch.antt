-- ===== src/BqTransfer/Fetch.antt =====
-- `fetchMonthDirs` of pkg/bq_transfer/bq_transfer.go ends on a finite bucket, and finds every month
-- directory that it can come to.
use google_cloud_storage.Base.{
  ℕ, zero, suc, ◌+◌, ◌≤◌, ◌<◌, Bytes, List, [], ◌∷◌, ◌++◌, some, Bool, ◌≡◌, ◌↔◌, ◌⊎◌, inl, inr,
  refl, sym, ◌∙◌, arith,
}
use google_cloud_storage.Base.Result.{Result, ok}
use mathlib.Core.List.{Memᴰ}
use mathlib.Core.List.Memᴰ
use mathlib.Core.Path.{subst}
use google_cloud_storage.BqTransfer.Dirs.{
  IsMonthDir, IsInner, Inner, queries_among-Inner, months_among_iff, queries_among_iff,
}
use google_cloud_storage.BqTransfer.{months_among, queries_among, fetch_loop, fetch_month_dirs}

module _ (is_month : Bytes → Bool) (list : Bytes → Result (List Bytes)) where
  -- The directories that lie below one of them, by paths that have a parent which is no month.
  pub data Below : Bytes → Bytes → Type 0 where
    here : {q : Bytes} → Below q q
    down :
        {q r s : Bytes} (ps : List Bytes)
        → list q ≡ ok ps
        → Memᴰ r ps
        → IsInner is_month r
        → Below r s
        → Below q s

  -- A month directory that is listed in a directory below `q`.
  pub record Found (q p : Bytes) : Type 0 where
    pub dir : Bytes
    pub entries : List Bytes
    pub below : Below q dir
    pub lists : list dir ≡ ok entries
    pub listed : Memᴰ p entries
    pub month : IsMonthDir is_month p

  abbrev pub weights : (Bytes → ℕ) → List Bytes → ℕ
  weights w [] = 0
  weights w (q ∷ qs) = w q + weights w qs

  weights-append :
      (w : Bytes → ℕ) (xs ys : List Bytes) → weights w (xs ++ ys) ≡ weights w xs + weights w ys
  weights-append w [] ys = omega arith
  weights-append w (x ∷ xs) ys = omega (arith, weights-append w xs ys)

  -- A bucket that can be listed, with a weight for each directory, such as the number of directories
  -- at and below it.
  pub record IsFinite (weight : Bytes → ℕ) : Type 0 where
    pub lists : (q : Bytes) → (ps : List Bytes) × (list q ≡ ok ps)
    pub shrinks :
        (q : Bytes) (ps ds : List Bytes)
        → list q ≡ ok ps
        → Inner is_month ps ds
        → weights weight ds < weight q

  fetch_step :
      (n : ℕ) (q : Bytes) (ps qs res : List Bytes)
      → list q ≡ ok ps
      → fetch_loop is_month list (suc n) (q ∷ qs) res
        ≡ fetch_loop is_month list n
            (qs ++ queries_among is_month ps)
            (res ++ months_among is_month ps)
  unfolding fetch_loop
  fetch_step n q ps qs res e = rw (e, fetch_loop) refl

  -- What the loop finds: what it had, and what is below its queries.
  abbrev Finds : List Bytes → List Bytes → Bytes → Type 0
  Finds qs res p = Memᴰ p res ⊎ ((q : Bytes) × Memᴰ q qs × Found q p)

  one_list : (q : Bytes) (ps ps' : List Bytes) → list q ≡ ok ps → list q ≡ ok ps' → ps ≡ ps'
  one_list q ps ps' e e' =
      (let k : ◌≡◌ {A = Result (List Bytes)} (ok ps) (ok ps') = sym e ∙ e' in cc)

  module _ (q : Bytes) (ps qs res : List Bytes) (e : list q ≡ ok ps) (p : Bytes) where
    abbrev queries : List Bytes
    queries = queries_among is_month ps

    abbrev months : List Bytes
    months = months_among is_month ps

    Finds-before : Finds (qs ++ queries) (res ++ months) p → Finds (q ∷ qs) res p
    Finds-before (inl m) = elim (Memᴰ.append_cases res m) [
      | inl k ↦ inl k
      | inr k ↦
          let (listed, month) = (months_among_iff is_month ps p).0 k in
          inr (
            q,
            Memᴰ.head refl,
            record {
              dir = q;
              entries = ps;
              below = here;
              lists = e;
              listed = listed;
              month = month;
            },
          )
    ]
    Finds-before (inr (r, m, f)) = elim (Memᴰ.append_cases qs m) [
      | inl k ↦ inr (r, Memᴰ.tail k, f)
      | inr k ↦
          let (listed, inner) = (queries_among_iff is_month ps r).0 k in
          inr (
            q,
            Memᴰ.head refl,
            record {
              dir = f.dir;
              entries = f.entries;
              below = down ps e listed inner f.below;
              lists = f.lists;
              listed = f.listed;
              month = f.month;
            },
          )
    ]

    at_query :
        (dir : Bytes) (entries : List Bytes)
        → Below q dir
        → list dir ≡ ok entries
        → Memᴰ p entries
        → IsMonthDir is_month p
        → Finds (qs ++ queries) (res ++ months) p
    at_query dir entries here l m k = inl (
        Memᴰ.append_right res (
          (months_among_iff is_month ps p).1
            (subst (λ (x : List Bytes). Memᴰ p x) (one_list q entries ps l e) m, k)))
    at_query dir entries (down {r = r} ps' e' c i b) l m k = inr (
      r,
      Memᴰ.append_right qs (
          (queries_among_iff is_month ps r).1
            (subst (λ (x : List Bytes). Memᴰ r x) (one_list q ps' ps e' e) c, i)),
      record { dir = dir; entries = entries; below = b; lists = l; listed = m; month = k },
    )

    Finds-after : Finds (q ∷ qs) res p → Finds (qs ++ queries) (res ++ months) p
    Finds-after (inl m) = inl (Memᴰ.append_left months m)
    Finds-after (inr (r, m, f)) = elim (Memᴰ.cases_cons m) [
      | inr k ↦ inr (r, Memᴰ.append_left queries k, f)
      | inl same ↦
          at_query f.dir f.entries (subst (λ x. Below x f.dir) same f.below) f.lists f.listed
            f.month
    ]

  module _ (weight : Bytes → ℕ) (F : IsFinite weight) where
    fetch_loop-Finds :
        (n : ℕ) (qs res : List Bytes)
        → weights weight qs ≤ n
        → (out : List Bytes) × (fetch_loop is_month list n qs res ≡ some (ok out))
          × ((p : Bytes) → Memᴰ p out ↔ Finds qs res p)
    unfolding fetch_loop
    fetch_loop-Finds n [] res h =
        (res, refl, λ p. (inl, λ x. elim x [ inl m ↦ m | inr (q, m, f) ↦ absurd (Memᴰ.not-nil m) ]))
    fetch_loop-Finds zero (q ∷ qs) res h =
        let (ps, e) = F.lists q in
        absurd (omega (arith, F.shrinks q ps _ e (queries_among-Inner is_month ps)))
    fetch_loop-Finds (suc n) (q ∷ qs) res h =
        let (ps, e) = F.lists q in
        let (out, run, spec) =
          fetch_loop-Finds n (qs ++ queries_among is_month ps) (res ++ months_among is_month ps) (
            omega (
              arith,
              weights-append weight qs (queries_among is_month ps),
              F.shrinks q ps _ e (queries_among-Inner is_month ps),
            )) in
        (
          out,
          fetch_step n q ps qs res e ∙ run,
          λ p. (
            λ m. Finds-before q ps qs res e p ((spec p).0 m),
            λ f. (spec p).1 (Finds-after q ps qs res e p f),
          ),
        )

    -- On a bucket each of whose directories can be listed, and has a weight above that of the
    -- inner directories listed in it together, those whose path has a parent that is no month: as
    -- many listings as the weight of the root are enough, and what is found is every path that is
    -- listed in the root or below it, by way of inner directories, and whose parent is a month,
    -- and nothing else.
    pub fetch_month_dirs-Found :
        (out : List Bytes) × (fetch_month_dirs is_month list (weight []) ≡ some (ok out))
        × ((p : Bytes) → Memᴰ p out ↔ Found [] p)
    unfolding fetch_month_dirs
    fetch_month_dirs-Found =
        let (out, run, spec) = fetch_loop-Finds (weight []) ([] ∷ []) [] (omega arith) in
        (
          out,
          run,
          λ p. (λ m. from_root p ((spec p).0 m), λ f. (spec p).1 (inr ([], Memᴰ.head refl, f))),
        )
      where
        from_root : (p : Bytes) → Finds ([] ∷ []) [] p → Found [] p
        from_root p (inl m) = absurd (Memᴰ.not-nil m)
        from_root p (inr (q, m, f)) = subst (λ x. Found x p) (Memᴰ.eq_of_singleton m) f
