-- ===== src/BqTransfer/Laws.antt =====
-- What the transfers of pkg/bq_transfer/bq_transfer.go cover.
use google_cloud_storage.Base.{
  ℕ, zero, suc, Bytes, List, [], ◌∷◌, ◌++◌, some, Bool, true, false, All, All-append, ◌≡◌, refl,
  sym, ap, ◌∙◌, inl, inr, Bool-cases,
}
use google_cloud_storage.Base.Dict.{Dict, has}
use google_cloud_storage.Base.Result.{Result, ok, err, is_ok}
use google_cloud_storage.Base.Effect.{M}
use google_cloud_storage.Backoff.{Backoff, retry_keeps, retry_establishes}
use mathlib.Core.Path.{subst}
use google_cloud_storage.BqTransfer.{
  TransferParams, TransferService, covers, is_month_dir, months_among, queries_among, fetch_loop,
  fetch_month_dirs, pattern_of, make_transfer_config, after_create, create_transfer_runs, transfer,
}

module _ (is_month : Bytes → Bool) where
  abbrev pub IsMonthDir : Bytes → Type 0
  IsMonthDir p = is_month_dir is_month p ≡ true

  months_among-All : (ps : List Bytes) → All IsMonthDir (months_among is_month ps)
  unfolding months_among
  months_among-All [] = tt
  months_among-All (p ∷ ps) = elim (Bool-cases (is_month_dir is_month p)) [
    | inl e ↦ rw e (e, months_among-All ps)
    | inr e ↦ rw e (months_among-All ps)
  ]

  module _ (list : Bytes → Result (List Bytes)) where
    fetch_loop_months :
        (n : ℕ) (qs res out : List Bytes)
        → All IsMonthDir res
        → fetch_loop is_month list n qs res ≡ some (ok out)
        → All IsMonthDir out
    unfolding fetch_loop
    fetch_loop_months n [] res out h e = let same : out ≡ res = cc in rw same h
    fetch_loop_months zero (q ∷ qs) res out h e = absurd (cc)
    fetch_loop_months (suc n) (q ∷ qs) res out h e =
        go (λ qs' res' h' e'. fetch_loop_months n qs' res' out h' e') (list q) refl
      where
        go :
            ((qs' res' : List Bytes)
              → All IsMonthDir res'
              → fetch_loop is_month list n qs' res' ≡ some (ok out)
              → All IsMonthDir out)
            → (r : Result (List Bytes)) → list q ≡ r
            → All IsMonthDir out
        go ih (err x) k = (let e' = rw (k, fetch_loop) at e in absurd (cc))
        go ih (ok ps) k =
            ih (qs ++ queries_among is_month ps) (res ++ months_among is_month ps)
              (All-append IsMonthDir res (months_among is_month ps) h (months_among-All ps))
              (rw (k, fetch_loop) at e)

    -- All that `fetchMonthDirs` finds are directories of a month.
    pub fetch_month_dirs-All :
        (n : ℕ) (out : List Bytes)
        → fetch_month_dirs is_month list n ≡ some (ok out)
        → All IsMonthDir out
    unfolding fetch_month_dirs
    fetch_month_dirs-All n out e = fetch_loop_months n ([] ∷ []) [] out tt e

module _ (D : TransferService) (B : Backoff D.State Bytes) (cfg : TransferParams) where
  abbrev pub IsCovered : D.State → Bytes → Type 0
  IsCovered s dir = covers (D.configs s) (pattern_of cfg dir) ≡ true

  abbrev runs : List Bytes → Dict Bytes → M D.State (Unit {0})
  runs = create_transfer_runs D B cfg

  abbrev op : Bytes → M D.State Bytes
  op dir = D.create (make_transfer_config cfg dir (pattern_of cfg dir))

  module _ (P : D.State → Type 0) where
    after_create_keeps :
        (rest : D.State → D.State × Result (Unit {0}))
        → ((t : D.State) → P t → P (rest t).0)
        → (r : D.State × Result Bytes) → P r.0
        → P (after_create rest r).0
    after_create_keeps rest ih (t, ok name) h = ih t h
    after_create_keeps rest ih (t, err e) h = h

    runs_keep :
        ((dir : Bytes) (t : D.State) → P t → P (op dir t).0)
        → (dirs : List Bytes) (covered : Dict Bytes) (s : D.State) → P s
        → P (runs dirs covered s).0
    unfolding create_transfer_runs
    runs_keep keep [] covered s h = h
    runs_keep keep (dir ∷ dirs) covered s h = elim (Bool-cases (has (pattern_of cfg dir) covered)) [
      | inl e ↦ rw e (runs_keep keep dirs covered s h)
      | inr e ↦ rw e (
          after_create_keeps (runs dirs covered) (λ t k. runs_keep keep dirs covered t k)
            (B.retry 3 (op dir) s) (retry_keeps B (op dir) P (keep dir) 3 s h))
    ]

  runs_keep_path :
      (dirs : List Bytes) (covered : Dict Bytes) (s : D.State) (dir : Bytes)
      → IsCovered s dir
      → IsCovered (runs dirs covered s).0 dir
  runs_keep_path dirs covered s dir h =
      runs_keep (λ t. IsCovered t dir)
        (λ d t k.
          D.create_keeps (make_transfer_config cfg d (pattern_of cfg d)) t (pattern_of cfg dir) k)
        dirs covered s h

  -- What the list of configurations says of the directories holds in a state.
  abbrev IsListed : Dict Bytes → D.State → Type 0
  IsListed covered s = (dir : Bytes) → has (pattern_of cfg dir) covered ≡ true → IsCovered s dir

  after_create_covers :
      (dir : Bytes) (dirs : List Bytes) (covered : Dict Bytes)
      → ((t : D.State)
          → IsListed covered t
          → (runs dirs covered t).1 ≡ ok tt
          → All (IsCovered (runs dirs covered t).0) dirs)
      → (r : D.State × Result Bytes)
      → ((t : D.State) (name : Bytes) → r ≡ (t, ok name) → IsCovered t dir)
      → IsListed covered r.0
      → (after_create (runs dirs covered) r).1 ≡ ok tt
      → All (IsCovered (after_create (runs dirs covered) r).0) (dir ∷ dirs)
  after_create_covers dir dirs covered ih (t, ok name) post listed h =
      (runs_keep_path dirs covered t dir (post t name refl), ih t listed h)
  after_create_covers dir dirs covered ih (t, err e) post listed h = absurd (cc)

  op_keeps : (d dir : Bytes) (t : D.State) → IsCovered t dir → IsCovered (op d t).0 dir
  op_keeps d dir t k =
      D.create_keeps (make_transfer_config cfg d (pattern_of cfg d)) t (pattern_of cfg dir) k

  op_covers : (d : Bytes) (t t' : D.State) (name : Bytes) → op d t ≡ (t', ok name) → IsCovered t' d
  unfolding make_transfer_config
  op_covers d t t' name e =
      D.create_covers (make_transfer_config cfg d (pattern_of cfg d)) t t' name e

  runs_step :
      (dir : Bytes) (dirs : List Bytes) (covered : Dict Bytes) (s : D.State)
      → has (pattern_of cfg dir) covered ≡ true
      → runs (dir ∷ dirs) covered s ≡ runs dirs covered s
  unfolding create_transfer_runs
  runs_step dir dirs covered s h = rw h refl

  runs_step_new :
      (dir : Bytes) (dirs : List Bytes) (covered : Dict Bytes) (s : D.State)
      → has (pattern_of cfg dir) covered ≡ false
      → runs (dir ∷ dirs) covered s ≡ after_create (runs dirs covered) (B.retry 3 (op dir) s)
  unfolding create_transfer_runs
  runs_step_new dir dirs covered s h = rw h refl

  runs_cover :
      (dirs : List Bytes) (covered : Dict Bytes) (s : D.State)
      → IsListed covered s
      → (runs dirs covered s).1 ≡ ok tt
      → All (IsCovered (runs dirs covered s).0) dirs
  runs_cover [] covered s listed h = tt
  runs_cover (dir ∷ dirs) covered s listed h =
      elim (Bool-cases (has (pattern_of cfg dir) covered)) [
        | inl e ↦
            let k = runs_step dir dirs covered s e in
            subst (λ r. All (IsCovered r.0) (dir ∷ dirs)) (sym k)
              (
                runs_keep_path dirs covered s dir (listed dir e),
                runs_cover dirs covered s listed (ap (λ r. r.1) (sym k) ∙ h),
              )
        | inr e ↦
            let k = runs_step_new dir dirs covered s e in
            subst (λ r. All (IsCovered r.0) (dir ∷ dirs)) (sym k)
              (after_create_covers dir dirs covered (λ t l j. runs_cover dirs covered t l j)
                (B.retry 3 (op dir) s)
                (λ t name j.
                  retry_establishes B (op dir) (λ u. IsCovered u dir) (op_covers dir) 3 s t name j)
                (λ d j.
                  retry_keeps B (op dir) (λ u. IsCovered u d) (op_keeps dir d) 3 s (listed d j))
                (ap (λ r. r.1) (sym k) ∙ h))
      ]

  -- A transfer that succeeds leaves a configuration for every month directory that it was given.
  pub transfer_covers :
      (dirs : List Bytes) (s : D.State)
      → (transfer D B cfg (ok dirs) s).1 ≡ ok tt
      → All (IsCovered (transfer D B cfg (ok dirs) s).0) dirs
  unfolding transfer
  transfer_covers dirs s h = go (D.configs s) refl
    where
      go :
          (r : Result (Dict Bytes))
          → D.configs s ≡ r
          → All (IsCovered (transfer D B cfg (ok dirs) s).0) dirs
      go (err e) k = (let h' = rw k at h in absurd (cc))
      go (ok covered) k = rw k (runs_cover dirs covered s (λ d j. rw k j) (rw k at h))

  runs_quiet :
      (dirs : List Bytes) (covered : Dict Bytes) (s : D.State)
      → All (λ d. has (pattern_of cfg d) covered ≡ true) dirs
      → runs dirs covered s ≡ (s, ok tt)
  unfolding create_transfer_runs
  runs_quiet [] covered s h = refl
  runs_quiet (d ∷ dirs) covered s (h, hs) = rw h (runs_quiet dirs covered s hs)

  -- A transfer of directories that all have a configuration, when the list of them can be read,
  -- creates none and leaves the service as it was.
  pub transfer_quiet :
      (dirs : List Bytes) (s : D.State)
      → is_ok (D.configs s) ≡ true
      → All (IsCovered s) dirs
      → transfer D B cfg (ok dirs) s ≡ (s, ok tt)
  unfolding transfer
  transfer_quiet dirs s readable h = go (D.configs s) refl readable h
    where
      go :
          (r : Result (Dict Bytes))
          → D.configs s ≡ r
          → is_ok r ≡ true
          → All (λ d. covers r (pattern_of cfg d) ≡ true) dirs
          → transfer D B cfg (ok dirs) s ≡ (s, ok tt)
      go (err e) k o c = absurd (cc)
      go (ok covered) k o c = rw k (runs_quiet dirs covered s c)
