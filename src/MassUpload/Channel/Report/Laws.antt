-- ===== src/MassUpload/Channel/Report/Laws.antt =====
-- The metrics that the workers share are the sums of what each of them has counted.
use google_cloud_storage.Base.{
  ℕ, ◌+◌, Bytes, codes, same, List, [], ◌∷◌, ◌++◌, Option, none, some, Bool-cases, ◌≡◌, inl, inr,
  refl, sym, ap, ◌∙◌, arith, ltb,
}
use google_cloud_storage.Base.Dict.{Dict, lookup, insert}
use google_cloud_storage.Base.Result.{Error, Result, ok, err}
use google_cloud_storage.Base.Effect.{M}
use google_cloud_storage.Proto.{FileRequest, FileResponse}
use google_cloud_storage.Storage.{Gcs}
use google_cloud_storage.MassUpload.{
  EvalFile, WalkEntry, Work, mass_request, upload_stage, compare_stage, fetch_stage, is_update,
  evaluate, max_grpc_errs, max_ftp_errs, closed,
}
use google_cloud_storage.MassUpload.Channel.{
  Worker, Process, started, launched, worker_at, no_work, Step, sends, returns, receives, drains,
}
use google_cloud_storage.MassUpload.Channel.Report.{
  new_metrics, metric_all, print_metrics, upload_calls, compare_calls, fetch_calls, sum_of, report,
  round_calls, step_calls, SharedRun, here, next,
}

sum_middle :
    (f : Work → ℕ) (x y : Worker) (n : ℕ) (after before : List Worker)
    → f y.work ≡ f x.work + n
    → sum_of f (before ++ (y ∷ after)) ≡ sum_of f (before ++ (x ∷ after)) + n
unfolding sum_of
sum_middle f x y n after [] h = omega arith
sum_middle f x y n after (b ∷ before) h = omega (arith, sum_middle f x y n after before h)

sum_started :
    (f : Work → ℕ) (logins : List (Result (Unit {0})))
    → f no_work ≡ 0
    → sum_of f (started logins) ≡ 0
unfolding sum_of started
sum_started f [] h = refl
sum_started f (ok u ∷ logins) h = omega (arith, sum_started f logins h)
sum_started f (err e ∷ logins) h = sum_started f logins h

-- The work before and after a round against its calls.
pub record Ticks (w v : Work) (ks : List Bytes) : Type 0 where
  pub syncs : ℕ
  pub skips : ℕ
  pub fails : ℕ
  pub synced : v.synced ≡ w.synced + syncs
  pub skipped : v.skipped ≡ w.skipped + skips
  pub errors : v.errors ≡ w.errors + fails
  pub called :
      (a b c : ℕ)
      → metric_all ks ((codes "sync", a) ∷ (codes "skip", b) ∷ (codes "error", c) ∷ [])
        ≡ (codes "sync", a + syncs) ∷ (codes "skip", b + skips) ∷ (codes "error", c + fails) ∷ []

same_counts :
    (a b c d e f : ℕ)
    → a ≡ d
    → b ≡ e
    → c ≡ f
    → ◌≡◌ {A = Dict ℕ}
        ((codes "sync", a) ∷ (codes "skip", b) ∷ (codes "error", c) ∷ [])
        ((codes "sync", d) ∷ (codes "skip", e) ∷ (codes "error", f) ∷ [])
same_counts a b c d e f p q r = rw (p, q, r) refl

-- A round that makes one call, or none.
Ticks-none :
    (w v : Work) → v.synced ≡ w.synced → v.skipped ≡ w.skipped → v.errors ≡ w.errors → Ticks w v []
unfolding metric_all
Ticks-none w v p q r = record {
  syncs = 0;
  skips = 0;
  fails = 0;
  synced = omega arith;
  skipped = omega arith;
  errors = omega arith;
  called = λ a b c. same_counts a b c _ _ _ (omega arith) (omega arith) (omega arith);
}

Ticks-sync : (w : Work) → Ticks w (record w { synced = w.synced + 1 }) (codes "sync" ∷ [])
unfolding metric_all insert lookup same
Ticks-sync w = record {
  syncs = 1;
  skips = 0;
  fails = 0;
  synced = refl;
  skipped = omega arith;
  errors = omega arith;
  called = λ a b c. same_counts _ b c _ _ _ refl (omega arith) (omega arith);
}

Ticks-skip : (w : Work) → Ticks w (record w { skipped = w.skipped + 1 }) (codes "skip" ∷ [])
unfolding metric_all insert lookup same
Ticks-skip w = record {
  syncs = 0;
  skips = 1;
  fails = 0;
  synced = omega arith;
  skipped = refl;
  errors = omega arith;
  called = λ a b c. same_counts a _ c _ _ _ (omega arith) refl (omega arith);
}

Ticks-error :
    (w : Work) (n : ℕ)
    → Ticks w (record w { errors = w.errors + 1; grpc_errs = n }) (codes "error" ∷ [])
unfolding metric_all insert lookup same
Ticks-error w n = record {
  syncs = 0;
  skips = 0;
  fails = 1;
  synced = omega arith;
  skipped = omega arith;
  errors = refl;
  called = λ a b c. same_counts a b _ _ _ _ (omega arith) (omega arith) refl;
}

module _ {S : Type 0} where
  upload-Ticks :
      (w : Work) (x : S × Result FileResponse) → Ticks w (upload_stage w x).work (upload_calls x)
  unfolding upload_stage upload_calls
  upload-Ticks w (s, ok resp) = Ticks-sync w
  upload-Ticks w (s, err e) = elim (Bool-cases (ltb w.grpc_errs max_grpc_errs)) [
    | inl h ↦ rw h (Ticks-error w (w.grpc_errs + 1))
    | inr h ↦ rw h (Ticks-error w w.grpc_errs)
  ]

  compare-Ticks :
      (send : M S FileResponse) (archived sum : Bytes) (w : Work) (s : S)
      → Ticks w (compare_stage send archived sum w s).work (compare_calls send archived sum s)
  unfolding compare_stage compare_calls
  compare-Ticks send archived sum w s = elim (Bool-cases (same archived sum)) [
    | inl h ↦ rw h (Ticks-skip w)
    | inr h ↦ rw h (upload-Ticks w (send s))
  ]

  fetch-Ticks :
      (upload : FileRequest → M S FileResponse) (ef : EvalFile) (archived : Bytes)
      (r : Result (Bytes × Bytes)) (w : Work) (s : S)
      → Ticks w (fetch_stage upload ef archived r w s).work (fetch_calls upload ef archived r s)
  unfolding fetch_stage fetch_calls
  fetch-Ticks upload ef archived (err e) w s = elim (Bool-cases (ltb w.ftp_errs max_ftp_errs)) [
    | inl h ↦ rw h (Ticks-none w _ refl refl refl)
    | inr h ↦ rw h (Ticks-none w _ refl refl refl)
  ]
  fetch-Ticks upload ef archived (ok (sum, content)) w s =
      compare-Ticks (upload (mass_request ef sum content)) archived sum w s

module _ (G : Gcs) (md5 : Bytes → Bytes) (bucket : Bytes)
    (upload : FileRequest → M G.State FileResponse)
    (retr : Bytes → Result (Bytes × Option Error)) where
  round-Ticks :
      (ef : EvalFile) (w : Work) (s : G.State)
      → Ticks w
          (evaluate G md5 bucket upload retr ef w s).work
          (round_calls G md5 bucket upload retr ef s)
  unfolding evaluate round_calls
  round-Ticks ef w s = elim (Bool-cases (is_update ef)) [
    | inl h ↦ rw h (fetch-Ticks upload ef _ _ w s)
    | inr h ↦ rw h (Ticks-none w w refl refl refl)
  ]

  module _ (walk_err : Option Error) where
    report_round :
        (x y : Worker) (ks : List Bytes) (after before : List Worker)
        → Ticks x.work y.work ks
        → report (before ++ (y ∷ after)) ≡ metric_all ks (report (before ++ (x ∷ after)))
    report_round x y ks after before t =
        same_counts _ _ _ _ _ _ (sum_middle (λ w. w.synced) x y t.syncs after before t.synced)
          (sum_middle (λ w. w.skipped) x y t.skips after before t.skipped)
          (sum_middle (λ w. w.errors) x y t.fails after before t.errors)
        ∙ sym (t.called _ _ _)

    report_step :
        (c d : Process G.State) (st : Step G md5 bucket upload retr walk_err c d)
        → report d.workers
          ≡ metric_all (step_calls G md5 bucket upload retr walk_err st) (report c.workers)
    unfolding step_calls metric_all
    report_step c d (sends ef rest on un room e) = rw e refl
    report_step c d (returns on un walk e) = rw e refl
    report_step c d (receives ef rest before after w on q ws e) =
        rw (e, ws)
          (report_round (record { work = w; exit = none })
            (worker_at (evaluate G md5 bucket upload retr ef w c.store))
            (round_calls G md5 bucket upload retr ef c.store) after before
            (round-Ticks ef w c.store))
    report_step c d (drains before after w on q walk ws e) =
        rw (e, ws)
          (report_round (record { work = w; exit = none }) (record { work = w; exit = some closed })
            [] after before (Ticks-none w w refl refl refl))

    -- Whatever the order of the walk and of the workers, the map that the workers share and
    -- increment under the mutex, from zeros, holds at all times the sums over the workers: of the
    -- uploads that went well, of the archives that needed none, and of the uploads that failed. So
    -- when the storage client can be closed, these sums are what is printed.
    pub SharedRun-report :
        (logins : List (Result (Unit {0}))) (entries : List WalkEntry) (s : G.State)
        (d : Process G.State) (m : Dict ℕ)
        → SharedRun G md5 bucket upload retr walk_err (launched logins entries s) new_metrics d m
        → (m ≡ report d.workers) × (print_metrics (ok tt) m ≡ ok (report d.workers))
    unfolding print_metrics launched
    SharedRun-report logins entries s d m run = let e = shared d m run in (e, ap (λ n. ok n) e)
      where
        shared :
            (d : Process G.State) (m : Dict ℕ)
            → SharedRun G md5 bucket upload retr walk_err
                (launched logins entries s)
                new_metrics
                d
                m
            → m ≡ report d.workers
        shared d m here =
            same_counts 0 0 0 _ _ _ (sym (sum_started (λ w. w.synced) logins refl))
              (sym (sum_started (λ w. w.skipped) logins refl))
              (sym (sum_started (λ w. w.errors) logins refl))
        shared d m (next {d = c} {n = n} run st) =
            ap (metric_all (step_calls G md5 bucket upload retr walk_err st)) (shared c n run)
            ∙ sym (report_step c d st)
