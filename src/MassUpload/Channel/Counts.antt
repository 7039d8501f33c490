-- ===== src/MassUpload/Channel/Counts.antt =====
-- Every archive that the walk sends is accounted for by exactly one worker.
use google_cloud_storage.Base.{
  ℕ, ◌+◌, ◌≤◌, Bytes, List, [], ◌∷◌, ◌++◌, Option, none, some, Bool, true, false, ◌≡◌, ◌≢◌, refl,
  ap, ◌⊎◌, inl, inr, arith, length, length-append,
}
use google_cloud_storage.Base.Result.{Error, Result, ok, err}
use google_cloud_storage.Base.Effect.{M}
use google_cloud_storage.Proto.{FileRequest, FileResponse}
use google_cloud_storage.Storage.{Gcs}
use google_cloud_storage.MassUpload.{
  EvalFile, WalkEntry, Exit, closed, gave_up, fatal, evaluate, ftp_walk,
}
use google_cloud_storage.MassUpload.Laws.{counted, updates, step_counts}
use google_cloud_storage.MassUpload.Channel.{
  Worker, Process, started, launched, worker_at, is_fatal, max_walk, Step, sends, returns, receives,
  drains, Run, here, next,
}

-- What all workers have accounted for.
unfoldable pub total : List Worker → ℕ
total [] = 0
total (w ∷ workers) = counted w.work + total workers

total-append : (ws vs : List Worker) → total (ws ++ vs) ≡ total ws + total vs
unfolding total
total-append [] vs = omega arith
total-append (w ∷ ws) vs = omega (arith, total-append ws vs)

updates-append : (fs gs : List EvalFile) → updates (fs ++ gs) ≡ updates fs + updates gs
unfolding updates
updates-append [] gs = omega arith
updates-append (f ∷ fs) gs = omega (arith, updates-append fs gs)

total-started : (logins : List (Result (Unit {0}))) → total (started logins) ≡ 0
unfolding total started
total-started [] = refl
total-started (ok u ∷ logins) = omega (arith, total-started logins)
total-started (err e ∷ logins) = total-started logins

-- The update archives of a process: those to be sent, those in the channel, those accounted for.
abbrev pub archives : {S : Type 0} → Process S → ℕ
archives c = updates c.unsent + updates c.queue + total c.workers

-- While the process lives.
abbrev pub Accounts : {S : Type 0} → ℕ → Process S → Type 0
Accounts n c = (c.ended ≡ true) ⊎ ((archives c ≡ n) × (length c.queue ≤ max_walk))

fatal_cases : (x : Option Exit) → (is_fatal x ≡ true) ⊎ (x ≢ some fatal)
fatal_cases none = inr (λ h. absurd (cc))
fatal_cases (some closed) = inr (λ h. absurd (cc))
fatal_cases (some gave_up) = inr (λ h. absurd (cc))
fatal_cases (some fatal) = inl refl

clash : (b : Bool) → b ≡ false → b ≡ true → ⊥
clash true e h = absurd (cc)
clash false e h = absurd (cc)

module _ (G : Gcs) (md5 : Bytes → Bytes) (bucket : Bytes)
    (upload : FileRequest → M G.State FileResponse) (retr : Bytes → Result (Bytes × Option Error))
    (walk_err : Option Error) where
  no_step : (c d : Process G.State) → Step G md5 bucket upload retr walk_err c d → c.ended ≢ true
  no_step c d (sends ef rest on un room e) h = clash c.ended on h
  no_step c d (returns on un walk e) h = clash c.ended on h
  no_step c d (receives ef rest before after w on q ws e) h = clash c.ended on h
  no_step c d (drains before after w on q walk ws e) h = clash c.ended on h

  Step-Accounts :
      (n : ℕ) (c d : Process G.State)
      → Step G md5 bucket upload retr walk_err c d
      → Accounts n c
      → Accounts n d
  unfolding updates total
  Step-Accounts n c d st (inl ended) = absurd (no_step c d st ended)
  Step-Accounts n c d (sends ef rest on un room e) (inr (a, b)) =
      let u = ap updates un in
      rw e (
        inr (
          omega (arith, updates-append c.queue (ef ∷ [])),
          omega (arith, length-append c.queue (ef ∷ [])),
        ))
  Step-Accounts n c d (returns on un walk e) (inr (a, b)) = rw e (inr (a, b))
  Step-Accounts n c d (receives ef rest before after w on q ws e) (inr (a, b)) =
      elim (fatal_cases (evaluate G md5 bucket upload retr ef w c.store).exit) [
        | inl f ↦ rw e (inl f)
        | inr f ↦
            let p = evaluate G md5 bucket upload retr ef w c.store in
            let u = ap updates q in
            let l = ap length q in
            let v = ap total ws in
            let one = step_counts G md5 bucket upload retr ef w c.store f in
            rw e (
              inr (
                omega (
                  arith,
                  total-append before (worker_at p ∷ after),
                  total-append before (record { work = w; exit = none } ∷ after),
                ),
                omega arith,
              ))
      ]
  Step-Accounts n c d (drains before after w on q walk ws e) (inr (a, b)) =
      let v = ap total ws in
      rw e (
        inr (
          omega (
            arith,
            total-append before (record { work = w; exit = some closed } ∷ after),
            total-append before (record { work = w; exit = none } ∷ after),
          ),
          b,
        ))

  Run-Accounts :
      (n : ℕ) (c d : Process G.State)
      → Accounts n c
      → Run G md5 bucket upload retr walk_err c d
      → Accounts n d
  Run-Accounts n c d a here = a
  Run-Accounts n c d a (next {d = m} run st) = Step-Accounts n m d st (Run-Accounts n c m a run)

  -- Whatever the order of the walk and of the workers, as long as the process lives: the number of
  -- update archives of the walk is the number of those still to be sent, those in the channel, and
  -- those that the workers have counted as synced, skipped or failed; and the channel never holds
  -- more than its buffer.
  pub launched-Accounts :
      (logins : List (Result (Unit {0}))) (entries : List WalkEntry) (s : G.State)
      (d : Process G.State)
      → Run G md5 bucket upload retr walk_err (launched logins entries s) d
      → Accounts (updates (ftp_walk entries)) d
  unfolding launched updates
  launched-Accounts logins entries s d run =
      Run-Accounts _ _ d (inr (omega (arith, total-started logins), omega arith)) run
