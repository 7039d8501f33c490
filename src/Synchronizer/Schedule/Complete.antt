-- ===== src/Synchronizer/Schedule/Complete.antt =====
-- A synchronization whose downloads and uploads succeed sends everything, and is never stuck.
use google_cloud_storage.Base.{
  ℕ, zero, suc, ◌≤◌, Bytes, List, [], ◌∷◌, ◌++◌, Bool, false, All, All-middle, ◌≡◌, ◌≢◌, refl, ap,
  ◌∙◌, ◌⊎◌, inl, inr, arith,
}
use google_cloud_storage.Base.Dict.{Dict}
use google_cloud_storage.Base.Result.{Result, ok}
use google_cloud_storage.Base.Effect.{M}
use google_cloud_storage.Backoff.{Backoff}
use google_cloud_storage.Proto.{FileRequest, FileResponse}
use google_cloud_storage.Storage.{Gcs}
use google_cloud_storage.Synchronizer.FileTime.{time_from_filename}
use google_cloud_storage.Synchronizer.Upload.{
  Synchronizer, Progress, note_file, count_upload, next_file, upload_from_ftp,
}
use google_cloud_storage.Synchronizer.Upload.Laws.{IsArchived, IsArchiving, note_count_gave_up}
use google_cloud_storage.Synchronizer.Schedule.{
  Task, Running, started, resumed, pending, advance, Step, goes_on, Schedule, here, next,
}
use google_cloud_storage.Synchronizer.Schedule.Archives.{Outcomes, Schedule_archives}
use google_cloud_storage.Synchronizer.Schedule.Bounds.{Step-pending}

-- Every file of every collector is in the bucket.
abbrev pub Complete : (G : Gcs) → Bytes → G.State → Dict (List Bytes) → Type 0
Complete G bucket s [] = Unit
Complete G bucket s ((root, files) ∷ dir) =
    All (λ o. IsArchived G bucket o s) files × Complete G bucket s dir

-- Some goroutine has a file left.
data Waiting (tasks : List Task) : Type 0 where
  at :
      (before after : List Task) (f : Bytes) (files : List Bytes) (p : Progress)
      → tasks ≡ before ++ (record { todo = f ∷ files; progress = p } ∷ after)
      → Waiting tasks

Waiting-cons : (t : Task) (tasks : List Task) → Waiting tasks → Waiting (t ∷ tasks)
Waiting-cons t tasks (at before after f files p e) =
    at (t ∷ before) after f files p (ap (λ ts. t ∷ ts) e)

waiting_first :
    (todo : List Bytes) (p : Progress) (tasks : List Task)
    → (pending tasks ≢ 0 → Waiting tasks)
    → pending (record { todo = todo; progress = p } ∷ tasks) ≢ 0
    → Waiting (record { todo = todo; progress = p } ∷ tasks)
unfolding pending
waiting_first [] p tasks ih h = Waiting-cons _ tasks (ih (λ z. h (omega arith)))
waiting_first (f ∷ files) p tasks ih h = at [] tasks f files p refl

pending-Waiting : (tasks : List Task) → pending tasks ≢ 0 → Waiting tasks
unfolding pending
pending-Waiting [] h = absurd (h refl)
pending-Waiting (t ∷ tasks) h =
    waiting_first t.todo t.progress tasks (λ k. pending-Waiting tasks k) h

zero_cases : (n : ℕ) → (n ≡ 0) ⊎ (n ≢ 0)
zero_cases zero = inl refl
zero_cases (suc n) = inr (λ h. omega arith)

module _ (G : Gcs) (md5 : Bytes → Bytes) (upload : FileRequest → M G.State FileResponse)
    (get : Bytes → Result (Result Bytes)) (sr : Synchronizer) (backoff : Backoff G.State Bool) where
  abbrev Steps : Running G.State → Running G.State → Type 0
  Steps = Step G md5 upload get sr backoff

  Step-exists : (c : Running G.State) → Waiting c.tasks → (d : Running G.State) × Steps c d
  Step-exists c (at before after f files p e) =
      let (s, t) = advance G md5 upload get sr backoff f files p c.store in
      (
        record { tasks = before ++ (t ∷ after); store = s },
        goes_on before after f files p e refl refl,
      )

  run_out :
      (k : ℕ) (c : Running G.State)
      → pending c.tasks ≤ k
      → (e : Running G.State) × (n : ℕ) × Schedule G md5 upload get sr backoff e c n
        × (pending e.tasks ≡ 0)
  run_out zero c h = (c, 0, here, omega arith)
  run_out (suc k) c h = elim (zero_cases (pending c.tasks)) [
    | inl z ↦ (c, 0, here, z)
    | inr w ↦
        let (d, st) = Step-exists c (pending-Waiting c.tasks w) in
        let (e, n, rest, done) =
          run_out k d (omega (arith, Step-pending G md5 upload get sr backoff c d st)) in
        (e, suc n, next st rest, done)
  ]

  -- Wherever the goroutines are, they can go on until all of them are done.
  pub Schedule_ends :
      (c : Running G.State)
      → (e : Running G.State) × (n : ℕ) × Schedule G md5 upload get sr backoff e c n
        × (pending e.tasks ≡ 0)
  Schedule_ends c = run_out (pending c.tasks) c (omega arith)

  module _ (Good : Bytes → Type 0) where
    -- Every good file can be downloaded, and the upload server takes it.
    pub record Works : Type 0 where
      pub sends :
          (f : Bytes) (s : G.State)
          → Good f
          → (t : G.State) × (b : Bool) × (upload_from_ftp G md5 upload get sr f s ≡ (t, ok b))

    abbrev pub AllGood : Dict (List Bytes) → Type 0
    AllGood = All (λ p. All Good p.1)

    -- It did not give up, and has only good files left.
    abbrev GoesOn : Task → Type 0
    GoesOn t = (t.progress.gave_up ≡ false) × All Good t.todo

    GoesOn-started : (dir : Dict (List Bytes)) → AllGood dir → All GoesOn (started dir)
    unfolding started
    GoesOn-started [] h = tt
    GoesOn-started ((root, files) ∷ dir) (g, gs) = ((refl, g), GoesOn-started dir gs)

    resumed-GoesOn :
        (files : List Bytes) (r : G.State × Progress)
        → All Good files
        → r.1.gave_up ≡ false
        → GoesOn (resumed files r).1
    resumed-GoesOn files (s, q) g h = (h, rw h g)

    module _ (W : Works) where
      advance-GoesOn :
          (f : Bytes) (files : List Bytes) (p : Progress) (s : G.State)
          → GoesOn (record { todo = f ∷ files; progress = p })
          → GoesOn (advance G md5 upload get sr backoff f files p s).1
      unfolding advance next_file
      advance-GoesOn f files p s (h, (g, gs)) =
          let (t, b, e) = W.sends f s g in
          rw (backoff.retry_ok sr.retry_count (upload_from_ftp G md5 upload get sr f) s t b e) (
            resumed-GoesOn files (t, note_file f (time_from_filename f) (count_upload b p)) gs
              (note_count_gave_up f (time_from_filename f) b p ∙ h))

      Step-GoesOn : (a b : Running G.State) → Steps a b → All GoesOn a.tasks → All GoesOn b.tasks
      Step-GoesOn a b (goes_on before after f files p ea eb es) k = rw eb (
          All-middle GoesOn (record { todo = f ∷ files; progress = p }) _ after before
            (λ j. advance-GoesOn f files p a.store j) (rw ea at k))

      Schedule-GoesOn :
          (e c : Running G.State) (n : ℕ)
          → Schedule G md5 upload get sr backoff e c n
          → All GoesOn c.tasks
          → All GoesOn e.tasks
      Schedule-GoesOn e c n here h = h
      Schedule-GoesOn e c n (next {d = d} {n = m} st rest) h =
          Schedule-GoesOn e d m rest (Step-GoesOn c d st h)

      module _ (A : IsArchiving G sr.bucket upload) where
        complete :
            (s : G.State) (dir : Dict (List Bytes)) (tasks : List Task)
            → All GoesOn tasks
            → Outcomes G sr.bucket s dir tasks
            → Complete G sr.bucket s dir
        complete s [] [] g h = tt
        complete s [] (t ∷ tasks) g h = absurd h
        complete s ((root, files) ∷ dir) [] g h = absurd h
        complete s ((root, files) ∷ dir) (t ∷ tasks) ((g, l), gs) (inl stop, hs) = absurd (cc)
        complete s ((root, files) ∷ dir) (t ∷ tasks) ((g, l), gs) (inr all, hs) =
            (all, complete s dir tasks gs hs)

        -- Where every file that was listed is one that can be downloaded and that the server takes,
        -- a synchronization that has come to its end, in any order of its goroutines, has left
        -- every file that it listed in the bucket.
        pub Schedule-Complete :
            (dir : Dict (List Bytes)) (s : G.State) (e : Running G.State) (n : ℕ)
            → AllGood dir
            → Schedule G md5 upload get sr backoff e (record { tasks = started dir; store = s }) n
            → pending e.tasks ≡ 0
            → Complete G sr.bucket e.store dir
        Schedule-Complete dir s e n good run done =
            complete e.store dir e.tasks (Schedule-GoesOn e _ n run (GoesOn-started dir good))
              (Schedule_archives G md5 upload get sr backoff A dir s e n run done)
