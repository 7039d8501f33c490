-- ===== src/Synchronizer/Schedule/Archives.antt =====
-- What a synchronization leaves in the bucket, whatever the order of its goroutines.
use google_cloud_storage.Base.{
  ℕ, Bytes, List, [], ◌∷◌, ◌++◌, append_assoc, append-nil, Bool, true, Bool-cases, All, All-append,
  ◌≡◌, refl, sym, ◌∙◌, ◌⊎◌, inl, inr, arith, length,
}
use google_cloud_storage.Base.Dict.{Dict}
use google_cloud_storage.Base.Result.{Result, ok, err}
use google_cloud_storage.Base.Effect.{M}
use google_cloud_storage.Backoff.{Backoff, retry_keeps, retry_establishes}
use google_cloud_storage.Proto.{FileRequest, FileResponse}
use google_cloud_storage.Storage.{Gcs}
use google_cloud_storage.Synchronizer.FileTime.{time_from_filename}
use google_cloud_storage.Synchronizer.Upload.{
  Synchronizer, Progress, note_file, count_upload, next_file, upload_from_ftp,
}
use google_cloud_storage.Synchronizer.Upload.Laws.{
  IsArchived, IsArchiving, note_count_gave_up, upload_from_ftp_archives, upload_from_ftp_keeps,
}
use google_cloud_storage.Synchronizer.Schedule.{
  Task, Running, started, resumed, pending, advance, Step, goes_on, Schedule, here, next,
}

resumed_store : {S : Type 0} (files : List Bytes) (r : S × Progress) → (resumed files r).0 ≡ r.0
resumed_store files (s, q) = refl

next_file_store :
    {S : Type 0} (f : Bytes) (p : Progress) (r : S × Result Bool)
    → (next_file (λ q t. (t, q)) f p r).0 ≡ r.0
unfolding next_file
next_file_store f p (s, ok skipped) = refl
next_file_store f p (s, err e) = refl

module _ (G : Gcs) (bucket : Bytes) where
  -- A goroutine's account of its files: it gave up, or the files behind it are all in the bucket.
  abbrev pub Account : G.State → List Bytes → Task → Type 0
  Account s files t =
      (t.progress.gave_up ≡ true)
      ⊎ ((behind : List Bytes) × All (λ o. IsArchived G bucket o s) behind
          × (files ≡ behind ++ t.todo))

  abbrev pub Accounts : G.State → Dict (List Bytes) → List Task → Type 0
  Accounts s [] [] = Unit
  Accounts s [] (t ∷ tasks) = ⊥
  Accounts s ((root, files) ∷ dir) [] = ⊥
  Accounts s ((root, files) ∷ dir) (t ∷ tasks) = Account s files t × Accounts s dir tasks

  All-keeps :
      (s t : G.State)
      → ((o : Bytes) → IsArchived G bucket o s → IsArchived G bucket o t)
      → (files : List Bytes) → All (λ o. IsArchived G bucket o s) files
      → All (λ o. IsArchived G bucket o t) files
  All-keeps s t keep [] h = tt
  All-keeps s t keep (f ∷ files) (h, hs) = (keep f h, All-keeps s t keep files hs)

  Account-keeps :
      (s t : G.State)
      → ((o : Bytes) → IsArchived G bucket o s → IsArchived G bucket o t)
      → (files : List Bytes) (u : Task) → Account s files u
      → Account t files u
  Account-keeps s t keep files u (inl gave_up) = inl gave_up
  Account-keeps s t keep files u (inr (behind, h, e)) = inr (behind, All-keeps s t keep behind h, e)

  Accounts-keeps :
      (s t : G.State)
      → ((o : Bytes) → IsArchived G bucket o s → IsArchived G bucket o t)
      → (dir : Dict (List Bytes)) (tasks : List Task) → Accounts s dir tasks
      → Accounts t dir tasks
  Accounts-keeps s t keep [] [] h = tt
  Accounts-keeps s t keep [] (u ∷ tasks) h = h
  Accounts-keeps s t keep ((root, files) ∷ dir) [] h = h
  Accounts-keeps s t keep ((root, files) ∷ dir) (u ∷ tasks) (h, hs) =
      (Account-keeps s t keep files u h, Accounts-keeps s t keep dir tasks hs)

  -- One of the accounts moves on, the others are kept.
  Accounts-step :
      (s t : G.State) (u v : Task) (after : List Task)
      → ((o : Bytes) → IsArchived G bucket o s → IsArchived G bucket o t)
      → ((files : List Bytes) → Account s files u → Account t files v)
      → (dir : Dict (List Bytes)) (before : List Task) → Accounts s dir (before ++ (u ∷ after))
      → Accounts t dir (before ++ (v ∷ after))
  Accounts-step s t u v after keep move [] [] h = h
  Accounts-step s t u v after keep move [] (b ∷ before) h = h
  Accounts-step s t u v after keep move ((root, files) ∷ dir) [] (h, hs) =
      (move files h, Accounts-keeps s t keep dir after hs)
  Accounts-step s t u v after keep move ((root, files) ∷ dir) (b ∷ before) (h, hs) =
      (Account-keeps s t keep files b h, Accounts-step s t u v after keep move dir before hs)

  Accounts-started : (s : G.State) (dir : Dict (List Bytes)) → Accounts s dir (started dir)
  unfolding started
  Accounts-started s [] = tt
  Accounts-started s ((root, files) ∷ dir) = (inr ([], tt, refl), Accounts-started s dir)

  -- The outcome for each collector: its goroutine gave up, or its files are all in the bucket.
  abbrev pub Outcomes : G.State → Dict (List Bytes) → List Task → Type 0
  Outcomes s [] [] = Unit
  Outcomes s [] (t ∷ tasks) = ⊥
  Outcomes s ((root, files) ∷ dir) [] = ⊥
  Outcomes s ((root, files) ∷ dir) (t ∷ tasks) =
      ((t.progress.gave_up ≡ true) ⊎ All (λ o. IsArchived G bucket o s) files)
      × Outcomes s dir tasks

  outcome :
      (s : G.State) (files todo : List Bytes) (p : Progress)
      → length todo ≡ 0
      → Account s files (record { todo = todo; progress = p })
      → (p.gave_up ≡ true) ⊎ All (λ o. IsArchived G bucket o s) files
  outcome s files todo p z (inl gave_up) = inl gave_up
  outcome s files (f ∷ todo) p z (inr h) = absurd (omega arith)
  outcome s files [] p z (inr (behind, h, e)) = inr (rw (e, append-nil) h)

  Outcomes-Accounts :
      (s : G.State) (dir : Dict (List Bytes)) (tasks : List Task)
      → pending tasks ≡ 0
      → Accounts s dir tasks
      → Outcomes s dir tasks
  unfolding pending
  Outcomes-Accounts s [] [] z h = tt
  Outcomes-Accounts s [] (t ∷ tasks) z h = h
  Outcomes-Accounts s ((root, files) ∷ dir) [] z h = h
  Outcomes-Accounts s ((root, files) ∷ dir) (t ∷ tasks) z (h, hs) = (
    outcome s files t.todo t.progress (omega arith) h,
    Outcomes-Accounts s dir tasks (omega arith) hs,
  )

  moved :
      (s : G.State) (f : Bytes) (files : List Bytes) (p : Progress)
      → (r : G.State × Result Bool)
      → ((t : G.State) (b : Bool) → r ≡ (t, ok b) → IsArchived G bucket f t)
      → ((o : Bytes) → IsArchived G bucket o s → IsArchived G bucket o r.0)
      → (all : List Bytes) → Account s all (record { todo = f ∷ files; progress = p })
      → Account
          (resumed files (next_file (λ q t. (t, q)) f p r)).0
          all
          (resumed files (next_file (λ q t. (t, q)) f p r)).1
  unfolding next_file
  moved s f files p (t, err e) post keep all h = inl refl
  moved s f files p (t, ok skipped) post keep all (inl gave_up) =
      inl (note_count_gave_up f (time_from_filename f) skipped p ∙ gave_up)
  moved s f files p (t, ok skipped) post keep all (inr (behind, h, e)) =
      let q = note_file f (time_from_filename f) (count_upload skipped p) in
      elim (Bool-cases q.gave_up) [
        | inl stop ↦ inl stop
        | inr still ↦ rw still (
            inr (
              behind ++ (f ∷ []),
              All-append (λ o. IsArchived G bucket o t) behind (f ∷ [])
                  (All-keeps s t keep behind h) (post t skipped refl, tt),
              e ∙ sym (append_assoc behind (f ∷ []) files),
            ))
      ]

module _ (G : Gcs) (md5 : Bytes → Bytes) (upload : FileRequest → M G.State FileResponse)
    (get : Bytes → Result (Result Bytes)) (sr : Synchronizer) (backoff : Backoff G.State Bool)
    (A : IsArchiving G sr.bucket upload) where
  abbrev attempt : Bytes → M G.State Bool
  attempt = upload_from_ftp G md5 upload get sr

  kept_by_retry :
      (f o : Bytes) (s : G.State)
      → IsArchived G sr.bucket o s
      → IsArchived G sr.bucket o (backoff.retry sr.retry_count (attempt f) s).0
  kept_by_retry f o s h =
      retry_keeps backoff (attempt f) (IsArchived G sr.bucket o)
        (λ t k. upload_from_ftp_keeps G md5 upload get sr A f o t k) sr.retry_count s h

  established_by_retry :
      (f : Bytes) (s t : G.State) (b : Bool)
      → backoff.retry sr.retry_count (attempt f) s ≡ (t, ok b)
      → IsArchived G sr.bucket f t
  established_by_retry f s t b e =
      retry_establishes backoff (attempt f) (IsArchived G sr.bucket f)
        (λ u v c k. upload_from_ftp_archives G md5 upload get sr A f u v c k) sr.retry_count s t b e

  advance-Account :
      (f : Bytes) (files : List Bytes) (p : Progress) (s : G.State) (all : List Bytes)
      → Account G sr.bucket s all (record { todo = f ∷ files; progress = p })
      → Account G sr.bucket
          (advance G md5 upload get sr backoff f files p s).0
          all
          (advance G md5 upload get sr backoff f files p s).1
  unfolding advance
  advance-Account f files p s all h =
      moved G sr.bucket s f files p (backoff.retry sr.retry_count (attempt f) s)
        (λ t b e. established_by_retry f s t b e) (λ o k. kept_by_retry f o s k) all h

  advance-keeps :
      (f : Bytes) (files : List Bytes) (p : Progress) (s : G.State) (o : Bytes)
      → IsArchived G sr.bucket o s
      → IsArchived G sr.bucket o (advance G md5 upload get sr backoff f files p s).0
  unfolding advance
  advance-keeps f files p s o h =
      rw
        (
          resumed_store files
              (next_file (λ q t. (t, q)) f p (backoff.retry sr.retry_count (attempt f) s)),
          next_file_store f p (backoff.retry sr.retry_count (attempt f) s),
        )
        (kept_by_retry f o s h)

  Step-Accounts :
      (c d : Running G.State) (dir : Dict (List Bytes))
      → Step G md5 upload get sr backoff c d
      → Accounts G sr.bucket c.store dir c.tasks
      → Accounts G sr.bucket d.store dir d.tasks
  Step-Accounts c d dir (goes_on before after f files p ec ed es) h =
      rw (es, ed)
        (Accounts-step G sr.bucket c.store _ (record { todo = f ∷ files; progress = p }) _ after
          (λ o k. advance-keeps f files p c.store o k)
          (λ all k. advance-Account f files p c.store all k) dir before (rw ec at h))

  Schedule-Accounts :
      (e c : Running G.State) (n : ℕ) (dir : Dict (List Bytes))
      → Schedule G md5 upload get sr backoff e c n
      → Accounts G sr.bucket c.store dir c.tasks
      → Accounts G sr.bucket e.store dir e.tasks
  Schedule-Accounts e c n dir here h = h
  Schedule-Accounts e c n dir (next {d = d} {n = m} st rest) h =
      Schedule-Accounts e d m dir rest (Step-Accounts c d dir st h)

  -- With an upload server that stores what it accepts and loses no file: once every goroutine is
  -- done, in whatever order they went on, each of them gave up or has all files of its collector in
  -- the bucket, as objects with a checksum.
  pub Schedule_archives :
      (dir : Dict (List Bytes)) (s : G.State) (e : Running G.State) (n : ℕ)
      → Schedule G md5 upload get sr backoff e (record { tasks = started dir; store = s }) n
      → pending e.tasks ≡ 0
      → Outcomes G sr.bucket e.store dir e.tasks
  Schedule_archives dir s e n run done =
      Outcomes-Accounts G sr.bucket e.store dir e.tasks done
        (Schedule-Accounts e _ n dir run (Accounts-started G sr.bucket s dir))
