-- ===== src/Synchronizer/Schedule.antt =====
-- The goroutines of `Sync` in pkg/synchronizer/synchronizer.go, one for each collector, in any
-- order of their work on the shared store. A step is all that one of them does with one file.
pub mod Archives
pub mod Bounds
pub mod Complete
pub mod Sequential
use google_cloud_storage.Base.{
  ℕ, zero, suc, ◌+◌, Bytes, List, [], ◌∷◌, ◌++◌, Bool, true, false, if◌then◌else◌, length, ◌≡◌, ◌⊎◌,
}
use google_cloud_storage.Base.Dict.{Dict}
use google_cloud_storage.Base.Result.{Result}
use google_cloud_storage.Base.Effect.{M}
use google_cloud_storage.Backoff.{Backoff}
use google_cloud_storage.Proto.{FileRequest, FileResponse}
use google_cloud_storage.Storage.{Gcs}
use google_cloud_storage.Synchronizer.Upload.{
  Synchronizer, Progress, no_progress, next_file, upload_from_ftp,
}

-- A goroutine in `uploadFilesFromFTP`: the files that it has yet to look at, and its progress.
pub record Task : Type 0 where
  pub todo : List Bytes
  pub progress : Progress

pub record Running (S : Type 0) : Type 0 where
  pub tasks : List Task
  pub store : S

-- `for r, fs := range dir { go ... }`
unfoldable pub started : Dict (List Bytes) → List Task
started [] = []
started ((root, files) ∷ dir) = record { todo = files; progress = no_progress } ∷ started dir

-- A goroutine returns once it gave up.
abbrev pub resumed : {S : Type 0} → List Bytes → S × Progress → S × Task
resumed files (s, q) = (s, record { todo = if q.gave_up then [] else files; progress = q })

-- How many files are left to look at.
unfoldable pub pending : List Task → ℕ
pending [] = 0
pending (t ∷ tasks) = length t.todo + pending tasks

module _ (G : Gcs) (md5 : Bytes → Bytes) (upload : FileRequest → M G.State FileResponse)
    (get : Bytes → Result (Result Bytes)) (sr : Synchronizer) (backoff : Backoff G.State Bool) where
  -- One iteration of the loop of `uploadFilesFromFTP`.
  unfoldable pub advance : Bytes → List Bytes → Progress → G.State → G.State × Task
  unfolding next_file
  advance f files p s = resumed files (
      next_file (λ q t. (t, q)) f p
        (backoff.retry sr.retry_count (upload_from_ftp G md5 upload get sr f) s))

  -- One of the goroutines goes on with its next file.
  pub data Step (c d : Running G.State) : Type 0 where
    goes_on :
        (before after : List Task) (f : Bytes) (files : List Bytes) (p : Progress)
        → c.tasks ≡ before ++ (record { todo = f ∷ files; progress = p } ∷ after)
        → d.tasks ≡ before ++ ((advance f files p c.store).1 ∷ after)
        → d.store ≡ (advance f files p c.store).0
        → Step c d

  -- A schedule, with the number of its steps.
  pub data Schedule (e : Running G.State) : Running G.State → ℕ → Type 0 where
    here : Schedule e e 0
    next : {c d : Running G.State} {n : ℕ} → Step c d → Schedule e d n → Schedule e c (suc n)
