-- ===== src/Synchronizer/Schedule/Sequential.antt =====
-- The loop of `uploadFilesFromFTP` from its first file to its last is one of the schedules.
pub mod Whole
use google_cloud_storage.Base.{ℕ, suc, Bytes, List, [], ◌∷◌, ◌++◌, Bool, false, ◌≡◌, refl, ◌∙◌}
use google_cloud_storage.Base.Result.{Result, ok, err}
use google_cloud_storage.Base.Effect.{M}
use google_cloud_storage.Backoff.{Backoff}
use google_cloud_storage.Proto.{FileRequest, FileResponse}
use google_cloud_storage.Storage.{Gcs}
use google_cloud_storage.Synchronizer.FileTime.{time_from_filename}
use google_cloud_storage.Synchronizer.Upload.{
  Synchronizer, Progress, note_file, count_upload, next_file, upload_from_ftp,
  upload_files_from_ftp,
}
use google_cloud_storage.Synchronizer.Upload.Laws.{note_count_gave_up}
use google_cloud_storage.Synchronizer.Schedule.{
  Task, Running, resumed, advance, Step, goes_on, Schedule, here, next,
}

module _ (G : Gcs) (md5 : Bytes → Bytes) (upload : FileRequest → M G.State FileResponse)
    (get : Bytes → Result (Result Bytes)) (sr : Synchronizer) (backoff : Backoff G.State Bool)
    (before after : List Task) where
  abbrev pub loop : List Bytes → Progress → G.State → G.State × Progress
  loop = upload_files_from_ftp G md5 upload get sr backoff

  abbrev pub at : List Bytes → Progress → G.State → Running G.State
  at files p s = record {
    tasks = before ++ (record { todo = files; progress = p } ∷ after);
    store = s;
  }

  abbrev pub done : G.State × Progress → Running G.State
  done (s, q) = at [] q s

  abbrev one : Bytes → G.State → G.State × Result Bool
  one f s = backoff.retry sr.retry_count (upload_from_ftp G md5 upload get sr f) s

  abbrev place : G.State × Task → Running G.State
  place (s, t) = record { tasks = before ++ (t ∷ after); store = s }

  step :
      (f : Bytes) (files : List Bytes) (p : Progress) (s : G.State)
      → Step G md5 upload get sr backoff
          (at (f ∷ files) p s)
          (place (advance G md5 upload get sr backoff f files p s))
  step f files p s = goes_on before after f files p refl refl refl

  abbrev pub Reaches : Running G.State → Running G.State → Type 0
  Reaches c e = (n : ℕ) × Schedule G md5 upload get sr backoff e c n

  after_step :
      (f : Bytes) (files : List Bytes) (p : Progress) (r : G.State × Result Bool)
      → ((q : Progress) (s : G.State)
          → q.gave_up ≡ false
          → Reaches (at files q s) (done (loop files q s)))
      → p.gave_up ≡ false
      → Reaches
          (place (resumed files (next_file (λ q t. (t, q)) f p r)))
          (done (next_file (loop files) f p r))
  unfolding next_file
  after_step f files p (s, err e) ih on = (0, here)
  after_step f files p (s, ok skipped) ih on =
      let q = note_file f (time_from_filename f) (count_upload skipped p) in
      let still : q.gave_up ≡ false = note_count_gave_up f (time_from_filename f) skipped p ∙ on in
      rw still (ih q s still)

  -- While the others wait, one goroutine can go through all its files: where it then stands, and
  -- the store, are what the loop returns.
  pub Schedule-upload_files :
      (files : List Bytes) (p : Progress) (s : G.State)
      → p.gave_up ≡ false
      → Reaches (at files p s) (done (loop files p s))
  unfolding upload_files_from_ftp advance
  Schedule-upload_files [] p s on = (0, here)
  Schedule-upload_files (f ∷ files) p s on =
      let (n, rest) =
        after_step f files p (one f s) (λ q t k. Schedule-upload_files files q t k) on in
      (suc n, next (step f files p s) rest)
