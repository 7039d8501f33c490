-- ===== src/Synchronizer/Upload.antt =====
-- `New`, `uploadFromFTP`, `uploadFilesFromFTP` and `Sync` of pkg/synchronizer/synchronizer.go.
pub mod Laws
use google_cloud_storage.Base.{
  ℕ, zero, suc, ◌+◌, ◌-◌, ◌*◌, ◌≤◌, ◌<◌, Bytes, codes, same, is_empty, List, [], ◌∷◌, ◌++◌, Option,
  none, some, Bool, true, false, ◌&&◌, ◌||◌, not, ltb, leb, ◌==◌, if◌then◌else◌, length,
}
use google_cloud_storage.Base.Dict.{Dict}
use google_cloud_storage.Base.Result.{Error, errorf, wrap, Result, ok, err, within}
use google_cloud_storage.Base.Effect.{M}
use google_cloud_storage.Backoff.{Backoff}
use google_cloud_storage.Proto
use google_cloud_storage.Proto.{Project, FileRequest, FileResponse}
use google_cloud_storage.Storage.{Gcs}
use google_cloud_storage.Client.{md5_from_gcs, md5_from_http}
use google_cloud_storage.Strings.Search.{has_prefix}
use google_cloud_storage.Time.{minute}
use google_cloud_storage.Synchronizer.FileTime.{time_from_filename}
use google_cloud_storage.Synchronizer.Months.{spanned_months}
use google_cloud_storage.Synchronizer.Compile.{Entry, compile_dir}

-- `Config`, with whether the two clients are there.
pub record Config : Type 0 where
  pub ftp_server : Bytes
  pub ftp_user : Bytes
  pub ftp_pass : Bytes
  pub has_gcs_cli : Bool
  pub has_upload_server_cli : Bool
  pub archive_bucket : Bytes
  pub http_root : Bytes

-- What is read of a `Synchronizer` later.
pub record Synchronizer : Type 0 where
  pub retry_count : ℕ
  pub http_url_root : Bytes
  pub expected_collector_count : ℕ
  pub bucket : Bytes

-- `hr[len(hr)-1] != '/'`, on a text that is not empty.
unfoldable pub ends_with_slash : Bytes → Bool
ends_with_slash [] = false
ends_with_slash (c ∷ []) = c == b'/'
ends_with_slash (c ∷ d ∷ s) = ends_with_slash (d ∷ s)

unfoldable pub new_synchronizer : Option Config → Result Synchronizer
unfolding ends_with_slash
new_synchronizer none = err (errorf "nil config")
new_synchronizer (some cfg) =
    if is_empty cfg.ftp_server || is_empty cfg.ftp_user
    then err (errorf "invalid FTP creds")
    else if not cfg.has_gcs_cli
    then err (errorf "invalid GCS client")
    else if not cfg.has_upload_server_cli
    then err (errorf "invalid gRPC connection")
    else if is_empty cfg.archive_bucket
    then err (errorf "the corresponding archive bucket is not specified")
    else if not (has_prefix cfg.http_root (codes "http"))
    then err (errorf "%s does not have the HTTP prefix")
    else ok (record {
      retry_count = 5;
      http_url_root =
          if ends_with_slash cfg.http_root then cfg.http_root else cfg.http_root ++ codes "/";
      expected_collector_count = 34;
      bucket = cfg.archive_bucket;
    })

-- What the loop over the files of a collector keeps: the last file that was checked, how many were
-- uploaded, the pairs reported as far apart, and whether it gave up.
pub record Progress : Type 0 where
  pub last_uploaded : Bytes
  pub upload_count : ℕ
  pub gaps : List (Bytes × Bytes)
  pub gave_up : Bool

abbrev pub no_progress : Progress
no_progress = record { last_uploaded = []; upload_count = 0; gaps = []; gave_up = false }

-- `err == nil && gcsMD5 != ""`
unfoldable pub is_archived : Result Bytes → Bool
is_archived (ok sum) = not (is_empty sum)
is_archived (err e) = false

-- The check for missing archives after a file, from the time of the file and of the last one.
unfoldable pub note_gap : Bytes → ℕ → Result ℕ → Progress → Progress
note_gap f latest (err e) p = p
note_gap f latest (ok prev) p =
    if ltb (15 * minute) (latest - prev)
    then record p { last_uploaded = f; gaps = p.gaps ++ ((p.last_uploaded, f) ∷ []) }
    else record p { last_uploaded = f }

unfoldable pub note_file : Bytes → Result ℕ → Progress → Progress
unfolding note_gap
note_file f (err e) p = p
note_file f (ok latest) p =
    if is_empty p.last_uploaded
    then record p { last_uploaded = f }
    else note_gap f latest (time_from_filename p.last_uploaded) p

-- `skipped` adds nothing to the count.
abbrev pub count_upload : Bool → Progress → Progress
count_upload skipped p = if skipped then p else record p { upload_count = p.upload_count + 1 }

-- The rest of an iteration, after the attempts to upload a file; `rest` are the other iterations.
unfoldable pub next_file :
    {S : Type 0} → (Progress → S → S × Progress) → Bytes → Progress → S × Result Bool → S × Progress
unfolding note_file
next_file rest f p (s, err e) = (s, record p { gave_up = true })
next_file rest f p (s, ok skipped) =
    rest (note_file f (time_from_filename f) (count_upload skipped p)) s

-- The upload server's `FileUpload`, an HTTP GET and the FTP listing are arguments.
module _ (G : Gcs) (md5 : Bytes → Bytes) (upload : FileRequest → M G.State FileResponse)
    (get : Bytes → Result (Result Bytes)) (sr : Synchronizer) where
  abbrev pub request_of : Bytes → Bytes × Bytes → FileRequest
  request_of f (sum, content) = record {
    filename = f;
    md5sum = sum;
    content = content;
    convert_sql = false;
    project = Project.routeviews;
  }

  abbrev pub uploaded : G.State × Result FileResponse → G.State × Result Bool
  uploaded (s, ok resp) = (s, ok false)
  uploaded (s, err e) = (s, err (wrap "FileUpload" e))

  unfoldable pub download_stage : Bytes → Result (Bytes × Bytes) → M G.State Bool
  download_stage f (err e) s = (s, err (wrap "file %s cannot be downloaded" e))
  download_stage f (ok file) s = uploaded (upload (request_of f file) s)

  -- Whether the file was skipped.
  unfoldable pub upload_from_ftp : Bytes → M G.State Bool
  unfolding download_stage is_archived
  upload_from_ftp f s =
      if is_archived (md5_from_gcs G sr.bucket f s)
      then (s, ok true)
      else download_stage f (md5_from_http md5 (get (sr.http_url_root ++ f))) s

  module _ (backoff : Backoff G.State Bool) where
    unfoldable pub upload_files_from_ftp : List Bytes → Progress → G.State → G.State × Progress
    unfolding next_file upload_from_ftp
    upload_files_from_ftp [] p s = (s, p)
    upload_files_from_ftp (f ∷ files) p s =
        next_file (λ q t. upload_files_from_ftp files q t) f p
          (backoff.retry sr.retry_count (upload_from_ftp f) s)

    -- The goroutines of `Sync`, one for each collector, in the order of the listing.
    unfoldable pub sync_dirs : Dict (List Bytes) → G.State → G.State
    unfolding upload_files_from_ftp
    sync_dirs [] s = s
    sync_dirs ((root, files) ∷ dir) s = sync_dirs dir (upload_files_from_ftp files no_progress s).0

    -- One attempt of `Sync` to connect to the FTP server, of state `F`, and to list it.
    abbrev pub compiled :
        {F : Type 0}
        → ℕ
        → ℕ
        → F × Result (Bytes → Result (List Entry))
        → F × Result (Dict (List Bytes))
    compiled start end (g, err e) = (g, err e)
    compiled start end (g, ok list) = (
      g,
      within "compileDir"
          (compile_dir start end list sr.expected_collector_count (spanned_months start end)),
    )

    unfoldable pub sync :
        {F : Type 0}
        → M F (Bytes → Result (List Entry))
        → Backoff F (Dict (List Bytes))
        → ℕ
        → ℕ
        → F
        → G.State
        → F × G.State × Result (Unit {0})
    unfolding sync_dirs
    sync connect listing start end ftp s =
        if not (ltb start end)
        then (ftp, s, err (errorf "start time %s should be before end time %s"))
        else let (ftp', r) =
            listing.retry sr.retry_count (λ g. compiled start end (connect g)) ftp in
          elim r [ err e ↦ (ftp', s, err e) | ok dir ↦ (ftp', sync_dirs dir s, ok tt) ]
