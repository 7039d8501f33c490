-- ===== src/MassUpload/Laws/Loop.antt =====
-- What the loop of a worker of cmd/archive_upload_mass_upload/mass_upload.go does with all the files
-- that it receives.
use google_cloud_storage.Base.{
  ◌+◌, Bytes, codes, same_refl, List, [], ◌∷◌, Option, none, some, true, false, ◌≡◌, ◌≢◌, refl, ap,
  ◌∙◌, arith, All, if◌then◌else◌,
}
use google_cloud_storage.Base.Result.{Error, Result, ok}
use google_cloud_storage.Base.Effect.{M}
use google_cloud_storage.Proto.{FileRequest, FileResponse}
use google_cloud_storage.Storage.{Gcs}
use google_cloud_storage.Strings.Trim.{trim_left}
use google_cloud_storage.MassUpload.{
  EvalFile, Work, Exit, closed, Position, md5_from_gcs, md5_from_ftp, compare_stage, fetch_stage,
  is_update, go_on, evaluate, read_channel,
}
use google_cloud_storage.MassUpload.Laws.{
  counted, updates, IsBounded, plus_zero, not_fatal, step, step-IsBounded, step_counts, step_open,
}

module _ (G : Gcs) (md5 : Bytes → Bytes) (bucket : Bytes)
    (upload : FileRequest → M G.State FileResponse)
    (retr : Bytes → Result (Bytes × Option Error)) where
  abbrev work_loop : List EvalFile → Work → G.State → Position G.State
  work_loop = read_channel G md5 bucket upload retr

  go_on-IsBounded :
      (files : List EvalFile)
      → ((w : Work) (s : G.State) → IsBounded w → IsBounded (work_loop files w s).work)
      → (p : Position G.State) (x : Option Exit) → IsBounded p.work
      → IsBounded (go_on (work_loop files) p x).work
  go_on-IsBounded files ih p none b = ih p.work p.store b
  go_on-IsBounded files ih p (some x) b = b

  -- A worker never counts more than `maxFTPErrs` failed downloads and `maxGrpcErrs` failed uploads
  -- as borne.
  pub read_channel-IsBounded :
      (files : List EvalFile) (w : Work) (s : G.State)
      → IsBounded w
      → IsBounded (read_channel G md5 bucket upload retr files w s).work
  unfolding read_channel
  read_channel-IsBounded [] w s b = b
  read_channel-IsBounded (ef ∷ files) w s b =
      go_on-IsBounded files (λ v t. read_channel-IsBounded files v t)
        (step G md5 bucket upload retr ef w s) _ (step-IsBounded G md5 bucket upload retr ef w s b)

  go_on_counts :
      (ef : EvalFile) (files : List EvalFile)
      → ((w : Work) (s : G.State)
          → (work_loop files w s).exit ≡ some closed
          → counted (work_loop files w s).work ≡ counted w + updates files)
      → (w : Work) (p : Position G.State) (x : Option Exit) → p.exit ≡ x
      → (p.exit ≡ none → counted p.work ≡ counted w + (if is_update ef then 1 else 0))
      → p.exit ≢ some closed
      → (go_on (work_loop files) p x).exit ≡ some closed
      → counted (go_on (work_loop files) p x).work ≡ counted w + updates (ef ∷ files)
  unfolding updates
  go_on_counts ef files ih w p none e once ne h =
      let a = ih p.work p.store h in let b = once e in omega arith
  go_on_counts ef files ih w p (some x) e once ne h = absurd (ne h)

  -- A worker that runs until the channel is closed has counted each update archive it received
  -- exactly once: as synced, as skipped, as a failed upload or as a failed download.
  pub read_channel_counts :
      (files : List EvalFile) (w : Work) (s : G.State)
      → (read_channel G md5 bucket upload retr files w s).exit ≡ some closed
      → counted (read_channel G md5 bucket upload retr files w s).work ≡ counted w + updates files
  unfolding read_channel updates
  read_channel_counts [] w s h = omega arith
  read_channel_counts (ef ∷ files) w s h =
      go_on_counts ef files (λ v t k. read_channel_counts files v t k) w
        (step G md5 bucket upload retr ef w s) (step G md5 bucket upload retr ef w s).exit refl
        (λ k.
          step_counts G md5 bucket upload retr ef w s
            (not_fatal (step G md5 bucket upload retr ef w s).exit k))
        (step_open G md5 bucket upload retr ef w s) h

  -- The file needs no upload: it is no update archive, or its content has the sum in the archive.
  pub data IsCurrent (ef : EvalFile) (s : G.State) : Type 0 where
    ignored : is_update ef ≡ false → IsCurrent ef s
    in_sync :
        (sum content : Bytes)
        → is_update ef ≡ true
        → md5_from_ftp md5 (retr ef.name) ≡ ok (sum, content)
        → md5_from_gcs G bucket (trim_left ef.name (codes "/")) s ≡ ok sum
        → IsCurrent ef s

  step_current :
      (ef : EvalFile) (w : Work) (s : G.State)
      → IsCurrent ef s
      → step G md5 bucket upload retr ef w s ≡ record {
        store = s;
        work = record w { skipped = w.skipped + (if is_update ef then 1 else 0) };
        exit = none;
      }
  unfolding evaluate fetch_stage compare_stage
  step_current ef w s (ignored h) = rw h (
      ap (λ n. record { store = s; work = record w { skipped = n }; exit = none })
        (plus_zero w.skipped))
  step_current ef w s (in_sync sum content h down up) =
      let k = same_refl sum in rw (h, down, up, k) refl

  -- When no file that a worker receives needs an upload, the worker leaves the store as it was,
  -- counts each update archive as skipped and nothing else, and ends with the channel.
  pub read_channel_current :
      (files : List EvalFile) (w : Work) (s : G.State)
      → All (λ ef. IsCurrent ef s) files
      → read_channel G md5 bucket upload retr files w s ≡ record {
        store = s;
        work = record w { skipped = w.skipped + updates files };
        exit = some closed;
      }
  unfolding read_channel updates
  read_channel_current [] w s h =
      ap (λ n. record { store = s; work = record w { skipped = n }; exit = some closed })
        (omega arith)
  read_channel_current (ef ∷ files) w s (h, hs) = rw (step_current ef w s h) (
      read_channel_current files _ s hs
      ∙ ap (λ n. record { store = s; work = record w { skipped = n }; exit = some closed })
          (omega arith))
