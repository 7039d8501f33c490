-- ===== src/MassUpload/Channel/Report.antt =====
-- The metrics of cmd/archive_upload_mass_upload/mass_upload.go, which the workers share, and what
-- `main` prints of them.
pub mod Laws
use google_cloud_storage.Base.{
  ℕ, suc, ◌+◌, Bytes, codes, same, List, [], ◌∷◌, ◌++◌, Option, none, some, Bool, true, false, not,
  if◌then◌else◌, Bool-cases, ◌≡◌, ◌≢◌, ◌⊎◌, inl, inr, refl, sym, ap, ◌∙◌, arith, ltb,
}
use google_cloud_storage.Base.Dict.{Dict, lookup, insert}
use google_cloud_storage.Base.Result.{Error, Result, ok, err, within}
use google_cloud_storage.Base.Effect.{M}
use google_cloud_storage.Proto.{FileRequest, FileResponse}
use google_cloud_storage.Storage.{Gcs}
use google_cloud_storage.Strings.Trim.{trim_left}
use google_cloud_storage.MassUpload.{
  EvalFile, WalkEntry, Work, Position, mass_request, upload_stage, compare_stage, fetch_stage,
  is_update, md5_from_gcs, md5_from_ftp, sum_or_empty, evaluate, max_grpc_errs, max_ftp_errs,
  closed,
}
use google_cloud_storage.MassUpload.Channel.{
  Worker, Process, started, launched, worker_at, no_work, Step, sends, returns, receives, drains,
}

-- `c.metrics[k]`: a missing key reads as zero.
abbrev pub count_or_zero : Option ℕ → ℕ
count_or_zero none = 0
count_or_zero (some n) = n

-- `metric`, which holds the mutex.
unfoldable pub metric : Bytes → Dict ℕ → Dict ℕ
metric k m = insert k (count_or_zero (lookup k m) + 1) m

-- The map that `new` makes.
abbrev pub new_metrics : Dict ℕ
new_metrics = (codes "sync", 0) ∷ (codes "skip", 0) ∷ (codes "error", 0) ∷ []

unfoldable pub metric_all : List Bytes → Dict ℕ → Dict ℕ
unfolding metric
metric_all [] m = m
metric_all (k ∷ ks) m = metric_all ks (metric k m)

-- `close`, and what `main` prints after it. A storage client that is not closed ends the process.
unfoldable pub print_metrics : Result (Unit {0}) → Dict ℕ → Result (Dict ℕ)
print_metrics (ok u) m = ok m
print_metrics (err e) m = within "failed to close the cloud-storage client: %v" (err e)

-- The calls of `metric` in a round of the loop of `readChannel`.
module _ {S : Type 0} where
  unfoldable pub upload_calls : S × Result FileResponse → List Bytes
  upload_calls (s, ok resp) = codes "sync" ∷ []
  upload_calls (s, err e) = codes "error" ∷ []

  unfoldable pub compare_calls : M S FileResponse → Bytes → Bytes → S → List Bytes
  unfolding upload_calls
  compare_calls send archived sum s =
      if same archived sum then codes "skip" ∷ [] else upload_calls (send s)

  unfoldable pub fetch_calls :
      (FileRequest → M S FileResponse) → EvalFile → Bytes → Result (Bytes × Bytes) → S → List Bytes
  unfolding compare_calls
  fetch_calls upload ef archived (err e) s = []
  fetch_calls upload ef archived (ok (sum, content)) s =
      compare_calls (upload (mass_request ef sum content)) archived sum s

-- The metrics as the sum of what each worker has counted.
unfoldable pub sum_of : (Work → ℕ) → List Worker → ℕ
sum_of f [] = 0
sum_of f (w ∷ ws) = f w.work + sum_of f ws

abbrev pub report : List Worker → Dict ℕ
report ws =
    (codes "sync", sum_of (λ w. w.synced) ws)
    ∷ (codes "skip", sum_of (λ w. w.skipped) ws)
    ∷ (codes "error", sum_of (λ w. w.errors) ws)
    ∷ []

module _ (G : Gcs) (md5 : Bytes → Bytes) (bucket : Bytes)
    (upload : FileRequest → M G.State FileResponse)
    (retr : Bytes → Result (Bytes × Option Error)) where
  unfoldable pub round_calls : EvalFile → G.State → List Bytes
  unfolding fetch_calls
  round_calls ef s =
      if not (is_update ef)
      then []
      else fetch_calls upload ef
          (sum_or_empty (md5_from_gcs G bucket (trim_left ef.name (codes "/")) s))
          (md5_from_ftp md5 (retr ef.name)) s

  module _ (walk_err : Option Error) where
    -- The calls of `metric` in a step.
    unfoldable pub step_calls :
        {c d : Process G.State} → Step G md5 bucket upload retr walk_err c d → List Bytes
    unfolding round_calls
    step_calls (sends ef rest on un room e) = []
    step_calls (returns on un walk e) = []
    step_calls {c = c} (receives ef rest before after w on q ws e) = round_calls ef c.store
    step_calls (drains before after w on q walk ws e) = []

    -- The runs from a state, with the map that the workers share.
    pub data SharedRun (c : Process G.State) (m : Dict ℕ) : Process G.State → Dict ℕ → Type 0 where
      here : SharedRun c m c m
      next :
          {d e : Process G.State} {n : Dict ℕ}
          → SharedRun c m d n
          → (st : Step G md5 bucket upload retr walk_err d e)
          → SharedRun c m e (metric_all (step_calls st) n)
