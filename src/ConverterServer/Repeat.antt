-- ===== src/ConverterServer/Repeat.antt =====
-- A notification that is delivered again, as pub/sub and task queues may do, to the handler of
-- cmd/converter/main.go.
use google_cloud_storage.Base.{Bytes, Option, none, some, Bool-cases, inl, inr, ◌≡◌, sym, ap, ◌∙◌}
use google_cloud_storage.Base.Result.{Result, ok, err}
use google_cloud_storage.Base.Run.{Run, returns, panic}
use google_cloud_storage.Storage.{Gcs, IsLawful}
use google_cloud_storage.Converter.Interface.{Gobgp, Gzip}
use google_cloud_storage.Converter.Update.{Update}
use google_cloud_storage.Converter.Stream.{Stream}
use google_cloud_storage.Converter.Archive.{Config, process_mrt_archive}
use google_cloud_storage.Converter.Archive.Laws.{
  Effect, unchanged, wrote, process-Effect, process_mrt_archive_skips,
}
use google_cloud_storage.ConverterServer.{
  Event, HttpResponse, is_metadata_update, config_of, archive_upload_handler, answer, event_stage,
}

-- The store takes every object that is written to the bucket.
abbrev pub Takes : Gcs → Bytes → Type 0
Takes G bucket = (o c : Bytes) (s : G.State) → (G.write bucket o c s).closed ≡ ok tt

module _ (G : Gcs) (md5 : Bytes → Bytes) (L : IsLawful md5 G) (B : Gobgp) (Z : Gzip)
    (json : Update B.Time → Result Bytes) (bzip2 : Bytes → Stream) where
  Effect-idem :
      (cfg : Config) (s s' : G.State) (r : Result (Unit {0}))
      → Takes G cfg.dst_bucket
      → process_mrt_archive G B Z json bzip2 cfg s ≡ some (returns (s', r))
      → Effect G B Z json bzip2 cfg s s' r
      → process_mrt_archive G B Z json bzip2 cfg s' ≡ some (returns (s', r))
  Effect-idem cfg s s' r takes h (unchanged e) = rw e (rw e at h)
  Effect-idem cfg s s' r takes h (wrote out e k) =
      let closed = takes _ out s in
      rw (e, k)
        (process_mrt_archive_skips G B Z json bzip2 cfg _ _
          (L.attrs-write cfg.dst_bucket _ out s (L.copied_of_closed _ _ _ s closed) closed))

  -- Processing an archive again leaves the store as it is, with the same result.
  pub process_mrt_archive_idem :
      (cfg : Config) (s s' : G.State) (r : Result (Unit {0}))
      → Takes G cfg.dst_bucket
      → process_mrt_archive G B Z json bzip2 cfg s ≡ some (returns (s', r))
      → process_mrt_archive G B Z json bzip2 cfg s' ≡ some (returns (s', r))
  process_mrt_archive_idem cfg s s' r takes h =
      Effect-idem cfg s s' r takes h (process-Effect G B Z json bzip2 cfg s s' r h)

  module _ (unmarshal : Bytes → Result Event) (dst_bucket : Bytes) where
    answer_result :
        (x : Option (Run (G.State × Result (Unit {0})))) (s' : G.State) (resp : HttpResponse)
        → answer G B Z json bzip2 unmarshal dst_bucket x ≡ some (returns (s', resp))
        → (r : Result (Unit {0})) × (x ≡ some (returns (s', r)))
    unfolding answer
    answer_result none s' resp h = absurd (cc)
    answer_result (some panic) s' resp h = absurd (cc)
    answer_result (some (returns (t, ok u))) s' resp h = (ok u, cc)
    answer_result (some (returns (t, err e))) s' resp h = (err e, cc)

    event_idem :
        (ev : Result Event) (s s' : G.State) (resp : HttpResponse)
        → Takes G dst_bucket
        → event_stage G B Z json bzip2 unmarshal dst_bucket s ev ≡ some (returns (s', resp))
        → event_stage G B Z json bzip2 unmarshal dst_bucket s' ev ≡ some (returns (s', resp))
    unfolding event_stage
    event_idem (err e) s s' resp takes h = cc
    event_idem (ok ev) s s' resp takes h = elim (Bool-cases (is_metadata_update ev)) [
      | inr e ↦ (let h' = rw e at h in rw e (cc))
      | inl e ↦
          let h' = rw e at h in
          let cfg = config_of G B Z json bzip2 unmarshal dst_bucket ev in
          let (r, p) = answer_result (process_mrt_archive G B Z json bzip2 cfg s) s' resp h' in
          let q = process_mrt_archive_idem cfg s s' r takes p in
          rw e (ap (answer G B Z json bzip2 unmarshal dst_bucket) (q ∙ sym p) ∙ h')
    ]

    -- Where the store takes what is written to the destination bucket, a request that was answered
    -- is answered in the same way when it is delivered again to the store that it left, and the
    -- store stays as it is then.
    pub archive_upload_handler_idem :
        (body : Result Bytes) (s s' : G.State) (resp : HttpResponse)
        → Takes G dst_bucket
        → archive_upload_handler G B Z json bzip2 unmarshal dst_bucket body s
          ≡ some (returns (s', resp))
        → archive_upload_handler G B Z json bzip2 unmarshal dst_bucket body s'
          ≡ some (returns (s', resp))
    unfolding archive_upload_handler
    archive_upload_handler_idem (err e) s s' resp takes h = cc
    archive_upload_handler_idem (ok b) s s' resp takes h =
        event_idem (unmarshal b) s s' resp takes h
