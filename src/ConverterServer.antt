-- ===== src/ConverterServer.antt =====
-- cmd/converter/main.go: the HTTP server that converts an archive when its metadata is updated.
pub mod Command
pub mod Repeat
use google_cloud_storage.Base.{
  ℕ, Bytes, codes, same, same_iff, is_empty, Option, none, some, Bool, not, ◌≡◌, ◌≢◌, ◌⊎◌, inl, inr,
  refl, arith, if◌then◌else◌, Bool-cases,
}
use google_cloud_storage.Base.Result.{Error, errorf, wrap, Result, ok, err}
use google_cloud_storage.Base.Run.{Run, returns, panic}
use google_cloud_storage.Storage.{Gcs, IsLawful}
use google_cloud_storage.Converter.Interface.{Gobgp, Gzip}
use google_cloud_storage.Converter.Update.{Update}
use google_cloud_storage.Converter.Stream.{Stream}
use google_cloud_storage.Converter.Archive.{Config, process_mrt_archive}
use google_cloud_storage.Converter.Archive.Laws.{process_mrt_archive_ne, process_mrt_archive_error}

-- `gcsPubSubEvent`
pub record Event : Type 0 where
  pub bucket : Bytes
  pub object : Bytes
  pub event_type : Bytes
  pub message_id : Bytes
  pub subscription : Bytes

-- A response: the status, which is 200 where the handler sets none, and the error in its body.
pub record HttpResponse : Type 0 where
  pub status : ℕ
  pub error : Option Error

abbrev pub silent : HttpResponse
silent = record { status = 200; error = none }

-- `newServer`; the first argument says whether the storage client is there.
unfoldable pub new_server : Bool → Bytes → Result Bytes
new_server cli dst_bucket =
    if is_empty dst_bucket
    then err (errorf "destination bucket is not specified")
    else if not cli
    then err (errorf "nil GCS client")
    else ok dst_bucket

unfoldable pub is_metadata_update : Event → Bool
is_metadata_update ev = same ev.event_type (codes "OBJECT_METADATA_UPDATE")

module _ (G : Gcs) (B : Gobgp) (Z : Gzip) (json : Update B.Time → Result Bytes)
    (bzip2 : Bytes → Stream) (unmarshal : Bytes → Result Event) (dst_bucket : Bytes) where
  abbrev pub Handled : Type 0
  Handled = Option (Run (G.State × HttpResponse))

  abbrev pub config_of : Event → Config
  config_of ev = record { src_bucket = ev.bucket; dst_bucket = dst_bucket; src_object = ev.object }

  unfoldable pub answer : Option (Run (G.State × Result (Unit {0}))) → Handled
  answer none = none
  answer (some panic) = some panic
  answer (some (returns (s, ok _))) = some (returns (s, silent))
  answer (some (returns (s, err e))) =
      some
        (returns (s, record { status = 200; error = some (wrap "converter.ProcessMRTArchive" e) }))

  unfoldable pub event_stage : G.State → Result Event → Handled
  unfolding answer
  event_stage s (err e) = some (returns (s, silent))
  event_stage s (ok ev) =
      if not (is_metadata_update ev)
      then some (returns (s, silent))
      else answer (process_mrt_archive G B Z json bzip2 (config_of ev) s)

  -- `archiveUploadHandler`. The argument is what reading the request's body returned.
  unfoldable pub archive_upload_handler : Result Bytes → G.State → Handled
  unfolding event_stage
  archive_upload_handler (err e) s = some (returns (s, silent))
  archive_upload_handler (ok body) s = event_stage s (unmarshal body)

  answer_cases :
      (s' : G.State) (resp : HttpResponse) (x : Option (Run (G.State × Result (Unit {0}))))
      → answer x ≡ some (returns (s', resp))
      → ((resp ≡ silent) × (x ≡ some (returns (s', ok tt))))
        ⊎ ((e : Error) × (resp.status ≡ 200) × (x ≡ some (returns (s', err e))))
  unfolding answer
  answer_cases s' resp none h = absurd (cc)
  answer_cases s' resp (some panic) h = absurd (cc)
  answer_cases s' resp (some (returns (t, ok u))) h = inl (cc, cc)
  answer_cases s' resp (some (returns (t, err e))) h = inr (e, ground arith, cc)

  -- What a request can do: nothing, or process the archive of its event.
  event_cases :
      (s s' : G.State) (resp : HttpResponse) (r : Result Event)
      → event_stage s r ≡ some (returns (s', resp))
      → ((resp ≡ silent) × (s' ≡ s))
        ⊎ ((ev : Event) × (answer (process_mrt_archive G B Z json bzip2 (config_of ev) s)
              ≡ some (returns (s', resp))))
  unfolding event_stage
  event_cases s s' resp (err e) h = inl (cc, cc)
  event_cases s s' resp (ok ev) h = elim (Bool-cases (is_metadata_update ev)) [
    | inl e ↦ inr (ev, rw e at h)
    | inr e ↦ let h' = rw e at h in inl (cc, cc)
  ]

  handler_cases :
      (s s' : G.State) (resp : HttpResponse) (body : Result Bytes)
      → archive_upload_handler body s ≡ some (returns (s', resp))
      → ((resp ≡ silent) × (s' ≡ s))
        ⊎ ((ev : Event) × (answer (process_mrt_archive G B Z json bzip2 (config_of ev) s)
              ≡ some (returns (s', resp))))
  unfolding archive_upload_handler
  handler_cases s s' resp (err e) h = inl (cc, cc)
  handler_cases s s' resp (ok b) h = event_cases s s' resp (unmarshal b) h

  -- A request that is answered gets status 200, and where the answer reports an error the store is
  -- as it was.
  pub archive_upload_handler_quiet :
      (s s' : G.State) (resp : HttpResponse) (body : Result Bytes)
      → archive_upload_handler body s ≡ some (returns (s', resp))
      → (resp.status ≡ 200) × ((resp.error ≡ none) ⊎ (s' ≡ s))
  archive_upload_handler_quiet s s' resp body h = elim (handler_cases s s' resp body h) [
    | inl (e, f) ↦ rw e (refl, inl refl)
    | inr (ev, a) ↦ elim (answer_cases s' resp _ a) [
      | inl (e, f) ↦ rw e (refl, inl refl)
      | inr (x, e, f) ↦
          (e, inr (process_mrt_archive_error G B Z json bzip2 (config_of ev) s s' x f))
    ]
  ]

  -- A request that is answered changes neither the content nor the attributes of an object outside
  -- the destination bucket.
  pub archive_upload_handler_ne :
      (md5 : Bytes → Bytes) (L : IsLawful md5 G) (s s' : G.State) (resp : HttpResponse)
      (body : Result Bytes) (b o : Bytes)
      → archive_upload_handler body s ≡ some (returns (s', resp))
      → dst_bucket ≢ b
      → (G.read b o s' ≡ G.read b o s) × (G.attrs b o s' ≡ G.attrs b o s)
  archive_upload_handler_ne md5 L s s' resp body b o h ne = elim (handler_cases s s' resp body h) [
    | inl (e, f) ↦ rw f (refl, refl)
    | inr (ev, a) ↦ elim (answer_cases s' resp _ a) [
      | inl (e, f) ↦
          process_mrt_archive_ne G B Z json bzip2 (config_of ev) s md5 L s' _ b o f (inl ne)
      | inr (x, e, f) ↦
          process_mrt_archive_ne G B Z json bzip2 (config_of ev) s md5 L s' _ b o f (inl ne)
    ]
  ]

  -- An event that is no metadata update is answered and changes nothing.
  pub archive_upload_handler_skips :
      (s : G.State) (body : Bytes) (ev : Event)
      → unmarshal body ≡ ok ev
      → ev.event_type ≢ codes "OBJECT_METADATA_UPDATE"
      → archive_upload_handler (ok body) s ≡ some (returns (s, silent))
  unfolding archive_upload_handler is_metadata_update
  archive_upload_handler_skips s body ev parsed other =
      ground (arith, same_iff ev.event_type (codes "OBJECT_METADATA_UPDATE"))
