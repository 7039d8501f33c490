-- ===== src/Deployment/Complete.antt =====
-- The synchronizer together with the upload server: each upload of pkg/synchronizer/synchronizer.go
-- is a call of `FileUpload` of cmd/archive_upload_server/server.go, on the same store.
use google_cloud_storage.Base.{
  ℕ, Bytes, List, [], ◌++◌, Bool, true, false, none, some, Bool-cases, inl, inr, All, ◌≡◌, ◌≢◌,
  refl, sym,
}
use google_cloud_storage.Base.Dict.{Dict, has, lookup, has-lookup}
use google_cloud_storage.Base.Result.{Result, ok}
use google_cloud_storage.Backoff.{Backoff}
use google_cloud_storage.Proto.{Project, project_string, FileRequest, FileResponse, Status}
use google_cloud_storage.Storage.{Gcs, IsLawful}
use google_cloud_storage.Strings.Hex.{hex_encode}
use google_cloud_storage.Client.{md5_from_gcs, md5_from_http}
use google_cloud_storage.Server.{
  Config, Reply, is_unknown, bucket_of, file_upload, project_metadata_key,
}
use google_cloud_storage.Server.Upload.{
  IsValid, reply, after, file_upload-error_none_iff, file_upload-success_iff,
}
use google_cloud_storage.Synchronizer.Upload.{
  Synchronizer, upload_from_ftp, request_of, is_archived,
}
use google_cloud_storage.Synchronizer.Schedule.{Running, started, pending, Schedule}
use google_cloud_storage.Synchronizer.Schedule.Complete.{Complete, Schedule-Complete}
use google_cloud_storage.Deployment.{delivered, rpc}
use google_cloud_storage.Deployment.Archiving.{HasSums, rpc-IsArchiving}
use mathlib.Core.Path.{subst}

abbrev success : FileResponse
success = record { status = Status.success; error_message = [] }

-- Every archive can be downloaded and has content, and the store takes what is written to the
-- bucket.
pub record Serves (G : Gcs) (get : Bytes → Result (Result Bytes)) (sr : Synchronizer) : Type 0 where
  pub gets :
      (f : Bytes) → f ≢ [] → (c : Bytes) × (get (sr.http_url_root ++ f) ≡ ok (ok c)) × (c ≢ [])
  pub takes : (o c : Bytes) (s : G.State) → (G.write sr.bucket o c s).copied ≡ ok tt
  pub marks :
      (o c : Bytes) (s : G.State)
      → (G.set_metadata sr.bucket o project_metadata_key
          (project_string Project.routeviews)
          (G.write sr.bucket o c s).store).1
        ≡ ok tt

module _ (G : Gcs) (H : HasSums G) (conf : Config) (md5 : Bytes → Bytes) (L : IsLawful md5 G)
    (get : Bytes → Result (Result Bytes)) (sr : Synchronizer)
    (own : lookup (project_string Project.routeviews) conf.buckets ≡ some sr.bucket)
    (V : Serves G get sr) (backoff : Backoff G.State Bool) where
  -- What the synchronizer sends for a file.
  abbrev sent : Bytes → Bytes → FileRequest
  sent f c = request_of G md5 (rpc G conf md5) get sr f (hex_encode (md5 c), c)

  has_own : has (project_string Project.routeviews) conf.buckets ≡ true
  has_own = has-lookup (project_string Project.routeviews) conf.buckets sr.bucket own

  sent-IsValid : (f c : Bytes) (s : G.State) → f ≢ [] → c ≢ [] → IsValid G conf md5 (sent f c) s
  unfolding is_unknown
  sent-IsValid f c s named filled = record {
    named = named;
    filled = filled;
    known = refl;
    checked = refl;
    configured = has_own;
  }

  sent_bucket : (f c : Bytes) → bucket_of conf (sent f c) ≡ sr.bucket
  unfolding bucket_of
  sent_bucket f c = rw own refl

  sent-accepted :
      (f c : Bytes) (s : G.State) → f ≢ [] → c ≢ [] → (reply G conf md5 (sent f c) s).error ≡ none
  sent-accepted f c s named filled = (file_upload-error_none_iff G conf md5 (sent f c) s).1 (
    sent-IsValid f c s named filled,
    subst (λ b. (G.write b f c s).copied ≡ ok tt) (sym (sent_bucket f c)) (V.takes f c s),
    subst
        (λ b.
          (G.set_metadata b f project_metadata_key (project_string Project.routeviews)
            (G.write b f c s).store).1
          ≡ ok tt)
        (sym (sent_bucket f c)) (V.marks f c s),
  )

  delivered_ok :
      (x : G.State × Reply)
      → x.1.error ≡ none
      → x.1.response ≡ some success
      → delivered x ≡ (x.0, ok success)
  delivered_ok (s, r) e h = rw (e, h) refl

  sends :
      (f : Bytes) (s : G.State)
      → f ≢ []
      → (t : G.State) × (b : Bool) × (upload_from_ftp G md5 (rpc G conf md5) get sr f s ≡ (t, ok b))
  unfolding upload_from_ftp md5_from_http rpc
  sends f s named = elim (Bool-cases (is_archived (md5_from_gcs G sr.bucket f s))) [
    | inl e ↦ rw e (s, true, refl)
    | inr e ↦
        let (c, got, filled) = V.gets f named in
        let a = sent-accepted f c s named filled in
        rw
          (
            e,
            got,
            delivered_ok (file_upload G conf md5 (sent f c) s) a
                ((file_upload-success_iff G conf md5 (sent f c) s).1 a),
          )
          (after G conf md5 (sent f c) s, false, refl)
  ]

  -- The synchronizer with the upload server, where the store keeps the rules of its interface, has
  -- a checksum for every object and takes what is written to the bucket, every archive can be
  -- downloaded and has content, and the server's bucket for RouteViews is the synchronizer's: a
  -- synchronization of named files that has come to its end, in any order of its goroutines, has
  -- left every file that it listed in the bucket, as an object with a checksum.
  pub deployed-Complete :
      (dir : Dict (List Bytes)) (s : G.State) (e : Running G.State) (n : ℕ)
      → All (λ p. All (λ f. f ≢ []) p.1) dir
      → Schedule G md5
          (rpc G conf md5)
          get
          sr
          backoff
          e
          (record { tasks = started dir; store = s })
          n
      → pending e.tasks ≡ 0
      → Complete G sr.bucket e.store dir
  deployed-Complete =
      Schedule-Complete G md5 (rpc G conf md5) get sr backoff (λ f. f ≢ [])
        (record { sends = sends }) (rpc-IsArchiving G H conf md5 L sr.bucket own)
