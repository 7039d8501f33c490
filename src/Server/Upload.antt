-- ===== src/Server/Upload.antt =====
-- What `FileUpload` of cmd/archive_upload_server/server.go accepts, stores and leaves alone.
use google_cloud_storage.Base.{
  Bytes, same, same_iff, is_empty_iff, true, false, none, some, [], ◌∷◌, ◌≡◌, ◌∙◌, ◌≢◌, ◌↔◌, ◌⊎◌,
  inl, inr, refl, arith,
}
use google_cloud_storage.Base.Dict.{has, insert}
use google_cloud_storage.Base.Result.{Error, Result, ok, err}
use google_cloud_storage.Proto.{project_string, FileRequest, Status}
use google_cloud_storage.Storage.{Written, Gcs, IsLawful}
use google_cloud_storage.Strings.Hex.{hex_encode}
use google_cloud_storage.Server.{
  Config, Reply, bucket_of, base_unmet, is_unknown, handle_data_file, file_upload,
  project_metadata_key,
}

module _ (G : Gcs) (conf : Config) (md5 : Bytes → Bytes) (req : FileRequest) (s : G.State) where
  abbrev pub bkt : Bytes
  bkt = bucket_of conf req

  -- What the upload writes.
  abbrev pub written : Written G.State
  written = G.write bkt req.filename req.content s

  -- What setting the project then returns.
  abbrev pub marked : G.State × Result (Unit {0})
  marked =
      G.set_metadata bkt req.filename project_metadata_key (project_string req.project)
        written.store

  -- A request that names a file, a project and content, with the content's checksum, for a project
  -- that has a bucket.
  pub record IsValid : Type 0 where
    pub named : req.filename ≢ []
    pub filled : req.content ≢ []
    pub known : is_unknown req.project ≡ false
    pub checked : hex_encode (md5 req.content) ≡ req.md5sum
    pub configured : has (project_string req.project) conf.buckets ≡ true

  abbrev pub reply : Reply
  reply = (file_upload G conf md5 req s).1

  abbrev pub after : G.State
  after = (file_upload G conf md5 req s).0

  valid_of_tests :
      base_unmet req ≡ false
      → same (hex_encode (md5 req.content)) req.md5sum ≡ true
      → has (project_string req.project) conf.buckets ≡ true
      → IsValid
  unfolding base_unmet
  valid_of_tests a b c = ground (
    arith,
    is_empty_iff req.filename,
    is_empty_iff req.content,
    same_iff (hex_encode (md5 req.content)) req.md5sum,
  )

  tests_of_valid :
      IsValid → (base_unmet req ≡ false) × (same (hex_encode (md5 req.content)) req.md5sum ≡ true)
  unfolding base_unmet
  tests_of_valid v = ground (
    arith,
    is_empty_iff req.filename,
    is_empty_iff req.content,
    same_iff (hex_encode (md5 req.content)) req.md5sum,
  )

  refuted :
      ¬ IsValid
      → base_unmet req ≡ false
      → same (hex_encode (md5 req.content)) req.md5sum ≡ true
      → has (project_string req.project) conf.buckets ≡ true
      → ⊥
  refuted h a b c = h (valid_of_tests a b c)

  passed :
      reply.error ≡ none
      → (base_unmet req ≡ false)
        × (same (hex_encode (md5 req.content)) req.md5sum ≡ true)
        × (has (project_string req.project) conf.buckets ≡ true)
        × (written.copied ≡ ok tt)
        × (marked.1 ≡ ok tt)
  unfolding file_upload handle_data_file
  passed h = ground arith

  -- A call returns no error exactly when the request is valid, its content was copied to the
  -- store, and the project was set as metadata.
  pub file_upload-error_none_iff :
      (reply.error ≡ none) ↔ (IsValid × (written.copied ≡ ok tt) × (marked.1 ≡ ok tt))
  unfolding file_upload handle_data_file
  file_upload-error_none_iff = (
    λ h. let (a, b, c, d, e) = passed h in (valid_of_tests a b c, d, e),
    λ (v, copied, set). ground (arith, tests_of_valid v, v.configured),
  )

  -- A response says SUCCESS exactly when no error is returned.
  pub file_upload-success_iff :
      (reply.response ≡ some (record { status = Status.success; error_message = [] }))
      ↔ (reply.error ≡ none)
  unfolding file_upload handle_data_file
  file_upload-success_iff = ground arith

  -- A request that is not valid gets an error, and the store is left as it was.
  pub file_upload_invalid : ¬ IsValid → (after ≡ s) × (reply.error ≢ none)
  unfolding file_upload handle_data_file
  file_upload_invalid h = ground (arith, refuted h)

  pub after_of_valid : IsValid → written.copied ≡ ok tt → after ≡ marked.0
  unfolding file_upload handle_data_file
  after_of_valid v copied = ground (arith, tests_of_valid v, v.configured)

  pub after_cases : (after ≡ s) ⊎ (after ≡ written.store) ⊎ (after ≡ marked.0)
  unfolding file_upload handle_data_file
  after_cases = ground arith

  module _ (L : IsLawful md5 G) where
    -- After a call without error whose object the store took on closing, the object holds the
    -- content, its checksum, and the project as its only metadata.
    pub read-file_upload :
        reply.error ≡ none
        → written.closed ≡ ok tt
        → (G.read bkt req.filename after ≡ ok req.content)
          × (G.attrs bkt req.filename after
              ≡ ok (record {
                md5 = md5 req.content;
                metadata = (project_metadata_key, project_string req.project) ∷ [];
              }))
    unfolding insert
    read-file_upload h closed =
        let (v, copied, set) = file_upload-error_none_iff.0 h in
        let key = project_metadata_key in
        let proj = project_string req.project in
        (
          rw (after_of_valid v copied) (
              L.read-set_metadata bkt req.filename key proj bkt req.filename written.store
              ∙ L.read-write bkt req.filename req.content s copied closed),
          rw (after_of_valid v copied) (
              L.attrs-set_metadata bkt req.filename key proj written.store _
                (L.attrs-write bkt req.filename req.content s copied closed) set),
        )

    kept_by_write :
        (b o : Bytes)
        → (bkt ≢ b) ⊎ (req.filename ≢ o)
        → (G.read b o written.store ≡ G.read b o s) × (G.attrs b o written.store ≡ G.attrs b o s)
    kept_by_write b o h = (L.read-write_ne _ _ _ b o s h, L.attrs-write_ne _ _ _ b o s h)

    kept_by_both :
        (b o : Bytes)
        → (bkt ≢ b) ⊎ (req.filename ≢ o)
        → (G.read b o marked.0 ≡ G.read b o s) × (G.attrs b o marked.0 ≡ G.attrs b o s)
    kept_by_both b o h = (
      L.read-set_metadata _ _ _ _ b o written.store ∙ (kept_by_write b o h).0,
      L.attrs-set_metadata_ne _ _ _ _ b o written.store h ∙ (kept_by_write b o h).1,
    )

    -- A call leaves the content and the attributes of every other object alone.
    pub read-file_upload_ne :
        (b o : Bytes)
        → (bkt ≢ b) ⊎ (req.filename ≢ o)
        → (G.read b o after ≡ G.read b o s) × (G.attrs b o after ≡ G.attrs b o s)
    read-file_upload_ne b o h = elim after_cases [
      | inl e ↦ rw e (refl, refl)
      | inr (inl e) ↦ rw e (kept_by_write b o h)
      | inr (inr e) ↦ rw e (kept_by_both b o h)
    ]

    -- What closing the writer returns is dropped: where the store refuses the new content of an
    -- object that exists, and still takes the metadata, the call reports SUCCESS with no error and
    -- the old content stays.
    pub file_upload_lost :
        (e : Error)
        → IsValid
        → written.copied ≡ ok tt
        → written.closed ≡ err e
        → marked.1 ≡ ok tt
        → (reply.response ≡ some (record { status = Status.success; error_message = [] }))
          × (reply.error ≡ none)
          × (G.read bkt req.filename after ≡ G.read bkt req.filename s)
    file_upload_lost e v copied refused set =
        let accepted = file_upload-error_none_iff.1 (v, copied, set) in
        (
          file_upload-success_iff.1 accepted,
          accepted,
          rw (after_of_valid v copied) (
              L.read-set_metadata bkt req.filename _ _ bkt req.filename written.store
              ∙ L.read-write_refused bkt req.filename req.content s e refused),
        )
