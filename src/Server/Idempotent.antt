-- ===== src/Server/Idempotent.antt =====
-- `FileUpload` of cmd/archive_upload_server/server.go, called twice with one request. README.md
-- asks that an upload be idempotent.
use google_cloud_storage.Base.{
  Bytes, same, same_iff, none, ◌≡◌, ◌∙◌, ◌≢◌, ◌⊎◌, inl, inr, sym, arith, Bool-cases,
}
use google_cloud_storage.Base.Result.{ok}
use google_cloud_storage.Proto.{FileRequest}
use google_cloud_storage.Storage.{Gcs, IsLawful}
use google_cloud_storage.Server.{Config}
use google_cloud_storage.Server.Upload.{
  bkt, written, reply, after, read-file_upload, read-file_upload_ne,
}

pub place_cases : (b o b' o' : Bytes) → ((b ≡ b') × (o ≡ o')) ⊎ ((b ≢ b') ⊎ (o ≢ o'))
place_cases b o b' o' = elim (Bool-cases (same b b')) [
  | inl e ↦ elim (Bool-cases (same o o')) [
    | inl f ↦ inl ((same_iff b b').0 e, (same_iff o o').0 f)
    | inr f ↦ inr (inr (λ p. ground (arith, same_iff o o')))
  ]
  | inr e ↦ inr (inl (λ p. ground (arith, same_iff b b')))
]

module _ (G : Gcs) (conf : Config) (md5 : Bytes → Bytes) (L : IsLawful md5 G)
    (req : FileRequest) where
  -- Where two calls with one request both return no error and the store took both objects, the
  -- second call changes nothing that can be read of any object: neither its content nor its
  -- checksum and metadata.
  pub file_upload_idem :
      (s : G.State)
      → (reply G conf md5 req s).error ≡ none
      → (written G conf md5 req s).closed ≡ ok tt
      → (reply G conf md5 req (after G conf md5 req s)).error ≡ none
      → (written G conf md5 req (after G conf md5 req s)).closed ≡ ok tt
      → (b o : Bytes)
      → (G.read b o (after G conf md5 req (after G conf md5 req s))
          ≡ G.read b o (after G conf md5 req s))
        × (G.attrs b o (after G conf md5 req (after G conf md5 req s))
            ≡ G.attrs b o (after G conf md5 req s))
  file_upload_idem s first took second took_again b o =
      elim (place_cases (bkt G conf md5 req s) req.filename b o) [
        | inl (e, f) ↦
            let one = read-file_upload G conf md5 req s L first took in
            let two =
              read-file_upload G conf md5 req (after G conf md5 req s) L second took_again in
            rw (← e, ← f) (two.0 ∙ sym one.0, two.1 ∙ sym one.1)
        | inr h ↦ read-file_upload_ne G conf md5 req (after G conf md5 req s) L b o h
      ]
