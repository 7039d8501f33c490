-- ===== src/UploadCommand.antt =====
-- `main` of cmd/archive_upload_client/client.go: a file is sent to the upload server. The command
-- line, opening the file, and dialling are arguments.
use google_cloud_storage.Base.{
  Bytes, is_empty, [], ◌∷◌, false, if◌then◌else◌, ◌≡◌, ap, Bool-cases, inl, inr,
}
use google_cloud_storage.Base.Result.{errorf, wrap, Result, ok, err, within}
use google_cloud_storage.Base.Effect.{M}
use google_cloud_storage.Proto.{project_string, project_value, FileRequest, FileResponse}
use google_cloud_storage.Storage.{Gcs, IsLawful}
use google_cloud_storage.Strings.Hex.{hex_encode}
use google_cloud_storage.Client.{make_req}
use google_cloud_storage.Server.{Config, project_metadata_key}
use google_cloud_storage.Server.Upload.{bkt, written, read-file_upload}
use google_cloud_storage.Deployment.{rpc}
use google_cloud_storage.Deployment.Archiving.{rpc_ok}
use mathlib.Core.Path.{subst}

-- The flags `server`, `file`, `sa_key` and `project`.
pub record Flags : Type 0 where
  pub server : Bytes
  pub file : Bytes
  pub sa_key : Bytes
  pub project : Bytes

abbrev pub named_error : {S A : Type 0} → S × Result A → S × Result A
named_error (s, r) = (s, within "failed to upload file" r)

module _ {Conn S : Type 0} (md5 : Bytes → Bytes) (new_conn : Bytes → Bytes → Result Conn)
    (upload : Conn → FileRequest → M S FileResponse) (fl : Flags)
    (opened : Result (Result Bytes)) where
  unfoldable pub send_stage : Conn → Result FileRequest → M S FileResponse
  send_stage conn (err e) s = (s, err (wrap "fail to makeReq" e))
  send_stage conn (ok req) s = named_error (upload conn req s)

  unfoldable pub conn_stage : Result Conn → M S FileResponse
  unfolding send_stage
  conn_stage (err e) s = (s, err (wrap "fail to dial" e))
  conn_stage (ok conn) s =
      send_stage conn (make_req md5 fl.file opened (project_value fl.project)) s

  -- Each error ends the process; a response is reported.
  unfoldable pub upload_main : M S FileResponse
  unfolding conn_stage
  upload_main s =
      if is_empty fl.file
      then (s, err (errorf "a filename to transfer is required for operation"))
      else conn_stage (new_conn fl.server fl.sa_key) s

module _ {Conn : Type 0} (G : Gcs) (conf : Config) (md5 : Bytes → Bytes) (L : IsLawful md5 G)
    (new_conn : Bytes → Bytes → Result Conn) (fl : Flags) (raw : Bytes) where
  -- The request for the file.
  abbrev pub request : FileRequest
  request = record {
    filename = fl.file;
    md5sum = hex_encode (md5 raw);
    content = raw;
    convert_sql = false;
    project = project_value fl.project;
  }

  abbrev pub deployed : M G.State FileResponse
  deployed = upload_main md5 new_conn (λ c. rpc G conf md5) fl (ok (ok raw))

  named_ok :
      (x : G.State × Result FileResponse) (t : G.State) (resp : FileResponse)
      → named_error x ≡ (t, ok resp)
      → x ≡ (t, ok resp)
  named_ok (s, ok r) t resp h = h
  named_ok (s, err e) t resp h = (let h' = ap (λ p. p.1) h in absurd (cc))

  -- What the store holds for the file.
  abbrev pub Holds : Bytes → G.State → Type 0
  Holds bucket t =
      (G.read bucket fl.file t ≡ ok raw)
      × (G.attrs bucket fl.file t
          ≡ ok (record {
            md5 = md5 raw;
            metadata = (project_metadata_key, project_string (project_value fl.project)) ∷ [];
          }))

  -- When the command, against the upload server, ends well for a file, and the store took the object
  -- on closing, then the object named like the file, in the bucket of the project, holds the file's
  -- content, its checksum, and the project as its only metadata.
  pub upload_main-reads :
      (s t : G.State) (resp : FileResponse)
      → deployed s ≡ (t, ok resp)
      → (written G conf md5 request s).closed ≡ ok tt
      → Holds (bkt G conf md5 request s) t
  unfolding upload_main make_req
  upload_main-reads s t resp h closed = elim (Bool-cases (is_empty fl.file)) [
    | inl e ↦ (let h' = ap (λ p. p.1) (rw e at h) in absurd (cc))
    | inr e ↦ go (new_conn fl.server fl.sa_key) (rw e at h)
  ]
    where
      go :
          (c : Result Conn)
          → conn_stage md5 new_conn (λ c. rpc G conf md5) fl (ok (ok raw)) c s ≡ (t, ok resp)
          → Holds (bkt G conf md5 request s) t
      go (err x) k = (let k' = ap (λ p. p.1) k in absurd (cc))
      go (ok c) k =
          let (accepted, after) = rpc_ok G conf md5 request s t resp (named_ok _ t resp k) in
          subst (Holds (bkt G conf md5 request s)) after
            (read-file_upload G conf md5 request s L accepted closed)
