-- ===== src/Server.antt =====
-- cmd/archive_upload_server/server.go: the gRPC server that files uploads into the archive
-- buckets. `md5` is crypto/md5, and the store is the interface of Storage.
pub mod Upload
pub mod Idempotent
pub mod Command
pub mod Order
use google_cloud_storage.Base.{
  Bytes, codes, same, is_empty, Bool, true, false, ◌||◌, not, Option, none, some, [], ◌∷◌, ◌≡◌,
  refl, if◌then◌else◌,
}
use google_cloud_storage.Base.Dict.{Dict, lookup, has}
use google_cloud_storage.Base.Result.{Error, errorf, wrap, Result, ok, err, within}
use google_cloud_storage.Base.Effect.{M, ◌>>◌}
use google_cloud_storage.Proto
use google_cloud_storage.Proto.{
  Project, project_string, project_value, FileRequest, FileResponse, Status, empty_response,
}
use google_cloud_storage.Storage.{Gcs}
use google_cloud_storage.Strings.Hex.{hex_encode}

-- `converter.ProjectMetadataKey`
abbrev pub project_metadata_key : Bytes
project_metadata_key = codes "routingDataProject"

pub record Config : Type 0 where
  pub buckets : Dict Bytes

-- What a call returns: a response, which may be nil, and an error.
pub record Reply : Type 0 where
  pub response : Option FileResponse
  pub error : Option Error

-- `p == pb.FileRequest_UNKNOWN`
unfoldable pub is_unknown : Project → Bool
is_unknown Project.unknown = true
is_unknown _ = false

-- `r.conf.Buckets[key]`: a missing key reads as "".
abbrev pub value_or_empty : Option Bytes → Bytes
value_or_empty none = []
value_or_empty (some b) = b

unfoldable pub bucket_of : Config → FileRequest → Bytes
bucket_of conf req = value_or_empty (lookup (project_string req.project) conf.buckets)

-- The three conditions that `FileUpload` tests first.
unfoldable pub base_unmet : FileRequest → Bool
base_unmet req = is_empty req.content || is_unknown req.project || is_empty req.filename

-- The response of `handleDataFile` after its two calls to the store.
abbrev pub finish : {S : Type 0} → FileResponse → S × Result (Unit {0}) → S × Reply
finish resp (s, ok _) =
    (s, record { response = some (record resp { status = Status.success }); error = none })
finish resp (s, err e) =
    (s, record { response = some (record resp { status = Status.fail }); error = some e })

module _ (G : Gcs) where
  unfoldable pub set_project_meta : Bytes → Bytes → Project → M G.State (Unit {0})
  set_project_meta bkt obj proj s =
      let (s', r) = G.set_metadata bkt obj project_metadata_key (project_string proj) s in
      (s', within "failed to set metadata" r)

  -- `defer wc.Close()` drops what closing the writer returns.
  unfoldable pub file_store : Bytes → Bytes → Bytes → M G.State (Unit {0})
  file_store bkt fn b s =
      let w = G.write bkt fn b s in
      (w.store, within "failed copying content to destination" w.copied)

  -- The loop of `newRVServer` over the configured buckets.
  unfoldable pub check_buckets : Dict Bytes → G.State → Result (Unit {0})
  check_buckets [] s = ok tt
  check_buckets ((proj, bkt) ∷ rest) s =
      if is_unknown (project_value proj)
      then err (errorf "bad project")
      else elim (G.bucket_attrs bkt s) [
        | ok _ ↦ check_buckets rest s
        | err e ↦ err (wrap "bad bucket" e)
      ]

  -- The argument is what `readConfigFile` returns.
  unfoldable pub new_rv_server : Result Config → G.State → Result Config
  new_rv_server (err e) s = err e
  new_rv_server (ok c) s = elim (check_buckets c.buckets s) [ ok _ ↦ ok c | err e ↦ err e ]

  module _ (conf : Config) where
    unfoldable pub handle_data_file : FileRequest → FileResponse → G.State → G.State × Reply
    unfolding file_store set_project_meta
    handle_data_file req resp s =
        if has (project_string req.project) conf.buckets
        then finish resp (
            (file_store (bucket_of conf req) req.filename req.content
                >> set_project_meta (bucket_of conf req) req.filename req.project)
              s)
        else (
          s,
          record {
            response = some (record resp { status = Status.fail });
            error = some (errorf "%s is not supported");
          },
        )

    module _ (md5 : Bytes → Bytes) where
      unfoldable pub file_upload : FileRequest → G.State → G.State × Reply
      file_upload req s =
          if base_unmet req
          then (
            s,
            record {
              response = none;
              error = some (errorf "base requirements for FileRequest unmet");
            },
          )
          else if not (same (hex_encode (md5 req.content)) req.md5sum)
          then (s, record { response = none; error = some (errorf "checksum failure") })
          else handle_data_file req empty_response s
