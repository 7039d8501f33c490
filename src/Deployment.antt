-- ===== src/Deployment.antt =====
-- The upload server of cmd/archive_upload_server/server.go as its clients call it, by gRPC.
pub mod Archiving
pub mod Complete
pub mod Service
use google_cloud_storage.Base.{Bytes, Option, none, some}
use google_cloud_storage.Base.Result.{Error, errorf, Result, ok, err}
use google_cloud_storage.Base.Effect.{M}
use google_cloud_storage.Proto.{FileRequest, FileResponse}
use google_cloud_storage.Storage.{Gcs}
use google_cloud_storage.Server.{Config, Reply, file_upload}

-- What a client receives: the error, where the server returns one.
abbrev pub received : Option FileResponse → Option Error → Result FileResponse
received none (some e) = err e
received (some resp) (some e) = err e
received (some resp) none = ok resp
received none none = err (errorf "grpc: nil response")

abbrev pub delivered : {S : Type 0} → S × Reply → S × Result FileResponse
delivered (s, r) = (s, received r.response r.error)

unfoldable pub rpc : (G : Gcs) → Config → (Bytes → Bytes) → FileRequest → M G.State FileResponse
rpc G conf md5 req s = delivered (file_upload G conf md5 req s)
