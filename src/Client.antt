-- ===== src/Client.antt =====
-- The checksums and requests of the upload clients: pkg/utils/upload/upload.go and
-- cmd/archive_upload_client/client.go. `md5` is crypto/md5.
use google_cloud_storage.Base.{Bytes, true, false, ◌≡◌, ◌≢◌, [], arith}
use google_cloud_storage.Base.Dict.{has}
use google_cloud_storage.Base.Result.{Result, ok, err, ◌>>=◌, within}
use google_cloud_storage.Proto.{Project, project_string, FileRequest}
use google_cloud_storage.Storage.{Gcs}
use google_cloud_storage.Strings.Hex.{hex_encode}
use google_cloud_storage.Server.{Config, is_unknown}
use google_cloud_storage.Server.Upload.{IsValid}

-- `MD5FromGCS`
unfoldable pub md5_from_gcs : (G : Gcs) → Bytes → Bytes → G.State → Result Bytes
md5_from_gcs G bucket path s = do
  a ← within "failed to get attrs for obj" (G.attrs bucket path s)
  ok (hex_encode a.md5)

module _ (md5 : Bytes → Bytes) where
  -- `MD5FromHTTP`. The arguments are what the request returned, and what reading the body did.
  unfoldable pub md5_from_http : Result (Result Bytes) → Result (Bytes × Bytes)
  md5_from_http response = do
    body ← within "failed to download %s" response
    buf ← body
    ok (hex_encode (md5 buf), buf)

  -- `makeReq`. The second argument is what opening the file returned, and what reading it did.
  unfoldable pub make_req : Bytes → Result (Result Bytes) → Project → Result FileRequest
  make_req path opened proj = do
    file ← opened
    raw ← file
    ok (record {
      filename = path;
      md5sum = hex_encode (md5 raw);
      content = raw;
      convert_sql = false;
      project = proj;
    })

  -- A request that the client makes for a named file with content, and a project that the server
  -- knows and has a bucket for, is valid to the server: its checksum is the one the server computes.
  pub make_req-IsValid :
      (G : Gcs) (conf : Config) (s : G.State) (path : Bytes) (opened : Result (Result Bytes))
      (proj : Project) (req : FileRequest)
      → make_req path opened proj ≡ ok req
      → path ≢ []
      → req.content ≢ []
      → is_unknown proj ≡ false
      → has (project_string proj) conf.buckets ≡ true
      → IsValid G conf md5 req s
  unfolding make_req
  make_req-IsValid G conf s path (err e) proj req h _ _ _ _ = cc
  make_req-IsValid G conf s path (ok (err e)) proj req h _ _ _ _ = cc
  make_req-IsValid G conf s path (ok (ok raw)) proj req h named filled known configured =
      ground arith
