-- ===== src/Server/Command.antt =====
-- `readConfigFile` and `main` of cmd/archive_upload_server/server.go: the upload server is started.
-- The file system, the YAML decoder, the listener and the storage client are arguments.
pub mod Laws
use google_cloud_storage.Base.{
  ℕ, ◌*◌, Bytes, codes, is_empty, same, same_iff, Bool, true, false, if◌then◌else◌, none, [], ◌∷◌,
  ◌++◌, All, ◌≡◌, ◌↔◌, refl, Bool-cases, inl, inr, String, ap, sym, ◌∙◌,
}
use google_cloud_storage.Base.Dict.{Dict, lookup, has}
use google_cloud_storage.Base.Result.{Result, ok, err, within, ◌>>=◌}
use google_cloud_storage.Proto.{project_string, project_value, FileRequest}
use google_cloud_storage.Storage.{Gcs}
use google_cloud_storage.Server.{
  Config, is_unknown, value_or_empty, bucket_of, check_buckets, new_rv_server,
}
use google_cloud_storage.Server.Upload.{reply, file_upload-error_none_iff}

-- `maxMsgSize`
abbrev pub max_msg_size : ℕ
max_msg_size = 512 * 1024 * 1024

-- What is read of a configuration file: `os.Open`, `ioutil.ReadAll` and `yaml.Unmarshal`.
pub record Files : Type 1 where
  pub File : Type 0
  pub open_file : Bytes → Result File
  pub read_all : File → Result Bytes
  pub unmarshal : Bytes → Result Config

-- `readConfigFile`
unfoldable pub read_config_file : Files → Bytes → Result Config
read_config_file F path = do
  f ← within "os.Open" (F.open_file path)
  bkt_conf ← within "ioutil.ReadAll" (F.read_all f)
  within "yaml" (F.unmarshal bkt_conf)

-- The address that `main` listens on, by the variable PORT.
unfoldable pub address_of : Bytes → Bytes
address_of port = codes ":" ++ (if is_empty port then codes "9876" else port)

-- A server that serves: its address, its configuration, and the size of the largest message that
-- it receives, and that it sends.
pub record Serving : Type 0 where
  pub address : Bytes
  pub conf : Config
  pub max_recv : ℕ
  pub max_send : ℕ

abbrev pub serving : Bytes → Config → Serving
serving port conf = record {
  address = address_of port;
  conf = conf;
  max_recv = max_msg_size;
  max_send = max_msg_size;
}

module _ (F : Files) (G : Gcs) (listen : Bytes → Result (Unit {0}))
    (client : Result (Unit {0})) where
  -- `main`, up to `Serve`. Every error ends the process.
  unfoldable pub start : Bytes → Bytes → G.State → Result Serving
  unfolding read_config_file address_of
  start port config_file s = do
    _ ← within "failed to listen(): %v" (listen (address_of port))
    _ ← within "failed to create storage client: %v" client
    conf ←
        within "failed to create new rvServer: %v"
          (new_rv_server G (read_config_file F config_file) s)
    ok (serving port conf)
