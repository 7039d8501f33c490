-- ===== src/TransferCommand/Command.antt =====
-- `main` of cmd/utils/transfer_all/main.go: the transfer service is started. The clients and the
-- listener are arguments.
use google_cloud_storage.Base.{Bytes, codes, is_empty, ◌++◌, if◌then◌else◌, ◌≡◌, ◌↔◌, arith}
use google_cloud_storage.Base.Result.{Result, ok, ◌>>=◌}
use google_cloud_storage.BqTransfer.{TransferParams}

-- The defaults of the flags.
abbrev pub default_params : TransferParams
default_params = record {
  project = codes "public-routing-data-backup";
  location = codes "US";
  dataset = codes "historical_routing_data";
  table = codes "updates";
  bucket = codes "routeviews-bigquery";
}

-- The address that `main` listens on, by the variable PORT.
unfoldable pub address_of : Bytes → Bytes
address_of port = codes ":" ++ (if is_empty port then codes "8080" else port)

-- `main`, up to where it serves, with the parameters that its flags give. Every error ends the process.
unfoldable pub start :
    Result (Unit {0})
    → Result (Unit {0})
    → (Bytes → Result (Unit {0}))
    → Bytes
    → TransferParams
    → Result (Bytes × TransferParams)
unfolding address_of
start storage transfer listen port params = do
  _ ← storage
  _ ← transfer
  _ ← listen (address_of port)
  ok (address_of port, params)

-- The service starts exactly when there are both clients and its address can be listened on.
pub starts_iff :
    (storage transfer : Result (Unit {0})) (listen : Bytes → Result (Unit {0})) (port : Bytes)
    (params : TransferParams)
    → (start storage transfer listen port params ≡ ok (address_of port, params))
      ↔ ((storage ≡ ok tt) × (transfer ≡ ok tt) × (listen (address_of port) ≡ ok tt))
unfolding start
starts_iff storage transfer listen port params = ground arith
