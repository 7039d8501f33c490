-- ===== src/PubsubForwarder/Command.antt =====
-- `main` of cmd/pubsub_forwarder/main.go: the forwarder is started. The task client and the listener
-- are arguments.
use google_cloud_storage.Base.{Bytes, codes, is_empty, [], ◌++◌, if◌then◌else◌, ◌≡◌, ◌≢◌, refl}
use google_cloud_storage.Base.Result.{Result, ok, within, ◌>>=◌}
use google_cloud_storage.PubsubForwarder.{Forwarder, configured, configured-any_queue}

-- The address that `main` listens on, by the variable PORT.
unfoldable pub address_of : Bytes → Bytes
address_of port = codes ":" ++ (if is_empty port then codes "8080" else port)

module _ (client : Result (Unit {0})) (listen : Bytes → Result (Unit {0})) where
  -- `main`, by the variables PORT, PROJECT, CLOUD_TASK_LOCATION and CLOUD_TASK_QUEUE. Every error
  -- ends the process.
  unfoldable pub start : Bytes → Bytes → Bytes → Bytes → Result (Bytes × Forwarder)
  unfolding address_of configured
  start port project loc queue = do
    srvr ← configured project loc queue
    _ ← within "cloudtasks.NewClient: %v" client
    _ ← listen (address_of port)
    ok (address_of port, srvr)

  -- With a project and a location the service starts, whatever the queue is, even with none.
  pub start-any_queue :
      (port project loc queue : Bytes)
      → project ≢ []
      → loc ≢ []
      → client ≡ ok tt
      → listen (address_of port) ≡ ok tt
      → start port project loc queue
        ≡ ok (address_of port, record { loc = loc; queue = queue; project = project })
  unfolding start
  start-any_queue port project loc queue p l c h =
      rw (configured-any_queue project loc queue p l, c, h) refl
