-- ===== src/ConverterServer/Command.antt =====
-- `main` of cmd/converter/main.go: the conversion server is started.
use google_cloud_storage.Base.{
  Bytes, codes, is_empty, is_empty_iff, true, if◌then◌else◌, [], ◌++◌, ◌≡◌, ◌≢◌, ◌↔◌, refl, arith,
}
use google_cloud_storage.Base.Result.{Result, ok, err, within, ◌>>=◌}
use google_cloud_storage.ConverterServer.{new_server}

-- The address that `main` listens on, by the variable PORT.
unfoldable pub address_of : Bytes → Bytes
address_of port = codes ":" ++ (if is_empty port then codes "8080" else port)

-- A server that serves: its address, and the bucket that it converts into.
pub record Serving : Type 0 where
  pub address : Bytes
  pub dst_bucket : Bytes

module _ (listen : Bytes → Result (Unit {0})) (client : Result (Unit {0})) where
  -- `main`, with the variables PORT and BIGQUERY_BUCKET. Every error ends the process.
  unfoldable pub start : Bytes → Bytes → Result Serving
  unfolding new_server
  start port bucket = do
    _ ← within "storage.NewClient: %v" client
    dst ← new_server true bucket
    _ ← listen (address_of port)
    ok (record { address = address_of port; dst_bucket = dst })

  -- The server serves exactly when there is a storage client, the variable names a bucket, and the
  -- address can be listened on.
  pub listens_iff :
      (port bucket : Bytes)
      → (start port bucket ≡ ok (record { address = address_of port; dst_bucket = bucket }))
        ↔ ((client ≡ ok tt) × (bucket ≢ []) × (listen (address_of port) ≡ ok tt))
  unfolding start
  listens_iff port bucket = go client refl (listen (address_of port)) refl
    where
      go :
          (x : Result (Unit {0}))
          → client ≡ x
          → (y : Result (Unit {0})) → listen (address_of port) ≡ y
          → (start port bucket ≡ ok (record { address = address_of port; dst_bucket = bucket }))
            ↔ ((client ≡ ok tt) × (bucket ≢ []) × (listen (address_of port) ≡ ok tt))
      go (err e) p y q =
          (λ h. (let h' = rw (p, start) at h in absurd (cc)), λ (a, b, c). absurd (cc))
      go (ok u) p (err e) q = ground (arith, is_empty_iff bucket)
      go (ok u) p (ok v) q = ground (arith, is_empty_iff bucket)
