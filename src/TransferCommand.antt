-- ===== src/TransferCommand.antt =====
-- cmd/utils/transfer_all/main.go: the service that makes the transfers of pkg/bq_transfer when it is
-- called. The flags and the clients are arguments.
pub mod Command
use google_cloud_storage.Base.{ℕ, Bytes, List, Option, none, some, Bool}
use google_cloud_storage.Base.Result.{Result, ok, err}
use google_cloud_storage.Backoff.{Backoff}
use google_cloud_storage.BqTransfer.{TransferParams, TransferService, fetch_month_dirs, transfer}

-- The status of the answer: 200 where none is set.
abbrev pub answered : {S : Type 0} → S × Result (Unit {0}) → S × ℕ
answered (s, ok u) = (s, 200)
answered (s, err e) = (s, 500)

module _ (D : TransferService) (backoff : Backoff D.State Bytes) (cfg : TransferParams)
    (is_month : Bytes → Bool) (list : Bytes → Result (List Bytes)) where
  -- The handler of `/`, which is `Transfer` on the directories that are found; `none` when the bound
  -- on the listings runs out.
  abbrev pub with_dirs : D.State → Option (Result (List Bytes)) → Option (D.State × ℕ)
  with_dirs s none = none
  with_dirs s (some dirs) = some (answered (transfer D backoff cfg dirs s))

  unfoldable pub serve : ℕ → D.State → Option (D.State × ℕ)
  serve n s = with_dirs s (fetch_month_dirs is_month list n)
