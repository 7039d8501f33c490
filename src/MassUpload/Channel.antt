-- ===== src/MassUpload/Channel.antt =====
-- The goroutines of cmd/archive_upload_mass_upload/mass_upload.go: the walk that fills the channel,
-- and the workers that empty it. A worker's turn is one round of the loop of `readChannel`.
pub mod Counts
pub mod Waits
pub mod Report
use google_cloud_storage.Base.{
  ℕ, zero, suc, ◌+◌, ◌<◌, Bytes, List, [], ◌∷◌, ◌++◌, Option, none, some, Bool, true, false,
  if◌then◌else◌, length, ◌≡◌,
}
use google_cloud_storage.Base.Result.{Error, Result, ok, err}
use google_cloud_storage.Base.Effect.{M}
use google_cloud_storage.Proto.{FileRequest, FileResponse}
use google_cloud_storage.Storage.{Gcs}
use google_cloud_storage.MassUpload.{
  EvalFile, WalkEntry, Work, Exit, closed, gave_up, fatal, Position, evaluate, ftp_walk,
}

-- The buffer size of the channel.
abbrev pub max_walk : ℕ
max_walk = 5000

-- `ftpWalk`: it goes through the tree, and returns with the channel closed or open.
pub data Walk : Type 0 where
  walking : Walk
  returned : Bool → Walk

-- `if w.Err() != nil { close(c.ch) }`, by whether there is an error.
unfoldable pub end_of_walk : Option Error → Walk
end_of_walk (some e) = returned true
end_of_walk none = returned false

-- A worker, with the counters it started from, and its end when it has come.
pub record Worker : Type 0 where
  pub work : Work
  pub exit : Option Exit

pub record Process (S : Type 0) : Type 0 where
  -- The files that the walk has yet to send.
  pub unsent : List EvalFile
  pub walk : Walk
  pub queue : List EvalFile
  pub workers : List Worker
  pub store : S
  -- `glog.Fatalf` ends the process.
  pub ended : Bool

abbrev pub no_work : Work
no_work = record { ftp_errs = 0; grpc_errs = 0; synced = 0; skipped = 0; errors = 0 }

-- The workers that `main` starts, by how each of them gets a connection to the FTP site and logs
-- in: one that does not returns at once, before its loop.
unfoldable pub started : List (Result (Unit {0})) → List Worker
started [] = []
started (ok u ∷ logins) = record { work = no_work; exit = none } ∷ started logins
started (err e ∷ logins) = started logins

unfoldable pub launched : {S : Type 0} → List (Result (Unit {0})) → List WalkEntry → S → Process S
unfolding started
launched logins entries s = record {
  unsent = ftp_walk entries;
  walk = walking;
  queue = [];
  workers = started logins;
  store = s;
  ended = false;
}

abbrev pub is_fatal : Option Exit → Bool
is_fatal none = false
is_fatal (some closed) = false
is_fatal (some gave_up) = false
is_fatal (some fatal) = true

abbrev pub worker_at : {S : Type 0} → Position S → Worker
worker_at p = record { work = p.work; exit = p.exit }

module _ (G : Gcs) (md5 : Bytes → Bytes) (bucket : Bytes)
    (upload : FileRequest → M G.State FileResponse) (retr : Bytes → Result (Bytes × Option Error))
    (walk_err : Option Error) where
  pub data Step (c d : Process G.State) : Type 0 where
    -- `c.ch <- ...`, which waits while the buffer is full.
    sends :
        (ef : EvalFile) (rest : List EvalFile)
        → c.ended ≡ false
        → c.unsent ≡ ef ∷ rest
        → length c.queue < max_walk
        → d ≡ record c { unsent = rest; queue = c.queue ++ (ef ∷ []) }
        → Step c d
    -- `w.Next()` returns false.
    returns :
        c.ended ≡ false
        → c.unsent ≡ []
        → c.walk ≡ walking
        → d ≡ record c { walk = end_of_walk walk_err }
        → Step c d
    -- `ef, ok := <-c.ch`, with a file, and the rest of the round.
    receives :
        (ef : EvalFile) (rest : List EvalFile) (before after : List Worker) (w : Work)
        → c.ended ≡ false
        → c.queue ≡ ef ∷ rest
        → c.workers ≡ before ++ (record { work = w; exit = none } ∷ after)
        → d ≡ record c {
          queue = rest;
          workers = before ++ (worker_at (evaluate G md5 bucket upload retr ef w c.store) ∷ after);
          store = (evaluate G md5 bucket upload retr ef w c.store).store;
          ended = is_fatal (evaluate G md5 bucket upload retr ef w c.store).exit;
        }
        → Step c d
    -- The same with `ok` false: the channel is empty and closed.
    drains :
        (before after : List Worker) (w : Work)
        → c.ended ≡ false
        → c.queue ≡ []
        → c.walk ≡ returned true
        → c.workers ≡ before ++ (record { work = w; exit = none } ∷ after)
        → d ≡ record c { workers = before ++ (record { work = w; exit = some closed } ∷ after) }
        → Step c d

  -- The runs from a state.
  pub data Run (c : Process G.State) : Process G.State → Type 0 where
    here : Run c c
    next : {d e : Process G.State} → Run c d → Step d e → Run c e
