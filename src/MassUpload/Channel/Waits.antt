-- ===== src/MassUpload/Channel/Waits.antt =====
-- After a walk without error the channel stays open, and the workers wait on it.
use google_cloud_storage.Base.{
  ◌≤◌, Bytes, List, Option, none, some, true, All, All-middle, ◌≡◌, ◌≢◌, [], ◌∷◌,
}
use google_cloud_storage.Base.Result.{Error, Result, ok, err}
use google_cloud_storage.Base.Effect.{M}
use google_cloud_storage.Proto.{FileRequest, FileResponse}
use google_cloud_storage.Storage.{Gcs}
use google_cloud_storage.MassUpload.{WalkEntry, closed, gave_up, evaluate, max_grpc_errs}
use google_cloud_storage.MassUpload.Laws.{step_open, step_spent}
use google_cloud_storage.MassUpload.Channel.{
  returned, end_of_walk, Worker, Process, started, launched, worker_at, Step, sends, returns,
  receives, drains, Run, here, next,
}

-- How a worker stands that did not see the channel closed: one that gave up has had all the failed
-- uploads that it bears.
pub record Waits (w : Worker) : Type 0 where
  pub sees : w.exit ≢ some closed
  pub spent : w.exit ≡ some gave_up → max_grpc_errs ≤ w.work.grpc_errs

-- The channel is open, and no worker saw it closed.
pub record IsOpen {S : Type 0} (c : Process S) : Type 0 where
  pub channel : c.walk ≢ returned true
  pub workers : All Waits c.workers

started-Waits : (logins : List (Result (Unit {0}))) → All Waits (started logins)
unfolding started
started-Waits [] = tt
started-Waits (ok u ∷ logins) =
    (record { sees = λ h. absurd (cc); spent = λ h. absurd (cc) }, started-Waits logins)
started-Waits (err e ∷ logins) = started-Waits logins

module _ (G : Gcs) (md5 : Bytes → Bytes) (bucket : Bytes)
    (upload : FileRequest → M G.State FileResponse)
    (retr : Bytes → Result (Bytes × Option Error)) where
  Step-IsOpen :
      (c d : Process G.State) → Step G md5 bucket upload retr none c d → IsOpen c → IsOpen d
  unfolding end_of_walk
  Step-IsOpen c d (sends ef rest on un room e) i =
      rw e (record { channel = i.channel; workers = i.workers })
  Step-IsOpen c d (returns on un walk e) i =
      rw e (record { channel = λ h. absurd (cc); workers = i.workers })
  Step-IsOpen c d (receives ef rest before after w on q ws e) i = rw e (record {
    channel = i.channel;
    workers =
        All-middle Waits (record { work = w; exit = none })
          (worker_at (evaluate G md5 bucket upload retr ef w c.store)) after before
          (λ k. record {
            sees = step_open G md5 bucket upload retr ef w c.store;
            spent = step_spent G md5 bucket upload retr ef w c.store;
          })
          (rw ws at i.workers);
  })
  Step-IsOpen c d (drains before after w on q walk ws e) i = absurd (i.channel walk)

  Run-IsOpen : (c d : Process G.State) → IsOpen c → Run G md5 bucket upload retr none c d → IsOpen d
  Run-IsOpen c d i here = i
  Run-IsOpen c d i (next {d = m} run st) = Step-IsOpen m d st (Run-IsOpen c m i run)

  -- Whatever the threads do after a start, when the walk of the FTP site meets no error: the
  -- channel is never closed, no worker sees it closed, and a worker that gave up has had as many
  -- failed uploads as it bears.
  pub launched-IsOpen :
      (logins : List (Result (Unit {0}))) (entries : List WalkEntry) (s : G.State)
      (d : Process G.State)
      → Run G md5 bucket upload retr none (launched logins entries s) d
      → IsOpen d
  unfolding launched
  launched-IsOpen logins entries s d run =
      Run-IsOpen _ d (record { channel = λ h. absurd (cc); workers = started-Waits logins }) run
