-- ===== src/Tests/Commands.antt =====
-- The commands and services around the packages.
use google_cloud_storage.Base.{
  Bytes, codes, same, [], ◌∷◌, ◌++◌, List, Option, none, true, false, ◌≡◌, refl, arith, is_empty,
}
use google_cloud_storage.Base.Dict.{has, lookup}
use google_cloud_storage.Base.Result.{Error, Result, ok, err, errorf}
use google_cloud_storage.Proto.{FileResponse, Status, project_string, project_value}
use google_cloud_storage.Storage.{Gcs}
use google_cloud_storage.Storage.Memory.{Memory, memory_of, memory_of-IsLawful, unlimited}
use google_cloud_storage.Server.{Config, project_metadata_key, bucket_of}
use google_cloud_storage.UploadCommand.{Flags, request, deployed, Holds, upload_main-reads}
use google_cloud_storage.MassUpload.{WalkEntry, EvalFile, Position, evaluate, ftp_walk}
use google_cloud_storage.MassUpload
use google_cloud_storage.MassUpload.Channel.{
  launched, Process, Run, here, next, sends, receives, worker_at, no_work, is_fatal,
}
use google_cloud_storage.Strings.Trim.{trim_left}
use google_cloud_storage.MassUpload.Channel.Counts.{Accounts, launched-Accounts}
use google_cloud_storage.MassUpload.Channel.Waits.{IsOpen, launched-IsOpen}
use google_cloud_storage.MassUpload.Laws.{updates}
use google_cloud_storage.Deployment.{rpc}

abbrev pub sum_of : Bytes → Bytes
sum_of c = 1 ∷ []

abbrev pub store : Gcs
store = memory_of sum_of unlimited

abbrev pub conf : Config
conf = record { buckets = (codes "ROUTEVIEWS", codes "archive") ∷ [] }

abbrev pub empty : Memory
empty = record { buckets = codes "archive" ∷ []; object = λ b o. none; full = false }

-- The upload client.
abbrev flags : Flags
flags = record {
  server = codes "localhost:9876";
  file = codes "a.bz2";
  sa_key = [];
  project = codes "ROUTEVIEWS";
}

abbrev dialled : Bytes → Bytes → Result Bytes
dialled host key = ok host

abbrev success : FileResponse
success = record { status = Status.success; error_message = [] }

abbrev sent : Memory × Result FileResponse
sent =
    deployed store conf sum_of (memory_of-IsLawful sum_of unlimited) dialled flags (codes "BZ")
      empty

sent_ok : sent ≡ (sent.0, ok success)
unfolding google_cloud_storage.UploadCommand.upload_main is_empty
    google_cloud_storage.Client.make_req rpc google_cloud_storage.Server.file_upload
    google_cloud_storage.Server.base_unmet google_cloud_storage.Server.is_unknown project_value same
    google_cloud_storage.Strings.Hex.hex_encode google_cloud_storage.Server.handle_data_file has
    project_string bucket_of lookup
sent_ok = refl

abbrev HoldsFile : Memory → Type 0
HoldsFile m =
    (store.read (codes "archive") (codes "a.bz2") m ≡ ok (codes "BZ"))
    × (store.attrs (codes "archive") (codes "a.bz2") m
        ≡ ok (record { md5 = 1 ∷ []; metadata = (project_metadata_key, codes "ROUTEVIEWS") ∷ [] }))

upload_main-reads_example : HoldsFile sent.0
unfolding project_string project_value lookup bucket_of same
upload_main-reads_example =
    upload_main-reads store conf sum_of (memory_of-IsLawful sum_of unlimited) dialled flags
      (codes "BZ") empty sent.0 success sent_ok refl

-- The mass upload, up to where one archive is in the channel, and up to where it was looked at.
abbrev pub tree : List WalkEntry
tree = record { path = codes "/UPDATES/updates.1"; is_file = true } ∷ []

abbrev pub retr : Bytes → Result (Bytes × Option Error)
retr path = ok (codes "BZ", none)

abbrev pub file : EvalFile
file = record { name = codes "UPDATES/updates.1"; chksum = [] }

-- Two of three workers log in.
abbrev pub logins : List (Result (Unit {0}))
logins = ok tt ∷ err (errorf "failed to login") ∷ ok tt ∷ []

abbrev pub start : Process Memory
start = launched logins tree empty

abbrev pub queued : Process Memory
queued = record start { unsent = []; queue = start.queue ++ (file ∷ []) }

abbrev pub looked : Position Memory
looked = evaluate store sum_of (codes "archive") (rpc store conf sum_of) retr file no_work empty

abbrev pub drained : Process Memory
drained = record queued {
  queue = [];
  workers = worker_at looked ∷ record { work = no_work; exit = none } ∷ [];
  store = looked.store;
  ended = is_fatal looked.exit;
}

abbrev Runs : Process Memory → Type 0
Runs d = Run store sum_of (codes "archive") (rpc store conf sum_of) retr none start d

run : Runs drained
unfolding launched MassUpload.Channel.started ftp_walk trim_left
run =
    next (next here (sends file [] refl refl (omega arith) refl)) (
      receives file [] [] (record { work = no_work; exit = none } ∷ []) no_work refl refl refl refl)

launched-Accounts_example : Accounts (updates (ftp_walk tree)) drained
launched-Accounts_example =
    launched-Accounts store sum_of (codes "archive") (rpc store conf sum_of) retr none logins tree
      empty drained run

launched-IsOpen_example : IsOpen drained
launched-IsOpen_example =
    launched-IsOpen store sum_of (codes "archive") (rpc store conf sum_of) retr logins tree empty
      drained run
