-- ===== src/MassUpload.antt =====
-- cmd/archive_upload_mass_upload/mass_upload.go: the command that mirrors an FTP
-- site to the archive. The FTP client, the upload server and crypto/md5 are arguments.
pub mod Channel
pub mod Command
pub mod Laws
pub mod Url
use google_cloud_storage.Base.{
  ℕ, ◌+◌, Bytes, codes, same, List, [], ◌∷◌, Option, none, some, Bool, true, false, not, ltb,
  if◌then◌else◌,
}
use google_cloud_storage.Base.Result.{Error, wrap, Result, ok, err, ◌>>=◌, within}
use google_cloud_storage.Base.Effect.{M}
use google_cloud_storage.Proto
use google_cloud_storage.Proto.{Project, FileRequest, FileResponse}
use google_cloud_storage.Storage.{Gcs}
use google_cloud_storage.Strings.Hex.{hex_encode}
use google_cloud_storage.Strings.Search.{contains}
use google_cloud_storage.Strings.Trim.{trim_left}

abbrev pub max_ftp_errs : ℕ
max_ftp_errs = 50

abbrev pub max_grpc_errs : ℕ
max_grpc_errs = 50

-- `evalFile`
pub record EvalFile : Type 0 where
  pub name : Bytes
  pub chksum : Bytes

-- What the walker of the FTP client shows of an entry.
pub record WalkEntry : Type 0 where
  pub path : Bytes
  pub is_file : Bool

-- The files that `ftpWalk` sends to the channel, from the entries of the walk.
unfoldable pub ftp_walk : List WalkEntry → List EvalFile
ftp_walk [] = []
ftp_walk (e ∷ entries) =
    let rest = ftp_walk entries in
    if e.is_file then record { name = trim_left e.path (codes "/"); chksum = [] } ∷ rest else rest

-- The counters of a worker, and its share of the client's metrics.
pub record Work : Type 0 where
  pub ftp_errs : ℕ
  pub grpc_errs : ℕ
  pub synced : ℕ
  pub skipped : ℕ
  pub errors : ℕ

-- How a worker ends: the channel is closed, too many uploads failed, or too many downloads did,
-- which ends the process.
pub data Exit : Type 0 where
  closed gave_up fatal : Exit

-- Where a worker is: the store, its counters, and its end when it has come.
pub record Position (S : Type 0) : Type 0 where
  pub store : S
  pub work : Work
  pub exit : Option Exit

-- The sum in the archive: empty when it cannot be read.
abbrev pub sum_or_empty : Result Bytes → Bytes
sum_or_empty (ok sum) = sum
sum_or_empty (err e) = []

unfoldable pub md5_from_gcs : (G : Gcs) → Bytes → Bytes → G.State → Result Bytes
md5_from_gcs G bucket path s = do
  a ← within "failed to get attrs for obj" (G.attrs bucket path s)
  ok (hex_encode a.md5)

-- The argument is what `Retr` returned: what could be read, and the error that ended the reading.
-- That error is dropped.
unfoldable pub md5_from_ftp :
    (Bytes → Bytes) → Result (Bytes × Option Error) → Result (Bytes × Bytes)
md5_from_ftp md5 (err e) = err (wrap "failed to RETR the path" e)
md5_from_ftp md5 (ok (buf, e)) = ok (hex_encode (md5 buf), buf)

abbrev pub mass_request : EvalFile → Bytes → Bytes → FileRequest
mass_request ef sum content = record {
  filename = ef.name;
  md5sum = sum;
  content = content;
  convert_sql = false;
  project = Project.routeviews;
}

module _ {S : Type 0} where
  unfoldable pub upload_stage : Work → S × Result FileResponse → Position S
  upload_stage w (s, ok resp) = record {
    store = s;
    work = record w { synced = w.synced + 1 };
    exit = none;
  }
  upload_stage w (s, err e) =
      if ltb w.grpc_errs max_grpc_errs
      then record {
        store = s;
        work = record w { errors = w.errors + 1; grpc_errs = w.grpc_errs + 1 };
        exit = none;
      }
      else record { store = s; work = record w { errors = w.errors + 1 }; exit = some gave_up }

  unfoldable pub compare_stage : M S FileResponse → Bytes → Bytes → Work → S → Position S
  unfolding upload_stage
  compare_stage send archived sum w s =
      if same archived sum
      then record { store = s; work = record w { skipped = w.skipped + 1 }; exit = none }
      else upload_stage w (send s)

  unfoldable pub fetch_stage :
      (FileRequest → M S FileResponse)
      → EvalFile
      → Bytes
      → Result (Bytes × Bytes)
      → Work
      → S
      → Position S
  unfolding compare_stage
  fetch_stage upload ef archived (err e) w s =
      if ltb w.ftp_errs max_ftp_errs
      then record { store = s; work = record w { ftp_errs = w.ftp_errs + 1 }; exit = none }
      else record { store = s; work = w; exit = some fatal }
  fetch_stage upload ef archived (ok (sum, content)) w s =
      compare_stage (upload (mass_request ef sum content)) archived sum w s

-- `strings.Contains(fn, "UPDATES/updates")`
unfoldable pub is_update : EvalFile → Bool
is_update ef = contains (trim_left ef.name (codes "/")) (codes "UPDATES/updates")

-- The loop goes on from a position that has no exit.
abbrev pub go_on : {S : Type 0} → (Work → S → Position S) → Position S → Option Exit → Position S
go_on rest p none = rest p.work p.store
go_on rest p (some x) = p

module _ (G : Gcs) (md5 : Bytes → Bytes) (bucket : Bytes)
    (upload : FileRequest → M G.State FileResponse)
    (retr : Bytes → Result (Bytes × Option Error)) where
  -- One iteration of the loop of `readChannel`.
  unfoldable pub evaluate : EvalFile → Work → G.State → Position G.State
  unfolding is_update fetch_stage
  evaluate ef w s =
      if not (is_update ef)
      then record { store = s; work = w; exit = none }
      else fetch_stage upload ef
          (sum_or_empty (md5_from_gcs G bucket (trim_left ef.name (codes "/")) s))
          (md5_from_ftp md5 (retr ef.name)) w s

  -- `readChannel`, on the files that this worker receives before the channel is closed, once it is
  -- logged in.
  unfoldable pub read_channel : List EvalFile → Work → G.State → Position G.State
  unfolding evaluate
  read_channel [] w s = record { store = s; work = w; exit = some closed }
  read_channel (ef ∷ files) w s =
      let p = evaluate ef w s in go_on (λ v t. read_channel files v t) p p.exit
