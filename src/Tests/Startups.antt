-- ===== src/Tests/Startups.antt =====
-- Programs that are started, and run to their end.
use google_cloud_storage.Base.{
  ℕ, Bytes, codes, List, [], ◌∷◌, ◌++◌, some, same, if◌then◌else◌, ◌≡◌, ◌≢◌, ◌↔◌, refl, arith, All,
  true, false, same_iff, same_refl, Option, none,
}
use google_cloud_storage.Base.Result.{Result, ok, eof, errorf}
use google_cloud_storage.Base.Run.{returns}
use google_cloud_storage.Proto.{project_string}
use google_cloud_storage.Server.{bucket_of}
use google_cloud_storage.Server.Command.{Files, Serving, start, address_of, serving}
use google_cloud_storage.Server.Command.Laws.{Configures, IsUsable, start_iff, start-file_upload}
use google_cloud_storage.ConvertLocal.{Disk, IsLawful, convert_local, convert_local_renders}
use google_cloud_storage.Migration.{Temp, Columns}
use google_cloud_storage.Migration.Command.{Database}
use google_cloud_storage.Tests.Servers
use google_cloud_storage.Tests.Servers.{sum_of, store, conf, request, accepted}
use google_cloud_storage.Tests.Conversions.{
  parser, plain, plain_reliable, collector_line, frame, line, rendered,
}
use google_cloud_storage.Tests.Archives.{unzipped}

-- The upload server.
abbrev files : Files
files = record {
  File = Bytes;
  open_file = λ path. ok path;
  read_all = λ f. ok f;
  unmarshal = λ text. ok conf;
}

abbrev listen : Bytes → Result (Unit {0})
listen a = ok tt

abbrev served : Serving
served = record { address = codes ":9876"; conf = conf; max_recv = 536870912; max_send = 536870912 }

start_iff_example :
    (start files store listen (ok tt) [] (codes "config.yaml") Servers.start ≡ ok served) ↔ (
      (listen (address_of []) ≡ ok tt)
      × ((◌≡◌ {A = Result (Unit {0})} (ok tt) (ok tt)))
      × (served ≡ serving [] conf)
      × Configures files (codes "config.yaml") conf
      × All (IsUsable store Servers.start) conf.buckets)
start_iff_example =
    start_iff files store listen (ok tt) [] (codes "config.yaml") Servers.start served

starts : start files store listen (ok tt) [] (codes "config.yaml") Servers.start ≡ ok served
unfolding start google_cloud_storage.Server.new_rv_server google_cloud_storage.Server.check_buckets
    google_cloud_storage.Server.is_unknown google_cloud_storage.Proto.project_value same
    google_cloud_storage.Storage.Memory.member google_cloud_storage.Base.is_empty
starts = refl

start-file_upload_example :
    IsUsable store Servers.start (project_string request.project, bucket_of served.conf request)
start-file_upload_example =
    start-file_upload files store listen (ok tt) [] (codes "config.yaml") Servers.start served
      sum_of request Servers.start starts accepted

-- A disk as a function from paths.
abbrev set : Bytes → Bytes → (Bytes → Bytes) → Bytes → Bytes
set p c d q = if same p q then c else d q

abbrev disk : Disk
disk = record {
  State = Bytes → Bytes;
  open_file = λ p s. ok tt;
  content = λ p s. s p;
  create = λ p s. (set p [] s, ok tt);
  write_file = λ p c s. set p c s;
  takes = λ p c s. true;
  file = λ p s. some p;
}

paths_differ :
    (p q i j : Bytes)
    → ◌≡◌ {A = Option Bytes} (some p) (some i)
    → ◌≡◌ {A = Option Bytes} (some q) (some j)
    → i ≢ j
    → p ≢ q
paths_differ p q i j f g ne h = absurd (ne (cc))

disk-IsLawful : IsLawful disk
disk-IsLawful = record {
  content-create_ne =
      λ p q i j s f g ne. let differ = paths_differ p q i j f g ne in ground (arith, same_iff p q);
  content-write_file = λ p c i s f taken. rw (same_refl p) refl;
  content-write_file_ne = λ p c q i j s f g ne.
      let differ = paths_differ p q i j f g ne in ground (arith, same_iff p q);
}

abbrev archives : Bytes → Bytes
archives p = 16 ∷ 1 ∷ 9 ∷ []

outputs_differ : ◌≢◌ {A = Bytes} (codes "out") (codes "in")
outputs_differ h = absurd (cc)

convert_local_renders_example :
    (s' : Bytes → Bytes) × (convert_local disk parser plain collector_line unzipped
        (codes "rv3")
        (codes "in")
        (codes "out")
        archives
      ≡ some (returns s'))
    × (s' (codes "out") ≡ line)
    × (s' (codes "in") ≡ archives (codes "in"))
convert_local_renders_example =
    convert_local_renders disk parser plain collector_line unzipped (codes "rv3") (codes "in")
      (codes "out") disk-IsLawful plain_reliable archives ((frame, line) ∷ []) [] eof (codes "out")
      (codes "in") refl refl refl refl outputs_differ refl (omega arith) (rendered, tt) refl

-- A database that counts the rows that it took, committed and not.
abbrev row : Columns
row = record {
  asn = codes "AS1";
  prefix = codes "10.0.0.0";
  mask = google_cloud_storage.Roa.pos 8;
  ta = [];
  maxlen = google_cloud_storage.Roa.pos 8;
}

abbrev database : Database
database = record {
  State = List Temp;
  Txn = List Temp;
  connect = λ c. ok tt;
  times = λ s. ok (record { scans = (7, none) ∷ []; ending = none });
  columns =
      λ s t. ok (record { scans = (row, none) ∷ []; ending = some (errorf "connection lost") });
  begin_txn = λ s. ok s;
  update = λ r t. (t, ok 0);
  insert = λ r ts t. (r ∷ t, ok tt);
  commit = λ t s. (t, ok tt);
}
