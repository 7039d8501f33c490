-- ===== src/Tests/Services.antt =====
-- The service of the synchronizer, and that of the transfers.
use google_cloud_storage.Base.{
  ℕ, ◌-◌, ◌*◌, ◌<◌, Bytes, codes, same, same_refl, [], ◌∷◌, List, Option, none, some, Bool, true,
  false, if◌then◌else◌, ◌≡◌, ◌↔◌, refl, sym, ap, arith,
}
use google_cloud_storage.Base.Dict.{Dict, has}
use google_cloud_storage.Base.Result.{Result, ok}
use google_cloud_storage.Base.Effect.{M}
use google_cloud_storage.Backoff.{Backoff, attempts}
use google_cloud_storage.Storage.{Gcs}
use google_cloud_storage.Storage.Memory.{Memory, memory_of, memory_of-IsLawful, unlimited}
use google_cloud_storage.Server.{Config}
use google_cloud_storage.Deployment.{rpc}
use google_cloud_storage.Deployment.Complete.{Serves}
use google_cloud_storage.Deployment.Service.{Archived, service-Archived}
use google_cloud_storage.Tests.Deployments.{has_sums, own}
use google_cloud_storage.Time.{minute}
use google_cloud_storage.Time.Parse.{instant}
use google_cloud_storage.Synchronizer.Compile.{Entry}
use google_cloud_storage.Synchronizer.Upload.{Synchronizer}
use google_cloud_storage.SyncCommand.{handle}
use mathlib.Core.List.{Memᴰ}
use google_cloud_storage.BqTransfer.{
  TransferParams, TransferService, queries_among, fetch_month_dirs,
}
use google_cloud_storage.BqTransfer.Fetch.{weights, IsFinite, Found, fetch_month_dirs-Found}
use mathlib.Core.Path.{subst}
use google_cloud_storage.BqTransfer.Dirs.{Inner-queries_among}

abbrev sum_of : Bytes → Bytes
sum_of c = 1 ∷ []

abbrev store : Gcs
store = memory_of sum_of unlimited

abbrev conf : Config
conf = record { buckets = (codes "ROUTEVIEWS", codes "archive") ∷ [] }

abbrev empty : Memory
empty = record { buckets = codes "archive" ∷ []; object = λ b o. none; full = false }

-- One collector is enough for this synchronizer.
abbrev sr : Synchronizer
sr = record {
  retry_count = 5;
  http_url_root = codes "http://routeviews.org/";
  expected_collector_count = 1;
  bucket = codes "archive";
}

abbrev get : Bytes → Result (Result Bytes)
get url = ok (ok (codes "BZ"))

-- An FTP site with one collector and one archive.
abbrev top : List Entry
top = record { name = codes "rv3"; is_folder = true } ∷ []

abbrev updates_dir : List Entry
updates_dir = record { name = codes "updates.20220430.2315.bz2"; is_folder = false } ∷ []

abbrev site : Bytes → Result (List Entry)
site path = if same path (codes "/") then ok top else ok updates_dir

abbrev connect : M (Unit {0}) (Bytes → Result (List Entry))
connect u = (u, ok site)

abbrev retries : Backoff Memory Bool
retries = attempts

abbrev listings : Backoff (Unit {0}) (Dict (List Bytes))
listings = attempts

abbrev night : ℕ
night = instant 2022 5 1 1 0

abbrev answer : (Unit {0}) × Memory × ℕ
answer =
    handle store sum_of (rpc store conf sum_of) get sr retries connect listings 0 (120 * minute)
      night tt empty

answer_200 : answer.2 ≡ 200
unfolding handle google_cloud_storage.Synchronizer.Upload.sync instant attempts
    google_cloud_storage.Synchronizer.Compile.compile_dir same
    google_cloud_storage.Synchronizer.Dir.prepare_dir google_cloud_storage.Base.Dict.insert
    google_cloud_storage.Synchronizer.Months.spanned_months
    google_cloud_storage.Strings.FilePath.join_path google_cloud_storage.Time.rv_month
    google_cloud_storage.Synchronizer.FileTime.time_from_filename
    google_cloud_storage.Time.Parse.parse_timestamp
answer_200 = refl

serves : Serves store get sr
serves = record {
  gets = λ f h. (codes "BZ", refl, λ e. absurd (cc));
  takes = λ o c s. refl;
  marks = λ o c s. rw (same_refl (codes "archive"), same_refl o) refl;
}

service-Archived_example :
    Archived store has_sums conf sum_of
      (memory_of-IsLawful sum_of unlimited)
      get
      sr
      own
      serves
      retries
      connect
      listings
      0
      (120 * minute)
      night
      tt
      answer.1
service-Archived_example =
    service-Archived store has_sums conf sum_of (memory_of-IsLawful sum_of unlimited) get sr own
      serves retries connect listings 0 (120 * minute) night tt empty answer_200

-- A bucket with one directory of a month.
abbrev listed : Bytes → Result (List Bytes)
listed [] = ok (codes "a/2022.04/" ∷ [] ∷ [])
listed (c ∷ q) = ok []

abbrev month : Bytes → Bool
month s = same s (codes "2022.04")

abbrev weight : Bytes → ℕ
weight q = 1

first : weights month listed weight (queries_among month (codes "a/2022.04/" ∷ [] ∷ [])) < 1
unfolding queries_among google_cloud_storage.Strings.Split.split same
first = omega arith

nothing : weights month listed weight (queries_among month []) < 1
unfolding queries_among
nothing = omega arith

entries : {x y : List Bytes} → ◌≡◌ {A = Result (List Bytes)} (ok x) (ok y) → x ≡ y
entries e = cc

finite : IsFinite month listed weight
finite = record {
  lists = λ q. listing q;
  shrinks = λ q ps ds e inner.
      subst (λ l. weights month listed weight l < 1) (sym (Inner-queries_among month inner))
        (small q ps e);
}
  where
    listing : (q : Bytes) → (ps : List Bytes) × (listed q ≡ ok ps)
    listing [] = (codes "a/2022.04/" ∷ [] ∷ [], refl)
    listing (c ∷ q) = ([], refl)

    small :
        (q : Bytes) (ps : List Bytes)
        → listed q ≡ ok ps
        → weights month listed weight (queries_among month ps) < 1
    small [] ps e =
        subst (λ x. weights month listed weight (queries_among month x) < 1) (entries e) first
    small (c ∷ q) ps e =
        subst (λ x. weights month listed weight (queries_among month x) < 1) (entries e) nothing

fetch_month_dirs-Found_example :
    (out : List Bytes) × (fetch_month_dirs month listed 1 ≡ some (ok out))
    × ((p : Bytes) → Memᴰ p out ↔ Found month listed [] p)
fetch_month_dirs-Found_example = fetch_month_dirs-Found month listed weight finite

-- The transfers.
has_head : (p : Bytes) (s : Dict Bytes) → has p ((p, []) ∷ s) ≡ true
unfolding has
has_head p s = rw (same_refl p) refl

has_cons : (p q : Bytes) (s : Dict Bytes) → has q s ≡ true → has q ((p, []) ∷ s) ≡ true
unfolding has
has_cons p q s h = ground arith

abbrev service : TransferService
service = record {
  State = Dict Bytes;
  configs = λ s. ok s;
  create = λ c s. ((c.data_path, []) ∷ s, ok []);
  create_covers = λ c s s' name e.
      subst (λ d. has c.data_path d ≡ true) (ap (λ r. r.0) e) (has_head c.data_path s);
  create_keeps = λ c s path h. has_cons c.data_path path s h;
  create_readable = λ c s h. refl;
}

abbrev params : TransferParams
params = record { project = []; location = []; dataset = []; table = []; bucket = codes "b" }

abbrev tries : Backoff (Dict Bytes) Bytes
tries = attempts
