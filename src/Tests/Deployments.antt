-- ===== src/Tests/Deployments.antt =====
-- The synchronizer, the upload client and the upload server, together on a store in memory.
use google_cloud_storage.Base.{
  Bytes, codes, [], ◌∷◌, List, none, some, false, All, ◌≡◌, ◌≢◌, refl, Bool, ℕ, Option, same,
  same_refl,
}
use google_cloud_storage.Base.Dict.{Dict, lookup}
use google_cloud_storage.Base.Result.{Result, ok}
use google_cloud_storage.Backoff.{Backoff, attempts}
use google_cloud_storage.Proto.{Project, project_string}
use google_cloud_storage.Storage.{Gcs, Attrs}
use google_cloud_storage.Storage.Memory.{
  Memory, memory_of, memory_of-IsLawful, unlimited, Object, attrs_of,
}
use google_cloud_storage.Server.{Config}
use google_cloud_storage.Synchronizer.Upload.{Synchronizer}
use google_cloud_storage.Synchronizer.Schedule.{Running, Schedule, started, pending}
use google_cloud_storage.Synchronizer.Schedule.Archives.{Outcomes, Schedule_archives}
use google_cloud_storage.Synchronizer.Schedule.Complete.{Complete, Schedule_ends}
use google_cloud_storage.Deployment.{rpc}
use google_cloud_storage.Deployment.Archiving.{HasSums, rpc-IsArchiving}
use google_cloud_storage.Deployment.Complete.{Serves, deployed-Complete}

abbrev pub sum_of : Bytes → Bytes
sum_of c = 1 ∷ []

abbrev pub store : Gcs
store = memory_of sum_of unlimited

abbrev conf : Config
conf = record { buckets = (codes "ROUTEVIEWS", codes "archive") ∷ [] }

abbrev empty : Memory
empty = record { buckets = codes "archive" ∷ []; object = λ b o. none; full = false }

abbrev sr : Synchronizer
sr = record {
  retry_count = 5;
  http_url_root = codes "http://routeviews.org/";
  expected_collector_count = 34;
  bucket = codes "archive";
}

abbrev get : Bytes → Result (Result Bytes)
get url = ok (ok (codes "BZ"))

sum_found : (x : Option Object) (a : Attrs) → attrs_of sum_of x ≡ ok a → a.md5 ≢ []
sum_found none a e = absurd (cc)
sum_found (some x) a e = let k : a.md5 ≡ 1 ∷ [] = cc in λ h. absurd (cc)

pub has_sums : HasSums store
has_sums = record { sum = λ b o s a e. sum_found (s.object b o) a e }

pub own : lookup (project_string Project.routeviews) conf.buckets ≡ some sr.bucket
unfolding lookup project_string same
own = refl

serves : Serves store get sr
serves = record {
  gets = λ f h. (codes "BZ", refl, λ e. absurd (cc));
  takes = λ o c s. refl;
  marks = λ o c s. rw (same_refl (codes "archive"), same_refl o) refl;
}

abbrev retries : Backoff Memory Bool
retries = attempts

abbrev dir : Dict (List Bytes)
dir =
    ([], codes "bgpdata/updates.20220427.1900.bz2" ∷ [])
    ∷ (codes "rv3", codes "rv3/bgpdata/updates.20220427.1915.bz2" ∷ [])
    ∷ []

abbrev launch : Running Memory
launch = record { tasks = started dir; store = empty }

-- A run of the two goroutines to their end.
ended :
    (e : Running Memory) × (n : ℕ) × Schedule store sum_of
      (rpc store conf sum_of)
      get
      sr
      retries
      e
      launch
      n
    × (pending e.tasks ≡ 0)
ended = Schedule_ends store sum_of (rpc store conf sum_of) get sr retries launch

named : All (λ p. All (λ f. ◌≢◌ {A = Bytes} f []) p.1) dir
named = ((λ h. absurd (cc), tt), ((λ h. absurd (cc), tt), tt))

deployed-Complete_example : Complete store (codes "archive") ended.0.store dir
deployed-Complete_example =
    deployed-Complete store has_sums conf sum_of (memory_of-IsLawful sum_of unlimited) get sr own
      serves retries dir empty ended.0 ended.1 named ended.2 ended.3

Schedule_archives_example : Outcomes store (codes "archive") ended.0.store dir ended.0.tasks
Schedule_archives_example =
    Schedule_archives store sum_of (rpc store conf sum_of) get sr retries
      (rpc-IsArchiving store has_sums conf sum_of (memory_of-IsLawful sum_of unlimited)
        (codes "archive") own)
      dir empty ended.0 ended.1 ended.2 ended.3
