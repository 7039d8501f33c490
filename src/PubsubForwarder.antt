-- ===== src/PubsubForwarder.antt =====
-- cmd/pubsub_forwarder/main.go: the service that puts each message it receives into a task queue.
pub mod Command
use google_cloud_storage.Base.{
  ℕ, Bytes, codes, is_empty, [], ◌++◌, Bool, true, if◌then◌else◌, ◌≡◌, ◌≢◌, refl, sym, arith,
  is_empty_iff, ◌↔◌,
}
use google_cloud_storage.Base.Result.{errorf, Result, ok, err}
use google_cloud_storage.Base.Effect.{M}
use mathlib.Core.Path.{subst}

-- `server`, without its client.
pub record Forwarder : Type 0 where
  pub loc : Bytes
  pub queue : Bytes
  pub project : Bytes

unfoldable pub queue_path : Forwarder → Bytes
queue_path s =
    codes "projects/" ++ s.project ++ codes "/locations/" ++ s.loc ++ codes "/queues/" ++ s.queue

-- What the code puts into a task.
pub record Task : Type 0 where
  pub parent : Bytes
  pub is_post : Bool
  pub relative_uri : Bytes
  pub body : Bytes

abbrev pub task_of : Forwarder → Bytes → Task
task_of s body = record {
  parent = queue_path s;
  is_post = true;
  relative_uri = codes "/";
  body = body;
}

-- The environment variables of `main`: each that is empty ends the process.
unfoldable pub configured : Bytes → Bytes → Bytes → Result Forwarder
configured project loc queue =
    if is_empty project
    then err (errorf "project not specified")
    else if is_empty loc
    then err (errorf "location not specified")
    else if is_empty loc
    then err (errorf "queue not specified")
    else ok (record { loc = loc; queue = queue; project = project })

module _ {Q : Type 0} (create : Task → M Q (Unit {0})) where
  -- The status, which is 200 where the handler sets none.
  abbrev pub created : Q × Result (Unit {0}) → Q × ℕ
  created (q, ok _) = (q, 200)
  created (q, err e) = (q, 500)

  -- `forwardPubsubMessage`, on what reading the body returned.
  unfoldable pub forward : Forwarder → Result Bytes → Q → Q × ℕ
  forward s (err e) q = (q, 500)
  forward s (ok body) q = created (create (task_of s body) q)

  -- The sender of a message is told 200 exactly when its body was read, and a POST task with it was
  -- created in the queue of the service.
  pub forward-ok_iff :
      (s : Forwarder) (r : Result Bytes) (q : Q)
      → ((forward s r q).1 ≡ 200)
        ↔ ((body : Bytes) × (r ≡ ok body) × ((create (task_of s body) q).1 ≡ ok tt))
  unfolding forward
  forward-ok_iff s r q = (there s r q, back s r q)
    where
      told : (x : Q × Result (Unit {0})) → (created x).1 ≡ 200 → x.1 ≡ ok tt
      told (t, ok u) h = refl
      told (t, err e) h = absurd (omega arith)

      tells : (x : Q × Result (Unit {0})) → x.1 ≡ ok tt → (created x).1 ≡ 200
      tells (t, ok u) h = refl
      tells (t, err e) h = absurd (cc)

      there :
          (s : Forwarder) (r : Result Bytes) (q : Q)
          → (forward s r q).1 ≡ 200
          → (body : Bytes) × (r ≡ ok body) × ((create (task_of s body) q).1 ≡ ok tt)
      there s (err e) q h = absurd (omega arith)
      there s (ok body) q h = (body, refl, told (create (task_of s body) q) h)

      back :
          (s : Forwarder) (r : Result Bytes) (q : Q)
          → ((body : Bytes) × (r ≡ ok body) × ((create (task_of s body) q).1 ≡ ok tt))
          → (forward s r q).1 ≡ 200
      back s (err e) q (body, h, k) = absurd (cc)
      back s (ok b) q (body, h, k) =
          let e : b ≡ body = cc in
          tells (create (task_of s b) q) (subst (λ c. (create (task_of s c) q).1 ≡ ok tt) (sym e) k)

-- The service starts whenever a project and a location are given: the test for the queue looks at
-- the location again.
pub configured-any_queue :
    (project loc queue : Bytes)
    → project ≢ []
    → loc ≢ []
    → configured project loc queue ≡ ok (record { loc = loc; queue = queue; project = project })
unfolding configured
configured-any_queue project loc queue p l = ground (arith, is_empty_iff project, is_empty_iff loc)
