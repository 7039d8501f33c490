-- ===== src/Synchronizer/Schedule/Sequential/Whole.antt =====
-- `sync_dirs`, which goes through the collectors one after the other, is one of the schedules.
use google_cloud_storage.Base.{
  Bool, ℕ, suc, Bytes, List, [], ◌∷◌, ◌++◌, append_assoc, append-nil, ◌≡◌, refl, ap, ◌∙◌, arith,
}
use google_cloud_storage.Base.Dict.{Dict}
use google_cloud_storage.Base.Result.{Result}
use google_cloud_storage.Base.Effect.{M}
use google_cloud_storage.Backoff.{Backoff}
use google_cloud_storage.Proto.{FileRequest, FileResponse}
use google_cloud_storage.Storage.{Gcs}
use google_cloud_storage.Synchronizer.Upload.{Synchronizer, Progress, no_progress, sync_dirs}
use google_cloud_storage.Synchronizer.Schedule.{
  Task, Running, started, pending, Schedule, here, next,
}
use google_cloud_storage.Synchronizer.Schedule.Bounds.{pending-append}
use google_cloud_storage.Synchronizer.Schedule.Sequential.{loop, Schedule-upload_files}
use mathlib.Core.Path.{subst}

module _ (G : Gcs) (md5 : Bytes → Bytes) (upload : FileRequest → M G.State FileResponse)
    (get : Bytes → Result (Result Bytes)) (sr : Synchronizer) (backoff : Backoff G.State Bool) where
  abbrev pub Ways : Running G.State → Running G.State → Type 0
  Ways c e = (n : ℕ) × Schedule G md5 upload get sr backoff e c n

  Schedule-trans :
      (d e c : Running G.State) (m n : ℕ)
      → Schedule G md5 upload get sr backoff d c m
      → Schedule G md5 upload get sr backoff e d n
      → Ways c e
  Schedule-trans d e c m n here b = (n, b)
  Schedule-trans d e c m n (next {d = x} {n = k} st rest) b =
      let (l, r) = Schedule-trans d e x k n rest b in (suc l, next st r)

  -- A goroutine that is done.
  abbrev finished : G.State × Progress → Task
  finished (s, q) = record { todo = []; progress = q }

  pending-finished : (r : G.State × Progress) → pending (finished r ∷ []) ≡ 0
  unfolding pending
  pending-finished (s, q) = refl

  rest_in_order :
      (dir : Dict (List Bytes)) (before : List Task) (s : G.State)
      → pending before ≡ 0
      → (ts : List Task) × Ways
          (record { tasks = before ++ started dir; store = s })
          (record { tasks = ts; store = sync_dirs G md5 upload get sr backoff dir s })
        × (pending ts ≡ 0)
  unfolding started sync_dirs
  rest_in_order [] before s z = (before ++ [], (0, here), ap pending (append-nil before) ∙ z)
  rest_in_order ((root, files) ∷ dir) before s z =
      let r = loop G md5 upload get sr backoff [] [] files no_progress s in
      let t : Task = finished r in
      let (n, first) =
        Schedule-upload_files G md5 upload get sr backoff before (started dir) files no_progress s
          refl in
      let (ts, (m, rest), idle) =
        rest_in_order dir (before ++ (t ∷ [])) r.0
          (omega (arith, pending-append before (t ∷ []), pending-finished r)) in
      let over =
        subst
          (λ l.
            Schedule G md5 upload get sr backoff
              (record { tasks = ts; store = sync_dirs G md5 upload get sr backoff dir r.0 })
              (record { tasks = l; store = r.0 }) m)
          (append_assoc before (t ∷ []) (started dir)) rest in
      (
        ts,
        Schedule-trans (record { tasks = before ++ (t ∷ started dir); store = r.0 }) _ _ n m first
            over,
        idle,
      )

  -- Going through the collectors one after the other is one of the orders: from the start of the
  -- goroutines there is a schedule to a state in which all of them are done and the store is the
  -- one that `sync_dirs` returns.
  pub Schedule-sync_dirs :
      (dir : Dict (List Bytes)) (s : G.State)
      → (e : Running G.State) × Ways (record { tasks = started dir; store = s }) e
        × (pending e.tasks ≡ 0)
        × (e.store ≡ sync_dirs G md5 upload get sr backoff dir s)
  unfolding pending
  Schedule-sync_dirs dir s =
      let (ts, run, idle) = rest_in_order dir [] s refl in
      (record { tasks = ts; store = sync_dirs G md5 upload get sr backoff dir s }, run, idle, refl)
