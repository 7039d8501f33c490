-- ===== src/Synchronizer/Schedule/Bounds.antt =====
-- Every schedule of a synchronization ends.
use google_cloud_storage.Base.{
  ℕ, ◌+◌, ◌≤◌, ◌<◌, Bytes, List, [], ◌∷◌, ◌++◌, Bool, Bool-cases, length, ◌≡◌, inl, inr, arith,
}
use google_cloud_storage.Base.Result.{Result}
use google_cloud_storage.Base.Effect.{M}
use google_cloud_storage.Backoff.{Backoff}
use google_cloud_storage.Proto.{FileRequest, FileResponse}
use google_cloud_storage.Storage.{Gcs}
use google_cloud_storage.Synchronizer.Upload.{Synchronizer, Progress, next_file, upload_from_ftp}
use google_cloud_storage.Synchronizer.Schedule.{
  Task, Running, resumed, pending, advance, Step, goes_on, Schedule, here, next,
}

pub pending-append : (ts us : List Task) → pending (ts ++ us) ≡ pending ts + pending us
unfolding pending
pending-append [] us = omega arith
pending-append (t ∷ ts) us = omega (arith, pending-append ts us)

length-resumed-le :
    {S : Type 0} (files : List Bytes) (r : S × Progress)
    → length (resumed files r).1.todo ≤ length files
length-resumed-le files (s, q) = elim (Bool-cases q.gave_up) [
  | inl e ↦ rw e (omega arith)
  | inr e ↦ rw e (omega arith)
]

module _ (G : Gcs) (md5 : Bytes → Bytes) (upload : FileRequest → M G.State FileResponse)
    (get : Bytes → Result (Result Bytes)) (sr : Synchronizer) (backoff : Backoff G.State Bool) where
  length-advance-le :
      (f : Bytes) (files : List Bytes) (p : Progress) (s : G.State)
      → length (advance G md5 upload get sr backoff f files p s).1.todo ≤ length files
  unfolding advance
  length-advance-le f files p s = length-resumed-le files (
      next_file (λ q t. (t, q)) f p
        (backoff.retry sr.retry_count (upload_from_ftp G md5 upload get sr f) s))

  pub Step-pending :
      (c d : Running G.State)
      → Step G md5 upload get sr backoff c d
      → pending d.tasks < pending c.tasks
  unfolding pending
  Step-pending c d (goes_on before after f files p ec ed es) =
      let small = length-advance-le f files p c.store in
      let new = (advance G md5 upload get sr backoff f files p c.store).1 in
      let old : Task = record { todo = f ∷ files; progress = p } in
      rw (ec, ed)
        (omega (arith, pending-append before (new ∷ after), pending-append before (old ∷ after)))

  -- No schedule has more steps than there are files to look at, whatever the order, and each step
  -- leaves fewer.
  pub Schedule-pending :
      (e c : Running G.State) (n : ℕ)
      → Schedule G md5 upload get sr backoff e c n
      → n + pending e.tasks ≤ pending c.tasks
  Schedule-pending e c n here = omega arith
  Schedule-pending e c n (next {d = d} {n = m} st rest) =
      omega (arith, Step-pending c d st, Schedule-pending e d m rest)
