-- ===== src/ConvertAll/Workers/Ends.antt =====
-- A whole bucket's conversion comes to an end.
use google_cloud_storage.Base.{
  ℕ, zero, suc, ◌+◌, ◌*◌, ◌≤◌, ◌<◌, Bytes, List, [], ◌∷◌, ◌++◌, Option, none, some, Bool, true,
  false, length, ◌≡◌, refl, ap, arith,
}
use google_cloud_storage.Base.Result.{Error, Result, ok, err}
use google_cloud_storage.Storage.{Attrs, Gcs}
use google_cloud_storage.Converter.Archive.{dst_object, obj_exists}
use google_cloud_storage.Server.{project_metadata_key}
use google_cloud_storage.ConvertAll.Workers.{
  Job, checking, reading, updating, Ending, Process, started, launched, check_turn, read_turn,
  update_turn, turn, Step, hands, works, exits, Run, here, next,
}
use google_cloud_storage.ConvertAll.Workers.Covers.{Run-length, length-started}

-- The turns that a worker has left at most.
abbrev job_left : Option Job → ℕ
job_left none = 0
job_left (some (checking obj)) = 3
job_left (some (reading obj)) = 2
job_left (some (updating obj source)) = 1

unfoldable jobs_left : List (Option Job) → ℕ
jobs_left [] = 0
jobs_left (w ∷ ws) = job_left w + jobs_left ws

abbrev main_left : Option Ending → ℕ
main_left none = 1
main_left (some e) = 0

-- The steps that a process has left at most: a name that was not sent yet stands for its handing
-- over and three turns.
abbrev left : {S : Type 0} → Process S → ℕ
left c = 4 * length c.unsent + jobs_left c.workers + main_left c.ended

jobs_left-middle :
    (w v : Option Job) (n : ℕ) (after before : List (Option Job))
    → job_left v + n ≤ job_left w
    → jobs_left (before ++ (v ∷ after)) + n ≤ jobs_left (before ++ (w ∷ after))
unfolding jobs_left
jobs_left-middle w v n after [] h = omega arith
jobs_left-middle w v n after (b ∷ before) h = omega (arith, jobs_left-middle w v n after before h)

jobs_left-taken :
    (obj : Bytes) (after before : List (Option Job))
    → jobs_left (before ++ (some (checking obj) ∷ after)) ≡ jobs_left (before ++ (none ∷ after)) + 3
unfolding jobs_left
jobs_left-taken obj after [] = omega arith
jobs_left-taken obj after (b ∷ before) = omega (arith, jobs_left-taken obj after before)

jobs_left-started : (w : ℕ) → jobs_left (started w) ≡ 0
unfolding jobs_left started
jobs_left-started zero = refl
jobs_left-started (suc w) = omega (arith, jobs_left-started w)

module _ (G : Gcs) (src dst : Bytes) where
  check_shorter :
      (obj : Bytes) (x : Result Bool) (s : G.State)
      → job_left (check_turn G src dst obj x s).job + 1 ≤ 3
  unfolding check_turn
  check_shorter obj (ok true) s = omega arith
  check_shorter obj (ok false) s = omega arith
  check_shorter obj (err e) s = omega arith

  read_shorter :
      (obj : Bytes) (x : Result Attrs) (s : G.State)
      → job_left (read_turn G src dst obj x s).job + 1 ≤ 2
  unfolding read_turn
  read_shorter obj (ok a) s = omega arith
  read_shorter obj (err e) s = omega arith

  update_shorter :
      (obj : Bytes) (x : G.State × Result (Unit {0}))
      → job_left (update_turn G src dst obj x).job + 1 ≤ 1
  unfolding update_turn
  update_shorter obj (s, ok u) = omega arith
  update_shorter obj (s, err e) = omega arith

  turn_shorter : (j : Job) (s : G.State) → job_left (turn G src dst j s).job + 1 ≤ job_left (some j)
  unfolding turn
  turn_shorter (checking obj) s = check_shorter obj (obj_exists G (dst_object obj) dst s) s
  turn_shorter (reading obj) s = read_shorter obj (G.attrs src obj s) s
  turn_shorter (updating obj source) s =
      update_shorter obj (G.set_metadata src obj project_metadata_key source s)

  module _ (listing_err : Option Error) where
    Step-left : (c d : Process G.State) → Step G src dst listing_err c d → left d + 1 ≤ left c
    Step-left c d (hands obj rest before after on un ws e) =
        rw (e, on, un, ws) (omega (arith, jobs_left-taken obj after before))
    Step-left c d (works j before after on ws e) =
        rw (e, on, ws)
          (omega (
            arith,
            jobs_left-middle (some j) (turn G src dst j c.store).job 1 after before
                (turn_shorter j c.store),
          ))
    Step-left c d (exits on un e) = rw (e, on, un) (omega arith)

    -- The steps of a run.
    unfoldable pub steps : {c d : Process G.State} → Run G src dst listing_err c d → ℕ
    steps here = 0
    steps (next run st) = suc (steps run)

    steps-left :
        (c d : Process G.State) (run : Run G src dst listing_err c d) → left d + steps run ≤ left c
    unfolding steps
    steps-left c d here = omega arith
    steps-left c d (next {d = m} run st) = omega (arith, steps-left c m run, Step-left m d st)

    goes_on :
        (c : Process G.State) (unsent : List Bytes) (workers : List (Option Job))
        → c.ended ≡ none
        → c.unsent ≡ unsent
        → c.workers ≡ workers
        → 0 < length workers
        → (d : Process G.State) × Step G src dst listing_err c d
    goes_on c unsent [] on un ws h = absurd (omega arith)
    goes_on c unsent (some j ∷ after) on un ws h = (_, works j [] after on ws refl)
    goes_on c [] (none ∷ after) on un ws h = (_, exits on un refl)
    goes_on c (obj ∷ rest) (none ∷ after) on un ws h = (_, hands obj rest [] after on un ws refl)

    -- With at least one worker, a run of `main` and its workers that has not come to the end of
    -- `main` goes on, in whatever order they have taken their turns, and it has had fewer steps
    -- than four for each name of the listing and one: so every run that goes on as long as it can
    -- ends, after no more steps than that.
    pub launched-ends :
        (listing : List Bytes) (w : ℕ) (s : G.State) (d : Process G.State)
        → 0 < w
        → d.ended ≡ none
        → (run : Run G src dst listing_err (launched listing w s) d)
        → (steps run < 4 * length listing + 1)
          × ((e : Process G.State) × Step G src dst listing_err d e)
    unfolding launched
    launched-ends listing w s d some_worker on run =
        let kept = Run-length G src dst listing_err (launched listing w s) d run in
        let bound = steps-left (launched listing w s) d run in
        let e = ap main_left on in
        (
          omega (arith, jobs_left-started w),
          goes_on d d.unsent d.workers on refl refl (omega (arith, length-started w)),
        )
