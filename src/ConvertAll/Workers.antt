-- ===== src/ConvertAll/Workers.antt =====
-- The goroutines of cmd/utils/convert_all/main.go: `main`, which lists the bucket and hands the
-- names over a channel without buffer, and the workers of `newConMgr`. Between two turns of a worker
-- lies one call to the store, so that the turns of the workers interleave as the calls do.
pub mod Alike
pub mod Keeps
pub mod Covers
pub mod Marks
pub mod Ends
use google_cloud_storage.Base.{
  ℕ, zero, suc, Bytes, List, [], ◌∷◌, ◌++◌, Option, none, some, Bool, true, false, ◌≡◌, refl,
}
use google_cloud_storage.Base.Dict.{lookup}
use google_cloud_storage.Base.Result.{Error, Result, ok, err}
use google_cloud_storage.Server.{project_metadata_key}
use google_cloud_storage.Storage.{Attrs, Gcs}
use google_cloud_storage.Converter.Archive.{dst_object, obj_exists}
use google_cloud_storage.ConvertAll.{data_source_of, convert_job, found_stage, metadata_stage}

-- A worker's job, by the call that comes next: `ObjExists`, `Attrs`, or `Update` with the data
-- source that it sets.
pub data Job : Type 0 where
  checking : Bytes → Job
  reading : Bytes → Job
  updating : Bytes → Bytes → Job

-- What a turn leaves: the job, unless it is over, the store, and the objects whose metadata it
-- updated, of which the bucket sends a notification.
pub record Turn (S : Type 0) : Type 0 where
  pub job : Option Job
  pub store : S
  pub notified : List Bytes

-- How `main` ends.
pub data Ending : Type 0 where
  returned : Ending
  fatal : Ending

pub record Process (S : Type 0) : Type 0 where
  -- The names of the listing that `main` has yet to send.
  pub unsent : List Bytes
  -- A worker without a job waits on the channel.
  pub workers : List (Option Job)
  pub store : S
  -- The notifications of the bucket, the last first.
  pub notified : List Bytes
  pub ended : Option Ending

-- `newConMgr` starts `w` workers.
unfoldable pub started : ℕ → List (Option Job)
started zero = []
started (suc w) = none ∷ started w

unfoldable pub launched : {S : Type 0} → List Bytes → ℕ → S → Process S
unfolding started
launched listing w s = record {
  unsent = listing;
  workers = started w;
  store = s;
  notified = [];
  ended = none;
}

-- `it.Next()` at the end of the listing: `iterator.Done`, or an error.
unfoldable pub end_of_listing : Option Error → Ending
end_of_listing none = returned
end_of_listing (some e) = fatal

module _ (G : Gcs) (src dst : Bytes) where
  unfoldable pub check_turn : Bytes → Result Bool → G.State → Turn G.State
  check_turn obj (ok true) s = record { job = none; store = s; notified = [] }
  check_turn obj (ok false) s = record { job = some (reading obj); store = s; notified = [] }
  check_turn obj (err e) s = record { job = some (reading obj); store = s; notified = [] }

  unfoldable pub read_turn : Bytes → Result Attrs → G.State → Turn G.State
  read_turn obj (err e) s = record { job = none; store = s; notified = [] }
  read_turn obj (ok a) s = record {
    job = some (updating obj (data_source_of (lookup project_metadata_key a.metadata)));
    store = s;
    notified = [];
  }

  unfoldable pub update_turn : Bytes → G.State × Result (Unit {0}) → Turn G.State
  update_turn obj (s, err e) = record { job = none; store = s; notified = [] }
  update_turn obj (s, ok u) = record { job = none; store = s; notified = obj ∷ [] }

  unfoldable pub turn : Job → G.State → Turn G.State
  unfolding check_turn read_turn update_turn
  turn (checking obj) s = check_turn obj (obj_exists G (dst_object obj) dst s) s
  turn (reading obj) s = read_turn obj (G.attrs src obj s) s
  turn (updating obj source) s =
      update_turn obj (G.set_metadata src obj project_metadata_key source s)

  -- The turns of one worker while the others wait.
  unfoldable pub turns : ℕ → Option Job → G.State → Option Job × G.State
  unfolding turn
  turns n none s = (none, s)
  turns zero (some j) s = (some j, s)
  turns (suc n) (some j) s = let t = turn j s in turns n t.job t.store

  module _ (listing_err : Option Error) where
    pub data Step (c d : Process G.State) : Type 0 where
      -- `mgr.ConJobs <- attrs.Name`, which waits for a worker.
      hands :
          (obj : Bytes) (rest : List Bytes) (before after : List (Option Job))
          → c.ended ≡ none
          → c.unsent ≡ obj ∷ rest
          → c.workers ≡ before ++ (none ∷ after)
          → d ≡ record c { unsent = rest; workers = before ++ (some (checking obj) ∷ after) }
          → Step c d
      -- A worker's turn.
      works :
          (j : Job) (before after : List (Option Job))
          → c.ended ≡ none
          → c.workers ≡ before ++ (some j ∷ after)
          → d ≡ record c {
            workers = before ++ ((turn j c.store).job ∷ after);
            store = (turn j c.store).store;
            notified = (turn j c.store).notified ++ c.notified;
          }
          → Step c d
      -- `main` is at the end of the listing, which ends the process whatever the workers do.
      exits :
          c.ended ≡ none
          → c.unsent ≡ []
          → d ≡ record c { ended = some (end_of_listing listing_err) }
          → Step c d

    -- The runs from a state.
    pub data Run (c : Process G.State) : Process G.State → Type 0 where
      here : Run c c
      next : {d e : Process G.State} → Run c d → Step d e → Run c e

  update_alone :
      (obj : Bytes) (x : G.State × Result (Unit {0}))
      → (let t = update_turn obj x in turns 0 t.job t.store) ≡ (none, x.0)
  unfolding turns update_turn
  update_alone obj (s, err e) = refl
  update_alone obj (s, ok u) = refl

  -- A worker whose turns no other interrupts has done its job after three of them, and left the
  -- store as the sequential job does.
  pub turns-convert_job :
      (obj : Bytes) (s : G.State)
      → turns 3 (some (checking obj)) s ≡ (none, convert_job G src dst obj s)
  unfolding turns turn convert_job found_stage metadata_stage check_turn read_turn
  turns-convert_job obj s = checked (obj_exists G (dst_object obj) dst s)
    where
      attributes :
          (x : Result Attrs)
          → (let t = read_turn obj x s in turns 1 t.job t.store)
            ≡ (none, metadata_stage G src dst obj x s)
      attributes (err e) = refl
      attributes (ok a) = update_alone obj (
          G.set_metadata src obj project_metadata_key
            (data_source_of (lookup project_metadata_key a.metadata)) s)

      checked :
          (x : Result Bool)
          → (let t = check_turn obj x s in turns 2 t.job t.store)
            ≡ (none, found_stage G src dst obj x s)
      checked (ok true) = refl
      checked (ok false) = attributes (G.attrs src obj s)
      checked (err e) = attributes (G.attrs src obj s)
