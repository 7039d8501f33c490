-- ===== src/Converter/Archive/Laws.antt =====
-- What `ProcessMRTArchive` of pkg/mrt_converter/mrt_converter.go does to the store.
use google_cloud_storage.Base.{
  Bytes, Option, none, some, ◌≡◌, ◌≢◌, ◌⊎◌, refl, Bool, true, false, ◌<◌,
}
use google_cloud_storage.Base.Result.{Error, Result, ok, err, wrap, object_not_exist}
use google_cloud_storage.Base.Run.{Run, returns, panic}
use google_cloud_storage.Storage.{Attrs, Gcs, IsLawful}
use google_cloud_storage.Converter.Interface.{Gobgp, Gzip}
use google_cloud_storage.Converter.Update.{Update}
use google_cloud_storage.Converter.Stream.{Stream}
use google_cloud_storage.Converter.Loop.{convert}
use google_cloud_storage.Converter.Loop.Total.{convert_total}
use google_cloud_storage.Converter.Archive.{
  Config, dst_object, obj_exists, read_archive, store_stage, convert_stage, exists_stage,
  process_mrt_archive,
}

module _ (G : Gcs) (B : Gobgp) (Z : Gzip) (json : Update B.Time → Result Bytes)
    (bzip2 : Bytes → Stream) (cfg : Config) (s : G.State) where
  abbrev pub dst : Bytes
  dst = dst_object cfg.src_object

  -- What processing an archive may do: leave the store alone, or write the destination object.
  pub data Effect (s' : G.State) (r : Result (Unit {0})) : Type 0 where
    unchanged : s' ≡ s → Effect s' r
    wrote : (out : Bytes) → s' ≡ (G.write cfg.dst_bucket dst out s).store → r ≡ ok tt → Effect s' r

  abbrev pub process : Option (Run (G.State × Result (Unit {0})))
  process = process_mrt_archive G B Z json bzip2 cfg s

  store_stage-Effect :
      (x : Option (Run Bytes)) (s' : G.State) (r : Result (Unit {0}))
      → store_stage G B Z json bzip2 cfg s x ≡ some (returns (s', r))
      → Effect s' r
  unfolding store_stage
  store_stage-Effect none s' r h = cc
  store_stage-Effect (some panic) s' r h = cc
  store_stage-Effect (some (returns out)) s' r h = wrote out (cc) (cc)

  convert_stage-Effect :
      (x : Run (Result (Bytes × Bytes))) (s' : G.State) (r : Result (Unit {0}))
      → convert_stage G B Z json bzip2 cfg s x ≡ some (returns (s', r))
      → Effect s' r
  unfolding convert_stage
  convert_stage-Effect panic s' r h = cc
  convert_stage-Effect (returns (err e)) s' r h = unchanged (cc)
  convert_stage-Effect (returns (ok (collector, content))) s' r h =
      store_stage-Effect (convert B Z json collector (bzip2 content)) s' r h

  exists_stage-Effect :
      (x : Result Bool) (s' : G.State) (r : Result (Unit {0}))
      → exists_stage G B Z json bzip2 cfg s x ≡ some (returns (s', r))
      → Effect s' r
  unfolding exists_stage
  exists_stage-Effect (err e) s' r h = unchanged (cc)
  exists_stage-Effect (ok true) s' r h = unchanged (cc)
  exists_stage-Effect (ok false) s' r h =
      convert_stage-Effect (read_archive G cfg.src_bucket cfg.src_object s) s' r h

  pub process-Effect :
      (s' : G.State) (r : Result (Unit {0})) → process ≡ some (returns (s', r)) → Effect s' r
  unfolding process_mrt_archive
  process-Effect s' r h = exists_stage-Effect (obj_exists G dst cfg.dst_bucket s) s' r h

  Effect-error : (s' : G.State) (e : Error) → Effect s' (err e) → s' ≡ s
  Effect-error s' e (unchanged h) = h
  Effect-error s' e (wrote out h r) = cc

  -- Where processing returns an error, the store is as it was.
  pub process_mrt_archive_error :
      (s' : G.State) (e : Error) → process ≡ some (returns (s', err e)) → s' ≡ s
  process_mrt_archive_error s' e h = Effect-error s' e (process-Effect s' (err e) h)

  module _ (md5 : Bytes → Bytes) (L : IsLawful md5 G) where
    Effect-ne :
        (s' : G.State) (r : Result (Unit {0})) (b o : Bytes)
        → (cfg.dst_bucket ≢ b) ⊎ (dst ≢ o)
        → Effect s' r
        → (G.read b o s' ≡ G.read b o s) × (G.attrs b o s' ≡ G.attrs b o s)
    Effect-ne s' r b o h (unchanged e) = rw e (refl, refl)
    Effect-ne s' r b o h (wrote out e _) =
        rw e (L.read-write_ne _ _ out b o s h, L.attrs-write_ne _ _ out b o s h)

    -- When processing an archive returns, with an error or without, every object but the converted
    -- one has the content and the attributes it had.
    pub process_mrt_archive_ne :
        (s' : G.State) (r : Result (Unit {0})) (b o : Bytes)
        → process ≡ some (returns (s', r))
        → (cfg.dst_bucket ≢ b) ⊎ (dst ≢ o)
        → (G.read b o s' ≡ G.read b o s) × (G.attrs b o s' ≡ G.attrs b o s)
    process_mrt_archive_ne s' r b o h ne = Effect-ne s' r b o ne (process-Effect s' r h)

  -- An archive that has been converted is skipped.
  pub process_mrt_archive_skips :
      (a : Attrs) → G.attrs cfg.dst_bucket dst s ≡ ok a → process ≡ some (returns (s, ok tt))
  unfolding process_mrt_archive
  process_mrt_archive_skips a found = rw found

  -- An archive that has not been converted, and can be read, is converted and written.
  pub process_mrt_archive_writes :
      (collector content out : Bytes)
      → G.attrs cfg.dst_bucket dst s ≡ err object_not_exist
      → read_archive G cfg.src_bucket cfg.src_object s ≡ returns (ok (collector, content))
      → convert B Z json collector (bzip2 content) ≡ some (returns out)
      → process ≡ some (returns ((G.write cfg.dst_bucket dst out s).store, ok tt))
  unfolding process_mrt_archive
  process_mrt_archive_writes collector content out fresh archive converted =
      rw (fresh, archive, converted)

  store_stage_total :
      (x : Run Bytes)
      → (r : Run (G.State × Result (Unit {0}))) × (store_stage G B Z json bzip2 cfg s (some x)
          ≡ some r)
  unfolding store_stage
  store_stage_total panic = (panic, refl)
  store_stage_total (returns out) =
      (returns ((G.write cfg.dst_bucket dst out s).store, ok tt), refl)

  module _ (pos : 0 < B.common_header_len) where
    convert_stage_total :
        (x : Run (Result (Bytes × Bytes)))
        → (r : Run (G.State × Result (Unit {0}))) × (convert_stage G B Z json bzip2 cfg s x
            ≡ some r)
    unfolding convert_stage
    convert_stage_total panic = (panic, refl)
    convert_stage_total (returns (err e)) = (returns (s, err (wrap "readArchive" e)), refl)
    convert_stage_total (returns (ok (collector, content))) =
        let (x, e) = convert_total B Z json collector (bzip2 content) pos in
        rw e (store_stage_total x)

    exists_stage_total :
        (x : Result Bool)
        → (r : Run (G.State × Result (Unit {0}))) × (exists_stage G B Z json bzip2 cfg s x ≡ some r)
    unfolding exists_stage
    exists_stage_total (err e) = (returns (s, err (wrap "ObjExists" e)), refl)
    exists_stage_total (ok true) = (returns (s, ok tt), refl)
    exists_stage_total (ok false) =
        convert_stage_total (read_archive G cfg.src_bucket cfg.src_object s)

    -- Where a header takes at least one byte, processing any archive ends: it returns, or panics.
    pub process_mrt_archive_total : (r : Run (G.State × Result (Unit {0}))) × (process ≡ some r)
    unfolding process_mrt_archive
    process_mrt_archive_total = exists_stage_total (obj_exists G dst cfg.dst_bucket s)
