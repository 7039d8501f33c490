-- ===== src/Converter/Archive.antt =====
-- `ObjExists`, `readArchive` and `ProcessMRTArchive` of pkg/mrt_converter/mrt_converter.go: the
-- conversion of one object of the archive bucket into an object of the destination bucket.
pub mod Laws
pub mod Names
use google_cloud_storage.Base.{
  Bytes, codes, same, List, [], ◌∷◌, Option, none, some, Bool, true, false, if◌then◌else◌,
}
use google_cloud_storage.Base.Dict.{lookup}
use google_cloud_storage.Base.Result.{Error, object_not_exist, errorf, wrap, Result, ok, err}
use google_cloud_storage.Base.Run.{Run, returns, panic}
use google_cloud_storage.Proto
use google_cloud_storage.Proto.{Project, project_string}
use google_cloud_storage.Server.{project_metadata_key}
use google_cloud_storage.Storage.{Attrs, Gcs}
use google_cloud_storage.Strings.Search.{replace_first}
use google_cloud_storage.Strings.FilePath.{extension}
use google_cloud_storage.Converter.Interface.{Gobgp, Gzip}
use google_cloud_storage.Converter.Collector.{collector_from_path}
use google_cloud_storage.Converter.Update.{Update}
use google_cloud_storage.Converter.Stream.{Stream}
use google_cloud_storage.Converter.Loop.{convert}

pub record Config : Type 0 where
  pub src_bucket : Bytes
  pub dst_bucket : Bytes
  pub src_object : Bytes

-- `strings.Replace(cfg.SrcObject, filepath.Ext(cfg.SrcObject), ".gz", 1)`
unfoldable pub dst_object : Bytes → Bytes
unfolding extension replace_first
dst_object src = replace_first src (extension src) (codes ".gz")

abbrev pub exists_of : Result Attrs → Result Bool
exists_of (ok a) = ok true
exists_of (err object_not_exist) = ok false
exists_of (err e) = err (wrap "cannot open gs://%s/%s" e)

module _ (G : Gcs) where
  unfoldable pub obj_exists : Bytes → Bytes → G.State → Result Bool
  obj_exists object bucket s = exists_of (G.attrs bucket object s)

  -- The collector of an object, by the project in its metadata. An unknown project has none.
  unfoldable pub collector_of_metadata : Bytes → Option Bytes → Run (Result Bytes)
  collector_of_metadata object none = returns (err (errorf "metadata '%s' is missing"))
  collector_of_metadata object (some project_type) =
      if same project_type (project_string Project.routeviews)
      then collector_from_path object
      else returns (ok [])

  -- The collector and the content of an object.
  unfoldable pub read_archive : Bytes → Bytes → G.State → Run (Result (Bytes × Bytes))
  unfolding collector_of_metadata
  read_archive bucket object s = elim (G.read bucket object s) [
    | err e ↦ returns (err (wrap "NewReader" e))
    | ok content ↦ elim (G.attrs bucket object s) [
      | err e ↦ returns (err (wrap "obj.Attrs" e))
      | ok a ↦ elim (collector_of_metadata object (lookup project_metadata_key a.metadata)) [
        | panic ↦ panic
        | returns (err e) ↦ returns (err e)
        | returns (ok collector) ↦ returns (ok (collector, content))
      ]
    ]
  ]

  module _ (B : Gobgp) (Z : Gzip) (json : Update B.Time → Result Bytes)
      (bzip2 : Bytes → Stream) where
    abbrev pub Outcome : Type 0
    Outcome = Option (Run (G.State × Result (Unit {0})))

    -- The results of `dst.Write` and `dst.Close` are dropped.
    unfoldable pub store_stage : Config → G.State → Option (Run Bytes) → Outcome
    store_stage cfg s none = none
    store_stage cfg s (some panic) = some panic
    store_stage cfg s (some (returns out)) =
        some (returns ((G.write cfg.dst_bucket (dst_object cfg.src_object) out s).store, ok tt))

    unfoldable pub convert_stage : Config → G.State → Run (Result (Bytes × Bytes)) → Outcome
    unfolding store_stage
    convert_stage cfg s panic = some panic
    convert_stage cfg s (returns (err e)) = some (returns (s, err (wrap "readArchive" e)))
    convert_stage cfg s (returns (ok (collector, content))) =
        store_stage cfg s (convert B Z json collector (bzip2 content))

    unfoldable pub exists_stage : Config → G.State → Result Bool → Outcome
    unfolding convert_stage
    exists_stage cfg s (err e) = some (returns (s, err (wrap "ObjExists" e)))
    exists_stage cfg s (ok true) = some (returns (s, ok tt))
    exists_stage cfg s (ok false) =
        convert_stage cfg s (read_archive cfg.src_bucket cfg.src_object s)

    -- `processMRTArchive`. `none` means that the conversion's fuel ran out.
    unfoldable pub process_mrt_archive : Config → G.State → Outcome
    unfolding exists_stage obj_exists
    process_mrt_archive cfg s =
        exists_stage cfg s (obj_exists (dst_object cfg.src_object) cfg.dst_bucket s)
