-- ===== src/ConvertAll.antt =====
-- The workers of cmd/utils/convert_all/main.go, which trigger the conversion of every archive of a
-- bucket that has none.
pub mod Workers
use google_cloud_storage.Base.{
  Bytes, is_empty, List, [], ◌∷◌, Option, none, some, Bool, true, false, if◌then◌else◌, ◌≡◌, ◌≢◌,
  refl, ◌∙◌,
}
use google_cloud_storage.Base.Dict.{lookup, insert}
use google_cloud_storage.Base.Result.{Result, ok, err}
use google_cloud_storage.Proto.{Project, project_string}
use google_cloud_storage.Server.{project_metadata_key}
use google_cloud_storage.Storage.{Attrs, Gcs, IsLawful}
use google_cloud_storage.Converter.Archive.{dst_object, obj_exists}

-- `attrs.Metadata[converter.ProjectMetadataKey]`, or the default when that is empty.
unfoldable pub data_source_of : Option Bytes → Bytes
unfolding project_string is_empty
data_source_of none = project_string Project.routeviews
data_source_of (some p) = if is_empty p then project_string Project.routeviews else p

module _ (G : Gcs) (src dst : Bytes) where
  unfoldable pub metadata_stage : Bytes → Result Attrs → G.State → G.State
  unfolding data_source_of
  metadata_stage obj (err e) s = s
  metadata_stage obj (ok a) s =
      (G.set_metadata src obj project_metadata_key
        (data_source_of (lookup project_metadata_key a.metadata)) s).0

  unfoldable pub found_stage : Bytes → Result Bool → G.State → G.State
  unfolding metadata_stage
  found_stage obj (ok true) s = s
  found_stage obj (ok false) s = metadata_stage obj (G.attrs src obj s) s
  found_stage obj (err e) s = metadata_stage obj (G.attrs src obj s) s

  -- One job of a worker.
  unfoldable pub convert_job : Bytes → G.State → G.State
  unfolding found_stage
  convert_job obj s = found_stage obj (obj_exists G (dst_object obj) dst s) s

  -- The jobs, in the order in which the workers take them.
  unfoldable pub convert_jobs : List Bytes → G.State → G.State
  unfolding convert_job
  convert_jobs [] s = s
  convert_jobs (obj ∷ objs) s = convert_jobs objs (convert_job obj s)

  module _ (md5 : Bytes → Bytes) (L : IsLawful md5 G) where
    metadata_stage-read :
        (obj b o : Bytes) (r : Result Attrs) (s : G.State)
        → G.read b o (metadata_stage obj r s) ≡ G.read b o s
    unfolding metadata_stage
    metadata_stage-read obj b o (err e) s = refl
    metadata_stage-read obj b o (ok a) s = L.read-set_metadata src obj _ _ b o s

    found_stage-read :
        (obj b o : Bytes) (r : Result Bool) (s : G.State)
        → G.read b o (found_stage obj r s) ≡ G.read b o s
    unfolding found_stage
    found_stage-read obj b o (ok true) s = refl
    found_stage-read obj b o (ok false) s = metadata_stage-read obj b o (G.attrs src obj s) s
    found_stage-read obj b o (err e) s = metadata_stage-read obj b o (G.attrs src obj s) s

    -- The jobs change the content of no object of any bucket.
    pub convert_jobs-read :
        (objs : List Bytes) (b o : Bytes) (s : G.State)
        → G.read b o (convert_jobs objs s) ≡ G.read b o s
    unfolding convert_jobs convert_job
    convert_jobs-read [] b o s = refl
    convert_jobs-read (obj ∷ objs) b o s =
        convert_jobs-read objs b o (convert_job obj s)
        ∙ found_stage-read obj b o (obj_exists G (dst_object obj) dst s) s

    found_stage_marks :
        (obj : Bytes) (r : Result Bool) (s : G.State) (a : Attrs)
        → r ≢ ok true
        → G.attrs src obj s ≡ ok a
        → found_stage obj r s
          ≡ (G.set_metadata src obj project_metadata_key
              (data_source_of (lookup project_metadata_key a.metadata))
              s).0
    unfolding found_stage metadata_stage
    found_stage_marks obj (ok true) s a h e = absurd (h refl)
    found_stage_marks obj (ok false) s a h e = rw e refl
    found_stage_marks obj (err x) s a h e = rw e refl

    -- A job for an archive that is not known to be converted, and whose update the store accepts,
    -- leaves it with its own metadata, and as its project the one it had, or ROUTEVIEWS when it had
    -- none or an empty one.
    pub convert_job_marks :
        (obj : Bytes) (s : G.State) (a : Attrs)
        → obj_exists G (dst_object obj) dst s ≢ ok true
        → G.attrs src obj s ≡ ok a
        → (G.set_metadata src obj project_metadata_key
            (data_source_of (lookup project_metadata_key a.metadata))
            s).1
          ≡ ok tt
        → G.attrs src obj (convert_job obj s)
          ≡ ok (record a {
            metadata =
                insert project_metadata_key
                  (data_source_of (lookup project_metadata_key a.metadata))
                  a.metadata;
          })
    unfolding convert_job
    convert_job_marks obj s a new found accepted =
        rw (found_stage_marks obj (obj_exists G (dst_object obj) dst s) s a new found)
          (L.attrs-set_metadata src obj _ _ s a found accepted)
