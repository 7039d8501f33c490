-- ===== src/Pipeline.antt =====
-- From an upload to its conversion: cmd/archive_upload_server/server.go stores an archive, and
-- pkg/mrt_converter/mrt_converter.go converts what was stored.
pub mod Backfill
use google_cloud_storage.Base.{
  Bytes, codes, same_refl, List, [], ◌∷◌, ◌++◌, Option, none, some, ◌≡◌, ◌≢◌, true, ◌<◌, length,
}
use google_cloud_storage.Base.Dict.{lookup}
use google_cloud_storage.Base.Result.{Error, Result, ok, err, object_not_exist}
use google_cloud_storage.Base.Run.{Run, returns}
use google_cloud_storage.Proto.{Project, project_string, FileRequest}
use google_cloud_storage.Storage.{Attrs, Written, Gcs, IsLawful}
use google_cloud_storage.Strings.Split.{Lacks}
use google_cloud_storage.Strings.Search.{contains}
use google_cloud_storage.Server
use google_cloud_storage.Server.{project_metadata_key}
use google_cloud_storage.Server.Upload.{bkt, written, reply, after, read-file_upload}
use google_cloud_storage.Converter.Interface.{Gobgp, Gzip, IsReliable}
use google_cloud_storage.Converter.Collector.{collector_from_path, collector_from_path_root}
use google_cloud_storage.Converter.Update.{Update}
use google_cloud_storage.Converter.Stream.{Stream}
use google_cloud_storage.Converter.Loop.Frames.{Frame, raw, lines, AllRender}
use google_cloud_storage.Converter.Loop.Frames.Whole.{convert_renders}
use google_cloud_storage.Converter.Archive.{Config, dst_object, read_archive, process_mrt_archive}
use google_cloud_storage.Converter.Archive.Laws.{
  process_mrt_archive_writes, process_mrt_archive_skips,
}

module _ (G : Gcs) (md5 : Bytes → Bytes) (L : IsLawful md5 G) where
  pub read_archive_lem :
      (b o content collector : Bytes) (a : Attrs) (s : G.State)
      → G.read b o s ≡ ok content
      → G.attrs b o s ≡ ok a
      → lookup project_metadata_key a.metadata ≡ some (project_string Project.routeviews)
      → collector_from_path o ≡ returns (ok collector)
      → read_archive G b o s ≡ returns (ok (collector, content))
  unfolding read_archive
  read_archive_lem b o content collector a s r at key path =
      rw (r, at, key, same_refl (project_string Project.routeviews), path, read_archive)

  module _ (conf : Server.Config) (req : FileRequest) (s : G.State) where
    -- An uploaded RouteViews archive is read back with its collector and content.
    pub read_archive-file_upload :
        (collector : Bytes)
        → (reply G conf md5 req s).error ≡ none
        → (written G conf md5 req s).closed ≡ ok tt
        → req.project ≡ Project.routeviews
        → collector_from_path req.filename ≡ returns (ok collector)
        → read_archive G (bkt G conf md5 req s) req.filename (after G conf md5 req s)
          ≡ returns (ok (collector, req.content))
    unfolding lookup
    read_archive-file_upload collector accepted took rv path =
        let (r, at) = read-file_upload G conf md5 req s L accepted took in
        read_archive_lem (bkt G conf md5 req s) req.filename req.content collector _
          (after G conf md5 req s) r at (rw (same_refl project_metadata_key, rv)) path

    module _ (B : Gobgp) (Z : Gzip) (json : Update B.Time → Result Bytes) (bzip2 : Bytes → Stream)
        (dst_bucket : Bytes) where
      -- The conversion that the upload's metadata update asks for.
      abbrev request : Config
      request = record {
        src_bucket = bkt G conf md5 req s;
        dst_bucket = dst_bucket;
        src_object = req.filename;
      }

      abbrev process : G.State → Option (Run (G.State × Result (Unit {0})))
      process = process_mrt_archive G B Z json bzip2 request

      -- What the writer of `out` leaves in the store after the upload.
      abbrev converted : Bytes → Written G.State
      converted out = G.write dst_bucket (dst_object req.filename) out (after G conf md5 req s)

      -- A RouteViews archive that was uploaded without error, whose content the store took on
      -- closing, and that is not converted yet. Its name is a first folder, which is neither empty
      -- nor "bgpdata", and a path in which "bgpdata" stands (so the archives that lie under
      -- "bgpdata" itself are not meant). It decompresses to whole MRT messages, each of which is
      -- skipped, fails to parse, or parses to an update that is encoded (so none panics), and then
      -- less than a header. When the store takes the converted object on writing and on closing:
      -- the archive is converted under the name of its first folder, the destination object holds
      -- the compressed lines of those messages, and processing the archive again changes nothing.
      pub process-file_upload :
          (R : IsReliable Z) (root rest : Bytes) (ps : List (Frame × Bytes)) (t : Bytes) (e : Error)
          → (reply G conf md5 req s).error ≡ none
          → (written G conf md5 req s).closed ≡ ok tt
          → req.project ≡ Project.routeviews
          → req.filename ≡ root ++ (b'/' ∷ rest)
          → Lacks b'/' root
          → root ≢ []
          → root ≢ codes "bgpdata"
          → contains rest (codes "bgpdata") ≡ true
          → bzip2 req.content ≡ record { rest = raw ps ++ t; ending = e }
          → length t < B.common_header_len
          → AllRender B json root ps
          → G.attrs dst_bucket (dst_object req.filename) (after G conf md5 req s)
            ≡ err object_not_exist
          → (converted (R.compress (lines ps))).copied ≡ ok tt
          → (converted (R.compress (lines ps))).closed ≡ ok tt
          → (process (after G conf md5 req s)
              ≡ some (returns ((converted (R.compress (lines ps))).store, ok tt)))
            × (G.read dst_bucket (dst_object req.filename) (converted (R.compress (lines ps))).store
                ≡ ok (R.compress (lines ps)))
            × (process (converted (R.compress (lines ps))).store
                ≡ some (returns ((converted (R.compress (lines ps))).store, ok tt)))
      process-file_upload R root rest ps t e accepted took rv name slash filled differs rib content
            short all fresh copied closed =
          (
            process_mrt_archive_writes G B Z json bzip2 request (after G conf md5 req s) root
                req.content (R.compress (lines ps)) fresh
                (read_archive-file_upload root accepted took rv
                  (rw name (collector_from_path_root root rest slash filled rib differs)))
                (rw content (convert_renders B Z R json root ps t e all short)),
            L.read-write dst_bucket _ _ _ copied closed,
            process_mrt_archive_skips G B Z json bzip2 request _ _
                (L.attrs-write dst_bucket _ _ _ copied closed),
          )
