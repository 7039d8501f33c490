-- ===== src/Pipeline/Backfill.antt =====
-- The conversion of a whole bucket: the updates that cmd/utils/convert_all/main.go makes are
-- notified to cmd/converter/main.go, which converts the archives.
use google_cloud_storage.Base.{
  Bytes, codes, same_refl, List, [], ◌∷◌, ◌++◌, Option, some, true, length, ◌≡◌, ◌≢◌, ◌<◌, ◌∙◌, ap,
  refl, ℕ, All-Memᴰ,
}
use google_cloud_storage.Base.Result.{Error, Result, ok, err, object_not_exist}
use google_cloud_storage.Base.Run.{returns}
use google_cloud_storage.Proto.{Project, project_string}
use google_cloud_storage.Storage.{Attrs, Written, Gcs, IsLawful}
use google_cloud_storage.Strings.Split.{Lacks}
use google_cloud_storage.Strings.Search.{contains}
use google_cloud_storage.Converter.Interface.{Gobgp, Gzip, IsReliable}
use google_cloud_storage.Converter.Collector.{collector_from_path_root}
use google_cloud_storage.Converter.Update.{Update}
use google_cloud_storage.Converter.Stream.{Stream}
use google_cloud_storage.Converter.Loop.Frames.{Frame, raw, lines, AllRender}
use google_cloud_storage.Converter.Loop.Frames.Whole.{convert_renders}
use google_cloud_storage.Converter.Archive.{Config, dst_object, process_mrt_archive}
use google_cloud_storage.Converter.Archive.Laws.{process_mrt_archive_writes}
use google_cloud_storage.ConverterServer.{
  Event, silent, is_metadata_update, archive_upload_handler, answer, event_stage,
}
use google_cloud_storage.ConvertAll.Workers.{Process, launched, Run}
use google_cloud_storage.ConvertAll.Workers.Alike.{project}
use google_cloud_storage.ConvertAll.Workers.Keeps.{launched-Keeps}
use google_cloud_storage.ConvertAll.Workers.Marks.{IsMarked, launched-marks}
use google_cloud_storage.Pipeline.{read_archive_lem}
use mathlib.Core.List.{Memᴰ}

module _ (G : Gcs) (md5 : Bytes → Bytes) (L : IsLawful md5 G) (B : Gobgp) (Z : Gzip)
    (R : IsReliable Z) (json : Update B.Time → Result Bytes) (bzip2 : Bytes → Stream)
    (unmarshal : Bytes → Result Event) (src dst : Bytes) where
  -- The conversion that the notification of an update of `obj` asks for.
  abbrev request : Bytes → Config
  request obj = record { src_bucket = src; dst_bucket = dst; src_object = obj }

  handler_converts :
      (s s' : G.State) (body : Bytes) (ev : Event) (obj : Bytes)
      → unmarshal body ≡ ok ev
      → ev.event_type ≡ codes "OBJECT_METADATA_UPDATE"
      → ev.bucket ≡ src
      → ev.object ≡ obj
      → process_mrt_archive G B Z json bzip2 (request obj) s ≡ some (returns (s', ok tt))
      → archive_upload_handler G B Z json bzip2 unmarshal dst (ok body) s
        ≡ some (returns (s', silent))
  unfolding archive_upload_handler event_stage is_metadata_update answer
  handler_converts s s' body ev obj parsed kind b o p =
      rw (parsed, kind, same_refl (codes "OBJECT_METADATA_UPDATE"), b, o, p) refl

  -- What the conversion's writer leaves in the store.
  abbrev written : Process G.State → Bytes → Bytes → Written G.State
  written d obj out = G.write dst (dst_object obj) out d.store

  -- When the goroutines of a whole bucket's conversion have taken their turns up to some state, in
  -- whatever order; the bucket has notified the update of an archive, which at the start was one of
  -- RouteViews by its metadata or for want of a project there; its name is a first folder, which is
  -- neither empty nor "bgpdata", and a path in which "bgpdata" stands (so the archives that lie
  -- under "bgpdata" itself are not meant); it decompresses to whole MRT messages, each of which is
  -- skipped, fails to parse, or parses to an update that is encoded (so none panics), and then less
  -- than a header; it has no converted archive yet; and the store takes on closing the one that is
  -- written: then the conversion server answers the notification without error, and the
  -- destination object holds the compressed lines of those messages.
  pub launched-converts :
      (listing : List Bytes) (w : ℕ) (listing_err : Option Error) (s : G.State)
      (d : Process G.State)
      → Run G src dst listing_err (launched listing w s) d
      → (root rest content : Bytes) (a : Attrs) (ps : List (Frame × Bytes)) (t : Bytes) (e : Error)
        (body : Bytes) (ev : Event)
      → Memᴰ (root ++ (b'/' ∷ rest)) d.notified
      → G.attrs src (root ++ (b'/' ∷ rest)) s ≡ ok a
      → project a ≡ project_string Project.routeviews
      → G.read src (root ++ (b'/' ∷ rest)) s ≡ ok content
      → Lacks b'/' root
      → root ≢ []
      → root ≢ codes "bgpdata"
      → contains rest (codes "bgpdata") ≡ true
      → bzip2 content ≡ record { rest = raw ps ++ t; ending = e }
      → length t < B.common_header_len
      → AllRender B json root ps
      → G.attrs dst (dst_object (root ++ (b'/' ∷ rest))) d.store ≡ err object_not_exist
      → unmarshal body ≡ ok ev
      → ev.event_type ≡ codes "OBJECT_METADATA_UPDATE"
      → ev.bucket ≡ src
      → ev.object ≡ root ++ (b'/' ∷ rest)
      → (written d (root ++ (b'/' ∷ rest)) (R.compress (lines ps))).closed ≡ ok tt
      → (archive_upload_handler G B Z json bzip2 unmarshal dst (ok body) d.store
          ≡ some
              (returns ((written d (root ++ (b'/' ∷ rest)) (R.compress (lines ps))).store, silent)))
        × (G.read dst
              (dst_object (root ++ (b'/' ∷ rest)))
              (written d (root ++ (b'/' ∷ rest)) (R.compress (lines ps))).store
            ≡ ok (R.compress (lines ps)))
  launched-converts listing w listing_err s d run root rest content a ps t e body ev told there rv
        held slash filled differs rib unzips short all fresh parsed kind b o closed =
      let obj = root ++ (b'/' ∷ rest) in
      let kept = launched-Keeps G md5 L src dst listing w listing_err s d run in
      let (m, at, key) =
        All-Memᴰ (IsMarked G src s d.store) d.notified obj
          (launched-marks G md5 L src dst listing w listing_err s d run) told a there in
      (
        handler_converts d.store _ body ev obj parsed kind b o (
            process_mrt_archive_writes G B Z json bzip2 (request obj) d.store root content
              (R.compress (lines ps)) fresh
              (read_archive_lem G md5 L src obj content root m d.store
                (kept.contents src obj ∙ held) at (key ∙ ap (λ v. some v) rv)
                (collector_from_path_root root rest slash filled rib differs))
              (rw unzips (convert_renders B Z R json root ps t e all short))),
        L.read-write dst _ _ _ (L.copied_of_closed dst _ _ _ closed) closed,
      )
