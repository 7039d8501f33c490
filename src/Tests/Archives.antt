-- ===== src/Tests/Archives.antt =====
-- The conversion of archives in a store, and of what was just uploaded.
use google_cloud_storage.Base.{
  ℕ, ◌+◌, ◌*◌, ◌≤◌, ◌<◌, Bytes, codes, [], ◌∷◌, ◌++◌, List, Option, none, some, Bool, true, false,
  ◌≡◌, ◌≢◌, ◌⊎◌, ◌↔◌, inl, inr, refl, sym, ap, arith, All, length, same, ◌&&◌, if◌then◌else◌, ◌^◌,
  ◌∙◌, same_iff,
}
use google_cloud_storage.Base.Result.{eof, object_not_exist, Result, ok, err}
use google_cloud_storage.Base.Run.{returns}
use google_cloud_storage.Strings.Split.{Lacks}
use google_cloud_storage.Strings.Search.{contains}
use google_cloud_storage.Proto
use google_cloud_storage.Proto.{Project, FileRequest}
use google_cloud_storage.Storage.{Gcs, Attrs}
use google_cloud_storage.Storage.Memory.{Memory, Object, memory, memory-IsLawful}
use google_cloud_storage.Server.{project_metadata_key, bucket_of, file_upload}
use google_cloud_storage.Converter.Update.{parse_update}
use google_cloud_storage.Converter.Stream.{Stream}
use google_cloud_storage.Converter.Loop.{convert, unsupported}
use google_cloud_storage.Converter.Collector.{collector_from_path}
use google_cloud_storage.Converter.Archive.{Config, dst_object, process_mrt_archive, obj_exists}
use google_cloud_storage.Converter.Archive.Laws.{process_mrt_archive_ne}
use google_cloud_storage.Base.Dict.{lookup, insert}
use google_cloud_storage.Server
use google_cloud_storage.Server.Upload.{bkt, written, reply, after}
use google_cloud_storage.Pipeline.{process-file_upload}
use google_cloud_storage.Tests.Conversions.{
  sum_of, store, parser, plain, plain_reliable, collector_line, frame, line, rendered,
  root_has_no_slash, has_bgpdata,
}

-- An archive in the store, and its conversion.
abbrev objects : Bytes → Bytes → Option Object
objects b o =
    if same b (codes "archive") && same o (codes "rv3/bgpdata/u.bz2")
    then some (record {
      content = 16 ∷ 1 ∷ 9 ∷ [];
      metadata = (project_metadata_key, codes "ROUTEVIEWS") ∷ [];
    })
    else none

abbrev pub start : Memory
start = record { buckets = codes "archive" ∷ codes "bq" ∷ []; object = objects; full = false }

abbrev pub unzipped : Bytes → Stream
unzipped c = record { rest = c; ending = eof }

abbrev config : Config
config = record {
  src_bucket = codes "archive";
  dst_bucket = codes "bq";
  src_object = codes "rv3/bgpdata/u.bz2";
}

abbrev finish : Memory
finish = (store.write (codes "bq") (codes "rv3/bgpdata/u.gz") line start).store

processed :
    process_mrt_archive store parser plain collector_line unzipped config start
    ≡ some (returns (finish, ok tt))
unfolding process_mrt_archive same google_cloud_storage.Converter.Archive.read_archive lookup
    Proto.project_string collector_from_path google_cloud_storage.Base.is_empty contains
    google_cloud_storage.Strings.Search.has_prefix google_cloud_storage.Strings.Split.split convert
    google_cloud_storage.Converter.Loop.convert_loop
    google_cloud_storage.Converter.Loop.convert_next google_cloud_storage.Converter.Stream.read_full
    unsupported parse_update dst_object
processed = refl

other_bucket : ◌≢◌ {A = Bytes} (codes "bq") (codes "b")
other_bucket h = absurd (cc)

process_mrt_archive_ne_example :
    (store.read (codes "b") (codes "x") finish ≡ store.read (codes "b") (codes "x") start)
    × (store.attrs (codes "b") (codes "x") finish ≡ store.attrs (codes "b") (codes "x") start)
process_mrt_archive_ne_example =
    process_mrt_archive_ne store parser plain collector_line unzipped config start sum_of
      (memory-IsLawful sum_of) finish (ok tt) (codes "b") (codes "x") processed (inl other_bucket)

no_object : obj_exists store (dst_object (codes "rv3/bgpdata/u.bz2")) (codes "bq") start ≡ ok false
unfolding obj_exists same
no_object = refl

pub not_converted :
    obj_exists store (dst_object (codes "rv3/bgpdata/u.bz2")) (codes "bq") start ≢ ok true
not_converted h =
    let clash : ◌≡◌ {A = Result Bool} (ok false) (ok true) = sym no_object ∙ h in absurd (cc)

abbrev pub marks : Attrs
marks = record { md5 = 1 ∷ []; metadata = (project_metadata_key, codes "ROUTEVIEWS") ∷ [] }

pub found : store.attrs (codes "archive") (codes "rv3/bgpdata/u.bz2") start ≡ ok marks
unfolding same
found = refl

-- An upload, and the conversion that it asks for.
abbrev conf : Server.Config
conf = record { buckets = (codes "ROUTEVIEWS", codes "archive") ∷ [] }

abbrev upload : FileRequest
upload = record {
  filename = codes "rv3/bgpdata/u.bz2";
  md5sum = codes "01";
  content = 16 ∷ 1 ∷ 9 ∷ [];
  convert_sql = false;
  project = Project.routeviews;
}

abbrev no_objects : Memory
no_objects = record {
  buckets = codes "archive" ∷ codes "bq" ∷ [];
  object = λ b o. none;
  full = false;
}

abbrev uploaded : Memory
uploaded = after store conf sum_of upload no_objects

abbrev converting : Config
converting = record {
  src_bucket = bkt store conf sum_of upload no_objects;
  dst_bucket = codes "bq";
  src_object = codes "rv3/bgpdata/u.bz2";
}

abbrev finished : Memory
finished = (store.write (codes "bq") (dst_object (codes "rv3/bgpdata/u.bz2")) line uploaded).store

upload_accepted : (reply store conf sum_of upload no_objects).error ≡ none
unfolding file_upload Server.base_unmet google_cloud_storage.Base.is_empty Server.is_unknown same
    google_cloud_storage.Strings.Hex.hex_encode Server.handle_data_file
    google_cloud_storage.Base.Dict.has Proto.project_string
    google_cloud_storage.Storage.Memory.member bucket_of lookup
upload_accepted = refl

upload_taken : (written store conf sum_of upload no_objects).closed ≡ ok tt
unfolding bucket_of google_cloud_storage.Storage.Memory.member same lookup Proto.project_string
upload_taken = refl

pub not_bgpdata : ◌≢◌ {A = Bytes} (codes "rv3") (codes "bgpdata")
unfolding same
not_bgpdata h = differ refl
  where
    differ : same (codes "rv3") (codes "bgpdata") ≡ false → ⊥
    differ e = let d = (same_iff (codes "rv3") (codes "bgpdata")).1 h in absurd (cc)

not_there :
    store.attrs (codes "bq") (dst_object (codes "rv3/bgpdata/u.bz2")) uploaded
    ≡ err object_not_exist
unfolding file_upload Server.base_unmet google_cloud_storage.Base.is_empty Server.is_unknown same
    google_cloud_storage.Strings.Hex.hex_encode Server.handle_data_file
    google_cloud_storage.Base.Dict.has Proto.project_string
    google_cloud_storage.Storage.Memory.member bucket_of lookup
not_there = refl

conversion_taken :
    (store.write (codes "bq") (dst_object (codes "rv3/bgpdata/u.bz2")) line uploaded).closed ≡ ok tt
unfolding file_upload google_cloud_storage.Storage.Memory.member Server.base_unmet
    google_cloud_storage.Base.is_empty Server.is_unknown same
    google_cloud_storage.Strings.Hex.hex_encode Server.handle_data_file
    google_cloud_storage.Base.Dict.has Proto.project_string bucket_of lookup
conversion_taken = refl

process-file_upload_example :
    (process_mrt_archive store parser plain collector_line unzipped converting uploaded
      ≡ some (returns (finished, ok tt)))
    × (store.read (codes "bq") (dst_object (codes "rv3/bgpdata/u.bz2")) finished ≡ ok line)
    × (process_mrt_archive store parser plain collector_line unzipped converting finished
        ≡ some (returns (finished, ok tt)))
process-file_upload_example =
    process-file_upload store sum_of (memory-IsLawful sum_of) conf upload no_objects parser plain
      collector_line unzipped (codes "bq") plain_reliable (codes "rv3") (codes "bgpdata/u.bz2")
      ((frame, line) ∷ []) [] eof upload_accepted upload_taken refl refl root_has_no_slash
      (λ h. absurd (cc)) not_bgpdata has_bgpdata refl (omega arith) (rendered, tt) not_there refl
      conversion_taken
