-- ===== src/Tests/Workers.antt =====
-- The conversion of a whole bucket by one worker, and the conversion that its update asks for.
use google_cloud_storage.Base.{
  Bytes, codes, List, [], ◌∷◌, Option, none, some, same, ◌≡◌, ◌≢◌, ◌≤◌, refl, arith, sym, length,
  ◌*◌, ◌+◌, ◌<◌,
}
use google_cloud_storage.Base.Dict.{lookup}
use google_cloud_storage.Base.Result.{Result, ok, err, eof, object_not_exist}
use google_cloud_storage.Base.Run.{returns}
use google_cloud_storage.Storage.{Attrs}
use google_cloud_storage.Storage.Memory.{
  Memory, memory-IsLawful, member, attrs_of, existing, Object, memory_of-IsLawful, unlimited,
}
use google_cloud_storage.Proto.{project_string}
use google_cloud_storage.Converter.Archive.{dst_object, obj_exists}
use google_cloud_storage.ConverterServer.{Event, archive_upload_handler, silent}
use google_cloud_storage.ConverterServer.Repeat.{archive_upload_handler_idem}
use google_cloud_storage.Tests.Deployments
use google_cloud_storage.ConvertAll.{data_source_of}
use google_cloud_storage.ConvertAll.Workers.{
  checking, reading, updating, Process, launched, turn, Step, hands, works, Run, here, next,
  returned, exits,
}
use google_cloud_storage.ConvertAll.Workers.Keeps.{Kept, launched-Keeps}
use google_cloud_storage.ConvertAll.Workers.Covers.{Spot, held, Accepts, launched-Covers}
use google_cloud_storage.ConvertAll.Workers.Ends.{steps, launched-ends}
use google_cloud_storage.Pipeline.Backfill.{launched-converts}
use google_cloud_storage.Tests.Conversions.{
  sum_of, store, parser, plain, plain_reliable, collector_line, frame, line, rendered,
  root_has_no_slash, has_bgpdata,
}
use google_cloud_storage.Tests.Archives.{start, not_bgpdata, marks, found, unzipped, not_converted}
use mathlib.Core.List.Memᴰ
use google_cloud_storage.ConvertAll.Workers.Alike.{project}

abbrev archive : Bytes
archive = codes "rv3/bgpdata/u.bz2"

abbrev origin : Process Memory
origin = record {
  unsent = archive ∷ [];
  workers = none ∷ [];
  store = start;
  notified = [];
  ended = none;
}

abbrev taken : Process Memory
taken = record origin { unsent = []; workers = some (checking archive) ∷ [] }

abbrev checked : Process Memory
checked = record taken { workers = some (reading archive) ∷ [] }

abbrev read : Process Memory
read = record taken { workers = some (updating archive (codes "ROUTEVIEWS")) ∷ [] }

abbrev done : Process Memory
done = record taken {
  workers = none ∷ [];
  store =
      (store.set_metadata (codes "archive") archive (codes "routingDataProject")
        (codes "ROUTEVIEWS") start).0;
  notified = archive ∷ [];
}

run : Run store (codes "archive") (codes "bq") none (launched (archive ∷ []) 1 start) done
unfolding launched google_cloud_storage.ConvertAll.Workers.started turn obj_exists same
    google_cloud_storage.ConvertAll.Workers.check_turn lookup data_source_of
    google_cloud_storage.ConvertAll.Workers.read_turn google_cloud_storage.Base.is_empty
    google_cloud_storage.ConvertAll.Workers.update_turn project_string dst_object
run =
    next {d = read}
      (next {d = checked}
        (next {d = taken} (next {d = origin} here (hands archive [] [] [] refl refl refl refl))
          (works (checking archive) [] [] refl refl refl))
        (works (reading archive) [] [] refl refl refl))
      (works (updating archive (codes "ROUTEVIEWS")) [] [] refl refl refl)

launched-Keeps_example : Kept store (codes "archive") start done.store
launched-Keeps_example =
    launched-Keeps store sum_of (memory-IsLawful sum_of) (codes "archive") (codes "bq")
      (archive ∷ []) 1 none start done run

buckets_differ : ◌≢◌ {A = Bytes} (codes "archive") (codes "bq")
buckets_differ h = absurd (cc)

existing_of_attrs : (x : Option Object) (a : Attrs) → attrs_of sum_of x ≡ ok a → existing x ≡ ok tt
existing_of_attrs none a h = absurd (cc)
existing_of_attrs (some o) a h = refl

takes : Accepts store (codes "archive")
takes o v s a h = existing_of_attrs (s.object (codes "archive") o) a h

launched-Covers_example : Spot archive done × (length (held done.workers) ≤ 1)
launched-Covers_example =
    launched-Covers store sum_of (memory-IsLawful sum_of) (codes "archive") (codes "bq")
      buckets_differ takes (archive ∷ []) 1 none start done archive marks (Memᴰ.head refl) found
      not_converted run

abbrev event : Event
event = record {
  bucket = codes "archive";
  object = archive;
  event_type = codes "OBJECT_METADATA_UPDATE";
  message_id = [];
  subscription = [];
}

abbrev decode : Bytes → Result Event
decode body = ok event

abbrev converted : Memory
converted = (store.write (codes "bq") (dst_object archive) line done.store).store

stands_for : project marks ≡ codes "ROUTEVIEWS"
unfolding lookup same
stands_for = refl

stored : store.read (codes "archive") archive start ≡ ok (16 ∷ 1 ∷ 9 ∷ [])
unfolding same
stored = refl

missing : store.attrs (codes "bq") (dst_object archive) done.store ≡ err object_not_exist
unfolding same
missing = refl

accepted : (store.write (codes "bq") (dst_object archive) line done.store).closed ≡ ok tt
unfolding member same
accepted = refl

launched-converts_example :
    (archive_upload_handler store parser plain collector_line unzipped decode
        (codes "bq")
        (ok [])
        done.store
      ≡ some (returns (converted, silent)))
    × (store.read (codes "bq") (dst_object archive) converted ≡ ok line)
unfolding project_string
launched-converts_example =
    launched-converts store sum_of (memory-IsLawful sum_of) parser plain plain_reliable
      collector_line unzipped decode (codes "archive") (codes "bq") (archive ∷ []) 1 none start done
      run (codes "rv3") (codes "bgpdata/u.bz2") (16 ∷ 1 ∷ 9 ∷ []) marks ((frame, line) ∷ []) [] eof
      [] event (Memᴰ.head refl) found stands_for stored root_has_no_slash (λ h. absurd (cc))
      not_bgpdata has_bgpdata refl (omega arith) (rendered, tt) missing refl refl refl refl accepted

launched-ends_example :
    (steps store (codes "archive") (codes "bq") none run < 4 * length (archive ∷ []) + 1)
    × ((e : Process Memory) × Step store (codes "archive") (codes "bq") none done e)
launched-ends_example =
    launched-ends store (codes "archive") (codes "bq") none (archive ∷ []) 1 start done
      (omega arith) refl run

-- The same event, delivered twice to a store that takes everything.
abbrev answered : Memory
answered = (Deployments.store.write (codes "bq") (dst_object archive) line start).store

handled :
    archive_upload_handler Deployments.store parser plain collector_line unzipped decode
      (codes "bq")
      (ok [])
      start
    ≡ some (returns (answered, silent))
unfolding archive_upload_handler google_cloud_storage.ConverterServer.is_metadata_update same
    google_cloud_storage.Converter.Archive.process_mrt_archive
    google_cloud_storage.Converter.Archive.read_archive lookup project_string
    google_cloud_storage.Converter.Collector.collector_from_path google_cloud_storage.Base.is_empty
    google_cloud_storage.Strings.Search.contains google_cloud_storage.Strings.Search.has_prefix
    google_cloud_storage.Strings.Split.split google_cloud_storage.Converter.Loop.convert
    google_cloud_storage.Converter.Loop.convert_loop
    google_cloud_storage.Converter.Loop.convert_next google_cloud_storage.Converter.Stream.read_full
    google_cloud_storage.Converter.Loop.unsupported
    google_cloud_storage.Converter.Update.parse_update dst_object
handled = refl

archive_upload_handler_idem_example :
    archive_upload_handler Deployments.store parser plain collector_line unzipped decode
      (codes "bq")
      (ok [])
      answered
    ≡ some (returns (answered, silent))
archive_upload_handler_idem_example =
    archive_upload_handler_idem Deployments.store Deployments.sum_of
      (memory_of-IsLawful Deployments.sum_of unlimited) parser plain collector_line unzipped decode
      (codes "bq") (ok []) start answered silent (λ o c s. refl) handled

-- `main` can end while a worker holds an archive, of which no update is notified then.
abbrev abandoned : Process Memory
abandoned = record taken { ended = some returned }

lost : Run store (codes "archive") (codes "bq") none (launched (archive ∷ []) 1 start) abandoned
unfolding launched google_cloud_storage.ConvertAll.Workers.started
    google_cloud_storage.ConvertAll.Workers.end_of_listing
lost =
    next {d = taken} (next {d = origin} here (hands archive [] [] [] refl refl refl refl))
      (exits refl refl refl)
