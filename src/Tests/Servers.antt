-- ===== src/Tests/Servers.antt =====
-- The upload server of cmd/archive_upload_server/server.go on a store in memory.
use google_cloud_storage.Base.{
  Bytes, codes, [], ◌∷◌, none, some, true, false, ◌≡◌, ◌≢◌, ◌↔◌, ◌⊎◌, inl, inr, refl, ap,
}
use google_cloud_storage.Base.Result.{errorf, ok, err}
use google_cloud_storage.Proto.{Project, project_string, FileRequest, Status}
use google_cloud_storage.Storage.{Gcs}
use google_cloud_storage.Storage.Memory.{Memory, memory, memory-IsLawful, member}
use google_cloud_storage.Server.{Config, file_upload, handle_data_file, project_metadata_key}
use google_cloud_storage.Server.Upload.{
  IsValid, written, marked, reply, after, file_upload-error_none_iff, read-file_upload,
  file_upload_lost,
}
use google_cloud_storage.Server.Idempotent.{file_upload_idem}

abbrev pub sum_of : Bytes → Bytes
sum_of c = 1 ∷ []

abbrev pub store : Gcs
store = memory sum_of

abbrev pub conf : Config
conf = record { buckets = (codes "ROUTEVIEWS", codes "archive") ∷ [] }

abbrev pub request : FileRequest
request = record {
  filename = codes "a.bz2";
  md5sum = codes "01";
  content = codes "BZ";
  convert_sql = false;
  project = Project.routeviews;
}

abbrev pub start : Memory
start = record { buckets = codes "archive" ∷ []; object = λ b o. none; full = false }

abbrev full_store : Memory
full_store = record {
  buckets = codes "archive" ∷ [];
  object = λ b o. some (record { content = codes "old"; metadata = [] });
  full = true;
}

file_upload-error_none_iff_example : ((reply store conf sum_of request start).error ≡ none) ↔ (
    IsValid store conf sum_of request start
    × ((written store conf sum_of request start).copied ≡ ok tt)
    × ((marked store conf sum_of request start).1 ≡ ok tt))
file_upload-error_none_iff_example = file_upload-error_none_iff store conf sum_of request start

pub accepted : (reply store conf sum_of request start).error ≡ none
unfolding file_upload member google_cloud_storage.Server.base_unmet
    google_cloud_storage.Base.is_empty google_cloud_storage.Server.is_unknown
    google_cloud_storage.Base.same google_cloud_storage.Strings.Hex.hex_encode handle_data_file
    google_cloud_storage.Base.Dict.has project_string google_cloud_storage.Server.bucket_of
    google_cloud_storage.Base.Dict.lookup
accepted = refl

taken : (written store conf sum_of request start).closed ≡ ok tt
unfolding member google_cloud_storage.Base.same google_cloud_storage.Server.bucket_of
    google_cloud_storage.Base.Dict.lookup project_string
taken = refl

read-file_upload_example :
    (store.read (codes "archive") (codes "a.bz2") (after store conf sum_of request start)
      ≡ ok (codes "BZ"))
    × (store.attrs (codes "archive") (codes "a.bz2") (after store conf sum_of request start)
        ≡ ok (record { md5 = 1 ∷ []; metadata = (project_metadata_key, codes "ROUTEVIEWS") ∷ [] }))
unfolding project_string google_cloud_storage.Server.bucket_of google_cloud_storage.Base.Dict.lookup
    google_cloud_storage.Base.same
read-file_upload_example =
    read-file_upload store conf sum_of request start (memory-IsLawful sum_of) accepted taken

accepted_again :
    (reply store conf sum_of request (after store conf sum_of request start)).error ≡ none
unfolding file_upload member google_cloud_storage.Server.base_unmet
    google_cloud_storage.Base.is_empty google_cloud_storage.Server.is_unknown
    google_cloud_storage.Base.same google_cloud_storage.Strings.Hex.hex_encode handle_data_file
    google_cloud_storage.Base.Dict.has project_string google_cloud_storage.Server.bucket_of
    google_cloud_storage.Base.Dict.lookup
accepted_again = refl

taken_again :
    (written store conf sum_of request (after store conf sum_of request start)).closed ≡ ok tt
unfolding file_upload member google_cloud_storage.Server.base_unmet
    google_cloud_storage.Base.is_empty google_cloud_storage.Server.is_unknown
    google_cloud_storage.Base.same google_cloud_storage.Strings.Hex.hex_encode handle_data_file
    google_cloud_storage.Base.Dict.has project_string google_cloud_storage.Server.bucket_of
    google_cloud_storage.Base.Dict.lookup
taken_again = refl

file_upload_idem_example :
    (store.read
        (codes "archive")
        (codes "a.bz2")
        (after store conf sum_of request (after store conf sum_of request start))
      ≡ store.read (codes "archive") (codes "a.bz2") (after store conf sum_of request start))
    × (store.attrs
          (codes "archive")
          (codes "a.bz2")
          (after store conf sum_of request (after store conf sum_of request start))
        ≡ store.attrs (codes "archive") (codes "a.bz2") (after store conf sum_of request start))
file_upload_idem_example =
    file_upload_idem store conf sum_of (memory-IsLawful sum_of) request start accepted taken
      accepted_again taken_again (codes "archive") (codes "a.bz2")

request_valid : IsValid store conf sum_of request full_store
unfolding file_upload google_cloud_storage.Server.is_unknown
    google_cloud_storage.Strings.Hex.hex_encode google_cloud_storage.Base.Dict.has
    google_cloud_storage.Base.same project_string
request_valid = record {
  named = λ h. absurd (cc);
  filled = λ h. absurd (cc);
  known = refl;
  checked = refl;
  configured = refl;
}

copied_full : (written store conf sum_of request full_store).copied ≡ ok tt
unfolding member
copied_full = refl

refused_full : (written store conf sum_of request full_store).closed ≡ err (errorf "no such bucket")
unfolding member google_cloud_storage.Base.same google_cloud_storage.Server.bucket_of
    google_cloud_storage.Base.Dict.lookup project_string
refused_full = refl

marked_full : (marked store conf sum_of request full_store).1 ≡ ok tt
unfolding member google_cloud_storage.Base.same google_cloud_storage.Server.bucket_of
    google_cloud_storage.Base.Dict.lookup project_string
marked_full = refl

file_upload_lost_example :
    ((reply store conf sum_of request full_store).response
      ≡ some (record { status = Status.success; error_message = [] }))
    × ((reply store conf sum_of request full_store).error ≡ none)
    × (store.read (codes "archive") (codes "a.bz2") (after store conf sum_of request full_store)
        ≡ store.read (codes "archive") (codes "a.bz2") full_store)
unfolding google_cloud_storage.Server.bucket_of google_cloud_storage.Base.Dict.lookup
    google_cloud_storage.Base.same project_string
file_upload_lost_example =
    file_upload_lost store conf sum_of request full_store (memory-IsLawful sum_of)
      (errorf "no such bucket") request_valid copied_full refused_full marked_full
