-- ===== src/Proto.antt =====
-- The messages of proto/rv.pb.go: the upload request and its response.
use google_cloud_storage.Base.{Bytes, codes, same, Bool, if◌then◌else◌, []}

-- `FileRequest_Project`. The type is an open enum: a number that it does not name is kept, here by
-- its decimal print, which is all that the program reads of it.
pub data Project : Type 0 where
  unknown routeviews routeviews_rib ripe_ris rpki_rarc : Project
  unrecognized : Bytes → Project

-- `(FileRequest_Project).String`
unfoldable pub project_string : Project → Bytes
project_string unknown = codes "UNKNOWN"
project_string routeviews = codes "ROUTEVIEWS"
project_string routeviews_rib = codes "ROUTEVIEWS_RIB"
project_string ripe_ris = codes "RIPE_RIS"
project_string rpki_rarc = codes "RPKI_RARC"
project_string (unrecognized n) = n

-- `FileRequest_Project_value[name]`: a missing key reads as zero, which is `UNKNOWN`.
unfoldable pub project_value : Bytes → Project
project_value name =
    if same name (codes "ROUTEVIEWS")
    then routeviews
    else if same name (codes "ROUTEVIEWS_RIB")
    then routeviews_rib
    else if same name (codes "RIPE_RIS")
    then ripe_ris
    else if same name (codes "RPKI_RARC")
    then rpki_rarc
    else unknown

pub record FileRequest : Type 0 where
  pub filename : Bytes
  pub md5sum : Bytes
  pub content : Bytes
  pub convert_sql : Bool
  pub project : Project

pub data Status : Type 0 where
  unknown success fail : Status

pub record FileResponse : Type 0 where
  pub status : Status
  pub error_message : Bytes

-- `&pb.FileResponse{}`
abbrev pub empty_response : FileResponse
empty_response = record { status = Status.unknown; error_message = [] }
