-- ===== src/Tests/Conversions.antt =====
-- The conversion of archives with a small parser: a header is a kind and a length, and the body of
-- a message is the one prefix that it announces. What is compressed is left as it is.
use google_cloud_storage.Base.{
  ℕ, ◌<◌, Bytes, codes, [], ◌∷◌, ◌++◌, some, true, false, ◌≡◌, ◌≢◌, refl, arith, length,
}
use google_cloud_storage.Base.Result.{eof, Result, ok, err}
use google_cloud_storage.Base.Run.{Run, returns, panic}
use google_cloud_storage.Strings.Split.{Lacks}
use google_cloud_storage.Strings.Search.{contains}
use google_cloud_storage.Storage.{Gcs}
use google_cloud_storage.Storage.Memory.{memory}
use google_cloud_storage.Converter.Interface.{
  Header, bgp_update, other_message, MrtBody, bgp4mp_message, Gobgp, Gzip, IsReliable,
}
use google_cloud_storage.Converter.Update.{Update, parse_update, parse_update_extended}
use google_cloud_storage.Converter.Loop.{convert, unsupported}
use google_cloud_storage.Converter.Loop.Total.{convert_total}
use google_cloud_storage.Converter.Loop.Frames.{Frame, IsFramed, Renders, prints, raw, lines}
use google_cloud_storage.Converter.Loop.Frames.Whole.{convert_renders, convert_panics}

abbrev pub sum_of : Bytes → Bytes
sum_of c = 1 ∷ []

abbrev pub store : Gcs
store = memory sum_of

abbrev header_of : Bytes → Result Header
header_of (k ∷ l ∷ []) = ok (record { timestamp = 0; kind = k; sub_kind = 1; len = l })
header_of (k ∷ l ∷ m ∷ s) = err eof
header_of (k ∷ []) = err eof
header_of [] = err eof

abbrev body_of : Header → Bytes → Result (MrtBody Bytes Bytes)
body_of h [] = ok (bgp4mp_message 7 other_message)
body_of h (c ∷ s) = ok (bgp4mp_message 7 (bgp_update ((c ∷ s) ∷ []) [] []))

abbrev pub parser : Gobgp
parser = record {
  Prefix = Bytes;
  Attr = Bytes;
  Time = ℕ;
  common_header_len = 2;
  bgp4mp = 16;
  bgp4mp_et = 17;
  message = 1;
  message_as4 = 4;
  decode_header = header_of;
  parse_body = body_of;
  get_time = λ h. h.timestamp;
  prefix_string = λ p. p;
  attr_type = λ a. 0;
  marshal_attr = λ a. ok a;
}

abbrev pub plain : Gzip
plain = record { Writer = Bytes; fresh = []; write = λ b w. (w ++ b, ok tt); close = λ w. w }

abbrev pub plain_reliable : IsReliable plain
plain_reliable = record {
  written = λ w. w;
  compress = λ w. w;
  written-fresh = refl;
  write-ok = λ b w. refl;
  written-write = λ b w. refl;
  close-written = λ w. refl;
}

abbrev pub collector_line : Update ℕ → Result Bytes
collector_line u = ok u.collector

abbrev pub frame : Frame
frame = record { head = 16 ∷ 1 ∷ []; body = 9 ∷ [] }

abbrev header : Header
header = record { timestamp = 0; kind = 16; sub_kind = 1; len = 1 }

abbrev update_of_frame : Update ℕ
update_of_frame = record {
  collector = codes "rv3";
  seen_at = 0;
  peer_as = 7;
  announced = (9 ∷ []) ∷ [];
  withdrawn = [];
  attributes = [];
}

framed : IsFramed parser frame header
framed = record { head_len = refl; decoded = refl; body_len = refl }

supported : unsupported parser header ≡ false
unfolding unsupported
supported = refl

parsed : parse_update parser (codes "rv3") (some header) (9 ∷ []) ≡ returns (ok update_of_frame)
unfolding parse_update google_cloud_storage.Converter.Update.translate_prefixes
    google_cloud_storage.Converter.Update.translate_attrs
parsed = refl

abbrev pub line : Bytes
line = codes "rv3\n"

pub rendered : Renders parser collector_line (codes "rv3") frame line
rendered = prints header update_of_frame (codes "rv3") framed supported parsed refl refl

short : length {A = ℕ} (16 ∷ []) < 2
short = omega arith

convert_renders_example :
    convert parser plain collector_line
      (codes "rv3")
      (record { rest = raw ((frame, line) ∷ []) ++ (16 ∷ []); ending = eof })
    ≡ some (returns (plain_reliable.compress (lines ((frame, line) ∷ []))))
convert_renders_example =
    convert_renders parser plain plain_reliable collector_line (codes "rv3") ((frame, line) ∷ [])
      (16 ∷ []) eof (rendered, tt) short

abbrev notice : Frame
notice = record { head = 16 ∷ 0 ∷ []; body = [] }

abbrev notice_header : Header
notice_header = record { timestamp = 0; kind = 16; sub_kind = 1; len = 0 }

notice-IsFramed : IsFramed parser notice notice_header
notice-IsFramed = record { head_len = refl; decoded = refl; body_len = refl }

some_header : 0 < 2
some_header = omega arith

notice_supported : unsupported parser notice_header ≡ false
unfolding unsupported
notice_supported = refl

not_extended : ◌≢◌ {A = ℕ} 16 17
not_extended = omega arith

convert_panics_example :
    convert parser plain collector_line (codes "rv3") (record {
      rest = raw ((frame, line) ∷ []) ++ (notice.head ++ (notice.body ++ []));
      ending = eof;
    })
    ≡ some panic
convert_panics_example =
    convert_panics parser plain plain_reliable collector_line (codes "rv3") ((frame, line) ∷ [])
      notice notice_header 7 [] eof (rendered, tt) some_header notice-IsFramed notice_supported
      not_extended refl

convert_total_example :
    (r : Run Bytes) × (convert parser plain collector_line
        (codes "rv3")
        (record { rest = 16 ∷ 1 ∷ 9 ∷ []; ending = eof })
      ≡ some r)
convert_total_example =
    convert_total parser plain collector_line (codes "rv3")
      (record { rest = 16 ∷ 1 ∷ 9 ∷ []; ending = eof }) some_header

pub root_has_no_slash : Lacks b'/' (codes "rv3")
root_has_no_slash = ground arith

pub has_bgpdata : contains (codes "bgpdata/u.bz2") (codes "bgpdata") ≡ true
unfolding contains google_cloud_storage.Strings.Search.has_prefix
has_bgpdata = refl
