-- ===== src/Converter/Interface.antt =====
-- What pkg/mrt_converter takes from libraries outside the repository: the MRT and BGP parsers of
-- gobgp, the JSON encoder and the gzip writer.
use google_cloud_storage.Base.{ℕ, Bytes, List, [], ◌++◌, ◌≡◌}
use google_cloud_storage.Base.Result.{Result, ok}

-- `mrt.MRTHeader`
pub record Header : Type 0 where
  pub timestamp : ℕ
  pub kind : ℕ
  pub sub_kind : ℕ
  pub len : ℕ

-- What is read of `bgp.BGPUpdate`, and of any other BGP message.
pub data BgpBody (Prefix Attr : Type 0) : Type 0 where
  bgp_update : List Prefix → List Prefix → List Attr → BgpBody Prefix Attr
  other_message : BgpBody Prefix Attr

-- What is read of `mrt.BGP4MPMessage` (the peer's AS number and the BGP message), and of any other
-- MRT body.
pub data MrtBody (Prefix Attr : Type 0) : Type 0 where
  bgp4mp_message : ℕ → BgpBody Prefix Attr → MrtBody Prefix Attr
  other_body : MrtBody Prefix Attr

-- gobgp's types, constants and functions.
pub record Gobgp : Type 1 where
  pub Prefix : Type 0
  pub Attr : Type 0
  pub Time : Type 0
  pub common_header_len : ℕ
  pub bgp4mp : ℕ
  pub bgp4mp_et : ℕ
  pub message : ℕ
  pub message_as4 : ℕ
  pub decode_header : Bytes → Result Header
  pub parse_body : Header → Bytes → Result (MrtBody Prefix Attr)
  pub get_time : Header → Time
  pub prefix_string : Prefix → Bytes
  pub attr_type : Attr → ℕ
  -- `json.Marshal` of an attribute, which calls its own encoder.
  pub marshal_attr : Attr → Result Bytes

-- `gzip.NewWriter` over a buffer: what is written so far, and the compressed text once closed.
pub record Gzip : Type 1 where
  pub Writer : Type 0
  pub fresh : Writer
  pub write : Bytes → Writer → Writer × Result (Unit {0})
  pub close : Writer → Bytes

-- A buffer takes every write, and what closing leaves depends on the bytes written alone.
pub record IsReliable (Z : Gzip) : Type 0 where
  pub written : Z.Writer → Bytes
  pub compress : Bytes → Bytes
  pub written-fresh : written Z.fresh ≡ []
  pub write-ok : (b : Bytes) (w : Z.Writer) → (Z.write b w).1 ≡ ok tt
  pub written-write : (b : Bytes) (w : Z.Writer) → written (Z.write b w).0 ≡ written w ++ b
  pub close-written : (w : Z.Writer) → Z.close w ≡ compress (written w)
