-- ===== src/Converter/Update.antt =====
-- `parseUpdate`, `translateAttrs` and `translatePrefixes` of pkg/mrt_converter/mrt_converter.go.
use google_cloud_storage.Base.{
  ℕ, ◌+◌, ◌-◌, ◌%◌, ◌^◌, ◌<◌, Bytes, List, [], ◌∷◌, ◌++◌, length, drop, drop_left, Option, none,
  some, ◌≡◌, ◌≢◌, ap, length-append, ◌==◌, ltb, if◌then◌else◌, arith,
}
use google_cloud_storage.Base.Result.{Result, ok, err, errorf, wrap}
use google_cloud_storage.Base.Run.{Run, returns, panic}
use google_cloud_storage.Converter.Interface.{
  Header, bgp_update, other_message, MrtBody, bgp4mp_message, other_body, Gobgp,
}

-- `attributePayload`
pub record AttributePayload : Type 0 where
  pub attr_type : ℕ
  pub payload : Bytes

-- `update`
pub record Update (Time : Type 0) : Type 0 where
  pub collector : Bytes
  pub seen_at : Time
  pub peer_as : ℕ
  pub announced : List Bytes
  pub withdrawn : List Bytes
  pub attributes : List AttributePayload

-- After a failed `json.Marshal` the payload is empty; the error is only logged.
abbrev pub payload_of : Result Bytes → Bytes
payload_of (ok p) = p
payload_of (err e) = []

module _ (B : Gobgp) where
  unfoldable pub translate_attrs : List B.Attr → List AttributePayload
  translate_attrs [] = []
  translate_attrs (a ∷ attrs) =
      record { attr_type = B.attr_type a; payload = payload_of (B.marshal_attr a) }
      ∷ translate_attrs attrs

  unfoldable pub translate_prefixes : List B.Prefix → List Bytes
  translate_prefixes [] = []
  translate_prefixes (p ∷ prefixes) = B.prefix_string p ∷ translate_prefixes prefixes

  -- The two type assertions panic on a body of another type.
  unfoldable pub assert_update :
      Bytes → Header → MrtBody B.Prefix B.Attr → Run (Result (Update B.Time))
  assert_update collector h other_body = panic
  assert_update collector h (bgp4mp_message peer other_message) = panic
  assert_update collector h (bgp4mp_message peer (bgp_update nlri withdrawn attrs)) = returns (
      ok (record {
        collector = collector;
        seen_at = B.get_time h;
        peer_as = peer;
        announced = translate_prefixes nlri;
        withdrawn = translate_prefixes withdrawn;
        attributes = translate_attrs attrs;
      }))

  unfoldable pub parse_message : Bytes → Header → Bytes → Run (Result (Update B.Time))
  unfolding assert_update
  parse_message collector h buf = elim (B.parse_body h buf) [
    | err e ↦ returns (err (wrap "failed to parse body" e))
    | ok body ↦ assert_update collector h body
  ]

  -- `h.Len -= 4` is on uint32.
  unfoldable pub parse_update : Bytes → Option Header → Bytes → Run (Result (Update B.Time))
  unfolding parse_message
  parse_update collector none buf = returns (err (errorf "header cannot be nil"))
  parse_update collector (some h) buf =
      if h.kind == B.bgp4mp_et
      then if ltb (length buf) 4
        then returns (err (errorf "bad extended timestamp"))
        else parse_message collector
            (record h { kind = B.bgp4mp; len = (h.len + 2 ^ 32 - 4) % 2 ^ 32 }) (drop 4 buf)
      else parse_message collector h buf

  -- A message with an extended timestamp is parsed as the same message without it: the header
  -- passed on has the plain type and the length of the bytes that are left, with no wrap-around.
  pub parse_update_extended :
      (collector : Bytes) (h : Header) (stamp buf : Bytes)
      → h.kind ≡ B.bgp4mp_et
      → B.bgp4mp ≢ B.bgp4mp_et
      → length stamp ≡ 4
      → h.len ≡ length buf + 4
      → h.len < 2 ^ 32
      → parse_update collector (some h) (stamp ++ buf)
        ≡ parse_update collector (some (record h { kind = B.bgp4mp; len = length buf })) buf
  unfolding parse_update
  parse_update_extended collector h stamp buf extended distinct four whole bounded = ground (
    arith,
    drop_left 4 stamp buf,
    length-append stamp buf,
    ap (λ (n : ℕ). parse_message collector (record h { kind = B.bgp4mp; len = n }) buf) (shorter),
  )
    where
      shorter : (h.len + 2 ^ 32 - 4) % 2 ^ 32 ≡ length buf
      shorter = omega arith
