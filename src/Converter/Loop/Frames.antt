-- ===== src/Converter/Loop/Frames.antt =====
-- What `convert` of pkg/mrt_converter/mrt_converter.go writes for an archive that is given as a
-- sequence of MRT messages.
pub mod Rounds
pub mod Whole
use google_cloud_storage.Base.{
  ℕ, zero, suc, ◌<◌, length, Bytes, List, [], ◌∷◌, ◌++◌, append_assoc, append-nil, length-append,
  some, ◌≡◌, ◌≢◌, ◌∙◌, refl, ap, true, false, arith, is_empty, if◌then◌else◌, All,
}
use google_cloud_storage.Base.Result.{Error, Result, ok, err}
use google_cloud_storage.Base.Run.{returns, panic}
use google_cloud_storage.Converter.Interface.{
  Header, Gobgp, Gzip, IsReliable, bgp4mp_message, other_message,
}
use google_cloud_storage.Converter.Update.{Update, parse_update}
use google_cloud_storage.Converter.Stream.{cut_short, read_full-append, read_full_short}
use google_cloud_storage.Converter.Loop.{
  Job, newline, header_error, json_stage, update_stage, body_stage, convert_next, convert_loop,
  convert, unsupported,
}

-- A message: the bytes of its header and of its body.
pub record Frame : Type 0 where
  pub head : Bytes
  pub body : Bytes

module _ (B : Gobgp) where
  -- The header announces the body's length.
  pub record IsFramed (f : Frame) (h : Header) : Type 0 where
    pub head_len : B.common_header_len ≡ length f.head
    pub decoded : B.decode_header f.head ≡ ok h
    pub body_len : h.len ≡ length f.body

module _ (B : Gobgp) (json : Update B.Time → Result Bytes) (collector : Bytes) where
  -- What a message adds to the output: nothing if it is of another kind or cannot be parsed, and
  -- the line of its update if it can.
  pub data Renders (f : Frame) (out : Bytes) : Type 0 where
    skips : (h : Header) → IsFramed B f h → unsupported B h ≡ true → out ≡ [] → Renders f out
    fails :
        (h : Header) (e : Error)
        → IsFramed B f h
        → unsupported B h ≡ false
        → parse_update B collector (some h) f.body ≡ returns (err e)
        → out ≡ []
        → Renders f out
    prints :
        (h : Header) (u : Update B.Time) (b : Bytes)
        → IsFramed B f h
        → unsupported B h ≡ false
        → parse_update B collector (some h) f.body ≡ returns (ok u)
        → json u ≡ ok b
        → out ≡ b ++ newline
        → Renders f out

  abbrev pub AllRender : List (Frame × Bytes) → Type 0
  AllRender = All (λ p. Renders p.0 p.1)

-- The bytes of an archive, and the lines of its conversion.
abbrev pub raw : List (Frame × Bytes) → Bytes
raw [] = []
raw ((f, out) ∷ ps) = f.head ++ (f.body ++ raw ps)

abbrev pub lines : List (Frame × Bytes) → Bytes
lines [] = []
lines ((f, out) ∷ ps) = out ++ lines ps
