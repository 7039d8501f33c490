-- ===== src/Converter/Loop.antt =====
-- `convertNext` and `convert` of pkg/mrt_converter/mrt_converter.go: the loop over the messages of
-- an archive. Each stage of `convertNext` is a function of what the call before it returned.
pub mod Total
pub mod Frames
use google_cloud_storage.Base.{
  ℕ, zero, suc, length, Bytes, List, [], ◌∷◌, ◌++◌, Option, none, some, Bool, true, false, ◌||◌,
  ◌&&◌, not, ◌==◌, if◌then◌else◌,
}
use google_cloud_storage.Base.Result.{
  Error, eof, errorf, wrap, Result, ok, err, within, object_not_exist,
}
use google_cloud_storage.Base.Run.{Run, returns, panic}
use google_cloud_storage.Converter.Interface.{Header, Gobgp, Gzip}
use google_cloud_storage.Converter.Update.{Update, parse_update}
use google_cloud_storage.Converter.Stream.{Stream, read_full}

-- `unsupported message types`
unfoldable pub unsupported : Gobgp → Header → Bool
unsupported B h =
    (not (h.kind == B.bgp4mp) && not (h.kind == B.bgp4mp_et))
    || (not (h.sub_kind == B.message_as4) && not (h.sub_kind == B.message))

abbrev pub newline : Bytes
newline = b'\n' ∷ []

-- The reader and the writer of a conversion.
pub record Job (W : Type 0) : Type 0 where
  pub input : Stream
  pub output : W

-- `err == io.EOF` is passed on as it is.
abbrev pub header_error : Error → Error
header_error eof = eof
header_error object_not_exist = wrap "failed to read MRT header" object_not_exist
header_error (errorf m) = wrap "failed to read MRT header" (errorf m)
header_error (wrap m e) = wrap "failed to read MRT header" (wrap m e)

module _ (B : Gobgp) (Z : Gzip) (json : Update B.Time → Result Bytes) (collector : Bytes) where
  abbrev pub Step : Type 0
  Step = Run (Job Z.Writer × Result (Unit {0}))

  unfoldable pub write_line : Job Z.Writer → Bytes → Step
  write_line j line =
      let (w, r) = Z.write line j.output in
      returns (record j { output = w }, within "writer.Write" r)

  unfoldable pub json_stage : Job Z.Writer → Result Bytes → Step
  unfolding write_line
  json_stage j (err e) = returns (j, err (wrap "json.Marshal" e))
  json_stage j (ok b) = write_line j (b ++ newline)

  unfoldable pub update_stage : Job Z.Writer → Run (Result (Update B.Time)) → Step
  unfolding json_stage
  update_stage j panic = panic
  update_stage j (returns (err e)) = returns (j, ok tt)
  update_stage j (returns (ok u)) = json_stage j (json u)

  unfoldable pub body_stage : Header → Job Z.Writer → Result Bytes → Step
  unfolding update_stage
  body_stage h j (err e) = returns (j, err (wrap "failed to read MRT body" e))
  body_stage h j (ok buf) =
      if unsupported B h
      then returns (j, ok tt)
      else update_stage j (parse_update B collector (some h) buf)

  unfoldable pub decoded_stage : Job Z.Writer → Result Header → Step
  unfolding body_stage
  decoded_stage j (err e) = returns (j, err (wrap "(*mrt.MRTHeader).DecodeFromBytes" e))
  decoded_stage j (ok h) =
      let (i, r) = read_full h.len j.input in body_stage h (record j { input = i }) r

  unfoldable pub header_stage : Job Z.Writer → Result Bytes → Step
  unfolding decoded_stage
  header_stage j (err e) = returns (j, err (header_error e))
  header_stage j (ok buf) = decoded_stage j (B.decode_header buf)

  unfoldable pub convert_next : Job Z.Writer → Step
  unfolding header_stage
  convert_next j =
      let (i, r) = read_full B.common_header_len j.input in header_stage (record j { input = i }) r

  -- The loop, with fuel: `none` means that the fuel ran out. It ends by an error, `io.EOF` at the
  -- end of the input; any other is logged.
  unfoldable pub convert_loop : ℕ → Job Z.Writer → Option (Run (Job Z.Writer × Error))
  convert_loop zero j = none
  convert_loop (suc fuel) j = elim (convert_next j) [
    | panic ↦ some panic
    | returns (j', err e) ↦ some (returns (j', e))
    | returns (j', ok _) ↦ convert_loop fuel j'
  ]

  -- The deferred `gw.Close()`.
  abbrev pub closed : Option (Run (Job Z.Writer × Error)) → Option (Run Bytes)
  closed none = none
  closed (some panic) = some panic
  closed (some (returns (j, e))) = some (returns (Z.close j.output))

  -- `convert`, over the decompressed archive: what the buffer holds once the writer is closed.
  -- The fuel is one more than the bytes of the archive.
  unfoldable pub convert : Stream → Option (Run Bytes)
  convert input =
      closed (convert_loop (suc (length input.rest)) (record { input = input; output = Z.fresh }))
