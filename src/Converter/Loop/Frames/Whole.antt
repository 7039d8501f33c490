-- ===== src/Converter/Loop/Frames/Whole.antt =====
-- `convert` of pkg/mrt_converter/mrt_converter.go on a whole archive.
use google_cloud_storage.Base.{
  ℕ, zero, suc, ◌<◌, length, Bytes, List, [], ◌∷◌, ◌++◌, append_assoc, append-nil, length-append,
  some, ◌≡◌, ◌≢◌, ◌∙◌, refl, ap, false, arith, is_empty, if◌then◌else◌,
}
use google_cloud_storage.Base.Result.{Error, Result, ok}
use google_cloud_storage.Base.Run.{returns, panic}
use google_cloud_storage.Converter.Interface.{
  Header, Gobgp, Gzip, IsReliable, bgp4mp_message, other_message,
}
use google_cloud_storage.Converter.Update.{Update}
use google_cloud_storage.Converter.Stream.{cut_short}
use google_cloud_storage.Converter.Loop.{header_error, convert_loop, convert, unsupported}
use google_cloud_storage.Converter.Loop.Frames.{Frame, IsFramed, AllRender, raw, lines}
use google_cloud_storage.Converter.Loop.Frames.Rounds.{
  job, convert_next_framed, supported_round, convert_next-Renders, loop_goes, loop_ends,
  loop_panics, panicking_round, convert_next_short, head_pos, raw-append,
}

module _ (B : Gobgp) (Z : Gzip) (R : IsReliable Z) (json : Update B.Time → Result Bytes)
    (collector : Bytes) where
  -- The rounds for a sequence of messages.
  convert_loop_renders :
      (ps : List (Frame × Bytes)) (t : Bytes) (e : Error) (w : Z.Writer) (fuel : ℕ)
      → 0 < B.common_header_len
      → AllRender B json collector ps
      → length (raw ps ++ t) < fuel
      → (w' : Z.Writer) × (left : ℕ) × (R.written w' ≡ R.written w ++ lines ps)
        × (length t < left)
        × (convert_loop B Z json collector fuel (job B Z R json collector (raw ps ++ t) e w)
            ≡ convert_loop B Z json collector left (job B Z R json collector t e w'))
  convert_loop_renders [] t e w fuel pos all h = (w, fuel, rw append-nil, h, refl)
  convert_loop_renders ((f, out) ∷ ps) t e w zero pos (r, all) h = absurd (omega arith)
  convert_loop_renders ((f, out) ∷ ps) t e w (suc fuel) pos (r, all) h =
      let (w1, wrote, round) =
        convert_next-Renders B Z R json collector f out (raw ps ++ t) e w r in
      let (w2, left, rest, room, same_loop) = convert_loop_renders ps t e w1 fuel pos all (
        omega (
          arith,
          head_pos B Z R json collector f out pos r,
          ap (λ (l : Bytes). length l) (raw-append B Z R json collector f ps t),
          length-append f.head (f.body ++ (raw ps ++ t)),
          length-append f.body (raw ps ++ t),
        )) in
      (
        w2,
        left,
        rest ∙ rw wrote (append_assoc (R.written w) out (lines ps)),
        room,
        ap
              (λ (l : Bytes).
                convert_loop B Z json collector (suc fuel) (job B Z R json collector l e w))
              (raw-append B Z R json collector f ps t)
            ∙ loop_goes B Z R json collector fuel
                (job B Z R json collector (f.head ++ (f.body ++ (raw ps ++ t))) e w)
                (job B Z R json collector (raw ps ++ t) e w1) round
            ∙ same_loop,
      )

  -- Too few bytes for a header end the loop.
  convert_loop_short :
      (t : Bytes) (e : Error) (w : Z.Writer) (left : ℕ)
      → length t < B.common_header_len
      → length t < left
      → (x : Error) × (convert_loop B Z json collector left (job B Z R json collector t e w)
          ≡ some (returns (job B Z R json collector [] e w, x)))
  convert_loop_short t e w zero short room = absurd (omega arith)
  convert_loop_short t e w (suc left) short room = (
    header_error (if is_empty t then e else cut_short e),
    loop_ends B Z R json collector left _ _ _ (convert_next_short B Z R json collector t e w short),
  )

  -- An archive of whole messages, each of which is of a kind that is not converted, fails to parse,
  -- or parses to an update that is encoded (so none panics), and which then ends, by whatever error,
  -- with less than a header, is converted to the lines of the encoded updates in order, and to
  -- nothing else.
  pub convert_renders :
      (ps : List (Frame × Bytes)) (t : Bytes) (e : Error)
      → AllRender B json collector ps
      → length t < B.common_header_len
      → convert B Z json collector (record { rest = raw ps ++ t; ending = e })
        ≡ some (returns (R.compress (lines ps)))
  unfolding convert
  convert_renders ps t e all short =
      let (w, left, wrote, room, same_loop) =
        convert_loop_renders ps t e Z.fresh (suc (length (raw ps ++ t))) (omega arith) all
          (omega arith) in
      let (x, ended) = convert_loop_short t e w left short room in
      rw (same_loop, ended) (rw (R.close-written w, wrote, R.written-fresh))

  -- A message of a kind that is converted and is not BGP4MP_ET, whose body parses to a BGP message
  -- that is no update, makes the conversion panic, after whatever messages that do not and before
  -- whatever follows.
  pub convert_panics :
      (ps : List (Frame × Bytes)) (f : Frame) (h : Header) (peer : ℕ) (t : Bytes) (e : Error)
      → AllRender B json collector ps
      → 0 < B.common_header_len
      → IsFramed B f h
      → unsupported B h ≡ false
      → h.kind ≢ B.bgp4mp_et
      → B.parse_body h f.body ≡ ok (bgp4mp_message peer other_message)
      → convert B Z json collector
          (record { rest = raw ps ++ (f.head ++ (f.body ++ t)); ending = e })
        ≡ some panic
  unfolding convert
  convert_panics ps f h peer t e all pos i known plain parsed =
      let rest = f.head ++ (f.body ++ t) in
      let (w', left, wrote, room, same_loop) =
        convert_loop_renders ps rest e Z.fresh (suc (length (raw ps ++ rest))) pos all
          (omega arith) in
      let round =
        convert_next_framed B Z R json collector f h t e w' i
        ∙ supported_round B Z R json collector h (job B Z R json collector t e w') f.body known
        ∙ panicking_round B Z R json collector f h peer (job B Z R json collector t e w') plain
            parsed in
      rw
        (
          same_loop,
          loop_panics B Z R json collector left (job B Z R json collector rest e w') (omega arith)
              round,
        )
        refl
