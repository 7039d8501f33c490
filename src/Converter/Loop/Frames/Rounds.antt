-- ===== src/Converter/Loop/Frames/Rounds.antt =====
-- One round of the loop of `convert` in pkg/mrt_converter/mrt_converter.go, on a message.
use google_cloud_storage.Base.{
  ℕ, zero, suc, ◌<◌, length, Bytes, List, [], ◌++◌, append_assoc, append-nil, some, ◌≡◌, ◌≢◌, ◌∙◌,
  refl, ap, true, false, arith, is_empty, if◌then◌else◌,
}
use google_cloud_storage.Base.Result.{Error, Result, ok, err}
use google_cloud_storage.Base.Run.{returns, panic}
use google_cloud_storage.Converter.Interface.{
  Header, Gobgp, Gzip, IsReliable, bgp4mp_message, other_message,
}
use google_cloud_storage.Converter.Update.{Update, parse_update}
use google_cloud_storage.Converter.Stream.{cut_short, read_full-append, read_full_short}
use google_cloud_storage.Converter.Loop.{
  Job, newline, header_error, json_stage, update_stage, body_stage, convert_next, convert_loop,
  unsupported,
}
use google_cloud_storage.Converter.Loop.Frames.{Frame, IsFramed, Renders, skips, fails, prints, raw}

module _ (B : Gobgp) (Z : Gzip) (R : IsReliable Z) (json : Update B.Time → Result Bytes)
    (collector : Bytes) where
  abbrev pub job : Bytes → Error → Z.Writer → Job Z.Writer
  job rest ending w = record { input = record { rest = rest; ending = ending }; output = w }

  -- The header and the body of a message are read off the input.
  pub convert_next_framed :
      (f : Frame) (h : Header) (t : Bytes) (e : Error) (w : Z.Writer)
      → IsFramed B f h
      → convert_next B Z json collector (job (f.head ++ (f.body ++ t)) e w)
        ≡ body_stage B Z json collector h (job t e w) (ok f.body)
  unfolding convert_next
  convert_next_framed f h t e w i = rw (
    read_full-append B.common_header_len f.head (f.body ++ t) e i.head_len,
    i.decoded,
    read_full-append h.len f.body t e i.body_len,
  )

  pub unsupported_round :
      (h : Header) (j : Job Z.Writer) (b : Bytes)
      → unsupported B h ≡ true
      → body_stage B Z json collector h j (ok b) ≡ returns (j, ok tt)
  unfolding body_stage
  unsupported_round h j b e = rw e

  pub supported_round :
      (h : Header) (j : Job Z.Writer) (b : Bytes)
      → unsupported B h ≡ false
      → body_stage B Z json collector h j (ok b)
        ≡ update_stage B Z json collector j (parse_update B collector (some h) b)
  unfolding body_stage
  supported_round h j b e = rw e

  pub printed_round :
      (u : Update B.Time) (b t : Bytes) (e : Error) (w : Z.Writer)
      → json u ≡ ok b
      → update_stage B Z json collector (job t e w) (returns (ok u))
        ≡ returns (job t e (Z.write (b ++ newline) w).0, ok tt)
  unfolding update_stage
  printed_round u b t e w encoded = rw (encoded, json_stage, R.write-ok (b ++ newline) w)

  -- One round takes one message and writes what it renders.
  pub convert_next-Renders :
      (f : Frame) (out t : Bytes) (e : Error) (w : Z.Writer)
      → Renders B json collector f out
      → (w' : Z.Writer) × (R.written w' ≡ R.written w ++ out)
        × (convert_next B Z json collector (job (f.head ++ (f.body ++ t)) e w)
            ≡ returns (job t e w', ok tt))
  convert_next-Renders f out t e w (skips h i skip none_out) = (
    w,
    rw (none_out, append-nil),
    convert_next_framed f h t e w i ∙ unsupported_round h (job t e w) f.body skip,
  )
  convert_next-Renders f out t e w (fails h x i known failed none_out) = (
    w,
    rw (none_out, append-nil),
    convert_next_framed f h t e w i
        ∙ supported_round h (job t e w) f.body known
        ∙ rw failed (unfold update_stage in refl),
  )
  convert_next-Renders f out t e w (prints h u b i known parsed encoded line) = (
    (Z.write (b ++ newline) w).0,
    rw line (R.written-write (b ++ newline) w),
    convert_next_framed f h t e w i
        ∙ supported_round h (job t e w) f.body known
        ∙ rw parsed (printed_round u b t e w encoded),
  )

  pub loop_goes :
      (fuel : ℕ) (j j' : Job Z.Writer)
      → convert_next B Z json collector j ≡ returns (j', ok tt)
      → convert_loop B Z json collector (suc fuel) j ≡ convert_loop B Z json collector fuel j'
  unfolding convert_loop
  loop_goes fuel j j' round = rw (round, convert_loop)

  pub loop_ends :
      (fuel : ℕ) (j j' : Job Z.Writer) (x : Error)
      → convert_next B Z json collector j ≡ returns (j', err x)
      → convert_loop B Z json collector (suc fuel) j ≡ some (returns (j', x))
  unfolding convert_loop
  loop_ends fuel j j' x round = rw (round, convert_loop)

  pub loop_panics :
      (fuel : ℕ) (j : Job Z.Writer)
      → 0 < fuel
      → convert_next B Z json collector j ≡ panic
      → convert_loop B Z json collector fuel j ≡ some panic
  unfolding convert_loop
  loop_panics zero j room round = absurd (omega arith)
  loop_panics (suc fuel) j room round = rw (round, convert_loop)

  pub panicking_round :
      (f : Frame) (h : Header) (peer : ℕ) (j : Job Z.Writer)
      → h.kind ≢ B.bgp4mp_et
      → B.parse_body h f.body ≡ ok (bgp4mp_message peer other_message)
      → update_stage B Z json collector j (parse_update B collector (some h) f.body) ≡ panic
  unfolding update_stage parse_update
  panicking_round f h peer j plain parsed = ground arith

  pub convert_next_short :
      (t : Bytes) (e : Error) (w : Z.Writer)
      → length t < B.common_header_len
      → convert_next B Z json collector (job t e w)
        ≡ returns (job [] e w, err (header_error (if is_empty t then e else cut_short e)))
  unfolding convert_next
  convert_next_short t e w short =
      rw (read_full_short B.common_header_len (record { rest = t; ending = e }) short)

  pub head_pos :
      (f : Frame) (out : Bytes)
      → 0 < B.common_header_len
      → Renders B json collector f out
      → 0 < length f.head
  head_pos f out pos (skips h i _ _) = omega (arith, i.head_len)
  head_pos f out pos (fails h x i _ _ _) = omega (arith, i.head_len)
  head_pos f out pos (prints h u b i _ _ _ _) = omega (arith, i.head_len)

  pub raw-append :
      (f : Frame) (ps : List (Frame × Bytes)) (t : Bytes)
      → (f.head ++ (f.body ++ raw ps)) ++ t ≡ f.head ++ (f.body ++ (raw ps ++ t))
  raw-append f ps t =
      append_assoc f.head (f.body ++ raw ps) t
      ∙ ap (λ (l : Bytes). f.head ++ l) (append_assoc f.body (raw ps) t)
