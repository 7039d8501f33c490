-- ===== src/Converter/Loop/Total.antt =====
-- The loop of `convert` in pkg/mrt_converter/mrt_converter.go ends: each round that goes on has
-- taken a header off the input.
use google_cloud_storage.Base.{
  ℕ, zero, suc, ◌≤◌, ◌<◌, length, Bytes, some, ◌≡◌, refl, arith, inl, inr, Bool-cases, ◌++◌,
}
use google_cloud_storage.Base.Result.{Error, Result, ok, err}
use google_cloud_storage.Base.Run.{Run, returns, panic}
use google_cloud_storage.Converter.Interface.{Header, Gobgp, Gzip}
use google_cloud_storage.Converter.Update.{Update, parse_update}
use google_cloud_storage.Converter.Stream.{Stream, read_full, length-read_full, length-read_full_le}
use google_cloud_storage.Converter.Loop.{
  Job, newline, write_line, json_stage, update_stage, body_stage, decoded_stage, header_stage,
  convert_next, convert_loop, convert, unsupported, closed,
}
use mathlib.Core.Path.{subst, ap}

module _ (B : Gobgp) (Z : Gzip) (json : Update B.Time → Result Bytes) (collector : Bytes) where
  abbrev left : Job Z.Writer → ℕ
  left j = length j.input.rest

  -- A stage of a round leaves at most `n` bytes.
  abbrev Leaves : ℕ → Run (Job Z.Writer × Result (Unit {0})) → Type 0
  Leaves n panic = Unit
  Leaves n (returns (j, r)) = left j ≤ n

  Leaves-write_line :
      (j : Job Z.Writer) (line : Bytes) → Leaves (left j) (write_line B Z json collector j line)
  unfolding write_line
  Leaves-write_line j line = omega arith

  Leaves-json_stage :
      (j : Job Z.Writer) (r : Result Bytes) → Leaves (left j) (json_stage B Z json collector j r)
  unfolding json_stage
  Leaves-json_stage j (err e) = omega arith
  Leaves-json_stage j (ok b) = Leaves-write_line j (b ++ newline)

  Leaves-mono :
      (m n : ℕ) (x : Run (Job Z.Writer × Result (Unit {0}))) → m ≤ n → Leaves m x → Leaves n x
  Leaves-mono m n panic h l = tt
  Leaves-mono m n (returns (j, r)) h l = omega arith

  Leaves-update_stage :
      (j : Job Z.Writer) (r : Run (Result (Update B.Time)))
      → Leaves (left j) (update_stage B Z json collector j r)
  unfolding update_stage
  Leaves-update_stage j panic = tt
  Leaves-update_stage j (returns (err e)) = omega arith
  Leaves-update_stage j (returns (ok u)) = Leaves-json_stage j (json u)

  Leaves-body_stage :
      (h : Header) (j : Job Z.Writer) (r : Result Bytes)
      → Leaves (left j) (body_stage B Z json collector h j r)
  unfolding body_stage
  Leaves-body_stage h j (err e) = omega arith
  Leaves-body_stage h j (ok buf) = elim (Bool-cases (unsupported B h)) [
    | inl e ↦ rw e (omega arith)
    | inr e ↦ rw e (Leaves-update_stage j (parse_update B collector (some h) buf))
  ]

  Leaves-decoded_stage :
      (j : Job Z.Writer) (r : Result Header)
      → Leaves (left j) (decoded_stage B Z json collector j r)
  unfolding decoded_stage
  Leaves-decoded_stage j (err e) = omega arith
  Leaves-decoded_stage j (ok h) =
      let (i, r) = read_full h.len j.input in
      Leaves-mono (length i.rest) (left j) _ (length-read_full_le h.len j.input)
        (Leaves-body_stage h (record j { input = i }) r)

  -- A round that goes on leaves fewer bytes.
  convert_next-lt :
      (j j' : Job Z.Writer) (u : Unit {0})
      → 0 < B.common_header_len
      → convert_next B Z json collector j ≡ returns (j', ok u)
      → left j' < left j
  unfolding convert_next
  convert_next-lt j j' u pos e = go (read_full B.common_header_len j.input) refl e
    where
      go :
          (p : Stream × Result Bytes)
          → read_full B.common_header_len j.input ≡ p
          → header_stage B Z json collector (record j { input = p.0 }) p.1 ≡ returns (j', ok u)
          → left j' < left j
      go (i, err x) f g = cc
      go (i, ok buf) f g = omega (
        arith,
        length-read_full B.common_header_len j.input buf (ap (λ p. p.1) f),
        ap (λ p. length p.0.rest) f,
        subst (Leaves (length i.rest)) g
            (Leaves-decoded_stage (record j { input = i }) (B.decode_header buf)),
      )

  -- Fuel beyond the bytes that are left is enough: the loop returns a result, or panics.
  pub convert_loop_total :
      (fuel : ℕ) (j : Job Z.Writer)
      → 0 < B.common_header_len
      → left j < fuel
      → (r : Run (Job Z.Writer × Error)) × (convert_loop B Z json collector fuel j ≡ some r)
  unfolding convert_loop
  convert_loop_total zero j pos h = absurd (omega arith)
  convert_loop_total (suc fuel) j pos h =
      go (λ k. convert_loop_total fuel k pos) (convert_next B Z json collector j) refl
    where
      go :
          ((k : Job Z.Writer)
            → left k < fuel
            → (r : Run (Job Z.Writer × Error)) × (convert_loop B Z json collector fuel k ≡ some r))
          → (x : Run (Job Z.Writer × Result (Unit {0}))) → convert_next B Z json collector j ≡ x
          → (r : Run (Job Z.Writer × Error)) × (convert_loop B Z json collector (suc fuel) j
              ≡ some r)
      go ih panic e = (panic, rw (e, convert_loop))
      go ih (returns (j', err x)) e = (returns (j', x), rw (e, convert_loop))
      go ih (returns (j', ok u)) e =
          let (r, f) = ih j' (omega (arith, convert_next-lt j j' u pos e)) in
          (r, rw (e, convert_loop) f)

  finished :
      (r : Run (Job Z.Writer × Error))
      → (x : Run Bytes) × (closed B Z json collector (some r) ≡ some x)
  finished panic = (panic, refl)
  finished (returns (j, e)) = (returns (Z.close j.output), refl)

  -- Where a header takes at least one byte, a conversion of any input ends: it gives the
  -- compressed output, or panics.
  pub convert_total :
      (input : Stream)
      → 0 < B.common_header_len
      → (r : Run Bytes) × (convert B Z json collector input ≡ some r)
  unfolding convert
  convert_total input pos =
      let j : Job Z.Writer = record { input = input; output = Z.fresh } in
      let (r, e) = convert_loop_total (suc (length input.rest)) j pos (omega arith) in
      rw e (finished r)
