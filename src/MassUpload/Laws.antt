-- ===== src/MassUpload/Laws.antt =====
-- What a worker of cmd/archive_upload_mass_upload does with the files it receives.
pub mod Loop
use google_cloud_storage.Base.{
  ℕ, ◌+◌, ◌≤◌, Bytes, codes, same, same_iff, same_refl, List, [], ◌∷◌, Option, none, some, true,
  false, ltb, ltb→lt, ◌≡◌, ◌≢◌, refl, ap, ◌∙◌, inl, inr, Bool-cases, arith, All, if◌then◌else◌, sym,
}
use google_cloud_storage.Base.Result.{Error, Result, ok, err}
use google_cloud_storage.Base.Effect.{M}
use google_cloud_storage.Proto.{FileRequest, FileResponse}
use google_cloud_storage.Storage.{Gcs}
use google_cloud_storage.Strings.Hex.{hex_encode}
use google_cloud_storage.Strings.Trim.{trim_left}
use google_cloud_storage.MassUpload.{
  EvalFile, Work, Exit, closed, Position, md5_from_gcs, md5_from_ftp, sum_or_empty, mass_request,
  upload_stage, compare_stage, fetch_stage, is_update, go_on, evaluate, read_channel, max_ftp_errs,
  max_grpc_errs, fatal, gave_up,
}

-- The files that a worker has accounted for.
abbrev pub counted : Work → ℕ
counted w = w.synced + w.skipped + w.errors + w.ftp_errs

unfoldable pub updates : List EvalFile → ℕ
updates [] = 0
updates (ef ∷ files) = (if is_update ef then 1 else 0) + updates files

pub record IsBounded (w : Work) : Type 0 where
  pub ftp : w.ftp_errs ≤ max_ftp_errs
  pub grpc : w.grpc_errs ≤ max_grpc_errs

plus_zero : (n : ℕ) → n ≡ n + 0
plus_zero n = omega arith

not_ltb : (a b : ℕ) → ltb a b ≡ false → b ≤ a
not_ltb a b h = ground arith

not_fatal : (x : Option Exit) → x ≡ none → x ≢ some fatal
not_fatal x h f = let clash : ◌≡◌ {A = Option Exit} none (some fatal) = sym h ∙ f in absurd (cc)

module _ {S : Type 0} where
  -- A file that is evaluated is counted once, unless it ends the process, and the counters of
  -- errors stay in their bounds.
  pub record IsCounted (w : Work) (p : Position S) : Type 0 where
    pub once : p.exit ≢ some fatal → counted p.work ≡ counted w + 1
    pub running : p.exit ≢ some closed
    pub spent : p.exit ≡ some gave_up → max_grpc_errs ≤ p.work.grpc_errs
    pub bounded : IsBounded w → IsBounded p.work

  upload_stage-IsCounted : (w : Work) (r : S × Result FileResponse) → IsCounted w (upload_stage w r)
  unfolding upload_stage
  upload_stage-IsCounted w (s, ok resp) = record {
    once = λ h. omega arith;
    running = λ h. absurd (cc);
    spent = λ h. absurd (cc);
    bounded = λ b. record { ftp = b.ftp; grpc = b.grpc };
  }
  upload_stage-IsCounted w (s, err e) = elim (Bool-cases (ltb w.grpc_errs max_grpc_errs)) [
    | inl k ↦ rw k (record {
      once = λ h. omega arith;
      running = λ h. absurd (cc);
      spent = λ h. absurd (cc);
      bounded = λ b. record {
        ftp = b.ftp;
        grpc = (let j = ltb→lt w.grpc_errs max_grpc_errs k in omega arith);
      };
    })
    | inr k ↦ rw k (record {
      once = λ h. omega arith;
      running = λ h. absurd (cc);
      spent = λ h. not_ltb w.grpc_errs max_grpc_errs k;
      bounded = λ b. record { ftp = b.ftp; grpc = b.grpc };
    })
  ]

  compare_stage-IsCounted :
      (send : M S FileResponse) (archived sum : Bytes) (w : Work) (s : S)
      → IsCounted w (compare_stage send archived sum w s)
  unfolding compare_stage
  compare_stage-IsCounted send archived sum w s = elim (Bool-cases (same archived sum)) [
    | inl k ↦ rw k (record {
      once = λ h. omega arith;
      running = λ h. absurd (cc);
      spent = λ h. absurd (cc);
      bounded = λ b. record { ftp = b.ftp; grpc = b.grpc };
    })
    | inr k ↦ rw k (upload_stage-IsCounted w (send s))
  ]

  fetch_stage-IsCounted :
      (upload : FileRequest → M S FileResponse) (ef : EvalFile) (archived : Bytes)
      (r : Result (Bytes × Bytes)) (w : Work) (s : S)
      → IsCounted w (fetch_stage upload ef archived r w s)
  unfolding fetch_stage
  fetch_stage-IsCounted upload ef archived (ok (sum, content)) w s =
      compare_stage-IsCounted (upload (mass_request ef sum content)) archived sum w s
  fetch_stage-IsCounted upload ef archived (err e) w s =
      elim (Bool-cases (ltb w.ftp_errs max_ftp_errs)) [
        | inl k ↦ rw k (record {
          once = λ h. omega arith;
          running = λ h. absurd (cc);
          spent = λ h. absurd (cc);
          bounded = λ b. record {
            ftp = (let j = ltb→lt w.ftp_errs max_ftp_errs k in omega arith);
            grpc = b.grpc;
          };
        })
        | inr k ↦ rw k (record {
          once = λ h. absurd (h refl);
          running = λ h. absurd (cc);
          spent = λ h. absurd (cc);
          bounded = λ b. b;
        })
      ]

module _ (G : Gcs) (md5 : Bytes → Bytes) (bucket : Bytes)
    (upload : FileRequest → M G.State FileResponse)
    (retr : Bytes → Result (Bytes × Option Error)) where
  abbrev pub step : EvalFile → Work → G.State → Position G.State
  step = evaluate G md5 bucket upload retr

  step_skips :
      (ef : EvalFile) (w : Work) (s : G.State)
      → is_update ef ≡ false
      → step ef w s ≡ record { store = s; work = w; exit = none }
  unfolding evaluate
  step_skips ef w s h = rw h

  step-IsCounted :
      (ef : EvalFile) (w : Work) (s : G.State) → is_update ef ≡ true → IsCounted w (step ef w s)
  unfolding evaluate
  step-IsCounted ef w s h = rw h (
      fetch_stage-IsCounted upload ef
        (sum_or_empty (md5_from_gcs G bucket (trim_left ef.name (codes "/")) s))
        (md5_from_ftp md5 (retr ef.name)) w s)

  pub step_open : (ef : EvalFile) (w : Work) (s : G.State) → (step ef w s).exit ≢ some closed
  step_open ef w s = elim (Bool-cases (is_update ef)) [
    | inl h ↦ (step-IsCounted ef w s h).running
    | inr h ↦ (let e = step_skips ef w s h in rw e (λ k. absurd (cc)))
  ]

  pub step-IsBounded :
      (ef : EvalFile) (w : Work) (s : G.State) → IsBounded w → IsBounded (step ef w s).work
  step-IsBounded ef w s b = elim (Bool-cases (is_update ef)) [
    | inl h ↦ (step-IsCounted ef w s h).bounded b
    | inr h ↦ rw (step_skips ef w s h) b
  ]

  pub step_counts :
      (ef : EvalFile) (w : Work) (s : G.State)
      → (step ef w s).exit ≢ some fatal
      → counted (step ef w s).work ≡ counted w + (if is_update ef then 1 else 0)
  step_counts ef w s h = elim (Bool-cases (is_update ef)) [
    | inl k ↦ (let e = (step-IsCounted ef w s k).once h in rw k e)
    | inr k ↦ (let e = step_skips ef w s k in rw (k, e) (omega arith))
  ]

  pub step_spent :
      (ef : EvalFile) (w : Work) (s : G.State)
      → (step ef w s).exit ≡ some gave_up
      → max_grpc_errs ≤ (step ef w s).work.grpc_errs
  step_spent ef w s h = elim (Bool-cases (is_update ef)) [
    | inl k ↦ (step-IsCounted ef w s k).spent h
    | inr k ↦
        let skip = step_skips ef w s k in
        let clash : ◌≡◌ {A = Option Exit} none (some gave_up) = sym (ap (λ p. p.exit) skip) ∙ h in
        absurd (cc)
  ]
