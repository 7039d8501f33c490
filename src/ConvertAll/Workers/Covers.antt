-- ===== src/ConvertAll/Workers/Covers.antt =====
-- No archive of the listing is lost but those that the workers hold when `main` ends.
use google_cloud_storage.Base.{
  ℕ, zero, suc, ◌≤◌, Bytes, List, [], ◌∷◌, ◌++◌, Option, none, some, Bool, true, false, length,
  length-append, ◌≡◌, ◌≢◌, ◌⊎◌, inl, inr, refl, sym, arith, ◌∙◌,
}
use google_cloud_storage.Base.Result.{Error, Result, ok, err}
use google_cloud_storage.Server.{project_metadata_key}
use google_cloud_storage.Storage.{Attrs, Gcs, IsLawful}
use google_cloud_storage.Converter.Archive.{dst_object, obj_exists}
use google_cloud_storage.ConvertAll.Workers.{
  Job, checking, reading, updating, Turn, Process, started, launched, check_turn, read_turn,
  update_turn, turn, Step, hands, works, exits, Run, here, next,
}
use google_cloud_storage.ConvertAll.Workers.Keeps.{Kept, Run-Keeps, launched-Keeps_start}
use mathlib.Core.List.{Memᴰ}
use mathlib.Core.List.Memᴰ

-- The object that a worker holds.
abbrev pub object_of : Option Job → List Bytes
object_of none = []
object_of (some (checking obj)) = obj ∷ []
object_of (some (reading obj)) = obj ∷ []
object_of (some (updating obj source)) = obj ∷ []

-- The objects that the workers hold.
unfoldable pub held : List (Option Job) → List Bytes
held [] = []
held (w ∷ ws) = object_of w ++ held ws

object_of_short : (w : Option Job) → length (object_of w) ≤ 1
object_of_short none = omega arith
object_of_short (some (checking obj)) = omega arith
object_of_short (some (reading obj)) = omega arith
object_of_short (some (updating obj source)) = omega arith

length-held : (ws : List (Option Job)) → length (held ws) ≤ length ws
unfolding held
length-held [] = omega arith
length-held (w ∷ ws) =
    omega (arith, length-append (object_of w) (held ws), object_of_short w, length-held ws)

-- One worker moves on: an object that it held is held still, or somewhere else.
held_middle :
    (obj : Bytes) (R : Type 0) (w v : Option Job)
    → (Memᴰ obj (object_of w) → Memᴰ obj (object_of v) ⊎ R)
    → (after before : List (Option Job)) → Memᴰ obj (held (before ++ (w ∷ after)))
    → Memᴰ obj (held (before ++ (v ∷ after))) ⊎ R
unfolding held
held_middle obj R w v f after [] m = elim (Memᴰ.append_cases (object_of w) m) [
  | inl k ↦ elim (f k) [ inl t ↦ inl (Memᴰ.append_left (held after) t) | inr r ↦ inr r ]
  | inr k ↦ inl (Memᴰ.append_right (object_of v) k)
]
held_middle obj R w v f after (b ∷ before) m = elim (Memᴰ.append_cases (object_of b) m) [
  | inl k ↦ inl (Memᴰ.append_left (held (before ++ (v ∷ after))) k)
  | inr k ↦ elim (held_middle obj R w v f after before k) [
    | inl t ↦ inl (Memᴰ.append_right (object_of b) t)
    | inr r ↦ inr r
  ]
]

-- A free worker takes an object.
held_taken :
    (obj : Bytes) (after before : List (Option Job))
    → Memᴰ obj (held (before ++ (some (checking obj) ∷ after)))
unfolding held
held_taken obj after [] = Memᴰ.head refl
held_taken obj after (b ∷ before) = Memᴰ.append_right (object_of b) (held_taken obj after before)

length-middle :
    (w v : Option Job) (after before : List (Option Job))
    → length (before ++ (w ∷ after)) ≡ length (before ++ (v ∷ after))
length-middle w v after before =
    omega (arith, length-append before (w ∷ after), length-append before (v ∷ after))

pub length-started : (w : ℕ) → length (started w) ≡ w
unfolding started
length-started zero = refl
length-started (suc w) = omega (arith, length-started w)

-- Where an object is: `main` has yet to send it, a worker holds it, or its update was notified.
abbrev pub Spot : {S : Type 0} → Bytes → Process S → Type 0
Spot obj c = Memᴰ obj c.unsent ⊎ (Memᴰ obj (held c.workers) ⊎ Memᴰ obj c.notified)

-- The store takes the update of every object of the bucket that exists.
abbrev pub Accepts : (G : Gcs) → Bytes → Type 0
Accepts G src =
    (o v : Bytes) (s : G.State) (a : Attrs)
    → G.attrs src o s ≡ ok a
    → (G.set_metadata src o project_metadata_key v s).1 ≡ ok tt

module _ (G : Gcs) (src dst : Bytes) (s₀ : G.State) (differ : src ≢ dst) (takes : Accepts G src)
    (obj : Bytes) (a : Attrs) (there : G.attrs src obj s₀ ≡ ok a)
    (fresh : obj_exists G (dst_object obj) dst s₀ ≢ ok true) where
  abbrev Moved : Turn G.State → Type 0
  Moved t = Memᴰ obj (object_of t.job) ⊎ Memᴰ obj t.notified

  checked : (s : G.State) (x : Result Bool) → x ≢ ok true → Moved (check_turn G src dst obj x s)
  unfolding check_turn
  checked s (ok true) h = absurd (h refl)
  checked s (ok false) h = inl (Memᴰ.head refl)
  checked s (err e) h = inl (Memᴰ.head refl)

  updated : (x : G.State × Result (Unit {0})) → x.1 ≡ ok tt → Moved (update_turn G src dst obj x)
  unfolding update_turn
  updated (s, ok u) h = inr (Memᴰ.head refl)
  updated (s, err e) h = absurd (cc)

  exists_same :
      (s : G.State)
      → Kept G src s₀ s
      → obj_exists G (dst_object obj) dst s ≡ obj_exists G (dst_object obj) dst s₀
  unfolding obj_exists
  exists_same s k = rw (k.elsewhere dst (dst_object obj) differ) refl

  turn-Moved :
      (j : Job) (s : G.State)
      → Kept G src s₀ s
      → Memᴰ obj (object_of (some j))
      → Moved (turn G src dst j s)
  unfolding turn read_turn
  turn-Moved (checking o) s k m =
      rw (sym (Memᴰ.eq_of_singleton m)) (checked s _ (rw (exists_same s k) fresh))
  turn-Moved (reading o) s k m =
      let (b, f, like) = k.present obj a there in
      rw (sym (Memᴰ.eq_of_singleton m)) (rw f (inl (Memᴰ.head refl)))
  turn-Moved (updating o source) s k m =
      let (b, f, like) = k.present obj a there in
      rw (sym (Memᴰ.eq_of_singleton m)) (updated _ (takes obj source s b f))

  Step-Spot :
      (listing_err : Option Error) (c d : Process G.State)
      → Step G src dst listing_err c d
      → Kept G src s₀ c.store
      → Spot obj c
      → Spot obj d
  Step-Spot listing_err c d (hands o rest before after on un ws e) k (inl m) =
      elim (Memᴰ.cases_cons (rw un at m)) [
        | inl p ↦ rw (e, p) (inr (inl (held_taken o after before)))
        | inr t ↦ rw e (inl t)
      ]
  Step-Spot listing_err c d (hands o rest before after on un ws e) k (inr (inl m)) =
      elim (held_middle obj ⊥ none (some (checking o)) (λ t. absurd (Memᴰ.not-nil t)) after before
        (rw ws at m)) [ inl t ↦ rw e (inr (inl t)) | inr x ↦ absurd x ]
  Step-Spot listing_err c d (hands o rest before after on un ws e) k (inr (inr m)) =
      rw e (inr (inr m))
  Step-Spot listing_err c d (works j before after on ws e) k (inl m) = rw e (inl m)
  Step-Spot listing_err c d (works j before after on ws e) k (inr (inl m)) =
      elim (held_middle obj (Memᴰ obj (turn G src dst j c.store).notified) (some j)
        (turn G src dst j c.store).job (turn-Moved j c.store k) after before (rw ws at m)) [
          | inl t ↦ rw e (inr (inl t))
          | inr t ↦ rw e (inr (inr (Memᴰ.append_left c.notified t)))
        ]
  Step-Spot listing_err c d (works j before after on ws e) k (inr (inr m)) =
      rw e (inr (inr (Memᴰ.append_right (turn G src dst j c.store).notified m)))
  Step-Spot listing_err c d (exits on un e) k m = rw e m

module _ (G : Gcs) (src dst : Bytes) (listing_err : Option Error) where
  Step-length :
      (c d : Process G.State) → Step G src dst listing_err c d → length d.workers ≡ length c.workers
  Step-length c d (hands obj rest before after on un ws e) =
      rw (e, ws) (length-middle (some (checking obj)) none after before)
  Step-length c d (works j before after on ws e) =
      rw (e, ws) (length-middle (turn G src dst j c.store).job (some j) after before)
  Step-length c d (exits on un e) = rw e refl

  pub Run-length :
      (c d : Process G.State) → Run G src dst listing_err c d → length d.workers ≡ length c.workers
  Run-length c d here = refl
  Run-length c d (next {d = m} run st) = Step-length m d st ∙ Run-length c m run

module _ (G : Gcs) (md5 : Bytes → Bytes) (L : IsLawful md5 G) (src dst : Bytes) (differ : src ≢ dst)
    (takes : Accepts G src) where
  -- When the two buckets differ and the store takes the updates of the source bucket's objects:
  -- wherever a run of `main` and its workers stands, in whatever order they take their turns, an
  -- archive of the listing that was there at the start, without a converted archive, is still to
  -- be sent, or in the hands of a worker, or the bucket has notified its update, which asks for its
  -- conversion; and the workers hold at most one archive each.
  pub launched-Covers :
      (listing : List Bytes) (w : ℕ) (listing_err : Option Error) (s : G.State)
      (d : Process G.State) (obj : Bytes) (a : Attrs)
      → Memᴰ obj listing
      → G.attrs src obj s ≡ ok a
      → obj_exists G (dst_object obj) dst s ≢ ok true
      → Run G src dst listing_err (launched listing w s) d
      → Spot obj d × (length (held d.workers) ≤ w)
  unfolding launched
  launched-Covers listing w listing_err s d obj a m there fresh run = (
    spot d run,
    omega (
      arith,
      length-held d.workers,
      Run-length G src dst listing_err (launched listing w s) d run,
      length-started w,
    ),
  )
    where
      spot : (d : Process G.State) → Run G src dst listing_err (launched listing w s) d → Spot obj d
      spot d here = inl m
      spot d (next {d = c} run st) =
          Step-Spot G src dst s differ takes obj a there fresh listing_err c d st
            (Run-Keeps G md5 L src dst s listing_err (launched listing w s) c
              (launched-Keeps_start G md5 L src dst s listing w) run).store
            (spot c run)
