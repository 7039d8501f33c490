-- ===== src/ConvertAll/Workers/Marks.antt =====
-- An archive whose update was notified carries a project, which its conversion reads.
use google_cloud_storage.Base.{
  Bytes, List, [], ◌∷◌, ◌++◌, Option, some, Bool-cases, Bool, true, false, same, same_iff,
  same_refl, All, All-at, ◌≡◌, ◌∙◌, inl, inr, refl, sym, ap, ℕ,
}
use google_cloud_storage.Base.Dict.{lookup, insert, lookup-insert}
use google_cloud_storage.Base.Result.{Error, Result, ok, err}
use google_cloud_storage.Server.{project_metadata_key}
use google_cloud_storage.Storage.{Attrs, Gcs, IsLawful}
use google_cloud_storage.Converter.Archive.{dst_object, obj_exists}
use google_cloud_storage.ConvertAll.Workers.{
  Job, checking, reading, updating, Turn, Process, launched, check_turn, read_turn, update_turn,
  turn, Step, hands, works, exits, Run, here, next,
}
use google_cloud_storage.ConvertAll.Workers.Alike.{project}
use google_cloud_storage.ConvertAll.Workers.Keeps.{
  Kept, Keeps, Holds, Run-Keeps, launched-Keeps_start,
}
use mathlib.Core.Path.{subst}

module _ (G : Gcs) (src : Bytes) (s₀ : G.State) where
  -- The object's project is set to the one that it stood for at the start.
  abbrev pub IsMarked : G.State → Bytes → Type 0
  IsMarked s o =
      (a : Attrs)
      → G.attrs src o s₀ ≡ ok a
      → (b : Attrs) × (G.attrs src o s ≡ ok b)
        × (lookup project_metadata_key b.metadata ≡ some (project a))

module _ (G : Gcs) (md5 : Bytes → Bytes) (L : IsLawful md5 G) (src dst : Bytes) (s₀ : G.State) where
  set_marks :
      (o source : Bytes) (s : G.State)
      → Kept G src s₀ s
      → Holds G src s₀ (some (updating o source))
      → (G.set_metadata src o project_metadata_key source s).1 ≡ ok tt
      → IsMarked G src s₀ (G.set_metadata src o project_metadata_key source s).0 o
  set_marks o source s k h done a e =
      let (b, f, like) = k.present o a e in
      (
        record b { metadata = insert project_metadata_key source b.metadata },
        L.attrs-set_metadata src o project_metadata_key source s b f done,
        lookup-insert project_metadata_key project_metadata_key source b.metadata
            ∙ rw (same_refl project_metadata_key) (ap (λ v. some v) (h a e)),
      )

  -- A mark outlives the update of its own object, and of another.
  set_keeps_own :
      (o source : Bytes) (s : G.State)
      → Kept G src s₀ s
      → Holds G src s₀ (some (updating o source))
      → IsMarked G src s₀ s o
      → (x : Result (Unit {0})) → (G.set_metadata src o project_metadata_key source s).1 ≡ x
      → IsMarked G src s₀ (G.set_metadata src o project_metadata_key source s).0 o
  set_keeps_own o source s k h m (ok u) done = set_marks o source s k h done
  set_keeps_own o source s k h m (err z) done = λ a e.
      let (b, f, g) = m a e in
      (b, L.attrs-set_metadata_refused src o project_metadata_key source s z done ∙ f, g)

  set_keeps :
      (o source : Bytes) (s : G.State)
      → Kept G src s₀ s
      → Holds G src s₀ (some (updating o source))
      → (obj : Bytes) → IsMarked G src s₀ s obj
      → IsMarked G src s₀ (G.set_metadata src o project_metadata_key source s).0 obj
  set_keeps o source s k h obj m = elim (Bool-cases (same o obj)) [
    | inl y ↦
        let p = (same_iff o obj).0 y in
        subst (IsMarked G src s₀ (G.set_metadata src o project_metadata_key source s).0) p
          (set_keeps_own o source s k h (subst (IsMarked G src s₀ s) (sym p) m) _ refl)
    | inr n ↦ λ a e.
        let (b, f, g) = m a e in
        (
          b,
          L.attrs-set_metadata_ne src o project_metadata_key source src obj s
                (inr (λ y. let t = (same_iff o obj).1 y in absurd (cc)))
              ∙ f,
          g,
        )
  ]

  set_keeps_all :
      (o source : Bytes) (s : G.State)
      → Kept G src s₀ s
      → Holds G src s₀ (some (updating o source))
      → (os : List Bytes) → All (IsMarked G src s₀ s) os
      → All (IsMarked G src s₀ (G.set_metadata src o project_metadata_key source s).0) os
  set_keeps_all o source s k h [] ms = tt
  set_keeps_all o source s k h (obj ∷ os) (m, ms) =
      (set_keeps o source s k h obj m, set_keeps_all o source s k h os ms)

  -- What a turn notifies is marked, and so stays what was.
  abbrev Marks : List Bytes → Turn G.State → Type 0
  Marks os t = All (IsMarked G src s₀ t.store) (t.notified ++ os)

  check-Marks :
      (o : Bytes) (x : Result Bool) (s : G.State) (os : List Bytes)
      → All (IsMarked G src s₀ s) os
      → Marks os (check_turn G src dst o x s)
  unfolding check_turn
  check-Marks o (ok true) s os ms = ms
  check-Marks o (ok false) s os ms = ms
  check-Marks o (err e) s os ms = ms

  read-Marks :
      (o : Bytes) (x : Result Attrs) (s : G.State) (os : List Bytes)
      → All (IsMarked G src s₀ s) os
      → Marks os (read_turn G src dst o x s)
  unfolding read_turn
  read-Marks o (ok a) s os ms = ms
  read-Marks o (err e) s os ms = ms

  update-Marks :
      (o : Bytes) (x : G.State × Result (Unit {0})) (os : List Bytes)
      → (x.1 ≡ ok tt → IsMarked G src s₀ x.0 o)
      → All (IsMarked G src s₀ x.0) os
      → Marks os (update_turn G src dst o x)
  unfolding update_turn
  update-Marks o (s, ok u) os m ms = (m refl, ms)
  update-Marks o (s, err e) os m ms = ms

  turn-Marks :
      (j : Job) (s : G.State) (os : List Bytes)
      → Kept G src s₀ s
      → Holds G src s₀ (some j)
      → All (IsMarked G src s₀ s) os
      → Marks os (turn G src dst j s)
  unfolding turn
  turn-Marks (checking o) s os k h ms = check-Marks o (obj_exists G (dst_object o) dst s) s os ms
  turn-Marks (reading o) s os k h ms = read-Marks o (G.attrs src o s) s os ms
  turn-Marks (updating o source) s os k h ms =
      update-Marks o (G.set_metadata src o project_metadata_key source s) os
        (set_marks o source s k h) (set_keeps_all o source s k h os ms)

  Step-marks :
      (listing_err : Option Error) (c d : Process G.State)
      → Step G src dst listing_err c d
      → Keeps G src s₀ c
      → All (IsMarked G src s₀ c.store) c.notified
      → All (IsMarked G src s₀ d.store) d.notified
  Step-marks listing_err c d (hands o rest before after on un ws e) i ms = rw e ms
  Step-marks listing_err c d (works j before after on ws e) i ms = rw e (
      turn-Marks j c.store c.notified i.store
        (All-at (Holds G src s₀) before (some j) after (rw ws at i.jobs)) ms)
  Step-marks listing_err c d (exits on un e) i ms = rw e ms

module _ (G : Gcs) (md5 : Bytes → Bytes) (L : IsLawful md5 G) (src dst : Bytes) where
  -- Every object whose update was notified is marked.
  pub launched-marks :
      (listing : List Bytes) (w : ℕ) (listing_err : Option Error) (s : G.State)
      (d : Process G.State)
      → Run G src dst listing_err (launched listing w s) d
      → All (IsMarked G src s d.store) d.notified
  unfolding launched
  launched-marks listing w listing_err s d here = tt
  launched-marks listing w listing_err s d (next {d = c} run st) =
      Step-marks G md5 L src dst s listing_err c d st
        (Run-Keeps G md5 L src dst s listing_err (launched listing w s) c
          (launched-Keeps_start G md5 L src dst s listing w) run)
        (launched-marks listing w listing_err s c run)
