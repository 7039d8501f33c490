-- ===== src/ConvertAll/Workers/Keeps.antt =====
-- What the workers of a bucket's conversion leave alone, whatever the order of their calls.
use google_cloud_storage.Base.{
  ℕ, zero, suc, Bytes, List, Option, none, some, Bool, true, false, Bool-cases, same, same_iff, All,
  All-middle, All-at, ◌≡◌, ◌≢◌, ◌∙◌, inl, inr, refl,
}
use google_cloud_storage.Base.Dict.{insert, lookup}
use google_cloud_storage.Base.Result.{Error, Result, ok, err}
use google_cloud_storage.Server.{project_metadata_key}
use google_cloud_storage.Storage.{Attrs, Gcs, IsLawful}
use google_cloud_storage.Converter.Archive.{dst_object, obj_exists}
use google_cloud_storage.ConvertAll.Workers.{
  Job, checking, reading, updating, Process, started, launched, check_turn, read_turn, update_turn,
  turn, Step, hands, works, exits, Run, here, next,
}
use google_cloud_storage.ConvertAll.Workers.Alike.{
  project, Alike, Alike-insert, Alike-project, data_source_of-stands_for,
}
use mathlib.Core.Path.{subst}

module _ (G : Gcs) (src : Bytes) (s₀ : G.State) where
  -- A job sets no project but the one that its object stood for at the start.
  abbrev pub Holds : Option Job → Type 0
  Holds none = Unit
  Holds (some (checking obj)) = Unit
  Holds (some (reading obj)) = Unit
  Holds (some (updating obj source)) = (a : Attrs) → G.attrs src obj s₀ ≡ ok a → source ≡ project a

  -- The store against the one at the start.
  pub record Kept (s : G.State) : Type 0 where
    pub contents : (b o : Bytes) → G.read b o s ≡ G.read b o s₀
    pub elsewhere : (b o : Bytes) → src ≢ b → G.attrs b o s ≡ G.attrs b o s₀
    pub present :
        (o : Bytes) (a : Attrs)
        → G.attrs src o s₀ ≡ ok a
        → (b : Attrs) × (G.attrs src o s ≡ ok b) × Alike a b

  pub record Keeps (c : Process G.State) : Type 0 where
    pub store : Kept c.store
    pub jobs : All Holds c.workers

module _ (G : Gcs) (md5 : Bytes → Bytes) (L : IsLawful md5 G) (src dst : Bytes) (s₀ : G.State) where
  reads_same :
      (s : G.State) (o : Bytes) (x : Result Attrs)
      → G.attrs src o s ≡ x
      → Kept G src s₀ s
      → Holds G src s₀ (read_turn G src dst o x s).job
  unfolding read_turn
  reads_same s o (err e) h k = tt
  reads_same s o (ok b) h k = λ a e.
      let (b', f, like) = k.present o a e in
      let same_attrs : b ≡ b' = cc in
      data_source_of-stands_for (lookup project_metadata_key b.metadata)
      ∙ rw same_attrs (Alike-project a b' like)

  -- The update of an object whose attributes are known.
  set_own :
      (obj source : Bytes) (s : G.State) (a b : Attrs)
      → G.attrs src obj s ≡ ok b
      → Alike a b
      → source ≡ project a
      → (x : Result (Unit {0})) → (G.set_metadata src obj project_metadata_key source s).1 ≡ x
      → (c : Attrs) × (G.attrs src obj (G.set_metadata src obj project_metadata_key source s).0
          ≡ ok c)
        × Alike a c
  set_own obj source s a b g like v (ok u) done = (
    record b { metadata = insert project_metadata_key source b.metadata },
    L.attrs-set_metadata src obj project_metadata_key source s b g done,
    Alike-insert a b source like v,
  )
  set_own obj source s a b g like v (err z) done =
      (b, L.attrs-set_metadata_refused src obj project_metadata_key source s z done ∙ g, like)

  -- The update of one object, for the attributes of another and for its own.
  set_present :
      (obj source : Bytes) (s : G.State)
      → Kept G src s₀ s
      → ((a : Attrs) → G.attrs src obj s₀ ≡ ok a → source ≡ project a)
      → (o : Bytes) (a : Attrs) → G.attrs src o s₀ ≡ ok a
      → (b : Attrs) × (G.attrs src o (G.set_metadata src obj project_metadata_key source s).0
          ≡ ok b)
        × Alike a b
  set_present obj source s k h o a e =
      let (b, f, like) = k.present o a e in
      elim (Bool-cases (same obj o)) [
        | inl y ↦
            let p = (same_iff obj o).0 y in
            let (c, g, like') =
              set_own obj source s a b (rw p f) like (h a (rw p e))
                (G.set_metadata src obj project_metadata_key source s).1 refl in
            (
              c,
              subst
                  (λ q.
                    G.attrs src q (G.set_metadata src obj project_metadata_key source s).0 ≡ ok c)
                  p g,
              like',
            )
        | inr n ↦ (
          b,
          L.attrs-set_metadata_ne src obj project_metadata_key source src o s
                (inr (λ y. let t = (same_iff obj o).1 y in absurd (cc)))
              ∙ f,
          like,
        )
      ]

  set_Kept :
      (obj source : Bytes) (s : G.State)
      → Kept G src s₀ s
      → ((a : Attrs) → G.attrs src obj s₀ ≡ ok a → source ≡ project a)
      → Kept G src s₀ (G.set_metadata src obj project_metadata_key source s).0
  set_Kept obj source s k h = record {
    contents =
        λ b o. L.read-set_metadata src obj project_metadata_key source b o s ∙ k.contents b o;
    elsewhere = λ b o ne.
        L.attrs-set_metadata_ne src obj project_metadata_key source b o s (inl ne)
        ∙ k.elsewhere b o ne;
    present = set_present obj source s k h;
  }

  update_store :
      (obj : Bytes) (x : G.State × Result (Unit {0})) → (update_turn G src dst obj x).store ≡ x.0
  unfolding update_turn
  update_store obj (s, ok u) = refl
  update_store obj (s, err e) = refl

  update_job :
      (obj : Bytes) (x : G.State × Result (Unit {0})) → (update_turn G src dst obj x).job ≡ none
  unfolding update_turn
  update_job obj (s, ok u) = refl
  update_job obj (s, err e) = refl

  check_keeps :
      (obj : Bytes) (x : Result Bool) (s : G.State)
      → ((check_turn G src dst obj x s).store ≡ s)
        × Holds G src s₀ (check_turn G src dst obj x s).job
  unfolding check_turn
  check_keeps obj (ok true) s = (refl, tt)
  check_keeps obj (ok false) s = (refl, tt)
  check_keeps obj (err e) s = (refl, tt)

  read_store :
      (obj : Bytes) (x : Result Attrs) (s : G.State) → (read_turn G src dst obj x s).store ≡ s
  unfolding read_turn
  read_store obj (ok a) s = refl
  read_store obj (err e) s = refl

  turn_keeps :
      (j : Job) (s : G.State)
      → Kept G src s₀ s
      → Holds G src s₀ (some j)
      → Kept G src s₀ (turn G src dst j s).store × Holds G src s₀ (turn G src dst j s).job
  unfolding turn
  turn_keeps (checking obj) s k h =
      let (e, f) = check_keeps obj (obj_exists G (dst_object obj) dst s) s in (rw e k, f)
  turn_keeps (reading obj) s k h =
      (rw (read_store obj (G.attrs src obj s) s) k, reads_same s obj (G.attrs src obj s) refl k)
  turn_keeps (updating obj source) s k h =
      let x = G.set_metadata src obj project_metadata_key source s in
      (rw (update_store obj x) (set_Kept obj source s k h), rw (update_job obj x) tt)

  module _ (listing_err : Option Error) where
    Step-Keeps :
        (c d : Process G.State)
        → Step G src dst listing_err c d
        → Keeps G src s₀ c
        → Keeps G src s₀ d
    Step-Keeps c d (hands obj rest before after on un ws e) i = rw e (record {
      store = i.store;
      jobs =
          All-middle (Holds G src s₀) none (some (checking obj)) after before (λ h. tt)
            (rw ws at i.jobs);
    })
    Step-Keeps c d (works j before after on ws e) i =
        let all = rw ws at i.jobs in
        let (k, h) =
          turn_keeps j c.store i.store (All-at (Holds G src s₀) before (some j) after all) in
        rw e (record {
          store = k;
          jobs =
              All-middle (Holds G src s₀) (some j) (turn G src dst j c.store).job after before
                (λ x. h) all;
        })
    Step-Keeps c d (exits on un e) i = rw e (record { store = i.store; jobs = i.jobs })

    pub Run-Keeps :
        (c d : Process G.State)
        → Keeps G src s₀ c
        → Run G src dst listing_err c d
        → Keeps G src s₀ d
    Run-Keeps c d i here = i
    Run-Keeps c d i (next {d = m} run st) = Step-Keeps m d st (Run-Keeps c m i run)

  started-Holds : (w : ℕ) → All (Holds G src s₀) (started w)
  unfolding started
  started-Holds zero = tt
  started-Holds (suc w) = (tt, started-Holds w)

  pub launched-Keeps_start : (listing : List Bytes) (w : ℕ) → Keeps G src s₀ (launched listing w s₀)
  unfolding launched
  launched-Keeps_start listing w = record {
    store = record {
      contents = λ b o. refl;
      elsewhere = λ b o ne. refl;
      present = λ o a e. (a, e, record { sum = refl; entries = λ k ne. refl; project = inl refl });
    };
    jobs = started-Holds w;
  }

module _ (G : Gcs) (md5 : Bytes → Bytes) (L : IsLawful md5 G) (src dst : Bytes) where
  -- Whatever the order in which `main` and the workers take their turns, and wherever the run
  -- stands: no object of any bucket has changed its content, no object outside the source bucket
  -- its attributes, and each object of the source bucket has its checksum and its metadata but for
  -- the project, which is the one that it had, or ROUTEVIEWS when it had none or an empty one.
  pub launched-Keeps :
      (listing : List Bytes) (w : ℕ) (listing_err : Option Error) (s : G.State)
      (d : Process G.State)
      → Run G src dst listing_err (launched listing w s) d
      → Kept G src s d.store
  launched-Keeps listing w listing_err s d run =
      (Run-Keeps G md5 L src dst s listing_err (launched listing w s) d
        (launched-Keeps_start G md5 L src dst s listing w) run).store
