-- ===== src/MassUpload/Command.antt =====
-- `new` and `main` of cmd/archive_upload_mass_upload/mass_upload.go, up to the start of the threads.
-- The connections are arguments.
use google_cloud_storage.Base.{
  ℕ, Bytes, is_empty, [], ◌||◌, if◌then◌else◌, ◌≡◌, ◌≢◌, List, refl, sym, ◌∙◌, arith, is_empty_iff,
  Bool-cases, inl, inr, ap, zero, suc, ◌∷◌,
}
use google_cloud_storage.Base.Result.{errorf, wrap, Result, ok, err, within, ◌>>=◌, ◌>>◌}
use google_cloud_storage.Base.Run.{Run, returns, panic}
use google_cloud_storage.MassUpload.{WalkEntry}
use google_cloud_storage.MassUpload.Channel.{Process, launched}
use google_cloud_storage.MassUpload.Url.{site_and_dir}
use mathlib.Core.Path.{subst}

-- The flags.
pub record Flags : Type 0 where
  pub bucket : Bytes
  pub archive : Bytes
  pub archive_user : Bytes
  pub archive_pass : Bytes
  pub upload_url : Bytes
  pub sa_key : Bytes
  pub threads : ℕ

module _ (Ftp Store Grpc : Type 0) where
  -- `client`, without the channel, the group and the metrics, which the process keeps.
  pub record Client : Type 0 where
    pub site : Bytes
    pub user : Bytes
    pub passwd : Bytes
    pub grpc : Grpc
    pub storage : Store
    pub ftp : Ftp
    pub bucket : Bytes

  module _ (connect_ftp : Bytes → Result Ftp) (login : Ftp → Bytes → Bytes → Result (Unit {0}))
      (new_storage : Result Store) (new_grpc : Bytes → Bytes → Result Grpc) where
    unfoldable pub new_client : Flags → Bytes → Result Client
    new_client fl site = do
      f ← within "failed to connect to the ftp site(%v)" (connect_ftp site)
      within "failed to login to site(%v) as u/p (%v/%v)" (login f fl.archive_user fl.archive_pass)
      c ← within "failed to create a new storage client" new_storage
      gc ← within "failed to create gRPC client" (new_grpc fl.upload_url fl.sa_key)
      ok (record {
        site = site;
        user = fl.archive_user;
        passwd = fl.archive_pass;
        grpc = gc;
        storage = c;
        ftp = f;
        bucket = fl.bucket;
      })

    -- The rest of `main` until the threads start: the client, and the directory of the walk.
    abbrev pub with_dir : Bytes → Result Client → Result (Client × Bytes)
    with_dir dir (err e) = err (wrap "failed to create the client" e)
    with_dir dir (ok c) = ok (c, dir)

    abbrev pub connected : Flags → Run (Bytes × Bytes) → Run (Result (Client × Bytes))
    connected fl panic = panic
    connected fl (returns (site, dir)) = returns (with_dir dir (new_client fl site))

    unfoldable pub prepare : Flags → Run (Result (Client × Bytes))
    unfolding new_client site_and_dir
    prepare fl =
        if is_empty fl.bucket || is_empty fl.archive
        then returns (err (errorf "set archive and bucket, or there is nothing to do"))
        else connected fl (site_and_dir fl.archive)

    -- `for i := 0; i < *threads; i++`, by what connecting and logging in gives each worker.
    unfoldable pub logins_from : (ℕ → Result (Unit {0})) → ℕ → ℕ → List (Result (Unit {0}))
    logins_from logs_in i zero = []
    logins_from logs_in i (suc n) = logs_in i ∷ logins_from logs_in (suc i) n

    -- `main` from there: the walk of the directory, and the workers.
    unfoldable pub begin :
        {S : Type 0}
        → Flags
        → (Bytes → List WalkEntry)
        → (ℕ → Result (Unit {0}))
        → Client × Bytes
        → S
        → Process S
    unfolding launched logins_from
    begin fl tree logs_in (c, dir) s = launched (logins_from logs_in 0 fl.threads) (tree dir) s

    -- The parts of a client, and how they were made.
    pub record Made (fl : Flags) (site : Bytes) (c : Client) : Type 0 where
      pub at_site : c.site ≡ site
      pub of_bucket : c.bucket ≡ fl.bucket
      pub dialled : connect_ftp site ≡ ok c.ftp
      pub logged_in : login c.ftp fl.archive_user fl.archive_pass ≡ ok tt
      pub stored : new_storage ≡ ok c.storage
      pub called : new_grpc fl.upload_url fl.sa_key ≡ ok c.grpc

    new_client-Made :
        (fl : Flags) (site : Bytes) (c : Client) → new_client fl site ≡ ok c → Made fl site c
    unfolding new_client
    new_client-Made fl site c h = with_ftp (connect_ftp site) refl
      where
        with_all :
            (f : Ftp)
            → connect_ftp site ≡ ok f
            → (l : Result (Unit {0})) → login f fl.archive_user fl.archive_pass ≡ l
            → (y : Result Store) → new_storage ≡ y
            → (z : Result Grpc) → new_grpc fl.upload_url fl.sa_key ≡ z
            → Made fl site c
        with_all f e1 (err x) e y e2 z e3 = (let h' = rw (e1, e) at h in absurd (cc))
        with_all f e1 (ok u) e (err x) e2 z e3 = (let h' = rw (e1, e, e2) at h in absurd (cc))
        with_all f e1 (ok u) e (ok st) e2 (err x) e3 =
            (let h' = rw (e1, e, e2, e3) at h in absurd (cc))
        with_all f e1 (ok u) e (ok st) e2 (ok g) e3 =
            let h' = rw (e1, e, e2, e3) at h in
            let k : ◌≡◌ {A = Client}
                (record {
                  site = site;
                  user = fl.archive_user;
                  passwd = fl.archive_pass;
                  grpc = g;
                  storage = st;
                  ftp = f;
                  bucket = fl.bucket;
                })
                c =
              cc in
            subst (Made fl site) k (record {
              at_site = refl;
              of_bucket = refl;
              dialled = e1;
              logged_in = e;
              stored = e2;
              called = e3;
            })

        with_ftp : (x : Result Ftp) → connect_ftp site ≡ x → Made fl site c
        with_ftp (err x) e1 = (let h' = rw e1 at h in absurd (cc))
        with_ftp (ok f) e1 =
            with_all f e1 (login f fl.archive_user fl.archive_pass) refl new_storage refl
              (new_grpc fl.upload_url fl.sa_key) refl

    -- A command that starts has a bucket and an archive in its flags, and a client of that bucket,
    -- at the site that the archive names, logged in; it walks the directory that the archive names.
    pub prepare-Made :
        (fl : Flags) (c : Client) (dir : Bytes)
        → prepare fl ≡ returns (ok (c, dir))
        → (fl.bucket ≢ [])
          × (fl.archive ≢ [])
          × (site_and_dir fl.archive ≡ returns (c.site, dir))
          × Made fl c.site c
    unfolding prepare
    prepare-Made fl c dir h = elim (Bool-cases (is_empty fl.bucket)) [
      | inl e ↦ (let h' = rw e at h in absurd (cc))
      | inr e ↦ (elim (Bool-cases (is_empty fl.archive)) [
        | inl a ↦ (let h' = rw (e, a) at h in absurd (cc))
        | inr a ↦
            let went = go (site_and_dir fl.archive) refl (rw (e, a) at h) in
            (
              ground (arith, is_empty_iff fl.bucket),
              ground (arith, is_empty_iff fl.archive),
              went.0,
              went.1,
            )
      ])
    ]
      where
        returned : {A : Type 0} {x y : A} → ◌≡◌ {A = Run A} (returns x) (returns y) → x ≡ y
        returned k = cc

        from :
            (site d : Bytes)
            → site_and_dir fl.archive ≡ returns (site, d)
            → (r : Result Client) → new_client fl site ≡ r
            → with_dir d r ≡ ok (c, dir)
            → (site_and_dir fl.archive ≡ returns (c.site, dir)) × Made fl c.site c
        from site d e (err x) m j = absurd (cc)
        from site d e (ok b) m j =
            let same_client : b ≡ c = cc in
            let same_dir : d ≡ dir = cc in
            let here = new_client-Made fl site b m in
            let there : Made fl site c = subst (Made fl site) same_client here in
            let same_site : site ≡ c.site = sym there.at_site in
            (
              e ∙ ap (λ t. returns (t, d)) same_site ∙ ap (λ t. returns (c.site, t)) same_dir,
              subst (λ t. Made fl t c) same_site there,
            )

        go :
            (x : Run (Bytes × Bytes))
            → site_and_dir fl.archive ≡ x
            → connected fl x ≡ returns (ok (c, dir))
            → (site_and_dir fl.archive ≡ returns (c.site, dir)) × Made fl c.site c
        go panic e k = absurd (cc)
        go (returns (site, d)) e k = from site d e (new_client fl site) refl (returned k)
