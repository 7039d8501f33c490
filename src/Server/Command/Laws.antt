-- ===== src/Server/Command/Laws.antt =====
-- When the upload server of cmd/archive_upload_server/server.go starts, and what it then serves.
use google_cloud_storage.Base.{
  Bytes, same, same_iff, Bool, true, false, none, [], ◌∷◌, All, ◌≡◌, ◌↔◌, refl, Bool-cases, inl,
  inr, String, ap, sym, ◌∙◌,
}
use google_cloud_storage.Base.Dict.{Dict, lookup, has}
use google_cloud_storage.Base.Result.{Result, ok, err, within, ◌>>=◌}
use google_cloud_storage.Proto.{project_string, project_value, FileRequest}
use google_cloud_storage.Storage.{Gcs}
use google_cloud_storage.Server.{
  Config, is_unknown, value_or_empty, bucket_of, check_buckets, new_rv_server,
}
use google_cloud_storage.Server.Upload.{reply, file_upload-error_none_iff}
use google_cloud_storage.Server.Command.{
  Files, read_config_file, address_of, Serving, serving, start,
}

-- A configured bucket that the store knows, for a project that the protocol names.
abbrev pub IsUsable : (G : Gcs) → G.State → Bytes × Bytes → Type 0
IsUsable G s p = (is_unknown (project_value p.0) ≡ false) × (G.bucket_attrs p.1 s ≡ ok tt)

pub check_buckets_iff :
    (G : Gcs) (d : Dict Bytes) (s : G.State) → (check_buckets G d s ≡ ok tt) ↔ All (IsUsable G s) d
unfolding check_buckets
check_buckets_iff G [] s = (λ h. tt, λ h. refl)
check_buckets_iff G ((proj, bkt) ∷ rest) s =
    go (is_unknown (project_value proj)) refl (G.bucket_attrs bkt s) refl
      (check_buckets_iff G rest s)
  where
    go :
        (x : Bool)
        → is_unknown (project_value proj) ≡ x
        → (y : Result (Unit {0})) → G.bucket_attrs bkt s ≡ y
        → (check_buckets G rest s ≡ ok tt) ↔ All (IsUsable G s) rest
        → (check_buckets G ((proj, bkt) ∷ rest) s ≡ ok tt) ↔ All (IsUsable G s) ((proj, bkt) ∷ rest)
    go true p y q ih = (λ h. (let h' = rw p at h in absurd (cc)), λ ((a, b), c). absurd (cc))
    go false p (err e) q ih =
        (λ h. (let h' = rw (p, q) at h in absurd (cc)), λ ((a, b), c). absurd (cc))
    go false p (ok u) q ih =
        (λ h. (let h' = rw (p, q) at h in ((p, q), ih.0 h')), λ ((a, b), c). rw (p, q) (ih.1 c))

within_ok :
    {A : Type 0} (message : String) (x : Result A) (a : A) → (within message x ≡ ok a) ↔ (x ≡ ok a)
within_ok message (ok b) a = (λ h. h, λ h. h)
within_ok message (err e) a = (λ h. absurd (cc), λ h. absurd (cc))

new_rv_server_iff :
    (G : Gcs) (r : Result Config) (s : G.State) (conf : Config)
    → (new_rv_server G r s ≡ ok conf) ↔ ((r ≡ ok conf) × All (IsUsable G s) conf.buckets)
unfolding new_rv_server
new_rv_server_iff G (err e) s conf = (λ h. absurd (cc), λ (h, a). absurd (cc))
new_rv_server_iff G (ok c) s conf = go (check_buckets G c.buckets s) refl
  where
    go :
        (x : Result (Unit {0}))
        → check_buckets G c.buckets s ≡ x
        → (new_rv_server G (ok c) s ≡ ok conf)
          ↔ ((◌≡◌ {A = Result Config} (ok c) (ok conf)) × All (IsUsable G s) conf.buckets)
    go (ok u) p = (
      λ h.
          let h' = rw (p, new_rv_server) at h in
          let e : c ≡ conf = cc in (h', rw (sym e) ((check_buckets_iff G c.buckets s).0 p)),
      λ (e, a). rw (p, new_rv_server) e,
    )
    go (err x) p = (
      λ h. (let h' = rw (p, new_rv_server) at h in absurd (cc)),
      λ (e, a).
          let f : conf ≡ c = cc in
          let q = (check_buckets_iff G c.buckets s).1 (rw f at a) in absurd (cc),
    )

module _ (F : Files) (config_file : Bytes) where
  -- The file is there, can be read, and holds the configuration.
  pub record Configures (conf : Config) : Type 0 where
    pub file : F.File
    pub text : Bytes
    pub opened : F.open_file config_file ≡ ok file
    pub loaded : F.read_all file ≡ ok text
    pub decoded : F.unmarshal text ≡ ok conf

  read_config_file_iff :
      (conf : Config) → (read_config_file F config_file ≡ ok conf) ↔ Configures conf
  unfolding read_config_file
  read_config_file_iff conf =
      (to (F.open_file config_file) refl, λ c. rw (c.opened, c.loaded, c.decoded) refl)
    where
      decode :
          (f : F.File)
          → F.open_file config_file ≡ ok f
          → (y : Result Bytes) → F.read_all f ≡ y
          → read_config_file F config_file ≡ ok conf
          → Configures conf
      decode f p (err e) q h = (let h' = rw (p, q) at h in absurd (cc))
      decode f p (ok b) q h = record {
        file = f;
        text = b;
        opened = p;
        loaded = q;
        decoded = (within_ok "yaml" (F.unmarshal b) conf).0 (rw (p, q) at h);
      }

      to :
          (x : Result F.File)
          → F.open_file config_file ≡ x
          → read_config_file F config_file ≡ ok conf
          → Configures conf
      to (err e) p h = (let h' = rw p at h in absurd (cc))
      to (ok f) p h = decode f p (F.read_all f) refl h

module _ (F : Files) (G : Gcs) (listen : Bytes → Result (Unit {0})) (client : Result (Unit {0}))
    (port config_file : Bytes) (s : G.State) where
  -- The server serves exactly when its address can be listened on, there is a storage client, and
  -- the configuration file can be read and decoded to a configuration that names, for each of its
  -- keys, a project of the protocol and a bucket that the store knows. It then serves that
  -- configuration on that address.
  pub start_iff :
      (srv : Serving)
      → (start F G listen client port config_file s ≡ ok srv) ↔ (
          (listen (address_of port) ≡ ok tt)
          × (client ≡ ok tt)
          × (srv ≡ serving port srv.conf)
          × Configures F config_file srv.conf
          × All (IsUsable G s) srv.conf.buckets)
  unfolding start
  start_iff srv = (
    λ h. listening (listen (address_of port)) refl client refl h,
    λ (l, c, e, conf, usable).
        let r =
          (new_rv_server_iff G (read_config_file F config_file) s srv.conf).1
            ((read_config_file_iff F config_file srv.conf).1 conf, usable) in
        rw (l, c, r) (ap (λ x. ok x) (sym e)),
  )
    where
      served :
          (x : Result Config)
          → new_rv_server G (read_config_file F config_file) s ≡ x
          → (within "failed to create new rvServer: %v" x >>= λ conf. ok (serving port conf))
            ≡ ok srv
          → (srv ≡ serving port srv.conf)
            × Configures F config_file srv.conf
            × All (IsUsable G s) srv.conf.buckets
      served (err z) p h = absurd (cc)
      served (ok conf) p h =
          let e : srv ≡ serving port conf = cc in
          let f : srv.conf ≡ conf = ap (λ v. v.conf) e in
          let (r, usable) = (new_rv_server_iff G (read_config_file F config_file) s conf).0 p in
          (
            e ∙ ap (serving port) (sym f),
            rw f ((read_config_file_iff F config_file conf).0 r),
            rw f usable,
          )

      listening :
          (x : Result (Unit {0}))
          → listen (address_of port) ≡ x
          → (y : Result (Unit {0})) → client ≡ y
          → start F G listen client port config_file s ≡ ok srv
          → (listen (address_of port) ≡ ok tt)
            × (client ≡ ok tt)
            × (srv ≡ serving port srv.conf)
            × Configures F config_file srv.conf
            × All (IsUsable G s) srv.conf.buckets
      listening (err z) p y q h = (let h' = rw (p, start) at h in absurd (cc))
      listening (ok u) p (err z) q h = (let h' = rw (p, q, start) at h in absurd (cc))
      listening (ok u) p (ok v) q h =
          let h' = rw (p, q, start) at h in
          let (e, conf, usable) =
            served (new_rv_server G (read_config_file F config_file) s) refl h' in
          (p, q, e, conf, usable)

  IsUsable-lookup :
      (d : Dict Bytes) (key : Bytes)
      → has key d ≡ true
      → All (IsUsable G s) d
      → IsUsable G s (key, value_or_empty (lookup key d))
  unfolding has lookup
  IsUsable-lookup [] key h a = absurd (cc)
  IsUsable-lookup ((k, b) ∷ d) key h (a, rest) = elim (Bool-cases (same k key)) [
    | inl e ↦ rw (e, sym ((same_iff k key).0 e)) a
    | inr e ↦ rw e (IsUsable-lookup d key (rw e at h) rest)
  ]

  -- A server that serves files uploads into nothing but buckets that the store knew as it was
  -- started, for the projects that the protocol names: an upload without error, in whatever state
  -- of the store, has gone to such a bucket, for such a project.
  pub start-file_upload :
      (srv : Serving) (md5 : Bytes → Bytes) (req : FileRequest) (s' : G.State)
      → start F G listen client port config_file s ≡ ok srv
      → (reply G srv.conf md5 req s').error ≡ none
      → IsUsable G s (project_string req.project, bucket_of srv.conf req)
  unfolding bucket_of
  start-file_upload srv md5 req s' h accepted =
      let (l, c, e, conf, usable) = (start_iff srv).0 h in
      let (v, copied, set) = (file_upload-error_none_iff G srv.conf md5 req s').0 accepted in
      IsUsable-lookup srv.conf.buckets (project_string req.project) v.configured usable
