-- ===== src/Deployment/Archiving.antt =====
-- The upload server keeps what the synchronizer relies on: a file that it accepts is in the bucket,
-- and no call takes a file out of it.
use google_cloud_storage.Base.{
  Bytes, [], Option, none, some, ◌≡◌, ◌≢◌, refl, sym, ap, ◌⊎◌, inl, inr, ◌∙◌,
}
use google_cloud_storage.Base.Dict.{lookup}
use google_cloud_storage.Base.Result.{Error, Result, ok, err}
use google_cloud_storage.Proto.{Project, project_string, FileRequest, FileResponse}
use google_cloud_storage.Storage.{Attrs, Gcs, IsLawful}
use google_cloud_storage.Server.{Config, bucket_of}
use google_cloud_storage.Server.Upload.{
  bkt, written, marked, reply, after, file_upload-error_none_iff, after_cases, after_of_valid,
}
use google_cloud_storage.Server.Idempotent.{place_cases}
use google_cloud_storage.Synchronizer.Upload.Laws.{IsArchived, IsArchiving}
use google_cloud_storage.Deployment.{received, rpc}
use mathlib.Core.Path.{subst}

-- Every object of the store has a checksum.
pub record HasSums (G : Gcs) : Type 0 where
  pub sum : (b o : Bytes) (s : G.State) (a : Attrs) → G.attrs b o s ≡ ok a → a.md5 ≢ []

Result-cases : {A : Type 0} (r : Result A) → ((a : A) × (r ≡ ok a)) ⊎ ((e : Error) × (r ≡ err e))
Result-cases (ok a) = inl (a, refl)
Result-cases (err e) = inr (e, refl)

received_ok :
    (x : Option FileResponse) (e : Option Error) (resp : FileResponse)
    → received x e ≡ ok resp
    → e ≡ none
received_ok none (some e) resp h = absurd (cc)
received_ok (some r) (some e) resp h = absurd (cc)
received_ok (some r) none resp h = refl
received_ok none none resp h = absurd (cc)

module _ (G : Gcs) (conf : Config) (md5 : Bytes → Bytes) where
  pub rpc_ok :
      (req : FileRequest) (s s' : G.State) (resp : FileResponse)
      → rpc G conf md5 req s ≡ (s', ok resp)
      → ((reply G conf md5 req s).error ≡ none) × (after G conf md5 req s ≡ s')
  unfolding rpc
  rpc_ok req s s' resp h = (
    received_ok (reply G conf md5 req s).response (reply G conf md5 req s).error resp
        (ap (λ r. r.1) h),
    ap (λ r. r.0) h,
  )

module _ (G : Gcs) (H : HasSums G) where
  IsArchived-attrs :
      (b o : Bytes) (s : G.State) (a : Attrs) → G.attrs b o s ≡ ok a → IsArchived G b o s
  IsArchived-attrs b o s a h = (a, h, H.sum b o s a h)

  IsArchived-same :
      (b o : Bytes) (s t : G.State)
      → G.attrs b o t ≡ G.attrs b o s
      → IsArchived G b o s
      → IsArchived G b o t
  IsArchived-same b o s t e (a, f, ne) = (a, e ∙ f, ne)

  module _ (conf : Config) (md5 : Bytes → Bytes) (L : IsLawful md5 G) where
    written-IsArchived :
        (req : FileRequest) (s : G.State) (b o : Bytes)
        → IsArchived G b o s
        → IsArchived G b o (written G conf md5 req s).store
    written-IsArchived req s b o h = elim (place_cases (bkt G conf md5 req s) req.filename b o) [
      | inl (e, f) ↦ rw (← e, ← f) (own (rw (sym e, sym f) at h))
      | inr ne ↦ IsArchived-same b o s _ (L.attrs-write_ne _ _ _ b o s ne) h
    ]
      where
        own :
            IsArchived G (bkt G conf md5 req s) req.filename s
            → IsArchived G (bkt G conf md5 req s) req.filename (written G conf md5 req s).store
        own k = elim (Result-cases (written G conf md5 req s).closed) [
          | inl (tt, c) ↦
              IsArchived-attrs _ _ _ _
                (L.attrs-write _ _ req.content s (L.copied_of_closed _ _ req.content s c) c)
          | inr (x, c) ↦ IsArchived-same _ _ s _ (L.attrs-write_refused _ _ req.content s x c) k
        ]

    marked-IsArchived :
        (req : FileRequest) (s : G.State) (b o : Bytes)
        → IsArchived G b o (written G conf md5 req s).store
        → IsArchived G b o (marked G conf md5 req s).0
    marked-IsArchived req s b o h = elim (place_cases (bkt G conf md5 req s) req.filename b o) [
      | inl (e, f) ↦ rw (← e, ← f) (own (rw (sym e, sym f) at h))
      | inr ne ↦
          IsArchived-same b o (written G conf md5 req s).store _
            (L.attrs-set_metadata_ne _ _ _ _ b o _ ne) h
    ]
      where
        own :
            IsArchived G (bkt G conf md5 req s) req.filename (written G conf md5 req s).store
            → IsArchived G (bkt G conf md5 req s) req.filename (marked G conf md5 req s).0
        own k = elim (Result-cases (marked G conf md5 req s).1) [
          | inl (tt, c) ↦
              let (a, at) = L.exists_of_set _ _ _ _ (written G conf md5 req s).store c in
              IsArchived-attrs _ _ _ _
                (L.attrs-set_metadata _ _ _ _ (written G conf md5 req s).store a at c)
          | inr (x, c) ↦
              IsArchived-same _ _ (written G conf md5 req s).store _
                (L.attrs-set_metadata_refused _ _ _ _ (written G conf md5 req s).store x c) k
        ]

    after-IsArchived :
        (req : FileRequest) (s : G.State) (b o : Bytes)
        → IsArchived G b o s
        → IsArchived G b o (after G conf md5 req s)
    after-IsArchived req s b o h =
        let w = written-IsArchived req s b o h in
        elim (after_cases G conf md5 req s) [
          | inl e ↦ rw e h
          | inr (inl e) ↦ rw e w
          | inr (inr e) ↦ rw e (marked-IsArchived req s b o w)
        ]

    -- A file that was accepted is in the bucket, even where the store refused the new content on
    -- closing: the update of its metadata shows that an object is there.
    accepted-IsArchived :
        (req : FileRequest) (s : G.State)
        → (reply G conf md5 req s).error ≡ none
        → IsArchived G (bkt G conf md5 req s) req.filename (after G conf md5 req s)
    accepted-IsArchived req s h =
        let (v, copied, set) = (file_upload-error_none_iff G conf md5 req s).0 h in
        let (a, at) = L.exists_of_set _ _ _ _ (written G conf md5 req s).store set in
        rw (after_of_valid G conf md5 req s v copied) (
          IsArchived-attrs _ _ _ _
            (L.attrs-set_metadata _ _ _ _ (written G conf md5 req s).store a at set))

    -- On a store that keeps the rules of its interface and has a checksum for every object: to a
    -- synchronizer of the bucket that the server keeps for RouteViews, the server is an archiving
    -- one, whose accepted files are in the bucket and no call of which takes a file out of it.
    pub rpc-IsArchiving :
        (bucket : Bytes)
        → lookup (project_string Project.routeviews) conf.buckets ≡ some bucket
        → IsArchiving G bucket (rpc G conf md5)
    unfolding rpc bucket_of
    rpc-IsArchiving bucket own = record {
      stores = λ req s s' resp p e.
          let (h, same) = rpc_ok G conf md5 req s s' resp e in
          let k = accepted-IsArchived req s h in
          let place : bkt G conf md5 req s ≡ bucket = rw (p, own) in
          subst (IsArchived G bucket req.filename) same
            (subst (λ b. IsArchived G b req.filename (after G conf md5 req s)) place k);
      keeps = λ req s o h. after-IsArchived req s bucket o h;
    }
