-- ===== src/Synchronizer/Upload/Laws.antt =====
-- What a synchronization of pkg/synchronizer/synchronizer.go leaves in the archive bucket.
use google_cloud_storage.Base.{
  ℕ, Bytes, List, [], ◌∷◌, Bool, true, false, All, ◌≡◌, ◌∙◌, refl, ap, Bool-cases, inl, inr, ◌↔◌,
  not, ◌≢◌,
}
use google_cloud_storage.Base.Result.{Result, ok, err, within, ◌>>=◌}
use google_cloud_storage.Base.Effect.{M}
use google_cloud_storage.Backoff.{Backoff, retry_keeps, retry_establishes}
use google_cloud_storage.Proto.{Project, FileRequest, FileResponse}
use google_cloud_storage.Storage.{Gcs, Attrs}
use google_cloud_storage.Client.{md5_from_gcs}
use google_cloud_storage.Synchronizer.FileTime.{time_from_filename}
use google_cloud_storage.Time.{minute}
use google_cloud_storage.Synchronizer.Upload.{
  Synchronizer, Progress, is_archived, note_gap, note_file, uploaded, request_of, download_stage,
  upload_from_ftp, upload_files_from_ftp, count_upload,
}
use mathlib.Core.Path.{subst}
use google_cloud_storage.Base.{is_empty, ltb, ◌*◌, ◌-◌}
use google_cloud_storage.Synchronizer.Upload.{next_file}
use google_cloud_storage.Strings.Hex.{hex_encode}

module _ (G : Gcs) (bucket : Bytes) where
  -- The object is in the bucket, and has a checksum.
  abbrev pub IsArchived : Bytes → G.State → Type 0
  IsArchived f s = (a : Attrs) × (G.attrs bucket f s ≡ ok a) × (a.md5 ≢ [])

  sum_text_iff : (c : Bytes) → not (is_empty (hex_encode c)) ≡ true ↔ c ≢ []
  unfolding hex_encode is_empty
  sum_text_iff [] = (λ h. absurd (cc), λ h. absurd (h refl))
  sum_text_iff (b ∷ c) = (λ h e. absurd (cc), λ h. refl)

  is_archived-IsArchived :
      (f : Bytes) (s : G.State) (x : Result Attrs)
      → G.attrs bucket f s ≡ x
      → is_archived (do a ← within "failed to get attrs for obj" x; ok (hex_encode a.md5)) ≡ true
      → IsArchived f s
  unfolding is_archived
  is_archived-IsArchived f s (ok a) e h = (a, e, (sum_text_iff a.md5).0 h)
  is_archived-IsArchived f s (err x) e h = absurd (cc)

  -- The test of the code tells whether the file is in the bucket.
  pub is_archived_iff :
      (f : Bytes) (s : G.State) → is_archived (md5_from_gcs G bucket f s) ≡ true ↔ IsArchived f s
  unfolding md5_from_gcs is_archived
  is_archived_iff f s = (
    λ h. is_archived-IsArchived f s (G.attrs bucket f s) refl h,
    λ (a, e, ne). rw e ((sum_text_iff a.md5).1 ne),
  )

  -- What the synchronizer relies on in the upload server: an upload that is accepted puts the file
  -- in the bucket, and no upload takes a file out of it.
  pub record IsArchiving (upload : FileRequest → M G.State FileResponse) : Type 0 where
    pub stores :
        (req : FileRequest) (s s' : G.State) (resp : FileResponse)
        → req.project ≡ Project.routeviews
        → upload req s ≡ (s', ok resp)
        → IsArchived req.filename s'
    pub keeps :
        (req : FileRequest) (s : G.State) (o : Bytes)
        → IsArchived o s
        → IsArchived o (upload req s).0

note_gap_frame :
    (f : Bytes) (latest : ℕ) (r : Result ℕ) (p : Progress)
    → ((note_gap f latest r p).upload_count ≡ p.upload_count)
      × ((note_gap f latest r p).gave_up ≡ p.gave_up)
unfolding note_gap
note_gap_frame f latest (err e) p = (refl, refl)
note_gap_frame f latest (ok prev) p = elim (Bool-cases (ltb (15 * minute) (latest - prev))) [
  | inl e ↦ rw e (refl, refl)
  | inr e ↦ rw e (refl, refl)
]

pub note_file_frame :
    (f : Bytes) (r : Result ℕ) (p : Progress)
    → ((note_file f r p).upload_count ≡ p.upload_count) × ((note_file f r p).gave_up ≡ p.gave_up)
unfolding note_file
note_file_frame f (err e) p = (refl, refl)
note_file_frame f (ok latest) p = elim (Bool-cases (is_empty p.last_uploaded)) [
  | inl e ↦ rw e (refl, refl)
  | inr e ↦ rw e (note_gap_frame f latest _ p)
]

count_upload-gave_up :
    (skipped : Bool) (p : Progress) → (count_upload skipped p).gave_up ≡ p.gave_up
count_upload-gave_up true p = refl
count_upload-gave_up false p = refl

-- What is noted of a file that was sent or skipped does not make the loop give up.
pub note_count_gave_up :
    (f : Bytes) (r : Result ℕ) (skipped : Bool) (p : Progress)
    → (note_file f r (count_upload skipped p)).gave_up ≡ p.gave_up
note_count_gave_up f r skipped p =
    (note_file_frame f r (count_upload skipped p)).1 ∙ count_upload-gave_up skipped p

module _ (G : Gcs) (md5 : Bytes → Bytes) (upload : FileRequest → M G.State FileResponse)
    (get : Bytes → Result (Result Bytes)) (sr : Synchronizer)
    (A : IsArchiving G sr.bucket upload) where
  abbrev one : Bytes → M G.State Bool
  one = upload_from_ftp G md5 upload get sr

  uploaded_ok :
      (r : G.State × Result FileResponse) (s' : G.State) (b : Bool)
      → uploaded G md5 upload get sr r ≡ (s', ok b)
      → (resp : FileResponse) × (r ≡ (s', ok resp))
  uploaded_ok (t, ok resp) s' b h = (resp, cc)
  uploaded_ok (t, err e) s' b h = absurd (cc)

  download_stage_archives :
      (f : Bytes) (r : Result (Bytes × Bytes)) (s s' : G.State) (b : Bool)
      → download_stage G md5 upload get sr f r s ≡ (s', ok b)
      → IsArchived G sr.bucket f s'
  unfolding download_stage
  download_stage_archives f (err e) s s' b h = absurd (cc)
  download_stage_archives f (ok file) s s' b h =
      let (resp, e) = uploaded_ok _ s' b h in
      A.stores (request_of G md5 upload get sr f file) s s' resp refl e

  -- A file that was sent or skipped is in the bucket.
  pub upload_from_ftp_archives :
      (f : Bytes) (s s' : G.State) (b : Bool) → one f s ≡ (s', ok b) → IsArchived G sr.bucket f s'
  unfolding upload_from_ftp
  upload_from_ftp_archives f s s' b h =
      elim (Bool-cases (is_archived (md5_from_gcs G sr.bucket f s))) [
        | inl e ↦
            subst (IsArchived G sr.bucket f) (ap (λ p. p.0) (rw e at h))
              ((is_archived_iff G sr.bucket f s).0 e)
        | inr e ↦ download_stage_archives f _ s s' b (rw e at h)
      ]

  uploaded_state : (r : G.State × Result FileResponse) → (uploaded G md5 upload get sr r).0 ≡ r.0
  uploaded_state (t, ok resp) = refl
  uploaded_state (t, err e) = refl

  download_stage_keeps :
      (f o : Bytes) (r : Result (Bytes × Bytes)) (s : G.State)
      → IsArchived G sr.bucket o s
      → IsArchived G sr.bucket o (download_stage G md5 upload get sr f r s).0
  unfolding download_stage
  download_stage_keeps f o (err e) s h = h
  download_stage_keeps f o (ok file) s h =
      rw (uploaded_state (upload (request_of G md5 upload get sr f file) s))
        (A.keeps (request_of G md5 upload get sr f file) s o h)

  pub upload_from_ftp_keeps :
      (f o : Bytes) (s : G.State)
      → IsArchived G sr.bucket o s
      → IsArchived G sr.bucket o (one f s).0
  unfolding upload_from_ftp
  upload_from_ftp_keeps f o s h = elim (Bool-cases (is_archived (md5_from_gcs G sr.bucket f s))) [
    | inl e ↦ rw e h
    | inr e ↦ rw e (download_stage_keeps f o _ s h)
  ]

  already_archived : (f : Bytes) (s : G.State) → IsArchived G sr.bucket f s → one f s ≡ (s, ok true)
  unfolding upload_from_ftp
  already_archived f s h = rw ((is_archived_iff G sr.bucket f s).1 h) refl

  module _ (B : Backoff G.State Bool) where
    abbrev pub run : List Bytes → Progress → G.State → G.State × Progress
    run = upload_files_from_ftp G md5 upload get sr B

    next_keeps :
        (P : G.State → Type 0) (rest : Progress → G.State → G.State × Progress)
        → ((q : Progress) (t : G.State) → P t → P (rest q t).0)
        → (f : Bytes) (p : Progress) (r : G.State × Result Bool) → P r.0
        → P (next_file rest f p r).0
    unfolding next_file
    next_keeps P rest ih f p (t, err e) h = h
    next_keeps P rest ih f p (t, ok skipped) h = ih _ t h

    -- The loop never takes a file out of the bucket.
    upload_files_keeps :
        (files : List Bytes) (p : Progress) (s : G.State) (o : Bytes)
        → IsArchived G sr.bucket o s
        → IsArchived G sr.bucket o (run files p s).0
    unfolding upload_files_from_ftp
    upload_files_keeps [] p s o h = h
    upload_files_keeps (f ∷ files) p s o h =
        next_keeps (IsArchived G sr.bucket o) (run files) (λ q t. upload_files_keeps files q t o) f
          p _
          (retry_keeps B (one f) (IsArchived G sr.bucket o) (λ t k. upload_from_ftp_keeps f o t k)
            sr.retry_count s h)

    next_archives :
        (f : Bytes) (files : List Bytes)
        → ((q : Progress) (t : G.State)
            → (run files q t).1.gave_up ≡ false
            → All (λ o. IsArchived G sr.bucket o (run files q t).0) files)
        → (p : Progress) (r : G.State × Result Bool)
        → ((t : G.State) (b : Bool) → r ≡ (t, ok b) → IsArchived G sr.bucket f t)
        → (next_file (run files) f p r).1.gave_up ≡ false
        → All (λ o. IsArchived G sr.bucket o (next_file (run files) f p r).0) (f ∷ files)
    unfolding next_file
    next_archives f files ih p (t, err e) post h = absurd (cc)
    next_archives f files ih p (t, ok skipped) post h =
        (upload_files_keeps files _ t f (post t skipped refl), ih _ t h)

    -- With an upload server that stores what it accepts and loses no file: when the loop over the
    -- files of a collector does not give up, all of them are in the bucket at the end.
    pub upload_files_archives :
        (files : List Bytes) (p : Progress) (s : G.State)
        → (run files p s).1.gave_up ≡ false
        → All (λ o. IsArchived G sr.bucket o (run files p s).0) files
    unfolding upload_files_from_ftp
    upload_files_archives [] p s h = tt
    upload_files_archives (f ∷ files) p s h =
        next_archives f files (λ q t k. upload_files_archives files q t k) p _
          (λ t b e.
            retry_establishes B (one f) (IsArchived G sr.bucket f)
              (λ u v c k. upload_from_ftp_archives f u v c k) sr.retry_count s t b e)
          h

    -- When all files of a collector are in the bucket, the loop over them changes nothing in the
    -- store, uploads none of them and gives up at none of them.
    pub upload_files_quiet :
        (files : List Bytes) (p : Progress) (s : G.State)
        → All (λ o. IsArchived G sr.bucket o s) files
        → ((run files p s).0 ≡ s)
          × ((run files p s).1.upload_count ≡ p.upload_count)
          × ((run files p s).1.gave_up ≡ p.gave_up)
    unfolding upload_files_from_ftp next_file
    upload_files_quiet [] p s h = (refl, refl, refl)
    upload_files_quiet (f ∷ files) p s (h, hs) =
        rw (B.retry_ok sr.retry_count (one f) s s true (already_archived f s h)) (
          let (a, b, c) = upload_files_quiet files (note_file f (time_from_filename f) p) s hs in
          (a, b ∙ (note_file_frame f _ p).0, c ∙ (note_file_frame f _ p).1))
