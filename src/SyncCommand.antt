-- ===== src/SyncCommand.antt =====
-- cmd/archive_synchronizer/sync.go: the command around the synchronizer. The environment, the clock
-- and the clients are arguments.
use google_cloud_storage.Base.{
  ℕ, ◌-◌, ◌≤◌, Bytes, codes, List, some, Bool, true, ltb, ◌≡◌, refl, ap, arith, All, length,
  Bool-cases, inl, inr, String,
}
use google_cloud_storage.Base.Dict.{Dict}
use google_cloud_storage.Base.Result.{Result, ok, err, ◌>>=◌, within}
use google_cloud_storage.Base.Effect.{M}
use google_cloud_storage.Backoff.{Backoff, Tried, retry-Tried}
use google_cloud_storage.Proto.{FileRequest, FileResponse}
use google_cloud_storage.Storage.{Gcs}
use google_cloud_storage.Synchronizer.Months.{spanned_months}
use google_cloud_storage.Synchronizer.Compile.{Entry, compile_dir, compile_dir_sound, IsListing}
use google_cloud_storage.Synchronizer.Upload.{
  Config, Synchronizer, new_synchronizer, compiled, sync, sync_dirs,
}

-- `FTP_SERVER`, `FTP_USERNAME` and `FTP_PASSWORD`.
pub record Environment : Type 0 where
  pub ftp_server : Bytes
  pub ftp_username : Bytes
  pub ftp_password : Bytes

unfoldable pub config_of : Environment → Bytes → Config
config_of env bucket = record {
  ftp_server = env.ftp_server;
  ftp_user = env.ftp_username;
  ftp_pass = env.ftp_password;
  has_gcs_cli = true;
  has_upload_server_cli = true;
  archive_bucket = bucket;
  http_root = codes "http://routeviews.org";
}

-- `main` up to the synchronizer, from the results of dialling and of the storage client. Each error
-- ends the process.
unfoldable pub set_up :
    {Conn Client : Type 0} → Environment → Bytes → Result Conn → Result Client → Result Synchronizer
unfolding config_of
set_up env bucket conn client = do
  gc ← within "failed to establish gRPC connection" conn
  sc ← within "storage.NewClient" client
  new_synchronizer (some (config_of env bucket))

-- `now.Add(-*maxLapse)` and `now.Add(-*minLapse)`, for lapses that do not reach before the year 0.
abbrev pub start_of : ℕ → ℕ → ℕ
start_of now max_lapse = now - max_lapse

abbrev pub end_of : ℕ → ℕ → ℕ
end_of now min_lapse = now - min_lapse

module _ (G : Gcs) (md5 : Bytes → Bytes) (upload : FileRequest → M G.State FileResponse)
    (get : Bytes → Result (Result Bytes)) (sr : Synchronizer) (backoff : Backoff G.State Bool)
    {F : Type 0} (connect : M F (Bytes → Result (List Entry)))
    (listing : Backoff F (Dict (List Bytes))) (min_lapse max_lapse : ℕ) where
  -- The status that the handler answers with: 200 where it sets none.
  abbrev pub answered : F × G.State × Result (Unit {0}) → F × G.State × ℕ
  answered (ftp, s, ok u) = (ftp, s, 200)
  answered (ftp, s, err e) = (ftp, s, 500)

  -- The handler of `/`.
  unfoldable pub handle : ℕ → F → G.State → F × G.State × ℕ
  handle now ftp s = answered (
      sync G md5 upload get sr backoff connect listing (start_of now max_lapse)
        (end_of now min_lapse) ftp s)

  -- `main` without the HTTP server: the error ends the process.
  unfoldable pub run_once : ℕ → F → G.State → F × G.State × Result (Unit {0})
  run_once now ftp s =
      sync G md5 upload get sr backoff connect listing (start_of now max_lapse)
        (end_of now min_lapse) ftp s

  -- One attempt to connect to the FTP server and to list it, for a call at `now`.
  abbrev pub listed_at : ℕ → M F (Dict (List Bytes))
  listed_at now g =
      compiled G md5 upload get sr backoff (start_of now max_lapse) (end_of now min_lapse)
        (connect g)

  -- What the connection of the last attempt listed, and what was compiled of it.
  pub record Served (now : ℕ) (ftp : F) (s s' : G.State) : Type 0 where
    pub before : F
    pub tried : Tried (listed_at now) ftp before
    pub list : Bytes → Result (List Entry)
    pub connected : (connect before).1 ≡ ok list
    pub dir : Dict (List Bytes)
    pub compiles :
        compile_dir
          (start_of now max_lapse)
          (end_of now min_lapse)
          list
          sr.expected_collector_count
          (spanned_months (start_of now max_lapse) (end_of now min_lapse))
        ≡ ok dir
    pub enough : sr.expected_collector_count ≤ length dir
    pub listings :
        All
          (IsListing
            (start_of now max_lapse)
            (end_of now min_lapse)
            list
            (spanned_months (start_of now max_lapse) (end_of now min_lapse)))
          dir
    pub loops : s' ≡ sync_dirs G md5 upload get sr backoff dir s

  within_ok : {A : Type 0} (m : String) (r : Result A) (a : A) → within m r ≡ ok a → r ≡ ok a
  within_ok m (ok b) a h = h
  within_ok m (err e) a h = absurd (cc)

  served :
      (now : ℕ) (ftp₀ ftp : F) (x : F × Result (Bytes → Result (List Entry))) (ftp' : F)
      (dir : Dict (List Bytes)) (s : G.State)
      → Tried (listed_at now) ftp₀ ftp
      → connect ftp ≡ x
      → compiled G md5 upload get sr backoff (start_of now max_lapse) (end_of now min_lapse) x
        ≡ (ftp', ok dir)
      → Served now ftp₀ s (sync_dirs G md5 upload get sr backoff dir s)
  served now ftp₀ ftp (g, err e) ftp' dir s w c h = (let h' = ap (λ p. p.1) h in absurd (cc))
  served now ftp₀ ftp (g, ok list) ftp' dir s w c h =
      let compiles = within_ok "compileDir" _ dir (ap (λ p. p.1) h) in
      let (enough, listings) =
        compile_dir_sound (start_of now max_lapse) (end_of now min_lapse) list
          sr.expected_collector_count _ dir compiles in
      record {
        before = ftp;
        tried = w;
        list = list;
        connected = ap (λ p. p.1) c;
        dir = dir;
        compiles = compiles;
        enough = enough;
        listings = listings;
        loops = refl;
      }

  -- A call that is answered with 200 had enough collectors with archives, each listed by the FTP
  -- server with a time strictly between `max_lapse` and `min_lapse` before now, and ran the loop
  -- over the archives of each of them.
  pub handle-serves :
      (now : ℕ) (ftp : F) (s : G.State)
      → (handle now ftp s).2 ≡ 200
      → Served now ftp s (handle now ftp s).1
  unfolding handle sync
  handle-serves now ftp s h = elim (Bool-cases (ltb start end)) [
    | inl e ↦ rw e (go (listing.retry sr.retry_count op ftp) refl (rw e at h))
    | inr e ↦ (let h' = rw e at h in absurd (omega arith))
  ]
    where
      start : ℕ
      start = start_of now max_lapse

      end : ℕ
      end = end_of now min_lapse

      op : M F (Dict (List Bytes))
      op g = compiled G md5 upload get sr backoff start end (connect g)

      after : F × Result (Dict (List Bytes)) → F × G.State × Result (Unit {0})
      after x = elim x.1 [
        | err e ↦ (x.0, s, err e)
        | ok dir ↦ (x.0, sync_dirs G md5 upload get sr backoff dir s, ok tt)
      ]

      go :
          (x : F × Result (Dict (List Bytes)))
          → listing.retry sr.retry_count op ftp ≡ x
          → (answered (after (listing.retry sr.retry_count op ftp))).2 ≡ 200
          → Served now ftp s (answered (after (listing.retry sr.retry_count op ftp))).1
      go (g, err x) e k = (let k' = rw e at k in absurd (omega arith))
      go (g, ok dir) e k =
          let (t, tried, made) = retry-Tried listing op sr.retry_count ftp g dir e in
          rw e (served now ftp t (connect t) g dir s tried refl made)
