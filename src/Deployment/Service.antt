-- ===== src/Deployment/Service.antt =====
-- The service of cmd/archive_synchronizer with the upload server of cmd/archive_upload_server, on the
-- same store.
use google_cloud_storage.Base.{
  ℕ, ◌≤◌, Bool, Bytes, codes, is_empty, List, [], ◌∷◌, Bool-cases, inl, inr, All, length, some, ◌≡◌,
  ◌≢◌, sym, ◌∙◌,
}
use google_cloud_storage.Base.Dict.{Dict, lookup}
use google_cloud_storage.Base.Result.{Result, ok}
use google_cloud_storage.Base.Effect.{M}
use google_cloud_storage.Backoff.{Backoff, Tried}
use google_cloud_storage.Proto.{Project, project_string}
use google_cloud_storage.Storage.{Gcs, IsLawful}
use google_cloud_storage.Strings.FilePath.{join_path, clean-ne-nil}
use google_cloud_storage.Strings.Split.{join}
use google_cloud_storage.Server.{Config}
use google_cloud_storage.Synchronizer.Months.{spanned_months}
use google_cloud_storage.Synchronizer.Compile.{Entry, compile_dir, file_path, IsArchive, IsListing}
use google_cloud_storage.Synchronizer.Upload.{Synchronizer}
use google_cloud_storage.Synchronizer.Schedule.Complete.{Complete}
use google_cloud_storage.Synchronizer.Schedule.Sequential.Whole.{Schedule-sync_dirs}
use google_cloud_storage.SyncCommand.{start_of, end_of, listed_at, handle, handle-serves}
use google_cloud_storage.Deployment.{rpc}
use google_cloud_storage.Deployment.Archiving.{HasSums}
use google_cloud_storage.Deployment.Complete.{Serves, deployed-Complete}
use mathlib.Core.Path.{subst}
use google_cloud_storage.Synchronizer.Compile.Covers.{IsListed, AllFiles, compile_dir-IsListed}
use google_cloud_storage.Synchronizer.Upload.Laws.{IsArchived}

file_path-ne-nil : (root month name : Bytes) → file_path root month name ≢ []
unfolding join_path is_empty
file_path-ne-nil root month name =
    let below = codes "bgpdata" ∷ month ∷ codes "UPDATES" ∷ name ∷ [] in
    elim (Bool-cases (is_empty root)) [
      | inl e ↦ rw e (clean-ne-nil (join b'/' below))
      | inr e ↦ rw e (clean-ne-nil (join b'/' (root ∷ below)))
    ]

module _ (start end : ℕ) (list : Bytes → Result (List Entry)) (months : List Bytes) where
  named_files :
      (root : Bytes) (files : List Bytes)
      → All (IsArchive start end list months root) files
      → All (λ f. f ≢ []) files
  named_files root [] h = tt
  named_files root (f ∷ files) (a, h) = (
    subst (λ x. x ≢ []) (sym a.spelled) (file_path-ne-nil root a.month a.name),
    named_files root files h,
  )

  named_listings :
      (dir : Dict (List Bytes))
      → All (IsListing start end list months) dir
      → All (λ p. All (λ f. f ≢ []) p.1) dir
  named_listings [] h = tt
  named_listings ((root, files) ∷ dir) ((some_files, sorted, archives), h) =
      (named_files root files archives, named_listings dir h)

Complete-AllFiles :
    (G : Gcs) (bucket : Bytes) (s : G.State) (dir : Dict (List Bytes))
    → Complete G bucket s dir
    → AllFiles (λ o. IsArchived G bucket o s) dir
Complete-AllFiles G bucket s [] h = tt
Complete-AllFiles G bucket s ((root, files) ∷ dir) (here, rest) =
    (here, Complete-AllFiles G bucket s dir rest)

module _ (G : Gcs) (H : HasSums G) (conf : Config) (md5 : Bytes → Bytes) (L : IsLawful md5 G)
    (get : Bytes → Result (Result Bytes)) (sr : Synchronizer)
    (own : lookup (project_string Project.routeviews) conf.buckets ≡ some sr.bucket)
    (V : Serves G get sr) (backoff : Backoff G.State Bool) {F : Type 0}
    (connect : M F (Bytes → Result (List Entry))) (listing : Backoff F (Dict (List Bytes)))
    (min_lapse max_lapse : ℕ) where
  -- What the connection to the FTP server of the last attempt listed for a call at `now`, and what
  -- was compiled of it, all of which the store holds.
  pub record Archived (now : ℕ) (ftp : F) (t : G.State) : Type 0 where
    pub before : F
    pub tried :
        Tried
          (listed_at G md5 (rpc G conf md5) get sr backoff connect listing min_lapse max_lapse now)
          ftp
          before
    pub list : Bytes → Result (List Entry)
    pub connected : (connect before).1 ≡ ok list
    pub dir : Dict (List Bytes)
    pub compiles :
        compile_dir
          (start_of now max_lapse)
          (end_of now min_lapse)
          list
          sr.expected_collector_count
          (spanned_months (start_of now max_lapse) (end_of now min_lapse))
        ≡ ok dir
    pub enough : sr.expected_collector_count ≤ length dir
    pub listings :
        All
          (IsListing
            (start_of now max_lapse)
            (end_of now min_lapse)
            list
            (spanned_months (start_of now max_lapse) (end_of now min_lapse)))
          dir
    pub complete : Complete G sr.bucket t dir
    pub everything :
        (path : Bytes)
        → IsListed
            (start_of now max_lapse)
            (end_of now min_lapse)
            list
            (spanned_months (start_of now max_lapse) (end_of now min_lapse))
            path
        → IsArchived G sr.bucket path t

  -- Where the store keeps the rules of its interface, has a checksum for every object and takes
  -- what is written to the bucket, every archive can be downloaded and has content, and the
  -- server's bucket for RouteViews is the synchronizer's: a call of the service that is answered
  -- with 200 had, in the attempt that succeeded, a connection to the FTP server whose listing the
  -- code compiled to enough collectors, each with archives that were listed under one of the months
  -- visited, below that collector, with a time strictly between `max_lapse` and `min_lapse` before
  -- now; and when it ends, every archive that this connection listed so, below any folder of the
  -- top directory, is an object of the bucket with a checksum. (The months visited are those of
  -- `spannedMonths`, and a directory that could not be listed counts as empty.)
  pub service-Archived :
      (now : ℕ) (ftp : F) (s : G.State)
      → (handle G md5
          (rpc G conf md5)
          get
          sr
          backoff
          connect
          listing
          min_lapse
          max_lapse
          now
          ftp
          s).2
        ≡ 200
      → Archived now ftp
          (handle G md5
            (rpc G conf md5)
            get
            sr
            backoff
            connect
            listing
            min_lapse
            max_lapse
            now
            ftp
            s).1
  service-Archived now ftp s h =
      let served =
        handle-serves G md5 (rpc G conf md5) get sr backoff connect listing min_lapse max_lapse now
          ftp s h in
      let (e, (n, run), idle, same) =
        Schedule-sync_dirs G md5 (rpc G conf md5) get sr backoff served.dir s in
      let good = named_listings _ _ served.list _ served.dir served.listings in
      let all =
        deployed-Complete G H conf md5 L get sr own V backoff served.dir s e n good run idle in
      let complete = subst (λ t. Complete G sr.bucket t served.dir) (same ∙ sym served.loops) all in
      record {
        before = served.before;
        tried = served.tried;
        list = served.list;
        connected = served.connected;
        dir = served.dir;
        compiles = served.compiles;
        enough = served.enough;
        listings = served.listings;
        complete = complete;
        everything =
            compile_dir-IsListed (start_of now max_lapse) (end_of now min_lapse) served.list
              (λ o. IsArchived G sr.bucket o _) sr.expected_collector_count _ served.dir
              served.compiles (Complete-AllFiles G sr.bucket _ served.dir complete);
      }
