-- ===== src/MassUpload/Url.antt =====
-- How `main` of cmd/archive_upload_mass_upload reads the `archive` flag: a host and a directory.
use google_cloud_storage.Base.{
  ℕ, Bytes, codes, List, [], ◌∷◌, ◌++◌, true, false, ◌≡◌, refl, if◌then◌else◌,
}
use google_cloud_storage.Base.Run.{Run, returns, panic}
use google_cloud_storage.Strings.Search.{has_prefix}
use google_cloud_storage.Strings.Split.{split, join, Lacks, join-split, split-append}
use google_cloud_storage.Strings.Trim.{in_set, trim_left, trim_right, has_suffix}

-- `parts[0] + ":21"` and `"/" + strings.Join(parts[1:], "/")`
unfoldable pub host_and_dir : List Bytes → Run (Bytes × Bytes)
host_and_dir [] = panic
host_and_dir (host ∷ dirs) = returns (host ++ codes ":21", b'/' ∷ join b'/' dirs)

unfoldable pub without_scheme : Bytes → Bytes
unfolding trim_left has_prefix
without_scheme site =
    if has_prefix site (codes "ftp://") then trim_left site (codes "ftp://") else site

unfoldable pub without_slashes : Bytes → Bytes
unfolding trim_right
without_slashes site = if has_suffix site (codes "/") then trim_right site (codes "/") else site

unfoldable pub site_and_dir : Bytes → Run (Bytes × Bytes)
unfolding host_and_dir without_scheme without_slashes
site_and_dir archive = host_and_dir (split b'/' (without_slashes (without_scheme archive)))

without_scheme_cut :
    (s : Bytes) → without_scheme (codes "ftp://" ++ s) ≡ trim_left s (codes "ftp://")
unfolding without_scheme trim_left in_set has_prefix
without_scheme_cut s = refl

-- A URL with the scheme, a host that does not begin with one of the bytes of `ftp:/` and has no
-- slash, and a directory that does not end in a slash, is read as that host at port 21 and that
-- directory.
pub site_and_dir_url :
    (c : ℕ) (host dir : Bytes)
    → in_set c (codes "ftp://") ≡ false
    → Lacks b'/' (c ∷ host)
    → has_suffix ((c ∷ host) ++ (b'/' ∷ dir)) (codes "/") ≡ false
    → site_and_dir (codes "ftp://" ++ (c ∷ host) ++ (b'/' ∷ dir))
      ≡ returns ((c ∷ host) ++ codes ":21", b'/' ∷ dir)
unfolding site_and_dir without_slashes host_and_dir trim_left
site_and_dir_url c host dir first lacks suffix = rw (
  without_scheme_cut ((c ∷ host) ++ (b'/' ∷ dir)),
  first,
  suffix,
  split-append b'/' (c ∷ host) dir lacks,
  join-split b'/' dir,
)

-- After the scheme, `strings.TrimLeft` cuts every byte of `ftp:/`: a URL whose host begins with one
-- of them is read as if the byte were not there.
pub site_and_dir_cuts :
    (c : ℕ) (rest : Bytes)
    → in_set c (codes "ftp://") ≡ true
    → site_and_dir (codes "ftp://" ++ (c ∷ rest)) ≡ site_and_dir (codes "ftp://" ++ rest)
unfolding site_and_dir trim_left
site_and_dir_cuts c rest cut = rw (without_scheme_cut (c ∷ rest), without_scheme_cut rest, cut)
