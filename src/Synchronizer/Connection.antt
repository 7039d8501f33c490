-- ===== src/Synchronizer/Connection.antt =====
-- `initFTP` of pkg/synchronizer/synchronizer.go, which makes the connection of an attempt to list the
-- FTP site. The client of the site is an interface, over the site's state.
use google_cloud_storage.Base.{Bytes, List, ◌≡◌, refl, ap, sym}
use google_cloud_storage.Base.Result.{Result, ok, err, within}
use google_cloud_storage.Base.Effect.{M}
use google_cloud_storage.Synchronizer.Compile.{Entry}

pub record FtpClient (F : Type 0) : Type 1 where
  pub Conn : Type 0
  pub dial : Bytes → M F Conn
  pub login : Conn → Bytes → Bytes → M F (Unit {0})
  pub list : Conn → Bytes → Result (List Entry)

-- The parts of a `Synchronizer` that the connection needs.
pub record Account : Type 0 where
  pub ftp_server : Bytes
  pub ftp_user : Bytes
  pub ftp_pass : Bytes

conn_inj : {A : Type 0} (a b : A) → ◌≡◌ {A = Result A} (ok a) (ok b) → a ≡ b
conn_inj a b h = cc

module _ {F : Type 0} (C : FtpClient F) (acc : Account) where
  abbrev pub logged_in : C.Conn → F × Result (Unit {0}) → F × Result C.Conn
  logged_in fc (f, ok u) = (f, ok fc)
  logged_in fc (f, err e) = (f, within "ftp login: %v" (err e))

  abbrev pub dialled : F × Result C.Conn → F × Result C.Conn
  dialled (f, ok fc) = logged_in fc (C.login fc acc.ftp_user acc.ftp_pass f)
  dialled (f, err e) = (f, within "ftp.Dial: %v" (err e))

  -- `initFTP`
  unfoldable pub init_ftp : M F C.Conn
  init_ftp f = dialled (C.dial acc.ftp_server f)

  abbrev pub listing : F × Result C.Conn → F × Result (Bytes → Result (List Entry))
  listing (f, ok fc) = (f, ok (C.list fc))
  listing (f, err e) = (f, err e)

  -- What an attempt of `Sync` lists with.
  unfoldable pub connect : M F (Bytes → Result (List Entry))
  unfolding init_ftp
  connect f = listing (init_ftp f)

  -- A connection that was made has been dialled at the synchronizer's server and logged in with
  -- its account.
  pub init_ftp_ok :
      (f g : F) (fc : C.Conn)
      → init_ftp f ≡ (g, ok fc)
      → (h : F) × (C.dial acc.ftp_server f ≡ (h, ok fc))
        × (C.login fc acc.ftp_user acc.ftp_pass h ≡ (g, ok tt))
  unfolding init_ftp
  init_ftp_ok f g fc e = go (C.dial acc.ftp_server f) refl e
    where
      login_ok :
          (h : F) (c : C.Conn)
          → C.dial acc.ftp_server f ≡ (h, ok c)
          → (y : F × Result (Unit {0})) → C.login c acc.ftp_user acc.ftp_pass h ≡ y
          → logged_in c y ≡ (g, ok fc)
          → (h : F) × (C.dial acc.ftp_server f ≡ (h, ok fc))
            × (C.login fc acc.ftp_user acc.ftp_pass h ≡ (g, ok tt))
      login_ok h c p (k, err x) q r = (let s = ap (λ z. z.1) r in absurd (cc))
      login_ok h c p (k, ok u) q r =
          let one : c ≡ fc = conn_inj c fc (ap (λ z. z.1) r) in
          let two : k ≡ g = ap (λ z. z.0) r in (h, rw (sym one) p, rw (sym one, sym two) q)

      go :
          (x : F × Result C.Conn)
          → C.dial acc.ftp_server f ≡ x
          → dialled x ≡ (g, ok fc)
          → (h : F) × (C.dial acc.ftp_server f ≡ (h, ok fc))
            × (C.login fc acc.ftp_user acc.ftp_pass h ≡ (g, ok tt))
      go (h, err x) p r = (let s = ap (λ z. z.1) r in absurd (cc))
      go (h, ok c) p r = login_ok h c p (C.login c acc.ftp_user acc.ftp_pass h) refl r
