-- ===== src/Auth.antt =====
-- pkg/auth/grpc_client_auth.go: connections of the gRPC clients. The token sources, the system's
-- certificates and `grpc.Dial` are arguments.
use google_cloud_storage.Base.{
  ℕ, ◌*◌, Bytes, codes, is_empty, List, [], ◌∷◌, ◌++◌, Option, none, some, Bool, true, false,
  if◌then◌else◌, ◌≡◌, refl,
}
use google_cloud_storage.Base.Result.{Error, wrap, Result, ok, err, ◌>>=◌, within}
use google_cloud_storage.Strings.Split.{split}

-- `maxMsgSize`
abbrev pub max_msg_size : ℕ
max_msg_size = 512 * 1024 * 1024

abbrev pub head_of : List Bytes → Bytes
head_of [] = []
head_of (p ∷ parts) = p

-- `"https://" + strings.Split(host, ":")[0]`
unfoldable pub audience_of : Bytes → Bytes
audience_of host = codes "https://" ++ head_of (split b':' host)

module _ (Token Roots Conn : Type 0) where
  -- The options that the package gives to `grpc.Dial`.
  pub record DialOptions : Type 0 where
    pub authority : Option Bytes
    pub roots : Option Roots
    pub token : Option Token
    pub insecure : Bool
    pub max_send : ℕ

  -- `idtoken.NewTokenSource`, by an audience and a credentials file, and whether an error says that
  -- the credential is an authorized user's.
  module _ (new_token_source : Bytes → Option Bytes → Result Token) (is_user : Error → Bool)
      (default_token_source : Result Token) (system_roots : Result Roots)
      (dial : Bytes → DialOptions → Result Conn) where
    unfoldable pub default_stage : Result Token → Result Token
    default_stage (ok t) = ok t
    default_stage (err e) =
        if is_user e
        then within "attempt to use Application Default Credentials failed" default_token_source
        else err (wrap "idtoken.NewTokenSource" e)

    unfoldable pub token_source : Bytes → Bytes → Result Token
    unfolding audience_of default_stage
    token_source host sa_path =
        if is_empty sa_path
        then default_stage (new_token_source (audience_of host) none)
        else within "unable to create TokenSource"
            (new_token_source (audience_of host) (some sa_path))

    unfoldable pub new_auth_conn : Bytes → Bytes → Result Conn
    unfolding token_source
    new_auth_conn host sa_path = do
      t ← token_source host sa_path
      r ← system_roots
      dial host (record {
        authority = some host;
        roots = some r;
        token = some t;
        insecure = false;
        max_send = max_msg_size;
      })

    unfoldable pub insecure_conn : Bytes → Result Conn
    insecure_conn host = dial host (record {
      authority = none;
      roots = none;
      token = none;
      insecure = true;
      max_send = max_msg_size;
    })

    -- `newGRPC` and `newConn` of the commands.
    unfoldable pub new_conn : Bool → Bytes → Bytes → Result Conn
    unfolding new_auth_conn insecure_conn
    new_conn use_tls host sa_path =
        if use_tls then new_auth_conn host sa_path else insecure_conn host

    -- A connection made with TLS was dialled at the host that was asked for, with its name as the
    -- authority, the system's certificates, and a token: one for the file of credentials where
    -- there is one, and otherwise one for the host or the default credentials.
    pub new_conn-secure :
        (host sa_path : Bytes) (c : Conn)
        → new_conn true host sa_path ≡ ok c
        → (t : Token) × (r : Roots) × (token_source host sa_path ≡ ok t)
          × (system_roots ≡ ok r)
          × (dial host (record {
            authority = some host;
            roots = some r;
            token = some t;
            insecure = false;
            max_send = max_msg_size;
          })
              ≡ ok c)
    unfolding new_conn
    new_conn-secure host sa_path c h =
        with_token (token_source host sa_path) refl system_roots refl h
      where
        with_token :
            (x : Result Token)
            → token_source host sa_path ≡ x
            → (y : Result Roots) → system_roots ≡ y
            → new_auth_conn host sa_path ≡ ok c
            → (t : Token) × (r : Roots) × (token_source host sa_path ≡ ok t)
              × (system_roots ≡ ok r)
              × (dial host (record {
                authority = some host;
                roots = some r;
                token = some t;
                insecure = false;
                max_send = max_msg_size;
              })
                  ≡ ok c)
        with_token (ok t) e (ok r) f k = (t, r, e, f, rw (e, f) at k)
        with_token (ok t) e (err x) f k = (let k' = rw (e, f) at k in absurd (cc))
        with_token (err x) e y f k = (let k' = rw e at k in absurd (cc))
