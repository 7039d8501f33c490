-- ===== src/Roa/Web.antt =====
-- The HTTP side of Historical-ROA/main.go: the start of the service, its routes, and the handlers
-- around the page. The template, the credentials' decoder, the database's client, the print of a
-- URL and the listener are arguments.
use google_cloud_storage.Base.{
  ℕ, Bytes, codes, same, same_iff, is_empty, Bool, ◌||◌, not, if◌then◌else◌, Option, none, some,
  List, [], ◌∷◌, ◌++◌, ◌≡◌, ◌≢◌, ◌↔◌, arith,
}
use google_cloud_storage.Base.Result.{Result, ok, err, ◌>>=◌}
use google_cloud_storage.Base.Run.{Run, returns, panic}
use google_cloud_storage.Roa.{ℤ, InputRoa, Page, main_page}

-- `Creds`
pub record Creds : Type 0 where
  pub auth_provider_x509_cert_url : Bytes
  pub auth_uri : Bytes
  pub client_email : Bytes
  pub client_id : Bytes
  pub client_x509_cert_url : Bytes
  pub private_key : Bytes
  pub private_key_id : Bytes
  pub project_id : Bytes
  pub token_uri : Bytes
  pub kind : Bytes

pub data Handler : Type 0 where
  update_handler page_handler hsts_handler : Handler

-- The registrations of `main`.
abbrev pub routes : List (Bytes × Handler)
routes =
    (codes "/update", update_handler)
    ∷ (codes "/", page_handler)
    ∷ (codes "/hsts", hsts_handler)
    ∷ []

-- The service: its address, and the project and location of its database.
pub record Service : Type 0 where
  pub address : Bytes
  pub project : Bytes
  pub location : Bytes
  pub handlers : List (Bytes × Handler)

unfoldable pub or_default : Bytes → Bytes → Bytes
or_default value other = if is_empty value then other else value

module _ (read_file : Bytes → Result Bytes) (unmarshal : Bytes → Result Creds)
    (new_client : Bytes → Result (Unit {0})) (listen : Bytes → Result (Unit {0})) where
  -- `main`, with the variables PORT and GOOGLE_APPLICATION_CREDENTIALS. Every error ends the
  -- process.
  unfoldable pub start : Bytes → Bytes → Result Service
  unfolding or_default
  start port gcreds_path = do
    gc ← read_file (or_default gcreds_path (codes "./Historical-ROAs-02210e643954.json"))
    gcreds ← unmarshal gc
    _ ← new_client gcreds.project_id
    _ ← listen (codes ":" ++ or_default port (codes "8081"))
    ok (record {
      address = codes ":" ++ or_default port (codes "8081");
      project = gcreds.project_id;
      location = codes "us-east4";
      handlers = routes;
    })

-- A URL of a request. A server's request has no more than what its request line gives, which for
-- most requests is the path.
pub record Url : Type 0 where
  pub scheme : Bytes
  pub host : Bytes
  pub path : Bytes

pub record Request : Type 0 where
  pub forwarded_proto : Bytes
  pub url : Url
  pub is_post : Bool
  pub input : InputRoa

-- A response: its status, the header that both pages set, where it sends the client, and the error
-- that it shows.
pub record Response : Type 0 where
  pub status : ℕ
  pub transport_security : Option Bytes
  pub location : Option Bytes
  pub alert : Option Bytes

abbrev pub max_age : Bytes
max_age = codes "max-age=2629800"

abbrev pub plain : Response
plain = record { status = 200; transport_security = some max_age; location = none; alert = none }

-- `r.Header.Get("X-Forwarded-Proto") == "http" || r.URL.Scheme != "https"`
unfoldable pub is_insecure : Request → Bool
is_insecure r = same r.forwarded_proto (codes "http") || not (same r.url.scheme (codes "https"))

-- `hsts`
unfoldable pub hsts : (Url → Bytes) → Request → Response
unfolding is_insecure
hsts print r =
    if is_insecure r
    then record plain {
      status = 301;
      location = some (print (record r.url { scheme = codes "https" }));
    }
    else plain

-- `ErrorHandler`
unfoldable pub error_handler : ℕ → Bytes → Response → Response
error_handler status alert resp = record resp { status = status; alert = some alert }

abbrev shows : Run Page → Run (Option Page)
shows panic = panic
shows (returns p) = returns (some p)

-- `mainPage` from its start: nothing is shown where the template cannot be read.
unfoldable pub page :
    (Bytes → ℤ) → (Bytes → Result Bytes) → Result (Unit {0}) → Request → Run (Option Page)
page atoi parse_cidr (err e) r = returns none
page atoi parse_cidr (ok tmpl) r = shows (main_page atoi parse_cidr r.is_post r.input)

-- A request is served as it is exactly when its URL has the scheme https and no proxy says that it
-- came without; a request whose URL is no more than a path never is.
hsts_iff :
    (print : Url → Bytes) (r : Request)
    → ((hsts print r).location ≡ none)
      ↔ ((r.forwarded_proto ≢ codes "http") × (r.url.scheme ≡ codes "https"))
unfolding hsts is_insecure
hsts_iff print r =
    ground (arith, same_iff r.forwarded_proto (codes "http"), same_iff r.url.scheme (codes "https"))

pub hsts-location :
    (print : Url → Bytes) (r : Request)
    → r.url.scheme ≡ []
    → (hsts print r).location ≡ some (print (record r.url { scheme = codes "https" }))
unfolding hsts is_insecure
hsts-location print r h =
    ground (arith, same_iff r.forwarded_proto (codes "http"), same_iff r.url.scheme (codes "https"))
