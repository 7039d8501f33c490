-- ===== src/Roa.antt =====
-- Historical-ROA/main.go: the service that keeps a history of route origin authorizations. Go's
-- `strconv.Atoi`, without its error, and `net.ParseCIDR` are arguments, as is the inserter of the
-- database client.
pub mod Laws
pub mod Journey
pub mod Merge
pub mod Results
pub mod Update
pub mod Web
use google_cloud_storage.Base.{
  ℕ, zero, suc, ◌+◌, ◌-◌, ◌*◌, Bytes, codes, is_empty, List, [], ◌∷◌, ◌++◌, Option, none, some,
  Bool, true, false, ◌&&◌, not, ltb, ◌==◌, if◌then◌else◌, length, take, drop,
}
use google_cloud_storage.Base.Result.{Error, Result, ok, err}
use google_cloud_storage.Base.Effect.{M}
use google_cloud_storage.Base.Run.{Run, returns, panic, ◌>>=◌}
use google_cloud_storage.Strings.Split.{split}
use google_cloud_storage.Time.{minute}

-- A Go `int`.
pub data ℤ : Type 0 where
  pos : ℕ → ℤ
  negsuc : ℕ → ℤ

unfoldable pub same_int : ℤ → ℤ → Bool
same_int (pos m) (pos n) = m == n
same_int (pos m) (negsuc n) = false
same_int (negsuc m) (pos n) = false
same_int (negsuc m) (negsuc n) = m == n

-- `inputROA`
pub record InputRoa : Type 0 where
  pub asn : Bytes
  pub prefix : Bytes
  pub max_length : ℤ
  pub ta : Bytes
  pub parse_cidr : Bytes

-- `storedROA`
pub record StoredRoa : Type 0 where
  pub asn : Bytes
  pub prefix : Bytes
  pub max_length : ℤ
  pub ta : Bytes
  pub subnet : ℤ

-- `storedROAWithTime`
pub record TimedRoa : Type 0 where
  pub roa : StoredRoa
  pub times : List ℕ

-- Which of the three `SELECT` statements is sent.
pub data Query : Type 0 where
  by_asn by_prefix by_asn_and_prefix : Query

-- What a request to the page ends in: the form, or a query with its three parameters.
pub data Page : Type 0 where
  form : Page
  search : Query → Bytes → Bytes → ℤ → Page

-- The `switch` of `mainPage`. Without a case the query is a nil pointer, and the next statement
-- sets a field of it.
unfoldable pub choose_query : Bool → Bool → Run Query
choose_query true false = returns Query.by_asn
choose_query false true = returns Query.by_prefix
choose_query true true = returns Query.by_asn_and_prefix
choose_query false false = panic

module _ (atoi : Bytes → ℤ) where
  abbrev pub mask_of : List Bytes → ℤ
  mask_of [] = pos 0
  mask_of (ip ∷ []) = pos 0
  mask_of (ip ∷ mask ∷ []) = atoi mask
  mask_of (ip ∷ mask ∷ x ∷ more) = pos 0

  abbrev pub first_of : List Bytes → Bytes
  first_of [] = []
  first_of (ip ∷ more) = ip

  -- `convInToStored`
  unfoldable pub conv_in_to_stored : InputRoa → StoredRoa
  conv_in_to_stored i = record {
    asn = i.asn;
    prefix = first_of (split b'/' i.prefix);
    max_length = i.max_length;
    ta = i.ta;
    subnet = mask_of (split b'/' i.prefix);
  }

  unfoldable pub query_of : StoredRoa → Run Page
  unfolding choose_query same_int
  query_of store = do
    query ←
        choose_query (not (is_empty store.asn))
          (not (is_empty store.prefix) && not (same_int store.subnet (pos 0)))
    returns (Page.search query store.asn store.prefix store.subnet)

  abbrev pub query_network : InputRoa → Result Bytes → Run Page
  query_network input (err e) = returns Page.form
  query_network input (ok network) =
      query_of (conv_in_to_stored (record input { prefix = network }))

  -- `mainPage`, once its template is read, up to the query. The input is what the form holds.
  unfoldable pub main_page : (Bytes → Result Bytes) → Bool → InputRoa → Run Page
  unfolding conv_in_to_stored query_of
  main_page parse_cidr is_post input =
      if not is_post
      then returns Page.form
      else if not (is_empty input.parse_cidr)
      then query_network input (parse_cidr input.prefix)
      else query_of (conv_in_to_stored input)

  -- `ipandmask[0]` and `ipandmask[1]`
  abbrev pub row_of : ℕ → InputRoa → List Bytes → Run TimedRoa
  row_of now i [] = panic
  row_of now i (ip ∷ []) = panic
  row_of now i (ip ∷ mask ∷ more) = returns (record {
    roa = record {
      asn = i.asn;
      prefix = ip;
      max_length = i.max_length;
      ta = i.ta;
      subnet = atoi mask;
    };
    times = now ∷ [];
  })

  -- The rows of an update.
  unfoldable pub rows_of : ℕ → List InputRoa → Run (List TimedRoa)
  rows_of now [] = returns []
  rows_of now (i ∷ roas) = do
    row ← row_of now i (split b'/' i.prefix)
    rows ← rows_of now roas
    returns (row ∷ rows)

abbrev pub chunk : ℕ
chunk = 950

-- `end`
abbrev pub chunk_end : ℕ → ℕ → ℕ
chunk_end i n = if ltb n (i + chunk) then n else i + chunk

-- `divided`, from the index `i` on. The first argument bounds the number of chunks.
unfoldable pub divided_from : {A : Type 0} → ℕ → ℕ → List A → List (List A)
divided_from zero i xs = []
divided_from (suc n) i xs =
    let rest = divided_from n (i + chunk) xs in
    if ltb i (length xs) then take (chunk_end i (length xs) - i) (drop i xs) ∷ rest else []

unfoldable pub divided : {A : Type 0} → List A → List (List A)
unfolding divided_from
divided xs = divided_from (length xs) 0 xs

-- The loop over `divided`: it stops at an empty chunk, and goes on after a failure.
unfoldable pub put_all :
    {S : Type 0} → (List TimedRoa → M S (Unit {0})) → List (List TimedRoa) → S → S
put_all put [] s = s
put_all put ([] ∷ chunks) s = s
put_all put ((x ∷ xs) ∷ chunks) s = put_all put chunks (put (x ∷ xs) s).0

-- `pullToDB` refuses an update when the database has changed in the last 50 minutes. The first
-- argument is what the query returned, and what its first row says. The error of the query is
-- dropped, and its missing rows are then read.
unfoldable pub already_done : Result (Result ℕ) → ℕ → Run Bool
already_done (err e) now = panic
already_done (ok (err e)) now = returns false
already_done (ok (ok last)) now = returns (ltb now (last + 50 * minute))

-- What a row of the table is shown as.
module _ (decimal : ℤ → Bytes) where
  unfoldable pub full_prefix : Bytes → ℤ → Bytes
  full_prefix prefix mask = prefix ++ codes "/" ++ decimal mask

  unfoldable pub full_prefix_range : Bytes → ℤ → ℤ → Bytes
  unfolding full_prefix same_int
  full_prefix_range prefix mask maxlen =
      if not (same_int maxlen mask)
      then full_prefix prefix mask ++ codes " => " ++ decimal maxlen
      else full_prefix prefix mask
