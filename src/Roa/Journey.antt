-- ===== src/Roa/Journey.antt =====
-- An authorization from its download to the page: `pullToDB` of Historical-ROA/main.go puts it into
-- the table, and `mainPage` shows what the table has.
use google_cloud_storage.Base.{
  ℕ, Bytes, List, [], ◌∷◌, ◌++◌, Option, none, some, true, Bool-cases, ◌≡◌, ◌≢◌, inl, inr, refl,
  sym, ap, ◌∙◌, append-nil, is_empty,
}
use google_cloud_storage.Base.Result.{Result, ok}
use google_cloud_storage.Base.Run.{Run, returns, panic}
use google_cloud_storage.Strings.Split.{split}
use google_cloud_storage.Roa.{
  ℤ, pos, InputRoa, StoredRoa, TimedRoa, Page, row_of, rows_of, main_page, query_of,
  conv_in_to_stored,
}
use google_cloud_storage.Roa.Merge.{same_roa}
use google_cloud_storage.Roa.Merge.Laws.{
  history, Unique, history_hit, history_miss, same_roa_iff, joined,
}
use google_cloud_storage.Roa.Update.{Warehouse, IsLawful, updated, pull_to_db}
use google_cloud_storage.Roa.Update.Laws.{Inserts, pull_to_db-history}
use google_cloud_storage.Roa.Results.{Shown, results, shown, answer_of}
use google_cloud_storage.Roa.Results.Laws.{answer_of-shows}
use mathlib.Core.List.{Memᴰ}
use mathlib.Core.List.Memᴰ

-- In a table with one row for each authorization, a row has the times of its authorization.
history-Memᴰ :
    (r : TimedRoa) (rows : List TimedRoa)
    → Unique rows
    → Memᴰ r rows
    → history r.roa rows ≡ some r.times
history-Memᴰ r [] u m = absurd (Memᴰ.not-nil m)
history-Memᴰ r (x ∷ rows) (fresh, u) m = elim (Memᴰ.cases_cons m) [
  | inl e ↦
      history_hit r.roa x rows ((same_roa_iff x.roa r.roa).1 (ap (λ y. y.roa) (sym e)))
      ∙ ap (λ y. some y.times) (sym e)
  | inr k ↦ (elim (Bool-cases (same_roa x.roa r.roa)) [
    | inl e ↦
        let clash : ◌≡◌ {A = Option (List ℕ)} none (some r.times) =
          sym fresh
          ∙ ap (λ j. history j rows) ((same_roa_iff x.roa r.roa).0 e)
          ∙ history-Memᴰ r rows u k in
        absurd (cc)
    | inr e ↦ history_miss r.roa x rows e ∙ history-Memᴰ r rows u k
  ])
]

returns_inj : {A : Type 0} (a b : A) → ◌≡◌ {A = Run A} (returns a) (returns b) → a ≡ b
returns_inj a b h = cc

some_inj : {A : Type 0} (a b : A) → ◌≡◌ {A = Option A} (some a) (some b) → a ≡ b
some_inj a b h = cc

-- The times of an authorization are those of a row.
row-history :
    (k : StoredRoa) (rows : List TimedRoa) (ts : List ℕ)
    → history k rows ≡ some ts
    → Memᴰ (record { roa = k; times = ts }) rows
unfolding history
row-history k [] ts h = absurd (cc)
row-history k (x ∷ rows) ts h = elim (Bool-cases (same_roa x.roa k)) [
  | inl e ↦ Memᴰ.head (same_row (history_hit k x rows e) ((same_roa_iff x.roa k).0 e))
  | inr e ↦ Memᴰ.tail (row-history k rows ts (sym (history_miss k x rows e) ∙ h))
]
  where
    same_row :
        history k (x ∷ rows) ≡ some x.times
        → x.roa ≡ k
        → ◌≡◌ {A = TimedRoa} (record { roa = k; times = ts }) x
    same_row e f = let g : ts ≡ x.times = some_inj ts x.times (sym h ∙ e) in rw (g, sym f) refl

-- What the download's row of an authorization is.
rows_of-Memᴰ :
    (atoi : Bytes → ℤ) (now : ℕ) (i : InputRoa) (roas : List InputRoa) (rows : List TimedRoa)
    → rows_of atoi now roas ≡ returns rows
    → Memᴰ i roas
    → (r : TimedRoa) × Memᴰ r rows × (row_of atoi now i (split b'/' i.prefix) ≡ returns r)
unfolding rows_of
rows_of-Memᴰ atoi now i [] rows h m = absurd (Memᴰ.not-nil m)
rows_of-Memᴰ atoi now i (j ∷ roas) rows h m =
    go (row_of atoi now j (split b'/' j.prefix)) refl (rows_of atoi now roas) refl
      (λ out e. rows_of-Memᴰ atoi now i roas out e)
  where
    go :
        (x : Run TimedRoa)
        → row_of atoi now j (split b'/' j.prefix) ≡ x
        → (y : Run (List TimedRoa)) → rows_of atoi now roas ≡ y
        → ((out : List TimedRoa)
            → rows_of atoi now roas ≡ returns out
            → Memᴰ i roas
            → (r : TimedRoa) × Memᴰ r out × (row_of atoi now i (split b'/' i.prefix) ≡ returns r))
        → (r : TimedRoa) × Memᴰ r rows × (row_of atoi now i (split b'/' i.prefix) ≡ returns r)
    go panic p y q ih = (let h' = rw (p, rows_of) at h in absurd (cc))
    go (returns x) p panic q ih = (let h' = rw (p, q, rows_of) at h in absurd (cc))
    go (returns x) p (returns out) q ih =
        let h' = rw (p, q, rows_of) at h in
        let e : rows ≡ x ∷ out = cc in
        elim (Memᴰ.cases_cons m) [
          | inl same_roas ↦ (x, rw e (Memᴰ.head refl), rw same_roas p)
          | inr k ↦ let (r, n, f) = ih out q k in (r, rw e (Memᴰ.tail n), f)
        ]

-- The times of an authorization, none for one that the table does not have.
abbrev pub times_of : Option (List ℕ) → List ℕ
times_of none = []
times_of (some old) = old

joined_old : (new : List ℕ) (x : Option (List ℕ)) → joined (some new) x ≡ some (new ++ times_of x)
unfolding joined
joined_old new none = ap (λ l. some l) (sym (append-nil new))
joined_old new (some old) = refl

-- A search for an origin.
abbrev pub by_asn : Bytes → InputRoa
by_asn asn = record { asn = asn; prefix = []; max_length = pos 0; ta = []; parse_cidr = [] }

module _ (W : Warehouse) (L : IsLawful W) (atoi : Bytes → ℤ) where
  -- After an update that reported success, the table has the new time of each downloaded
  -- authorization in front of its old ones.
  updated_row :
      Inserts W L
      → (now : ℕ) (roas : List InputRoa) (rows : List TimedRoa) (schema : Result (Unit {0}))
        (s s' : W.State) (i : InputRoa)
      → rows_of atoi now roas ≡ returns rows
      → Unique rows
      → pull_to_db W atoi now (ok roas) schema s ≡ returns (s', updated)
      → Memᴰ i roas
      → (r : TimedRoa) × (row_of atoi now i (split b'/' i.prefix) ≡ returns r)
        × Memᴰ (record r { times = r.times ++ times_of (history r.roa (W.arr s)) }) (W.arr s')
  updated_row I now roas rows schema s s' i read u h m =
      let (r, n, f) = rows_of-Memᴰ atoi now i roas rows read m in
      let old = times_of (history r.roa (W.arr s)) in
      let g = joined_old r.times (history r.roa (W.arr s)) in
      (
        r,
        f,
        row-history r.roa (W.arr s') (r.times ++ old) (
            pull_to_db-history W L atoi I now roas rows schema s s' read u h r.roa
            ∙ ap (λ t. joined t (history r.roa (W.arr s))) (history-Memᴰ r rows u n)
            ∙ g),
      )

row_of_lem :
    (atoi : Bytes → ℤ) (now : ℕ) (i : InputRoa) (parts : List Bytes) (r : TimedRoa)
    → row_of atoi now i parts ≡ returns r
    → (r.roa.asn ≡ i.asn) × (r.times ≡ now ∷ [])
row_of_lem atoi now i [] r h = absurd (cc)
row_of_lem atoi now i (ip ∷ []) r h = absurd (cc)
row_of_lem atoi now i (ip ∷ mask ∷ more) r h =
    let e = returns_inj _ r h in (ap (λ y. y.roa.asn) (sym e), ap (λ y. y.times) (sym e))

-- What a search for an origin queries.
searched : Bytes → StoredRoa
searched asn = record { asn = asn; prefix = []; max_length = pos 0; ta = []; subnet = pos 0 }

main_page-by_asn :
    (atoi : Bytes → ℤ) (parse_cidr : Bytes → Result Bytes) (asn : Bytes)
    → main_page atoi parse_cidr true (by_asn asn) ≡ query_of atoi (searched asn)
unfolding main_page conv_in_to_stored split searched is_empty
main_page-by_asn atoi parse_cidr asn = refl

module _ (W : Warehouse) (L : IsLawful W) (atoi : Bytes → ℤ) (parse_cidr : Bytes → Result Bytes)
    (unix : ℕ → ℤ) (rfc3339 : ℕ → Bytes) (decimal : ℤ → Bytes) where
  -- With a database client that keeps the rules of its interface, where every insertion succeeds
  -- and the download has no authorization twice: after an update that reported success, a search
  -- for the origin of a downloaded authorization, whose query runs, is answered with results
  -- among which is that authorization, with the time of the update in front of the times that the
  -- table had for it before, if it had any.
  pub pull_to_db-shows :
      Inserts W L
      → (now : ℕ) (roas : List InputRoa) (rows : List TimedRoa) (schema : Result (Unit {0}))
        (s s' : W.State) (i : InputRoa)
      → rows_of atoi now roas ≡ returns rows
      → Unique rows
      → pull_to_db W atoi now (ok roas) schema s ≡ returns (s', updated)
      → Memᴰ i roas
      → i.asn ≢ []
      → (r : TimedRoa) × (p : Page) × (out : List Shown) × (row_of atoi now i (split b'/' i.prefix)
          ≡ returns r)
        × (main_page atoi parse_cidr true (by_asn i.asn) ≡ returns p)
        × (answer_of unix rfc3339 decimal (W.arr s') (ok tt) p ≡ results out)
        × Memᴰ
            (shown unix rfc3339 decimal
              (record r { times = now ∷ times_of (history r.roa (W.arr s)) }))
            out
  unfolding searched
  pull_to_db-shows I now roas rows schema s s' i read u h m named =
      let (r, f, n) = updated_row W L atoi I now roas rows schema s s' i read u h m in
      let old = times_of (history r.roa (W.arr s)) in
      let (same_asn, new) = row_of_lem atoi now i (split b'/' i.prefix) r f in
      let (p, out, q, e, spec) =
        answer_of-shows unix rfc3339 decimal atoi (W.arr s') (searched i.asn) (inl named) in
      (
        r,
        p,
        out,
        f,
        main_page-by_asn atoi parse_cidr i.asn ∙ q,
        e,
        (spec (shown unix rfc3339 decimal (record r { times = now ∷ old }))).1 (
          record r { times = now ∷ old },
          rw new at n,
          (λ x. same_asn, λ (x, y). absurd (x refl)),
          refl,
        ),
      )
