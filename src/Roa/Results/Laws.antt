-- ===== src/Roa/Results/Laws.antt =====
-- What a search of the page of Historical-ROA/main.go shows.
use google_cloud_storage.Base.{
  ℕ, Bytes, same, same_iff, is_empty, is_empty_iff, List, [], ◌∷◌, Bool, true, false, ◌&&◌, not,
  ◌≡◌, ◌≢◌, ◌↔◌, ◌⊎◌, inl, inr, refl, sym, ap, ◌∙◌, arith, Bool-cases,
}
use google_cloud_storage.Base.Result.{ok}
use google_cloud_storage.Base.Run.{returns}
use mathlib.Core.List.{Memᴰ}
use mathlib.Core.List.Memᴰ
use google_cloud_storage.Roa.{
  ℤ, pos, same_int, StoredRoa, TimedRoa, Query, Page, choose_query, query_of,
}
use google_cloud_storage.Roa.Merge.Laws.{same_int_iff}
use google_cloud_storage.Roa.Results.{
  selects, selected, Shown, results, shown, shown_all, answer_of,
}

-- What a request asks for: the authorizations of its origin, when it has one, and for its prefix,
-- when it has one with a mask.
abbrev pub Wanted : StoredRoa → StoredRoa → Type 0
Wanted s r =
    (s.asn ≢ [] → r.asn ≡ s.asn)
    × ((s.prefix ≢ []) × (s.subnet ≢ pos 0) → (r.prefix ≡ s.prefix) × (r.subnet ≡ s.subnet))

selected_iff :
    (q : Query) (asn prefix : Bytes) (mask : ℤ) (rows : List TimedRoa) (r : TimedRoa)
    → Memᴰ r (selected q asn prefix mask rows)
      ↔ (Memᴰ r rows × (selects q asn prefix mask r.roa ≡ true))
unfolding selected
selected_iff q asn prefix mask [] r =
    (λ m. absurd (Memᴰ.not-nil m), λ (m, e). absurd (Memᴰ.not-nil m))
selected_iff q asn prefix mask (x ∷ rows) r =
    let ih = selected_iff q asn prefix mask rows r in
    elim (Bool-cases (selects q asn prefix mask x.roa)) [
      | inl e ↦ rw e (
        λ m. elim (Memᴰ.cases_cons m) [
          | inl same ↦ (Memᴰ.head same, ap (λ y. selects q asn prefix mask y.roa) same ∙ e)
          | inr k ↦ (Memᴰ.tail (ih.0 k).0, (ih.0 k).1)
        ],
        λ (m, s). elim (Memᴰ.cases_cons m) [
          | inl same ↦ Memᴰ.head same
          | inr k ↦ Memᴰ.tail (ih.1 (k, s))
        ],
      )
      | inr e ↦ rw e (
        λ m. (Memᴰ.tail (ih.0 m).0, (ih.0 m).1),
        λ (m, s). elim (Memᴰ.cases_cons m) [
          | inl same ↦
              let other : ◌≡◌ {A = Bool} true false =
                sym s ∙ ap (λ y. selects q asn prefix mask y.roa) same ∙ e in
              absurd (cc)
          | inr k ↦ ih.1 (k, s)
        ],
      )
    ]

abbrev has_asn : StoredRoa → Bool
has_asn s = not (is_empty s.asn)

abbrev has_prefix : StoredRoa → Bool
has_prefix s = not (is_empty s.prefix) && not (same_int s.subnet (pos 0))

and_iff : (a b : Bool) → ((a && b) ≡ true) ↔ ((a ≡ true) × (b ≡ true))
and_iff a b = ground arith

clash : (b : Bool) → b ≡ false → b ≡ true → ⊥
clash b e h = (let k : ◌≡◌ {A = Bool} false true = sym e ∙ h in absurd (cc))

chosen_asn : (a b : Bool) → choose_query a b ≡ returns Query.by_asn → (a ≡ true) × (b ≡ false)
unfolding choose_query
chosen_asn true true h = absurd (cc)
chosen_asn true false h = (refl, refl)
chosen_asn false true h = absurd (cc)
chosen_asn false false h = absurd (cc)

chosen_prefix : (a b : Bool) → choose_query a b ≡ returns Query.by_prefix → (a ≡ false) × (b ≡ true)
unfolding choose_query
chosen_prefix true true h = absurd (cc)
chosen_prefix true false h = absurd (cc)
chosen_prefix false true h = (refl, refl)
chosen_prefix false false h = absurd (cc)

chosen_both :
    (a b : Bool) → choose_query a b ≡ returns Query.by_asn_and_prefix → (a ≡ true) × (b ≡ true)
unfolding choose_query
chosen_both true true h = (refl, refl)
chosen_both true false h = absurd (cc)
chosen_both false true h = absurd (cc)
chosen_both false false h = absurd (cc)

-- A clause of the statements holds of an authorization exactly when it has the same columns.
prefix_clause :
    (s r : StoredRoa)
    → ((same r.prefix s.prefix && same_int r.subnet s.subnet) ≡ true)
      ↔ ((r.prefix ≡ s.prefix) × (r.subnet ≡ s.subnet))
prefix_clause s r = ground (arith, same_iff r.prefix s.prefix, same_int_iff r.subnet s.subnet)

has_asn_iff : (s : StoredRoa) → (has_asn s ≡ true) ↔ (s.asn ≢ [])
has_asn_iff s = ground (arith, is_empty_iff s.asn)

has_prefix_iff : (s : StoredRoa) → (has_prefix s ≡ true) ↔ ((s.prefix ≢ []) × (s.subnet ≢ pos 0))
has_prefix_iff s = ground (arith, is_empty_iff s.prefix, same_int_iff s.subnet (pos 0))

selects_iff :
    (q : Query) (s r : StoredRoa)
    → choose_query (has_asn s) (has_prefix s) ≡ returns q
    → (selects q s.asn s.prefix s.subnet r ≡ true) ↔ Wanted s r
unfolding selects choose_query
selects_iff Query.by_asn s r h =
    let (a, b) = chosen_asn (has_asn s) (has_prefix s) h in
    let none : (s.prefix ≢ []) × (s.subnet ≢ pos 0) → ⊥ =
      λ p. clash (has_prefix s) b ((has_prefix_iff s).1 p) in
    (
      λ e. (λ n. (same_iff r.asn s.asn).0 e, λ p. absurd (none p)),
      λ (w, v). (same_iff r.asn s.asn).1 (w ((has_asn_iff s).0 a)),
    )
selects_iff Query.by_prefix s r h =
    let (a, b) = chosen_prefix (has_asn s) (has_prefix s) h in
    (
      λ e. (λ n. absurd (clash (has_asn s) a ((has_asn_iff s).1 n)), λ p. (prefix_clause s r).0 e),
      λ (w, v). (prefix_clause s r).1 (v ((has_prefix_iff s).0 b)),
    )
selects_iff Query.by_asn_and_prefix s r h =
    let (a, b) = chosen_both (has_asn s) (has_prefix s) h in
    let both = and_iff (same r.asn s.asn) (same r.prefix s.prefix && same_int r.subnet s.subnet) in
    (
      λ e. (λ n. (same_iff r.asn s.asn).0 (both.0 e).0, λ p. (prefix_clause s r).0 (both.0 e).1),
      λ (w, v). both.1 (
        (same_iff r.asn s.asn).1 (w ((has_asn_iff s).0 a)),
        (prefix_clause s r).1 (v ((has_prefix_iff s).0 b)),
      ),
    )

chosen : (a b : Bool) → (a ≡ true) ⊎ (b ≡ true) → (q : Query) × (choose_query a b ≡ returns q)
unfolding choose_query
chosen true true h = (Query.by_asn_and_prefix, refl)
chosen true false h = (Query.by_asn, refl)
chosen false true h = (Query.by_prefix, refl)
chosen false false (inl e) = absurd (cc)
chosen false false (inr e) = absurd (cc)

query_of_chosen :
    (atoi : Bytes → ℤ) (s : StoredRoa) (q : Query)
    → choose_query (has_asn s) (has_prefix s) ≡ returns q
    → query_of atoi s ≡ returns (Page.search q s.asn s.prefix s.subnet)
unfolding query_of
query_of_chosen atoi s q e = rw e refl

module _ (unix : ℕ → ℤ) (rfc3339 : ℕ → Bytes) (decimal : ℤ → Bytes) where
  shown_all_iff :
      (rows : List TimedRoa) (x : Shown)
      → Memᴰ x (shown_all unix rfc3339 decimal rows)
        ↔ ((r : TimedRoa) × Memᴰ r rows × (x ≡ shown unix rfc3339 decimal r))
  shown_all_iff [] x = (λ m. absurd (Memᴰ.not-nil m), λ (r, m, e). absurd (Memᴰ.not-nil m))
  shown_all_iff (y ∷ rows) x =
      let ih = shown_all_iff rows x in
      (
        λ m. elim (Memᴰ.cases_cons m) [
          | inl same ↦ (y, Memᴰ.head refl, same)
          | inr k ↦ (let (r, n, e) = ih.0 k in (r, Memᴰ.tail n, e))
        ],
        λ (r, m, e). elim (Memᴰ.cases_cons m) [
          | inl same ↦ Memᴰ.head (e ∙ ap (shown unix rfc3339 decimal) same)
          | inr k ↦ Memᴰ.tail (ih.1 (r, k, e))
        ],
      )

  -- A search with an origin, or with a prefix and a mask that is not zero, is answered, when its
  -- query runs, with the rows of the table that have the origin, where one is given, and the prefix
  -- and mask, where they are given: each of them is shown, and nothing else.
  pub answer_of-shows :
      (atoi : Bytes → ℤ) (table : List TimedRoa) (s : StoredRoa)
      → (s.asn ≢ []) ⊎ ((s.prefix ≢ []) × (s.subnet ≢ pos 0))
      → (p : Page) × (rows : List Shown) × (query_of atoi s ≡ returns p)
        × (answer_of unix rfc3339 decimal table (ok tt) p ≡ results rows)
        × ((x : Shown)
            → Memᴰ x rows ↔ (
                (r : TimedRoa) × Memᴰ r table
                × Wanted s r.roa
                × (x ≡ shown unix rfc3339 decimal r)))
  unfolding answer_of
  answer_of-shows atoi table s h =
      let (q, e) =
        chosen (has_asn s) (has_prefix s)
          (elim h [ inl n ↦ inl ((has_asn_iff s).1 n) | inr p ↦ inr ((has_prefix_iff s).1 p) ]) in
      let rows = selected q s.asn s.prefix s.subnet table in
      (
        Page.search q s.asn s.prefix s.subnet,
        shown_all unix rfc3339 decimal rows,
        query_of_chosen atoi s q e,
        refl,
        λ x. (
          λ m.
              let (r, n, k) = (shown_all_iff rows x).0 m in
              let (in_table, fits) = (selected_iff q s.asn s.prefix s.subnet table r).0 n in
              (r, in_table, (selects_iff q s r.roa e).0 fits, k),
          λ (r, m, w, k). (shown_all_iff rows x).1 (
            r,
            (selected_iff q s.asn s.prefix s.subnet table r).1 (m, (selects_iff q s r.roa e).1 w),
            k,
          ),
        ),
      )
