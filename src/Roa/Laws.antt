-- ===== src/Roa/Laws.antt =====
-- The chunks of an update, and what the page of Historical-ROA/main.go does with its form.
use google_cloud_storage.Base.{
  ℕ, zero, suc, ◌+◌, ◌-◌, ◌≤◌, ◌<◌, Bytes, is_empty, List, [], ◌∷◌, ◌++◌, true, false, ltb, ltb→lt,
  length, take, drop, length-take, length-drop, take-append-drop, All, ◌≡◌, ◌≢◌, refl, sym, ap, ◌∙◌,
  ◌⊎◌, inl, inr, Bool-cases, arith, append-nil, append_assoc, is_empty_iff,
}
use google_cloud_storage.Base.Result.{Result}
use google_cloud_storage.Base.Run.{returns, panic}
use google_cloud_storage.Strings.Split.{Lacks, split_of_Lacks, split-append}
use google_cloud_storage.Roa.{
  ℤ, pos, InputRoa, StoredRoa, TimedRoa, Query, Page, choose_query, conv_in_to_stored, query_of,
  main_page, chunk, chunk_end, divided_from, divided, same_int, put_all,
}
use google_cloud_storage.Base.Effect.{M}

not_ltb : (a b : ℕ) → ltb a b ≡ false → b ≤ a
not_ltb a b h = ground arith

unfoldable pub concat : {A : Type 0} → List (List A) → List A
concat [] = []
concat (xs ∷ xss) = xs ++ concat xss

module _ {A : Type 0} where
  drop_all : (n : ℕ) (xs : List A) → length xs ≤ n → drop n xs ≡ []
  drop_all zero [] h = refl
  drop_all zero (x ∷ xs) h = absurd (omega arith)
  drop_all (suc n) [] h = refl
  drop_all (suc n) (x ∷ xs) h = drop_all n xs (omega arith)

  drop-drop : (m n k : ℕ) (xs : List A) → k ≡ n + m → drop m (drop n xs) ≡ drop k xs
  drop-drop m zero k xs h = ap (λ j. drop j xs) (omega arith)
  drop-drop m (suc n) zero xs h = absurd (omega arith)
  drop-drop zero (suc n) (suc k) [] h = refl
  drop-drop (suc m) (suc n) (suc k) [] h = refl
  drop-drop m (suc n) (suc k) (x ∷ xs) h = drop-drop m n k xs (omega arith)

  take_all : (n : ℕ) (xs : List A) → length xs ≤ n → take n xs ≡ xs
  take_all zero [] h = refl
  take_all zero (x ∷ xs) h = absurd (omega arith)
  take_all (suc n) [] h = refl
  take_all (suc n) (x ∷ xs) h = ap (λ l. x ∷ l) (take_all n xs (omega arith))

  -- One chunk and what follows it.
  cut :
      (i : ℕ) (xs : List A)
      → i < length xs
      → take (chunk_end i (length xs) - i) (drop i xs) ++ drop (i + chunk) xs ≡ drop i xs
  cut i xs h = elim (Bool-cases (ltb (length xs) (i + chunk))) [
    | inl e ↦
        let k = ltb→lt (length xs) (i + chunk) e in
        let a = length-drop i xs in
        rw
          (
            e,
            take_all (length xs - i) (drop i xs) (omega arith),
            drop_all (i + chunk) xs (omega arith),
          )
          (append-nil (drop i xs))
    | inr e ↦
        let k : i + chunk - i ≡ chunk = omega arith in
        rw (e, k)
          (ap (λ l. take chunk (drop i xs) ++ l) (sym (drop-drop chunk i (i + chunk) xs refl))
            ∙ take-append-drop chunk (drop i xs))
  ]

  divided_from_all :
      (n i : ℕ) (xs : List A) → length xs ≤ i + n → concat (divided_from n i xs) ≡ drop i xs
  unfolding divided_from concat
  divided_from_all zero i xs h = sym (drop_all i xs (omega arith))
  divided_from_all (suc n) i xs h = elim (Bool-cases (ltb i (length xs))) [
    | inl e ↦
        rw (e, divided_from_all n (i + chunk) xs (omega arith)) (cut i xs (ltb→lt i (length xs) e))
    | inr e ↦ let k = not_ltb i (length xs) e in rw e (sym (drop_all i xs k))
  ]

  -- The chunks of an update, one after the other, are its rows.
  pub divided_all : (xs : List A) → concat (divided xs) ≡ xs
  unfolding divided
  divided_all xs = divided_from_all (length xs) 0 xs (omega arith)

  abbrev pub IsChunk : List A → Type 0
  IsChunk c = (1 ≤ length c) × (length c ≤ chunk)

  cut_size :
      (i : ℕ) (xs : List A)
      → i < length xs
      → IsChunk (take (chunk_end i (length xs) - i) (drop i xs))
  cut_size i xs h =
      let a = length-drop i xs in
      let b = length-take (chunk_end i (length xs) - i) (drop i xs) in
      elim (Bool-cases (ltb (length xs) (i + chunk))) [
        | inl e ↦
            let k = ltb→lt (length xs) (i + chunk) e in
            let b' = rw e at b in rw e (omega arith, omega arith)
        | inr e ↦
            let k = not_ltb (length xs) (i + chunk) e in
            let b' = rw e at b in rw e (omega arith, omega arith)
      ]

  divided_from_size : (n i : ℕ) (xs : List A) → All IsChunk (divided_from n i xs)
  unfolding divided_from
  divided_from_size zero i xs = tt
  divided_from_size (suc n) i xs = elim (Bool-cases (ltb i (length xs))) [
    | inl e ↦ rw e (cut_size i xs (ltb→lt i (length xs) e), divided_from_size n (i + chunk) xs)
    | inr e ↦ rw e tt
  ]

  -- No chunk is empty, so that the loop over them does not stop early, and none has more rows than
  -- an insertion takes.
  pub divided_size : (xs : List A) → All IsChunk (divided xs)
  unfolding divided
  divided_size xs = divided_from_size (length xs) 0 xs

-- What is sent to the table.
module _ (answer : List TimedRoa → List TimedRoa → Result (Unit {0})) where
  abbrev pub log : List TimedRoa → M (List TimedRoa) (Unit {0})
  log rows sent = (sent ++ rows, answer rows sent)

  put_all-log :
      (cs : List (List TimedRoa)) (sent : List TimedRoa)
      → All IsChunk cs
      → put_all log cs sent ≡ sent ++ concat cs
  unfolding put_all concat
  put_all-log [] sent h = sym (append-nil sent)
  put_all-log ([] ∷ cs) sent ((a, b), hs) = absurd (omega arith)
  put_all-log ((x ∷ xs) ∷ cs) sent (h, hs) =
      put_all-log cs (sent ++ (x ∷ xs)) hs ∙ append_assoc sent (x ∷ xs) (concat cs)

  -- Whatever the table answers to each insertion, all rows of an update are sent to it once and in
  -- order.
  pub put_all_sends : (rows sent : List TimedRoa) → put_all log (divided rows) sent ≡ sent ++ rows
  put_all_sends rows sent =
      put_all-log (divided rows) sent (divided_size rows) ∙ ap (λ l. sent ++ l) (divided_all rows)

-- A prefix with one slash is stored as the address before it and the number after it.
pub conv_in_to_stored_prefix :
    (atoi : Bytes → ℤ) (i : InputRoa) (ip mask : Bytes)
    → Lacks b'/' ip
    → Lacks b'/' mask
    → i.prefix ≡ ip ++ (b'/' ∷ mask)
    → ((conv_in_to_stored atoi i).prefix ≡ ip) × ((conv_in_to_stored atoi i).subnet ≡ atoi mask)
unfolding conv_in_to_stored
conv_in_to_stored_prefix atoi i ip mask hip hmask eq =
    let a = split-append b'/' ip mask hip in
    let b = split_of_Lacks b'/' mask hmask in rw (eq, a, b) (refl, refl)

-- A posted form with no origin, no request to parse its prefix, and a prefix that has no slash,
-- panics: there is no statement for it.
pub main_page_panics :
    (atoi : Bytes → ℤ) (parse_cidr : Bytes → Result Bytes) (i : InputRoa)
    → i.asn ≡ []
    → i.parse_cidr ≡ []
    → Lacks b'/' i.prefix
    → main_page atoi parse_cidr true i ≡ panic
unfolding main_page query_of conv_in_to_stored choose_query is_empty same_int
main_page_panics atoi parse_cidr i asn cidr plain =
    let a = split_of_Lacks b'/' i.prefix plain in
    elim (Bool-cases (is_empty i.prefix)) [
      | inl e ↦ rw (asn, cidr, a, e) refl
      | inr e ↦ rw (asn, cidr, a, e) refl
    ]

-- A search with an origin, or with a prefix and a mask that is not zero, sends one of the three
-- statements, with what is stored for the form as its parameters.
pub query_of_total :
    (atoi : Bytes → ℤ) (store : StoredRoa)
    → (store.asn ≢ []) ⊎ ((store.prefix ≢ []) × (same_int store.subnet (pos 0) ≡ false))
    → (q : Query) × (query_of atoi store
        ≡ returns (Page.search q store.asn store.prefix store.subnet))
unfolding query_of choose_query
query_of_total atoi store h =
    let a = is_empty_iff store.asn in
    let b = is_empty_iff store.prefix in
    elim (Bool-cases (is_empty store.asn)) [
      | inl e ↦ (elim h [
        | inl named ↦ absurd (named (a.0 e))
        | inr (filled, masked) ↦ (elim (Bool-cases (is_empty store.prefix)) [
          | inl f ↦ absurd (filled (b.0 f))
          | inr f ↦ (Query.by_prefix, rw (e, f, masked) refl)
        ])
      ])
      | inr e ↦ (elim (Bool-cases (is_empty store.prefix)) [
        | inl f ↦ (Query.by_asn, rw (e, f) refl)
        | inr f ↦ (elim (Bool-cases (same_int store.subnet (pos 0))) [
          | inl g ↦ (Query.by_asn, rw (e, f, g) refl)
          | inr g ↦ (Query.by_asn_and_prefix, rw (e, f, g) refl)
        ])
      ])
    ]
