-- ===== src/Synchronizer/Months.antt =====
-- `spannedMonths` of pkg/synchronizer/synchronizer.go.
use google_cloud_storage.Base.{
  ℕ, zero, suc, ◌+◌, ◌-◌, ◌*◌, ◌/◌, ◌≤◌, ◌<◌, Bytes, same, same_iff, same_refl, List, [], ◌∷◌, Bool,
  true, false, ltb, if◌then◌else◌, ◌≡◌, ◌⊎◌, ◌↔◌, inl, inr, refl, arith, Bool-cases, lt→ltb, ltb→lt,
  ◌∙◌, ap,
}
use google_cloud_storage.Time.{day, rv_month}

-- `months[m] = true` and the keys of the map, in the order in which they came.
unfoldable pub in_months : Bytes → List Bytes → Bool
in_months m [] = false
in_months m (x ∷ xs) = if same x m then true else in_months m xs

unfoldable pub add_month : Bytes → List Bytes → List Bytes
add_month m [] = m ∷ []
add_month m (x ∷ xs) = if same x m then x ∷ xs else x ∷ add_month m xs

-- The loop over the instants a day apart, on fuel.
unfoldable pub months_loop : ℕ → ℕ → ℕ → List Bytes → List Bytes
unfolding add_month
months_loop zero curr end months = months
months_loop (suc fuel) curr end months =
    let rest = months_loop fuel (curr + day) end (add_month (rv_month curr) months) in
    if ltb curr end then rest else months

-- One round for each day that begins before the end.
unfoldable pub spanned_months : ℕ → ℕ → List Bytes
unfolding months_loop
spanned_months start end = months_loop ((end - start) / day + 1) start end []

in_months-add_month :
    (m x : Bytes) (xs : List Bytes)
    → in_months m (add_month x xs) ≡ (if same x m then true else in_months m xs)
unfolding in_months add_month
in_months-add_month m x [] = refl
in_months-add_month m x (y ∷ xs) =
    ground (arith, in_months-add_month m x xs, same_iff y x, same_iff y m, same_iff x m)

-- The loop keeps what it has, and adds the month of each instant that it visits.
months_loop_keeps :
    (fuel curr end : ℕ) (months : List Bytes) (m : Bytes)
    → in_months m months ≡ true
    → in_months m (months_loop fuel curr end months) ≡ true
unfolding months_loop
months_loop_keeps zero curr end months m h = h
months_loop_keeps (suc fuel) curr end months m h = ground (
  arith,
  in_months-add_month m (rv_month curr) months,
  months_loop_keeps fuel (curr + day) end (add_month (rv_month curr) months) m,
)

months_loop_adds :
    (fuel curr end : ℕ) (months : List Bytes) (k : ℕ)
    → curr + k * day < end
    → k < fuel
    → in_months (rv_month (curr + k * day)) (months_loop fuel curr end months) ≡ true
unfolding months_loop
months_loop_adds zero curr end months k h room = absurd (omega arith)
months_loop_adds (suc fuel) curr end months zero h room =
    let here : curr + 0 * day ≡ curr = omega arith in
    let before : ltb curr end ≡ true = lt→ltb curr end (omega arith) in
    rw (here, before)
      (months_loop_keeps fuel (curr + day) end (add_month (rv_month curr) months) (rv_month curr) (
        rw (in_months-add_month (rv_month curr) (rv_month curr) months, same_refl (rv_month curr))))
months_loop_adds (suc fuel) curr end months (suc k) h room =
    let further : curr + suc k * day ≡ curr + day + k * day = omega arith in
    let before : ltb curr end ≡ true = lt→ltb curr end (omega arith) in
    rw (further, before)
      (months_loop_adds fuel (curr + day) end (add_month (rv_month curr) months) k (omega arith)
        (omega arith))

-- A month is listed only for an instant that the loop visits.
months_loop_sound :
    (fuel curr end : ℕ) (months : List Bytes) (m : Bytes)
    → in_months m (months_loop fuel curr end months) ≡ true
    → (in_months m months ≡ true)
      ⊎ ((k : ℕ) × (curr + k * day < end) × (rv_month (curr + k * day) ≡ m))
unfolding months_loop
months_loop_sound zero curr end months m h = inl h
months_loop_sound (suc fuel) curr end months m h = elim (Bool-cases (ltb curr end)) [
  | inr e ↦ inl (rw e at h)
  | inl e ↦
      visited (ltb→lt curr end e)
        (months_loop_sound fuel (curr + day) end (add_month (rv_month curr) months) m (rw e at h))
]
  where
    this_one :
        curr < end
        → in_months m (add_month (rv_month curr) months) ≡ true
        → (in_months m months ≡ true)
          ⊎ ((k : ℕ) × (curr + k * day < end) × (rv_month (curr + k * day) ≡ m))
    this_one before new = elim (Bool-cases (same (rv_month curr) m)) [
      | inl e ↦
          let here : curr + 0 * day ≡ curr = omega arith in
          inr (0, omega arith, ap rv_month here ∙ (same_iff (rv_month curr) m).0 e)
      | inr e ↦ inl (ground (arith, in_months-add_month m (rv_month curr) months))
    ]

    visited :
        curr < end
        → (in_months m (add_month (rv_month curr) months) ≡ true)
          ⊎ ((k : ℕ) × (curr + day + k * day < end) × (rv_month (curr + day + k * day) ≡ m))
        → (in_months m months ≡ true)
          ⊎ ((k : ℕ) × (curr + k * day < end) × (rv_month (curr + k * day) ≡ m))
    visited before (inl new) = this_one before new
    visited before (inr (k, within, month)) =
        let further : curr + suc k * day ≡ curr + day + k * day = omega arith in
        inr (suc k, omega arith, ap rv_month further ∙ month)

-- A month is listed exactly when it is the month of an instant that lies a whole number of days
-- after the start and before the end.
pub spanned_months_iff :
    (start end : ℕ) (m : Bytes)
    → (in_months m (spanned_months start end) ≡ true)
      ↔ ((k : ℕ) × (start + k * day < end) × (rv_month (start + k * day) ≡ m))
unfolding spanned_months in_months
spanned_months_iff start end m = (
  λ h. elim (months_loop_sound ((end - start) / day + 1) start end [] m h) [
    | inl e ↦ absurd (cc)
    | inr w ↦ w
  ],
  λ (k, before, month).
      rw (← month) (months_loop_adds ((end - start) / day + 1) start end [] k before (omega arith)),
)

months_loop_end :
    (fuel curr end : ℕ) (months : List Bytes)
    → end ≤ curr
    → months_loop fuel curr end months ≡ months
unfolding months_loop
months_loop_end zero curr end months h = refl
months_loop_end (suc fuel) curr end months h = ground arith

-- A span of at most a day lists the month of its start alone, whatever the month of its end.
pub spanned_months_short :
    (start end : ℕ)
    → start < end
    → end ≤ start + day
    → spanned_months start end ≡ rv_month start ∷ []
unfolding spanned_months add_month
spanned_months_short start end before within =
    let rounds : (end - start) / day + 1 ≡ suc ((end - start) / day) = omega arith in
    rw (rounds, lt→ltb start end before)
      (months_loop_end ((end - start) / day) (start + day) end _ within)
