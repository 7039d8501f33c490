-- ===== src/Roa/Merge/Laws.antt =====
-- What a merge does to the history of each authorization.
use google_cloud_storage.Base.{
  ℕ, same_iff, List, [], ◌∷◌, ◌++◌, Option, none, some, true, false, if◌then◌else◌, ◌≡◌, ◌↔◌, refl,
  sym, ap, ◌∙◌, ◌⊎◌, inl, inr, arith, Bool-cases,
}
use google_cloud_storage.Base.Result.{ok}
use google_cloud_storage.Roa.{ℤ, pos, negsuc, same_int, StoredRoa, TimedRoa}
use mathlib.Core.Path.{ap₂}
use google_cloud_storage.Roa.Merge.{
  same_roa, matches, updated_row, updated_rows, inserted_rows, merge,
}

-- The insertion times of an authorization: those of its first row.
unfoldable pub history : StoredRoa → List TimedRoa → Option (List ℕ)
history k [] = none
history k (r ∷ rows) = let rest = history k rows in if same_roa r.roa k then some r.times else rest

-- No two rows are of the same authorization.
abbrev pub Unique : List TimedRoa → Type 0
Unique [] = Unit
Unique (r ∷ rows) = (history r.roa rows ≡ none) × Unique rows

pub same_int_iff : (a b : ℤ) → (same_int a b ≡ true) ↔ (a ≡ b)
unfolding same_int
same_int_iff (pos m) (pos n) = ground arith
same_int_iff (pos m) (negsuc n) = ground arith
same_int_iff (negsuc m) (pos n) = ground arith
same_int_iff (negsuc m) (negsuc n) = ground arith

pub same_roa_iff : (a b : StoredRoa) → (same_roa a b ≡ true) ↔ (a ≡ b)
unfolding same_roa
same_roa_iff a b = ground (
  arith,
  same_iff a.asn b.asn,
  same_iff a.prefix b.prefix,
  same_iff a.ta b.ta,
  same_int_iff a.max_length b.max_length,
  same_int_iff a.subnet b.subnet,
)

same_roa-eq : (a b : StoredRoa) → same_roa a b ≡ true → a ≡ b
same_roa-eq a b h = (same_roa_iff a b).0 h

abbrev HasOne : StoredRoa → List TimedRoa → Type 0
HasOne k rows =
    ((matches k rows ≡ []) × (history k rows ≡ none))
    ⊎ ((b : TimedRoa) × (matches k rows ≡ b ∷ []) × (history k rows ≡ some b.times))

Unique-HasOne : (k : StoredRoa) (rows : List TimedRoa) → Unique rows → HasOne k rows
unfolding matches history
Unique-HasOne k [] u = inl (refl, refl)
Unique-HasOne k (r ∷ rows) (fresh, u) = elim (Bool-cases (same_roa r.roa k)) [
  | inr e ↦ rw e (Unique-HasOne k rows u)
  | inl e ↦ (elim (Unique-HasOne k rows u) [
    | inl (m, h) ↦ rw (e, m) (inr (r, refl, refl))
    | inr (b, m, h) ↦
        let same : r.roa ≡ k = same_roa-eq r.roa k e in
        let clash : ◌≡◌ {A = Option (List ℕ)} none (some b.times) =
          sym fresh ∙ ap (λ j. history j rows) same ∙ h in
        absurd (cc)
  ])
]

abbrev pub HasSome : StoredRoa → List TimedRoa → Type 0
HasSome k rows =
    ((matches k rows ≡ []) × (history k rows ≡ none))
    ⊎ ((b : TimedRoa) × (more : List TimedRoa) × (t : List ℕ) × (matches k rows ≡ b ∷ more)
        × (history k rows ≡ some t))

pub matches_cases : (k : StoredRoa) (rows : List TimedRoa) → HasSome k rows
unfolding matches history
matches_cases k [] = inl (refl, refl)
matches_cases k (r ∷ rows) = elim (Bool-cases (same_roa r.roa k)) [
  | inr e ↦ rw e (matches_cases k rows)
  | inl e ↦ rw e (inr (r, matches k rows, r.times, refl, refl))
]

history_nil : (k : StoredRoa) → history k [] ≡ none
unfolding history
history_nil k = refl

-- The row after the update, by the new times of its authorization.
unfoldable pub extended : Option (List ℕ) → TimedRoa → TimedRoa
extended none a = a
extended (some new) a = record a { times = new ++ a.times }

pub extended_roa : (h : Option (List ℕ)) (a : TimedRoa) → (extended h a).roa ≡ a.roa
unfolding extended
extended_roa none a = refl
extended_roa (some new) a = refl

unfoldable pub extended_rows : List TimedRoa → List TimedRoa → List TimedRoa
extended_rows buf [] = []
extended_rows buf (a ∷ arr) = extended (history a.roa buf) a ∷ extended_rows buf arr

updated_row-HasOne :
    (a : TimedRoa) (buf : List TimedRoa)
    → HasOne a.roa buf
    → updated_row a (matches a.roa buf) ≡ ok (extended (history a.roa buf) a)
unfolding updated_row extended
updated_row-HasOne a buf (inl (m, h)) = rw (m, h)
updated_row-HasOne a buf (inr (b, m, h)) = rw (m, h)

updated_rows-Unique :
    (buf arr : List TimedRoa) → Unique buf → updated_rows buf arr ≡ ok (extended_rows buf arr)
unfolding updated_rows extended_rows
updated_rows-Unique buf [] u = refl
updated_rows-Unique buf (a ∷ arr) u =
    rw (updated_row-HasOne a buf (Unique-HasOne a.roa buf u), updated_rows-Unique buf arr u) refl

-- The times of an authorization that is already in the table.
pub prepended : Option (List ℕ) → Option (List ℕ) → Option (List ℕ)
prepended new none = none
prepended none (some old) = some old
prepended (some new) (some old) = some (new ++ old)

extended_times :
    (h : Option (List ℕ)) (a : TimedRoa) → some (extended h a).times ≡ prepended h (some a.times)
unfolding extended prepended
extended_times none a = refl
extended_times (some new) a = refl

pub prepended-none : (h : Option (List ℕ)) → prepended h none ≡ none
unfolding prepended
prepended-none none = refl
prepended-none (some new) = refl

pub history_hit :
    (k : StoredRoa) (r : TimedRoa) (rows : List TimedRoa)
    → same_roa r.roa k ≡ true
    → history k (r ∷ rows) ≡ some r.times
unfolding history
history_hit k r rows e = rw e refl

pub history_miss :
    (k : StoredRoa) (r : TimedRoa) (rows : List TimedRoa)
    → same_roa r.roa k ≡ false
    → history k (r ∷ rows) ≡ history k rows
unfolding history
history_miss k r rows e = rw e refl

pub history-extended_rows :
    (k : StoredRoa) (buf arr : List TimedRoa)
    → history k (extended_rows buf arr) ≡ prepended (history k buf) (history k arr)
unfolding extended_rows
history-extended_rows k buf [] = rw (history_nil k) (sym (prepended-none (history k buf)))
history-extended_rows k buf (a ∷ arr) =
    let row = extended (history a.roa buf) a in
    let kept = extended_roa (history a.roa buf) a in
    elim (Bool-cases (same_roa a.roa k)) [
      | inl e ↦
          let own : a.roa ≡ k = same_roa-eq a.roa k e in
          history_hit k row (extended_rows buf arr) (ap (λ j. same_roa j k) kept ∙ e)
          ∙ extended_times (history a.roa buf) a
          ∙ ap (λ j. prepended (history j buf) (some a.times)) own
          ∙ ap (prepended (history k buf)) (sym (history_hit k a arr e))
      | inr e ↦
          history_miss k row (extended_rows buf arr) (ap (λ j. same_roa j k) kept ∙ e)
          ∙ history-extended_rows k buf arr
          ∙ ap (prepended (history k buf)) (sym (history_miss k a arr e))
    ]

-- The times of an authorization that is new to the table.
pub unless : Option (List ℕ) → Option (List ℕ) → Option (List ℕ)
unless (some old) new = none
unless none new = new

pub unless-none : (h : Option (List ℕ)) → unless h none ≡ none
unfolding unless
unless-none none = refl
unless-none (some old) = refl

unless_new : (new : Option (List ℕ)) → unless none new ≡ new
unfolding unless
unless_new new = refl

pub unless_old : (old : List ℕ) (new : Option (List ℕ)) → unless (some old) new ≡ none
unfolding unless
unless_old old new = refl

pub history-inserted_rows :
    (k : StoredRoa) (buf arr : List TimedRoa)
    → history k (inserted_rows buf arr) ≡ unless (history k arr) (history k buf)
unfolding inserted_rows
history-inserted_rows k [] arr = rw (history_nil k) (sym (unless-none (history k arr)))
history-inserted_rows k (b ∷ buf) arr = elim (matches_cases b.roa arr) [
  | inl (m, absent) ↦ (elim (Bool-cases (same_roa b.roa k)) [
    | inl e ↦
        let own : b.roa ≡ k = same_roa-eq b.roa k e in
        let h : history k arr ≡ none = ap (λ j. history j arr) (sym own) ∙ absent in
        rw m (
          history_hit k b (inserted_rows buf arr) e
          ∙ sym (ap₂ unless h (history_hit k b buf e) ∙ unless_new (some b.times)))
    | inr e ↦ rw m (
        history_miss k b (inserted_rows buf arr) e
        ∙ history-inserted_rows k buf arr
        ∙ ap (unless (history k arr)) (sym (history_miss k b buf e)))
  ])
  | inr (a, more, t, m, present) ↦ (elim (Bool-cases (same_roa b.roa k)) [
    | inl e ↦
        let own : b.roa ≡ k = same_roa-eq b.roa k e in
        let h : history k arr ≡ some t = ap (λ j. history j arr) (sym own) ∙ present in
        rw m (
          history-inserted_rows k buf arr
          ∙ ap (λ x. unless x (history k buf)) h
          ∙ unless_old t (history k buf)
          ∙ sym (ap (λ x. unless x (history k (b ∷ buf))) h ∙ unless_old t (history k (b ∷ buf))))
    | inr e ↦ rw m (
        history-inserted_rows k buf arr
        ∙ ap (unless (history k arr)) (sym (history_miss k b buf e)))
  ])
]

abbrev pub or_else : Option (List ℕ) → Option (List ℕ) → Option (List ℕ)
or_else (some t) y = some t
or_else none y = y

pub history-append :
    (k : StoredRoa) (xs ys : List TimedRoa)
    → history k (xs ++ ys) ≡ or_else (history k xs) (history k ys)
unfolding history
history-append k [] ys = refl
history-append k (x ∷ xs) ys = elim (Bool-cases (same_roa x.roa k)) [
  | inl e ↦ rw e refl
  | inr e ↦ rw e (history-append k xs ys)
]

-- What a merge makes of the times of an authorization: the new ones in front of the old ones.
unfoldable pub joined : Option (List ℕ) → Option (List ℕ) → Option (List ℕ)
joined none old = old
joined (some new) none = some new
joined (some new) (some old) = some (new ++ old)

join_parts :
    (new old : Option (List ℕ)) → or_else (prepended new old) (unless old new) ≡ joined new old
unfolding prepended unless joined
join_parts none none = refl
join_parts none (some old) = refl
join_parts (some new) none = refl
join_parts (some new) (some old) = refl

pub merge-eq :
    (buf arr : List TimedRoa)
    → Unique buf
    → merge buf arr ≡ ok (extended_rows buf arr ++ inserted_rows buf arr)
unfolding merge
merge-eq buf arr u = rw (updated_rows-Unique buf arr u) refl

-- Where the buffer has one row at most of each authorization, the merge succeeds, and afterwards
-- the times of every authorization are the new ones followed by those it had.
pub merge-history :
    (buf arr : List TimedRoa)
    → Unique buf
    → (rows : List TimedRoa) × (merge buf arr ≡ ok rows)
      × ((k : StoredRoa) → history k rows ≡ joined (history k buf) (history k arr))
merge-history buf arr u = (
  extended_rows buf arr ++ inserted_rows buf arr,
  merge-eq buf arr u,
  λ k.
      history-append k (extended_rows buf arr) (inserted_rows buf arr)
      ∙ ap₂ or_else (history-extended_rows k buf arr) (history-inserted_rows k buf arr)
      ∙ join_parts (history k buf) (history k arr),
)
