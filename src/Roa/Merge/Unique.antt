-- ===== src/Roa/Merge/Unique.antt =====
-- A merge keeps one row for each authorization.
use google_cloud_storage.Base.{
  ℕ, List, [], ◌∷◌, ◌++◌, none, some, All, ◌≡◌, refl, sym, ap, ◌∙◌, inl, inr, Bool-cases,
}
use google_cloud_storage.Base.Result.{ok}
use google_cloud_storage.Roa.{StoredRoa, TimedRoa}
use google_cloud_storage.Roa.Merge.{same_roa, inserted_rows, merge}
use google_cloud_storage.Roa.Merge.Laws.{
  history, Unique, same_roa_iff, history_hit, history_miss, extended_roa, extended_rows,
  history-extended_rows, prepended, prepended-none, history-inserted_rows, unless, unless-none,
  unless_old, matches_cases, history-append, or_else, merge-eq,
}

abbrev Present : StoredRoa → List TimedRoa → Type 0
Present k rows = (t : List ℕ) × (history k rows ≡ some t)

Present-cons :
    (k : StoredRoa) (r : TimedRoa) (rows : List TimedRoa) → Present k rows → Present k (r ∷ rows)
Present-cons k r rows (t, h) = elim (Bool-cases (same_roa r.roa k)) [
  | inl e ↦ (r.times, history_hit k r rows e)
  | inr e ↦ (t, history_miss k r rows e ∙ h)
]

Present-tail :
    (r : TimedRoa) (rows some_rows : List TimedRoa)
    → All (λ x. Present x.roa rows) some_rows
    → All (λ x. Present x.roa (r ∷ rows)) some_rows
Present-tail r rows [] h = tt
Present-tail r rows (x ∷ xs) (h, hs) = (Present-cons x.roa r rows h, Present-tail r rows xs hs)

all-Present : (rows : List TimedRoa) → All (λ x. Present x.roa rows) rows
all-Present [] = tt
all-Present (r ∷ rows) = (
  (r.times, history_hit r.roa r rows ((same_roa_iff r.roa r.roa).1 refl)),
  Present-tail r rows rows (all-Present rows),
)

-- None of the rows is of an authorization in the other list.
abbrev Apart : List TimedRoa → List TimedRoa → Type 0
Apart xs ys = All (λ x. history x.roa ys ≡ none) xs

Unique-append : (xs ys : List TimedRoa) → Unique xs → Unique ys → Apart xs ys → Unique (xs ++ ys)
Unique-append [] ys u v a = v
Unique-append (x ∷ xs) ys (fresh, u) v (h, a) = (
  history-append x.roa xs ys ∙ ap (λ o. or_else o (history x.roa ys)) fresh ∙ h,
  Unique-append xs ys u v a,
)

extended_rows-Unique : (buf arr : List TimedRoa) → Unique arr → Unique (extended_rows buf arr)
unfolding extended_rows
extended_rows-Unique buf [] u = tt
extended_rows-Unique buf (a ∷ arr) (fresh, u) = (
  ap (λ k. history k (extended_rows buf arr)) (extended_roa (history a.roa buf) a)
      ∙ history-extended_rows a.roa buf arr
      ∙ ap (prepended (history a.roa buf)) fresh
      ∙ prepended-none (history a.roa buf),
  extended_rows-Unique buf arr u,
)

inserted_rows-Unique : (buf arr : List TimedRoa) → Unique buf → Unique (inserted_rows buf arr)
unfolding inserted_rows
inserted_rows-Unique [] arr u = tt
inserted_rows-Unique (b ∷ buf) arr (fresh, u) = elim (matches_cases b.roa arr) [
  | inl (m, absent) ↦ rw m (
    history-inserted_rows b.roa buf arr
        ∙ ap (unless (history b.roa arr)) fresh
        ∙ unless-none (history b.roa arr),
    inserted_rows-Unique buf arr u,
  )
  | inr (a, more, t, m, present) ↦ rw m (inserted_rows-Unique buf arr u)
]

extended-Apart :
    (buf arr old : List TimedRoa)
    → All (λ x. Present x.roa arr) old
    → Apart (extended_rows buf old) (inserted_rows buf arr)
unfolding extended_rows
extended-Apart buf arr [] h = tt
extended-Apart buf arr (a ∷ old) ((t, present), hs) = (
  ap (λ k. history k (inserted_rows buf arr)) (extended_roa (history a.roa buf) a)
      ∙ history-inserted_rows a.roa buf arr
      ∙ ap (λ o. unless o (history a.roa buf)) present
      ∙ unless_old t (history a.roa buf),
  extended-Apart buf arr old hs,
)

-- Where neither the table nor the buffer has two rows of one authorization, the table has none
-- after a merge that succeeds.
pub merge-Unique :
    (buf arr rows : List TimedRoa) → Unique buf → Unique arr → merge buf arr ≡ ok rows → Unique rows
merge-Unique buf arr rows u v e =
    let same : ok rows ≡ ok (extended_rows buf arr ++ inserted_rows buf arr) =
      sym e ∙ merge-eq buf arr u in
    let eq : rows ≡ extended_rows buf arr ++ inserted_rows buf arr = cc in
    rw eq (
      Unique-append (extended_rows buf arr) (inserted_rows buf arr) (extended_rows-Unique buf arr v)
        (inserted_rows-Unique buf arr u) (extended-Apart buf arr arr (all-Present arr)))
