-- ===== src/Strings/Split.antt =====
-- `strings.Split` at a separator of one byte, and `strings.Join`.
use google_cloud_storage.Base.{
  ℕ, Bytes, List, [], ◌∷◌, ◌++◌, ◌≡◌, ◌≢◌, refl, ◌==◌, if◌then◌else◌, All, arith,
}

unfoldable pub cons_head : ℕ → List Bytes → List Bytes
cons_head c [] = (c ∷ []) ∷ []
cons_head c (p ∷ ps) = (c ∷ p) ∷ ps

-- `strings.Split(s, sep)`
unfoldable pub split : ℕ → Bytes → List Bytes
unfolding cons_head
split sep [] = [] ∷ []
split sep (c ∷ s) = let rest = split sep s in if c == sep then [] ∷ rest else cons_head c rest

-- `strings.Join(parts, sep)`
unfoldable pub join : ℕ → List Bytes → Bytes
join sep [] = []
join sep (p ∷ []) = p
join sep (p ∷ q ∷ ps) = p ++ (sep ∷ join sep (q ∷ ps))

abbrev pub Lacks : ℕ → Bytes → Type 0
Lacks b = All (λ c. c ≢ b)

module _ (sep : ℕ) where
  pub split-ne-nil : (s : Bytes) → split sep s ≢ []
  unfolding split
  split-ne-nil [] = ground arith
  split-ne-nil (c ∷ s) = ground (arith, split-ne-nil s)

  join-cons_head : (c : ℕ) (ps : List Bytes) → join sep (cons_head c ps) ≡ c ∷ join sep ps
  unfolding join cons_head
  join-cons_head c [] = refl
  join-cons_head c (p ∷ []) = refl
  join-cons_head c (p ∷ q ∷ ps) = refl

  join-nil_cons : (ps : List Bytes) → ps ≢ [] → join sep ([] ∷ ps) ≡ sep ∷ join sep ps
  unfolding join
  join-nil_cons [] h = absurd (h refl)
  join-nil_cons (p ∷ ps) h = refl

  -- The parts spell the text.
  pub join-split : (s : Bytes) → join sep (split sep s) ≡ s
  unfolding split
  join-split [] = unfold join in refl
  join-split (c ∷ s) = ground (
    arith,
    join-split s,
    join-cons_head c (split sep s),
    join-nil_cons (split sep s) (split-ne-nil s),
  )

  -- A text with no separator is one part.
  pub split_of_Lacks : (s : Bytes) → Lacks sep s → split sep s ≡ s ∷ []
  unfolding split
  split_of_Lacks [] h = refl
  split_of_Lacks (c ∷ s) (hc, h) = ground (arith, split_of_Lacks s h)

  -- The part before the first separator comes first.
  pub split-append : (s t : Bytes) → Lacks sep s → split sep (s ++ (sep ∷ t)) ≡ s ∷ split sep t
  unfolding split
  split-append [] t h = ground arith
  split-append (c ∷ s) t (hc, h) = ground (arith, split-append s t h)

  cons_head-append :
      (c : ℕ) (ps : List Bytes) (f : Bytes)
      → ps ≢ []
      → cons_head c (ps ++ (f ∷ [])) ≡ cons_head c ps ++ (f ∷ [])
  unfolding cons_head
  cons_head-append c [] f h = absurd (h refl)
  cons_head-append c (p ∷ ps) f h = refl

  -- The part after the last separator comes last.
  pub split_last :
      (s f : Bytes) → Lacks sep f → split sep (s ++ (sep ∷ f)) ≡ split sep s ++ (f ∷ [])
  unfolding split
  split_last [] f h = ground (arith, split_of_Lacks f h)
  split_last (c ∷ s) f h =
      ground (arith, split_last s f h, cons_head-append c (split sep s) f (split-ne-nil s))
