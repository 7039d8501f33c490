-- ===== src/Strings/Search.antt =====
-- `strings.HasPrefix`, `strings.Contains` and `strings.Replace` of the first occurrence.
use mathlib.Core.List.{cons-ne-nil}
use google_cloud_storage.Base.{
  append-nil, ℕ, Bytes, is_empty, [], ◌∷◌, ◌++◌, ◌≡◌, ◌≢◌, refl, Bool, true, false, ◌&&◌, ◌||◌,
  ◌==◌, if◌then◌else◌, arith, length, drop,
}
use google_cloud_storage.Strings.Split.{Lacks}

unfoldable pub has_prefix : Bytes → Bytes → Bool
has_prefix s [] = true
has_prefix [] (y ∷ p) = false
has_prefix (x ∷ s) (y ∷ p) = (x == y) && has_prefix s p

unfoldable pub contains : Bytes → Bytes → Bool
contains [] sub = is_empty sub
contains (x ∷ s) sub = has_prefix (x ∷ s) sub || contains s sub

-- `strings.Replace(s, old, new, 1)`
unfoldable pub replace_first : Bytes → Bytes → Bytes → Bytes
replace_first [] old new = if is_empty old then new else []
replace_first (x ∷ s) old new =
    let rest = replace_first s old new in
    if has_prefix (x ∷ s) old then new ++ drop (length old) (x ∷ s) else x ∷ rest

pub has_prefix-append : (p s : Bytes) → has_prefix (p ++ s) p ≡ true
unfolding has_prefix
has_prefix-append [] s = ground arith
has_prefix-append (x ∷ p) s = ground (arith, has_prefix-append p s)

pub contains_of_prefix : (s sub : Bytes) → has_prefix s sub ≡ true → contains s sub ≡ true
unfolding contains has_prefix is_empty
contains_of_prefix [] [] h = refl
contains_of_prefix [] (y ∷ p) h = h
contains_of_prefix (x ∷ s) sub h = ground arith

pub contains-append_right : (s t sub : Bytes) → contains t sub ≡ true → contains (s ++ t) sub ≡ true
unfolding contains
contains-append_right [] t sub h = h
contains-append_right (x ∷ s) t sub h = ground (arith, contains-append_right s t sub h)

pub has_prefix_self : (s : Bytes) → has_prefix s s ≡ true
unfolding has_prefix
has_prefix_self [] = refl
has_prefix_self (x ∷ s) = ground (arith, has_prefix_self s)

drop-length : (s : Bytes) → drop (length s) s ≡ []
drop-length [] = refl
drop-length (x ∷ s) = drop-length s

replace_first_self : (s new : Bytes) → s ≢ [] → replace_first s s new ≡ new
unfolding replace_first
replace_first_self [] new h = absurd (h refl)
replace_first_self (x ∷ s) new h = rw (has_prefix_self (x ∷ s), drop-length s) (append-nil new)

-- The end of a text that begins with a byte which the text before it and the rest of the end
-- lack is found there first.
module _ (dot : ℕ) (ext : Bytes) (lacks : Lacks dot ext) where
  has_prefix_early :
      (e s : Bytes) → Lacks dot e → has_prefix (s ++ (dot ∷ ext)) e ≡ true → has_prefix s e ≡ true
  unfolding has_prefix
  has_prefix_early [] s h p = ground arith
  has_prefix_early (y ∷ e) [] (hy, h) p = ground arith
  has_prefix_early (y ∷ e) (x ∷ s) (hy, h) p = ground (arith, has_prefix_early e s h)

  has_prefix_within :
      (x : ℕ) (s : Bytes)
      → has_prefix (x ∷ (s ++ (dot ∷ ext))) (dot ∷ ext) ≡ true
      → has_prefix (x ∷ s) (dot ∷ ext) ≡ true
  unfolding has_prefix
  has_prefix_within x s p = ground (arith, has_prefix_early ext s lacks)

  pub replace_first_at_end :
      (s new : Bytes)
      → contains s (dot ∷ ext) ≡ false
      → replace_first (s ++ (dot ∷ ext)) (dot ∷ ext) new ≡ s ++ new
  unfolding replace_first contains
  replace_first_at_end [] new h = replace_first_self (dot ∷ ext) new (cons-ne-nil dot ext)
  replace_first_at_end (x ∷ s) new h =
      ground (arith, replace_first_at_end s new, has_prefix_within x s)
