-- ===== src/Time/Parse.antt =====
-- `time.Parse("20060102.1504 MST", ...)` on a text that ends with " UTC".
use google_cloud_storage.Base.{
  ℕ, zero, suc, ◌+◌, ◌-◌, ◌*◌, Bytes, codes, same, [], ◌∷◌, Option, none, some, Bool, true, false,
  ◌&&◌, ◌==◌, ltb, leb, if◌then◌else◌, get_elem?,
}
use google_cloud_storage.Time.{second, day, days_before_year, days_before_month, month_lengths}

infixl 5 ◌>>=◌ ◌>>◌
abbrev ◌>>=◌ : {A B : Type 0} → Option A → (A → Option B) → Option B
none >>= f = none
some a >>= f = f a

abbrev ◌>>◌ : {A B : Type 0} → Option A → Option B → Option B
m >> k = m >>= λ _. k

abbrev require : Bool → Option (Unit {0})
require true = some tt
require false = none

-- A number of exactly so many digits at the front of a text, and what follows it.
unfoldable pub digits_at : ℕ → ℕ → Bytes → Option (ℕ × Bytes)
digits_at zero n s = some (n, s)
digits_at (suc k) n [] = none
digits_at (suc k) n (c ∷ s) =
    let rest = digits_at k (n * 10 + (c - b'0')) s in
    if leb b'0' c && leb c b'9' then rest else none

unfoldable pub expect : ℕ → Bytes → Option Bytes
expect b [] = none
expect b (c ∷ s) = if c == b then some s else none

-- Go accepts any number of spaces where the layout has one.
unfoldable pub skip_spaces : Bytes → Bytes
skip_spaces [] = []
skip_spaces (c ∷ s) = if c == b' ' then skip_spaces s else c ∷ s

unfoldable pub month_length : ℕ → ℕ → Option ℕ
unfolding month_lengths
month_length y m = get_elem? (month_lengths y) (m - 1)

-- The instant of a date and a time of day.
unfoldable pub instant : ℕ → ℕ → ℕ → ℕ → ℕ → ℕ
unfolding days_before_year days_before_month month_lengths
instant y mo d h mi =
    (days_before_year y + days_before_month (mo - 1) (month_lengths y) + (d - 1)) * day
    + (h * 60 + mi) * (60 * second)

unfoldable pub parse_timestamp : Bytes → Option ℕ
unfolding digits_at expect skip_spaces month_length instant same
parse_timestamp s = do
  (y, s) ← digits_at 4 0 s
  (mo, s) ← digits_at 2 0 s
  require (leb 1 mo && leb mo 12)
  (d, s) ← digits_at 2 0 s
  s ← expect b'.' s
  (h, s) ← digits_at 2 0 s
  require (ltb h 24)
  (mi, s) ← digits_at 2 0 s
  require (ltb mi 60)
  s ← expect b' ' s
  require (same (skip_spaces s) (codes "UTC"))
  l ← month_length y mo
  require (leb 1 d && leb d l)
  some (instant y mo d h mi)
