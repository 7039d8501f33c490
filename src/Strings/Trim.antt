-- ===== src/Strings/Trim.antt =====
-- `strings.TrimLeft` and `strings.TrimRight`: they cut every leading or trailing byte of a set.
use mathlib.Core.List.{reverse}
use google_cloud_storage.Base.{ℕ, Bytes, [], ◌∷◌, Bool, false, ◌||◌, ◌==◌, if◌then◌else◌}
use google_cloud_storage.Strings.Search.{has_prefix}

unfoldable pub in_set : ℕ → Bytes → Bool
in_set c [] = false
in_set c (x ∷ set) = (c == x) || in_set c set

unfoldable pub trim_left : Bytes → Bytes → Bytes
unfolding in_set
trim_left [] set = []
trim_left (c ∷ s) set = if in_set c set then trim_left s set else c ∷ s

unfoldable pub trim_right : Bytes → Bytes → Bytes
unfolding trim_left
trim_right s set = reverse (trim_left (reverse s) set)

-- `strings.HasSuffix`
unfoldable pub has_suffix : Bytes → Bytes → Bool
unfolding has_prefix
has_suffix s suffix = has_prefix (reverse s) (reverse suffix)
