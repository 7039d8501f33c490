-- ===== src/Strings/Hex.antt =====
-- `hex.EncodeToString`, which is also what `%x` prints of a byte slice.
use google_cloud_storage.Base.{ℕ, ◌+◌, ◌-◌, ◌/◌, ◌%◌, Bytes, [], ◌∷◌, ltb, if◌then◌else◌}

-- The digit of a number below 16.
unfoldable pub digit : ℕ → ℕ
digit n = if ltb n 10 then b'0' + n else b'a' + (n - 10)

unfoldable pub hex_encode : Bytes → Bytes
unfolding digit
hex_encode [] = []
hex_encode (b ∷ s) = digit (b / 16) ∷ digit (b % 16) ∷ hex_encode s
