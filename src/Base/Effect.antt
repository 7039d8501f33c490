-- ===== src/Base/Effect.antt =====
-- Stateful code that can fail: the state is kept on every path, as a Go object is.
use google_cloud_storage.Base.Result.{Result, ok, err}

abbrev pub M : Type 0 → Type 0 → Type 0
M S A = S → S × Result A

abbrev pub continue : {S A B : Type 0} → S × Result A → (A → M S B) → S × Result B
continue (s, ok a) f = f a s
continue (s, err e) f = (s, err e)

infixl 5 ◌>>=◌ ◌>>◌
abbrev pub ◌>>=◌ : {S A B : Type 0} → M S A → (A → M S B) → M S B
◌>>=◌ m f s = continue (m s) f

abbrev pub ◌>>◌ : {S A B : Type 0} → M S A → M S B → M S B
◌>>◌ m k s = continue (m s) (λ _. k)

abbrev pub return : {S A : Type 0} → A → M S A
return a s = (s, ok a)

-- A step that reads the state and leaves it alone.
abbrev pub pure : {S A : Type 0} → Result A → M S A
pure r s = (s, r)

abbrev pub query : {S A : Type 0} → (S → Result A) → M S A
query f s = (s, f s)
