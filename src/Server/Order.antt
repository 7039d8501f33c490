-- ===== src/Server/Order.antt =====
-- The order in which `newRVServer` of cmd/archive_upload_server/server.go goes through the
-- configured buckets: Go ranges over a map in any order.
use google_cloud_storage.Base.{
  Bytes, List, [], ◌∷◌, Bool, true, false, All, All-Memᴰ, ◌≡◌, ◌↔◌, refl, sym, ap, ◌∙◌,
}
use google_cloud_storage.Base.Dict.{Dict}
use google_cloud_storage.Base.Result.{Result, ok, err, is_ok}
use google_cloud_storage.Storage.{Gcs}
use google_cloud_storage.Server.{check_buckets, new_rv_server}
use google_cloud_storage.Server.Command.Laws.{IsUsable, check_buckets_iff}
use mathlib.Core.List.{Memᴰ}
use mathlib.Core.Bool.{Bool-set}
use mathlib.Core.Quot
use mathlib.Core.Quot.{Quot}

-- Two listings of the same map.
abbrev pub SameEntries : Dict Bytes → Dict Bytes → Type 0
SameEntries d e = (p : Bytes × Bytes) → Memᴰ p d ↔ Memᴰ p e

-- A map, which has no order.
abbrev pub GoMap : Type 0
GoMap = Quot SameEntries

All_of_members :
    {A : Type 0} (P : A → Type 0) (xs : List A) → ((x : A) → Memᴰ x xs → P x) → All P xs
All_of_members P [] f = tt
All_of_members P (x ∷ xs) f = (f x (Memᴰ.head refl), All_of_members P xs (λ y m. f y (Memᴰ.tail m)))

is_ok_unit : (r : Result (Unit {0})) → is_ok r ≡ true → r ≡ ok tt
is_ok_unit (ok u) h = refl
is_ok_unit (err e) h = absurd (cc)

module _ (G : Gcs) (s : G.State) where
  checks_same :
      (d e : Dict Bytes)
      → SameEntries d e
      → is_ok (check_buckets G d s) ≡ true
      → is_ok (check_buckets G e s) ≡ true
  checks_same d e h a =
      let usable = (check_buckets_iff G d s).0 (is_ok_unit (check_buckets G d s) a) in
      ap is_ok (
        (check_buckets_iff G e s).1
          (All_of_members (IsUsable G s) e (λ p m. All-Memᴰ (IsUsable G s) d p usable ((h p).1 m))))

  both : (a b : Bool) → (a ≡ true → b ≡ true) → (b ≡ true → a ≡ true) → a ≡ b
  both true b f g = sym (f refl)
  both false true f g = g refl
  both false false f g = refl

  -- Whether every bucket of a map is usable.
  checks : GoMap → Bool
  checks =
      Quot.lift Bool-set (λ d. is_ok (check_buckets G d s))
        (λ d e h. both _ _ (checks_same d e h) (checks_same e d (λ p. ((h p).1, (h p).0))))

  checked :
      (d : Dict Bytes)
      → is_ok (new_rv_server G (ok (record { buckets = d })) s) ≡ checks (Quot.mk d)
  unfolding new_rv_server checks
  checked d = go (check_buckets G d s) refl
    where
      go :
          (x : Result (Unit {0}))
          → check_buckets G d s ≡ x
          → is_ok (new_rv_server G (ok (record { buckets = d })) s) ≡ is_ok x
      go (ok u) p = rw (p, new_rv_server) refl
      go (err e) p = rw (p, new_rv_server) refl

  -- Whether the server can be made of a configuration does not depend on the order in which its
  -- buckets are gone through: two listings of the same map are both accepted, or both refused.
  pub new_rv_server_order :
      (d e : Dict Bytes)
      → SameEntries d e
      → is_ok (new_rv_server G (ok (record { buckets = d })) s)
        ≡ is_ok (new_rv_server G (ok (record { buckets = e })) s)
  new_rv_server_order d e h = checked d ∙ ap checks (Quot.sound h) ∙ sym (checked e)
