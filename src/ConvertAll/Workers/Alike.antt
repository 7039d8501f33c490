-- ===== src/ConvertAll/Workers/Alike.antt =====
-- Attributes that the workers of a bucket's conversion leave alike.
use google_cloud_storage.Base.{
  Bytes, [], ◌∷◌, codes, ap, Option, none, some, true, false, Bool-cases, same, same_iff, is_empty,
  ◌≡◌, ◌≢◌, ◌∙◌, ◌⊎◌, sym, inl, inr, refl,
}
use google_cloud_storage.Base.Dict.{lookup, insert, lookup-insert}
use google_cloud_storage.Proto.{project_string}
use google_cloud_storage.Server.{project_metadata_key}
use google_cloud_storage.Storage.{Attrs}
use google_cloud_storage.ConvertAll.{data_source_of}

-- The project that a metadata entry stands for: itself, or ROUTEVIEWS when it is missing or empty.
abbrev pub stands_for : Option Bytes → Bytes
stands_for none = codes "ROUTEVIEWS"
stands_for (some []) = codes "ROUTEVIEWS"
stands_for (some (c ∷ p)) = c ∷ p

pub data_source_of-stands_for : (x : Option Bytes) → data_source_of x ≡ stands_for x
unfolding data_source_of is_empty project_string
data_source_of-stands_for none = refl
data_source_of-stands_for (some []) = refl
data_source_of-stands_for (some (c ∷ p)) = refl

-- The project that an object's attributes stand for.
abbrev pub project : Attrs → Bytes
project a = stands_for (lookup project_metadata_key a.metadata)

-- A metadata entry that is as it was, or ROUTEVIEWS where it was missing or empty.
abbrev pub IsFilled : Option Bytes → Option Bytes → Type 0
IsFilled x y = (y ≡ x) ⊎ (((x ≡ none) ⊎ (x ≡ some [])) × (y ≡ some (codes "ROUTEVIEWS")))

stands_for_filled : (x y : Option Bytes) → IsFilled x y → stands_for y ≡ stands_for x
stands_for_filled x y (inl e) = ap stands_for e
stands_for_filled x y (inr (inl e, f)) = rw (e, f) refl
stands_for_filled x y (inr (inr e, f)) = rw (e, f) refl

stands_for-IsFilled : (x : Option Bytes) → IsFilled x (some (stands_for x))
stands_for-IsFilled none = inr (inl refl, refl)
stands_for-IsFilled (some []) = inr (inr refl, refl)
stands_for-IsFilled (some (c ∷ p)) = inl refl

-- Attributes that differ in no more than a missing project that was filled in.
pub record Alike (a b : Attrs) : Type 0 where
  pub sum : b.md5 ≡ a.md5
  pub entries : (k : Bytes) → k ≢ project_metadata_key → lookup k b.metadata ≡ lookup k a.metadata
  pub project :
      IsFilled (lookup project_metadata_key a.metadata) (lookup project_metadata_key b.metadata)

-- Attributes that differ in no more stand for the same project.
pub Alike-project : (a b : Attrs) → Alike a b → project b ≡ project a
Alike-project a b k = stands_for_filled _ _ k.project

-- Setting the project that an object stands for.
pub Alike-insert :
    (a b : Attrs) (source : Bytes)
    → Alike a b
    → source ≡ project a
    → Alike a (record b { metadata = insert project_metadata_key source b.metadata })
unfolding same
Alike-insert a b source k e = record {
  sum = k.sum;
  entries = λ j ne. other j ne (Bool-cases (same project_metadata_key j));
  project =
      rw (lookup-insert project_metadata_key project_metadata_key source b.metadata, e)
        (stands_for-IsFilled (lookup project_metadata_key a.metadata));
}
  where
    other :
        (j : Bytes)
        → j ≢ project_metadata_key
        → (same project_metadata_key j ≡ true) ⊎ (same project_metadata_key j ≡ false)
        → lookup j (insert project_metadata_key source b.metadata) ≡ lookup j a.metadata
    other j ne (inl h) = absurd (ne (sym ((same_iff project_metadata_key j).0 h)))
    other j ne (inr h) =
        lookup-insert project_metadata_key j source b.metadata ∙ rw h (k.entries j ne)
