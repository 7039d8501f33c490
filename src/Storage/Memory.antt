-- ===== src/Storage/Memory.antt =====
-- Stores in memory, by what they accept. They show that the laws can be met, and run the tests.
use google_cloud_storage.Base.{
  Bytes, same, same_iff, ◌≡◌, ◌≢◌, ◌⊎◌, inl, inr, Bool, true, false, ◌&&◌, not, Option, none, some,
  List, [], ◌∷◌, arith, if◌then◌else◌, refl,
}
use google_cloud_storage.Base.Dict.{insert}
use google_cloud_storage.Base.Result.{Result, ok, err, errorf, object_not_exist, Error}
use google_cloud_storage.Storage.{Attrs, Gcs, IsLawful}

pub record Object : Type 0 where
  pub content : Bytes
  pub metadata : List (Bytes × Bytes)

pub record Memory : Type 0 where
  pub buckets : List Bytes
  pub object : Bytes → Bytes → Option Object
  -- Set when the store refuses new objects as their writers are closed.
  pub full : Bool

abbrev pub put :
    Bytes → Bytes → Option Object → (Bytes → Bytes → Option Object) → Bytes → Bytes → Option Object
put b o v f b' o' = if same b b' && same o o' then v else f b' o'

unfoldable pub member : Bytes → List Bytes → Bool
member b [] = false
member b (c ∷ cs) = if same c b then true else member b cs

abbrev pub content_of : Option Object → Result Bytes
content_of none = err object_not_exist
content_of (some x) = ok x.content

abbrev pub attrs_of : (Bytes → Bytes) → Option Object → Result Attrs
attrs_of md5 none = err object_not_exist
attrs_of md5 (some x) = ok (record { md5 = md5 x.content; metadata = x.metadata })

abbrev pub annotate : Bytes → Bytes → Option Object → Option Object
annotate k v none = none
annotate k v (some x) = some (record x { metadata = insert k v x.metadata })

abbrev pub existing : Option Object → Result (Unit {0})
existing none = err object_not_exist
existing (some x) = ok tt

abbrev pub accepted : Bool → Result (Unit {0})
accepted true = ok tt
accepted false = err (errorf "no such bucket")

abbrev pub stored : Bytes → Object
stored c = record { content = c; metadata = [] }

-- A store that takes what it has a bucket for, until it is full, and one that takes everything.
abbrev pub limited : Bytes → Memory → Bool
limited b m = member b m.buckets && not m.full

abbrev pub unlimited : Bytes → Memory → Bool
unlimited b m = true

module _ (md5 : Bytes → Bytes) (accepts : Bytes → Memory → Bool) where
  abbrev pub memory_of : Gcs
  memory_of = record {
    State = Memory;
    bucket_attrs = λ b m. accepted (member b m.buckets);
    attrs = λ b o m. attrs_of md5 (m.object b o);
    read = λ b o m. content_of (m.object b o);
    write = λ b o c m. record {
      store = if accepts b m then record m { object = put b o (some (stored c)) m.object } else m;
      copied = ok tt;
      closed = accepted (accepts b m);
    };
    set_metadata = λ b o k v m. (
      record m { object = put b o (annotate k v (m.object b o)) m.object },
      existing (m.object b o),
    );
  }

abbrev pub memory : (Bytes → Bytes) → Gcs
memory md5 = memory_of md5 limited

-- An update of one place, read at another.
put_self :
    (b o : Bytes) (v : Option Object) (f : Bytes → Bytes → Option Object) → put b o v f b o ≡ v
put_self b o v f = ground (arith, same_iff b b, same_iff o o)

put_ne :
    (b o b' o' : Bytes) (v : Option Object) (f : Bytes → Bytes → Option Object)
    → (b ≢ b') ⊎ (o ≢ o')
    → put b o v f b' o' ≡ f b' o'
put_ne b o b' o' v f (inl h) = ground (arith, same_iff b b')
put_ne b o b' o' v f (inr h) = ground (arith, same_iff o o')

exists_of_existing :
    (md5 : Bytes → Bytes) (x : Option Object)
    → existing x ≡ ok tt
    → (a : Attrs) × (attrs_of md5 x ≡ ok a)
exists_of_existing md5 none h = absurd (cc)
exists_of_existing md5 (some x) h = (record { md5 = md5 x.content; metadata = x.metadata }, refl)

annotate_missing :
    (md5 : Bytes → Bytes) (k v : Bytes) (x : Option Object) (e : Error)
    → existing x ≡ err e
    → attrs_of md5 (annotate k v x) ≡ attrs_of md5 x
annotate_missing md5 k v none e h = refl
annotate_missing md5 k v (some x) e h = absurd (cc)

module _ (md5 : Bytes → Bytes) (accepts : Bytes → Memory → Bool) where
  pub memory_of-IsLawful : IsLawful md5 (memory_of md5 accepts)
  memory_of-IsLawful = record {
    read-write = λ b o c s copied closed. ground (arith, put_self b o (some (stored c)) s.object);
    attrs-write = λ b o c s copied closed. ground (arith, put_self b o (some (stored c)) s.object);
    read-write_ne =
        λ b o c b' o' s h. ground (arith, put_ne b o b' o' (some (stored c)) s.object h);
    attrs-write_ne =
        λ b o c b' o' s h. ground (arith, put_ne b o b' o' (some (stored c)) s.object h);
    read-write_refused = λ b o c s e closed. ground arith;
    attrs-write_refused = λ b o c s e closed. ground arith;
    read-set_metadata = λ b o k v b' o' s. ground (arith, same_iff b b', same_iff o o');
    attrs-set_metadata = λ b o k v s a found done.
        ground (arith, put_self b o (annotate k v (s.object b o)) s.object);
    attrs-set_metadata_ne = λ b o k v b' o' s h.
        ground (arith, put_ne b o b' o' (annotate k v (s.object b o)) s.object h);
    copied_of_closed = λ b o c s closed. refl;
    exists_of_set = λ b o k v s h. exists_of_existing md5 (s.object b o) h;
    attrs-set_metadata_refused = λ b o k v s e h.
        rw (put_self b o (annotate k v (s.object b o)) s.object)
          (annotate_missing md5 k v (s.object b o) e h);
  }

pub memory-IsLawful : (md5 : Bytes → Bytes) → IsLawful md5 (memory md5)
memory-IsLawful md5 = memory_of-IsLawful md5 limited
