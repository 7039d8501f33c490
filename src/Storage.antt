-- ===== src/Storage.antt =====
-- The object store. Its client library is not part of the repository, so its calls are the fields
-- of an interface, with the documented behaviour that the program relies on as laws.
pub mod Memory
use google_cloud_storage.Base.{Bytes, ◌≡◌, ◌⊎◌, ◌≢◌, []}
use google_cloud_storage.Base.Dict.{Dict, insert}
use google_cloud_storage.Base.Result.{Error, Result, ok, err}

-- The attributes of an object that the program reads.
pub record Attrs : Type 0 where
  pub md5 : Bytes
  pub metadata : Dict Bytes

-- What a writer leaves: the store, the result of copying the content into it, and that of closing
-- it, which is when the store accepts or refuses the object.
pub record Written (S : Type 0) : Type 0 where
  pub store : S
  pub copied : Result (Unit {0})
  pub closed : Result (Unit {0})

pub record Gcs : Type 1 where
  pub State : Type 0
  pub bucket_attrs : Bytes → State → Result (Unit {0})
  pub attrs : Bytes → Bytes → State → Result Attrs
  -- `NewReader`, with all that it reads.
  pub read : Bytes → Bytes → State → Result Bytes
  -- `NewWriter`, one write of the whole content, and `Close`.
  pub write : Bytes → Bytes → Bytes → State → Written State
  -- `Update` with one metadata entry.
  pub set_metadata : Bytes → Bytes → Bytes → Bytes → State → State × Result (Unit {0})

-- `md5` is the checksum that the store keeps.
pub record IsLawful (md5 : Bytes → Bytes) (G : Gcs) : Type 0 where
  -- An object that was accepted can be read, has the checksum of its content and no metadata.
  pub read-write :
      (b o c : Bytes) (s : G.State)
      → (G.write b o c s).copied ≡ ok tt
      → (G.write b o c s).closed ≡ ok tt
      → G.read b o (G.write b o c s).store ≡ ok c
  pub attrs-write :
      (b o c : Bytes) (s : G.State)
      → (G.write b o c s).copied ≡ ok tt
      → (G.write b o c s).closed ≡ ok tt
      → G.attrs b o (G.write b o c s).store ≡ ok (record { md5 = md5 c; metadata = [] })
  -- Another object is left alone by a write and by an update.
  pub read-write_ne :
      (b o c b' o' : Bytes) (s : G.State)
      → (b ≢ b') ⊎ (o ≢ o')
      → G.read b' o' (G.write b o c s).store ≡ G.read b' o' s
  pub attrs-write_ne :
      (b o c b' o' : Bytes) (s : G.State)
      → (b ≢ b') ⊎ (o ≢ o')
      → G.attrs b' o' (G.write b o c s).store ≡ G.attrs b' o' s
  -- An object is replaced as a whole: one that was refused leaves what was there.
  pub read-write_refused :
      (b o c : Bytes) (s : G.State) (e : Error)
      → (G.write b o c s).closed ≡ err e
      → G.read b o (G.write b o c s).store ≡ G.read b o s
  pub attrs-write_refused :
      (b o c : Bytes) (s : G.State) (e : Error)
      → (G.write b o c s).closed ≡ err e
      → G.attrs b o (G.write b o c s).store ≡ G.attrs b o s
  pub read-set_metadata :
      (b o k v b' o' : Bytes) (s : G.State)
      → G.read b' o' (G.set_metadata b o k v s).0 ≡ G.read b' o' s
  pub attrs-set_metadata :
      (b o k v : Bytes) (s : G.State) (a : Attrs)
      → G.attrs b o s ≡ ok a
      → (G.set_metadata b o k v s).1 ≡ ok tt
      → G.attrs b o (G.set_metadata b o k v s).0
        ≡ ok (record a { metadata = insert k v a.metadata })
  pub attrs-set_metadata_ne :
      (b o k v b' o' : Bytes) (s : G.State)
      → (b ≢ b') ⊎ (o ≢ o')
      → G.attrs b' o' (G.set_metadata b o k v s).0 ≡ G.attrs b' o' s
  -- A writer that did not take the content is refused as it is closed.
  pub copied_of_closed :
      (b o c : Bytes) (s : G.State)
      → (G.write b o c s).closed ≡ ok tt
      → (G.write b o c s).copied ≡ ok tt
  -- Only an object that exists is updated, and an update that is refused leaves the object alone.
  pub exists_of_set :
      (b o k v : Bytes) (s : G.State)
      → (G.set_metadata b o k v s).1 ≡ ok tt
      → (a : Attrs) × (G.attrs b o s ≡ ok a)
  pub attrs-set_metadata_refused :
      (b o k v : Bytes) (s : G.State) (e : Error)
      → (G.set_metadata b o k v s).1 ≡ err e
      → G.attrs b o (G.set_metadata b o k v s).0 ≡ G.attrs b o s
