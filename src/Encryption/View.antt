-- ===== src/Encryption/View.antt =====
-- What a store directory holds, as a recovery would leave it (packages/adapters'
-- adapter/outbound/crypto/store_encryptor.py): the abstract state of a migration.
use generic_ml_cache.Prelude.{
  String, ◌≡◌, refl, Option, none, some, Bool, false, arith, ◌==◌, eq_iff, is_some, if◌then◌else◌,
  List, [], ◌∷◌, any,
}
use generic_ml_cache.Dict.{Dict, lookup, insert, erase, keys, IsDict, lookup-insert, lookup-erase}
use generic_ml_cache.Domain.{Bytes}
use generic_ml_cache.Disk.{Disk, EncryptionManifest, Marker, entries}
use generic_ml_cache.Encryption.{Base64, load_manifest, is_scratch}

abbrev pub or_else : {A : Type 0} → Option A → Option A → Option A
or_else none o = o
or_else (some a) o = some a

abbrev pub in_blobs : Disk → String → Option Bytes
in_blobs d name = lookup name (entries d.blobs)

abbrev pub in_staging : Disk → String → Option Bytes
in_staging d name = lookup name (entries d.staging)

abbrev pub content : Option Marker → Disk → String → Option Bytes
content none d name = in_blobs d name
content (some marker) d name = or_else (in_staging d name) (in_blobs d name)

-- The bytes of a document: a migration that is past its commit marker counts as done, one that is
-- not as not begun.
unfoldable pub document : Disk → String → Option Bytes
unfolding is_scratch lookup
document d name = if is_scratch name then none else content d.marker d name

module _ (base64 : Base64) where
  abbrev manifest_after : Option Marker → Option EncryptionManifest → Option EncryptionManifest
  manifest_after none manifest = manifest
  manifest_after (some (Marker.enable data_)) manifest =
      or_else manifest (some (load_manifest base64 data_))
  manifest_after (some Marker.disable) manifest = none

  unfoldable pub effective_manifest : Disk → Option EncryptionManifest
  unfolding load_manifest
  effective_manifest d = manifest_after d.marker d.manifest

  -- The directory stands for these documents and this manifest.
  pub record Shows (f : String → Option Bytes) (m : Option EncryptionManifest) (d : Disk)
      : Type 0 where
    pub staging_is_dict : IsDict (entries d.staging)
    pub documents : (name : String) → document d name ≡ f name
    pub manifest : effective_manifest d ≡ m

-- No migration is pending.
pub record IsClean (d : Disk) : Type 0 where
  pub marker : d.marker ≡ none
  pub staging : d.staging ≡ none

-- A step that leaves each document where it is.
pub document-move :
    (name : String) (c : Bytes) (blobs staging : Dict Bytes)
    → IsDict staging
    → lookup name staging ≡ some c
    → (n : String)
    → or_else (lookup n (erase name staging)) (lookup n (insert name c blobs))
      ≡ or_else (lookup n staging) (lookup n blobs)
document-move name c blobs staging h e n =
    rw (lookup-erase name n staging h, lookup-insert name n c blobs)
      (ground (arith, eq_iff name n, e))

-- A file name among others.
abbrev pub mem : String → List String → Bool
mem n names = any (λ x. x == n) names

abbrev pub IsDistinct : List String → Type 0
IsDistinct [] = Unit {0}
IsDistinct (x ∷ xs) = (mem x xs ≡ false) × IsDistinct xs

pub mem-keys : (n : String) (files : Dict Bytes) → mem n (keys files) ≡ is_some (lookup n files)
unfolding lookup
mem-keys n [] = refl
mem-keys n ((x, c) ∷ files) = ground (arith, mem-keys n files)

pub keys-IsDistinct : (files : Dict Bytes) → IsDict files → IsDistinct (keys files)
unfolding lookup
keys-IsDistinct [] h = tt
keys-IsDistinct ((x, c) ∷ files) h = (rw (mem-keys x files, h.0) refl, keys-IsDistinct files h.1)
