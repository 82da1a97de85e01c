-- ===== src/Encryption.antt =====
-- StoreEncryptor: packages/adapters' adapter/outbound/crypto/store_encryptor.py and
-- filesystem_encryption_manifest_store.py: encryption at rest switched on and off, the token
-- rotated, the store wiped, and the recovery of an interrupted migration. The exclusive store lock
-- is held throughout, so that no other step comes between.
--
-- The cipher and base64 are not in the repository: `Cipher` and `Base64` stand for them.
pub mod View
pub mod Commit
pub mod Recovery
pub mod Staging
pub mod Atomicity
pub mod Migration
pub mod Restart
pub mod RoundTrip
pub mod BlobStore
use Prim.Native.String.{◌++◌ as ◌⧺◌}
use generic_ml_cache.Prelude.{
  ℕ, String, ◌≡◌, Bool, true, false, not, ◌||◌, Option, none, some, List, [], ◌∷◌, if◌then◌else◌,
}
use generic_ml_cache.Dict.{erase, keys}
use generic_ml_cache.Text.Suffix.{ends_with}
use generic_ml_cache.Errors.{Result, ok, err, encryption_state}
use generic_ml_cache.Domain.{Bytes}
use generic_ml_cache.Disk.{
  Disk, EncryptionManifest, DumpedManifest, Marker, Action, pure, raise, gets, lift, ◌>>=◌, ◌>>◌,
  step, for_each, draw, entries, exists, made, remove_staging_tree, remove_blob_tree, read_blob,
  write_staged, rename_staged, move_staged,
}

-- CipherPort; the number of the draw stands for the random bytes.
pub record Cipher : Type 0 where
  pub create_envelope : ℕ → String → EncryptionManifest × Bytes
  pub open_envelope : String → EncryptionManifest → Result Bytes
  pub rewrap : ℕ → Bytes → String → EncryptionManifest
  pub encrypt : ℕ → Bytes → Bytes → Bytes
  pub decrypt : Bytes → Bytes → Result Bytes

-- What CipherPort documents.
pub record CipherLaws (c : Cipher) : Type 0 where
  pub open-create :
      (n : ℕ) (token : String)
      → let (manifest, data_key) = c.create_envelope n token in
        c.open_envelope token manifest ≡ ok data_key
  pub open-rewrap :
      (n : ℕ) (data_key : Bytes) (token : String)
      → c.open_envelope token (c.rewrap n data_key token) ≡ ok data_key
  pub decrypt-encrypt :
      (n : ℕ) (data_key plaintext : Bytes)
      → c.decrypt data_key (c.encrypt n data_key plaintext) ≡ ok plaintext

-- base64.b64encode, b64decode
pub record Base64 : Type 0 where
  pub b64encode : Bytes → String
  pub b64decode : String → Bytes

pub record Base64Laws (c : Base64) : Type 0 where
  pub decode-encode : (bytes : Bytes) → c.b64decode (c.b64encode bytes) ≡ bytes

-- A file that a write has not finished.
unfoldable pub is_scratch : String → Bool
unfolding ends_with
is_scratch name = ends_with ".tmp" name

-- [name for name in names if not name.endswith(".tmp")]
abbrev pub documents : List String → List String
documents [] = []
documents (x ∷ xs) = let rest = documents xs in if is_scratch x then rest else x ∷ rest

module _ (base64 : Base64) where
  unfoldable pub dump_manifest : EncryptionManifest → DumpedManifest
  dump_manifest manifest = record {
    version = manifest.version;
    kdf_salt = base64.b64encode manifest.kdf_salt;
    wrapped_data_key = base64.b64encode manifest.wrapped_data_key;
  }

  unfoldable pub load_manifest : DumpedManifest → EncryptionManifest
  load_manifest data_ = record {
    kdf_salt = base64.b64decode data_.kdf_salt;
    wrapped_data_key = base64.b64decode data_.wrapped_data_key;
    version = data_.version;
  }

  unfoldable pub save_manifest : EncryptionManifest → Action (Unit {0})
  unfolding step
  save_manifest manifest = step (λ d. ok (record d { manifest = some manifest }))

  unfoldable pub delete_manifest : Action (Unit {0})
  unfolding step
  delete_manifest = step (λ d. ok (record d { manifest = none }))

  abbrev pub move_document : String → Action (Unit {0})
  move_document name = if is_scratch name then pure tt else move_staged name

  -- The first half of _finish_commit, where the staging directory exists.
  unfoldable pub move_documents : Action (Unit {0})
  unfolding is_scratch pure gets step for_each move_staged remove_staging_tree ◌>>=◌
  move_documents = do
    step (λ d. ok (record d { blobs = made d.blobs }))
    names ← gets (λ d. keys (entries d.staging))
    for_each names move_document
    remove_staging_tree

  abbrev pub save_if_none : DumpedManifest → Option EncryptionManifest → Action (Unit {0})
  save_if_none data_ none = save_manifest (load_manifest data_)
  save_if_none data_ (some manifest) = pure tt

  unfoldable pub flip_manifest : Marker → Action (Unit {0})
  unfolding load_manifest save_manifest delete_manifest pure gets ◌>>=◌
  flip_manifest (Marker.enable data_) = do
    manifest ← gets (λ d. d.manifest)
    save_if_none data_ manifest
  flip_manifest Marker.disable = delete_manifest

  unfoldable pub finish_commit : Marker → Action (Unit {0})
  unfolding move_documents flip_manifest pure gets step ◌>>=◌
  finish_commit marker = do
    staged ← gets (λ d. exists d.staging)
    if staged then move_documents else pure tt
    flip_manifest marker
    step (λ d. ok (record d { marker = none }))

  abbrev pub recover_from : Option Marker → Bool → Action (Unit {0})
  recover_from (some marker) staged = finish_commit marker
  recover_from none true = remove_staging_tree
  recover_from none false = pure tt

  -- _recover_locked
  unfoldable pub recover_locked : Action (Unit {0})
  unfolding finish_commit remove_staging_tree pure gets ◌>>=◌
  recover_locked = do
    marker ← gets (λ d. d.marker)
    staged ← gets (λ d. exists d.staging)
    recover_from marker staged

  unfoldable pub recover : Action (Unit {0})
  unfolding recover_locked pure gets ◌>>=◌
  recover = do
    pending ← gets (λ d. exists d.marker || exists d.staging)
    if pending then recover_locked else pure tt

  unfoldable pub write_marker : Marker → Action (Unit {0})
  unfolding step ◌>>=◌
  write_marker marker = do
    step (λ d. ok (record d { marker_tmp = some marker }))
    step (λ d. ok (record d { marker = some marker; marker_tmp = none }))

  unfoldable pub commit : Marker → Action (Unit {0})
  unfolding write_marker finish_commit ◌>>=◌
  commit marker = do write_marker marker; finish_commit marker

  -- One round of the loop of _stage; `transform` has the number of a draw.
  unfoldable pub stage_document : (ℕ → Bytes → Result Bytes) → String → Action (Unit {0})
  unfolding lift draw read_blob write_staged rename_staged ◌>>=◌
  stage_document transform name = do
    blob ← read_blob name
    n ← draw
    content ← lift (transform n blob)
    write_staged (name ⧺ ".tmp") content
    rename_staged (name ⧺ ".tmp") name

  unfoldable pub stage : (ℕ → Bytes → Result Bytes) → Action (Unit {0})
  unfolding is_scratch gets step for_each remove_staging_tree stage_document ◌>>=◌
  stage transform = do
    remove_staging_tree
    step (λ d. ok (record d { staging = made d.staging }))
    names ← gets (λ d. documents (keys (entries d.blobs)))
    for_each names (stage_document transform)

  module _ (cipher : Cipher) where
    abbrev pub enable_fresh : String → Option EncryptionManifest → Action (Unit {0})
    enable_fresh token (some manifest) = raise (encryption_state "the store is already encrypted")
    enable_fresh token none = do
      n ← draw
      let (manifest, data_key) = cipher.create_envelope n token
      stage (λ i blob. ok (cipher.encrypt i data_key blob))
      commit (Marker.enable (dump_manifest manifest))

    unfoldable pub enable : String → Action (Unit {0})
    unfolding recover_locked dump_manifest stage commit raise gets draw ◌>>=◌
    enable token = do recover_locked; manifest ← gets (λ d. d.manifest); enable_fresh token manifest

    abbrev pub disable_encrypted : String → Option EncryptionManifest → Action (Unit {0})
    disable_encrypted token none = raise (encryption_state "the store is not encrypted")
    disable_encrypted token (some manifest) = do
      data_key ← lift (cipher.open_envelope token manifest)
      stage (λ i blob. cipher.decrypt data_key blob)
      commit Marker.disable

    unfoldable pub disable : String → Action (Unit {0})
    unfolding recover_locked stage commit raise gets lift ◌>>=◌
    disable token = do
      recover_locked
      manifest ← gets (λ d. d.manifest)
      disable_encrypted token manifest

    abbrev pub rotate_encrypted : String → String → Option EncryptionManifest → Action (Unit {0})
    rotate_encrypted old_token new_token none =
        raise (encryption_state "the store is not encrypted")
    rotate_encrypted old_token new_token (some manifest) = do
      data_key ← lift (cipher.open_envelope old_token manifest)
      n ← draw
      save_manifest (cipher.rewrap n data_key new_token)

    unfoldable pub rotate : String → String → Action (Unit {0})
    unfolding recover_locked save_manifest raise gets lift draw ◌>>=◌
    rotate old_token new_token = do
      recover_locked
      manifest ← gets (λ d. d.manifest)
      rotate_encrypted old_token new_token manifest

  unfoldable pub invalidate : Action (Unit {0})
  unfolding recover_locked delete_manifest remove_blob_tree remove_staging_tree step for_each ◌>>=◌
  invalidate = do
    recover_locked
    delete_manifest
    remove_blob_tree
    remove_staging_tree
    step (λ d. ok (record d { marker = none }))
    for_each ("executions.sqlite3" ∷ "registry.sqlite3" ∷ [])
        (λ name. step (λ d. ok (record d { databases = erase name d.databases })))
