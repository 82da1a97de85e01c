-- ===== src/Disk.antt =====
-- The directory of a store, for packages/adapters' adapter/outbound/crypto/store_encryptor.py: its
-- files, and the calls of the file system that change them.
--
-- Every change is one step, and a process can stop before any step: a `Budget` is the number of
-- steps until it stops, or `none` where it does not. Code that deletes or moves several files takes
-- a step for each.
pub mod Crash
pub mod Trees
use generic_ml_cache.Prelude.{
  ℕ, zero, suc, String, ◌≡◌, Option, none, some, List, [], ◌∷◌, Bool, true, false, ◌||◌, map,
  is_some,
}
use generic_ml_cache.Dict.{Dict, lookup, insert, erase, keys}
use generic_ml_cache.Errors.{Error, Result, ok, err, other_error}
use generic_ml_cache.Domain.{Bytes}

-- EncryptionManifest
pub record EncryptionManifest : Type 0 where
  pub kdf_salt : Bytes
  pub wrapped_data_key : Bytes
  pub version : ℕ

-- The manifest as the commit marker holds it, in base64.
pub record DumpedManifest : Type 0 where
  pub version : ℕ
  pub kdf_salt : String
  pub wrapped_data_key : String

-- encryption.committing.json
pub data Marker : Type 0 where
  enable : DumpedManifest → Marker
  disable : Marker

-- A directory is `none` where it does not exist.
pub record Disk : Type 0 where
  -- blobs/
  pub blobs : Option (Dict Bytes)
  -- blobs.staging/
  pub staging : Option (Dict Bytes)
  pub marker : Option Marker
  -- the scratch file of the marker
  pub marker_tmp : Option Marker
  -- encryption.json
  pub manifest : Option EncryptionManifest
  -- executions.sqlite3, registry.sqlite3
  pub databases : Dict Bytes
  -- random draws of the cipher so far
  pub draws : ℕ

abbrev pub Budget : Type 0
Budget = Option ℕ

pub data Outcome (A : Type 0) : Type 0 where
  finished : A → Disk → Budget → Outcome A
  failed : Error → Disk → Budget → Outcome A
  crashed : Disk → Outcome A

abbrev pub Action : Type 0 → Type 0
Action A = Disk → Budget → Outcome A

module _ {A : Type 0} where
  unfoldable pub pure : A → Action A
  pure a d b = finished a d b

  unfoldable pub raise : Error → Action A
  raise e d b = failed e d b

  unfoldable pub gets : (Disk → A) → Action A
  gets f d b = finished (f d) d b

  unfoldable pub lift : Result A → Action A
  lift (ok a) d b = finished a d b
  lift (err e) d b = failed e d b

module _ {A B : Type 0} where
  abbrev pub continue : Outcome A → (A → Action B) → Outcome B
  continue (finished a d b) f = f a d b
  continue (failed e d b) f = failed e d b
  continue (crashed d) f = crashed d

  infixl 10 ◌>>=◌ ◌>>◌
  unfoldable pub ◌>>=◌ : Action A → (A → Action B) → Action B
  unfolding pure raise lift gets
  ◌>>=◌ m f d b = continue (m d b) f

  abbrev pub ◌>>◌ : Action A → Action B → Action B
  m >> n = m >>= λ _. n

-- One change of the disk, where the process has not stopped.
abbrev pub spend : Result Disk → Disk → Budget → Outcome (Unit {0})
spend (err e) d b = failed e d b
spend (ok d') d none = finished tt d' none
spend (ok d') d (some zero) = crashed d
spend (ok d') d (some (suc n)) = finished tt d' (some n)

unfoldable pub step : (Disk → Result Disk) → Action (Unit {0})
step f d b = spend (f d) d b

unfoldable pub for_each : List String → (String → Action (Unit {0})) → Action (Unit {0})
unfolding pure ◌>>=◌
for_each [] body = pure tt
for_each (x ∷ xs) body = body x >>= λ _. for_each xs body

-- The number of the next call that draws random bytes.
unfoldable pub draw : Action ℕ
draw d b = finished d.draws (record d { draws = suc d.draws }) b

-- The files of a directory.
abbrev pub entries : Option (Dict Bytes) → Dict Bytes
entries none = []
entries (some files) = files

-- directory.exists()
abbrev pub exists : {A : Type 0} → Option A → Bool
exists o = is_some o

-- directory.mkdir(parents=True, exist_ok=True)
abbrev pub made : Option (Dict Bytes) → Option (Dict Bytes)
made o = some (entries o)

abbrev pub unlinked : String → Option (Dict Bytes) → Option (Dict Bytes)
unlinked name none = none
unlinked name (some files) = some (erase name files)

-- shutil.rmtree(directory, ignore_errors=True), a file at a time
unfoldable pub remove_staging_tree : Action (Unit {0})
unfolding gets step for_each ◌>>=◌
remove_staging_tree = do
  names ← gets (λ d. keys (entries d.staging))
  for_each names (λ name. step (λ d. ok (record d { staging = unlinked name d.staging })))
  step (λ d. ok (record d { staging = none }))

unfoldable pub remove_blob_tree : Action (Unit {0})
unfolding gets step for_each ◌>>=◌
remove_blob_tree = do
  names ← gets (λ d. keys (entries d.blobs))
  for_each names (λ name. step (λ d. ok (record d { blobs = unlinked name d.blobs })))
  step (λ d. ok (record d { blobs = none }))

abbrev missing : Error
missing = other_error "No such file or directory"

abbrev pub file : Option Bytes → Result Bytes
file none = err missing
file (some content) = ok content

-- (blobs / name).read_bytes()
unfoldable pub read_blob : String → Action Bytes
unfolding gets lift ◌>>=◌
read_blob name = do content ← gets (λ d. lookup name (entries d.blobs)); lift (file content)

-- (staging / name).write_bytes(content)
abbrev pub written : String → Bytes → Disk → Option (Dict Bytes) → Result Disk
written name content d none = err missing
written name content d (some files) = ok (record d { staging = some (insert name content files) })

unfoldable pub write_staged : String → Bytes → Action (Unit {0})
unfolding step
write_staged name content = step (λ d. written name content d d.staging)

-- os.replace(staging / old, staging / new)
abbrev pub renamed : String → String → Disk → Dict Bytes → Option Bytes → Result Disk
renamed old new d files none = err missing
renamed old new d files (some content) =
    ok (record d { staging = some (insert new content (erase old files)) })

unfoldable pub rename_staged : String → String → Action (Unit {0})
unfolding step
rename_staged old new =
    step (λ d. renamed old new d (entries d.staging) (lookup old (entries d.staging)))

-- os.replace(staging / name, blobs / name)
abbrev pub moved : String → Disk → Option (Dict Bytes) → Option Bytes → Result Disk
moved name d none content = err missing
moved name d (some files) none = err missing
moved name d (some files) (some content) =
    ok (record d { blobs = some (insert name content files); staging = unlinked name d.staging })

unfoldable pub move_staged : String → Action (Unit {0})
unfolding step
move_staged name = step (λ d. moved name d d.blobs (lookup name (entries d.staging)))
