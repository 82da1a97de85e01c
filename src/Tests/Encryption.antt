-- ===== src/Tests/Encryption.antt =====
-- A store directory, a cipher and base64 to run the encryption of a store on.
use Prim.Native.String as Text
use Prim.Native.Char.{code}
use generic_ml_cache.Prelude.{
  ℕ, zero, suc, ◌+◌, String, ◌≡◌, refl, ◌∙◌, none, some, [], ◌∷◌, ltb, if◌then◌else◌, arith, ◌⊎◌,
}
use generic_ml_cache.Dict.{lookup, IsDict}
use generic_ml_cache.Errors.{Result, ok, err, wrong_encryption_token}
use generic_ml_cache.Domain.{Bytes}
use generic_ml_cache.World
use generic_ml_cache.World.Runs.{Runs}
use generic_ml_cache.Disk.{Disk, EncryptionManifest, Marker, finished, entries, ◌>>◌}
use generic_ml_cache.Disk.Crash.{Guarantees}
use generic_ml_cache.Encryption.{
  Cipher, CipherLaws, Base64, Base64Laws, dump_manifest, load_manifest, enable, disable, rotate,
}
use generic_ml_cache.Encryption.View.{Shows, document, effective_manifest}
use generic_ml_cache.Encryption.Commit.{Never}
use generic_ml_cache.Encryption.Recovery.{IsSettled}
use generic_ml_cache.Encryption.Atomicity.{Encrypted}
use generic_ml_cache.Encryption.Migration.{Decrypted, IsRewrapped, Guarantees-rotate}
use generic_ml_cache.Encryption.Restart.{
  disk_after, interrupted, Recovers, interrupted-Recovers, enable-Recovers, disable-Recovers,
}
use generic_ml_cache.Encryption.RoundTrip.{enable-disable}
use generic_ml_cache.Encryption.BlobStore.{get, put, put-get}
use generic_ml_cache.Tests.{quiet_environment, new_world}

-- A byte is written as so many `a`, and a `b`.
unary : ℕ → String → String
unary zero s = Text.◌∷◌ "b" s
unary (suc n) s = Text.◌∷◌ "a" (unary n s)

unary_text : Bytes → String
unfolding unary
unary_text [] = Text.[]
unary_text (n ∷ r) = unary n (unary_text r)

bytes_from : ℕ → String → Bytes
bytes_from n Text.[] = []
bytes_from n (Text.◌∷◌ c s) =
    let more = bytes_from (suc n) s in
    let next = bytes_from 0 s in if ltb (code c) 98 then more else n ∷ next

bytes_from-unary : (k n : ℕ) (s : String) → bytes_from k (unary n s) ≡ (k + n) ∷ bytes_from 0 s
unfolding bytes_from unary
bytes_from-unary k zero s = ground arith
bytes_from-unary k (suc n) s = bytes_from-unary (suc k) n s ∙ ground arith

abbrev bytes_from_text : String → Bytes
bytes_from_text s = bytes_from 0 s

decoded : (bytes : Bytes) → bytes_from_text (unary_text bytes) ≡ bytes
unfolding unary_text bytes_from
decoded [] = refl
decoded (n ∷ r) = ground (arith, bytes_from-unary 0 n (unary_text r), decoded r)

abbrev without_nonce : Bytes → Result Bytes
without_nonce [] = err (wrong_encryption_token "no nonce")
without_nonce (n ∷ r) = ok r

abbrev unary_base64 : Base64
unary_base64 = record { b64encode = unary_text; b64decode = bytes_from_text }

unary_base64-Base64Laws : Base64Laws unary_base64
unary_base64-Base64Laws = record { decode-encode = decoded }

-- The nonce stands before the text, and a key opens what was wrapped under any token.
abbrev prefix_cipher : Cipher
prefix_cipher = record {
  create_envelope =
      λ n token. (record { kdf_salt = n ∷ []; wrapped_data_key = 7 ∷ []; version = 1 }, 7 ∷ []);
  open_envelope = λ token manifest. ok manifest.wrapped_data_key;
  rewrap =
      λ n data_key token. record { kdf_salt = n ∷ []; wrapped_data_key = data_key; version = 1 };
  encrypt = λ n data_key plaintext. n ∷ plaintext;
  decrypt = λ data_key ciphertext. without_nonce ciphertext;
}

prefix_cipher-CipherLaws : CipherLaws prefix_cipher
prefix_cipher-CipherLaws = record {
  open-create = λ n token. refl;
  open-rewrap = λ n data_key token. refl;
  decrypt-encrypt = λ n data_key plaintext. refl;
}

-- Two documents and the rest of an unfinished write, in a store that is not encrypted.
abbrev public_disk : Disk
public_disk = record {
  blobs = some (("a", 1 ∷ []) ∷ ("b.tmp", 9 ∷ []) ∷ ("c.d", 2 ∷ 3 ∷ []) ∷ []);
  staging = some (("a", 8 ∷ []) ∷ []);
  marker = none;
  marker_tmp = none;
  manifest = none;
  databases = [];
  draws = 5;
}

abbrev wrapped : EncryptionManifest
wrapped = record { kdf_salt = 4 ∷ []; wrapped_data_key = 7 ∷ []; version = 1 }

-- The process has stopped after the first of two moves.
abbrev committing_disk : Disk
committing_disk = record {
  blobs = some (("a", 5 ∷ 1 ∷ []) ∷ ("c.d", 2 ∷ 3 ∷ []) ∷ []);
  staging = some (("c.d", 6 ∷ 2 ∷ 3 ∷ []) ∷ []);
  marker = some (Marker.enable (dump_manifest unary_base64 wrapped));
  marker_tmp = none;
  manifest = none;
  databases = [];
  draws = 7;
}

shown :
    (d : Disk)
    → IsDict (entries d.staging)
    → Shows unary_base64 (document d) (effective_manifest unary_base64 d) d
shown d h = record { staging_is_dict = h; documents = λ n. refl; manifest = refl }

committing_shown : Shows unary_base64 (document committing_disk) (some wrapped) committing_disk
unfolding effective_manifest load_manifest dump_manifest lookup
committing_shown = record {
  staging_is_dict = (refl, tt);
  documents = λ n. refl;
  manifest = rw (decoded (4 ∷ []), decoded (7 ∷ [])) refl;
}

interrupted-Recovers_example :
    Recovers unary_base64
      (document committing_disk)
      (effective_manifest unary_base64 committing_disk)
      (interrupted unary_base64 (2 ∷ 1 ∷ []) committing_disk)
unfolding lookup
interrupted-Recovers_example =
    interrupted-Recovers unary_base64 (2 ∷ 1 ∷ []) committing_disk (refl, tt)

enable-Recovers_example :
    let left =
      interrupted unary_base64
        (1 ∷ [])
        (disk_after (enable unary_base64 prefix_cipher "t" public_disk (some 9))) in
    Recovers unary_base64 (document public_disk) none left
    ⊎ ((e : Encrypted unary_base64 prefix_cipher "t" (document public_disk)) × Recovers unary_base64
          e.contents
          (some e.manifest)
          left)
unfolding effective_manifest lookup
enable-Recovers_example =
    enable-Recovers unary_base64 prefix_cipher unary_base64-Base64Laws prefix_cipher-CipherLaws "t"
      (document public_disk) public_disk (some 9) (1 ∷ []) (shown public_disk (refl, tt))

disable-Recovers_example :
    let left =
      interrupted unary_base64 []
        (disk_after (disable unary_base64 prefix_cipher "t" committing_disk (some 12))) in
    Recovers unary_base64 (document committing_disk) (some wrapped) left
    ⊎ ((p : Decrypted unary_base64 prefix_cipher
          (document committing_disk)
          "t"
          wrapped
          (7 ∷ [])
          refl)
        × Recovers unary_base64 p.contents none left)
disable-Recovers_example =
    disable-Recovers unary_base64 prefix_cipher "t" (document committing_disk) wrapped (7 ∷ []) refl
      committing_disk (some 12) [] committing_shown

enable-disable_example :
    (d : Disk) × ((enable unary_base64 prefix_cipher "t" >> disable unary_base64 prefix_cipher "t")
        public_disk none
      ≡ finished tt d none)
    × IsSettled unary_base64 (document public_disk) none d
unfolding effective_manifest lookup
enable-disable_example =
    enable-disable unary_base64 prefix_cipher "t" unary_base64-Base64Laws prefix_cipher-CipherLaws
      (document public_disk) public_disk (shown public_disk (refl, tt))

Guarantees-rotate_example :
    Guarantees
      (Shows unary_base64 (document committing_disk) (some wrapped))
      (rotate unary_base64 prefix_cipher "t" "u")
      (λ _.
        IsRewrapped unary_base64 prefix_cipher
          (document committing_disk)
          "t"
          wrapped
          (7 ∷ [])
          refl
          "u")
      Never
      (Shows unary_base64 (document committing_disk) (some wrapped))
Guarantees-rotate_example =
    Guarantees-rotate unary_base64 prefix_cipher (document committing_disk) "t" wrapped (7 ∷ [])
      refl prefix_cipher-CipherLaws "u"

put-get_example :
    Runs
      (World.◌>>◌
        (put quiet_environment prefix_cipher (7 ∷ []) "k" (1 ∷ 2 ∷ []))
        (get quiet_environment prefix_cipher (7 ∷ []) "k"))
      new_world
      (λ value w'. (value ≡ some (1 ∷ 2 ∷ [])) × (lookup "k" w'.blobs ≡ some (0 ∷ 1 ∷ 2 ∷ [])))
put-get_example =
    put-get quiet_environment prefix_cipher (7 ∷ []) "k" prefix_cipher-CipherLaws (1 ∷ 2 ∷ [])
      new_world refl refl
