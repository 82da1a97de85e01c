-- ===== src/Encryption/RoundTrip.antt =====
-- Encryption switched on and off again: enable, then disable, of packages/adapters'
-- adapter/outbound/crypto/store_encryptor.py.
use generic_ml_cache.Prelude.{String, ◌≡◌, refl, sym, ◌∙◌, Option, none, some, arith, ap}
use generic_ml_cache.Errors.{Error, ok, err}
use generic_ml_cache.Domain.{Bytes}
use generic_ml_cache.Disk.{
  Disk, Outcome, finished, failed, crashed, EncryptionManifest, ◌>>◌, ◌>>=◌, continue,
}
use generic_ml_cache.Disk.Crash.{Ends, Guarantees-imp, ok-value}
use generic_ml_cache.Encryption.{Base64, Base64Laws, Cipher, CipherLaws, enable, disable}
use generic_ml_cache.Encryption.View.{Shows}
use generic_ml_cache.Encryption.Recovery.{IsSettled}
use generic_ml_cache.Encryption.Staging.{Related}
use generic_ml_cache.Encryption.Atomicity.{Encrypted}
use generic_ml_cache.Encryption.Migration.{IsPublic, IsKept, Guarantees-enable, Guarantees-disable}
use generic_ml_cache.Encryption.Restart.{Guarantees-finished}

module _ (base64 : Base64) (cipher : Cipher) (token : String) where
  same-IsSettled :
      (f g : String → Option Bytes) (m : Option EncryptionManifest) (d : Disk)
      → ((n : String) → g n ≡ f n)
      → IsSettled base64 g m d
      → IsSettled base64 f m d
  same-IsSettled f g m d e h = record {
    clean = h.clean;
    shows = record {
      staging_is_dict = h.shows.staging_is_dict;
      documents = λ n. h.shows.documents n ∙ e n;
      manifest = h.shows.manifest;
    };
  }

  module _ (data_key : Bytes) where
    there_and_back :
        (a c b : Option Bytes)
        → Related (λ x y. cipher.decrypt data_key y ≡ ok x) a c
        → Related (λ x y. cipher.decrypt data_key x ≡ ok y) c b
        → b ≡ a
    there_and_back none none none h k = refl
    there_and_back (some x) (some y) (some z) h k = ap some (ok-value z x (sym h ∙ k))
    there_and_back none (some y) b h k = elim h [ ]
    there_and_back (some x) none b h k = elim h [ ]
    there_and_back none none (some z) h k = elim k [ ]
    there_and_back (some x) (some y) none h k = elim k [ ]

    not_refused :
        (a c : Option Bytes) (x : Bytes) (e : Error)
        → Related (λ x y. cipher.decrypt data_key y ≡ ok x) a c
        → c ≡ some x
        → cipher.decrypt data_key x ≡ err e
        → ⊥
    not_refused (some p) (some y) x e h k r = ground arith
    not_refused none (some y) x e h k r = h
    not_refused (some p) none x e h k r = h
    not_refused none none x e h k r = ground arith

  module _ (f : String → Option Bytes) (new : Encrypted base64 cipher token f) where
    Ends-disabled :
        (o : Outcome (Unit {0}))
        → Ends none
            (λ _. IsPublic base64 cipher new.contents token new.manifest new.data_key new.opens)
            (IsKept base64 cipher new.contents token new.manifest new.data_key new.opens)
            (λ d. Unit)
            o
        → (d : Disk) × (o ≡ finished tt d none) × IsSettled base64 f none d
    Ends-disabled (finished tt d none) h = (
      d,
      refl,
      same-IsSettled f h.1.0.contents none d
          (λ n.
            there_and_back new.data_key (f n) (new.contents n) (h.1.0.contents n) (new.decrypts n)
              (h.1.0.decrypts n))
          h.1.1,
    )
    Ends-disabled (finished tt d (some n)) h = ground arith
    Ends-disabled (failed e d b) h =
        elim (not_refused new.data_key (f h.1.1.1) (new.contents h.1.1.1) h.1.1.0 e
          (new.decrypts h.1.1.1) h.1.1.2 h.1.1.3) [ ]
    Ends-disabled (crashed d) h = ground arith

  -- A public store that is encrypted under a token and decrypted under it again is public, with
  -- the documents that it had, and neither step raises. The cipher and base64 invert what they
  -- write.
  pub enable-disable :
      (base64_laws : Base64Laws base64) (laws : CipherLaws cipher) (f : String → Option Bytes)
      (d : Disk)
      → Shows base64 f none d
      → (d' : Disk) × ((enable base64 cipher token >> disable base64 cipher token) d none
          ≡ finished tt d' none)
        × IsSettled base64 f none d'
  unfolding ◌>>=◌
  enable-disable base64_laws laws f d h =
      let r =
        Guarantees-finished (enable base64 cipher token) d
          (Guarantees-enable base64 cipher f base64_laws laws token) h in
      let new = r.3.0 in
      let s = Ends-disabled f new (disable base64 cipher token r.1 none) (
        (Guarantees-imp _ _ (λ a d k. k) (λ e d k. k) (λ d k. tt)
            (Guarantees-disable base64 cipher new.contents token new.manifest new.data_key
              new.opens)).at
          r.1 none r.3.1.shows) in
      (s.0, ap (λ o. continue o (λ _. disable base64 cipher token)) r.2 ∙ s.1, s.2)
