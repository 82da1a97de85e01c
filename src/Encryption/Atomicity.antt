-- ===== src/Encryption/Atomicity.antt =====
-- enable and disable of packages/adapters' adapter/outbound/crypto/store_encryptor.py, from the
-- first recovery to the end of the commit.
use generic_ml_cache.Prelude.{
  ℕ, suc, String, ◌≡◌, refl, sym, ◌∙◌, Option, none, some, Bool, true, false, arith, if◌then◌else◌,
  inl, inr, ap, ◌⊎◌, subst,
}
use generic_ml_cache.Errors.{Result, ok}
use generic_ml_cache.Domain.{Bytes}
use generic_ml_cache.Disk.{Disk, EncryptionManifest, Marker}
use generic_ml_cache.Disk.Crash.{
  Guarantees, Guarantees-step, Guarantees-bind, Guarantees-draw, Guarantees-imp, Guarantees-each,
  ok-value,
}
use generic_ml_cache.Encryption.{
  Base64, Base64Laws, Cipher, CipherLaws, is_scratch, dump_manifest, load_manifest, commit,
  write_marker, enable_fresh,
}
use generic_ml_cache.Encryption.View.{or_else, in_blobs, in_staging, effective_manifest, Shows}
use generic_ml_cache.Encryption.Commit.{Never, IsCommitting, document-committed}
use generic_ml_cache.Encryption.Recovery.{
  IsSettled, IsRolledBack, keeps-IsRolledBack, document-plain, effective-plain,
  Guarantees-finish_commit, effective-enable,
}
use generic_ml_cache.Encryption.Staging.{Related, IsStaged, Guarantees-stage}

-- The documents once the staged ones are moved.
abbrev pub overlaid : Disk → String → Option Bytes
overlaid d n = if is_scratch n then none else or_else (in_staging d n) (in_blobs d n)

module _ (R : Bytes → Bytes → Type 0) where
  Related-or_else : (a b : Option Bytes) → Related R a b → Related R a (or_else b a)
  Related-or_else none none h = h
  Related-or_else (some a) (some b) h = h
  Related-or_else none (some b) h = h
  Related-or_else (some a) none h = elim h [ ]

  Related-if :
      (b : Bool) (x y z : Option Bytes)
      → (if b then none else x) ≡ z
      → (b ≡ false → Related R x y)
      → Related R z (if b then none else y)
  Related-if true x y none e h = tt
  Related-if true x y (some z) e h = ground arith
  Related-if false x y z e h = subst (λ k. Related R k y) e (h refl)

module _ (base64 : Base64) (f : String → Option Bytes) (m : Option EncryptionManifest) where
  pub overlaid-Related :
      (transform : ℕ → Bytes → Result Bytes) (R : Bytes → Bytes → Type 0)
      (sound : (n : ℕ) (x y : Bytes) → transform n x ≡ ok y → R x y) (d : Disk)
      → IsStaged base64 f m transform R sound d
      → (n : String) → Related R (f n) (overlaid d n)
  overlaid-Related transform R sound d h n =
      Related-if R (is_scratch n) (in_blobs d n) (or_else (in_staging d n) (in_blobs d n)) (f n)
        (sym (document-plain base64 f m d n h.rolled.marker) ∙ h.rolled.shows.documents n)
        (λ e. Related-or_else R (in_blobs d n) (in_staging d n) (h.staged n e))

  pub redrawn :
      (d : Disk) → IsSettled base64 f m d → IsSettled base64 f m (record d { draws = suc d.draws })
  redrawn d h = record {
    clean = record { marker = h.clean.marker; staging = h.clean.staging };
    shows =
        (keeps-IsRolledBack base64 f m d _ (record { marker = h.clean.marker; shows = h.shows })
          refl refl refl h.shows.staging_is_dict).shows;
  }

  -- The commit marker is the point of no return.
  pub Guarantees-commit :
      (mk : Marker) (after : Option EncryptionManifest) (d : Disk)
      → IsRolledBack base64 f m d
      → effective_manifest base64 (record d { marker = some mk; marker_tmp = none }) ≡ after
      → Guarantees
          (λ d'. d' ≡ d)
          (commit base64 mk)
          (λ _. IsSettled base64 (overlaid d) after)
          Never
          (λ d'. Shows base64 f m d' ⊎ Shows base64 (overlaid d) after d')
  unfolding commit write_marker
  Guarantees-commit mk after d h e =
      let tmp = record d { marker_tmp = some mk } in
      let marked = record d { marker = some mk; marker_tmp = none } in
      Guarantees-bind {R = λ _. IsCommitting base64 (overlaid d) after mk} _ _
        (Guarantees-bind {R = λ _ d'. d' ≡ tmp} _ _
          (Guarantees-step _ (λ d' q. (
            inl (subst (Shows base64 f m) (sym q) h.shows),
            (
              tmp,
              ap {A = Disk} {B = Result Disk} (λ x. ok (record x { marker_tmp = some mk })) q,
              refl,
            ),
          )))
          (λ _. Guarantees-step _ (λ d' q. (
            inl (
                subst (Shows base64 f m) (sym q)
                  (keeps-IsRolledBack base64 f m d tmp h refl refl refl
                    h.shows.staging_is_dict).shows),
            (
              marked,
              ap {A = Disk} {B = Result Disk}
                  (λ x. ok (record x { marker = some mk; marker_tmp = none })) q,
              record {
                marker = refl;
                shows = record {
                  staging_is_dict = h.shows.staging_is_dict;
                  documents = λ n. document-committed mk marked n refl;
                  manifest = e;
                };
              },
            ),
          ))))
        (λ _.
          Guarantees-imp _ _ (λ a d h. h) (λ x d h. h) (λ d h. inr h)
            (Guarantees-finish_commit base64 (overlaid d) after mk))

module _ (base64 : Base64) (cipher : Cipher) where
  -- The first is what the second decrypts to.
  abbrev pub Enciphers : Bytes → Bytes → Bytes → Type 0
  Enciphers data_key x y = cipher.decrypt data_key y ≡ ok x

  -- An encrypted store that the token opens, with the documents `f`.
  pub record Encrypted (token : String) (f : String → Option Bytes) : Type 0 where
    pub contents : String → Option Bytes
    pub manifest : EncryptionManifest
    pub data_key : Bytes
    pub opens : cipher.open_envelope token manifest ≡ ok data_key
    pub decrypts : (n : String) → Related (Enciphers data_key) (f n) (contents n)

  abbrev pub IsEncrypted : String → (String → Option Bytes) → Disk → Type 0
  IsEncrypted token f d = (e : Encrypted token f) × IsSettled base64 e.contents (some e.manifest) d

  abbrev pub ShowsEncrypted : String → (String → Option Bytes) → Disk → Type 0
  ShowsEncrypted token f d = (e : Encrypted token f) × Shows base64 e.contents (some e.manifest) d

  load-dump :
      Base64Laws base64
      → (manifest : EncryptionManifest)
      → load_manifest base64 (dump_manifest base64 manifest) ≡ manifest
  unfolding load_manifest dump_manifest
  load-dump laws manifest =
      rw (laws.decode-encode manifest.kdf_salt, laws.decode-encode manifest.wrapped_data_key) refl

  module _ (base64_laws : Base64Laws base64) (laws : CipherLaws cipher) (token : String)
      (f : String → Option Bytes) where
    abbrev encrypted : Bytes → ℕ → Bytes → Result Bytes
    encrypted data_key i x = ok (cipher.encrypt i data_key x)

    encrypt_sound :
        (data_key : Bytes) (i : ℕ) (x y : Bytes)
        → ok (cipher.encrypt i data_key x) ≡ ok y
        → cipher.decrypt data_key y ≡ ok x
    encrypt_sound data_key i x y e =
        subst (λ c. cipher.decrypt data_key c ≡ ok x)
          (sym (ok-value y (cipher.encrypt i data_key x) e)) (laws.decrypt-encrypt i data_key x)

    enabled :
        (d : Disk) (manifest : EncryptionManifest)
        → IsRolledBack base64 f none d
        → effective_manifest base64 (record d {
          marker = some (Marker.enable (dump_manifest base64 manifest));
          marker_tmp = none;
        })
          ≡ some manifest
    enabled d manifest h =
        effective-enable base64 f none (dump_manifest base64 manifest) _ refl
        ∙ rw
            (
              sym (effective-plain base64 f none d h.marker) ∙ h.shows.manifest,
              load-dump base64_laws manifest,
            )
            refl

    pub Guarantees-enable_fresh :
        Guarantees
          (IsSettled base64 f none)
          (enable_fresh base64 cipher token none)
          (λ _. IsEncrypted token f)
          Never
          (λ d. Shows base64 f none d ⊎ ShowsEncrypted token f d)
    Guarantees-enable_fresh =
        Guarantees-bind {R = λ _. IsSettled base64 f none} _ _
          (Guarantees-draw (λ d h. redrawn base64 f none d h))
          (λ n.
            let (manifest, data_key) = cipher.create_envelope n token in
            Guarantees-bind
              {R = λ _.
                IsStaged base64 f none (encrypted data_key) (Enciphers data_key)
                  (encrypt_sound data_key)}
              _ _
              (Guarantees-imp _ _ (λ a d h. h) (λ e d h. ground arith) (λ d h. inl h)
                (Guarantees-stage base64 f none (encrypted data_key) (Enciphers data_key)
                  (encrypt_sound data_key)))
              (λ _. Guarantees-each _ (λ d h.
                let new : Encrypted token f = record {
                  contents = overlaid d;
                  manifest = manifest;
                  data_key = data_key;
                  opens = laws.open-create n token;
                  decrypts =
                      overlaid-Related base64 f none (encrypted data_key) (Enciphers data_key)
                        (encrypt_sound data_key) d h;
                } in
                Guarantees-imp _ _ (λ a d' k. (new, k)) (λ e d' k. k)
                  (λ d' k. elim k [ inl s ↦ inl s | inr s ↦ inr (new, s) ])
                  (Guarantees-commit base64 f none (Marker.enable (dump_manifest base64 manifest))
                    (some manifest) d h.rolled (enabled d manifest h.rolled)))))
