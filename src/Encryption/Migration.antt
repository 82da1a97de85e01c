-- ===== src/Encryption/Migration.antt =====
-- enable, disable, rotate and invalidate of packages/adapters'
-- adapter/outbound/crypto/store_encryptor.py, as callers see them.
use generic_ml_cache.Prelude.{ℕ, String, ◌≡◌, refl, sym, ◌∙◌, Option, none, some, inl, inr, ◌⊎◌}
use generic_ml_cache.Errors.{Error, Result, ok, err, encryption_state}
use generic_ml_cache.Domain.{Bytes}
use generic_ml_cache.Disk.{Disk, EncryptionManifest, Marker, ◌>>=◌, gets}
use generic_ml_cache.Disk.Crash.{
  Guarantees, Guarantees-gets, Guarantees-step, Guarantees-bind, Guarantees-from, Guarantees-ok,
  Guarantees-draw, Guarantees-imp, Guarantees-each, Guarantees-raise,
}
use generic_ml_cache.Encryption.{
  Base64, Base64Laws, Cipher, CipherLaws, stage, commit, recover_locked, enable, enable_fresh,
  disable, disable_encrypted, rotate, rotate_encrypted, save_manifest,
}
use generic_ml_cache.Encryption.View.{Shows}
use generic_ml_cache.Encryption.Commit.{Never}
use generic_ml_cache.Encryption.Recovery.{
  IsSettled, document-plain, effective-plain, effective-disable, Guarantees-recover_locked,
}
use generic_ml_cache.Encryption.Staging.{Related, IsStaged, Guarantees-stage}
use generic_ml_cache.Encryption.Atomicity.{
  IsEncrypted, ShowsEncrypted, overlaid, overlaid-Related, redrawn, Guarantees-commit,
  Guarantees-enable_fresh,
}

module _ (base64 : Base64) (cipher : Cipher) (f : String → Option Bytes) where
  -- Every operation first recovers and then reads the manifest.
  Guarantees-opened :
      {E : Error → Disk → Type 0} {C : Disk → Type 0} {Q : Unit {0} → Disk → Type 0}
      (m : Option EncryptionManifest) (rest : Option EncryptionManifest → _)
      → ((d : Disk) → Shows base64 f m d → C d)
      → Guarantees (IsSettled base64 f m) (rest m) Q E C
      → Guarantees
          (Shows base64 f m)
          (recover_locked base64 >>= λ _. gets (λ d. d.manifest) >>= rest)
          Q
          E
          C
  Guarantees-opened m rest imp g =
      Guarantees-bind {R = λ _. IsSettled base64 f m} _ _
        (Guarantees-imp _ _ (λ a d h. h) (λ e d h. elim h [ ]) imp
          (Guarantees-recover_locked base64 f m))
        (λ _.
          Guarantees-bind {R = λ o d. IsSettled base64 f m d × (o ≡ m)} _ _
            (Guarantees-gets _
              (λ d h. (h, sym (effective-plain base64 f m d h.clean.marker) ∙ h.shows.manifest)))
            (λ o. Guarantees-each _ (λ d h. rw h.1 (Guarantees-from _ (λ d' e. rw e h.0) g))))

  rewrapped :
      (d : Disk) (manifest m : EncryptionManifest)
      → IsSettled base64 f (some manifest) d
      → IsSettled base64 f (some m) (record d { manifest = some m })
  rewrapped d manifest m h = record {
    clean = record { marker = h.clean.marker; staging = h.clean.staging };
    shows = record {
      staging_is_dict = h.shows.staging_is_dict;
      documents = λ n.
          document-plain base64 f none (record d { manifest = some m }) n h.clean.marker
          ∙ sym (document-plain base64 f none d n h.clean.marker)
          ∙ h.shows.documents n;
      manifest = effective-plain base64 f none (record d { manifest = some m }) h.clean.marker;
    };
  }

  pub Guarantees-enable :
      (base64_laws : Base64Laws base64) (laws : CipherLaws cipher) (token : String)
      → Guarantees
          (Shows base64 f none)
          (enable base64 cipher token)
          (λ _. IsEncrypted base64 cipher token f)
          Never
          (λ d. Shows base64 f none d ⊎ ShowsEncrypted base64 cipher token f d)
  unfolding enable
  Guarantees-enable base64_laws laws token =
      Guarantees-opened none (enable_fresh base64 cipher token) (λ d h. inl h)
        (Guarantees-enable_fresh base64 cipher base64_laws laws token f)

  module _ (token : String) (manifest : EncryptionManifest) (data_key : Bytes)
      (opens : cipher.open_envelope token manifest ≡ ok data_key) where
    -- The second is what the first decrypts to.
    abbrev pub Deciphers : Bytes → Bytes → Type 0
    Deciphers x y = cipher.decrypt data_key x ≡ ok y

    -- A public store with the plain documents.
    pub record Decrypted : Type 0 where
      pub contents : String → Option Bytes
      pub decrypts : (n : String) → Related Deciphers (f n) (contents n)

    abbrev pub IsPublic : Disk → Type 0
    IsPublic d = (p : Decrypted) × IsSettled base64 p.contents none d

    abbrev pub ShowsPublic : Disk → Type 0
    ShowsPublic d = (p : Decrypted) × Shows base64 p.contents none d

    -- A document does not decrypt: the store is as it was.
    abbrev pub IsKept : Error → Disk → Type 0
    IsKept e d =
        Shows base64 f (some manifest) d
        × ((x : Bytes) × (name : String) × (f name ≡ some x) × (cipher.decrypt data_key x ≡ err e))

    abbrev decrypted : ℕ → Bytes → Result Bytes
    decrypted i x = cipher.decrypt data_key x

    Guarantees-disable_opened :
        Guarantees
          (IsSettled base64 f (some manifest))
          (stage base64 decrypted >>= λ _. commit base64 Marker.disable)
          (λ _. IsPublic)
          IsKept
          (λ d. Shows base64 f (some manifest) d ⊎ ShowsPublic d)
    Guarantees-disable_opened =
        Guarantees-bind
          {R = λ _. IsStaged base64 f (some manifest) decrypted Deciphers (λ i x y e. e)} _ _
          (Guarantees-imp _ _ (λ a d h. h) (λ e d h. (h.0, (h.1.1, h.1.2, h.1.3, h.1.4)))
            (λ d h. inl h)
            (Guarantees-stage base64 f (some manifest) decrypted Deciphers (λ i x y e. e)))
          (λ _. Guarantees-each _ (λ d h.
            let new : Decrypted = record {
              contents = overlaid d;
              decrypts =
                  overlaid-Related base64 f (some manifest) decrypted Deciphers (λ i x y e. e) d h;
            } in
            Guarantees-imp _ _ (λ a d' k. (new, k)) (λ e d' k. elim k [ ])
              (λ d' k. elim k [ inl s ↦ inl s | inr s ↦ inr (new, s) ])
              (Guarantees-commit base64 f (some manifest) Marker.disable none d h.rolled
                (effective-disable base64 f (some manifest) _ refl))))

    pub Guarantees-disable :
        Guarantees
          (Shows base64 f (some manifest))
          (disable base64 cipher token)
          (λ _. IsPublic)
          IsKept
          (λ d. Shows base64 f (some manifest) d ⊎ ShowsPublic d)
    unfolding disable
    Guarantees-disable =
        Guarantees-opened (some manifest) (disable_encrypted base64 cipher token) (λ d h. inl h)
          (Guarantees-bind {R = λ k d. IsSettled base64 f (some manifest) d × (k ≡ data_key)} _ _
            (Guarantees-ok data_key _ opens (λ d h. (h, refl)))
            (λ k.
              Guarantees-each _
                (λ d h. rw h.1 (Guarantees-from _ (λ d' e. rw e h.0) Guarantees-disable_opened))))

    -- The documents are as they were, and the new token opens the store.
    abbrev pub IsRewrapped : String → Disk → Type 0
    IsRewrapped new_token d =
        (m : EncryptionManifest) × (cipher.open_envelope new_token m ≡ ok data_key)
        × IsSettled base64 f (some m) d

    -- A rotation of the token, from one that opens the store, raises nothing: where it finishes, the
    -- new token opens the store with the same data key, and the documents are as they were; where
    -- it stops before, the store shows the documents and the manifest that it had. The cipher opens
    -- what it wraps.
    pub Guarantees-rotate :
        (laws : CipherLaws cipher) (new_token : String)
        → Guarantees
            (Shows base64 f (some manifest))
            (rotate base64 cipher token new_token)
            (λ _. IsRewrapped new_token)
            Never
            (Shows base64 f (some manifest))
    unfolding rotate save_manifest
    Guarantees-rotate laws new_token =
        Guarantees-opened (some manifest) (rotate_encrypted base64 cipher token new_token)
          (λ d h. h)
          (Guarantees-bind {R = λ k d. IsSettled base64 f (some manifest) d × (k ≡ data_key)} _ _
            (Guarantees-ok data_key _ opens (λ d h. (h, refl)))
            (λ k.
              Guarantees-bind {R = λ _ d. IsSettled base64 f (some manifest) d × (k ≡ data_key)} _ _
                (Guarantees-draw (λ d h. (redrawn base64 f (some manifest) d h.0, h.1)))
                (λ n. Guarantees-step _ (λ d h.
                  let m = cipher.rewrap n k new_token in
                  (
                    h.0.shows,
                    (
                      record d { manifest = some m },
                      refl,
                      (
                        m,
                        rw h.1 (laws.open-rewrap n data_key new_token),
                        rewrapped d manifest m h.0,
                      ),
                    ),
                  )))))

  pub Guarantees-enable_again :
      (manifest : EncryptionManifest) (token : String)
      → Guarantees
          (Shows base64 f (some manifest))
          (enable base64 cipher token)
          (λ _ _. ⊥)
          (λ e d.
            (e ≡ encryption_state "the store is already encrypted")
            × IsSettled base64 f (some manifest) d)
          (Shows base64 f (some manifest))
  unfolding enable
  Guarantees-enable_again manifest token =
      Guarantees-opened (some manifest) (enable_fresh base64 cipher token) (λ d h. h)
        (Guarantees-raise _ (λ d h. (refl, h)))
