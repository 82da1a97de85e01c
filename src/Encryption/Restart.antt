-- ===== src/Encryption/Restart.antt =====
-- Processes that stop anywhere in a migration or in a recovery of packages/adapters'
-- adapter/outbound/crypto/store_encryptor.py, and the one that opens the store next.
use generic_ml_cache.Prelude.{
  ℕ, String, ◌≡◌, refl, Option, none, some, List, [], ◌∷◌, inl, inr, ◌⊎◌, arith,
}
use generic_ml_cache.Dict.{IsDict}
use generic_ml_cache.Errors.{ok}
use generic_ml_cache.Domain.{Bytes}
use generic_ml_cache.Disk.{
  Disk, Budget, Outcome, finished, failed, crashed, Action, EncryptionManifest, entries,
}
use generic_ml_cache.Disk.Crash.{Ends, Guarantees, Guarantees-imp}
use generic_ml_cache.Encryption.{Base64, Base64Laws, Cipher, CipherLaws, recover, enable, disable}
use generic_ml_cache.Encryption.View.{Shows, document, effective_manifest}
use generic_ml_cache.Encryption.Commit.{Never}
use generic_ml_cache.Encryption.Recovery.{IsSettled, Guarantees-recover}
use generic_ml_cache.Encryption.Atomicity.{Encrypted, IsEncrypted, ShowsEncrypted}
use generic_ml_cache.Encryption.Migration.{
  Decrypted, IsPublic, ShowsPublic, IsKept, Guarantees-enable, Guarantees-disable,
}

-- The disk that a process leaves.
abbrev pub disk_after : {A : Type 0} → Outcome A → Disk
disk_after (finished a d b) = d
disk_after (failed e d b) = d
disk_after (crashed d) = d

-- Without a limit on the steps, code that raises nothing finishes.
Ends-finished :
    {A : Type 0} (Q : A → Disk → Type 0) (C : Disk → Type 0) (o : Outcome A)
    → Ends none Q Never C o
    → (a : A) × (d : Disk) × (o ≡ finished a d none) × Q a d
Ends-finished Q C (finished a d none) h = (a, d, refl, h.1)
Ends-finished Q C (finished a d (some n)) h = ground arith
Ends-finished Q C (failed e d b) h = elim h.1 [ ]
Ends-finished Q C (crashed d) h = ground arith

module _ {A : Type 0} {P : Disk → Type 0} {Q : A → Disk → Type 0} {C : Disk → Type 0}
    (m : Action A) where
  pub Guarantees-finished :
      (d : Disk)
      → Guarantees P m Q Never C
      → P d
      → (a : A) × (d' : Disk) × (m d none ≡ finished a d' none) × Q a d'
  Guarantees-finished d g p = Ends-finished Q C (m d none) (g.at d none p)

module _ (base64 : Base64) where
  -- The store is opened several times, and each recovery stops after so many steps.
  unfoldable pub interrupted : List ℕ → Disk → Disk
  unfolding recover
  interrupted [] d = d
  interrupted (n ∷ ns) d = interrupted ns (disk_after (recover base64 d (some n)))

  Ends-shows :
      {A : Type 0} (Q : Disk → Type 0) (b : Budget) (o : Outcome A)
      → Ends b (λ _. Q) Never Q o
      → Q (disk_after o)
  Ends-shows Q b (finished a d b') h = h.1
  Ends-shows Q b (failed e d b') h = elim h.1 [ ]
  Ends-shows Q b (crashed d) h = h.1

  module _ (f : String → Option Bytes) (m : Option EncryptionManifest) where
    interrupted-Shows :
        (ns : List ℕ) (d : Disk) → Shows base64 f m d → Shows base64 f m (interrupted ns d)
    unfolding interrupted
    interrupted-Shows [] d h = h
    interrupted-Shows (n ∷ ns) d h = interrupted-Shows ns _ (
        Ends-shows (Shows base64 f m) (some n) (recover base64 d (some n)) (
          (Guarantees-imp _ _ (λ _ d h. h.shows) (λ e d k. k) (λ d k. k)
              (Guarantees-recover base64 f m)).at
            d (some n) h))

    -- A recovery that is not interrupted finishes, on a clean store that stands for `f` and `m`.
    abbrev pub Recovers : Disk → Type 0
    Recovers d =
        (d' : Disk) × (recover base64 d none ≡ finished tt d' none) × IsSettled base64 f m d'

    Shows-Recovers : (d : Disk) → Shows base64 f m d → Recovers d
    Shows-Recovers d h =
        let r = Guarantees-finished (recover base64) d (Guarantees-recover base64 f m) h in
        (r.1, r.2, r.3)

    Recovers-after : (ns : List ℕ) (d : Disk) → Shows base64 f m d → Recovers (interrupted ns d)
    Recovers-after ns d h = Shows-Recovers (interrupted ns d) (interrupted-Shows ns d h)

  -- However often the recovery of a store is itself stopped, the next one that is not finishes: it
  -- leaves no commit marker and no staging directory, each document and the manifest as the
  -- interrupted migration had them, committed or not. The staging directory names no file twice.
  pub interrupted-Recovers :
      (ns : List ℕ) (d : Disk)
      → IsDict (entries d.staging)
      → Recovers (document d) (effective_manifest base64 d) (interrupted ns d)
  interrupted-Recovers ns d h =
      Recovers-after (document d) (effective_manifest base64 d) ns d
        (record { staging_is_dict = h; documents = λ n. refl; manifest = refl })

  module _ (cipher : Cipher) (base64_laws : Base64Laws base64) (laws : CipherLaws cipher) where
    Ends-enable :
        (token : String) (f : String → Option Bytes) (b : Budget) (o : Outcome (Unit {0}))
        → Ends b
            (λ _. IsEncrypted base64 cipher token f)
            Never
            (λ d. Shows base64 f none d ⊎ ShowsEncrypted base64 cipher token f d)
            o
        → Shows base64 f none (disk_after o) ⊎ ShowsEncrypted base64 cipher token f (disk_after o)
    Ends-enable token f b (finished a d b') h = inr (h.1.0, h.1.1.shows)
    Ends-enable token f b (failed e d b') h = elim h.1 [ ]
    Ends-enable token f b (crashed d) h = h.1

    -- Encryption of a public store is all or nothing: wherever the process stops, and however often
    -- the recoveries after it are stopped, the next recovery finishes and leaves either the public
    -- store with its documents, or an encrypted one whose documents decrypt to these under the key
    -- that the token opens. The cipher and base64 invert what they write.
    pub enable-Recovers :
        (token : String) (f : String → Option Bytes) (d : Disk) (b : Budget) (ns : List ℕ)
        → Shows base64 f none d
        → let left = interrupted ns (disk_after (enable base64 cipher token d b)) in
          Recovers f none left
          ⊎ ((e : Encrypted base64 cipher token f) × Recovers e.contents (some e.manifest) left)
    enable-Recovers token f d b ns h =
        elim (Ends-enable token f b (enable base64 cipher token d b)
          ((Guarantees-enable base64 cipher f base64_laws laws token).at d b h)) [
            | inl s ↦ inl (Recovers-after f none ns _ s)
            | inr s ↦ inr (s.0, Recovers-after s.0.contents (some s.0.manifest) ns _ s.1)
          ]

  module _ (cipher : Cipher) (token : String) (f : String → Option Bytes)
      (manifest : EncryptionManifest) (data_key : Bytes)
      (opens : cipher.open_envelope token manifest ≡ ok data_key) where
    Ends-disable :
        (b : Budget) (o : Outcome (Unit {0}))
        → Ends b
            (λ _. IsPublic base64 cipher f token manifest data_key opens)
            (IsKept base64 cipher f token manifest data_key opens)
            (λ d.
              Shows base64 f (some manifest) d
              ⊎ ShowsPublic base64 cipher f token manifest data_key opens d)
            o
        → Shows base64 f (some manifest) (disk_after o)
          ⊎ ShowsPublic base64 cipher f token manifest data_key opens (disk_after o)
    Ends-disable b (finished a d b') h = inr (h.1.0, h.1.1.shows)
    Ends-disable b (failed e d b') h = inl h.1.0
    Ends-disable b (crashed d) h = h.1

    -- Decryption of an encrypted store, under a token that opens it, is all or nothing: wherever
    -- the process stops or a document does not decrypt, and however often the recoveries after it
    -- are stopped, the next recovery finishes and leaves either the encrypted store with its
    -- documents and its manifest, or a public one with what these decrypt to.
    pub disable-Recovers :
        (d : Disk) (b : Budget) (ns : List ℕ)
        → Shows base64 f (some manifest) d
        → let left = interrupted ns (disk_after (disable base64 cipher token d b)) in
          Recovers f (some manifest) left
          ⊎ ((p : Decrypted base64 cipher f token manifest data_key opens) × Recovers p.contents
                none left)
    disable-Recovers d b ns h =
        elim (Ends-disable b (disable base64 cipher token d b)
          ((Guarantees-disable base64 cipher f token manifest data_key opens).at d b h)) [
            | inl s ↦ inl (Recovers-after f (some manifest) ns _ s)
            | inr s ↦ inr (s.0, Recovers-after s.0.contents none ns _ s.1)
          ]
