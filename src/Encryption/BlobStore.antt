-- ===== src/Encryption/BlobStore.antt =====
-- EncryptingBlobStore and TokenRequiredBlobStore: packages/adapters'
-- adapter/outbound/crypto/encrypting_blob_store.py, over the blob store of the ports. The keys are
-- those that the service made.
use Prim.Native.String.{◌++◌ as ◌⧺◌}
use generic_ml_cache.Prelude.{suc, String, ◌≡◌, refl, Option, none, some, eq_refl}
use generic_ml_cache.Dict.{lookup, lookup-insert}
use generic_ml_cache.Errors.{
  Result, ok, err, store_corrupt, encryption_token_required, wrong_encryption_token,
}
use generic_ml_cache.Domain.{Bytes}
use generic_ml_cache.World.{
  World, Environment, Exec, pure, raise, ◌>>=◌, ◌>>◌, ask, get_blob, put_blob, remove_blob,
}
use generic_ml_cache.World.Runs.{Runs, Runs-bind, Runs-ask, Runs-pure, Runs-get_blob, Runs-put_blob}
use generic_ml_cache.Encryption.{Cipher, CipherLaws}

module _ (env : Environment) (cipher : Cipher) (data_key : Bytes) where
  -- The `except` clause of get: a document that does not decrypt is a corrupt one.
  abbrev pub decrypted_or_corrupt : String → Result Bytes → Exec (Option Bytes)
  decrypted_or_corrupt key (ok output) = pure (some output)
  decrypted_or_corrupt key (err (wrong_encryption_token m)) =
      raise (store_corrupt ("blob " ⧺ key ⧺ " failed to decrypt with a valid token"))
  decrypted_or_corrupt key (err e) = raise e

  abbrev pub opened : String → Option Bytes → Exec (Option Bytes)
  opened key none = pure none
  opened key (some blob) = decrypted_or_corrupt key (cipher.decrypt data_key blob)

  unfoldable pub get : String → Exec (Option Bytes)
  unfolding pure raise get_blob ◌>>=◌
  get key = do blob ← get_blob env key; opened key blob

  unfoldable pub put : String → Bytes → Exec (Unit {0})
  unfolding ask put_blob ◌>>=◌
  put key output = do n ← ask (λ n. n); put_blob env key (cipher.encrypt n data_key output)

  unfoldable pub remove : String → Exec (Unit {0})
  unfolding remove_blob
  remove key = remove_blob env key

module _ (env : Environment) where
  unfoldable pub token_required_get : String → Exec (Option Bytes)
  unfolding raise
  token_required_get key =
      raise (encryption_token_required "the store is encrypted — provide the token to read it")

  unfoldable pub token_required_put : String → Bytes → Exec (Unit {0})
  unfolding raise
  token_required_put key output =
      raise (encryption_token_required "the store is encrypted — provide the token to record")

  unfoldable pub ensure_available_for_content : Exec (Unit {0})
  unfolding raise
  ensure_available_for_content = raise (
      encryption_token_required
        "the store is encrypted — provide the token to run a content operation")

  unfoldable pub token_required_remove : String → Exec (Unit {0})
  unfolding remove_blob
  token_required_remove key = remove_blob env key

module _ (env : Environment) (cipher : Cipher) (data_key : Bytes) (key : String) where
  -- A document that is written and then read through the encrypting store is read as it was
  -- written, where the underlying store answers without a fault and decryption inverts encryption;
  -- the bytes that the underlying store holds are the encrypted ones.
  pub put-get :
      (laws : CipherLaws cipher) (output : Bytes) (w : World)
      → env.put_fault (suc w.step) key ≡ none
      → env.get_fault (suc (suc w.step)) key ≡ none
      → Runs (put env cipher data_key key output >> get env cipher data_key key) w (λ value w'.
        (value ≡ some output)
        × (lookup key w'.blobs ≡ some (cipher.encrypt w.step data_key output)))
  unfolding put get
  put-get laws output w quiet_put quiet_get =
      let blob = cipher.encrypt w.step data_key output in
      Runs-bind {P = λ _ w'. (w'.step ≡ suc (suc w.step)) × (lookup key w'.blobs ≡ some blob)}
        (put env cipher data_key key output) (λ _. get env cipher data_key key) w
        (Runs-bind {P = λ n w'. (n ≡ w.step) × (w' ≡ record w { step = suc w.step })} (ask (λ n. n))
          (λ n. put_blob env key (cipher.encrypt n data_key output)) w
          (Runs-ask (λ n. n) w (refl, refl))
          (λ n w' h.
            rw (h.0, h.1)
              (Runs-put_blob env key (record w { step = suc w.step }) blob quiet_put
                (refl, rw (lookup-insert key key blob w.blobs, eq_refl key) refl))))
        (λ _ w' h.
          Runs-bind {P = λ o v. (o ≡ some blob) × (lookup key v.blobs ≡ some blob)}
            (get_blob env key) (λ o. opened env cipher data_key key o) w'
            (Runs-get_blob env key w' (rw h.0 quiet_get) (h.1, h.1))
            (λ o v k.
              rw (k.0, laws.decrypt-encrypt w.step data_key output)
                (Runs-pure (some output) v (refl, k.1))))
