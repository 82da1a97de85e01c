-- ===== src/Checksum.antt =====
-- common/checksum.py of packages/core: the bytes that a cache key is the digest of. `hashlib.sha256`
-- is the parameter `sha256`, from bytes to the hexadecimal text.
pub mod Injectivity
use generic_ml_cache.Prelude.{ℕ, ◌≡◌, String, List, [], ◌∷◌, ◌++◌, length}
use generic_ml_cache.Dict.{Dict}
use generic_ml_cache.Text.{utf8, decimal, join, sorted}

abbrev pub field_sep : ℕ
field_sep = 31

abbrev pub record_sep : ℕ
record_sep = 30

-- The `digest.update` calls for one field.
unfoldable pub field_bytes : String → String → List ℕ
field_bytes key value =
    let encoded = utf8 value in
    utf8 key
    ++ (field_sep ∷ (utf8 (decimal (length encoded)) ++ (field_sep ∷ (encoded ++ record_sep ∷ []))))

-- What the digest has been fed after the loop over the items, in the order given.
unfoldable pub serialize : Dict String → List ℕ
unfolding field_bytes
serialize [] = []
serialize ((key, value) ∷ rest) = field_bytes key value ++ serialize rest

-- The items in the order of `sorted(input_data)`.
unfoldable pub sorted_items : Dict String → Dict String
sorted_items = sorted (λ item. item.0)

unfoldable pub preimage : Dict String → List ℕ
preimage input_data = serialize (sorted_items input_data)

module _ (sha256 : List ℕ → String) where
  unfoldable pub text_checksum : String → String
  text_checksum text = sha256 (utf8 text)

  unfoldable pub file_content_fingerprint : List ℕ → String
  file_content_fingerprint bytes = sha256 bytes

  unfoldable pub fingerprint_arguments : List String → String
  unfolding text_checksum
  fingerprint_arguments arguments = text_checksum (join "\0" arguments)

  unfoldable pub checksum_input_data : Dict String → String
  checksum_input_data input_data = sha256 (preimage input_data)
