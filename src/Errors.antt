-- ===== src/Errors.antt =====
-- common/errors.py of packages/core: the exceptions that the modelled code raises or catches, with
-- their messages, and the outcome of code that may raise.
use Prim.Native.String.{◌++◌ as ◌⧺◌}
use generic_ml_cache.Prelude.{ℕ, String}
use generic_ml_cache.Text.{decimal}

pub data Error : Type 0 where
  cache_miss : String → Error
  unknown_client : String → Error
  unsupported_execution_mode : String → Error
  artifact_blob_missing : String → Error
  encryption_token_required : String → Error
  encryption_state : String → Error
  wrong_encryption_token : String → Error
  store_unavailable : String → Error
  store_corrupt : String → Error
  store_consistency : String → Error
  run_interrupted : String → Error
  other_error : String → Error

-- str(exc)
unfoldable pub message : Error → String
message (cache_miss m) = m
message (unknown_client m) = m
message (unsupported_execution_mode m) = m
message (artifact_blob_missing m) = m
message (encryption_token_required m) = m
message (encryption_state m) = m
message (wrong_encryption_token m) = m
message (store_unavailable m) = m
message (store_corrupt m) = m
message (store_consistency m) = m
message (run_interrupted m) = m
message (other_error m) = m

pub data Result {ℓ} (A : Type ℓ) : Type ℓ where
  ok : A → Result A
  err : Error → Result A

-- The errors of the two execution repositories, with the messages that they share.
abbrev pub no_execution_row : String → Error
no_execution_row id = store_consistency ("no execution row for execution_id " ⧺ id)

abbrev pub no_artifact_row : String → String → Error
no_artifact_row id blob_key =
    store_consistency ("no artifact row for execution " ⧺ id ⧺ " / blob " ⧺ blob_key ⧺ " to update")

abbrev pub not_all_stored : String → ℕ → Error
not_all_stored id not_stored =
    store_consistency
      ("finalize: execution " ⧺ id ⧺ " still has " ⧺ decimal not_stored ⧺ " artifact(s) not STORED")
