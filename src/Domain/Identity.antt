-- ===== src/Domain/Identity.antt =====
-- The four call identities (domain/model/identity) and the key that each derives. A frozenset of
-- texts is a list without duplicates; only its sorted form enters a key.
pub mod Collision
use Prim.Native.String.{◌++◌ as ◌⧺◌}
use generic_ml_cache.Prelude.{
  ℕ, String, Bool, true, false, Option, none, some, List, [], ◌∷◌, ◌==◌, any, if◌then◌else◌,
}
use generic_ml_cache.Dict.{Dict, insert}
use generic_ml_cache.Text.{join, sorted}
use generic_ml_cache.Checksum.{
  sorted_items, checksum_input_data, text_checksum, fingerprint_arguments,
}
use generic_ml_cache.Domain.Kind.{ExecutionKind, kind_value}

pub record ManagedCallIdentity : Type 0 where
  pub client : String
  pub model : String
  pub effort : String
  pub context_fingerprint : String
  pub prompt_fingerprint : String
  pub input_file_fingerprints : Dict String
  pub client_args_fingerprint : Option String
  pub system_fingerprint : Option String
  pub grants : List String
  pub allow_paths : List String

pub record PassthroughCallIdentity : Type 0 where
  pub client : String
  pub native_args_fingerprint : String

pub record ApiCallIdentity : Type 0 where
  pub provider : String
  pub model : String
  pub context_fingerprint : String
  pub prompt_fingerprint : String
  pub system_fingerprint : Option String
  pub effort : String

pub record ApiPassthroughCallIdentity : Type 0 where
  pub client : String
  pub body_fingerprint : String

pub data CallIdentity : Type 0 where
  managed : ManagedCallIdentity → CallIdentity
  passthrough : PassthroughCallIdentity → CallIdentity
  api : ApiCallIdentity → CallIdentity
  api_passthrough : ApiPassthroughCallIdentity → CallIdentity

-- `if value:` on an optional text: `None` and the empty text are false.
abbrev pub truthy : Option String → Option String
truthy none = none
truthy (some text) = if text == "" then none else some text

-- `if items:`
abbrev pub is_empty : List String → Bool
is_empty [] = true
is_empty (x ∷ xs) = false

-- frozenset(items)
unfoldable pub frozenset : List String → List String
frozenset [] = []
frozenset (x ∷ xs) = let rest = frozenset xs in if any (λ y. y == x) rest then rest else x ∷ rest

put_optional : String → Option String → Dict String → Dict String
put_optional key none data_ = data_
put_optional key (some value) data_ = insert key value data_

put_files : Dict String → Dict String → Dict String
put_files [] key_data = key_data
put_files ((path, fingerprint) ∷ files) key_data =
    put_files files (insert ("file:" ⧺ path) fingerprint key_data)

put_args : Option String → Dict String → Dict String
put_args none key_data = key_data
put_args (some fingerprint) key_data = insert ("args:" ⧺ fingerprint) fingerprint key_data

put_set : String → List String → Dict String → Dict String
put_set key items key_data =
    if is_empty items then key_data else insert key (join "," (sorted (λ t. t) items)) key_data

-- The `key_data` of ManagedCallIdentity.generate_key.
unfoldable pub managed_key_data : ManagedCallIdentity → Dict String
unfolding put_optional put_files put_args put_set kind_value insert sorted_items
managed_key_data i =
    let base =
      ("kind", kind_value ExecutionKind.local_managed)
      ∷ ("client", i.client)
      ∷ ("model", i.model)
      ∷ ("effort", i.effort)
      ∷ ("context", i.context_fingerprint)
      ∷ ("prompt", i.prompt_fingerprint)
      ∷ [] in
    let with_system = put_optional "system" (truthy i.system_fingerprint) base in
    let with_files = put_files (sorted_items i.input_file_fingerprints) with_system in
    let with_args = put_args i.client_args_fingerprint with_files in
    let with_grants = put_set "grants" i.grants with_args in
    put_set "allow_paths" i.allow_paths with_grants

unfoldable pub passthrough_key_data : PassthroughCallIdentity → Dict String
unfolding kind_value
passthrough_key_data i =
    ("kind", kind_value ExecutionKind.local_passthrough)
    ∷ ("client", i.client)
    ∷ ("args", i.native_args_fingerprint)
    ∷ []

unfoldable pub api_key_data : ApiCallIdentity → Dict String
unfolding put_optional kind_value insert
api_key_data i = put_optional "system" (truthy i.system_fingerprint) (
    ("kind", kind_value ExecutionKind.api)
    ∷ ("provider", i.provider)
    ∷ ("model", i.model)
    ∷ ("context", i.context_fingerprint)
    ∷ ("prompt", i.prompt_fingerprint)
    ∷ ("effort", i.effort)
    ∷ [])

unfoldable pub api_passthrough_key_data : ApiPassthroughCallIdentity → Dict String
unfolding kind_value
api_passthrough_key_data i =
    ("kind", kind_value ExecutionKind.api_passthrough)
    ∷ ("client", i.client)
    ∷ ("body", i.body_fingerprint)
    ∷ []

unfoldable pub key_data : CallIdentity → Dict String
unfolding managed_key_data passthrough_key_data api_key_data api_passthrough_key_data
key_data (managed i) = managed_key_data i
key_data (passthrough i) = passthrough_key_data i
key_data (api i) = api_key_data i
key_data (api_passthrough i) = api_passthrough_key_data i

unfoldable pub summary_client : CallIdentity → String
summary_client (managed i) = i.client
summary_client (passthrough i) = i.client
summary_client (api i) = i.provider
summary_client (api_passthrough i) = i.client

unfoldable pub summary_model : CallIdentity → String
summary_model (managed i) = i.model
summary_model (passthrough i) = ""
summary_model (api i) = i.model
summary_model (api_passthrough i) = ""

-- The fields of a command that determine its key (KeyedCallInputs).
pub record KeyedCallInputs : Type 0 where
  pub client : String
  pub model : String
  pub effort : String
  pub context : String
  pub prompt : String
  pub user_system_prompt : Option String
  pub input_file_paths : List String
  pub allow_paths : List String
  pub client_args : List String
  pub grants : List String

module _ (sha256 : List ℕ → String) where
  unfoldable pub generate_key : CallIdentity → String
  unfolding key_data
  generate_key identity = checksum_input_data sha256 (key_data identity)

  unfoldable pub prompt_checksum : Option String → Option String
  prompt_checksum none = none
  prompt_checksum (some text) = some (text_checksum sha256 text)

  -- ManagedCallIdentity.from_keyed_inputs
  unfoldable pub from_keyed_inputs : KeyedCallInputs → Dict String → ManagedCallIdentity
  unfolding prompt_checksum
  from_keyed_inputs k files = record {
    client = k.client;
    model = k.model;
    effort = k.effort;
    context_fingerprint = text_checksum sha256 k.context;
    prompt_fingerprint = text_checksum sha256 k.prompt;
    input_file_fingerprints = files;
    client_args_fingerprint =
        if is_empty k.client_args then none else some (fingerprint_arguments sha256 k.client_args);
    system_fingerprint = prompt_checksum (truthy k.user_system_prompt);
    grants = frozenset k.grants;
    allow_paths = frozenset k.allow_paths;
  }
