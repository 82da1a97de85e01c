-- ===== src/Domain/Identity/Collision.antt =====
-- managed_call_identity.py: the sets of folders and of grants as they enter a key.
use generic_ml_cache.Prelude.{ℕ, String, ◌≡◌, refl, List, [], ◌∷◌}
use generic_ml_cache.Dict.{Dict}
use generic_ml_cache.Text.{join, sorted}
use generic_ml_cache.Domain.Identity.{
  ManagedCallIdentity, managed, put_set, managed_key_data, key_data, generate_key,
}

-- The one text that stands for a set of texts in the key.
abbrev pub joined : List String → String
joined items = join "," (sorted (λ t. t) items)

put_set-joined :
    (key item : String) (items : List String) (d : Dict String)
    → put_set key (joined (item ∷ items) ∷ []) d ≡ put_set key (item ∷ items) d
unfolding put_set sorted join
put_set-joined key item items d = refl

-- For every managed call with some folders allowed, the call that allows only the folder named by
-- their names in order, with commas between, has the same key.
pub generate_key-joined :
    (sha256 : List ℕ → String) (i : ManagedCallIdentity) (path : String) (paths : List String)
    → generate_key sha256 (managed (record i { allow_paths = joined (path ∷ paths) ∷ [] }))
      ≡ generate_key sha256 (managed (record i { allow_paths = path ∷ paths }))
unfolding generate_key key_data managed_key_data
generate_key-joined sha256 i path paths = rw (put_set-joined "allow_paths" path paths _) refl
