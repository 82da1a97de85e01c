-- ===== src/Disk/Trees.antt =====
-- Deleting a directory file by file (`shutil.rmtree` in packages/adapters'
-- adapter/outbound/crypto/store_encryptor.py): a property that each removal keeps holds throughout.
use generic_ml_cache.Prelude.{String, ◌≡◌, refl, Option, none, some}
use generic_ml_cache.Dict.{Dict, erase}
use generic_ml_cache.Errors.{Error}
use generic_ml_cache.Domain.{Bytes}
use generic_ml_cache.Disk.{Disk, entries, unlinked, remove_staging_tree}
use generic_ml_cache.Disk.Crash.{
  Guarantees, Guarantees-gets, Guarantees-step, Guarantees-bind, Guarantees-for_each,
}

pub entries-unlinked :
    (name : String) (o : Option (Dict Bytes)) → entries (unlinked name o) ≡ erase name (entries o)
unfolding erase
entries-unlinked name none = refl
entries-unlinked name (some files) = refl

module _ {E : Error → Disk → Type 0} {C : Disk → Type 0} (P : Disk → Type 0) where
  pub Guarantees-remove_staging_tree :
      ((d : Disk) → P d → C d)
      → ((d : Disk) (name : String) → P d → P (record d { staging = unlinked name d.staging }))
      → ((d : Disk) → P d → P (record d { staging = none }))
      → Guarantees P remove_staging_tree (λ _ d. P d × (d.staging ≡ none)) E C
  unfolding remove_staging_tree
  Guarantees-remove_staging_tree imp keep drop =
      Guarantees-bind {R = λ _. P} _ _ (Guarantees-gets _ (λ d p. p)) (λ names.
        Guarantees-bind {R = λ _. P} _ _
          (Guarantees-for_each (λ _. P) names _
            (λ x rest.
              Guarantees-step _ (λ d p.
                (imp d p, (record d { staging = unlinked x d.staging }, refl, keep d x p)))))
          (λ _.
            Guarantees-step _
              (λ d p. (imp d p, (record d { staging = none }, refl, (drop d p, refl))))))
