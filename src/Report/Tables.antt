-- ===== src/Report/Tables.antt =====
-- The dicts of the report's loop, as tables over any type of keys: setdefault with an update, and
-- the items in order.
pub mod Sums
use generic_ml_cache.Prelude.{
  ℕ, zero, suc, String, Bool, true, false, ◌&&◌, Option, none, some, List, [], ◌∷◌, ◌==◌,
  if◌then◌else◌,
}
use generic_ml_cache.Text.{text_leb}

-- `counts = table.setdefault(key, default)`, followed by the changes `f` to counts.
module _ {K V : Type 0} (same : K → K → Bool) (key : K) (default : V) (f : V → V) where
  unfoldable pub change_default : List (K × V) → List (K × V)
  change_default [] = (key, f default) ∷ []
  change_default ((j, v) ∷ table) =
      if same j key then (j, f v) ∷ table else (j, v) ∷ change_default table

-- sorted(table.items()), whose keys are distinct
module _ {K V : Type 0} (before : K → K → Bool) where
  unfoldable pub insert_item : K × V → List (K × V) → List (K × V)
  insert_item p [] = p ∷ []
  insert_item p (q ∷ table) = if before p.0 q.0 then p ∷ q ∷ table else q ∷ insert_item p table

  unfoldable pub sorted_table : List (K × V) → List (K × V)
  unfolding insert_item
  sorted_table [] = []
  sorted_table (p ∷ table) = insert_item p (sorted_table table)

abbrev pub same_axis : String × String → String × String → Bool
same_axis a b = (a.0 == b.0) && (a.1 == b.1)

abbrev pub axis_before : String × String → String × String → Bool
axis_before a b = if a.0 == b.0 then text_leb a.1 b.1 else text_leb a.0 b.0
