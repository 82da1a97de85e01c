-- ===== src/Report/Tables/Sums.antt =====
-- Sums over the values of a table.
use generic_ml_cache.Prelude.{ℕ, ◌+◌, ◌≡◌, refl, Bool, List, [], ◌∷◌, map, arith, sum_of}
use generic_ml_cache.Report.Tables.{change_default, insert_item, sorted_table}

module _ {K V : Type 0} (g : V → ℕ) where
  abbrev pub table_sum : List (K × V) → ℕ
  table_sum = sum_of (λ p. g p.1)

  pub sum-change_default :
      (same : K → K → Bool) (key : K) (default : V) (f : V → V) (n : ℕ) (table : List (K × V))
      → ((v : V) → g (f v) ≡ n + g v)
      → g default ≡ 0
      → table_sum (change_default same key default f table) ≡ n + table_sum table
  unfolding change_default
  sum-change_default same key default f n [] h z = omega (arith, h default, z)
  sum-change_default same key default f n ((j, v) ∷ table) h z =
      ground (arith, h v, sum-change_default same key default f n table h z)

  sum-insert_item :
      (before : K → K → Bool) (p : K × V) (table : List (K × V))
      → table_sum (insert_item before p table) ≡ g p.1 + table_sum table
  unfolding insert_item
  sum-insert_item before p [] = refl
  sum-insert_item before p (q ∷ table) = ground (arith, sum-insert_item before p table)

  pub sum-sorted_table :
      (before : K → K → Bool) (table : List (K × V))
      → table_sum (sorted_table before table) ≡ table_sum table
  unfolding sorted_table
  sum-sorted_table before [] = refl
  sum-sorted_table before (p ∷ table) =
      omega
        (arith, sum-insert_item before p (sorted_table before table), sum-sorted_table before table)

pub sum-map :
    {A B : Type 0} (f : A → B) (g : B → ℕ) (xs : List A)
    → sum_of g (map f xs) ≡ sum_of (λ x. g (f x)) xs
sum-map f g [] = refl
sum-map f g (x ∷ xs) = omega (arith, sum-map f g xs)
