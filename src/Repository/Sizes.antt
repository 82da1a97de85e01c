-- ===== src/Repository/Sizes.antt =====
-- in_memory_execution_repository.py: the size entries of the current executions.
use generic_ml_cache.Prelude.{
  ℕ, ◌≤◌, String, ◌≡◌, refl, sym, ◌∙◌, ◌≢◌, none, List, [], ◌∷◌, ◌++◌, arith, eq_iff, sum_of,
  sum_of-append, All, All-append, Bool-cases, inl, inr, subst,
}
use generic_ml_cache.Dict.{Dict, lookup, IsDict}
use generic_ml_cache.Domain.{MlExecution}
use generic_ml_cache.Repository.{Repository, is_servable, or_empty}
use generic_ml_cache.Repository.Retention.{
  ExecutionSizeEntry, servable_bytes, total_stored_bytes, size_entries, sizes_in,
  current_executions_with_sizes,
}
use generic_ml_cache.Repository.Tables.{AllHistories}
use generic_ml_cache.Repository.Counting.{servable_count}
use generic_ml_cache.Repository.Consistency.{AtMostOne, IsConsistent}

abbrev pub entry_bytes : List ExecutionSizeEntry → ℕ
entry_bytes = sum_of (λ e. e.total_size_bytes)

-- Every entry has the number of bytes that its key holds in the table.
abbrev pub AreExact : Dict (List MlExecution) → List ExecutionSizeEntry → Type 0
AreExact d = All (λ e. e.total_size_bytes ≡ servable_bytes (or_empty (lookup e.execution_key d)))

abbrev pub Avoids : String → List ExecutionSizeEntry → Type 0
Avoids key = All (λ e. e.execution_key ≢ key)

-- No two entries are of one key.
abbrev pub AreDistinct : List ExecutionSizeEntry → Type 0
AreDistinct [] = Unit
AreDistinct (e ∷ r) = Avoids e.execution_key r × AreDistinct r

size_entries-none :
    (key : String) (h : List MlExecution)
    → servable_count h ≤ 0
    → (size_entries key h ≡ []) × (servable_bytes h ≡ 0)
unfolding servable_count size_entries servable_bytes
size_entries-none key [] p = (refl, refl)
size_entries-none key (e ∷ h) p = ground (arith, size_entries-none key h)

entry_bytes-size_entries :
    (key : String) (h : List MlExecution) → entry_bytes (size_entries key h) ≡ servable_bytes h
unfolding size_entries servable_bytes
entry_bytes-size_entries key [] = refl
entry_bytes-size_entries key (e ∷ h) = ground (arith, entry_bytes-size_entries key h)

size_entries-exact :
    (key : String) (h : List MlExecution)
    → AtMostOne h
    → All
        (λ e. (e.execution_key ≡ key) × (e.total_size_bytes ≡ servable_bytes h))
        (size_entries key h)
      × AreDistinct (size_entries key h)
unfolding servable_count size_entries servable_bytes
size_entries-exact key [] p = (tt, tt)
size_entries-exact key (e ∷ h) p = elim (Bool-cases (is_servable e)) [
  | inl servable ↦
      let (none_left, no_bytes) = size_entries-none key h (ground (arith, servable)) in
      rw (servable, none_left, no_bytes) (((refl, omega arith), tt), (tt, tt))
  | inr unservable ↦ rw unservable (size_entries-exact key h (ground (arith, unservable)))
]

-- Entries of other keys are exact in the longer table too.
AreExact-cons :
    (key : String) (h : List MlExecution) (d : Dict (List MlExecution))
    (es : List ExecutionSizeEntry)
    → Avoids key es
    → AreExact d es
    → AreExact ((key, h) ∷ d) es
unfolding lookup
AreExact-cons key h d [] av ex = tt
AreExact-cons key h d (e ∷ es) av ex =
    (ground (arith, eq_iff key e.execution_key), AreExact-cons key h d es av.1 ex.1)

-- The entries of one key, at the head of the table.
AreExact-head :
    (key : String) (h : List MlExecution) (d : Dict (List MlExecution))
    (es : List ExecutionSizeEntry)
    → All (λ e. (e.execution_key ≡ key) × (e.total_size_bytes ≡ servable_bytes h)) es
    → AreExact ((key, h) ∷ d) es
unfolding lookup
AreExact-head key h d [] all = tt
AreExact-head key h d (e ∷ es) all =
    (ground (arith, eq_iff key e.execution_key), AreExact-head key h d es all.1)

Avoids-of_key :
    (key k : String) (n : ℕ) (es : List ExecutionSizeEntry)
    → k ≢ key
    → All (λ e. (e.execution_key ≡ k) × (e.total_size_bytes ≡ n)) es
    → Avoids key es
Avoids-of_key key k n [] ne all = tt
Avoids-of_key key k n (e ∷ es) ne all =
    ((λ p. ne (sym all.0.0 ∙ p)), Avoids-of_key key k n es ne all.1)

Avoids-sizes_in :
    (key : String) (d : Dict (List MlExecution))
    → AllHistories AtMostOne d
    → lookup key d ≡ none
    → Avoids key (sizes_in d)
unfolding lookup sizes_in
Avoids-sizes_in key [] one p = tt
Avoids-sizes_in key ((k, h) ∷ d) one p =
    All-append (λ e. e.execution_key ≢ key) (size_entries k h) (sizes_in d)
      (Avoids-of_key key k (servable_bytes h) (size_entries k h) (ground (arith, eq_iff k key))
        (size_entries-exact k h one.0).0)
      (Avoids-sizes_in key d one.1 (ground arith))

AreDistinct-append :
    (key : String) (n : ℕ) (xs ys : List ExecutionSizeEntry)
    → All (λ e. (e.execution_key ≡ key) × (e.total_size_bytes ≡ n)) xs
    → AreDistinct xs
    → Avoids key ys
    → AreDistinct ys
    → AreDistinct (xs ++ ys)
AreDistinct-append key n [] ys of_key dx av dy = dy
AreDistinct-append key n (x ∷ xs) ys of_key dx av dy = (
  All-append (λ e. e.execution_key ≢ x.execution_key) xs ys dx.0
      (subst (λ k. Avoids k ys) (sym of_key.0.0) av),
  AreDistinct-append key n xs ys of_key.1 dx.1 av dy,
)

-- The entries of a consistent table: of distinct keys, exact, and together all stored bytes.
sizes_in_lem :
    (d : Dict (List MlExecution))
    → IsDict d
    → AllHistories AtMostOne d
    → AreDistinct (sizes_in d)
      × AreExact d (sizes_in d)
      × (entry_bytes (sizes_in d) ≡ sum_of (λ entry. servable_bytes entry.1) d)
unfolding sizes_in
sizes_in_lem [] dict one = (tt, tt, refl)
sizes_in_lem ((key, h) ∷ d) dict one =
    let (distinct, exact, total) = sizes_in_lem d dict.1 one.1 in
    let (of_key, alone) = size_entries-exact key h one.0 in
    let avoids = Avoids-sizes_in key d one.1 dict.0 in
    (
      AreDistinct-append key (servable_bytes h) (size_entries key h) (sizes_in d) of_key alone
          avoids distinct,
      All-append _ (size_entries key h) (sizes_in d) (AreExact-head key h d _ of_key)
          (AreExact-cons key h d _ avoids exact),
      omega (
        arith,
        sum_of-append {0} (λ (e : ExecutionSizeEntry). e.total_size_bytes) (size_entries key h)
            (sizes_in d),
        entry_bytes-size_entries key h,
        total,
      ),
    )

-- In a consistent repository the size entries are of distinct keys, each has exactly the bytes that
-- its key holds, and together they are all stored bytes.
pub current_executions_with_sizes_lem :
    (r : Repository)
    → IsConsistent r
    → AreDistinct (current_executions_with_sizes r)
      × AreExact r.by_key (current_executions_with_sizes r)
      × (entry_bytes (current_executions_with_sizes r) ≡ total_stored_bytes r)
unfolding current_executions_with_sizes total_stored_bytes
current_executions_with_sizes_lem r c = sizes_in_lem r.by_key c.distinct c.unique
