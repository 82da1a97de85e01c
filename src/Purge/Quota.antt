-- ===== src/Purge/Quota.antt =====
-- purge_service.py: the eviction to a quota, on the repository and on its total of bytes.
use generic_ml_cache.Prelude.{
  ℕ, ◌-◌, ◌≤◌, String, ◌≡◌, refl, sym, ◌∙◌, none, List, [], ◌∷◌, arith, leb, leb→le, length,
  if◌then◌else◌, Bool-cases, inl, inr, ap,
}
use generic_ml_cache.Dict.{Dict}
use generic_ml_cache.Repository.{Repository, find_all}
use generic_ml_cache.Repository.Retention.{
  ExecutionSizeEntry, soft_purge_execution, servable_bytes, total_stored_bytes,
  current_executions_with_sizes,
}
use generic_ml_cache.Repository.Consistency.{IsConsistent}
use generic_ml_cache.Repository.Purging.{soft_purge_lem, total_stored_bytes-soft_purge}
use generic_ml_cache.Repository.Sizes.{
  entry_bytes, AreExact, Avoids, AreDistinct, current_executions_with_sizes_lem,
}
use generic_ml_cache.World.{World, Environment, pure}
use generic_ml_cache.World.Runs.{
  Runs, Runs-pure, Runs-gets, Runs-modify, Runs-weaken, Runs-bind, Runs-remove_blob,
}
use generic_ml_cache.Purge.{
  JournalPorts, access_ordering, remove_blobs, soft_purge_key, purge_each, soft_purge_keys,
  evict_to_quota, nothing_purged,
}
use generic_ml_cache.Purge.Eviction.{sorted_entries, keys_to_evict}
use generic_ml_cache.Purge.Eviction.Order.{
  All-sorted_entries, entry_bytes-sorted_entries, AreDistinct-sorted_entries,
}

-- The soft purges of several keys, one after the other.
unfoldable pub soft_purge_all : List String → Repository → Repository
soft_purge_all [] r = r
soft_purge_all (key ∷ keys) r = soft_purge_all keys (soft_purge_execution key r)

-- Purging another key leaves the bytes of these entries as they are.
AreExact-soft_purge :
    (key : String) (r : Repository) (es : List ExecutionSizeEntry)
    → Avoids key es
    → AreExact r.by_key es
    → AreExact (soft_purge_execution key r).by_key es
AreExact-soft_purge key r [] av ex = tt
AreExact-soft_purge key r (e ∷ es) av ex = (
  ex.0
      ∙ ap servable_bytes
          (sym (unfold find_all in (soft_purge_lem key r).2 e.execution_key (λ p. av.0 (sym p)))),
  AreExact-soft_purge key r es av.1 ex.1,
)

-- The loop stops as soon as what is left fits, so what is left fits when it stops.
keys_to_evict_bound :
    (max_bytes : ℕ) (es : List ExecutionSizeEntry) (r : Repository) (running : ℕ)
    → running ≡ total_stored_bytes r
    → AreDistinct es
    → AreExact r.by_key es
    → entry_bytes es ≡ total_stored_bytes r
    → total_stored_bytes (soft_purge_all (keys_to_evict max_bytes running es) r) ≤ max_bytes
unfolding keys_to_evict soft_purge_all
keys_to_evict_bound max_bytes [] r running same distinct exact total = omega arith
keys_to_evict_bound max_bytes (e ∷ es) r running same distinct exact total =
    elim (Bool-cases (leb running max_bytes)) [
      | inl fits ↦ rw fits (omega (arith, leb→le running max_bytes fits))
      | inr over ↦
          let here : e.total_size_bytes ≡ servable_bytes (find_all e.execution_key r) =
            unfold find_all in exact.0 in
          let freed = total_stored_bytes-soft_purge e.execution_key r in
          rw over (
            keys_to_evict_bound max_bytes es (soft_purge_execution e.execution_key r)
              (running - e.total_size_bytes) (omega (arith, freed, here)) distinct.1
              (AreExact-soft_purge e.execution_key r es distinct.0 exact.1)
              (omega (arith, freed, here)))
    ]

module _ (env : Environment) (quiet : (n : ℕ) (key : String) → env.remove_fault n key ≡ none) where
  remove_blobs-Runs :
      (sizes : Dict ℕ) (r : Repository) (w : World)
      → w.repository ≡ r
      → Runs (remove_blobs env sizes) w (λ t w'. w'.repository ≡ r)
  unfolding remove_blobs
  remove_blobs-Runs [] r w e = Runs-pure _ w e
  remove_blobs-Runs ((key, size) ∷ sizes) r w e =
      Runs-bind {P = λ _ w'. w'.repository ≡ r} _ _ w
        (Runs-remove_blob env key w (quiet w.step key) e)
        (λ _ w1 e1.
          Runs-bind _ _ w1 (remove_blobs-Runs sizes r w1 e1) (λ t w2 e2. Runs-pure _ w2 e2))

  soft_purge_key-Runs :
      (key : String) (w : World)
      → Runs
          (soft_purge_key env key)
          w
          (λ t w'. w'.repository ≡ soft_purge_execution key w.repository)
  unfolding soft_purge_key
  soft_purge_key-Runs key w =
      let r = soft_purge_execution key w.repository in
      Runs-bind {P = λ _ w'. w'.repository ≡ w.repository} _ _ w (Runs-gets _ w refl)
        (λ sizes w1 e1.
          Runs-bind {P = λ _ w'. w'.repository ≡ r} _ _ w1
            (Runs-modify _ w1 (ap (soft_purge_execution key) e1))
            (λ _ w2 e2. remove_blobs-Runs sizes r w2 e2))

  purge_each-Runs :
      (keys : List String) (w : World)
      → Runs
          (purge_each env (soft_purge_key env) keys)
          w
          (λ t w'. w'.repository ≡ soft_purge_all keys w.repository)
  unfolding purge_each soft_purge_all
  purge_each-Runs [] w = Runs-pure _ w refl
  purge_each-Runs (key ∷ keys) w = Runs-bind _ _ w (soft_purge_key-Runs key w) (λ t w1 e1.
      Runs-bind _ _ w1 (purge_each-Runs keys w1)
        (λ u w2 e2. Runs-pure _ w2 (e2 ∙ ap (soft_purge_all keys) e1)))

  pub soft_purge_keys-Runs :
      (keys : List String) (w : World)
      → Runs (soft_purge_keys env keys) w (λ report w'.
        (w'.repository ≡ soft_purge_all keys w.repository)
        × (report.executions_removed ≡ length keys))
  unfolding soft_purge_keys
  soft_purge_keys-Runs keys w =
      Runs-bind _ _ w (purge_each-Runs keys w) (λ t w1 e1. Runs-pure _ w1 (e1, refl))

  evicted :
      (ports : JournalPorts) (max_bytes : ℕ) (w : World)
      → IsConsistent w.repository
      → (current : ℕ) (entries : List ExecutionSizeEntry) (w2 : World)
      → current ≡ total_stored_bytes w.repository
      → entries ≡ current_executions_with_sizes w.repository
      → w2.repository ≡ w.repository
      → Runs
          (if leb current max_bytes
            then pure nothing_purged
            else soft_purge_keys env (
                keys_to_evict max_bytes current
                  (sorted_entries ports.parse_epoch (access_ordering ports) entries)))
          w2
          (λ report w'. total_stored_bytes w'.repository ≤ max_bytes)
  evicted ports max_bytes w consistent current entries w2 total all same =
      let order = sorted_entries ports.parse_epoch (access_ordering ports) in
      let (distinct, exact, sum) = current_executions_with_sizes_lem w.repository consistent in
      elim (Bool-cases (leb current max_bytes)) [
        | inl fits ↦ rw fits (
            Runs-pure _ w2
              (omega (arith, leb→le current max_bytes fits, total, ap total_stored_bytes same)))
        | inr over ↦
            rw (over, all)
              (Runs-weaken _ w2
                (λ report w' h.
                  rw (h.0, same)
                    (keys_to_evict_bound max_bytes
                      (order (current_executions_with_sizes w.repository)) w.repository current
                      total (AreDistinct-sorted_entries _ _ _ distinct)
                      (All-sorted_entries _ _ _ _ exact) (entry_bytes-sorted_entries _ _ _ ∙ sum)))
                (soft_purge_keys-Runs _ w2))
      ]

  -- From a consistent repository, with a blob store that can delete, an eviction to quota returns,
  -- and the bytes of the executions that can still be served are within the quota.
  pub evict_to_quota_lem :
      (ports : JournalPorts) (max_bytes : ℕ) (w : World)
      → IsConsistent w.repository
      → Runs
          (evict_to_quota env ports max_bytes)
          w
          (λ report w'. total_stored_bytes w'.repository ≤ max_bytes)
  unfolding evict_to_quota
  evict_to_quota_lem ports max_bytes w consistent =
      Runs-bind {P = λ n w'. (n ≡ total_stored_bytes w.repository) × (w'.repository ≡ w.repository)}
        _ _ w (Runs-gets _ w (refl, refl))
        (λ current w1 e1.
          Runs-bind
            {P = λ es w'.
              (es ≡ current_executions_with_sizes w.repository) × (w'.repository ≡ w.repository)}
            _ _ w1 (Runs-gets _ w1 (ap current_executions_with_sizes e1.1, e1.1))
            (λ entries w2 e2.
              evicted ports max_bytes w consistent current entries w2 e1.0 e2.0 e2.1))
