-- ===== src/Purge/Eviction/Order.antt =====
-- purge_service.py: the order in which an eviction visits the entries.
use mathlib.Core.List.{Perm}
use mathlib.Core.List.Perm
use generic_ml_cache.Prelude.{
  ℕ, ◌+◌, ◌-◌, ◌≤◌, ◌<◌, String, ◌≡◌, refl, sym, ap, subst, ◌≢◌, false, Option, none, some, ◌++◌,
  map, List, [], ◌∷◌, arith, leb, leb→le, leb→lt, All, Bool-cases, inl, inr,
}
use generic_ml_cache.Dict.{Dict, lookup}
use generic_ml_cache.Repository.Retention.{ExecutionSizeEntry}
use generic_ml_cache.Repository.Sizes.{entry_bytes, Avoids, AreDistinct}
use generic_ml_cache.Purge.Eviction.{lru_epoch, insert_entry, sorted_entries, keys_to_evict}

module _ (parse_epoch : String → Option ℕ) (last_access : Dict ℕ) where
  abbrev insert_ : ExecutionSizeEntry → List ExecutionSizeEntry → List ExecutionSizeEntry
  insert_ = insert_entry parse_epoch last_access

  All-insert_entry :
      (P : ExecutionSizeEntry → Type 0) (e : ExecutionSizeEntry) (es : List ExecutionSizeEntry)
      → P e
      → All P es
      → All P (insert_ e es)
  unfolding insert_entry
  All-insert_entry P e [] p all = (p, tt)
  All-insert_entry P e (f ∷ es) p all =
      elim (Bool-cases
        (leb (lru_epoch parse_epoch last_access e) (lru_epoch parse_epoch last_access f))) [
          | inl before ↦ rw before (p, all)
          | inr after ↦ rw after (all.0, All-insert_entry P e es p all.1)
        ]

  pub All-sorted_entries :
      (P : ExecutionSizeEntry → Type 0) (es : List ExecutionSizeEntry)
      → All P es
      → All P (sorted_entries parse_epoch last_access es)
  unfolding sorted_entries
  All-sorted_entries P [] all = tt
  All-sorted_entries P (e ∷ es) all =
      All-insert_entry P e (sorted_entries parse_epoch last_access es) all.0
        (All-sorted_entries P es all.1)

  entry_bytes-insert_entry :
      (e : ExecutionSizeEntry) (es : List ExecutionSizeEntry)
      → entry_bytes (insert_ e es) ≡ e.total_size_bytes + entry_bytes es
  unfolding insert_entry
  entry_bytes-insert_entry e [] = refl
  entry_bytes-insert_entry e (f ∷ es) = ground (arith, entry_bytes-insert_entry e es)

  pub entry_bytes-sorted_entries :
      (es : List ExecutionSizeEntry)
      → entry_bytes (sorted_entries parse_epoch last_access es) ≡ entry_bytes es
  unfolding sorted_entries
  entry_bytes-sorted_entries [] = refl
  entry_bytes-sorted_entries (e ∷ es) = omega (
    arith,
    entry_bytes-insert_entry e (sorted_entries parse_epoch last_access es),
    entry_bytes-sorted_entries es,
  )

  AreDistinct-insert_entry :
      (e : ExecutionSizeEntry) (es : List ExecutionSizeEntry)
      → Avoids e.execution_key es
      → AreDistinct es
      → AreDistinct (insert_ e es)
  unfolding insert_entry
  AreDistinct-insert_entry e [] av d = (tt, tt)
  AreDistinct-insert_entry e (f ∷ es) av d =
      elim (Bool-cases
        (leb (lru_epoch parse_epoch last_access e) (lru_epoch parse_epoch last_access f))) [
          | inl before ↦ rw before (av, d)
          | inr after ↦ rw after (
            All-insert_entry (λ x. x.execution_key ≢ f.execution_key) e es (λ p. av.0 (sym p)) d.0,
            AreDistinct-insert_entry e es av.1 d.1,
          )
        ]

  pub AreDistinct-sorted_entries :
      (es : List ExecutionSizeEntry)
      → AreDistinct es
      → AreDistinct (sorted_entries parse_epoch last_access es)
  unfolding sorted_entries
  AreDistinct-sorted_entries [] d = tt
  AreDistinct-sorted_entries (e ∷ es) d =
      AreDistinct-insert_entry e (sorted_entries parse_epoch last_access es)
        (All-sorted_entries (λ x. x.execution_key ≢ e.execution_key) es d.0)
        (AreDistinct-sorted_entries es d.1)

  -- The last use of an entry: its last access, else its creation, else the beginning of time.
  pub data LastUse (e : ExecutionSizeEntry) : ℕ → Type 0 where
    accessed : (t : ℕ) → lookup e.execution_key last_access ≡ some t → LastUse e t
    created :
        (t : ℕ)
        → lookup e.execution_key last_access ≡ none
        → parse_epoch e.created_at ≡ some t
        → LastUse e t
    unknown :
        lookup e.execution_key last_access ≡ none → parse_epoch e.created_at ≡ none → LastUse e 0

  LastUse-lru_epoch :
      (e : ExecutionSizeEntry) (t : ℕ) → LastUse e t → lru_epoch parse_epoch last_access e ≡ t
  unfolding lru_epoch
  LastUse-lru_epoch e _ (accessed t p) = rw p refl
  LastUse-lru_epoch e _ (created t p q) = rw (p, q) refl
  LastUse-lru_epoch e _ (unknown p q) = rw (p, q) refl

  -- In the order of the keys, which `lru_epoch` gives.
  abbrev IsOrdered : List ExecutionSizeEntry → Type 0
  IsOrdered [] = Unit
  IsOrdered (e ∷ es) =
      All (λ f. lru_epoch parse_epoch last_access e ≤ lru_epoch parse_epoch last_access f) es
      × IsOrdered es

  All-older :
      (n m : ℕ) (es : List ExecutionSizeEntry)
      → n ≤ m
      → All (λ f. m ≤ lru_epoch parse_epoch last_access f) es
      → All (λ f. n ≤ lru_epoch parse_epoch last_access f) es
  All-older n m [] p all = tt
  All-older n m (f ∷ es) p all = (omega arith, All-older n m es p all.1)

  insert_entry-IsOrdered :
      (e : ExecutionSizeEntry) (es : List ExecutionSizeEntry)
      → IsOrdered es
      → IsOrdered (insert_ e es)
  unfolding insert_entry
  insert_entry-IsOrdered e [] o = (tt, tt)
  insert_entry-IsOrdered e (f ∷ es) o =
      let le = lru_epoch parse_epoch last_access e in
      let lf = lru_epoch parse_epoch last_access f in
      elim (Bool-cases (leb le lf)) [
        | inl before ↦
            rw before ((leb→le le lf before, All-older le lf es (leb→le le lf before) o.0), o)
        | inr after ↦ rw after (
          All-insert_entry (λ x. lf ≤ lru_epoch parse_epoch last_access x) e es
              (omega (arith, leb→lt le lf after)) o.0,
          insert_entry-IsOrdered e es o.1,
        )
      ]

  sorted_entries-IsOrdered :
      (es : List ExecutionSizeEntry) → IsOrdered (sorted_entries parse_epoch last_access es)
  unfolding sorted_entries
  sorted_entries-IsOrdered [] = tt
  sorted_entries-IsOrdered (e ∷ es) =
      insert_entry-IsOrdered e (sorted_entries parse_epoch last_access es)
        (sorted_entries-IsOrdered es)

  insert_entry-Perm :
      (e : ExecutionSizeEntry) (es : List ExecutionSizeEntry) → Perm (insert_ e es) (e ∷ es)
  unfolding insert_entry
  insert_entry-Perm e [] = Perm.refl (e ∷ [])
  insert_entry-Perm e (f ∷ es) =
      elim (Bool-cases
        (leb (lru_epoch parse_epoch last_access e) (lru_epoch parse_epoch last_access f))) [
          | inl before ↦ rw before (Perm.refl (e ∷ f ∷ es))
          | inr after ↦
              rw after (Perm.trans (Perm.cons f (insert_entry-Perm e es)) (Perm.swap e f es))
        ]

  sorted_entries-Perm :
      (es : List ExecutionSizeEntry) → Perm (sorted_entries parse_epoch last_access es) es
  unfolding sorted_entries
  sorted_entries-Perm [] = Perm.refl []
  sorted_entries-Perm (e ∷ es) =
      Perm.trans (insert_entry-Perm e (sorted_entries parse_epoch last_access es))
        (Perm.cons e (sorted_entries-Perm es))

  -- No entry of the first list was used after one of the second.
  abbrev pub AreOlder : List ExecutionSizeEntry → List ExecutionSizeEntry → Type 0
  AreOlder es fs = All (λ e. All (λ f. (t u : ℕ) → LastUse e t → LastUse f u → t ≤ u) fs) es

  AreOlder-first :
      (e : ExecutionSizeEntry) (fs : List ExecutionSizeEntry)
      → All (λ f. lru_epoch parse_epoch last_access e ≤ lru_epoch parse_epoch last_access f) fs
      → All (λ f. (t u : ℕ) → LastUse e t → LastUse f u → t ≤ u) fs
  AreOlder-first e [] h = tt
  AreOlder-first e (f ∷ fs) h = (
    λ t u p q. omega (arith, h.0, LastUse-lru_epoch e t p, LastUse-lru_epoch f u q),
    AreOlder-first e fs h.1,
  )

  All-second :
      (P : ExecutionSizeEntry → Type 0) (es fs : List ExecutionSizeEntry)
      → All P (es ++ fs)
      → All P fs
  All-second P [] fs h = h
  All-second P (e ∷ es) fs h = All-second P es fs h.1

  IsOrdered-AreOlder : (es fs : List ExecutionSizeEntry) → IsOrdered (es ++ fs) → AreOlder es fs
  IsOrdered-AreOlder [] fs h = tt
  IsOrdered-AreOlder (e ∷ es) fs h =
      (AreOlder-first e fs (All-second _ es fs h.0), IsOrdered-AreOlder es fs h.1)

  abbrev tail : List ExecutionSizeEntry → List ExecutionSizeEntry
  tail [] = []
  tail (x ∷ xs) = xs

  abbrev first_or : ExecutionSizeEntry → List ExecutionSizeEntry → ExecutionSizeEntry
  first_or e [] = e
  first_or e (x ∷ xs) = x

  no_entry :
      (before after : List ExecutionSizeEntry) (e : ExecutionSizeEntry)
      → [] ≡ before ++ e ∷ after
      → ⊥
  no_entry [] after e p = ground arith
  no_entry (x ∷ before) after e p = ground arith

  still_over :
      (max_bytes running : ℕ) (x : ExecutionSizeEntry) (es : List ExecutionSizeEntry)
      → leb running max_bytes ≡ false
      → (evicted : List ExecutionSizeEntry)
      → ((before after : List ExecutionSizeEntry) (e : ExecutionSizeEntry)
          → evicted ≡ before ++ e ∷ after
          → max_bytes < running - x.total_size_bytes - entry_bytes before)
      → (before after : List ExecutionSizeEntry) (e : ExecutionSizeEntry)
      → x ∷ evicted ≡ before ++ e ∷ after
      → max_bytes < running - entry_bytes before
  still_over max_bytes running x es over evicted rest [] after e p =
      omega (arith, leb→lt running max_bytes over)
  still_over max_bytes running x es over evicted rest (y ∷ before) after e p =
      omega (arith, rest before after e (ap tail p), ap (λ l. (first_or x l).total_size_bytes) p)

  -- What the loop picks of a list that is in order.
  record Picked (max_bytes running : ℕ) (es : List ExecutionSizeEntry) : Type 0 where
    pub evicted : List ExecutionSizeEntry
    pub kept : List ExecutionSizeEntry
    pub parts : evicted ++ kept ≡ es
    pub keys : keys_to_evict max_bytes running es ≡ map (λ e. e.execution_key) evicted
    pub needed :
        (before after : List ExecutionSizeEntry) (e : ExecutionSizeEntry)
        → evicted ≡ before ++ e ∷ after
        → max_bytes < running - entry_bytes before

  picks : (max_bytes running : ℕ) (es : List ExecutionSizeEntry) → Picked max_bytes running es
  unfolding keys_to_evict
  picks max_bytes running [] = record {
    evicted = [];
    kept = [];
    parts = refl;
    keys = refl;
    needed = λ before after e p. elim (no_entry before after e p) [ ];
  }
  picks max_bytes running (x ∷ es) =
      let rest = picks max_bytes (running - x.total_size_bytes) es in
      elim (Bool-cases (leb running max_bytes)) [
        | inl done ↦ record {
          evicted = [];
          kept = x ∷ es;
          parts = refl;
          keys = rw done refl;
          needed = λ before after e p. elim (no_entry before after e p) [ ];
        }
        | inr over ↦ record {
          evicted = x ∷ rest.evicted;
          kept = rest.kept;
          parts = ap (λ ys. x ∷ ys) rest.parts;
          keys = rw (over, rest.keys) refl;
          needed = still_over max_bytes running x es over rest.evicted rest.needed;
        }
      ]

  -- An eviction to a quota goes by last use, the last access of an entry or else its creation: it
  -- picks a part of the entries, none of which was used after one that it keeps, and picks an entry
  -- only where the bytes that are left before it still exceed the quota.
  pub keys_to_evict-AreOlder :
      (max_bytes running : ℕ) (es : List ExecutionSizeEntry)
      → (evicted kept : List ExecutionSizeEntry) × Perm (evicted ++ kept) es
        × (keys_to_evict max_bytes running (sorted_entries parse_epoch last_access es)
            ≡ map (λ e. e.execution_key) evicted)
        × AreOlder evicted kept
        × ((before after : List ExecutionSizeEntry) (e : ExecutionSizeEntry)
            → evicted ≡ before ++ e ∷ after
            → max_bytes < running - entry_bytes before)
  keys_to_evict-AreOlder max_bytes running es =
      let p = picks max_bytes running (sorted_entries parse_epoch last_access es) in
      (
        p.evicted,
        p.kept,
        subst (λ xs. Perm xs es) (sym p.parts) (sorted_entries-Perm es),
        p.keys,
        IsOrdered-AreOlder p.evicted p.kept
            (subst IsOrdered (sym p.parts) (sorted_entries-IsOrdered es)),
        p.needed,
      )
