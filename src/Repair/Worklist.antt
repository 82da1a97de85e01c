-- ===== src/Repair/Worklist.antt =====
-- repair_store_service.py: the runs of the worklist, their keys, and the artifacts that their blob
-- keys name.
use generic_ml_cache.Prelude.{
  String, ◌≡◌, ◌≢◌, refl, Option, none, some, ◌∙◌, ap, true, false, ◌||◌, not, List, [], ◌∷◌, ◌++◌,
  map, any, arith, ◌==◌, eq_iff, eq_refl, if◌then◌else◌, All, Bool-cases, inl, inr,
}
use generic_ml_cache.Dict.{Dict, lookup, IsDict}
use generic_ml_cache.Domain.{Bytes, Artifact, MlExecution, is_stored}
use generic_ml_cache.Repository.Annotations.{
  UnpersistedRun, contains, unresolved_keys, last, with_keys, awaiting, runs_in,
}
use generic_ml_cache.Repair.Reconciling.{present, key_status, key_decision, all_present, AreKeys}

abbrev add_key : Artifact → List String → List String
add_key a seen =
    if is_stored a.status || contains a.blob_key seen then seen else seen ++ a.blob_key ∷ []

contains-append :
    (k : String) (xs ys : List String) → contains k xs ≡ true → contains k (xs ++ ys) ≡ true
unfolding contains
contains-append k [] ys p = ground arith
contains-append k (x ∷ xs) ys p = ground (arith, contains-append k xs ys)

contains-last : (k : String) (xs : List String) → contains k (xs ++ k ∷ []) ≡ true
unfolding contains
contains-last k [] = ground (arith, eq_refl k)
contains-last k (x ∷ xs) = ground (arith, contains-last k xs)

contains-add_key :
    (k : String) (a : Artifact) (seen : List String)
    → contains k seen ≡ true
    → contains k (add_key a seen) ≡ true
contains-add_key k a seen p = elim (Bool-cases (is_stored a.status || contains a.blob_key seen)) [
  | inl e ↦ rw e p
  | inr e ↦ rw e (contains-append k seen (a.blob_key ∷ []) p)
]

contains-unresolved_keys :
    (k : String) (as_ : List Artifact) (seen : List String)
    → contains k seen ≡ true
    → contains k (unresolved_keys as_ seen) ≡ true
unfolding unresolved_keys
contains-unresolved_keys k [] seen p = p
contains-unresolved_keys k (a ∷ as_) seen p =
    contains-unresolved_keys k as_ (add_key a seen) (contains-add_key k a seen p)

-- An artifact that is not stored has its key among the unresolved ones.
unresolved_keys-cover :
    (as_ : List Artifact) (seen : List String)
    → All (λ a. is_stored a.status || contains a.blob_key (unresolved_keys as_ seen) ≡ true) as_
unfolding unresolved_keys
unresolved_keys-cover [] seen = tt
unresolved_keys-cover (a ∷ as_) seen = (
  elim (Bool-cases (is_stored a.status)) [
    | inl e ↦ rw e refl
    | inr e ↦ elim (Bool-cases (contains a.blob_key seen)) [
      | inl k ↦ rw (e, k) (contains-unresolved_keys a.blob_key as_ seen k)
      | inr k ↦
          rw (e, k)
            (contains-unresolved_keys a.blob_key as_ (seen ++ a.blob_key ∷ [])
              (contains-last a.blob_key seen))
    ]
  ],
  unresolved_keys-cover as_ (add_key a seen),
)

All-append :
    (P : String → Type 0) (xs : List String) (y : String) → All P xs → P y → All P (xs ++ y ∷ [])
All-append P [] y h p = (p, tt)
All-append P (x ∷ xs) y h p = (h.0, All-append P xs y h.1 p)

unresolved_keys-All :
    (P : String → Type 0) (as_ : List Artifact) (seen : List String)
    → All P seen
    → All (λ a. P a.blob_key) as_
    → All P (unresolved_keys as_ seen)
unfolding unresolved_keys
unresolved_keys-All P [] seen h p = h
unresolved_keys-All P (a ∷ as_) seen h p =
    elim (Bool-cases (is_stored a.status || contains a.blob_key seen)) [
      | inl e ↦ rw e (unresolved_keys-All P as_ seen h p.1)
      | inr e ↦
          rw e (unresolved_keys-All P as_ (seen ++ a.blob_key ∷ []) (All-append P seen _ h p.0) p.1)
    ]

here_or_later :
    (a : Artifact) (as_ bs : List Artifact)
    → All (λ b. any (λ c. c.blob_key == b.blob_key) as_ ≡ true) bs
    → All (λ b. any (λ c. c.blob_key == b.blob_key) (a ∷ as_) ≡ true) bs
here_or_later a as_ [] h = tt
here_or_later a as_ (b ∷ bs) h = (ground (arith, h.0), here_or_later a as_ bs h.1)

has_own_key : (as_ : List Artifact) → All (λ b. any (λ c. c.blob_key == b.blob_key) as_ ≡ true) as_
has_own_key [] = tt
has_own_key (a ∷ as_) =
    (ground (arith, eq_refl a.blob_key), here_or_later a as_ as_ (has_own_key as_))

pub unresolved_keys-AreKeys : (e : MlExecution) → AreKeys (unresolved_keys e.artifacts []) e
unresolved_keys-AreKeys e = unresolved_keys-All _ e.artifacts [] tt (has_own_key e.artifacts)

present-contained :
    (blobs : Dict Bytes) (k : String) (keys : List String)
    → all_present blobs keys ≡ true
    → contains k keys ≡ true
    → present blobs k ≡ true
unfolding contains
present-contained blobs k [] p q = ground arith
present-contained blobs k (x ∷ keys) p q =
    ground (arith, eq_iff x k, present-contained blobs k keys)

any-key_status :
    (as_ : List Artifact)
    → any (λ a. not (is_stored a.status)) as_ ≡ any (λ p. not (is_stored p.1)) (map key_status as_)
any-key_status [] = refl
any-key_status (a ∷ as_) = ground (arith, any-key_status as_)

decided-stored :
    (blobs : Dict Bytes) (keys : List String) (as_ : List Artifact)
    → all_present blobs keys ≡ true
    → All (λ a. is_stored a.status || contains a.blob_key keys ≡ true) as_
    → any (λ p. not (is_stored p.1)) (map (key_decision blobs keys) as_) ≡ false
decided-stored blobs keys [] p h = refl
decided-stored blobs keys (a ∷ as_) p h = elim (Bool-cases (contains a.blob_key keys)) [
  | inl k ↦
      rw (k, present-contained blobs a.blob_key keys p k) (decided-stored blobs keys as_ p h.1)
  | inr k ↦ ground (arith, h.0, k, decided-stored blobs keys as_ p h.1)
]

-- Where every blob of the worklist is there, no artifact is left that is not stored.
pub all_present-stored :
    (blobs : Dict Bytes) (e : MlExecution) (as_ : List Artifact)
    → let keys = unresolved_keys e.artifacts [] in
      all_present blobs keys ≡ true
      → map key_status as_ ≡ map (key_decision blobs keys) e.artifacts
      → any (λ a. not (is_stored a.status)) as_ ≡ false
all_present-stored blobs e as_ p q =
    any-key_status as_
    ∙ ap (any (λ x. not (is_stored x.1))) q
    ∙ decided-stored blobs (unresolved_keys e.artifacts []) e.artifacts p
        (unresolved_keys-cover e.artifacts [])

-- The runs are of different keys.
abbrev pub AreApart : List UnpersistedRun → Type 0
AreApart [] = Unit {0}
AreApart (run ∷ runs) = All (λ u. u.execution_key ≢ run.execution_key) runs × AreApart runs

avoid-with_keys :
    (key j id : String) (bs : List String) (runs : List UnpersistedRun)
    → j ≢ key
    → All (λ u. u.execution_key ≢ key) runs
    → All (λ u. u.execution_key ≢ key) (with_keys j id bs ++ runs)
avoid-with_keys key j id [] runs ne h = h
avoid-with_keys key j id (b ∷ bs) runs ne h = (ne, h)

apart-with_keys :
    (key id : String) (bs : List String) (runs : List UnpersistedRun)
    → All (λ u. u.execution_key ≢ key) runs
    → AreApart runs
    → AreApart (with_keys key id bs ++ runs)
apart-with_keys key id [] runs h a = a
apart-with_keys key id (b ∷ bs) runs h a = (h, a)

avoid-awaiting :
    (key j : String) (o : Option MlExecution) (runs : List UnpersistedRun)
    → j ≢ key
    → All (λ u. u.execution_key ≢ key) runs
    → All (λ u. u.execution_key ≢ key) (awaiting j o ++ runs)
unfolding awaiting
avoid-awaiting key j none runs ne h = h
avoid-awaiting key j (some e) runs ne h = elim (Bool-cases e.output_persisted) [
  | inl k ↦ rw k h
  | inr k ↦ rw k (avoid-with_keys key j e.execution_id (unresolved_keys e.artifacts []) runs ne h)
]

apart-awaiting :
    (key : String) (o : Option MlExecution) (runs : List UnpersistedRun)
    → All (λ u. u.execution_key ≢ key) runs
    → AreApart runs
    → AreApart (awaiting key o ++ runs)
unfolding awaiting
apart-awaiting key none runs h a = a
apart-awaiting key (some e) runs h a = elim (Bool-cases e.output_persisted) [
  | inl k ↦ rw k a
  | inr k ↦ rw k (apart-with_keys key e.execution_id (unresolved_keys e.artifacts []) runs h a)
]

avoid-runs_in :
    (key : String) (d : Dict (List MlExecution))
    → lookup key d ≡ none
    → All (λ u. u.execution_key ≢ key) (runs_in d)
unfolding runs_in lookup
avoid-runs_in key [] p = tt
avoid-runs_in key ((j, h) ∷ d) p =
    avoid-awaiting key j (last h) (runs_in d) (ground (arith, eq_iff j key))
      (avoid-runs_in key d (ground (arith, p)))

pub runs_in-AreApart : (d : Dict (List MlExecution)) → IsDict d → AreApart (runs_in d)
unfolding runs_in
runs_in-AreApart [] dict = tt
runs_in-AreApart ((j, h) ∷ d) dict =
    apart-awaiting j (last h) (runs_in d) (avoid-runs_in j d dict.0) (runs_in-AreApart d dict.1)
