-- ===== src/Encryption/Commit.antt =====
-- _finish_commit of packages/adapters' adapter/outbound/crypto/store_encryptor.py, past the commit
-- marker: the moves, the manifest and the marker's end.
use generic_ml_cache.Prelude.{
  String, ◌≡◌, refl, sym, ◌∙◌, Option, none, some, Bool, true, false, arith, ◌==◌, eq_iff, eq_refl,
  is_some, is_some-value, is_some-none, if◌then◌else◌, List, [], ◌∷◌, Bool-cases, inl, inr, ap,
}
use generic_ml_cache.Dict.{Dict, lookup, insert, IsDict, lookup-erase, erase-IsDict}
use generic_ml_cache.Errors.{Error}
use generic_ml_cache.Domain.{Bytes}
use generic_ml_cache.Disk.{
  Disk, EncryptionManifest, Marker, entries, exists, made, unlinked, move_staged, pure,
}
use generic_ml_cache.Disk.Crash.{
  Guarantees, Guarantees-pure, Guarantees-gets, Guarantees-step, Guarantees-bind, Guarantees-if,
  Guarantees-for_each, Guarantees-from,
}
use generic_ml_cache.Disk.Trees.{entries-unlinked, Guarantees-remove_staging_tree}
use generic_ml_cache.Encryption.{Base64, is_scratch, move_document, move_documents}
use generic_ml_cache.Encryption.View.{
  or_else, in_blobs, in_staging, document, effective_manifest, Shows, document-move, mem,
  IsDistinct, mem-keys, keys-IsDistinct,
}

-- The code raises nothing.
abbrev pub Never : Error → Disk → Type 0
Never e d = ⊥

pub document-committed :
    (mk : Marker) (d : Disk) (n : String)
    → d.marker ≡ some mk
    → document d n ≡ (if is_scratch n then none else or_else (in_staging d n) (in_blobs d n))
unfolding document
document-committed mk d n e = rw e refl

pub if-ap :
    {A : Type 0} (b : Bool) (x y z : A)
    → (b ≡ false → y ≡ z)
    → (if b then x else y) ≡ (if b then x else z)
if-ap true x y z h = refl
if-ap false x y z h = h refl

pub if-same : {A : Type 0} (b : Bool) (x : A) → (if b then x else x) ≡ x
if-same true x = refl
if-same false x = refl

pub differs : (x n : String) → is_scratch x ≡ true → is_scratch n ≡ false → (x == n) ≡ false
differs x n e en = elim (Bool-cases (x == n)) [
  | inl t ↦ ground (arith, ap is_scratch ((eq_iff x n).0 t))
  | inr t ↦ t
]

module _ (base64 : Base64) (f : String → Option Bytes) (m : Option EncryptionManifest)
    (mk : Marker) where
  -- Past the marker.
  pub record IsCommitting (d : Disk) : Type 0 where
    pub marker : d.marker ≡ some mk
    pub shows : Shows base64 f m d

  -- A change of the two directories that leaves every document.
  pub keeps-IsCommitting :
      (d d' : Disk)
      → IsCommitting d
      → d'.marker ≡ d.marker
      → effective_manifest base64 d' ≡ effective_manifest base64 d
      → IsDict (entries d'.staging)
      → ((n : String)
          → is_scratch n ≡ false
          → or_else (in_staging d' n) (in_blobs d' n) ≡ or_else (in_staging d n) (in_blobs d n))
      → IsCommitting d'
  keeps-IsCommitting d d' c em ef h same = record {
    marker = em ∙ c.marker;
    shows = record {
      staging_is_dict = h;
      documents = λ n.
          document-committed mk d' n (em ∙ c.marker)
          ∙ if-ap (is_scratch n) none _ _ (same n)
          ∙ sym (document-committed mk d n c.marker)
          ∙ c.shows.documents n;
      manifest = ef ∙ c.shows.manifest;
    };
  }

  -- While the files are moved: the documents among `rest` are those still staged.
  record IsMoving (rest : List String) (d : Disk) : Type 0 where
    pub committing : IsCommitting d
    pub blobs : exists d.blobs ≡ true
    pub distinct : IsDistinct rest
    pub staged : (n : String) → is_scratch n ≡ false → is_some (in_staging d n) ≡ mem n rest

  abbrev after_move : String → Bytes → Dict Bytes → Disk → Disk
  after_move x c files d = record d {
    blobs = some (insert x c files);
    staging = unlinked x d.staging;
  }

  move-IsMoving :
      (x : String) (rest : List String) (d : Disk) (c : Bytes) (files : Dict Bytes)
      → IsMoving (x ∷ rest) d
      → d.blobs ≡ some files
      → in_staging d x ≡ some c
      → IsMoving rest (after_move x c files d)
  unfolding effective_manifest
  move-IsMoving x rest d c files h eb es =
      let dict = h.committing.shows.staging_is_dict in
      record {
        committing =
            keeps-IsCommitting d (after_move x c files d) h.committing refl refl
              (rw (entries-unlinked x d.staging) (erase-IsDict x (entries d.staging) dict))
              (λ n e.
                rw (entries-unlinked x d.staging, eb)
                  (document-move x c files (entries d.staging) dict es n));
        blobs = refl;
        distinct = h.distinct.1;
        staged = λ n e.
            rw (entries-unlinked x d.staging, lookup-erase x n (entries d.staging) dict)
              (ground (arith, h.staged n e, h.distinct.0, eq_iff x n));
      }

  scratch-IsMoving :
      (x : String) (rest : List String) (d : Disk)
      → IsMoving (x ∷ rest) d
      → is_scratch x ≡ true
      → IsMoving rest d
  scratch-IsMoving x rest d h e = record {
    committing = h.committing;
    blobs = h.blobs;
    distinct = h.distinct.1;
    staged = λ n en. h.staged n en ∙ rw (differs x n e en) refl;
  }

  Guarantees-move_document :
      (x : String) (rest : List String)
      → Guarantees
          (IsMoving (x ∷ rest))
          (move_document base64 x)
          (λ _. IsMoving rest)
          Never
          (Shows base64 f m)
  unfolding move_staged
  Guarantees-move_document x rest =
      Guarantees-if (is_scratch x) (pure tt) (move_staged x)
        (λ e. Guarantees-pure tt (λ d h. scratch-IsMoving x rest d h e))
        (λ e. Guarantees-step _ (λ d h.
          let (files, eb) = is_some-value d.blobs h.blobs in
          let (c, es) = is_some-value (in_staging d x) (h.staged x e ∙ rw (eq_refl x) refl) in
          (
            h.committing.shows,
            (after_move x c files d, rw (eb, es) refl, move-IsMoving x rest d c files h eb es),
          )))

  -- Every document is in blobs/.
  pub record IsEmptied (d : Disk) : Type 0 where
    pub committing : IsCommitting d
    pub emptied : (n : String) → is_scratch n ≡ false → in_staging d n ≡ none

  moved-IsEmptied : (d : Disk) → IsMoving [] d → IsEmptied d
  moved-IsEmptied d h = record {
    committing = h.committing;
    emptied = λ n e. is_some-none (in_staging d n) (h.staged n e);
  }

  unlinked-IsEmptied :
      (d : Disk) (name : String)
      → IsEmptied d
      → IsEmptied (record d { staging = unlinked name d.staging })
  unfolding effective_manifest
  unlinked-IsEmptied d name h =
      let dict = h.committing.shows.staging_is_dict in
      let gone : (n : String)
          → is_scratch n ≡ false
          → lookup n (entries (unlinked name d.staging)) ≡ none =
        λ n e.
          rw
            (
              entries-unlinked name d.staging,
              lookup-erase name n (entries d.staging) dict,
              h.emptied n e,
            )
            (if-same (name == n) none) in
      record {
        committing =
            keeps-IsCommitting d _ h.committing refl refl
              (rw (entries-unlinked name d.staging) (erase-IsDict name (entries d.staging) dict))
              (λ n e. rw (gone n e, h.emptied n e) refl);
        emptied = gone;
      }

  dropped-IsEmptied : (d : Disk) → IsEmptied d → IsEmptied (record d { staging = none })
  unfolding effective_manifest lookup
  dropped-IsEmptied d h = record {
    committing = keeps-IsCommitting d _ h.committing refl refl tt (λ n e. rw (h.emptied n e) refl);
    emptied = λ n e. refl;
  }

  pub Guarantees-move_documents :
      Guarantees IsCommitting
        (move_documents base64)
        (λ _ d. IsEmptied d × (d.staging ≡ none))
        Never
        (Shows base64 f m)
  unfolding move_documents effective_manifest
  Guarantees-move_documents =
      Guarantees-bind {R = λ _ d. IsCommitting d × (exists d.blobs ≡ true)} _ _
        (Guarantees-step _ (λ d h. (
          h.shows,
          (
            record d { blobs = made d.blobs },
            refl,
            (keeps-IsCommitting d _ h refl refl h.shows.staging_is_dict (λ n e. refl), refl),
          ),
        )))
        (λ _.
          Guarantees-bind {R = λ names d. IsMoving names d} _ _
            (Guarantees-gets _ (λ d h. record {
              committing = h.0;
              blobs = h.1;
              distinct = keys-IsDistinct (entries d.staging) h.0.shows.staging_is_dict;
              staged = λ n e. sym (mem-keys n (entries d.staging));
            }))
            (λ names.
              Guarantees-bind {R = λ _ d. IsMoving [] d} _ _
                (Guarantees-for_each IsMoving names (move_document base64) Guarantees-move_document)
                (λ _. Guarantees-from _ moved-IsEmptied (
                  Guarantees-remove_staging_tree IsEmptied (λ d h. h.committing.shows)
                    unlinked-IsEmptied dropped-IsEmptied))))
