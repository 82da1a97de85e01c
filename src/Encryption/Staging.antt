-- ===== src/Encryption/Staging.antt =====
-- _stage of packages/adapters' adapter/outbound/crypto/store_encryptor.py: the transformed documents
-- beside the live ones.
use Prim.Native.String.{◌++◌ as ◌⧺◌}
use generic_ml_cache.Prelude.{
  ℕ, String, ◌≡◌, refl, sym, ◌∙◌, Option, none, some, true, false, ◌==◌, eq_iff, eq_refl, is_some,
  is_some-value, is_some-none, if◌then◌else◌, List, [], ◌∷◌, Bool-cases, inl, inr, ap, or-true,
  subst,
}
use generic_ml_cache.Dict.{
  lookup, insert, erase, keys, IsDict, lookup-insert, insert-IsDict, lookup-erase, erase-IsDict,
}
use generic_ml_cache.Text.Suffix.{ends_with-append}
use generic_ml_cache.Errors.{Error, Result, ok, err}
use generic_ml_cache.Domain.{Bytes}
use generic_ml_cache.Disk.{
  Disk, EncryptionManifest, entries, exists, made, lift, read_blob, file, write_staged,
  rename_staged,
}
use generic_ml_cache.Disk.Crash.{
  Guarantees, Guarantees-gets, Guarantees-step, Guarantees-bind, Guarantees-from, Guarantees-lift,
  Guarantees-ok, Guarantees-draw, Guarantees-for_each, Guarantees-imp, Guarantees-each,
}
use generic_ml_cache.Encryption.{Base64, is_scratch, documents, stage_document, stage}
use generic_ml_cache.Encryption.View.{in_blobs, in_staging, Shows, mem, mem-keys}
use generic_ml_cache.Encryption.Commit.{differs}
use generic_ml_cache.Encryption.Recovery.{
  IsSettled, IsRolledBack, keeps-IsRolledBack, Guarantees-drop_staging, document-plain,
}

-- Both there and related, or both absent.
abbrev pub Related : (Bytes → Bytes → Type 0) → Option Bytes → Option Bytes → Type 0
Related R none none = Unit
Related R (some a) (some b) = R a b
Related R none (some b) = ⊥
Related R (some a) none = ⊥

tmp-is_scratch : (x : String) → is_scratch (x ⧺ ".tmp") ≡ true
unfolding is_scratch
tmp-is_scratch x = ends_with-append ".tmp" x

module _ (base64 : Base64) (f : String → Option Bytes) (m : Option EncryptionManifest)
    (transform : ℕ → Bytes → Result Bytes) (R : Bytes → Bytes → Type 0)
    (sound : (n : ℕ) (x y : Bytes) → transform n x ≡ ok y → R x y) where
  -- What stops the code: the transformation of a document.
  abbrev pub Refused : Error → Disk → Type 0
  Refused e d =
      Shows base64 f m d
      × ((n : ℕ) × (x : Bytes) × (name : String) × (f name ≡ some x) × (transform n x ≡ err e))

  IsListed : Disk → List String → Type 0
  IsListed d [] = Unit
  IsListed d (x ∷ xs) = (is_scratch x ≡ false) × (is_some (in_blobs d x) ≡ true) × IsListed d xs

  -- The documents that are not among `rest` are staged.
  record IsStaging (rest : List String) (d : Disk) : Type 0 where
    pub rolled : IsRolledBack base64 f m d
    pub directory : exists d.staging ≡ true
    pub listed : IsListed d rest
    pub staged :
        (n : String)
        → is_scratch n ≡ false
        → mem n rest ≡ false
        → Related R (in_blobs d n) (in_staging d n)

  IsListed-blobs :
      (d d' : Disk) (xs : List String) → d'.blobs ≡ d.blobs → IsListed d xs → IsListed d' xs
  unfolding IsListed
  IsListed-blobs d d' [] e h = tt
  IsListed-blobs d d' (x ∷ xs) e h = (h.0, rw e h.1, IsListed-blobs d d' xs e h.2)

  documents-IsListed :
      (d : Disk) (xs : List String)
      → ((n : String) → mem n xs ≡ true → is_some (in_blobs d n) ≡ true)
      → IsListed d (documents xs)
  unfolding IsListed
  documents-IsListed d [] h = tt
  documents-IsListed d (x ∷ xs) h =
      let rest = documents-IsListed d xs (λ n e. h n (rw e (or-true (x == n)))) in
      elim (Bool-cases (is_scratch x)) [
        | inl e ↦ rw e rest
        | inr e ↦ rw e (e, h x (rw (eq_refl x) refl), rest)
      ]

  mem-documents :
      (n : String) (xs : List String) → is_scratch n ≡ false → mem n (documents xs) ≡ mem n xs
  mem-documents n [] e = refl
  mem-documents n (x ∷ xs) e = elim (Bool-cases (is_scratch x)) [
    | inl s ↦ rw (s, differs x n s e, mem-documents n xs e) refl
    | inr s ↦ rw (s, mem-documents n xs e) refl
  ]

  starts :
      (d : Disk)
      → IsRolledBack base64 f m d
      → d.staging ≡ some []
      → IsStaging (documents (keys (entries d.blobs))) d
  unfolding lookup
  starts d h e = record {
    rolled = h;
    directory = ap exists e;
    listed =
        documents-IsListed d (keys (entries d.blobs))
          (λ n k. sym (mem-keys n (entries d.blobs)) ∙ k);
    staged = λ n en out.
        let absent =
          sym (mem-keys n (entries d.blobs))
          ∙ sym (mem-documents n (keys (entries d.blobs)) en)
          ∙ out in
        rw (is_some-none (in_blobs d n) absent, e) tt;
  }

  -- In the middle of one document: what has been read of it, and the disk keeps the rest.
  record IsReading (x : String) (rest : List String) (blob : Bytes) (d : Disk) : Type 0 where
    pub staging : IsStaging (x ∷ rest) d
    pub read : in_blobs d x ≡ some blob

  record IsWriting (x : String) (rest : List String) (content : Bytes) (d : Disk) : Type 0 where
    pub staging : IsStaging (x ∷ rest) d
    pub related : Related R (in_blobs d x) (some content)

  record IsWritten (x : String) (rest : List String) (content : Bytes) (d : Disk) : Type 0 where
    pub writing : IsWriting x rest content d
    pub scratch : in_staging d (x ⧺ ".tmp") ≡ some content

  -- Changes of the staging directory that leave the staged documents.
  keeps-IsStaging :
      (xs : List String) (d d' : Disk)
      → IsStaging xs d
      → d'.marker ≡ d.marker
      → d'.blobs ≡ d.blobs
      → d'.manifest ≡ d.manifest
      → IsDict (entries d'.staging)
      → exists d'.staging ≡ true
      → ((n : String) → is_scratch n ≡ false → in_staging d' n ≡ in_staging d n)
      → IsStaging xs d'
  keeps-IsStaging xs d d' h em eb ef k e same = record {
    rolled = keeps-IsRolledBack base64 f m d d' h.rolled em eb ef k;
    directory = e;
    listed = IsListed-blobs d d' xs eb h.listed;
    staged = λ n en out. rw (same n en, eb) (h.staged n en out);
  }

  Guarantees-read_blob :
      (x : String) (rest : List String)
      → Guarantees
          (IsStaging (x ∷ rest))
          (read_blob x)
          (λ blob. IsReading x rest blob)
          Refused
          (Shows base64 f m)
  unfolding read_blob IsListed
  Guarantees-read_blob x rest =
      Guarantees-bind {R = λ o d. IsStaging (x ∷ rest) d × (in_blobs d x ≡ o)} _ _
        (Guarantees-gets _ (λ d h. (h, refl)))
        (λ o. Guarantees-each _ (λ d h.
          let (blob, e) = is_some-value (in_blobs d x) h.0.listed.1 in
          Guarantees-ok blob (file o) (ap file (sym h.1 ∙ e))
            (λ d' e'. subst (IsReading x rest blob) (sym e') (record { staging = h.0; read = e }))))

  listed-document :
      (x : String) (d : Disk)
      → IsRolledBack base64 f m d
      → is_scratch x ≡ false
      → in_blobs d x ≡ f x
  listed-document x d h e =
      ap (λ b. if b then none else in_blobs d x) (sym e)
      ∙ sym (document-plain base64 f m d x h.marker)
      ∙ h.shows.documents x

  Guarantees-transform :
      (x : String) (rest : List String) (blob : Bytes) (n : ℕ)
      → Guarantees
          (IsReading x rest blob)
          (lift (transform n blob))
          (λ content. IsWriting x rest content)
          Refused
          (Shows base64 f m)
  unfolding IsListed
  Guarantees-transform x rest blob n =
      Guarantees-lift (transform n blob)
        (λ content e d h. record {
          staging = h.staging;
          related = rw h.read (sound n blob content e);
        })
        (λ e k d h. (
          h.staging.rolled.shows,
          (n, blob, x, sym (listed-document x d h.staging.rolled h.staging.listed.0) ∙ h.read, k),
        ))

  Guarantees-write_staged :
      (x : String) (rest : List String) (content : Bytes)
      → Guarantees
          (IsWriting x rest content)
          (write_staged (x ⧺ ".tmp") content)
          (λ _. IsWritten x rest content)
          Refused
          (Shows base64 f m)
  unfolding write_staged
  Guarantees-write_staged x rest content = Guarantees-step _ (λ d h.
      let (files, e) = is_some-value d.staging h.staging.directory in
      let dict = h.staging.rolled.shows.staging_is_dict in
      let tmp = x ⧺ ".tmp" in
      let after = record d { staging = some (insert tmp content files) } in
      (
        h.staging.rolled.shows,
        (
          after,
          rw e refl,
          record {
            writing = record {
              staging =
                  keeps-IsStaging (x ∷ rest) d after h.staging refl refl refl
                    (insert-IsDict tmp content files (subst (λ s. IsDict (entries s)) e dict)) refl
                    (λ n en.
                      rw (lookup-insert tmp n content files, differs tmp n (tmp-is_scratch x) en, e)
                        refl);
              related = h.related;
            };
            scratch = rw (lookup-insert tmp tmp content files, eq_refl tmp) refl;
          },
        ),
      ))

  abbrev after_rename : String → Bytes → Disk → Disk
  after_rename x content d = record d {
    staging = some (insert x content (erase (x ⧺ ".tmp") (entries d.staging)));
  }

  renamed-IsStaging :
      (x : String) (rest : List String) (content : Bytes) (d : Disk)
      → IsWritten x rest content d
      → IsStaging rest (after_rename x content d)
  unfolding IsListed
  renamed-IsStaging x rest content d h =
      let s = h.writing.staging in
      let dict = s.rolled.shows.staging_is_dict in
      let tmp = x ⧺ ".tmp" in
      let left = erase tmp (entries d.staging) in
      record {
        rolled =
            keeps-IsRolledBack base64 f m d _ s.rolled refl refl refl
              (insert-IsDict x content left (erase-IsDict tmp (entries d.staging) dict));
        directory = refl;
        listed = IsListed-blobs d (after_rename x content d) rest refl s.listed.2;
        staged = λ n en out. rw (lookup-insert x n content left) (elim (Bool-cases (x == n)) [
          | inl e ↦ rw e (
              subst (λ k. Related R (in_blobs d k) (some content)) ((eq_iff x n).0 e)
                h.writing.related)
          | inr e ↦
              rw
                (
                  e,
                  lookup-erase tmp n (entries d.staging) dict,
                  differs tmp n (tmp-is_scratch x) en,
                )
                (s.staged n en (rw (e, out) refl))
        ]);
      }

  Guarantees-stage_document :
      (x : String) (rest : List String)
      → Guarantees
          (IsStaging (x ∷ rest))
          (stage_document base64 transform x)
          (λ _. IsStaging rest)
          Refused
          (Shows base64 f m)
  unfolding stage_document rename_staged
  Guarantees-stage_document x rest =
      Guarantees-bind {R = λ blob. IsReading x rest blob} _ _ (Guarantees-read_blob x rest) (λ blob.
        Guarantees-bind {R = λ _. IsReading x rest blob} _ _
          (Guarantees-draw (λ d h. record {
            staging =
                keeps-IsStaging (x ∷ rest) d _ h.staging refl refl refl
                  h.staging.rolled.shows.staging_is_dict h.staging.directory (λ n e. refl);
            read = h.read;
          }))
          (λ n.
            Guarantees-bind {R = λ content. IsWriting x rest content} _ _
              (Guarantees-transform x rest blob n)
              (λ content.
                Guarantees-bind {R = λ _. IsWritten x rest content} _ _
                  (Guarantees-write_staged x rest content)
                  (λ _. Guarantees-step _ (λ d h. (
                    h.writing.staging.rolled.shows,
                    (
                      after_rename x content d,
                      rw h.scratch refl,
                      renamed-IsStaging x rest content d h,
                    ),
                  ))))))

  -- All documents are staged, and the live ones are as they were.
  pub record IsStaged (d : Disk) : Type 0 where
    pub rolled : IsRolledBack base64 f m d
    pub staged : (n : String) → is_scratch n ≡ false → Related R (in_blobs d n) (in_staging d n)

  pub Guarantees-stage :
      Guarantees
        (IsSettled base64 f m)
        (stage base64 transform)
        (λ _. IsStaged)
        Refused
        (Shows base64 f m)
  unfolding stage
  Guarantees-stage =
      Guarantees-bind {R = λ _ d. IsRolledBack base64 f m d × (d.staging ≡ none)} _ _
        (Guarantees-imp _ _ (λ a d h. h) (λ e d h. elim h [ ]) (λ d h. h)
          (Guarantees-from _ (λ d h. record { marker = h.clean.marker; shows = h.shows })
            (Guarantees-drop_staging base64 f m)))
        (λ _.
          Guarantees-bind {R = λ _ d. IsRolledBack base64 f m d × (d.staging ≡ some [])} _ _
            (Guarantees-step _ (λ d h. (
              h.0.shows,
              (
                record d { staging = made d.staging },
                refl,
                (
                  keeps-IsRolledBack base64 f m d _ h.0 refl refl refl h.0.shows.staging_is_dict,
                  ap made h.1,
                ),
              ),
            )))
            (λ _.
              Guarantees-bind {R = λ names. IsStaging names} _ _
                (Guarantees-gets _ (λ d h. starts d h.0 h.1))
                (λ names.
                  Guarantees-imp _ _
                    (λ _ d h. record { rolled = h.rolled; staged = λ n e. h.staged n e refl })
                    (λ e d h. h) (λ d h. h)
                    (Guarantees-for_each IsStaging names _ Guarantees-stage_document))))
