-- ===== src/Service/Artifacts/Storing.antt =====
-- cached_ml_execution_service.py: storing the documents of a run, one by one, where no port fails.
use generic_ml_cache.Prelude.{
  ℕ, suc, String, ◌≡◌, refl, ap, sym, true, none, some, List, [], ◌∷◌, ◌++◌, map, any, arith, ◌==◌,
  eq_iff, eq_refl, All, Bool-cases, inl, inr, subst,
}
use mathlib.Core.List.{append_assoc, append-nil}
use generic_ml_cache.Dict.{Dict, lookup, insert, IsDict, lookup-insert}
use generic_ml_cache.Errors.{ok}
use generic_ml_cache.Domain.{Bytes, Timestamp, ArtifactStatus, Artifact, MlExecution}
use generic_ml_cache.Repository.{
  locate, rewrite_located, append_artifact, persist_artifact, resolve_artifact, resolve_in,
  drop_content,
}
use generic_ml_cache.Repository.Tracking.{
  locate-rewrite_located, rewrite_located-IsDict, modify_by_id_located,
  mark_artifacts_stored_located,
}
use generic_ml_cache.World.{World, Environment, mark_stored}
use generic_ml_cache.World.Runs.{
  Runs, Runs-pure, Runs-update, Runs-attempt, Runs-bind, Runs-put_blob, Runs-weaken,
}
use generic_ml_cache.Service.Artifacts.{content_or_empty, store_blob, persist_documents}

-- A stored row of the document `d`.
pub record IsRowOf (a d : Artifact) : Type 0 where
  pub same_type : a.artifact_type ≡ d.artifact_type
  pub same_name : a.name ≡ d.name
  pub same_size : a.size_bytes ≡ d.size_bytes
  pub same_key : a.blob_key ≡ d.blob_key
  pub stored : a.status ≡ ArtifactStatus.stored

abbrev pub AreRowsOf : List Artifact → List Artifact → Type 0
AreRowsOf [] [] = Unit
AreRowsOf [] (d ∷ ds) = ⊥
AreRowsOf (a ∷ as_) [] = ⊥
AreRowsOf (a ∷ as_) (d ∷ ds) = IsRowOf a d × AreRowsOf as_ ds

-- The blob store holds the bytes of every document.
abbrev pub HasContent : Dict Bytes → List Artifact → Type 0
HasContent blobs = All (λ d. lookup d.blob_key blobs ≡ some (content_or_empty d.content))

-- Documents with one blob key have one content.
abbrev pub AgreesWith : Artifact → List Artifact → Type 0
AgreesWith a =
    All (λ d. d.blob_key ≡ a.blob_key → content_or_empty d.content ≡ content_or_empty a.content)

abbrev pub KeysAgree : List Artifact → List Artifact → Type 0
KeysAgree done [] = Unit
KeysAgree done (a ∷ rest) = AgreesWith a done × KeysAgree (done ++ a ∷ []) rest

HasContent-insert :
    (a : Artifact) (done : List Artifact) (blobs : Dict Bytes)
    → AgreesWith a done
    → HasContent blobs done
    → HasContent (insert a.blob_key (content_or_empty a.content) blobs) (done ++ a ∷ [])
HasContent-insert a [] blobs agree has = (
  rw (lookup-insert a.blob_key a.blob_key (content_or_empty a.content) blobs, eq_refl a.blob_key),
  tt,
)
HasContent-insert a (d ∷ done) blobs agree has = (
  rw (lookup-insert a.blob_key d.blob_key (content_or_empty a.content) blobs)
      (elim (Bool-cases (a.blob_key == d.blob_key)) [
        | inl same ↦ rw same (ap some (sym (agree.0 (sym ((eq_iff a.blob_key d.blob_key).0 same)))))
        | inr other ↦ rw other has.0
      ]),
  HasContent-insert a done blobs agree.1 has.1,
)

module _ (now : Timestamp) (a : Artifact) where
  -- What a row becomes when the blob of `a` is marked STORED.
  abbrev mark : Artifact → Artifact
  mark = resolve_artifact a.blob_key ArtifactStatus.stored (some now) none

  mark-IsRowOf : (x d : Artifact) → IsRowOf x d → IsRowOf (mark x) d
  unfolding resolve_artifact
  mark-IsRowOf x d h = elim (Bool-cases (x.blob_key == a.blob_key)) [
    | inl same ↦ rw same (record {
      same_type = h.same_type;
      same_name = h.same_name;
      same_size = h.same_size;
      same_key = h.same_key;
      stored = refl;
    })
    | inr other ↦ rw other h
  ]

  marked-AreRowsOf :
      (rows done : List Artifact)
      → AreRowsOf rows done
      → AreRowsOf (map mark (rows ++ drop_content a ∷ [])) (done ++ a ∷ [])
  marked-AreRowsOf [] [] h = (
    unfold resolve_artifact in
        rw (eq_refl a.blob_key) (record {
          same_type = refl;
          same_name = refl;
          same_size = refl;
          same_key = refl;
          stored = refl;
        }),
    tt,
  )
  marked-AreRowsOf [] (d ∷ done) h = absurd h
  marked-AreRowsOf (x ∷ rows) [] h = absurd h
  marked-AreRowsOf (x ∷ rows) (d ∷ done) h = (mark-IsRowOf x d h.0, marked-AreRowsOf rows done h.1)

any-last :
    (a : Artifact) (rows : List Artifact)
    → any (λ x. x.blob_key == a.blob_key) (rows ++ drop_content a ∷ []) ≡ true
any-last a [] = rw (eq_refl a.blob_key)
any-last a (x ∷ rows) = ground (arith, any-last a rows)

-- The rows written so far, of the execution `base` with this id.
pub record Stage (id key : String) (base : MlExecution) (done : List Artifact) (w : World)
    : Type 0 where
  pub rows : List Artifact
  pub distinct : IsDict w.repository.by_key
  pub located : locate id w.repository.by_key ≡ some (key, record base { artifacts = rows })
  pub matched : AreRowsOf rows done
  pub written_ : HasContent w.blobs done

-- What `_store_blob` returns for a document once both phases have passed.
abbrev pub as_stored : Artifact → Artifact
as_stored a = record a { status = ArtifactStatus.stored }

-- No port that stores a document fails.
pub record CanStore (env : Environment) : Type 0 where
  pub puts : (n : ℕ) (key : String) → env.put_fault n key ≡ none
  pub marks : (n : ℕ) (key : String) → env.mark_fault n key ≡ none

module _ (env : Environment) (able : CanStore env) (id key : String) (base : MlExecution)
    (same_id : base.execution_id ≡ id) where
  mark_stored-Runs :
      (a : Artifact) (rows done : List Artifact) (w : World)
      → IsDict w.repository.by_key
      → locate id w.repository.by_key
        ≡ some (key, record base { artifacts = rows ++ drop_content a ∷ [] })
      → AreRowsOf rows done
      → HasContent w.blobs (done ++ a ∷ [])
      → Runs (mark_stored env id a.blob_key) w (λ _ w'. Stage id key base (done ++ a ∷ []) w')
  unfolding mark_stored
  mark_stored-Runs a rows done w dict found rows_of has =
      let now = env.now (suc w.step) in
      let change = resolve_in a.blob_key ArtifactStatus.stored (some now) none in
      let r' = rewrite_located id change key w.repository in
      record {
        value = tt;
        after = record w { step = suc (suc w.step); repository = r' };
        runs = rw (
          able.marks w.step a.blob_key,
          mark_artifacts_stored_located id key _ w.repository found now a.blob_key
              (any-last a rows),
        );
        holds = record {
          rows = map (mark now a) (rows ++ drop_content a ∷ []);
          distinct = rewrite_located-IsDict id key change w.repository dict;
          located =
              unfold resolve_in in
              locate-rewrite_located id key change _ w.repository dict found
                (unfold resolve_in in refl);
          matched = marked-AreRowsOf now a rows done rows_of;
          written_ = has;
        };
      }

  store_blob-Runs :
      (a : Artifact) (rows done : List Artifact) (w : World)
      → IsDict w.repository.by_key
      → locate id w.repository.by_key
        ≡ some (key, record base { artifacts = rows ++ drop_content a ∷ [] })
      → AreRowsOf rows done
      → HasContent w.blobs done
      → AgreesWith a done
      → Runs
          (store_blob env id a)
          w
          (λ s w'. (s ≡ as_stored a) × Stage id key base (done ++ a ∷ []) w')
  unfolding store_blob
  store_blob-Runs a rows done w dict found rows_of has agree =
      Runs-bind
        {P = λ o w'.
          (o ≡ ok tt) × (w'.repository ≡ w.repository) × HasContent w'.blobs (done ++ a ∷ [])}
        _ _ w
        (Runs-attempt _ w (
          Runs-put_blob env a.blob_key w _ (able.puts w.step a.blob_key)
            (refl, refl, HasContent-insert a done w.blobs agree has)))
        (λ o w1 h1. rw h1.0 (
          Runs-bind {P = λ m w'. (m ≡ ok tt) × Stage id key base (done ++ a ∷ []) w'} _ _ w1
            (Runs-attempt _ w1 (
              Runs-weaken _ w1 (λ _ w' s. (refl, s))
                (mark_stored-Runs a rows done w1 (rw h1.1 dict) (rw h1.1 found) rows_of h1.2)))
            (λ m w2 h2. rw h2.0 (Runs-pure _ w2 (refl, h2.1)))))

  pub persist_documents-Runs :
      (docs done : List Artifact) (w : World)
      → Stage id key base done w
      → KeysAgree done docs
      → Runs
          (persist_documents env id docs)
          w
          (λ out w'. (out ≡ (map as_stored docs, true)) × Stage id key base (done ++ docs) w')
  unfolding persist_documents
  persist_documents-Runs [] done w stage agree =
      Runs-pure _ w (refl, subst (λ xs. Stage id key base xs w) (sym (append-nil done)) stage)
  persist_documents-Runs (a ∷ docs) done w stage agree =
      let r1 = rewrite_located id (append_artifact a) key w.repository in
      Runs-bind {P = λ _ w'. (w'.repository ≡ r1) × (w'.blobs ≡ w.blobs)} _ _ w
        (Runs-update (persist_artifact id a) r1 w
          (unfold persist_artifact in
            modify_by_id_located id key _ w.repository stage.located (append_artifact a))
          (refl, refl))
        (λ _ w1 h1.
          Runs-bind _ _ w1
            (store_blob-Runs a stage.rows done w1
              (rw h1.0
                (rewrite_located-IsDict id key (append_artifact a) w.repository stage.distinct))
              (rw h1.0 (
                unfold append_artifact in
                locate-rewrite_located id key (append_artifact a) _ w.repository stage.distinct
                  stage.located refl))
              stage.matched (rw h1.1 stage.written_) agree.0)
            (λ s w2 h2.
              Runs-bind _ _ w2 (persist_documents-Runs docs (done ++ a ∷ []) w2 h2.1 agree.1)
                (λ out w3 h3. Runs-pure _ w3 (
                  rw (h2.0, h3.0),
                  subst (λ xs. Stage id key base xs w3) (append_assoc done (a ∷ []) docs) h3.1,
                ))))
