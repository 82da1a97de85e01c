-- ===== src/Repair/Reconciling.antt =====
-- repair_store_service.py: one run of the worklist, in an environment without faults.
use generic_ml_cache.Prelude.{
  ℕ, String, ◌≡◌, refl, sym, subst, ◌∙◌, ap, Bool, true, false, not, Option, none, some, List, [],
  ◌∷◌, map, any, arith, ◌==◌, eq_iff, if◌then◌else◌, is_some, All,
}
use generic_ml_cache.Dict.{Dict, lookup, IsDict}
use generic_ml_cache.Domain.{Bytes, Timestamp, Artifact, ArtifactStatus, MlExecution}
use generic_ml_cache.Repository.{
  Repository, locate, resolve_artifact, resolve_in, rewrite_located, resolve_artifacts,
  mark_artifacts_stored, mark_artifacts_failed,
}
use generic_ml_cache.Repository.Annotations.{contains}
use generic_ml_cache.Repository.Tracking.{locate-rewrite_located, rewrite_located-IsDict}
use generic_ml_cache.Repository.Locating.{Spares, rewrite_located-Spares}
use generic_ml_cache.World.{World, Environment, ask, get_blob, update_repository, mark_stored}
use generic_ml_cache.World.Runs.{
  Runs, Runs-pure, Runs-ask, Runs-bind, Runs-update, Runs-no_fault, Runs-get_blob, Runs-weaken,
}
use generic_ml_cache.Repair.{RepairReport, both, reconcile_blob, reconcile}

-- What a repair decides on an artifact: by the blob, where its key is in the worklist.
abbrev pub present : Dict Bytes → String → Bool
present blobs key = is_some (lookup key blobs)

abbrev pub status_of : Bool → ArtifactStatus
status_of here = if here then ArtifactStatus.stored else ArtifactStatus.failed

abbrev pub decided : Dict Bytes → List String → Artifact → ArtifactStatus
decided blobs keys a =
    if contains a.blob_key keys then status_of (present blobs a.blob_key) else a.status

abbrev pub key_status : Artifact → String × ArtifactStatus
key_status a = (a.blob_key, a.status)

abbrev pub key_decision : Dict Bytes → List String → Artifact → String × ArtifactStatus
key_decision blobs keys a = (a.blob_key, decided blobs keys a)

abbrev pub all_present : Dict Bytes → List String → Bool
all_present blobs keys = not (any (λ key. not (present blobs key)) keys)

-- The row `e'` is the row `e`, with these statuses of the artifacts.
pub record Decided (blobs : Dict Bytes) (keys : List String) (e e' : MlExecution) : Type 0 where
  pub statuses : map key_status e'.artifacts ≡ map (key_decision blobs keys) e.artifacts
  pub rest : record e' { artifacts = [] } ≡ record e { artifacts = [] }

Decided-none : (blobs : Dict Bytes) (e : MlExecution) → Decided blobs [] e e
unfolding contains
Decided-none blobs e = record { statuses = refl; rest = refl }

decided-step :
    (blobs : Dict Bytes) (key : String) (keys : List String) (here : Bool) (at : Option Timestamp)
    (detail : Option String) (artifacts : List Artifact)
    → present blobs key ≡ here
    → map
        (key_decision blobs keys)
        (map (resolve_artifact key (status_of here) at detail) artifacts)
      ≡ map (key_decision blobs (key ∷ keys)) artifacts
unfolding contains resolve_artifact
decided-step blobs key keys here at detail [] p = refl
decided-step blobs key keys here at detail (a ∷ artifacts) p = ground (
  arith,
  eq_iff a.blob_key key,
  eq_iff key a.blob_key,
  decided-step blobs key keys here at detail artifacts p,
)

Decided-step :
    (blobs : Dict Bytes) (key : String) (keys : List String) (at : Option Timestamp)
    (detail : Option String) (e e' : MlExecution)
    → Decided blobs keys (resolve_in key (status_of (present blobs key)) at detail e) e'
    → Decided blobs (key ∷ keys) e e'
unfolding resolve_in
Decided-step blobs key keys at detail e e' d = record {
  statuses =
      d.statuses ∙ decided-step blobs key keys (present blobs key) at detail e.artifacts refl;
  rest = d.rest;
}

-- A world in which the row of the id is located.
pub record HoldsRow (blobs : Dict Bytes) (id key : String) (e : MlExecution) (r : Repository)
    (w : World) : Type 0 where
  pub distinct : IsDict w.repository.by_key
  pub located : locate id w.repository.by_key ≡ some (key, e)
  pub same_blobs : w.blobs ≡ blobs
  pub spares : Spares key r w.repository

has_key-resolve :
    (b key : String) (status : ArtifactStatus) (at : Option Timestamp) (detail : Option String)
    (artifacts : List Artifact)
    → any (λ a. a.blob_key == b) (map (resolve_artifact key status at detail) artifacts)
      ≡ any (λ a. a.blob_key == b) artifacts
unfolding resolve_artifact
has_key-resolve b key status at detail [] = refl
has_key-resolve b key status at detail (a ∷ artifacts) =
    ground (arith, has_key-resolve b key status at detail artifacts)

abbrev pub AreKeys : List String → MlExecution → Type 0
AreKeys keys e = All (λ b. any (λ a. a.blob_key == b) e.artifacts ≡ true) keys

resolve-AreKeys :
    (keys : List String) (key : String) (status : ArtifactStatus) (at : Option Timestamp)
    (detail : Option String) (e : MlExecution)
    → AreKeys keys e
    → AreKeys keys (resolve_in key status at detail e)
unfolding resolve_in
resolve-AreKeys [] key status at detail e h = tt
resolve-AreKeys (b ∷ keys) key status at detail e h = (
  has_key-resolve b key status at detail e.artifacts ∙ h.0,
  resolve-AreKeys keys key status at detail e h.1,
)

-- Reads and marks that do not fail.
pub record IsQuiet (env : Environment) : Type 0 where
  pub get_fault : (n : ℕ) (key : String) → env.get_fault n key ≡ none
  pub mark_fault : (n : ℕ) (key : String) → env.mark_fault n key ≡ none

both-all_present :
    (env : Environment) (blobs : Dict Bytes) (b : String) (keys : List String) (so_far here : Bool)
    → here ≡ present blobs b
    → (if both env so_far here then all_present blobs keys else false)
      ≡ (if so_far then all_present blobs (b ∷ keys) else false)
both-all_present env blobs b keys false false p = refl
both-all_present env blobs b keys false true p = refl
both-all_present env blobs b keys true false p = rw (sym p) refl
both-all_present env blobs b keys true true p = rw (sym p) refl

module _ (env : Environment) (quiet : IsQuiet env) (blobs : Dict Bytes) (id key : String)
    (start : Repository) where
  abbrev WorldWith : MlExecution → World → Type 0
  WorldWith e w = HoldsRow blobs id key e start w

  same_world :
      (e : MlExecution) (w w' : World)
      → w'.repository ≡ w.repository
      → w'.blobs ≡ w.blobs
      → WorldWith e w
      → WorldWith e w'
  same_world e w w' r b h = record {
    distinct = subst (λ q. IsDict q.by_key) (sym r) h.distinct;
    located = subst (λ q. locate id q.by_key ≡ some (key, e)) (sym r) h.located;
    same_blobs = b ∙ h.same_blobs;
    spares = subst (Spares key start) (sym r) h.spares;
  }

  resolved :
      (blob_key : String) (status : ArtifactStatus) (at : Option Timestamp) (detail : Option String)
      (e : MlExecution) (w : World)
      → any (λ a. a.blob_key == blob_key) e.artifacts ≡ true
      → WorldWith e w
      → Runs
          (update_repository (resolve_artifacts id blob_key status at detail))
          w
          (λ u. WorldWith (resolve_in blob_key status at detail e))
  unfolding resolve_artifacts resolve_in
  resolved blob_key status at detail e w has h =
      let f = resolve_in blob_key status at detail in
      let l = h.located in
      Runs-update _ (rewrite_located id f key w.repository) w
        (rw (l, resolve_artifacts) (ground (arith, has)))
        (record {
          distinct = rewrite_located-IsDict id key f w.repository h.distinct;
          located = locate-rewrite_located id key f e w.repository h.distinct l refl;
          same_blobs = h.same_blobs;
          spares = λ id' k x ne s.
              rewrite_located-Spares id key f w.repository (λ y. refl) id' k x ne
                (h.spares id' k x ne s);
        })

  abbrev Marked : String → Bool → MlExecution → World → Type 0
  Marked blob_key here e w =
      (at : Option Timestamp) × (detail : Option String) × WorldWith
        (resolve_in blob_key (status_of here) at detail e) w

  pub ticking :
      {A : Type 0} (f : ℕ → A) (e : MlExecution) (w : World)
      → WorldWith e w
      → Runs (ask f) w (λ a w'. (a ≡ f w.step) × WorldWith e w')
  ticking f e w h = Runs-ask f w (refl, same_world e w _ refl refl h)

  mark_stored-Runs :
      (blob_key : String) (e : MlExecution) (w : World)
      → any (λ a. a.blob_key == blob_key) e.artifacts ≡ true
      → WorldWith e w
      → Runs (mark_stored env id blob_key) w (λ u. Marked blob_key true e)
  unfolding mark_stored mark_artifacts_stored
  mark_stored-Runs blob_key e w has h =
      Runs-bind _ _ w (ticking (λ n. env.mark_fault n blob_key) e w h) (λ fault w1 g.
        Runs-bind _ _ w1
          (Runs-no_fault {Q = λ u. WorldWith e} fault w1 (g.0 ∙ quiet.mark_fault w.step blob_key)
            g.1)
          (λ u w2 g2. Runs-bind _ _ w2 (ticking env.now e w2 g2) (λ now w3 g3.
            Runs-weaken _ w3 (λ v w4 g4. (some now, none, g4))
              (resolved blob_key ArtifactStatus.stored (some now) none e w3 has g3.1))))

  reconcile_blob-Runs :
      (blob_key : String) (here : Bool) (report : RepairReport) (e : MlExecution) (w : World)
      → any (λ a. a.blob_key == blob_key) e.artifacts ≡ true
      → WorldWith e w
      → Runs (reconcile_blob env id blob_key here report) w (λ next. Marked blob_key here e)
  unfolding reconcile_blob mark_artifacts_failed
  reconcile_blob-Runs blob_key true report e w has h =
      Runs-bind _ _ w (mark_stored-Runs blob_key e w has h) (λ u w' g. Runs-pure _ w' g)
  reconcile_blob-Runs blob_key false report e w has h =
      Runs-bind _ _ w (resolved blob_key ArtifactStatus.failed none _ e w has h)
        (λ u w' g. Runs-pure _ w' (none, some _, g))

  read :
      (b : String) (e : MlExecution) (w : World)
      → WorldWith e w
      → Runs (get_blob env b) w (λ content w'. (content ≡ lookup b blobs) × WorldWith e w')
  read b e w h =
      Runs-get_blob env b w (quiet.get_fault w.step b)
        (ap (lookup b) h.same_blobs, same_world e w _ refl refl h)

  -- The inner loop decides every key, and says whether all are there.
  pub reconcile-Runs :
      (keys : List String) (so_far : Bool) (report : RepairReport) (e : MlExecution) (w : World)
      → AreKeys keys e
      → WorldWith e w
      → Runs (reconcile env id keys so_far report) w (λ outcome w'.
        (outcome.0 ≡ (if so_far then all_present blobs keys else false))
        × (e' : MlExecution) × Decided blobs keys e e'
        × WorldWith e' w')
  unfolding reconcile
  reconcile-Runs [] so_far report e w has h =
      Runs-pure _ w (ground arith, e, Decided-none blobs e, h)
  reconcile-Runs (b ∷ keys) so_far report e w has h =
      Runs-bind _ _ w (read b e w h) (λ content w1 g.
        Runs-bind _ _ w1 (reconcile_blob-Runs b (is_some content) report e w1 has.0 g.1)
          (λ next w2 m.
            let here : is_some content ≡ present blobs b = ap is_some g.0 in
            let e1 = resolve_in b (status_of (is_some content)) m.0 m.1 e in
            Runs-weaken _ w2
              (λ outcome w3 q. (
                q.0 ∙ both-all_present env blobs b keys so_far (is_some content) here,
                q.1,
                Decided-step blobs b keys m.0 m.1 e q.1 (
                    subst (λ x. Decided blobs keys (resolve_in b (status_of x) m.0 m.1 e) q.1) here
                      q.2),
                q.3,
              ))
              (reconcile-Runs keys (both env so_far (is_some content)) next e1 w2
                (resolve-AreKeys keys b _ m.0 m.1 e has.1) m.2)))
