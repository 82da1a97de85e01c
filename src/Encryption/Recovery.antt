-- ===== src/Encryption/Recovery.antt =====
-- The end of _finish_commit, and recover, of packages/adapters'
-- adapter/outbound/crypto/store_encryptor.py.
use generic_ml_cache.Prelude.{
  String, ◌≡◌, refl, sym, ◌∙◌, Option, none, some, Bool, true, false, ◌||◌, is_some-none, or-false,
  if◌then◌else◌, ap,
}
use generic_ml_cache.Dict.{Dict, lookup, IsDict, erase-IsDict}
use generic_ml_cache.Domain.{Bytes}
use generic_ml_cache.Disk.{
  Disk, EncryptionManifest, DumpedManifest, Marker, entries, exists, remove_staging_tree,
}
use generic_ml_cache.Disk.Crash.{
  Guarantees, Guarantees-pure, Guarantees-gets, Guarantees-step, Guarantees-bind, Guarantees-if,
  Guarantees-from, Guarantees-weaken,
}
use generic_ml_cache.Disk.Trees.{entries-unlinked, Guarantees-remove_staging_tree}
use generic_ml_cache.Encryption.{
  Base64, load_manifest, is_scratch, flip_manifest, finish_commit, save_manifest, delete_manifest,
  save_if_none, recover, recover_locked, recover_from,
}
use generic_ml_cache.Encryption.View.{
  or_else, in_blobs, document, effective_manifest, Shows, IsClean,
}
use generic_ml_cache.Encryption.Commit.{
  Never, IsCommitting, keeps-IsCommitting, Guarantees-move_documents, document-committed, if-ap,
}

module _ (base64 : Base64) (f : String → Option Bytes) (m : Option EncryptionManifest) where
  -- The store is recovered, and stands for `f` and `m`.
  pub record IsSettled (d : Disk) : Type 0 where
    pub clean : IsClean d
    pub shows : Shows base64 f m d

  module _ (mk : Marker) where
    record IsUnstaged (d : Disk) : Type 0 where
      pub committing : IsCommitting base64 f m mk d
      pub unstaged : d.staging ≡ none

    record IsFlipped (d : Disk) : Type 0 where
      pub unstaged : IsUnstaged d
      pub manifest : d.manifest ≡ m

    -- A change of the manifest only, which leaves the effective one.
    flips :
        (d d' : Disk)
        → IsUnstaged d
        → d'.marker ≡ d.marker
        → d'.blobs ≡ d.blobs
        → d'.staging ≡ d.staging
        → effective_manifest base64 d' ≡ effective_manifest base64 d
        → d'.manifest ≡ m
        → IsFlipped d'
    flips d d' h em eb es ef e = record {
      unstaged = record {
        committing =
            keeps-IsCommitting base64 f m mk d d' h.committing em ef
              (rw es h.committing.shows.staging_is_dict) (λ n k. rw (eb, es) refl);
        unstaged = es ∙ h.unstaged;
      };
      manifest = e;
    }

  pub effective-enable :
      (dm : DumpedManifest) (d : Disk)
      → d.marker ≡ some (Marker.enable dm)
      → effective_manifest base64 d ≡ or_else d.manifest (some (load_manifest base64 dm))
  unfolding effective_manifest
  effective-enable dm d e = rw e refl

  pub effective-disable :
      (d : Disk) → d.marker ≡ some Marker.disable → effective_manifest base64 d ≡ none
  unfolding effective_manifest
  effective-disable d e = rw e refl

  abbrev loaded : DumpedManifest → Option EncryptionManifest
  loaded dm = some (load_manifest base64 dm)

  Guarantees-save_if_none :
      (dm : DumpedManifest) (o : Option EncryptionManifest)
      → Guarantees
          (λ d. IsUnstaged (Marker.enable dm) d × (d.manifest ≡ o))
          (save_if_none base64 dm o)
          (λ _. IsFlipped (Marker.enable dm))
          Never
          (Shows base64 f m)
  unfolding save_manifest
  Guarantees-save_if_none dm none = Guarantees-step _ (λ d h.
      let c = h.0.committing in
      let e = effective-enable dm d c.marker ∙ ap (λ o. or_else o (loaded dm)) h.1 in
      (
        c.shows,
        (
          record d { manifest = loaded dm },
          refl,
          flips (Marker.enable dm) d _ h.0 refl refl refl
              (effective-enable dm (record d { manifest = loaded dm }) c.marker ∙ sym e)
              (sym e ∙ c.shows.manifest),
        ),
      ))
  Guarantees-save_if_none dm (some x) = Guarantees-pure tt (λ d h.
      let c = h.0.committing in
      let e = effective-enable dm d c.marker ∙ ap (λ o. or_else o (loaded dm)) h.1 in
      flips (Marker.enable dm) d d h.0 refl refl refl refl (h.1 ∙ sym e ∙ c.shows.manifest))

  Guarantees-flip_manifest :
      (mk : Marker)
      → Guarantees
          (IsUnstaged mk)
          (flip_manifest base64 mk)
          (λ _. IsFlipped mk)
          Never
          (Shows base64 f m)
  unfolding flip_manifest delete_manifest
  Guarantees-flip_manifest (Marker.enable dm) =
      Guarantees-bind {R = λ o d. IsUnstaged (Marker.enable dm) d × (d.manifest ≡ o)} _ _
        (Guarantees-gets _ (λ d h. (h, refl))) (λ o. Guarantees-save_if_none dm o)
  Guarantees-flip_manifest Marker.disable = Guarantees-step _ (λ d h.
      let c = h.committing in
      (
        c.shows,
        (
          record d { manifest = none },
          refl,
          flips Marker.disable d _ h refl refl refl
              (effective-disable (record d { manifest = none }) c.marker
                ∙ sym (effective-disable d c.marker))
              (sym (effective-disable d c.marker) ∙ c.shows.manifest),
        ),
      ))

  pub document-plain :
      (d : Disk) (n : String)
      → d.marker ≡ none
      → document d n ≡ (if is_scratch n then none else in_blobs d n)
  unfolding document
  document-plain d n e = rw e refl

  pub effective-plain : (d : Disk) → d.marker ≡ none → effective_manifest base64 d ≡ d.manifest
  unfolding effective_manifest
  effective-plain d e = rw e refl

  settles : (mk : Marker) (d : Disk) → IsFlipped mk d → IsSettled (record d { marker = none })
  unfolding lookup
  settles mk d h =
      let c = h.unstaged.committing in
      record {
        clean = record { marker = refl; staging = h.unstaged.unstaged };
        shows = record {
          staging_is_dict = c.shows.staging_is_dict;
          documents = λ n.
              document-plain (record d { marker = none }) n refl
              ∙ if-ap (is_scratch n) none _ _ (λ k. rw h.unstaged.unstaged refl)
              ∙ sym (document-committed mk d n c.marker)
              ∙ c.shows.documents n;
          manifest = effective-plain (record d { marker = none }) refl ∙ h.manifest;
        };
      }

  pub Guarantees-finish_commit :
      (mk : Marker)
      → Guarantees
          (IsCommitting base64 f m mk)
          (finish_commit base64 mk)
          (λ _. IsSettled)
          Never
          (Shows base64 f m)
  unfolding finish_commit
  Guarantees-finish_commit mk =
      Guarantees-bind {R = λ b d. IsCommitting base64 f m mk d × (exists d.staging ≡ b)} _ _
        (Guarantees-gets _ (λ d h. (h, refl)))
        (λ b.
          Guarantees-bind {R = λ _. IsUnstaged mk} _ _
            (Guarantees-if b _ _
              (λ e.
                Guarantees-weaken (λ _ d h. record { committing = h.0.committing; unstaged = h.1 })
                  (Guarantees-from _ (λ d h. h.0) (Guarantees-move_documents base64 f m mk)))
              (λ e.
                Guarantees-pure tt (λ d h. record {
                  committing = h.0;
                  unstaged = is_some-none d.staging (h.1 ∙ e);
                })))
            (λ _. Guarantees-bind {R = λ _. IsFlipped mk} _ _ (Guarantees-flip_manifest mk) (λ _.
              Guarantees-step _ (λ d h. (
                h.unstaged.committing.shows,
                (record d { marker = none }, refl, settles mk d h),
              )))))

  -- Staging that no marker follows is dropped.
  pub record IsRolledBack (d : Disk) : Type 0 where
    pub marker : d.marker ≡ none
    pub shows : Shows base64 f m d

  pub keeps-IsRolledBack :
      (d d' : Disk)
      → IsRolledBack d
      → d'.marker ≡ d.marker
      → d'.blobs ≡ d.blobs
      → d'.manifest ≡ d.manifest
      → IsDict (entries d'.staging)
      → IsRolledBack d'
  keeps-IsRolledBack d d' h em eb ef k = record {
    marker = em ∙ h.marker;
    shows = record {
      staging_is_dict = k;
      documents = λ n.
          document-plain d' n (em ∙ h.marker)
          ∙ rw eb refl
          ∙ sym (document-plain d n h.marker)
          ∙ h.shows.documents n;
      manifest =
          effective-plain d' (em ∙ h.marker)
          ∙ ef
          ∙ sym (effective-plain d h.marker)
          ∙ h.shows.manifest;
    };
  }

  rolls_back :
      (d : Disk) (s : Option (Dict Bytes))
      → IsRolledBack d
      → IsDict (entries s)
      → IsRolledBack (record d { staging = s })
  rolls_back d s h k = keeps-IsRolledBack d _ h refl refl refl k

  pub Guarantees-drop_staging :
      Guarantees IsRolledBack remove_staging_tree
        (λ _ d. IsRolledBack d × (d.staging ≡ none))
        Never
        (Shows base64 f m)
  Guarantees-drop_staging =
      Guarantees-remove_staging_tree IsRolledBack (λ d h. h.shows)
        (λ d name h. rolls_back d _ h (
          rw (entries-unlinked name d.staging)
            (erase-IsDict name (entries d.staging) h.shows.staging_is_dict)))
        (λ d h. rolls_back d none h tt)

  Guarantees-recover_from :
      (o : Option Marker) (b : Bool)
      → Guarantees
          (λ d. Shows base64 f m d × (d.marker ≡ o) × (exists d.staging ≡ b))
          (recover_from base64 o b)
          (λ _. IsSettled)
          Never
          (Shows base64 f m)
  Guarantees-recover_from (some mk) b =
      Guarantees-from _ (λ d h. record { marker = h.1; shows = h.0 }) (Guarantees-finish_commit mk)
  Guarantees-recover_from none true =
      Guarantees-weaken
        (λ _ d h. record {
          clean = record { marker = h.0.marker; staging = h.1 };
          shows = h.0.shows;
        })
        (Guarantees-from _ (λ d h. record { marker = h.1; shows = h.0 }) Guarantees-drop_staging)
  Guarantees-recover_from none false = Guarantees-pure tt (λ d h. record {
    clean = record { marker = h.1; staging = is_some-none d.staging h.2 };
    shows = h.0;
  })

  pub Guarantees-recover_locked :
      Guarantees
        (Shows base64 f m)
        (recover_locked base64)
        (λ _. IsSettled)
        Never
        (Shows base64 f m)
  unfolding recover_locked
  Guarantees-recover_locked =
      Guarantees-bind {R = λ o d. Shows base64 f m d × (d.marker ≡ o)} _ _
        (Guarantees-gets _ (λ d h. (h, refl)))
        (λ o.
          Guarantees-bind {R = λ b d. Shows base64 f m d × (d.marker ≡ o) × (exists d.staging ≡ b)}
            _ _ (Guarantees-gets _ (λ d h. (h.0, h.1, refl))) (λ b. Guarantees-recover_from o b))

  pub Guarantees-recover :
      Guarantees (Shows base64 f m) (recover base64) (λ _. IsSettled) Never (Shows base64 f m)
  unfolding recover
  Guarantees-recover =
      Guarantees-bind {R = λ b d. Shows base64 f m d × ((exists d.marker || exists d.staging) ≡ b)}
        _ _ (Guarantees-gets _ (λ d h. (h, refl)))
        (λ b.
          Guarantees-if b _ _ (λ e. Guarantees-from _ (λ d h. h.0) Guarantees-recover_locked)
            (λ e. Guarantees-pure tt (λ d h. record {
              clean = record {
                marker = is_some-none d.marker (or-false _ _ (h.1 ∙ e)).0;
                staging = is_some-none d.staging (or-false _ _ (h.1 ∙ e)).1;
              };
              shows = h.0;
            })))
