-- ===== src/Migration/Engine/Selected.antt =====
-- The files below the selected folders, and the manifest that a copy of them has.
use win_profile.Base.{
  ℕ, ◌≡◌, refl, sym, ap, ◌∙◌, subst, List, [], ◌∷◌, ◌++◌, split, Option, none, some, Result, ok,
  err, pure, lift, ◌>>◌, Text, codes,
}
use win_profile.Base.Hoare.{Post, Hoare, Hoare-bind, Hoare-keeps, Hoare-pure, Maintains}
use win_profile.Audit.Event.{success}
use win_profile.Profiles.Models.{MigrationPlan}
use win_profile.Migration.Errors.{MigrationError, audit, map_secure_error}
use win_profile.Migration.Transaction.{ManifestEntry, CopyTransaction, MigrationReceipt, receipt}
use win_profile.Migration.Copy.{
  Source, Target, Copying, on_state, change, report, created_if_any, check_cancelled,
  copy_tree_verified, finalizing,
}
use win_profile.Migration.Copy.Stable.{Maintains-check_cancelled, Maintains-report}
use win_profile.Migration.Copy.Grows.{
  files_of, Grows, Grows-bind, Grows-after, Grows-still, Grows-on_state, Grows-check_cancelled,
  HasManifest, IsStable-HasManifest,
}
use win_profile.Migration.Copy.Manifest.{created_if_any-manifest, Grows-tree}
use win_profile.Migration.Engine.{
  Host, event, open_relative_directory_if_present, ensure_components, ensure_relative_directory,
  copy_found, copy_roots, plain_progress, success_details, finish_copy,
}

-- The files that are found, and those of the folders below a source.
abbrev pub found_files :
    (List ℕ → Text) → Text → Result MigrationError (Option Source) → List ManifestEntry
found_files hash root (err e) = []
found_files hash root (ok none) = []
found_files hash root (ok (some source)) = files_of hash root source

module _ {S : Type 0} (T : Target S) (H : Host S T.Directory) where
  abbrev pub selected_files : Source → List Text → List ManifestEntry
  selected_files source [] = []
  selected_files source (root ∷ roots) =
      found_files T.hash root (open_relative_directory_if_present T H source root)
      ++ selected_files source roots

  -- The receipt of these files.
  abbrev pub receipt_of : List ManifestEntry → MigrationReceipt
  receipt_of es = receipt {E = T.Created} H.as_bytes T.hash (record {
    created_entries = [];
    manifest = es;
    observed_copied_bytes = 0;
    last_relative_path = none;
  })

  pub Grows-ensure :
      (d : T.Directory) (names : List Text) → Grows T (ensure_components T H d names) []
  unfolding ensure_components
  Grows-ensure d [] = Grows-still T (pure d) (λ w. refl)
  Grows-ensure d (name ∷ names) =
      Grows-after T (on_state T map_secure_error (T.open_or_create_directory d name)) _ _
        (Grows-on_state T map_secure_error (T.open_or_create_directory d name))
        (λ next _ _.
          Grows-after T (change T (created_if_any T next.1)) _ _
            (Grows-still T (change T (created_if_any T next.1))
              (λ w. created_if_any-manifest T next.1 w.1))
            (λ _ _ _. Grows-ensure next.0 names))

  pub Grows-copy_found :
      (target : T.Directory) (root : Text) (found : Option Source)
      → Grows T (copy_found T H target root found) (found_files T.hash root (ok found))
  unfolding copy_found ensure_relative_directory
  Grows-copy_found target root none = Grows-still T (pure tt) (λ w. refl)
  Grows-copy_found target root (some source) =
      Grows-after T (ensure_components T H target (split b'\\' root))
        (λ d. copy_tree_verified T source d root) _ (Grows-ensure target (split b'\\' root))
        (λ d _ _. Grows-tree T source d root)

  pub Grows-copy_roots :
      (source : Source) (target : T.Directory) (roots : List Text)
      → Grows T (copy_roots T H source target roots) (selected_files source roots)
  unfolding copy_roots
  Grows-copy_roots source target [] = Grows-still T (pure tt) (λ w. refl)
  Grows-copy_roots source target (root ∷ roots) =
      Grows-after T (check_cancelled T) _ _ (Grows-check_cancelled T) (λ _ _ _.
        let opened = open_relative_directory_if_present T H source root in
        Grows-after T (lift opened)
          (λ found. copy_found T H target root found >> copy_roots T H source target roots) _
          (Grows-still T (lift opened) (λ w. refl))
          (λ found w e.
            let same : opened ≡ ok found = e in
            subst
              (λ o.
                Grows T (copy_found T H target root found >> copy_roots T H source target roots)
                  (found_files T.hash root o ++ selected_files source roots))
              (sym same)
              (Grows-bind T (copy_found T H target root found)
                (λ _. copy_roots T H source target roots) (found_files T.hash root (ok found))
                (selected_files source roots) (Grows-copy_found target root found)
                (λ _ _ _. Grows-copy_roots source target roots))))

  abbrev pub Any : S × CopyTransaction T.Created → Type 0
  Any w = Unit {0}

  pub Hoare-Maintains :
      {A : Type 0} (m : Copying T A) (es : List ManifestEntry)
      → Maintains (HasManifest T es) m
      → Hoare (HasManifest T es) m (λ _. HasManifest T es) Any
  Hoare-Maintains m es h = Hoare-keeps Any (HasManifest T es) m h.from (λ w p. tt)

  pub Hoare-Grows :
      {A : Type 0} (m : Copying T A) (es : List ManifestEntry)
      → Grows T m es
      → Hoare (HasManifest T []) m (λ _. HasManifest T es) Any
  Hoare-Grows {A} m es g = record { run = λ w p. go w (m w) (g.holds w) p }
    where
      go :
          (w : S × CopyTransaction T.Created)
          (r : Result MigrationError A × (S × CopyTransaction T.Created))
          → ((a : A) → r.0 ≡ ok a → r.1.1.manifest ≡ w.1.manifest ++ es)
          → HasManifest T [] w
          → Post (λ (_ : A). HasManifest T es) Any r
      go w (ok a, v) g p = g a refl ∙ ap (λ l. l ++ es) p
      go w (err e, v) g p = tt

  pub Hoare-check :
      (es : List ManifestEntry)
      → Hoare (HasManifest T es) (check_cancelled T) (λ _. HasManifest T es) Any
  Hoare-check es =
      Hoare-Maintains (check_cancelled T) es
        (Maintains-check_cancelled T (HasManifest T es) (IsStable-HasManifest T es))

  pub finish_copy-receipt :
      (plan : MigrationPlan) (es : List ManifestEntry)
      → Hoare (HasManifest T es) (finish_copy T H plan) (λ r _. r ≡ receipt_of es) Any
  unfolding finish_copy receipt
  finish_copy-receipt plan es =
      Hoare-bind Any (HasManifest T es) (λ _. HasManifest T es) _ (check_cancelled T) _
        (Hoare-check es)
        (λ _.
          Hoare-bind Any (HasManifest T es) (λ r w. (r ≡ receipt_of es) × HasManifest T es w) _
            (λ w. (ok (receipt H.as_bytes T.hash w.1), w)) _
            (record { run = λ w p. (ap receipt_of p, p) })
            (λ r. record { run = λ w p. (rest r p.0).run w p.1 }))
    where
      rest :
          (r : MigrationReceipt)
          → r ≡ receipt_of es
          → Hoare
              (HasManifest T es)
              (check_cancelled T
                >> (report T (λ t. plain_progress T H finalizing r.copied_files r.copied_bytes)
                    >> (check_cancelled T
                        >> (on_state T audit (
                              H.log (
                                event plan
                                  (codes "MigrationSuccess")
                                  success
                                  (success_details T H r)))
                            >> pure r))))
              (λ r _. r ≡ receipt_of es)
              Any
      rest r e =
          Hoare-bind Any (HasManifest T es) (λ _. HasManifest T es) _ (check_cancelled T) _
            (Hoare-check es)
            (λ _.
              Hoare-bind Any (HasManifest T es) (λ _. HasManifest T es) _
                (report T (λ t. plain_progress T H finalizing r.copied_files r.copied_bytes)) _
                (Hoare-Maintains
                  (report T (λ t. plain_progress T H finalizing r.copied_files r.copied_bytes)) es
                  (Maintains-report T (HasManifest T es) (IsStable-HasManifest T es)
                    (λ t. plain_progress T H finalizing r.copied_files r.copied_bytes)))
                (λ _.
                  Hoare-bind Any (HasManifest T es) (λ _. HasManifest T es) _ (check_cancelled T) _
                    (Hoare-check es)
                    (λ _.
                      Hoare-bind Any (HasManifest T es) (λ _. HasManifest T es) _
                        (on_state T audit (
                          H.log (
                            event plan (codes "MigrationSuccess") success (success_details T H r))))
                        (λ _. pure r) (Hoare-Maintains _ es (record { from = λ w p. p }))
                        (λ _.
                          Hoare-pure Any (HasManifest T es) (λ r _. r ≡ receipt_of es) r
                            (λ w p. e)))))
