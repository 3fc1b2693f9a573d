-- ===== src/Audit/Snapshot/Undone.antt =====
-- `create_registry_snapshot`, by the files that it leaves.
use win_profile.Base.{
  ◌≡◌, ◌⊎◌, inl, inr, refl, false, List, [], ◌∷◌, some, Result, ok, err, map_err, continue, Text,
}
use win_profile.Audit.Snapshot.Create.{
  capture, restore_failure, finish_snapshot_operation, with_privileges, create_registry_snapshot,
}
use win_profile.Audit.Snapshot.{
  SnapshotError, security_error, storage_error, Metadata, Snapshots, metadata_name,
  cleanup_transaction_artifacts,
}
use win_profile.Audit.Snapshot.NoNew.{
  IsReported, Carries, MetadataLeft, MetadataLeft-then, MetadataLeft-before, exists, NoNew, Files,
  KeepsFiles, Without-then, Without-still, Without-widen, both,
}
use win_profile.Audit.Snapshot.Leftovers.{cleanup-both, both-gone}
use win_profile.Audit.Snapshot.Made.{Fresh, Ends, capture-Ends}

module _ {S : Type 0} {F : Snapshots S} (D : Files F) (K : KeepsFiles D) where
  -- With an error, no file appears but the metadata whose creation is the error, or the error says
  -- that files may be left.
  abbrev pub Leaves : S → Result SnapshotError (Metadata F.File) × S → Type 0
  Leaves s (ok metadata, t) = Unit {0}
  Leaves s (err e, t) = IsReported D e ⊎ (NoNew D s t ⊎ Carries D (MetadataLeft D s t) e)

  finish-Leaves :
      (s t : S) (operation : Result SnapshotError (Metadata F.File × F.Created))
      (restored : Result Text (Unit {0}))
      → Ends D K s (operation, t)
      → Leaves s (finish_snapshot_operation F operation restored t)
  unfolding finish_snapshot_operation restore_failure
  finish-Leaves s t (ok (metadata, created)) (ok u) made = tt
  finish-Leaves s t (err e) (ok u) (inl c) = inl (inl c)
  finish-Leaves s t (err e) (ok u) (inr (inl fresh)) = inr (inl fresh)
  finish-Leaves s t (err e) (ok u) (inr (inr l)) = inr (inr (inl l))
  finish-Leaves s t (err e) (err r) (inl c) = inl (inr (e, r, c, refl))
  finish-Leaves s t (err e) (err r) (inr (inl fresh)) = inr (inl fresh)
  finish-Leaves s t (err e) (err r) (inr (inr l)) = inr (inr (inr (e, r, l, refl)))
  finish-Leaves s t (ok (metadata, created)) (err r) made =
      cleaned (cleanup_transaction_artifacts F metadata (some created) t) (
        cleanup-both D K metadata created made.hive made.path made.filename
          (metadata_name made.filename) t made.artifact made.is_open made.is_created)
    where
      n : Text
      n = made.filename

      cleaned :
          (g : List Text × S)
          → Fresh D K t g.1
            × (g.0 ≡ [] → (exists D (metadata_name n) g.1 ≡ false) × (exists D n g.1 ≡ false))
          → Leaves s (err (restore_failure F r g.0), g.1)
      cleaned ([], u) (a, b) = inr (
          inl (
            both-gone D K n s u (Without-still D (both D n) s t u made.others a) (b refl).0
              (b refl).1))
      cleaned (x ∷ xs, u) (a, b) = inl (inl tt)

  -- Steps before and after that add no file.
  Ends-then :
      (s : S) (r : Result SnapshotError (Metadata F.File × F.Created) × S) (u : S)
      → Ends D K s r
      → Fresh D K r.1 u
      → Ends D K s (r.0, u)
  Ends-then s (ok pair, t) u made fresh = record {
    filename = made.filename;
    hive = made.hive;
    path = made.path;
    artifact = made.artifact;
    is_open = made.is_open;
    is_created = made.is_created;
    others = Without-still D (both D made.filename) s t u made.others fresh;
  }
  Ends-then s (err e, t) u (inl c) fresh = inl c
  Ends-then s (err e, t) u (inr (inl a)) fresh =
      inr (inl (Without-then D (λ m. false) s t u a fresh))
  Ends-then s (err e, t) u (inr (inr l)) fresh = inr (inr (MetadataLeft-then D e s t u l fresh))

  Ends-before :
      (s t : S) (r : Result SnapshotError (Metadata F.File × F.Created) × S)
      → Fresh D K s t
      → Ends D K t r
      → Ends D K s r
  Ends-before s t (ok pair, u) fresh made = record {
    filename = made.filename;
    hive = made.hive;
    path = made.path;
    artifact = made.artifact;
    is_open = made.is_open;
    is_created = made.is_created;
    others =
        Without-then D (both D made.filename) s t u
          (Without-widen D (both D made.filename) s t fresh) made.others;
  }
  Ends-before s t (err e, u) fresh (inl c) = inl c
  Ends-before s t (err e, u) fresh (inr (inl a)) =
      inr (inl (Without-then D (λ m. false) s t u fresh a))
  Ends-before s t (err e, u) fresh (inr (inr l)) = inr (inr (MetadataLeft-before D e s t u fresh l))

  with_privileges-Leaves :
      (subkey sid profile_path reason : Text) (s : S)
      → Leaves s (with_privileges F subkey sid profile_path reason s)
  unfolding with_privileges
  with_privileges-Leaves subkey sid profile_path reason s =
      enabled (F.new_privileges s) (K.enabled s)
    where
      finished :
          (r : Result SnapshotError (Metadata F.File × F.Created) × S)
          → Ends D K s r
          → Leaves s (
              finish_snapshot_operation F r.0
                (F.restore_privileges r.1).0
                (F.restore_privileges r.1).1)
      finished r ended =
          finish-Leaves s (F.restore_privileges r.1).1 r.0 (F.restore_privileges r.1).0
            (Ends-then s r (F.restore_privileges r.1).1 ended (K.restored r.1))

      enabled :
          (r : Result Text (Unit {0}) × S)
          → Fresh D K s r.1
          → Leaves s (
              continue
                (map_err security_error r.0, r.1)
                (λ _ s.
                  let (operation, t) = capture F subkey sid profile_path reason s in
                  let (restored, u) = F.restore_privileges t in
                  finish_snapshot_operation F operation restored u))
      enabled (err e, t) fresh = inr (inl fresh)
      enabled (ok x, t) fresh = finished (capture F subkey sid profile_path reason t) (
          Ends-before s t (capture F subkey sid profile_path reason t) fresh
            (capture-Ends D K subkey sid profile_path reason t))

  Leaves-before :
      (s t : S) (r : Result SnapshotError (Metadata F.File) × S)
      → Fresh D K s t
      → Leaves t r
      → Leaves s r
  Leaves-before s t (ok metadata, u) fresh left = tt
  Leaves-before s t (err e, u) fresh (inl reported) = inl reported
  Leaves-before s t (err e, u) fresh (inr (inl a)) =
      inr (inl (Without-then D (λ m. false) s t u fresh a))
  Leaves-before s t (err e, u) fresh (inr (inr (inl l))) =
      inr (inr (inl (MetadataLeft-before D e s t u fresh l)))
  Leaves-before s t (err e, u) fresh (inr (inr (inr (c, r, l, same)))) =
      inr (inr (inr (c, r, MetadataLeft-before D c s t u fresh l, same)))

  Leaves-released :
      (s : S) (r : Result SnapshotError (Metadata F.File) × S)
      → Leaves s r
      → Leaves s (r.0, F.release_lock r.1)
  Leaves-released s (ok metadata, t) left = tt
  Leaves-released s (err e, t) (inl reported) = inl reported
  Leaves-released s (err e, t) (inr (inl fresh)) =
      inr (inl (Without-then D (λ m. false) s t (F.release_lock t) fresh (K.unlocked t)))
  Leaves-released s (err e, t) (inr (inr (inl l))) =
      inr (inr (inl (MetadataLeft-then D e s t (F.release_lock t) l (K.unlocked t))))
  Leaves-released s (err e, t) (inr (inr (inr (c, r, l, same)))) =
      inr (inr (inr (c, r, MetadataLeft-then D c s t (F.release_lock t) l (K.unlocked t), same)))

  -- A snapshot that fails leaves no file that was not there before, the lock's own aside, or its
  -- error says that a cleanup failed, or its error is that of a creation of the metadata file that
  -- failed, and only that file may be new. The calls are taken to treat the directory's files as
  -- documented.
  pub create_registry_snapshot-Leaves :
      (subkey sid profile_path reason : Text) (s : S)
      → Leaves s (create_registry_snapshot F subkey sid profile_path reason s)
  unfolding create_registry_snapshot
  create_registry_snapshot-Leaves subkey sid profile_path reason s =
      locked (F.acquire_lock s) (K.locked s)
    where
      locked :
          (r : Result Text (Unit {0}) × S)
          → Fresh D K s r.1
          → Leaves s (
              continue
                (map_err storage_error r.0, r.1)
                (λ _ s.
                  let (r, t) = with_privileges F subkey sid profile_path reason s in
                  (r, F.release_lock t)))
      locked (err e, t) fresh = inr (inl fresh)
      locked (ok x, t) fresh =
          Leaves-released s (with_privileges F subkey sid profile_path reason t) (
            Leaves-before s t (with_privileges F subkey sid profile_path reason t) fresh
              (with_privileges-Leaves subkey sid profile_path reason t))
