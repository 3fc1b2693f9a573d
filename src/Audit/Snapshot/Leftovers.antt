-- ===== src/Audit/Snapshot/Leftovers.antt =====
-- The cleanups of a snapshot, by the files that they leave.
use win_profile.Base.{
  ◌≡◌, inl, inr, refl, sym, subst, Bool, false, List, [], ◌∷◌, ◌++◌, Option, none, some, Result, ok,
  err, continue, Program, with_error, ◌>>=◌, Text, codes, text_eq, arith,
}
use win_profile.Audit.Journal.{StorageError}
use win_profile.Audit.Snapshot.Create.{write_metadata}
use win_profile.Audit.Snapshot.{
  SnapshotError, storage_error, Metadata, Snapshots, metadata_name, failure_text, rollback_metadata,
  delete_hive, cleanup_transaction_artifacts, with_cleanup_errors, cleanup_after_metadata_error,
  after_removal,
}
use win_profile.Audit.Snapshot.NoNew.{
  Files, exists, KeepsFiles, IsCleanup, Without, NoNew, Without-then, Without-still, Without-narrow,
  Without-one, Undone, both,
}

module _ {S : Type 0} {F : Snapshots S} (D : Files F) where
  module _ (K : KeepsFiles D) where
    failure_text-ok :
        (step : Text) (r : Result StorageError (Unit {0})) → failure_text F step r ≡ [] → r ≡ ok tt
    unfolding failure_text
    failure_text-ok step (ok u) h = refl
    failure_text-ok step (err e) h = cc

    pub removed-Undone :
        {A : Type 0} (Q : A → S → Type 0) (n : Text) (error : SnapshotError)
        (failed : Text → SnapshotError) (s t : S)
        → ((x : Text) → IsCleanup (failed x))
        → Without D (λ m. text_eq m n) s t
        → Undone D Q s (
          err (after_removal F error failed (F.remove_file_if_exists n t).0),
          (F.remove_file_if_exists n t).1,
        )
    unfolding after_removal
    removed-Undone {A} Q n error failed s t reported only = go (F.remove_file_if_exists n t).0 refl
      where
        u : S
        u = (F.remove_file_if_exists n t).1

        go :
            (r : Result StorageError Bool)
            → (F.remove_file_if_exists n t).0 ≡ r
            → Undone D Q s (err (after_removal F error failed r), u)
        go (ok b) e = inr (
            inl (
              Without-one D n s u (Without-still D (λ m. text_eq m n) s t u only (K.removed n t))
                (K.remove_gone n t b e)))
        go (err x) e = inl (reported (F.storage_text x))

    -- What the deletion of a hive gives.
    delete_hive-NoNew : (o : Option (F.File × Text)) (s : S) → NoNew D s (delete_hive F o s).1
    unfolding delete_hive
    delete_hive-NoNew none s = λ m away h. h
    delete_hive-NoNew (some a) s = K.deleted a.0 a.1 s

    delete_hive-gone :
        (o : Option (F.File × Text)) (f : F.File) (p n : Text) (s : S)
        → o ≡ some (f, p)
        → D.IsOpen f n
        → (delete_hive F o s).0 ≡ []
        → exists D n (delete_hive F o s).1 ≡ false
    unfolding delete_hive
    delete_hive-gone none f p n s e is_open h = cc
    delete_hive-gone (some (g, q)) f p n s e is_open h =
        let same : g ≡ f = ground arith in
        K.delete_gone g n q s (subst (λ x. D.IsOpen x n) (sym same) is_open)
          (failure_text-ok (codes "hive: ") (F.delete_open_file g q s).0 h)

    cleanup-hive :
        (meta : Metadata F.File) (f : F.File) (p n : Text) (s : S)
        → meta.protected_artifact ≡ some (f, p)
        → D.IsOpen f n
        → NoNew D s (cleanup_transaction_artifacts F meta none s).1
          × ((cleanup_transaction_artifacts F meta none s).0 ≡ []
              → exists D n (cleanup_transaction_artifacts F meta none s).1 ≡ false)
    unfolding cleanup_transaction_artifacts rollback_metadata
    cleanup-hive meta f p n s e is_open = (
      delete_hive-NoNew meta.protected_artifact s,
      delete_hive-gone meta.protected_artifact f p n s e is_open,
    )

    no_failure : (a b : List Text) → (a ++ b) ≡ [] → (a ≡ []) × (b ≡ [])
    no_failure [] b h = (refl, h)
    no_failure (x ∷ a) b h = cc

    pub cleanup-both :
        (meta : Metadata F.File) (c : F.Created) (f : F.File) (p n k : Text) (s : S)
        → meta.protected_artifact ≡ some (f, p)
        → D.IsOpen f n
        → D.IsCreated c k
        → NoNew D s (cleanup_transaction_artifacts F meta (some c) s).1
          × ((cleanup_transaction_artifacts F meta (some c) s).0 ≡ []
              → (exists D k (cleanup_transaction_artifacts F meta (some c) s).1 ≡ false)
                × (exists D n (cleanup_transaction_artifacts F meta (some c) s).1 ≡ false))
    unfolding cleanup_transaction_artifacts rollback_metadata
    cleanup-both meta c f p n k s e is_open is_created =
        let t = (F.rollback c s).1 in
        let u = (delete_hive F meta.protected_artifact t).1 in
        (
          Without-then D (λ m. false) s t u (K.rolled_back c s)
              (delete_hive-NoNew meta.protected_artifact t),
          λ h.
              let (first, second) =
                no_failure (failure_text F (codes "metadata: ") (F.rollback c s).0)
                  (delete_hive F meta.protected_artifact t).0 h in
              (
                delete_hive-NoNew meta.protected_artifact t k refl (
                    K.rollback_gone c k s is_created
                      (failure_text-ok (codes "metadata: ") (F.rollback c s).0 first)),
                delete_hive-gone meta.protected_artifact f p n t e is_open second,
              ),
        )

    -- Both files are away if nothing failed.
    pub both-gone :
        (n : Text) (s t : S)
        → Without D (both D n) s t
        → exists D (metadata_name n) t ≡ false
        → exists D n t ≡ false
        → NoNew D s t
    both-gone n s t a k h =
        Without-one D n s t (Without-narrow D (λ m. text_eq m n) (metadata_name n) s t a k) h

    -- The hive is deleted when the creation of its metadata failed.
    pub cleanup_hive-Undone :
        {A : Type 0} (Q : A → S → Type 0) (meta : Metadata F.File) (f : F.File) (p n : Text)
        (at : S) (x : StorageError) (s t : S)
        → meta.protected_artifact ≡ some (f, p)
        → D.IsOpen f n
        → (F.create_file (metadata_name n) at).0 ≡ err x
        → Without D (both D n) s t
        → Undone D Q s
            (cleanup_after_metadata_error F meta none (storage_error (F.storage_text x)) t)
    unfolding cleanup_after_metadata_error with_cleanup_errors
    cleanup_hive-Undone {A} Q meta f p n at x s t artifact is_open failed only =
        go (cleanup_transaction_artifacts F meta none t)
          (cleanup-hive meta f p n t artifact is_open)
      where
        go :
            (r : List Text × S)
            → NoNew D t r.1 × (r.0 ≡ [] → exists D n r.1 ≡ false)
            → Undone D Q s (err (with_cleanup_errors F (storage_error (F.storage_text x)) r.0), r.1)
        go ([], u) (a, b) = inr (
            inr record {
              name = n;
              at = at;
              reason = x;
              failed = failed;
              error = refl;
              others =
                  Without-narrow D (λ m. text_eq m (metadata_name n)) n s u
                    (λ m away free.
                      Without-still D (both D n) s t u only a m (ground (arith, away)) free)
                    (b refl);
            })
        go (y ∷ ys, u) (a, b) = inl tt

    pub cleanup_both-Undone :
        {A : Type 0} (Q : A → S → Type 0) (meta : Metadata F.File) (c : F.Created) (f : F.File)
        (p n : Text) (e : SnapshotError) (s t : S)
        → meta.protected_artifact ≡ some (f, p)
        → D.IsOpen f n
        → D.IsCreated c (metadata_name n)
        → Without D (both D n) s t
        → Undone D Q s (cleanup_after_metadata_error F meta (some c) e t)
    unfolding cleanup_after_metadata_error with_cleanup_errors
    cleanup_both-Undone {A} Q meta c f p n e s t artifact is_open is_created only =
        go (cleanup_transaction_artifacts F meta (some c) t)
          (cleanup-both meta c f p n (metadata_name n) t artifact is_open is_created)
      where
        go :
            (r : List Text × S)
            → NoNew D t r.1
              × (r.0 ≡ [] → (exists D (metadata_name n) r.1 ≡ false) × (exists D n r.1 ≡ false))
            → Undone D Q s (err (with_cleanup_errors F e r.0), r.1)
        go ([], u) (a, b) =
            inr (
              inl (both-gone n s u (Without-still D (both D n) s t u only a) (b refl).0 (b refl).1))
        go (x ∷ xs, u) (a, b) = inl tt

    -- Programs that add no file.
    pub NoNew-bind :
        {E A B : Type 0} (m : Program S E A) (f : A → Program S E B)
        → ((s : S) → NoNew D s (m s).1)
        → ((a : A) (s : S) → NoNew D s (f a s).1)
        → (s : S) → NoNew D s ((m >>= f) s).1
    NoNew-bind {E} {A} {B} m f h k s = go (m s) (h s)
      where
        go : (r : Result E A × S) → NoNew D s r.1 → NoNew D s (continue r f).1
        go (ok a, t) n = Without-then D (λ m. false) s t (f a t).1 n (k a t)
        go (err e, t) n = n

    pub write_metadata-NoNew :
        (c : F.Created) (meta : Metadata F.File) (s : S) → NoNew D s (write_metadata F c meta s).1
    unfolding write_metadata
    write_metadata-NoNew c meta s =
        NoNew-bind (with_error SnapshotError.io_error (F.to_writer_pretty c meta))
          (λ _. with_error SnapshotError.io_error (F.flush c) >>= λ _.
            with_error SnapshotError.io_error (F.sync_all c))
          (K.written c meta)
          (λ _.
            NoNew-bind (with_error SnapshotError.io_error (F.flush c))
              (λ _. with_error SnapshotError.io_error (F.sync_all c)) (K.flushed c)
              (λ _. K.synced c))
          s
