-- ===== src/Migration/Copy/Entries.antt =====
-- The copy of a tree, by the entries of the transaction.
use win_profile.Base.{
  ℕ, ◌≡◌, ap, ◌∙◌, List, [], ◌∷◌, ◌++◌, Option, none, some, Result, ok, err, Program, map_err,
  ◌>>=◌, ◌>>◌, continue, Text,
}
use win_profile.Base.Hoare.{Maintains, Maintains-bind}
use win_profile.Profiles.DirectorySize.{join_path}
use win_profile.Migration.Errors.{SecureFsError, map_secure_error}
use win_profile.Migration.Transaction.{CopyTransaction, copied_bytes, observe_copy}
use win_profile.Migration.Copy.Stable.{
  IsStable, Maintains-check_cancelled, Maintains-copy_reads, Maintains-verify_copy,
}
use win_profile.Migration.Copy.{
  Reads, MigrationProgress, Source, unlisted, listed, Items, nil, file, denied_directory, directory,
  Target, Copying, on_state, change, created_entry, created_if_any, check_cancelled, copy_reads,
  verify_copy, verify_and_record, copy_contents, copy_created, file_entry, with_entry,
  copy_file_verified, copy_tree_verified, copy_items,
}

module _ {S : Type 0} (T : Target S) (present : S → List T.Created) where
  abbrev pub Unmoved : {E A : Type 0} → Program S E A → Type 0
  Unmoved m = (s : S) → present (m s).1 ≡ present s

  abbrev pub added :
      {A : Type 0} → List T.Created → Result SecureFsError (A × T.Created) → List T.Created
  added es (ok (a, e)) = es ++ e ∷ []
  added es (err x) = es

  abbrev pub added_if_any :
      {A : Type 0} → List T.Created → Result SecureFsError (A × Option T.Created) → List T.Created
  added_if_any es (ok (a, none)) = es
  added_if_any es (ok (a, some e)) = es ++ e ∷ []
  added_if_any es (err x) = es

  -- What the target's calls are documented to do with the entries that they made: a call that
  -- creates one adds it, one that removes it takes it away, and no other call changes them.
  pub record KeepsEntries : Type 0 where
    pub wrote : (output : T.Output) (bytes : List ℕ) → Unmoved (T.write_all output bytes)
    pub flushed : (output : T.Output) → Unmoved (T.flush output)
    pub synced : (output : T.Output) → Unmoved (T.sync_all output)
    pub sought : (output : T.Output) → Unmoved (T.seek_start output)
    pub measured : (output : T.Output) → Unmoved (T.file_length output)
    pub reread : (output : T.Output) (s : S) → present (T.read_back output s).1 ≡ present s
    pub asked : (s : S) → present (T.is_cancelled s).1 ≡ present s
    pub progressed : (p : MigrationProgress) (s : S) → present (T.on_progress p s) ≡ present s
    pub created_file :
        (d : T.Directory) (name : Text) (s : S)
        → present (T.create_file d name s).1 ≡ added (present s) (T.create_file d name s).0
    pub created_directory :
        (d : T.Directory) (name : Text) (s : S)
        → present (T.create_directory d name s).1
          ≡ added (present s) (T.create_directory d name s).0
    pub opened_directory :
        (d : T.Directory) (name : Text) (s : S)
        → present (T.open_or_create_directory d name s).1
          ≡ added_if_any (present s) (T.open_or_create_directory d name s).0
    pub removed :
        (e : T.Created) (es : List T.Created) (s : S)
        → present s ≡ (es ++ e ∷ [])
        → (T.remove e s).0 ≡ ok tt
        → present (T.remove e s).1 ≡ es

  -- The transaction has the entries that are present.
  abbrev pub Balanced : S × CopyTransaction T.Created → Type 0
  Balanced w = present w.0 ≡ w.1.created_entries

  module _ (K : KeepsEntries) where
    pub IsStable-Balanced : IsStable T Balanced
    unfolding observe_copy
    IsStable-Balanced = record {
      wrote = λ output bytes s t p. K.wrote output bytes s ∙ p;
      flushed = λ output s t p. K.flushed output s ∙ p;
      synced = λ output s t p. K.synced output s ∙ p;
      sought = λ output s t p. K.sought output s ∙ p;
      measured = λ output s t p. K.measured output s ∙ p;
      reread = λ output s t p. K.reread output s ∙ p;
      asked = λ s t p. K.asked s ∙ p;
      progressed = λ g s t p. K.progressed g s ∙ p;
      observed = λ path bytes s t p. p;
    }

    abbrev pub Kept : {A : Type 0} → Copying T A → Type 0
    Kept m = Maintains Balanced m

    -- A call that creates an entry, and its entry in the transaction.
    pub Kept-created :
        {A B : Type 0} (m : Program S SecureFsError (A × T.Created))
        (f : A × T.Created → Copying T B)
        → ((s : S) → present (m s).1 ≡ added (present s) (m s).0)
        → ((c : A × T.Created) (w : S × CopyTransaction T.Created)
            → present w.0 ≡ (w.1.created_entries ++ c.1 ∷ [])
            → Balanced (f c w).1)
        → Kept (on_state T map_secure_error m >>= f)
    Kept-created {A} {B} m f h k = record { from = λ w p. go w (m w.0) (h w.0) p }
      where
        go :
            (w : S × CopyTransaction T.Created) (r : Result SecureFsError (A × T.Created) × S)
            → present r.1 ≡ added (present w.0) r.0
            → Balanced w
            → Balanced (continue (map_err map_secure_error r.0, (r.1, w.1)) f).1
        go w (ok c, s) e p = k c (s, w.1) (e ∙ ap (λ es. es ++ c.1 ∷ []) p)
        go w (err x, s) e p = e ∙ p

    Kept-verify_and_record :
        (output : T.Output) (path : Text) (copied : ℕ × List ℕ)
        → Kept (verify_and_record T output path copied)
    unfolding verify_and_record
    Kept-verify_and_record output path copied =
        Maintains-bind Balanced (verify_copy T output path copied.0 copied.1)
          (λ _. change T (with_entry T (file_entry T path copied)))
          (Maintains-verify_copy T Balanced IsStable-Balanced output path copied.0 copied.1)
          (λ _. record { from = λ w p. p })

    Kept-copy_contents :
        (output : T.Output) (path : Text) (reads : Reads) (before : ℕ)
        → Kept (copy_contents T output path reads before)
    unfolding copy_contents
    Kept-copy_contents output path reads before =
        Maintains-bind Balanced (copy_reads T output path before reads 0 [])
          (verify_and_record T output path)
          (Maintains-copy_reads T Balanced IsStable-Balanced output path before reads 0 [])
          (Kept-verify_and_record output path)

    Kept-copy_file_verified :
        (destination : T.Directory) (name path : Text) (opened : Result SecureFsError Reads)
        → Kept (copy_file_verified T destination name path opened)
    unfolding copy_file_verified copy_created
    Kept-copy_file_verified destination name path (err e) = record { from = λ w p. p }
    Kept-copy_file_verified destination name path (ok reads) =
        Kept-created (T.create_file destination name) (copy_created T path reads)
          (K.created_file destination name)
          (λ c w e.
            (Kept-copy_contents c.0 path reads (copied_bytes w.1)).from
              (w.0, created_entry T c.1 w.1) e)

    -- A directory that is opened or created.
    pub Kept-opened :
        {B : Type 0} (d : T.Directory) (name : Text) (f : T.Directory → Copying T B)
        → ((c : T.Directory) → Kept (f c))
        → Kept (
            on_state T map_secure_error (T.open_or_create_directory d name) >>= λ c.
            change T (created_if_any T c.1) >>= λ _. f c.0)
    Kept-opened {B} d name f k = record {
      from = λ w p. go w (T.open_or_create_directory d name w.0) (K.opened_directory d name w.0) p;
    }
      where
        go :
            (w : S × CopyTransaction T.Created)
            (r : Result SecureFsError (T.Directory × Option T.Created) × S)
            → present r.1 ≡ added_if_any (present w.0) r.0
            → Balanced w
            → Balanced
                (continue
                  (map_err map_secure_error r.0, (r.1, w.1))
                  (λ c. change T (created_if_any T c.1) >>= λ _. f c.0)).1
        go w (ok (c, none), s) e p = (k c).from (s, w.1) (e ∙ p)
        go w (ok (c, some x), s) e p =
            (k c).from (s, created_entry T x w.1) (e ∙ ap (λ es. es ++ x ∷ []) p)
        go w (err x, s) e p = e ∙ p

    mutual
      unfolding copy_tree_verified copy_items

      pub Kept-tree :
          (source : Source) (destination : T.Directory) (path : Text)
          → Kept (copy_tree_verified T source destination path)
      Kept-tree (unlisted e) destination path = record { from = λ w p. p }
      Kept-tree (listed items) destination path = Kept-items items destination path

      pub Kept-items :
          (items : Items) (destination : T.Directory) (path : Text)
          → Kept (copy_items T items destination path)
      Kept-items nil destination path = record { from = λ w p. p }
      Kept-items (file name opened items) destination path =
          Maintains-bind Balanced (check_cancelled T) _
            (Maintains-check_cancelled T Balanced IsStable-Balanced)
            (λ _.
              Maintains-bind Balanced
                (copy_file_verified T destination name (join_path path name) opened)
                (λ _. copy_items T items destination path)
                (Kept-copy_file_verified destination name (join_path path name) opened)
                (λ _. Kept-items items destination path))
      Kept-items (denied_directory name e items) destination path =
          Maintains-bind Balanced (check_cancelled T) _
            (Maintains-check_cancelled T Balanced IsStable-Balanced)
            (λ _. record { from = λ w p. p })
      Kept-items (directory name source items) destination path =
          Maintains-bind Balanced (check_cancelled T) _
            (Maintains-check_cancelled T Balanced IsStable-Balanced)
            (λ _.
              Kept-opened destination name
                (λ c.
                  copy_tree_verified T source c (join_path path name)
                  >> copy_items T items destination path)
                (λ c.
                  Maintains-bind Balanced (copy_tree_verified T source c (join_path path name))
                    (λ _. copy_items T items destination path)
                    (Kept-tree source c (join_path path name))
                    (λ _. Kept-items items destination path)))
