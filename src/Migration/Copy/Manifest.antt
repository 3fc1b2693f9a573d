-- ===== src/Migration/Copy/Manifest.antt =====
-- The copy of a tree, by its manifest.
use win_profile.Base.{
  ℕ, ◌+◌, ◌≡◌, refl, sym, ap, ◌∙◌, subst, List, [], ◌∷◌, ◌++◌, append-nil, append_assoc, length,
  length-append, Option, none, some, ok, err, pure, ◌>>◌, Text, arith,
}
use win_profile.Base.Hoare.{Gives, Gives-bind, Gives-pure}
use win_profile.Profiles.DirectorySize.{saturating_add, join_path}
use win_profile.Profiles.DirectorySize.Sum.{clamp, saturating_add-len}
use win_profile.Migration.Errors.{map_secure_error, io_error}
use win_profile.Migration.Transaction.{
  ManifestEntry, CopyTransaction, display_relative_path, copied_bytes, observe_copy,
}
use win_profile.Migration.Copy.Stable.{Maintains-copy_reads, Maintains-verify_copy}
use win_profile.Migration.Copy.{
  Reads, end, failed, chunk, Source, unlisted, listed, Items, nil, file, denied_directory,
  directory, Target, on_state, change, report, created_entry, created_if_any, progress_of, copying,
  check_cancelled, copy_reads, verify_copy, verify_and_record, copy_contents, copy_created,
  file_entry, with_entry, copy_file_verified, copy_tree_verified, copy_items,
}
use win_profile.Migration.Copy.Grows.{
  files_of, item_files, contents, entry_of, Grows, Grows-bind, Grows-after, Grows-on_state,
  Grows-still, HasManifest, IsStable-HasManifest, Grows-quiet, Grows-check_cancelled, Grows-raise,
}

module _ {S : Type 0} (T : Target S) where
  -- The count and the bytes that the loop gives.
  abbrev IsRead : ℕ → List ℕ → Reads → ℕ × List ℕ → Type 0
  IsRead n seen reads c =
      (c.0 ≡ clamp (n + length (contents reads))) × (c.1 ≡ (seen ++ contents reads))

  entry-copied :
      (path : Text) (copied : ℕ × List ℕ) (reads : Reads)
      → copied.0 ≡ clamp (0 + length (contents reads))
      → copied.1 ≡ contents reads
      → ◌≡◌ {A = ManifestEntry}
          (record {
            relative_path = display_relative_path path;
            size = copied.0;
            sha256 = T.hash copied.1;
          })
          (entry_of T.hash path reads)
  entry-copied path copied reads count read =
      let size : copied.0 ≡ clamp (length (contents reads)) =
        count
        ∙ ap clamp {x = 0 + length (contents reads)} {y = length (contents reads)} (omega arith) in
      rw (size, read)

  copy_reads-IsRead :
      (output : T.Output) (path : Text) (before : ℕ) (reads : Reads) (copied n : ℕ) (seen : List ℕ)
      → copied ≡ clamp n
      → Gives (IsRead n seen reads) (copy_reads T output path before reads copied seen)
  unfolding copy_reads
  copy_reads-IsRead output path before end copied n seen e =
      Gives-bind _ (check_cancelled T) _ (λ _ _ _.
        Gives-pure _ (copied, seen)
          (e ∙ ap clamp {x = n} {y = n + 0} (omega arith), sym (append-nil seen)))
  copy_reads-IsRead output path before (failed x) copied n seen e =
      Gives-bind _ (check_cancelled T) _ (λ _ _ _. record { holds = λ w a h. cc })
  copy_reads-IsRead output path before (chunk bytes reads) copied n seen e =
      let copied' = saturating_add copied (length bytes) in
      let observed = saturating_add before copied' in
      let sum = ap (λ k. saturating_add k (length bytes)) e ∙ saturating_add-len n (length bytes) in
      Gives-bind _ (check_cancelled T) _ (λ _ _ _.
        Gives-bind _ (on_state T io_error (T.write_all output bytes)) _ (λ _ _ _.
          Gives-bind _ (change T (λ t. observe_copy t path observed))
            (λ _.
              report T (progress_of T copying path observed)
              >> copy_reads T output path before reads copied' (seen ++ bytes))
            (λ _ _ _.
              Gives-bind _ (report T (progress_of T copying path observed))
                (λ _. copy_reads T output path before reads copied' (seen ++ bytes))
                (λ _ _ _. record {
                  holds = λ w a h.
                      let (count, read) =
                        (copy_reads-IsRead output path before reads copied' (n + length bytes)
                            (seen ++ bytes) sum).holds
                          w a h in
                      (
                        count
                            ∙ ap clamp {x = n + length bytes + length (contents reads)}
                                {y = n + length (bytes ++ contents reads)}
                                (omega (arith, length-append bytes (contents reads))),
                        read ∙ append_assoc seen bytes (contents reads),
                      );
                }))))

  Grows-verify_and_record :
      (output : T.Output) (path : Text) (copied : ℕ × List ℕ)
      → Grows T (verify_and_record T output path copied) (file_entry T path copied ∷ [])
  unfolding verify_and_record
  Grows-verify_and_record output path copied =
      Grows-after T (verify_copy T output path copied.0 copied.1)
        (λ _. change T (with_entry T (file_entry T path copied))) (file_entry T path copied ∷ [])
        (Grows-quiet T (verify_copy T output path copied.0 copied.1) (λ es.
          Maintains-verify_copy T (HasManifest T es) (IsStable-HasManifest T es) output path
            copied.0 copied.1))
        (λ _ _ _. record { holds = λ v a h. refl })

  Grows-copy_contents :
      (output : T.Output) (path : Text) (reads : Reads) (before : ℕ)
      → Grows T (copy_contents T output path reads before) (entry_of T.hash path reads ∷ [])
  unfolding copy_contents
  Grows-copy_contents output path reads before =
      Grows-after T (copy_reads T output path before reads 0 []) (verify_and_record T output path)
        (entry_of T.hash path reads ∷ [])
        (Grows-quiet T (copy_reads T output path before reads 0 []) (λ es.
          Maintains-copy_reads T (HasManifest T es) (IsStable-HasManifest T es) output path before
            reads 0 []))
        (λ copied w e.
          let (count, read) =
            (copy_reads-IsRead output path before reads 0 0 [] refl).holds w copied e in
          subst (λ entry. Grows T (verify_and_record T output path copied) (entry ∷ []))
            (entry-copied path copied reads count read)
            (Grows-verify_and_record output path copied))

  Grows-copy_file_verified :
      (destination : T.Directory) (name path : Text) (reads : Reads)
      → Grows T
          (copy_file_verified T destination name path (ok reads))
          (entry_of T.hash path reads ∷ [])
  unfolding copy_file_verified copy_created
  Grows-copy_file_verified destination name path reads =
      Grows-after T (on_state T map_secure_error (T.create_file destination name))
        (copy_created T path reads) (entry_of T.hash path reads ∷ [])
        (Grows-on_state T map_secure_error (T.create_file destination name))
        (λ created _ _. record {
          holds = λ w a h.
              (Grows-copy_contents created.0 path reads (copied_bytes w.1)).holds
                (w.0, created_entry T created.1 w.1) a h;
        })

  pub created_if_any-manifest :
      (o : Option T.Created) (t : CopyTransaction T.Created)
      → (created_if_any T o t).manifest ≡ t.manifest
  created_if_any-manifest none t = refl
  created_if_any-manifest (some e) t = refl

  mutual
    unfolding copy_tree_verified copy_items

    pub Grows-tree :
        (source : Source) (destination : T.Directory) (path : Text)
        → Grows T (copy_tree_verified T source destination path) (files_of T.hash path source)
    Grows-tree (unlisted e) destination path = Grows-raise T (map_secure_error e) []
    Grows-tree (listed items) destination path = Grows-items items destination path

    Grows-items :
        (items : Items) (destination : T.Directory) (path : Text)
        → Grows T (copy_items T items destination path) (item_files T.hash path items)
    Grows-items nil destination path = Grows-still T (pure tt) (λ w. refl)
    Grows-items (file name (ok reads) items) destination path =
        Grows-after T (check_cancelled T) _ _ (Grows-check_cancelled T) (λ _ _ _.
          Grows-bind T (copy_file_verified T destination name (join_path path name) (ok reads))
            (λ _. copy_items T items destination path)
            (entry_of T.hash (join_path path name) reads ∷ []) (item_files T.hash path items)
            (Grows-copy_file_verified destination name (join_path path name) reads)
            (λ _ _ _. Grows-items items destination path))
    Grows-items (file name (err e) items) destination path =
        Grows-after T (check_cancelled T) _ _ (Grows-check_cancelled T)
          (λ _ _ _. Grows-raise T (map_secure_error e) _)
    Grows-items (denied_directory name e items) destination path =
        Grows-after T (check_cancelled T) _ _ (Grows-check_cancelled T)
          (λ _ _ _. Grows-raise T (map_secure_error e) _)
    Grows-items (directory name source items) destination path =
        Grows-after T (check_cancelled T) _ _ (Grows-check_cancelled T) (λ _ _ _.
          Grows-after T (on_state T map_secure_error (T.open_or_create_directory destination name))
            _ _ (Grows-on_state T map_secure_error (T.open_or_create_directory destination name))
            (λ child _ _.
              Grows-after T (change T (created_if_any T child.1)) _ _
                (Grows-still T (change T (created_if_any T child.1))
                  (λ w. created_if_any-manifest child.1 w.1))
                (λ _ _ _.
                  Grows-bind T (copy_tree_verified T source child.0 (join_path path name))
                    (λ _. copy_items T items destination path)
                    (files_of T.hash (join_path path name) source) (item_files T.hash path items)
                    (Grows-tree source child.0 (join_path path name))
                    (λ _ _ _. Grows-items items destination path))))

  -- A copy that ends well adds to the manifest exactly the tree's files, each with the length and
  -- the digest of the bytes that were read of it.
  pub copy_tree_verified-manifest :
      (source : Source) (destination : T.Directory) (path : Text) (s : S)
      (t : CopyTransaction T.Created) (u : Unit {0})
      → (copy_tree_verified T source destination path (s, t)).0 ≡ ok u
      → (copy_tree_verified T source destination path (s, t)).1.1.manifest
        ≡ t.manifest ++ files_of T.hash path source
  copy_tree_verified-manifest source destination path s t u h =
      (Grows-tree source destination path).holds (s, t) u h
