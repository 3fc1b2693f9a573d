-- ===== src/Audit/Journal/Bounds.antt =====
-- The size of the journal's file after a write.
use win_profile.Base.{
  ℕ, ◌+◌, ◌≤◌, ◌<◌, ◌≡◌, ◌≢◌, ◌⊎◌, ap, ◌∙◌, Bool, true, false, List, [], ◌∷◌, ◌++◌, none, some, ok,
  Text, length, length-append, arith, with_error, ◌>>=◌, Result-cases, with_error_ok, Option-cases,
  inl, inr, codes, decimal,
}
use win_profile.Base.Hoare.{EndsIn, EndsIn-bind}
use win_profile.Profiles.DirectorySize.{saturating_add, u64_max}
use win_profile.Audit.Journal.{
  io, not_found, collision, other_error, AuditLogger, Storage, line_end, archive_name,
  open_optional, validate_optional_file, move_archives, move_log, current_length, current_bytes,
  rotate_if_needed, open_log_for_append, write_entry,
}
use win_profile.Audit.Journal.Files.{FilesView, StoresFaithfully}

archive-differs : (name : Text) (i : ℕ) → name ≢ archive_name name i
unfolding archive_name
archive-differs name i e = ground (arith, ap length e, length-append name (codes "." ++ decimal i))

module _ {S : Type 0} {T : Storage S} (W : FilesView T) (F : StoresFaithfully W) where
  open W use {file, name_of}

  open_optional-none :
      (n : Text) (s : S) → (open_optional T n s).0 ≡ ok none → file (open_optional T n s).1 n ≡ none
  unfolding open_optional
  open_optional-none n s e = ground (arith, F.open_missing n s, (F.open_keeps n s).files n)

  open_optional-some :
      (n : Text) (s : S) (f : T.File) → (open_optional T n s).0 ≡ ok (some f) → name_of f ≡ n
  unfolding open_optional
  open_optional-some n s f e = ground (arith, F.open_ok n s f)

  validate_optional_file-false :
      (n : Text) (s : S)
      → (validate_optional_file T n s).0 ≡ ok false
      → file (validate_optional_file T n s).1 n ≡ none
  unfolding validate_optional_file
  validate_optional_file-false n s e = ground (arith, open_optional-none n s)

  -- After the log was moved its name is free.
  move_log-ok :
      (logger : AuditLogger) (s : S) (u : Unit {0})
      → (move_log T logger s).0 ≡ ok u
      → file (move_log T logger s).1 logger.log_file_name ≡ none
  unfolding move_log
  move_log-ok logger s u e = ground (
    arith,
    validate_optional_file-false logger.log_file_name s,
    F.rename_ok logger.log_file_name (archive_name logger.log_file_name 1)
        (validate_optional_file T logger.log_file_name s).1 tt,
    archive-differs logger.log_file_name 1,
  )

  -- The length that the rotation compares is that of the file.
  current_bytes-ok :
      (n : Text) (s : S) (k : ℕ) (c : List ℕ)
      → (current_bytes T n s).0 ≡ ok k
      → file (current_bytes T n s).1 n ≡ some c
      → k ≡ length c
  unfolding current_bytes current_length
  current_bytes-ok n s k c e there = elim (Result-cases (open_optional T n s).0) [
    | inl (none, found) ↦ ground (arith, found, open_optional-none n s found)
    | inl (some f, found) ↦
        let t = (open_optional T n s).1 in
        ground (
          arith,
          found,
          open_optional-some n s f found,
          F.len_ok f t k c,
          (F.len_keeps f t).files n,
        )
    | inr (x, bad) ↦ ground (arith, bad)
  ]

  rotate_if_needed-ok :
      (logger : AuditLogger) (added : ℕ) (s : S) (u : Unit {0}) (c : List ℕ)
      → logger.max_log_bytes < u64_max
      → (rotate_if_needed T logger added s).0 ≡ ok u
      → file (rotate_if_needed T logger added s).1 logger.log_file_name ≡ some c
      → length c + added ≤ logger.max_log_bytes
  unfolding rotate_if_needed saturating_add
  rotate_if_needed-ok logger added s u c small e there =
      elim (Result-cases (current_bytes T logger.log_file_name s).0) [
        | inl (k, found) ↦
            let t = (current_bytes T logger.log_file_name s).1 in
            ground (
              arith,
              found,
              current_bytes-ok logger.log_file_name s k c found,
              move_log-ok logger (move_archives T logger logger.max_archives t).1 u,
            )
        | inr (x, bad) ↦ ground (arith, bad)
      ]

  -- The file opened for the entry has the bytes that it had, or none if it is new.
  open_log_for_append-ok :
      (logger : AuditLogger) (s : S) (f : T.File)
      → (open_log_for_append T logger s).0 ≡ ok f
      → (name_of f ≡ logger.log_file_name)
        × ((file (open_log_for_append T logger s).1 logger.log_file_name ≡ some [])
            ⊎ ((file (open_log_for_append T logger s).1 logger.log_file_name
                  ≡ file s logger.log_file_name)
                × (file s logger.log_file_name ≢ none)))
  unfolding open_log_for_append
  open_log_for_append-ok logger s f e =
      elim (Result-cases (T.create_file logger.log_file_name s).0) [
        | inl (g, made) ↦ ground (arith, made, F.create_ok logger.log_file_name s g made)
        | inr (not_found, bad) ↦ ground (arith, bad)
        | inr (other_error x, bad) ↦ ground (arith, bad)
        | inr (collision, bad) ↦
            let t = (T.create_file logger.log_file_name s).1 in
            ground (
              arith,
              bad,
              (F.create_taken logger.log_file_name s bad).files logger.log_file_name,
              F.open_ok logger.log_file_name t f,
              (F.open_keeps logger.log_file_name t).files logger.log_file_name,
            )
      ]

  -- The file ends in the line, and has no more bytes than the limit.
  pub record IsWritten (logger : AuditLogger) (line : List ℕ) (s : S) : Type 0 where
    pub before : List ℕ
    pub content : file s logger.log_file_name ≡ some (before ++ (line ++ line_end ∷ []))
    pub bounded : length (before ++ (line ++ line_end ∷ [])) ≤ logger.max_log_bytes

  append-IsWritten :
      (logger : AuditLogger) (line before : List ℕ) (f : T.File) (s : S) (u : Unit {0})
      → name_of f ≡ logger.log_file_name
      → file s logger.log_file_name ≡ some before
      → length before + (length line + 1) ≤ logger.max_log_bytes
      → (T.append f (line ++ line_end ∷ []) s).0 ≡ ok u
      → IsWritten logger line (T.append f (line ++ line_end ∷ []) s).1
  append-IsWritten logger line before f s u named there room done = record {
    before = before;
    content = ground (arith, F.append_ok f (line ++ line_end ∷ []) before s u);
    bounded =
        omega
          (arith, length-append before (line ++ line_end ∷ []), length-append line (line_end ∷ []));
  }

  open_append-IsWritten :
      (logger : AuditLogger) (line : List ℕ) (s : S)
      → ((c : List ℕ)
          → file s logger.log_file_name ≡ some c
          → length c + (length line + 1) ≤ logger.max_log_bytes)
      → length line + 1 ≤ logger.max_log_bytes
      → EndsIn
          (IsWritten logger line)
          (open_log_for_append T logger >>= λ f. with_error io (T.append f (line ++ line_end ∷ [])))
          s
  open_append-IsWritten logger line s room fits =
      EndsIn-bind _ (open_log_for_append T logger) _ s (λ f opened.
        let t = (open_log_for_append T logger s).1 in
        let append : (c : List ℕ)
            → file t logger.log_file_name ≡ some c
            → length c + (length line + 1) ≤ logger.max_log_bytes
            → EndsIn (IsWritten logger line) (with_error io (T.append f (line ++ line_end ∷ [])))
                t =
          λ c there fits_c. record {
            holds = λ u e.
                append-IsWritten logger line c f t u (open_log_for_append-ok logger s f opened).0
                  there fits_c (with_error_ok io (T.append f (line ++ line_end ∷ [])) t u e);
          } in
        elim (open_log_for_append-ok logger s f opened).1 [
          | inl new ↦ append [] new (omega arith)
          | inr (kept, there) ↦ elim (Option-cases (file s logger.log_file_name)) [
            | inl absent ↦ ground (arith, there absent)
            | inr (c, old) ↦ append c (kept ∙ old) (room c old)
          ]
        ])

  pub write_entry-IsWritten :
      (logger : AuditLogger) (poisoned : Bool) (line : List ℕ) (s : S)
      → logger.max_log_bytes < u64_max
      → length line + 1 ≤ logger.max_log_bytes
      → EndsIn (IsWritten logger line) (write_entry T logger poisoned line) s
  unfolding write_entry
  write_entry-IsWritten logger true line s small fits = record { holds = λ u e. ground arith }
  write_entry-IsWritten logger false line s small fits =
      EndsIn-bind _ (rotate_if_needed T logger (length line + 1)) _ s (λ x rotated.
        open_append-IsWritten logger line (rotate_if_needed T logger (length line + 1) s).1
          (λ c there. rotate_if_needed-ok logger (length line + 1) s x c small rotated there) fits)
