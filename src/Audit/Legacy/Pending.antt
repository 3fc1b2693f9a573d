-- ===== src/Audit/Legacy/Pending.antt =====
-- `load_pending_from_bootstrap` of crates/audit-journal/src/legacy.rs: the records on disk, grouped
-- by migration, checked, and reduced to the one that is unfinished.
pub mod Runs
use win_profile.Base.{
  ℕ, ◌+◌, Bool, true, false, not, ◌&&◌, ◌||◌, List, [], ◌∷◌, ◌++◌, Option, none, some, Result, ok,
  err, Program, pure, raise, lift, continue, ◌>>=◌, ◌>>◌, with_error, map_err, raise_if, Text,
  codes, text_eq, starts_with, ends_with, ltb, ◌==◌, if◌then◌else◌,
}
use win_profile.Audit.Legacy.{
  MigrationPhase, prepared, done, phase_number, phase_eq, next, MigrationStateRecord,
  state_file_name,
}
use win_profile.Audit.Legacy.Calls.{
  LegacyStorageError, storage, io, invalid_state, ambiguous_state, Calls,
}

-- The order of the keys of a `BTreeMap`.
text_lt : Text → Text → Bool
text_lt [] [] = false
text_lt [] (y ∷ ys) = true
text_lt (x ∷ xs) [] = false
text_lt (x ∷ xs) (y ∷ ys) = ltb x y || (x == y && text_lt xs ys)

abbrev pub Groups : Type 0
Groups = List (Text × List MigrationStateRecord)

-- `grouped.entry(id).or_default().push(record)`
unfoldable pub add_record : MigrationStateRecord → Groups → Groups
unfolding text_lt
add_record record_ [] = (record_.migration_id, record_ ∷ []) ∷ []
add_record record_ ((id, records) ∷ groups) =
    let rest = add_record record_ groups in
    if text_eq record_.migration_id id
    then (id, records ++ record_ ∷ []) ∷ groups
    else if text_lt record_.migration_id id
    then (record_.migration_id, record_ ∷ []) ∷ (id, records) ∷ groups
    else (id, records) ∷ rest

-- A stable sort by phase.
unfoldable pub insert_by_phase :
    MigrationStateRecord → List MigrationStateRecord → List MigrationStateRecord
insert_by_phase r [] = r ∷ []
insert_by_phase r (x ∷ xs) =
    let rest = insert_by_phase r xs in
    if ltb (phase_number x.phase) (phase_number r.phase) then x ∷ rest else r ∷ x ∷ xs

unfoldable pub sort_by_phase : List MigrationStateRecord → List MigrationStateRecord
unfolding insert_by_phase
sort_by_phase [] = []
sort_by_phase (r ∷ rs) = insert_by_phase r (sort_by_phase rs)

unfoldable pub is_next : Option MigrationPhase → MigrationPhase → Bool
is_next none p = false
is_next (some q) p = phase_eq q p

-- A record and the one of the following phase.
unfoldable pub follows : MigrationStateRecord → MigrationStateRecord → Bool
unfolding is_next next
follows a b =
    is_next (next a.phase) b.phase
    && a.source_identity == b.source_identity
    && a.next_identity == b.next_identity
    && text_eq a.legacy_name b.legacy_name
    && text_eq a.next_name b.next_name

-- The latest of sorted records, each of which follows the one before it.
unfoldable pub check_windows :
    MigrationStateRecord
    → List MigrationStateRecord
    → Result LegacyStorageError MigrationStateRecord
unfolding follows
check_windows first [] = ok first
check_windows first (r ∷ rest) =
    let latest = check_windows r rest in
    if follows first r
    then latest
    else err (invalid_state (codes "migration state sequence is inconsistent"))

unfoldable pub check_sorted :
    List MigrationStateRecord → Result LegacyStorageError MigrationStateRecord
unfolding check_windows
check_sorted [] = err (invalid_state (codes "migration does not start at prepared"))
check_sorted (first ∷ rest) =
    if phase_eq first.phase prepared
    then check_windows first rest
    else err (invalid_state (codes "migration does not start at prepared"))

unfoldable pub check_group :
    List MigrationStateRecord → Result LegacyStorageError MigrationStateRecord
unfolding sort_by_phase check_sorted
check_group records = check_sorted (sort_by_phase records)

-- The unfinished migrations, in the order of their names.
unfoldable pub unfinished :
    Groups → List MigrationStateRecord → Result LegacyStorageError (List MigrationStateRecord)
unfolding check_group
unfinished [] pending = ok pending
unfinished ((id, records) ∷ groups) pending = elim (check_group records) [
  | err e ↦ err e
  | ok latest ↦
      if phase_eq latest.phase done
      then unfinished groups pending
      else unfinished groups (pending ++ latest ∷ [])
]

unfoldable pub choose_pending :
    List MigrationStateRecord → Result LegacyStorageError (Option MigrationStateRecord)
choose_pending [] = ok none
choose_pending (r ∷ []) = ok (some r)
choose_pending (r ∷ q ∷ rest) = err ambiguous_state

module _ {S : Type 0} (C : Calls S) where
  unfoldable pub load_record : Text → Program S LegacyStorageError MigrationStateRecord
  unfolding state_file_name
  load_record name = do
    read ← with_error storage (C.read_bytes name)
    bytes ← lift (map_err io read)
    record_ ← lift (map_err (λ e. invalid_state (name ++ (codes ": " ++ e))) (C.from_json bytes))
    raise_if (not (record_.schema == 1) || not (text_eq (state_file_name record_) name))
        (invalid_state (codes "state filename/content mismatch: " ++ name))
    pure record_

  -- The entries of the directory; a name that is not Unicode is passed over.
  unfoldable pub load_groups : List (Option Text) → Groups → Program S LegacyStorageError Groups
  unfolding load_record add_record ends_with
  load_groups [] groups = pure groups
  load_groups (none ∷ names) groups = load_groups names groups
  load_groups (some name ∷ names) groups =
      if not (starts_with name (codes "migration-")) || not (ends_with name (codes ".json"))
      then load_groups names groups
      else (do record_ ← load_record name; load_groups names (add_record record_ groups))

  unfoldable pub load_pending_from_bootstrap :
      Program S LegacyStorageError (Option MigrationStateRecord)
  unfolding load_groups unfinished choose_pending
  load_pending_from_bootstrap = do
    names ← with_error storage C.entries
    groups ← load_groups names []
    pending ← lift (unfinished groups [])
    lift (choose_pending pending)
