-- ===== src/Lib.antt =====
-- WinProfile: the repair of Windows user profiles, modelled and verified.
--
-- The program is a Windows desktop tool. It scans the profiles that the registry lists
-- (crates/core-profiles/src/scanner.rs), judges their health (models.rs), shows them with repair
-- suggestions (crates/app-ui/src/state.rs), repairs a profile's keys in a transaction that is
-- rolled back on failure (repair.rs), and writes a durable journal of what it did
-- (crates/audit-journal/src/journal.rs). The registry is reached through
-- crates/platform-win32/src/registry.rs.
--
-- Which file models what:
--   Platform/Wide: to_wide_null and from_wide_null, UTF-16 with surrogates.
--   Platform/Registry: Api has the Windows calls that registry.rs makes, as the record
--     Win32Registry over an unknown state; Keys and Values have the functions of registry.rs, by
--     their names; Display has the messages of RegistryError; Expand has
--     expand_environment_string_with; Enumeration has the names that enum_subkeys lists; View says what the calls are documented to do, in terms of
--     the keys and values that a state holds; Reads derives what the queries say of them.
--   Profiles: Models (models.rs, constants.rs), Report (build_diagnostic_report), DirectorySize
--     (directory_size over the tree that the file system shows), Scanner (the loop body of
--     scan_all_profiles as scan_key and the loop as scan_keys).
--   Ui/State: the projections of crates/app-ui/src/state.rs.
--   Ui/Controller: crates/app-ui/src/controller.rs. Operation has OperationState and the sections
--     that the mutex of the migration's cancellation protects; Operation/Sound interleaves them
--     as steps of the window's thread and the operation's thread; Launch has
--     execute_trustedinstaller_launch.
--   Audit: Event (AuditStatus, AuditEntry) and Journal (AuditLogger); Journal/Files says what the
--     storage is documented to do.
--   Audit/Legacy: crates/audit-journal/src/legacy.rs. Its phases and record; Calls has the storage
--     calls as the record Calls over an unknown state; Transition has execute_recovery from the
--     point where the pending record is loaded, Pending has load_pending_from_bootstrap, and
--     Bootstrap has inspect_under, the whole of execute_recovery as recover, and complete.
--   Audit/Rollback: crates/audit-journal/src/rollback.rs, over the record Artifacts.
--   Audit/Snapshot: crates/audit-journal/src/snapshot.rs, over the record Snapshots; NoNew says
--     what its calls do with the directory's files, Inventory has list_snapshots.
--   Migration: crates/core-profiles/src/migration.rs. Errors; Transaction (CopyTransaction); Paths
--     and Validation (validate_for_execution over the record Places; Validation/Drive has the texts
--     of its paths); Copy (copy_tree_verified over
--     the record Target, which has the calls that write, and over the tree of a source's entries,
--     each with the reads that its file gives); Engine and Engine/Execute (the run, over the
--     record Host).
--   Platform/Tokens: crates/platform-win32/src/tokens.rs. CommandLine (build_windows_command_line;
--     CommandLine/Split has the rules by which Windows programs split it), Session, Service and
--     Launch, over its traits as records.
--   Platform/Security: PrivilegeGuard of crates/platform-win32/src/security.rs.
--   Repair: Env (errors, and the services that the engine calls), Checks (everything that is
--     checked first), Steps (execute_steps, verify, create_required_snapshots), Rollback, and
--     Engine (execute_plan). The proofs are in the child modules.
--   Base: the standard library's part: Result and its monad of state and error, texts as lists of
--     code points, tests on numbers; Base/Hoare has conditions before and after a program.
--   Tests: a small machine and a disk on which every theorem is applied.
--
-- State is passed on explicitly: a function of the source that calls the system is a Program, a
-- function from the state to a Result and the next state, which an error keeps.
--
-- Parameters: the Windows calls, environment expansion, account lookup, the Restart Manager, the
-- clock, JSON, the lower casing of paths and the protected storage. What a theorem needs of them
-- is a named hypothesis: Enumeration.Lists, View.ReadsFaithfully, View.RenamesFaithfully,
-- Keeps.IsFrame, Journal.Files.LocksFaithfully (taking the lock creates its file in the journal's
-- directory), Journal.Files.StoresFaithfully, Bootstrap.Unchanged.ReadsOnly,
-- Copy.Entries.KeepsEntries, Engine.Kept.KeepsJournal, Launch.Accounted.Reaps, Service.Poll.Counts,
-- Security.Restored.Adjusts, Launch.Audited.Records and Snapshot.NoNew.KeepsFiles.
--
-- Bounds and fuel: a u32 is read from four bytes; sizes are added with saturation at 2^64 - 1; the
-- journal's index and line counts are unbounded numbers, since a list of 2^64 items does not fit in
-- memory. enum_subkeys, expand_environment_string_with and the migration's rollback loop on fuel:
-- one round more than there are names, than the largest size that Windows asks for, and than there
-- are created entries is enough. The wait for the TrustedInstaller service counts its 20 rounds
-- down, as the code counts them up. All other loops are structural.
--
-- Not modelled: the window and the part of its controller that draws (crates/app-ui/src), the
-- implementations of the traits of tokens.rs, access control and folder dialogs of
-- crates/platform-win32, the start (startup.rs), locales and translations: they are calls into
-- Windows and the user interface. A migration's directories, the Restart Manager and JSON are
-- parameters. Storage roots are left out: they work on files and security descriptors.
pub mod Base
pub mod Platform
pub mod Profiles
pub mod Ui
pub mod Audit
pub mod Repair
pub mod Migration
pub mod Tests
