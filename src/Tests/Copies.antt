-- ===== src/Tests/Copies.antt =====
-- Runs of a migration's parts, of the listing of a key and of a snapshot's restoration.
use win_profile.Base.{
  ℕ, ◌≡◌, ◌≤◌, ◌⊎◌, inl, inr, arith, ◌↔◌, refl, true, false, List, [], ◌∷◌, ◌++◌, none, some, ok,
  err, Program, Text, codes, ◌+◌, ◌==◌, any, split, ascii_lower, map, if◌then◌else◌, All,
}
use win_profile.Profiles.DirectorySize.Sum.{clamp}
use win_profile.Platform.Wide.{Wide}
use win_profile.Platform.Registry.Keys.{enum_subkeys}
use win_profile.Platform.Registry.Enumeration.{listed, Lists, enum_subkeys-names}
use win_profile.Platform.Registry.Api.{Win32Registry}
use win_profile.Platform.Wide.Decode.{IsScalar}
use win_profile.Migration.Transaction.{CopyTransaction, first_of, rollback, receipt, copied_bytes}
use win_profile.Migration.Transaction.Undo.{rollback-removed}
use win_profile.Migration.Transaction.Sizes.{receipt-sizes}
use win_profile.Migration.Paths.{
  paths_overlap, normalized_path_key, validate_raw_release_path, is_ascii_letter, is_dotted,
}
use win_profile.Migration.Paths.Overlap.{paths_overlap_iff, validate_raw_release_path-ok}
use win_profile.Audit.Rollback.{
  RollbackError, Artifacts, SnapshotMetadata, restore_registry_snapshot_with,
}
use win_profile.Audit.Rollback.Guard.{IsGenuine, restore_registry_snapshot_with-IsGenuine}
use win_profile.Tests.Machine.{machine, list_key, start}

abbrev copied : CopyTransaction ℕ
copied = record {
  created_entries = 1 ∷ 2 ∷ 3 ∷ [];
  manifest = record { relative_path = codes "a\\b"; size = 5; sha256 = [] } ∷ [];
  observed_copied_bytes = 7;
  last_relative_path = none;
}

-- The second entry cannot be removed; the state collects the attempts.
abbrev remove : ℕ → Program (List ℕ) ℕ (Unit {0})
remove e s = (if e == 2 then err 5 else ok tt, e ∷ s)

rollback-removed_example :
    rollback remove copied []
    ≡ some ((err 5, record copied { created_entries = [] }), 1 ∷ 2 ∷ 3 ∷ [])
unfolding first_of
rollback-removed_example = rollback-removed remove copied []

receipt-sizes_example :
    ((receipt (λ t. t) (λ bytes. codes "h") copied).copied_bytes ≡ clamp 5)
    × ((receipt (λ t. t) (λ bytes. codes "h") copied).copied_bytes ≤ copied_bytes copied)
receipt-sizes_example = receipt-sizes (λ t. t) (λ bytes. codes "h") copied

paths_overlap_iff_example :
    (paths_overlap (map ascii_lower) (codes "C:\\A") (codes "c:/a/b") ≡ true) ↔ (
      (codes "c:\\a" ≡ codes "c:\\a\\b")
      ⊎ (((t : Text) × (codes "c:\\a\\b" ≡ (codes "c:\\a" ++ b'\\' ∷ t)))
          ⊎ ((t : Text) × (codes "c:\\a" ≡ (codes "c:\\a\\b" ++ b'\\' ∷ t)))))
unfolding normalized_path_key ascii_lower
paths_overlap_iff_example = paths_overlap_iff (map ascii_lower) (codes "C:\\A") (codes "c:/a/b")

validate_raw_release_path-ok_example :
    (drive : ℕ) × (rest : Wide) × (codes "C:\\a" ≡ (drive ∷ b':' ∷ b'\\' ∷ rest))
    × (is_ascii_letter drive ≡ true)
    × (any (λ c. c == b'/') (codes "C:\\a") ≡ false)
    × ((rest ≡ []) ⊎ (any is_dotted (split b'\\' rest) ≡ false))
validate_raw_release_path-ok_example =
    validate_raw_release_path-ok (codes "C:\\a") (codes "source") tt
      (unfold validate_raw_release_path in refl)

-- Every key has two subkeys, one of them with a name outside ASCII.
abbrev names : List Text
names = codes "S-1" ∷ (0x1F600 ∷ []) ∷ []

unfoldable listing_machine : Win32Registry
unfolding machine
listing_machine = record machine { reg_enum_key_ex = λ h i n s. (listed names i, s) }

unfoldable key : listing_machine.Hkey
unfolding machine listing_machine
key = list_key

unfoldable listed_state : listing_machine.State
unfolding machine listing_machine
listed_state = start

listing : Lists listing_machine key listed_state names
unfolding machine listing_machine
listing = record { at = λ i. refl }

names-IsScalar : All (All IsScalar) names
names-IsScalar = (
  (
    (ground arith, ground arith, inl (ground arith)),
    (
      (ground arith, ground arith, inl (ground arith)),
      ((ground arith, ground arith, inl (ground arith)), tt),
    ),
  ),
  (((ground arith, ground arith, inr (ground arith)), tt), tt),
)

enum_subkeys-names_example :
    enum_subkeys listing_machine 3 key listed_state ≡ some (ok names, listed_state)
enum_subkeys-names_example =
    enum_subkeys-names listing_machine key listed_state names names-IsScalar listing

abbrev artifacts : Artifacts ℕ
artifacts = record {
  Artifact = ℕ;
  path = λ a. codes "f";
  identity = λ a. record { volume_serial = 1; file_index = a };
  file_identity = λ a s. (ok record { volume_serial = 1; file_index = a }, s);
  sha256_file = λ a s. (ok (codes "d"), s);
}

abbrev snapshot : SnapshotMetadata ℕ
snapshot = record {
  registry_key_path = codes "HKLM\\K";
  sha256 = codes "d";
  file_volume_serial = 1;
  file_index = 4;
  artifact = some 4;
}

abbrev kept : Text → Text → Program ℕ RollbackError (Unit {0})
kept p e s = (ok tt, s)

abbrev replaced : Text → Text → Program ℕ RollbackError (Unit {0})
replaced p e s = (ok tt, s + 1)

restore_registry_snapshot_with-IsGenuine_example :
    (restore_registry_snapshot_with artifacts snapshot (codes "hklm\\k") kept 0
      ≡ restore_registry_snapshot_with artifacts snapshot (codes "hklm\\k") replaced 0)
    ⊎ IsGenuine artifacts snapshot (codes "hklm\\k") 0
restore_registry_snapshot_with-IsGenuine_example =
    restore_registry_snapshot_with-IsGenuine artifacts snapshot (codes "hklm\\k") 0 kept replaced
