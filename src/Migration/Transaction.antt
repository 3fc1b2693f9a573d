-- ===== src/Migration/Transaction.antt =====
-- `CopyTransaction` of crates/core-profiles/src/migration.rs: the entries created so far, the
-- manifest of verified files, and their rollback.
pub mod Undo
pub mod Sizes
use win_profile.Base.{
  ℕ, zero, suc, ◌+◌, ◌/◌, ◌%◌, Bool, true, false, List, [], ◌∷◌, ◌++◌, Option, none, some, Result,
  ok, err, Program, Text, length, leb, replace_char, if◌then◌else◌,
}
use win_profile.Profiles.DirectorySize.{saturating_add}

-- A verified file: its relative path, its size and its SHA-256.
pub record ManifestEntry : Type 0 where
  pub relative_path : Text
  pub size : ℕ
  pub sha256 : Text

-- `E` is `SecureCreatedEntry`; the last created entry stands last.
pub record CopyTransaction (E : Type 0) : Type 0 where
  pub created_entries : List E
  pub manifest : List ManifestEntry
  pub observed_copied_bytes : ℕ
  pub last_relative_path : Option Text

pub record MigrationReceipt : Type 0 where
  pub copied_files : ℕ
  pub copied_bytes : ℕ
  pub manifest_sha256 : Text

unfoldable pub total_bytes : List ManifestEntry → ℕ → ℕ
unfolding saturating_add
total_bytes [] total = total
total_bytes (e ∷ es) total = total_bytes es (saturating_add total e.size)

maximum : ℕ → ℕ → ℕ
maximum a b = if leb a b then b else a

unfoldable pub display_relative_path : Text → Text
unfolding replace_char
display_relative_path p = replace_char b'\\' b'/' p

-- `if first_error.is_none() { first_error = Some(error) }`
unfoldable pub first_of : {X : Type 0} → Option X → Result X (Unit {0}) → Option X
first_of first (ok _) = first
first_of (some x) (err e) = some x
first_of none (err e) = some e

-- The `count` lowest bytes of a number, the lowest first.
unfoldable pub le_bytes : ℕ → ℕ → List ℕ
le_bytes zero n = []
le_bytes (suc count) n = n % 256 ∷ le_bytes count (n / 256)

-- The bytes of the manifest that are hashed.
unfoldable pub manifest_bytes : (Text → List ℕ) → List ManifestEntry → List ℕ
unfolding le_bytes
manifest_bytes utf8 [] = []
manifest_bytes utf8 (e ∷ es) =
    utf8 e.relative_path
    ++ (0 ∷ le_bytes 8 e.size ++ (utf8 e.sha256 ++ (10 ∷ manifest_bytes utf8 es)))

abbrev pub outcome : {X : Type 0} → Option X → Result X (Unit {0})
outcome none = ok tt
outcome (some e) = err e

module _ {E : Type 0} where
  unfoldable pub completed_files : CopyTransaction E → ℕ
  completed_files t = length t.manifest

  unfoldable pub copied_bytes : CopyTransaction E → ℕ
  unfolding total_bytes maximum
  copied_bytes t = maximum t.observed_copied_bytes (total_bytes t.manifest 0)

  unfoldable pub observe_copy : CopyTransaction E → Text → ℕ → CopyTransaction E
  unfolding display_relative_path
  observe_copy t relative_path bytes = record t {
    observed_copied_bytes = bytes;
    last_relative_path = some (display_relative_path relative_path);
  }

  -- `utf8` is `as_bytes`, and `hash` the SHA-256 of bytes in hexadecimal digits.
  unfoldable pub receipt : (Text → List ℕ) → (List ℕ → Text) → CopyTransaction E → MigrationReceipt
  unfolding total_bytes manifest_bytes
  receipt utf8 hash t = record {
    copied_files = length t.manifest;
    copied_bytes = total_bytes t.manifest 0;
    manifest_sha256 = hash (manifest_bytes utf8 t.manifest);
  }

  -- `entries.pop()`
  unfoldable pub pop : List E → Option (List E × E)
  pop [] = none
  pop (e ∷ es) = elim (pop es) [ none ↦ some ([], e) | some popped ↦ some (e ∷ popped.0, popped.1) ]

  module _ {S X : Type 0} (remove : E → Program S X (Unit {0})) where
    -- The loop of `rollback`, `none` where the fuel runs out.
    unfoldable pub rollback_loop : ℕ → List E → Option X → S → Option ((List E × Option X) × S)
    unfolding pop first_of
    rollback_loop zero entries first s = none
    rollback_loop (suc fuel) entries first s = elim (pop entries) [
      | none ↦ some ((entries, first), s)
      | some popped ↦
          let (r, t) = remove popped.1 s in rollback_loop fuel popped.0 (first_of first r) t
    ]

    unfoldable pub rollback :
        CopyTransaction E → S → Option ((Result X (Unit {0}) × CopyTransaction E) × S)
    unfolding rollback_loop
    rollback t s = elim (rollback_loop (suc (length t.created_entries)) t.created_entries none s) [
      | none ↦ none
      | some done ↦ some ((outcome done.0.1, record t { created_entries = done.0.0 }), done.1)
    ]
