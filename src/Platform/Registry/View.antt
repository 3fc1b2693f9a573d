-- ===== src/Platform/Registry/View.antt =====
-- The keys and values that a registry's state holds, and what is documented of the calls that
-- read and change them. A handle stays with its key when the key is renamed.
use win_profile.Base.{
  ℕ, ◌≡◌, ◌≢◌, Bool, true, List, [], ◌∷◌, ◌++◌, Option, none, some, Text, refl, ◌∙◌, if◌then◌else◌,
  false, not, ◌&&◌, ◌==◌, any, any-append, is_empty, arith,
}
use win_profile.Platform.Wide.{to_wide_null}
use win_profile.Platform.Registry.Api.{Win32Registry, error_success, error_file_not_found}

abbrev pub separates : ℕ → Bool
separates c = c == b'\\'

-- The name of one key, and no path.
unfoldable pub is_plain : Text → Bool
is_plain n = not (is_empty n) && not (any separates n)

pub is_plain-append :
    (a b : Text) → is_plain a ≡ true → any separates b ≡ false → is_plain (a ++ b) ≡ true
unfolding is_plain
is_plain-append [] b h k = cc
is_plain-append (x ∷ a) b h k = ground (arith, any-append separates a b)

-- `same` compares key names as Windows does.
pub record View (R : Win32Registry) : Type 1 where
  pub Key : Type 0
  pub key_of : R.Hkey → Key
  pub child : R.State → Key → Text → Option Key
  pub value : R.State → Key → Text → Option (ℕ × List ℕ)
  pub same : Text → Text → Bool

module _ {R : Win32Registry} (W : View R) where
  open W use {Key, key_of, child, value, same}

  -- Two states hold the same keys and values.
  pub record SameContents (s t : R.State) : Type 0 where
    pub children : (k : Key) (n : Text) → child t k n ≡ child s k n
    pub values : (k : Key) (n : Text) → value t k n ≡ value s k n

  pub SameContents-refl : (s : R.State) → SameContents s s
  SameContents-refl s = record { children = λ k n. refl; values = λ k n. refl }

  pub SameContents-trans :
      (s t u : R.State) → SameContents s t → SameContents t u → SameContents s u
  SameContents-trans s t u h k = record {
    children = λ a n. k.children a n ∙ h.children a n;
    values = λ a n. k.values a n ∙ h.values a n;
  }

  -- What opening and reading show.
  pub record ReadsFaithfully : Type 0 where
    pub open_found :
        (h : R.Hkey) (n : Text) (sam : ℕ) (s : R.State)
        → (R.reg_open_key_ex h (to_wide_null n) sam s).0.0 ≡ error_success
        → child s (key_of h) n ≡ some (key_of (R.reg_open_key_ex h (to_wide_null n) sam s).0.1)
    pub open_missing :
        (h : R.Hkey) (n : Text) (sam : ℕ) (s : R.State)
        → (R.reg_open_key_ex h (to_wide_null n) sam s).0.0 ≡ error_file_not_found
        → child s (key_of h) n ≡ none
    pub query_found :
        (h : R.Hkey) (n : Text) (capacity : ℕ) (s : R.State)
        → let out = (R.reg_query_value_ex h (to_wide_null n) (some capacity) s).0 in
          out.status ≡ error_success → value s (key_of h) n ≡ some (out.value_type, out.bytes)

  -- What renaming a direct subkey does, to the direct subkeys: on success the key is under the new name, which was free, and nowhere
  -- else; on failure nothing changed. Values stay.
  pub record RenamesFaithfully : Type 0 where
    pub rename_found :
        (h : R.Hkey) (old new : Text) (s : R.State)
        → is_plain old ≡ true
        → is_plain new ≡ true
        → (R.reg_rename_key h (to_wide_null old) (to_wide_null new) s).0 ≡ error_success
        → (child s (key_of h) old ≢ none) × (child s (key_of h) new ≡ none)
    pub rename_children :
        (h : R.Hkey) (old new : Text) (s : R.State)
        → is_plain old ≡ true
        → is_plain new ≡ true
        → (R.reg_rename_key h (to_wide_null old) (to_wide_null new) s).0 ≡ error_success
        → (n : Text) → is_plain n ≡ true
        → child (R.reg_rename_key h (to_wide_null old) (to_wide_null new) s).1 (key_of h) n ≡ (
            if same n new
            then child s (key_of h) old
            else if same n old
            then none
            else child s (key_of h) n)
    pub rename_failed :
        (h : R.Hkey) (old new : Text) (s : R.State)
        → (R.reg_rename_key h (to_wide_null old) (to_wide_null new) s).0 ≢ error_success
        → (n : Text)
        → child (R.reg_rename_key h (to_wide_null old) (to_wide_null new) s).1 (key_of h) n
          ≡ child s (key_of h) n
    pub same_child :
        (s : R.State) (k : Key) (m n : Text) → same m n ≡ true → child s k m ≡ child s k n
    pub same_refl : (n : Text) → same n n ≡ true

  -- Two states hold the same direct subkeys of a key.
  pub record SameNames (k : Key) (s t : R.State) : Type 0 where
    pub names : (n : Text) → is_plain n ≡ true → child t k n ≡ child s k n

  pub SameNames-refl : (k : Key) (s : R.State) → SameNames k s s
  SameNames-refl k s = record { names = λ n plain. refl }

  pub SameNames-trans :
      (k : Key) (s t u : R.State) → SameNames k s t → SameNames k t u → SameNames k s u
  SameNames-trans k s t u h g = record { names = λ n plain. g.names n plain ∙ h.names n plain }
