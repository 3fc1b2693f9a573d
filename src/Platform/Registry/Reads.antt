-- ===== src/Platform/Registry/Reads.antt =====
-- What the queries of crates/platform-win32/src/registry.rs say of the registry's contents.
use win_profile.Base.{
  ℕ, ◌≡◌, ◌≢◌, true, false, List, Option, none, some, ok, Text, take, arith, ◌==◌, if◌then◌else◌,
}
use win_profile.Platform.Registry.Api.{Win32Registry, reg_dword, key_read}
use win_profile.Platform.Registry.Keys.{open_subkey, subkey_exists}
use win_profile.Platform.Registry.Values.{from_le_bytes, query_value_u32}
use win_profile.Platform.Registry.View.{View, ReadsFaithfully}

-- The number of a `REG_DWORD`.
abbrev pub dword_of : Option (ℕ × List ℕ) → Option ℕ
dword_of none = none
dword_of (some (type, bytes)) =
    if type == reg_dword then some (from_le_bytes (take 4 bytes)) else none

module _ {R : Win32Registry} (W : View R) (F : ReadsFaithfully W) where
  open W use {Key, key_of, child, value}

  pub subkey_exists-true :
      (h : R.Hkey) (n : Text) (s : R.State)
      → (subkey_exists R h n s).0 ≡ ok true
      → child s (key_of h) n ≢ none
  unfolding subkey_exists
  subkey_exists-true h n s e = ground (arith, F.open_found h n key_read s)

  pub subkey_exists-false :
      (h : R.Hkey) (n : Text) (s : R.State)
      → (subkey_exists R h n s).0 ≡ ok false
      → child s (key_of h) n ≡ none
  unfolding subkey_exists
  subkey_exists-false h n s e = ground (arith, F.open_missing h n key_read s)

  pub open_subkey-ok :
      (h : R.Hkey) (n : Text) (sam : ℕ) (s : R.State) (o : R.Hkey)
      → (open_subkey R h n sam s).0 ≡ ok o
      → child s (key_of h) n ≡ some (key_of o)
  unfolding open_subkey
  open_subkey-ok h n sam s o e = ground (arith, F.open_found h n sam s)

  pub query_value_u32-ok :
      (h : R.Hkey) (n : Text) (s : R.State) (v : ℕ)
      → (query_value_u32 R h n s).0 ≡ ok v
      → dword_of (value s (key_of h) n) ≡ some v
  unfolding query_value_u32
  query_value_u32-ok h n s v e = ground (arith, F.query_found h n 4 s)
