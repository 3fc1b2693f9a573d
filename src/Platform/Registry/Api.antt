-- ===== src/Platform/Registry/Api.antt =====
-- What crates/platform-win32/src/registry.rs takes from windows-sys, its error type and its roots.
use win_profile.Base.{ℕ, Bool, List, Option, Text}
use win_profile.Platform.Wide.{Wide}

-- `RegistryError`; an `IoError` keeps its text only.
pub data RegistryError : Type 0 where
  win32_error : ℕ → RegistryError
  value_not_found : Text → RegistryError
  unexpected_value_type : Text → ℕ → ℕ → RegistryError
  invalid_utf16 : RegistryError
  environment_expansion_failed : ℕ → RegistryError
  invalid_path : RegistryError
  io_error : Text → RegistryError

pub data RegistryRoot : Type 0 where
  local_machine current_user users classes_root current_config : RegistryRoot

-- What `RegQueryValueExW` gives back: its status, the value's type, the size that it reports and
-- the bytes that it wrote into the caller's buffer.
pub record QueryOutput : Type 0 where
  pub status : ℕ
  pub value_type : ℕ
  pub data_size : ℕ
  pub bytes : List ℕ

-- The registry calls of Windows over an unknown state. A wide string stands for the buffer that a
-- pointer leads to, its NUL included; a capacity `none` is a null pointer.
pub record Win32Registry : Type 1 where
  pub State : Type 0
  pub Hkey : Type 0
  pub is_null : Hkey → Bool
  pub predefined : RegistryRoot → Hkey
  pub reg_open_key_ex : Hkey → Wide → ℕ → State → (ℕ × Hkey) × State
  pub reg_create_key_ex : Hkey → Wide → ℕ → State → (ℕ × Hkey) × State
  pub reg_query_value_ex : Hkey → Wide → Option ℕ → State → QueryOutput × State
  pub reg_set_value_ex : Hkey → Wide → ℕ → List ℕ → State → ℕ × State
  pub reg_delete_value : Hkey → Wide → State → ℕ × State
  pub reg_delete_tree : Hkey → Wide → State → ℕ × State
  pub reg_rename_key : Hkey → Wide → Wide → State → ℕ × State
  pub reg_enum_key_ex : Hkey → ℕ → ℕ → State → (ℕ × Wide) × State
  pub reg_save_key_ex : Hkey → Wide → ℕ → State → ℕ × State
  pub reg_load_key : Hkey → Wide → Wide → State → ℕ × State
  pub reg_unload_key : Hkey → Wide → State → ℕ × State

abbrev pub error_success : ℕ
error_success = 0

abbrev pub error_file_not_found : ℕ
error_file_not_found = 2

abbrev pub error_no_more_items : ℕ
error_no_more_items = 259

abbrev pub reg_sz : ℕ
reg_sz = 1

abbrev pub reg_expand_sz : ℕ
reg_expand_sz = 2

abbrev pub reg_dword : ℕ
reg_dword = 4

abbrev pub reg_latest_format : ℕ
reg_latest_format = 2

abbrev pub key_read : ℕ
key_read = 0x20019

abbrev pub key_all_access : ℕ
key_all_access = 0xf003f
