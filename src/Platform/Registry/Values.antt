-- ===== src/Platform/Registry/Values.antt =====
-- Values of crates/platform-win32/src/registry.rs: numbers and strings of a key.
use win_profile.Base.{
  ℕ, zero, suc, ◌+◌, ◌*◌, ◌/◌, ◌%◌, List, [], ◌∷◌, none, some, Result, ok, err, Program, Text, ◌==◌,
  ◌&&◌, not, take, if◌then◌else◌,
}
use win_profile.Platform.Wide.{Wide, to_wide_null, from_wide_null}
use win_profile.Platform.Registry.Api.{
  RegistryError, win32_error, value_not_found, unexpected_value_type, invalid_utf16, Win32Registry,
  QueryOutput, error_success, error_file_not_found, reg_sz, reg_expand_sz, reg_dword,
}

-- A little-endian number; bytes that were not written are 0.
unfoldable pub from_le_bytes : List ℕ → ℕ
from_le_bytes [] = 0
from_le_bytes (b ∷ bs) = b + 256 * from_le_bytes bs

unfoldable pub u32_to_le_bytes : ℕ → List ℕ
u32_to_le_bytes n = n % 256 ∷ n / 256 % 256 ∷ n / 65536 % 256 ∷ n / 16777216 % 256 ∷ []

-- The bytes of a buffer as UTF-16 units; the buffer was zeroed.
unfoldable pub units_of_bytes : List ℕ → Wide
units_of_bytes [] = []
units_of_bytes (low ∷ []) = low ∷ []
units_of_bytes (low ∷ high ∷ rest) = (low + 256 * high) ∷ units_of_bytes rest

-- A zeroed buffer of `n` units after a write.
unfoldable pub fill : ℕ → Wide → Wide
fill zero us = []
fill (suc n) [] = 0 ∷ fill n []
fill (suc n) (u ∷ us) = u ∷ fill n us

units_to_bytes : Wide → List ℕ
units_to_bytes [] = []
units_to_bytes (u ∷ us) = u % 256 ∷ u / 256 ∷ units_to_bytes us

-- The status of a query that failed.
query_error : Text → ℕ → RegistryError
query_error name status =
    if status == error_file_not_found then value_not_found name else win32_error status

number_result : Text → QueryOutput → Result RegistryError ℕ
unfolding query_error from_le_bytes
number_result name out =
    if out.status == error_success
    then (if out.value_type == reg_dword
        then ok (from_le_bytes (take 4 out.bytes))
        else err (unexpected_value_type name reg_dword out.value_type))
    else err (query_error name out.status)

status_value : ℕ → Result RegistryError (Unit {0})
status_value status = if status == error_success then ok tt else err (win32_error status)

-- `expand` is `expand_environment_string`.
unfoldable pub decode_registry_string :
    (Text → Result RegistryError Text) → ℕ → Wide → Result RegistryError Text
unfolding from_wide_null
decode_registry_string expand value_type buffer = elim (from_wide_null invalid_utf16 buffer) [
  | err e ↦ err e
  | ok value ↦ if value_type == reg_expand_sz then expand value else ok value
]

module _ (R : Win32Registry) where
  open R use {State, Hkey}

  unfoldable pub query_value_u32 : Hkey → Text → Program State RegistryError ℕ
  unfolding number_result to_wide_null
  query_value_u32 key name s =
      let (out, s') = R.reg_query_value_ex key (to_wide_null name) (some 4) s in
      (number_result name out, s')

  unfoldable pub set_value_u32 : Hkey → Text → ℕ → Program State RegistryError (Unit {0})
  unfolding status_value to_wide_null u32_to_le_bytes
  set_value_u32 key name val s =
      let (status, s') =
        R.reg_set_value_ex key (to_wide_null name) reg_dword (u32_to_le_bytes val) s in
      (status_value status, s')

  unfoldable pub set_value_string : Hkey → Text → Text → Program State RegistryError (Unit {0})
  unfolding status_value to_wide_null units_to_bytes
  set_value_string key name val s =
      let (status, s') =
        R.reg_set_value_ex key (to_wide_null name) reg_sz (units_to_bytes (to_wide_null val)) s in
      (status_value status, s')

  module _ (expand : Text → Result RegistryError Text) where
    -- The second query, into a buffer of the size that the first one reported.
    unfoldable pub query_string_buffer : Hkey → Text → ℕ → Program State RegistryError Text
    unfolding decode_registry_string fill units_of_bytes to_wide_null
    query_string_buffer key name size s =
        let (out, s') = R.reg_query_value_ex key (to_wide_null name) (some size) s in
        (
          if out.status == error_success
              then decode_registry_string expand out.value_type
                  (fill ((size + 1) / 2) (units_of_bytes out.bytes))
              else err (win32_error out.status),
          s',
        )

    unfoldable pub query_value_string : Hkey → Text → Program State RegistryError Text
    unfolding query_string_buffer query_error to_wide_null
    query_value_string key name s =
        let (out, s') = R.reg_query_value_ex key (to_wide_null name) none s in
        if not (out.status == error_success)
        then (err (query_error name out.status), s')
        else if not (out.value_type == reg_sz) && not (out.value_type == reg_expand_sz)
        then (err (unexpected_value_type name reg_sz out.value_type), s')
        else query_string_buffer key name out.data_size s'
