-- ===== src/Platform/Registry/Display.antt =====
-- The messages of `RegistryError`, crates/platform-win32/src/registry.rs.
use win_profile.Base.{◌++◌, Text, codes, decimal}
use win_profile.Platform.Registry.Api.{
  RegistryError, win32_error, value_not_found, unexpected_value_type, invalid_utf16,
  environment_expansion_failed, invalid_path, io_error,
}

-- `error.to_string()`
unfoldable pub display : RegistryError → Text
unfolding decimal
display (win32_error code) =
    codes "Registry operation failed with Win32 error code: " ++ decimal code
display (value_not_found name) = codes "Registry value '" ++ (name ++ codes "' not found")
display (unexpected_value_type name expected actual) =
    codes "Registry value '"
    ++ (name
        ++ (codes "' has type " ++ (decimal actual ++ (codes ", expected " ++ decimal expected))))
display invalid_utf16 = codes "Invalid UTF-16 registry data"
display (environment_expansion_failed code) =
    codes "Environment expansion failed with Win32 error code: " ++ decimal code
display invalid_path = codes "Registry key path cannot be converted to wide string"
display (io_error text) = codes "IO error: " ++ text
