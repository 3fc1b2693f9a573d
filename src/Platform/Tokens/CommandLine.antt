-- ===== src/Platform/Tokens/CommandLine.antt =====
-- The command line that a launched process gets: `build_windows_command_line` and
-- `append_quoted_argument` of crates/platform-win32/src/tokens.rs.
pub mod Arguments
pub mod Split
pub mod RoundTrip
use win_profile.Base.{
  ℕ, zero, suc, ◌+◌, ◌*◌, Bool, ◌||◌, List, [], ◌∷◌, ◌++◌, any, is_empty, ◌==◌, if◌then◌else◌,
}
use win_profile.Platform.Wide.{Wide}

-- `std::iter::repeat_n(b'\\' as u16, n)`
abbrev pub backslashes : ℕ → Wide
backslashes zero = []
backslashes (suc n) = b'\\' ∷ backslashes n

unfoldable pub needs_quotes : Wide → Bool
needs_quotes units = is_empty units || any (λ u. u == b' ' || u == 9 || u == b'"') units

-- The units that the loop and what follows it append, with `n` backslashes counted.
unfoldable pub quote_units : Wide → ℕ → Wide
quote_units [] n = backslashes (n * 2) ++ b'"' ∷ []
quote_units (u ∷ us) n =
    let counted = quote_units us (n + 1) in
    let rest = quote_units us 0 in
    if u == b'\\'
    then counted
    else if u == b'"'
    then backslashes (n * 2 + 1) ++ u ∷ rest
    else backslashes n ++ u ∷ rest

unfoldable pub append_quoted_argument : Wide → Wide → Wide
unfolding needs_quotes quote_units
append_quoted_argument command_line units =
    if needs_quotes units then command_line ++ b'"' ∷ quote_units units 0 else command_line ++ units

unfoldable pub append_arguments : Wide → List Wide → Wide
unfolding append_quoted_argument
append_arguments command_line [] = command_line
append_arguments command_line (a ∷ arguments) =
    append_arguments (append_quoted_argument (command_line ++ b' ' ∷ []) a) arguments

unfoldable pub build_windows_command_line : Wide → List Wide → Wide
unfolding append_arguments append_quoted_argument
build_windows_command_line application arguments =
    append_arguments (append_quoted_argument [] application) arguments ++ 0 ∷ []
