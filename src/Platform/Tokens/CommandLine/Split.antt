-- ===== src/Platform/Tokens/CommandLine/Split.antt =====
-- The documented rules by which a program of Windows splits what follows its name on the command
-- line: the specification that the command line is read by.
use win_profile.Base.{
  ℕ, ◌+◌, ◌/◌, ◌%◌, Bool, true, false, not, List, [], ◌∷◌, ◌++◌, Option, none, some, ◌==◌,
  if◌then◌else◌,
}
use win_profile.Platform.Wide.{Wide}
use win_profile.Platform.Tokens.CommandLine.{backslashes}

pub data Class : Type 0 where
  end backslash quote blank other : Class

abbrev pub class_of : ℕ → Class
class_of c =
    if c == 0
    then Class.end
    else if c == b'\\'
    then Class.backslash
    else if c == b'"'
    then Class.quote
    else if c == b' '
    then Class.blank
    else if c == 9
    then Class.blank
    else Class.other

-- The argument under way with more units, if there is none it begins.
abbrev pub longer : Option Wide → Wide → Option Wide
longer none units = some units
longer (some a) units = some (a ++ units)

-- The argument under way, if any, ended by the backslashes before its end.
abbrev pub finished : Option Wide → ℕ → List Wide → List Wide
finished none n rest = rest
finished (some a) n rest = (a ++ backslashes n) ∷ rest

-- `n` backslashes were read last, `quoted` says that a quotation is open.
--   2n backslashes and a quotation mark stand for n backslashes and open or close a quotation;
--   2n + 1 backslashes and a quotation mark stand for n backslashes and the mark;
--   other backslashes stand for themselves; a blank outside a quotation ends an argument.
unfoldable pub split_arguments : Wide → ℕ → Bool → Option Wide → List Wide
split_arguments [] n quoted current = finished current n []
split_arguments (c ∷ s) n quoted current = elim (class_of c) [
  | Class.end ↦ finished current n []
  | Class.backslash ↦ split_arguments s (n + 1) quoted (longer current [])
  | Class.quote ↦ elim (n % 2 == 0) [
    | true ↦ split_arguments s 0 (not quoted) (longer current (backslashes (n / 2)))
    | false ↦ split_arguments s 0 quoted (longer current (backslashes (n / 2) ++ c ∷ []))
  ]
  | Class.blank ↦ elim quoted [
    | true ↦ split_arguments s 0 true (longer current (backslashes n ++ c ∷ []))
    | false ↦ finished current n (split_arguments s 0 false none)
  ]
  | Class.other ↦ split_arguments s 0 quoted (longer current (backslashes n ++ c ∷ []))
]
