-- ===== src/Platform/Tokens/CommandLine/RoundTrip.antt =====
-- The whole command line, and its split.
use win_profile.Base.{
  ◌≡◌, refl, sym, ap, ◌∙◌, true, false, Bool-cases, List, [], ◌∷◌, ◌++◌, append-nil, append_assoc,
  none, some, All, inl, inr, if◌then◌else◌, arith,
}
use win_profile.Platform.Wide.{Wide}
use win_profile.Platform.Tokens.CommandLine.{
  backslashes, needs_quotes, quote_units, append_quoted_argument, append_arguments,
  build_windows_command_line,
}
use win_profile.Platform.Tokens.CommandLine.Split.{split_arguments}
use win_profile.Platform.Tokens.CommandLine.Arguments.{
  IsUnit, All-IsPlain, Ends, split-start, split-quote_units, split-plain_units,
}

-- How an argument is written.
quoted : Wide → Wide
quoted units = if needs_quotes units then b'"' ∷ quote_units units 0 else units

split-open :
    (s : Wide) → split_arguments (b'"' ∷ s) 0 false none ≡ split_arguments s 0 true (some [])
unfolding split_arguments
split-open s = refl

split-bare :
    (us rest : Wide) (others : List Wide)
    → All IsUnit us
    → needs_quotes us ≡ false
    → Ends rest others
    → split_arguments (us ++ rest) 0 false none ≡ us ∷ others
unfolding needs_quotes
split-bare [] rest others units h ends = cc
split-bare (u ∷ us) rest others units h ends =
    let plain = All-IsPlain (u ∷ us) h in
    split-start u (us ++ rest) units.0 plain.0
    ∙ split-plain_units (u ∷ us) 0 rest [] others units plain ends

split-quoted :
    (us rest : Wide) (others : List Wide)
    → All IsUnit us
    → Ends rest others
    → split_arguments (quoted us ++ rest) 0 false none ≡ us ∷ others
unfolding quoted
split-quoted us rest others units ends = elim (Bool-cases (needs_quotes us)) [
  | inl needed ↦ rw needed (
      split-open (quote_units us 0 ++ rest)
      ∙ (split-quote_units us 0 rest [] units ∙ (ends us 0 ∙ ap (λ t. t ∷ others) (append-nil us))))
  | inr plain ↦ rw plain (split-bare us rest others units plain ends)
]

arguments_text : List Wide → Wide
arguments_text [] = []
arguments_text (a ∷ arguments) = b' ' ∷ quoted a ++ arguments_text arguments

append_quoted_argument-quoted :
    (line us : Wide) → append_quoted_argument line us ≡ line ++ quoted us
unfolding append_quoted_argument quoted
append_quoted_argument-quoted line us = ground arith

append_arguments-text :
    (line : Wide) (arguments : List Wide)
    → append_arguments line arguments ≡ line ++ arguments_text arguments
unfolding append_arguments arguments_text
append_arguments-text line [] = sym (append-nil line)
append_arguments-text line (a ∷ arguments) =
    append_arguments-text (append_quoted_argument (line ++ b' ' ∷ []) a) arguments
    ∙ (ap (λ t. t ++ arguments_text arguments) (append_quoted_argument-quoted (line ++ b' ' ∷ []) a)
        ∙ (append_assoc (line ++ b' ' ∷ []) (quoted a) (arguments_text arguments)
            ∙ append_assoc line (b' ' ∷ []) (quoted a ++ arguments_text arguments)))

split-blank : (s : Wide) → split_arguments (b' ' ∷ s) 0 false none ≡ split_arguments s 0 false none
unfolding split_arguments
split-blank s = refl

Ends-blank :
    (s : Wide) (others : List Wide)
    → split_arguments s 0 false none ≡ others
    → Ends (b' ' ∷ s) others
unfolding split_arguments
Ends-blank s others h a n = ap (λ l. (a ++ backslashes n) ∷ l) h

Ends-nul : Ends (0 ∷ []) []
unfolding split_arguments
Ends-nul a n = refl

split-nul : split_arguments (0 ∷ []) 0 false none ≡ []
unfolding split_arguments
split-nul = refl

Ends-arguments :
    (arguments : List Wide)
    → split_arguments (arguments_text arguments ++ 0 ∷ []) 0 false none ≡ arguments
    → Ends (arguments_text arguments ++ 0 ∷ []) arguments
unfolding arguments_text
Ends-arguments [] h = Ends-nul
Ends-arguments (a ∷ arguments) h =
    Ends-blank ((quoted a ++ arguments_text arguments) ++ 0 ∷ []) (a ∷ arguments)
      (sym (split-blank ((quoted a ++ arguments_text arguments) ++ 0 ∷ [])) ∙ h)

split-arguments_text :
    (arguments : List Wide)
    → All (All IsUnit) arguments
    → split_arguments (arguments_text arguments ++ 0 ∷ []) 0 false none ≡ arguments
unfolding arguments_text
split-arguments_text [] units = split-nul
split-arguments_text (a ∷ arguments) units =
    let others = split-arguments_text arguments units.1 in
    split-blank ((quoted a ++ arguments_text arguments) ++ 0 ∷ [])
    ∙ (ap (λ t. split_arguments t 0 false none)
          (append_assoc (quoted a) (arguments_text arguments) (0 ∷ []))
        ∙ split-quoted a (arguments_text arguments ++ 0 ∷ []) arguments units.0
            (Ends-arguments arguments others))

-- A command line is the application's name as it is written, and a text that Windows programs split
-- into exactly the arguments, whatever blanks, quotation marks and backslashes these have, if no
-- unit of them is NUL.
pub build_windows_command_line-split :
    (application : Wide) (arguments : List Wide)
    → All (All IsUnit) arguments
    → (tail : Wide) × (build_windows_command_line application arguments
        ≡ append_quoted_argument [] application ++ tail)
      × (split_arguments tail 0 false none ≡ arguments)
unfolding build_windows_command_line
build_windows_command_line-split application arguments units = (
  arguments_text arguments ++ 0 ∷ [],
  ap (λ t. t ++ 0 ∷ []) (append_arguments-text (append_quoted_argument [] application) arguments)
      ∙ append_assoc (append_quoted_argument [] application) (arguments_text arguments) (0 ∷ []),
  split-arguments_text arguments units,
)
