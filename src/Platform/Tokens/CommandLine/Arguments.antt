-- ===== src/Platform/Tokens/CommandLine/Arguments.antt =====
-- How the units that are written of an argument are read back.
use win_profile.Base.{
  ℕ, zero, suc, ◌+◌, ◌*◌, ◌/◌, ◌%◌, ◌≡◌, ◌≢◌, refl, sym, ap, ◌∙◌, subst, Bool, true, false, not,
  ◌||◌, Bool-cases, List, [], ◌∷◌, ◌++◌, append-nil, append_assoc, none, some, any, All, ◌==◌,
  arith, inl, inr, ==_iff,
}
use win_profile.Platform.Wide.{Wide}
use win_profile.Platform.Tokens.CommandLine.{backslashes, quote_units}
use win_profile.Platform.Tokens.CommandLine.Split.{split_arguments}

backslashes-suc : (n : ℕ) (s : Wide) → backslashes n ++ b'\\' ∷ s ≡ (b'\\' ∷ backslashes n ++ s)
backslashes-suc zero s = refl
backslashes-suc (suc n) s = ap (λ t. b'\\' ∷ t) (backslashes-suc n s)

backslashes_suc-append : (n : ℕ) (s : Wide) → backslashes (n + 1) ++ s ≡ backslashes n ++ b'\\' ∷ s
backslashes_suc-append n s =
    subst (λ k. backslashes k ++ s ≡ backslashes n ++ b'\\' ∷ s) {x = suc n} (omega arith)
      (sym (backslashes-suc n s))

split-backslashes :
    (k : ℕ) (s : Wide) (n : ℕ) (q : Bool) (a : Wide)
    → split_arguments (backslashes k ++ s) n q (some a) ≡ split_arguments s (n + k) q (some a)
unfolding split_arguments
split-backslashes zero s n q a = ap (λ m. split_arguments s m q (some a)) (omega arith)
split-backslashes (suc k) s n q a =
    ap (λ b. split_arguments (backslashes k ++ s) (n + 1) q (some b)) (append-nil a)
    ∙ (split-backslashes k s (n + 1) q a ∙ ap (λ m. split_arguments s m q (some a)) (omega arith))

split-backslashes_first :
    (k : ℕ) (s : Wide) (q : Bool) (a : Wide)
    → split_arguments (backslashes k ++ s) 0 q (some a) ≡ split_arguments s k q (some a)
split-backslashes_first k s q a =
    split-backslashes k s 0 q a ∙ ap (λ m. split_arguments s m q (some a)) (omega arith)

-- A quotation mark behind an even number of backslashes opens or closes, one behind an odd number
-- is part of the argument.
split-even :
    (n : ℕ) (s : Wide) (q : Bool) (a : Wide)
    → split_arguments (b'"' ∷ s) (n * 2) q (some a)
      ≡ split_arguments s 0 (not q) (some (a ++ backslashes n))
unfolding split_arguments
split-even n s q a =
    let half : n * 2 / 2 ≡ n = omega arith in
    let even : n * 2 % 2 ≡ 0 = omega arith in ground (arith, even, half)

split-odd :
    (n : ℕ) (s : Wide) (q : Bool) (a : Wide)
    → split_arguments (b'"' ∷ s) (n * 2 + 1) q (some a)
      ≡ split_arguments s 0 q (some (a ++ (backslashes n ++ b'"' ∷ [])))
unfolding split_arguments
split-odd n s q a =
    let half : (n * 2 + 1) / 2 ≡ n = omega arith in
    let odd : (n * 2 + 1) % 2 ≡ 1 = omega arith in ground (arith, odd, half)

split-mark :
    (u n : ℕ) (s : Wide) (q : Bool) (a : Wide)
    → (u == b'"') ≡ true
    → split_arguments (u ∷ s) (n * 2 + 1) q (some a)
      ≡ split_arguments s 0 q (some (a ++ (backslashes n ++ u ∷ [])))
split-mark u n s q a mark =
    subst
      (λ c.
        split_arguments (c ∷ s) (n * 2 + 1) q (some a)
        ≡ split_arguments s 0 q (some (a ++ (backslashes n ++ c ∷ []))))
      (sym ((==_iff u b'"').0 mark)) (split-odd n s q a)

-- A unit that is neither a backslash nor a quotation mark, in a quotation.
split-plain :
    (c : ℕ) (n : ℕ) (s : Wide) (a : Wide)
    → c ≢ 0
    → (c == b'\\') ≡ false
    → (c == b'"') ≡ false
    → split_arguments (c ∷ s) n true (some a)
      ≡ split_arguments s 0 true (some (a ++ (backslashes n ++ c ∷ [])))
unfolding split_arguments
split-plain c n s a nonzero plain unquoted = ground arith

-- No unit of an argument is NUL.
abbrev pub IsUnit : ℕ → Type 0
IsUnit c = c ≢ 0

longer_pending :
    (a : Wide) (n : ℕ) (c : ℕ) (us : Wide)
    → (a ++ (backslashes n ++ c ∷ [])) ++ us ≡ a ++ (backslashes n ++ c ∷ us)
longer_pending a n c us =
    append_assoc a (backslashes n ++ c ∷ []) us
    ∙ ap (λ t. a ++ t) (append_assoc (backslashes n) (c ∷ []) us)

-- What is written of an argument with `n` backslashes pending is read as these and the argument,
-- and closes the quotation.
pub split-quote_units :
    (us : Wide) (n : ℕ) (rest a : Wide)
    → All IsUnit us
    → split_arguments (quote_units us n ++ rest) 0 true (some a)
      ≡ split_arguments rest 0 false (some (a ++ (backslashes n ++ us)))
unfolding quote_units
split-quote_units [] n rest a units =
    ap (λ t. split_arguments t 0 true (some a))
      (append_assoc (backslashes (n * 2)) (b'"' ∷ []) rest)
    ∙ (split-backslashes_first (n * 2) (b'"' ∷ rest) true a
        ∙ (split-even n rest true a
            ∙ ap (λ t. split_arguments rest 0 false (some (a ++ t)))
                (sym (append-nil (backslashes n)))))
split-quote_units (u ∷ us) n rest a units = elim (Bool-cases (u == b'\\')) [
  | inl slash ↦ rw slash (
      split-quote_units us (n + 1) rest a units.1
      ∙ ap (λ t. split_arguments rest 0 false (some (a ++ t)))
          (backslashes_suc-append n us
            ∙ ap (λ c. backslashes n ++ c ∷ us) (sym ((==_iff u b'\\').0 slash))))
  | inr plain ↦ elim (Bool-cases (u == b'"')) [
    | inl mark ↦
        rw (plain, mark)
          (ap (λ t. split_arguments t 0 true (some a))
              (append_assoc (backslashes (n * 2 + 1)) (u ∷ quote_units us 0) rest)
            ∙ (split-backslashes_first (n * 2 + 1) (u ∷ quote_units us 0 ++ rest) true a
                ∙ (split-mark u n (quote_units us 0 ++ rest) true a mark
                    ∙ (split-quote_units us 0 rest (a ++ (backslashes n ++ u ∷ [])) units.1
                        ∙ ap (λ t. split_arguments rest 0 false (some t))
                            (longer_pending a n u us)))))
    | inr unmarked ↦
        rw (plain, unmarked)
          (ap (λ t. split_arguments t 0 true (some a))
              (append_assoc (backslashes n) (u ∷ quote_units us 0) rest)
            ∙ (split-backslashes_first n (u ∷ quote_units us 0 ++ rest) true a
                ∙ (split-plain u n (quote_units us 0 ++ rest) a units.0 plain unmarked
                    ∙ (split-quote_units us 0 rest (a ++ (backslashes n ++ u ∷ [])) units.1
                        ∙ ap (λ t. split_arguments rest 0 false (some t))
                            (longer_pending a n u us)))))
  ]
]

-- A unit that stands for itself outside a quotation.
abbrev pub IsPlain : ℕ → Type 0
IsPlain u = ((u == b' ') ≡ false) × ((u == 9) ≡ false) × ((u == b'"') ≡ false)

split-unquoted :
    (c n : ℕ) (s : Wide) (a : Wide)
    → IsUnit c
    → IsPlain c
    → (c == b'\\') ≡ false
    → split_arguments (c ∷ s) n false (some a)
      ≡ split_arguments s 0 false (some (a ++ (backslashes n ++ c ∷ [])))
unfolding split_arguments
split-unquoted c n s a unit plain straight = ground arith

split-slash :
    (c n : ℕ) (s : Wide) (a : Wide)
    → (c == b'\\') ≡ true
    → split_arguments (c ∷ s) n false (some a) ≡ split_arguments s (n + 1) false (some a)
unfolding split_arguments
split-slash c n s a slash = ground (arith, slash, append-nil a)

pub split-start :
    (c : ℕ) (s : Wide)
    → IsUnit c
    → IsPlain c
    → split_arguments (c ∷ s) 0 false none ≡ split_arguments (c ∷ s) 0 false (some [])
unfolding split_arguments
split-start c s unit plain = ground arith

-- What ends an argument, and the arguments behind it.
abbrev pub Ends : Wide → List Wide → Type 0
Ends rest others =
    (a : Wide) (n : ℕ) → split_arguments rest n false (some a) ≡ (a ++ backslashes n) ∷ others

pub split-plain_units :
    (us : Wide) (n : ℕ) (rest a : Wide) (others : List Wide)
    → All IsUnit us
    → All IsPlain us
    → Ends rest others
    → split_arguments (us ++ rest) n false (some a) ≡ (a ++ (backslashes n ++ us)) ∷ others
split-plain_units [] n rest a others units plain ends =
    ends a n ∙ ap (λ t. (a ++ t) ∷ others) (sym (append-nil (backslashes n)))
split-plain_units (u ∷ us) n rest a others units plain ends = elim (Bool-cases (u == b'\\')) [
  | inl slash ↦
      split-slash u n (us ++ rest) a slash
      ∙ (split-plain_units us (n + 1) rest a others units.1 plain.1 ends
          ∙ ap (λ t. (a ++ t) ∷ others)
              (backslashes_suc-append n us
                ∙ ap (λ c. backslashes n ++ c ∷ us) (sym ((==_iff u b'\\').0 slash))))
  | inr straight ↦
      split-unquoted u n (us ++ rest) a units.0 plain.0 straight
      ∙ (split-plain_units us 0 rest (a ++ (backslashes n ++ u ∷ [])) others units.1 plain.1 ends
          ∙ ap (λ t. t ∷ others) (longer_pending a n u us))
]

pub All-IsPlain :
    (us : Wide) → any (λ u. u == b' ' || u == 9 || u == b'"') us ≡ false → All IsPlain us
All-IsPlain [] h = tt
All-IsPlain (u ∷ us) h = ((ground arith, ground arith, ground arith), All-IsPlain us (ground arith))
