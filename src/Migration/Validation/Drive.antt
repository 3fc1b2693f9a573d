-- ===== src/Migration/Validation/Drive.antt =====
-- The texts of a plan's paths: what passes `release_absolute_path` of
-- crates/core-profiles/src/migration.rs, and the parent and the name of a destination.
use win_profile.Base.{
  ℕ, zero, suc, ◌≡◌, ◌⊎◌, inl, inr, refl, sym, ap, ◌∙◌, Bool-cases, Result-cases, true, false, All,
  List, [], ◌∷◌, ◌++◌, append_assoc, append-nil, subst, Option-cases, some, ok, Text, take, drop,
  split, join, is_empty, any, ◌==◌, ==_iff, if◌then◌else◌, arith,
}
use win_profile.Platform.Wide.{Wide, encode_wide}
use win_profile.Migration.Paths.{
  validate_raw_release_path, validate_windows_component, is_ascii_letter, is_dotted,
}
use win_profile.Migration.Paths.Overlap.{validate_raw_release_path-ok}
use win_profile.Migration.Validation.{
  Places, validate_components, components_of, release_absolute_path, parent_and_leaf, split_target,
}

-- The names between the backslashes behind a drive's root, none for the root.
abbrev pub names_of : Text → List Text
names_of path = if is_empty (drop 3 path) then [] else split b'\\' (drop 3 path)

-- `path` is `given`: a drive letter, a colon and a backslash, without a slash, with no empty or
-- dotted name behind the root, and only names that Windows takes.
pub record IsDrivePath (given : Text) (label : Text) (path : Text) : Type 0 where
  pub same : path ≡ given
  pub drive : ℕ
  pub rest : Wide
  pub shape : encode_wide given ≡ (drive ∷ b':' ∷ b'\\' ∷ rest)
  pub letter : is_ascii_letter drive ≡ true
  pub no_slash : any (λ c. c == b'/') (encode_wide given) ≡ false
  pub no_dots : (rest ≡ []) ⊎ (any is_dotted (split b'\\' rest) ≡ false)
  pub valid : All (λ name. validate_windows_component name label ≡ ok tt) (names_of given)

-- The target is `leaf` in `parent`, which is the drive's root or ends without a backslash.
abbrev pub IsIn : Text → Text → Text → Type 0
IsIn target parent leaf = (target ≡ parent ++ leaf) ⊎ (target ≡ parent ++ (b'\\' ∷ leaf))

validate_components-All :
    (names : List Text) (label : Text) (u : Unit {0})
    → validate_components names label ≡ ok u
    → All (λ name. validate_windows_component name label ≡ ok tt) names
unfolding validate_components
validate_components-All [] label u h = tt
validate_components-All (name ∷ names) label u h =
    elim (Result-cases (validate_windows_component name label)) [
      | inl (v, good) ↦ (good, validate_components-All names label u (ground (arith, good)))
      | inr (e, bad) ↦ absurd (ground (arith, bad))
    ]

split-some : (c : ℕ) (s : Text) → (part : Text) × (parts : List Text) × (split c s ≡ (part ∷ parts))
unfolding split
split-some c [] = ([], [], refl)
split-some c (x ∷ s) =
    let (part, parts, e) = split-some c s in
    elim (Bool-cases (x == c)) [
      | inl at ↦ ([], part ∷ parts, ground (arith, e, at))
      | inr away ↦ (x ∷ part, parts, ground (arith, e, away))
    ]

join-cons :
    (c x : ℕ) (part : Text) (parts : List Text)
    → join (c ∷ []) ((x ∷ part) ∷ parts) ≡ (x ∷ join (c ∷ []) (part ∷ parts))
unfolding join
join-cons c x part [] = refl
join-cons c x part (next ∷ parts) = refl

join-split : (c : ℕ) (s : Text) → join (c ∷ []) (split c s) ≡ s
unfolding join split
join-split c [] = refl
join-split c (x ∷ s) =
    let (part, parts, e) = split-some c s in
    let rest = ap (join (c ∷ [])) (sym e) ∙ join-split c s in
    elim (Bool-cases (x == c)) [
      | inl at ↦ let same = (==_iff x c).0 at in ground (arith, e, at, rest, same)
      | inr away ↦
          ap (join (c ∷ [])) {x = split c (x ∷ s)} {y = (x ∷ part) ∷ parts}
            (ground (arith, e, away))
          ∙ (join-cons c x part parts ∙ ap (λ t. x ∷ t) rest)
    ]

take-drop : (n : ℕ) (s : Text) → (take n s ++ drop n s) ≡ s
take-drop zero s = refl
take-drop (suc n) [] = refl
take-drop (suc n) (x ∷ s) = ap (λ t. x ∷ t) (take-drop n s)

is_empty-nil : (s : Text) → is_empty s ≡ true → s ≡ []
is_empty-nil [] h = refl
is_empty-nil (x ∷ s) h = cc

join-names : (path : Text) → (take 3 path ++ join (b'\\' ∷ []) (names_of path)) ≡ path
unfolding join
join-names path = elim (Bool-cases (is_empty (drop 3 path))) [
  | inl root ↦
      ap (λ ns. take 3 path ++ join (b'\\' ∷ []) ns) {x = names_of path} {y = []}
        (ground (arith, root))
      ∙ (ap (λ t. take 3 path ++ t) (sym (is_empty-nil (drop 3 path) root)) ∙ take-drop 3 path)
  | inr names ↦
      ap (λ ns. take 3 path ++ join (b'\\' ∷ []) ns) {x = names_of path}
        {y = split b'\\' (drop 3 path)} (ground (arith, names))
      ∙ (ap (λ t. take 3 path ++ t) (join-split b'\\' (drop 3 path)) ∙ take-drop 3 path)
]

pub release_absolute_path-ok :
    (given label path : Text)
    → release_absolute_path given label ≡ ok path
    → IsDrivePath given label path
unfolding release_absolute_path components_of
release_absolute_path-ok given label path h = elim (Bool-cases (is_empty given)) [
  | inl none_given ↦ absurd (ground (arith, none_given))
  | inr some_given ↦ elim (Result-cases (validate_raw_release_path (encode_wide given) label)) [
    | inr (e, bad) ↦ absurd (ground (arith, some_given, bad))
    | inl (u, raw) ↦ elim (Result-cases (validate_components (names_of given) label)) [
      | inr (e, bad) ↦ absurd (ground (arith, some_given, raw, bad))
      | inl (v, good) ↦
          let (drive, rest, shape, letter, no_slash, no_dots) =
            validate_raw_release_path-ok (encode_wide given) label u raw in
          record {
            same = sym (ground (arith, some_given, raw, good)) ∙ join-names given;
            drive = drive;
            rest = rest;
            shape = shape;
            letter = letter;
            no_slash = no_slash;
            no_dots = no_dots;
            valid = validate_components-All (names_of given) label v good;
          }
    ]
  ]
]

parent_and_leaf-ok :
    (names front : List Text) (leaf : Text)
    → parent_and_leaf names ≡ some (front, leaf)
    → names ≡ front ++ leaf ∷ []
unfolding parent_and_leaf
parent_and_leaf-ok [] front leaf h = cc
parent_and_leaf-ok (name ∷ []) front leaf h = ground arith
parent_and_leaf-ok (name ∷ next ∷ names) front leaf h =
    elim (Option-cases (parent_and_leaf (next ∷ names))) [
      | inl absent ↦ absurd (ground (arith, absent))
      | inr ((ahead, last), found) ↦
          let later = parent_and_leaf-ok (next ∷ names) ahead last found in
          ground (arith, found, later)
    ]

join-last :
    (c : ℕ) (name : Text) (names : List Text) (leaf : Text)
    → join (c ∷ []) ((name ∷ names) ++ leaf ∷ []) ≡ join (c ∷ []) (name ∷ names) ++ (c ∷ leaf)
unfolding join
join-last c name [] leaf = refl
join-last c name (next ∷ names) leaf =
    ap (λ t. name ++ (c ∷ t)) (join-last c next names leaf)
    ∙ sym (append_assoc name (c ∷ join (c ∷ []) (next ∷ names)) (c ∷ leaf))

IsIn-names :
    (target : Text) (front : List Text) (leaf : Text)
    → names_of target ≡ front ++ leaf ∷ []
    → IsIn target (take 3 target ++ join (b'\\' ∷ []) front) leaf
unfolding join
IsIn-names target [] leaf e = inl (
    sym (join-names target)
    ∙ (ap (λ ns. take 3 target ++ join (b'\\' ∷ []) ns) e
        ∙ ap (λ t. t ++ leaf) (sym (append-nil (take 3 target)))))
IsIn-names target (name ∷ names) leaf e = inr (
    sym (join-names target)
    ∙ (ap (λ ns. take 3 target ++ join (b'\\' ∷ []) ns) e
        ∙ (ap (λ t. take 3 target ++ t) (join-last b'\\' name names leaf)
            ∙ sym
                (append_assoc (take 3 target) (join (b'\\' ∷ []) (name ∷ names)) (b'\\' ∷ leaf)))))

module _ {S : Type 0} (P : Places S) where
  pub split_target-IsIn :
      (target parent leaf : Text)
      → split_target P target ≡ ok (parent, leaf)
      → IsIn target parent leaf
  unfolding split_target components_of
  split_target-IsIn target parent leaf h = elim (Option-cases (parent_and_leaf (names_of target))) [
    | inl absent ↦ absurd (ground (arith, absent))
    | inr ((front, last), found) ↦
        let there =
          IsIn-names target front last (parent_and_leaf-ok (names_of target) front last found) in
        let same : (take 3 target ++ join (b'\\' ∷ []) front) ≡ parent = ground (arith, found) in
        let last_same : last ≡ leaf = ground (arith, found) in
        subst (λ p. IsIn target p leaf) same
          (subst (λ l. IsIn target (take 3 target ++ join (b'\\' ∷ []) front) l) last_same there)
  ]
