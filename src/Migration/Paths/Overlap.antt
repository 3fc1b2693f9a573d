-- ===== src/Migration/Paths/Overlap.antt =====
-- Which paths overlap, and which raw paths pass.
use win_profile.Base.{
  ℕ, ◌≡◌, ◌↔◌, ◌⊎◌, inl, inr, refl, sym, ap, ◌∙◌, true, false, [], ◌∷◌, ◌++◌, some, ok, Text, codes,
  text_eq, text_eq_iff, starts_with, strip_prefix, Option-cases, Bool-cases, subst, split, any,
  ◌==◌, arith,
}
use win_profile.Platform.Wide.{Wide}
use win_profile.Migration.Paths.{
  normalized_path_key, extends_key, paths_overlap, is_dotted, validate_raw_release_path, is_at,
  is_letter, is_ascii_letter,
}

strip_prefix-ok : (s p t : Text) → strip_prefix s p ≡ some t → s ≡ (p ++ t)
strip_prefix-ok s [] t h = ground arith
strip_prefix-ok [] (x ∷ p) t h = ground arith
strip_prefix-ok (c ∷ s) (x ∷ p) t h = ground (arith, strip_prefix-ok s p t)

strip_prefix-append : (p t : Text) → strip_prefix (p ++ t) p ≡ some t
strip_prefix-append [] t = refl
strip_prefix-append (x ∷ p) t = ground (arith, strip_prefix-append p t)

starts_with-backslash :
    (s : Text) → starts_with s (codes "\\") ≡ true → (t : Text) × (s ≡ (b'\\' ∷ t))
starts_with-backslash [] h = ground arith
starts_with-backslash (c ∷ s) h = (s, ground arith)

extends_key-ok : (a b : Text) → extends_key a b ≡ true → (t : Text) × (b ≡ (a ++ b'\\' ∷ t))
unfolding extends_key
extends_key-ok a b h = elim (Option-cases (strip_prefix b a)) [
  | inl absent ↦ ground (arith, absent)
  | inr (suffix, found) ↦
      let (t, e) = starts_with-backslash suffix (ground (arith, found)) in
      (t, strip_prefix-ok b a suffix found ∙ ap (λ z. a ++ z) e)
]

extends_key-append : (a t : Text) → extends_key a (a ++ b'\\' ∷ t) ≡ true
unfolding extends_key
extends_key-append a t = rw (extends_key, strip_prefix-append a (b'\\' ∷ t))

module _ (lower : Text → Text) where
  -- Two paths overlap exactly if their keys are the same, or one of the keys is the other one
  -- followed by a backslash and the rest of a path.
  pub paths_overlap_iff :
      (p q : Text)
      → let a = normalized_path_key lower p in
        let b = normalized_path_key lower q in
        (paths_overlap lower p q ≡ true) ↔ (
          (a ≡ b) ⊎ (((t : Text) × (b ≡ (a ++ b'\\' ∷ t))) ⊎ ((t : Text) × (a ≡ (b ++ b'\\' ∷ t)))))
  unfolding paths_overlap
  paths_overlap_iff p q =
      let a = normalized_path_key lower p in
      let b = normalized_path_key lower q in
      (
        λ h. elim (Bool-cases (text_eq a b)) [
          | inl same ↦ inl ((text_eq_iff a b).0 same)
          | inr other ↦ elim (Bool-cases (extends_key a b)) [
            | inl longer ↦ inr (inl (extends_key-ok a b longer))
            | inr shorter ↦ inr (inr (extends_key-ok b a (ground (arith, other, shorter))))
          ]
        ],
        λ r. elim r [
          | inl same ↦ ground (arith, (text_eq_iff a b).1 same)
          | inr (inl (t, e)) ↦
              ground (arith, subst (λ z. extends_key a z ≡ true) (sym e) (extends_key-append a t))
          | inr (inr (t, e)) ↦
              ground (arith, subst (λ z. extends_key b z ≡ true) (sym e) (extends_key-append b t))
        ],
      )

-- A raw path that passes begins with a drive letter, a colon and a backslash, has no slash, and is
-- the drive's root or has no empty or dotted component behind it.
pub validate_raw_release_path-ok :
    (encoded : Wide) (label : Text) (u : Unit {0})
    → validate_raw_release_path encoded label ≡ ok u
    → (drive : ℕ) × (rest : Wide) × (encoded ≡ (drive ∷ b':' ∷ b'\\' ∷ rest))
      × (is_ascii_letter drive ≡ true)
      × (any (λ c. c == b'/') encoded ≡ false)
      × ((rest ≡ []) ⊎ (any is_dotted (split b'\\' rest) ≡ false))
unfolding validate_raw_release_path is_at is_letter
validate_raw_release_path-ok [] label u h = ground arith
validate_raw_release_path-ok (d ∷ []) label u h = ground arith
validate_raw_release_path-ok (d ∷ c ∷ []) label u h = ground arith
validate_raw_release_path-ok (d ∷ c ∷ b ∷ []) label u h =
    (d, [], ground arith, ground arith, ground arith, inl refl)
validate_raw_release_path-ok (d ∷ c ∷ b ∷ x ∷ rest) label u h =
    (d, x ∷ rest, ground arith, ground arith, ground arith, inr (ground arith))
