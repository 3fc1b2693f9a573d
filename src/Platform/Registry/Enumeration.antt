-- ===== src/Platform/Registry/Enumeration.antt =====
-- The names that `enum_subkeys` of crates/platform-win32/src/registry.rs lists.
use win_profile.Base.{
  ℕ, zero, suc, ◌+◌, ◌≡◌, refl, sym, ap, ◌∙◌, subst, List, [], ◌∷◌, ◌++◌, append-nil, append_assoc,
  some, ok, Text, length, length-append, All, arith,
}
use win_profile.Platform.Wide.{Wide, to_wide_null}
use win_profile.Platform.Wide.Decode.{IsScalar, from_wide_null-to_wide_null}
use win_profile.Platform.Registry.Api.{
  invalid_utf16, Win32Registry, error_success, error_no_more_items,
}
use win_profile.Platform.Registry.Keys.{enum_subkeys, enum_subkeys_from}

-- What `RegEnumKeyExW` gives for a key with these names: the name at the index, or the end.
abbrev pub listed : List Text → ℕ → ℕ × Wide
listed [] i = (error_no_more_items, [])
listed (n ∷ ns) zero = (error_success, to_wide_null n)
listed (n ∷ ns) (suc i) = listed ns i

module _ (R : Win32Registry) where
  -- The names of a key in a state, which listing does not change.
  pub record Lists (key : R.Hkey) (s : R.State) (names : List Text) : Type 0 where
    pub at : (i : ℕ) → R.reg_enum_key_ex key i 256 s ≡ (listed names i, s)

  listed-skip : (done rest : List Text) → listed (done ++ rest) (length done) ≡ listed rest 0
  listed-skip [] rest = refl
  listed-skip (n ∷ done) rest = listed-skip done rest

  enum_subkeys_from-found :
      (fuel : ℕ) (key : R.Hkey) (i : ℕ) (results : List Text) (n : Text) (s : R.State)
      → All IsScalar n
      → R.reg_enum_key_ex key i 256 s ≡ ((error_success, to_wide_null n), s)
      → enum_subkeys_from R (suc fuel) key i results s
        ≡ enum_subkeys_from R fuel key (i + 1) (results ++ n ∷ []) s
  unfolding enum_subkeys_from
  enum_subkeys_from-found fuel key i results n s valid e =
      ground (arith, from_wide_null-to_wide_null invalid_utf16 n valid)

  enum_subkeys_from-names :
      (key : R.Hkey) (s : R.State) (done rest : List Text)
      → All (All IsScalar) rest
      → Lists key s (done ++ rest)
      → enum_subkeys_from R (suc (length rest)) key (length done) done s
        ≡ some (ok (done ++ rest), s)
  unfolding enum_subkeys_from
  enum_subkeys_from-names key s done [] valid l =
      ground (arith, l.at (length done), listed-skip done [], append-nil done)
  enum_subkeys_from-names key s done (n ∷ rest) valid l =
      let here = l.at (length done) ∙ ap (λ o. (o, s)) (listed-skip done (n ∷ rest)) in
      let longer = append_assoc done (n ∷ []) rest in
      let size : length (done ++ n ∷ []) ≡ length done + 1 = length-append done (n ∷ []) in
      let rest_of =
        enum_subkeys_from-names key s (done ++ n ∷ []) rest valid.1
          (subst (Lists key s) (sym longer) l) in
      enum_subkeys_from-found (suc (length rest)) key (length done) done n s valid.0 here
      ∙ subst
          (λ i.
            enum_subkeys_from R (suc (length rest)) key i (done ++ n ∷ []) s
            ≡ some (ok (done ++ n ∷ rest), s))
          size (rest_of ∙ ap (λ ns. some (ok ns, s)) longer)

  -- Listing gives every name of the key, in order, if the names are Unicode texts without NUL;
  -- one round more than there are names is enough.
  pub enum_subkeys-names :
      (key : R.Hkey) (s : R.State) (names : List Text)
      → All (All IsScalar) names
      → Lists key s names
      → enum_subkeys R (length names + 1) key s ≡ some (ok names, s)
  unfolding enum_subkeys
  enum_subkeys-names key s names valid l =
      subst (λ k. enum_subkeys_from R k key 0 [] s ≡ some (ok names, s)) {x = suc (length names)}
        (omega arith) (enum_subkeys_from-names key s [] names valid l)
