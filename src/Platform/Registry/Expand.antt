-- ===== src/Platform/Registry/Expand.antt =====
-- `expand_environment_string_with` of crates/platform-win32/src/registry.rs: the buffer grows until
-- the expansion fits.
use win_profile.Base.{
  ℕ, zero, suc, ◌≤◌, ◌<◌, ◌≡◌, ◌+◌, Option, none, some, Result, err, Text, ltb, ◌==◌, if◌then◌else◌,
  arith, refl, ◌⊎◌, inl, inr, Bool-cases,
}
use win_profile.Platform.Wide.{Wide, from_wide_null}
use win_profile.Platform.Registry.Api.{RegistryError, environment_expansion_failed, invalid_utf16}

module _ {S : Type 0} where
  -- `expand` gets a capacity (0 with no buffer) and gives the size that it wants or wrote, with
  -- the buffer's contents; `last_error` is `GetLastError`.
  module _ (expand : ℕ → S → (ℕ × Wide) × S) (last_error : S → ℕ) where
    -- The loop, `none` where the fuel runs out.
    expand_loop : ℕ → ℕ → S → Option (Result RegistryError Text × S)
    unfolding from_wide_null
    expand_loop zero required s = none
    expand_loop (suc fuel) required s =
        let (out, s') = expand required s in
        let again = expand_loop fuel out.0 s' in
        if out.0 == 0
        then some (err (environment_expansion_failed (last_error s')), s')
        else if ltb required out.0
        then again
        else some (from_wide_null invalid_utf16 out.1, s')

    unfoldable pub expand_environment_string_with : ℕ → S → Option (Result RegistryError Text × S)
    unfolding expand_loop
    expand_environment_string_with fuel s =
        let (out, s') = expand 0 s in
        if out.0 == 0
        then some (err (environment_expansion_failed (last_error s')), s')
        else expand_loop fuel out.0 s'

    -- The expansion that a call wrote into a buffer large enough for it.
    abbrev pub Fits : Result RegistryError Text × S → Type 0
    Fits r =
        (capacity : ℕ) × (t : S) × ((expand capacity t).0.0 ≤ capacity)
        × (r ≡ (from_wide_null invalid_utf16 (expand capacity t).0.1, (expand capacity t).1))

    -- The last call reported a failure.
    abbrev pub Fails : Result RegistryError Text × S → Type 0
    Fails r =
        (capacity : ℕ) × (t : S) × ((expand capacity t).0.0 ≡ 0)
        × (r ≡ (
          err (environment_expansion_failed (last_error (expand capacity t).1)),
          (expand capacity t).1,
        ))

    expand_loop_total :
        (limit fuel required : ℕ) (s : S)
        → ((capacity : ℕ) (t : S) → (expand capacity t).0.0 ≤ limit)
        → limit < required + fuel
        → 0 < fuel
        → (r : Result RegistryError Text × S) × (expand_loop fuel required s ≡ some r)
          × (Fits r ⊎ Fails r)
    unfolding expand_loop
    expand_loop_total limit zero required s bounded enough pos = elim pos [ ]
    expand_loop_total limit (suc fuel) required s bounded enough pos =
        elim (Bool-cases ((expand required s).0.0 == 0)) [
          | inl failed ↦ (_, rw failed, inr (required, s, ground arith, refl))
          | inr wrote ↦ elim (Bool-cases (ltb required (expand required s).0.0)) [
            | inl short ↦
                rw (wrote, short)
                  (expand_loop_total limit fuel (expand required s).0.0 (expand required s).1
                    bounded (ground (arith, bounded required s))
                    (ground (arith, bounded required s)))
            | inr long ↦ (_, rw (wrote, long), inl (required, s, ground arith, refl))
          ]
        ]

    -- If no call asks for more than `limit` units, `limit + 1` rounds are enough: the expansion
    -- ends, and its result is the decoded text of a call that fitted its buffer, or the error of
    -- a call that failed.
    pub expand_environment_string_with_total :
        (limit : ℕ) (s : S)
        → ((capacity : ℕ) (t : S) → (expand capacity t).0.0 ≤ limit)
        → (r : Result RegistryError Text × S) × (expand_environment_string_with (limit + 1) s
            ≡ some r)
          × (Fits r ⊎ Fails r)
    unfolding expand_environment_string_with
    expand_environment_string_with_total limit s bounded =
        elim (Bool-cases ((expand 0 s).0.0 == 0)) [
          | inl failed ↦ (_, rw failed, inr (0, s, ground arith, refl))
          | inr sized ↦ rw sized (
              expand_loop_total limit (limit + 1) (expand 0 s).0.0 (expand 0 s).1 bounded
                (ground arith) (omega arith))
        ]
