-- ===== src/Ui/State/Facts.antt =====
-- What the interface suggests and blocks, traced back to what the scanner read.
use Prim.Native.Nat.{bit_and}
use win_profile.Base.{
  ℕ, ap, ◌≡◌, refl, ◌∙◌, sym, Bool, true, false, not, ◌&&◌, List, some, ok, Text, any, any-append,
  ends_with, arith, ◌==◌, subst,
}
use win_profile.Platform.Registry.Api.{Win32Registry}
use win_profile.Profiles.Models.{
  ProfileAnomaly, UserProfile, compute_health, bak_extension, state_temp_profile,
}
use win_profile.Profiles.Scanner.{Probes, state_anomalies, canonical_name, read_values, scan_key}
use win_profile.Profiles.Scanner.Facts.{
  IsQuiet, any-read_values, any-finish_profile, finish_profile-fields, scan_key-some,
}
use win_profile.Ui.State.{is_bak_suffix, is_dirty_state, repair_suggestions}

is_bak_suffix-IsQuiet : IsQuiet is_bak_suffix
unfolding is_bak_suffix
is_bak_suffix-IsQuiet = record {
  on_registry = λ x. refl;
  on_sid = λ x. refl;
  on_directory = λ x. refl;
  on_locks = λ x. refl;
  on_inspection = λ x. refl;
  on_filesystem = λ x. refl;
}

is_dirty_state-IsQuiet : IsQuiet is_dirty_state
unfolding is_dirty_state
is_dirty_state-IsQuiet = record {
  on_registry = λ x. refl;
  on_sid = λ x. refl;
  on_directory = λ x. refl;
  on_locks = λ x. refl;
  on_inspection = λ x. refl;
  on_filesystem = λ x. refl;
}

-- The mask has a bit set, and the bit of a temporary session is not.
abbrev pub is_dirty_mask : ℕ → Bool
is_dirty_mask mask = not (mask == 0) && bit_and mask state_temp_profile == 0

any-is_bak_suffix :
    (is_bak : Bool) (mask : ℕ) (l : List ProfileAnomaly)
    → any is_bak_suffix l ≡ false
    → any is_bak_suffix (state_anomalies is_bak mask l) ≡ is_bak
unfolding state_anomalies is_bak_suffix
any-is_bak_suffix true mask l h = grind (arith, any-append)
any-is_bak_suffix false mask l h = grind (arith, any-append)

any-is_dirty_state :
    (is_bak : Bool) (mask : ℕ) (l : List ProfileAnomaly)
    → any is_dirty_state l ≡ false
    → any is_dirty_state (state_anomalies is_bak mask l) ≡ is_dirty_mask mask
unfolding state_anomalies is_dirty_state
any-is_dirty_state true mask l h = grind (arith, any-append)
any-is_dirty_state false mask l h = grind (arith, any-append)

-- For every profile that the scan of a key adds, the interface suggests the `.bak` repair exactly
-- if the key's name ends in `.bak`, and the state reset exactly if the state mask has a bit set
-- and the bit of a temporary session is not; the profile's health is the computed one.
pub scan_key-suggestions :
    (R : Win32Registry) (P : Probes R.State) (name : Text) (s : R.State) (p : UserProfile)
    → (scan_key R P name s).0 ≡ ok (some p)
    → ((repair_suggestions p).fix_bak ≡ ends_with name bak_extension)
      × ((repair_suggestions p).reset_state ≡ is_dirty_mask p.state_mask)
      × (p.is_bak ≡ ends_with name bak_extension)
      × (compute_health p ≡ p)
unfolding repair_suggestions
scan_key-suggestions R P name s p h =
    let (key, t, e) = scan_key-some R P name s p h in
    let v = (read_values R P (canonical_name name) key t).0 in
    let u = (read_values R P (canonical_name name) key t).1 in
    let (named, bak, mask, judged) = finish_profile-fields R P name (canonical_name name) v u in
    subst Suggested e (
      any-finish_profile is_bak_suffix is_bak_suffix-IsQuiet R P name _ v u
          ∙ any-is_bak_suffix _ v.mask v.anomalies
              (any-read_values is_bak_suffix is_bak_suffix-IsQuiet R P _ key t),
      any-finish_profile is_dirty_state is_dirty_state-IsQuiet R P name _ v u
          ∙ any-is_dirty_state _ v.mask v.anomalies
              (any-read_values is_dirty_state is_dirty_state-IsQuiet R P _ key t)
          ∙ ap is_dirty_mask (sym mask),
      bak,
      judged,
    )
  where
    Suggested : UserProfile → Type 0
    Suggested q =
        ((repair_suggestions q).fix_bak ≡ ends_with name bak_extension)
        × ((repair_suggestions q).reset_state ≡ is_dirty_mask q.state_mask)
        × (q.is_bak ≡ ends_with name bak_extension)
        × (compute_health q ≡ q)
