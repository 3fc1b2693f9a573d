-- ===== src/Profiles/Models/Health.antt =====
-- What `compute_health` decides.
use win_profile.Base.{
  ◌≡◌, ◌⊎◌, ◌↔◌, inl, inr, refl, ap, ◌∙◌, Bool-cases, true, false, List, [], ◌∷◌, any, Text, arith,
}
use win_profile.Profiles.Models.{
  UserProfile, ProfileAnomaly, bak_suffix, temp_session, path_collision, orphan_sid,
  dirty_state_mask, locked_ntuser_dat, missing_directory, registry_read_failure,
  sid_resolution_failure, filesystem_scan_failure, lock_inspection_failure, healthy, corrupted,
  is_corrupting, compute_health,
}

-- One of the anomalies is `a`.
abbrev pub Has : ProfileAnomaly → List ProfileAnomaly → Type 0
Has a [] = ⊥
Has a (b ∷ bs) = (b ≡ a) ⊎ Has a bs

-- A `.bak` suffix, a temporary session or a path collision.
abbrev pub HasCorrupting : List ProfileAnomaly → Type 0
HasCorrupting anomalies =
    Has bak_suffix anomalies
    ⊎ (Has temp_session anomalies ⊎ ((path : Text) × Has (path_collision path) anomalies))

here :
    (a : ProfileAnomaly) (found : List ProfileAnomaly)
    → is_corrupting a ≡ true
    → HasCorrupting (a ∷ found)
unfolding is_corrupting
here bak_suffix found h = inl (inl refl)
here temp_session found h = inr (inl (inl refl))
here orphan_sid found h = cc
here (path_collision path) found h = inr (inr (path, inl refl))
here (dirty_state_mask n) found h = cc
here (locked_ntuser_dat names) found h = cc
here (missing_directory path) found h = cc
here (registry_read_failure e) found h = cc
here (sid_resolution_failure e) found h = cc
here (filesystem_scan_failure e) found h = cc
here (lock_inspection_failure e) found h = cc

there :
    (a : ProfileAnomaly) (found : List ProfileAnomaly)
    → HasCorrupting found
    → HasCorrupting (a ∷ found)
there a found (inl h) = inl (inr h)
there a found (inr (inl h)) = inr (inl (inr h))
there a found (inr (inr (path, h))) = inr (inr (path, inr h))

any-HasCorrupting :
    (found : List ProfileAnomaly) → any is_corrupting found ≡ true → HasCorrupting found
any-HasCorrupting [] h = cc
any-HasCorrupting (a ∷ found) h = elim (Bool-cases (is_corrupting a)) [
  | inl y ↦ here a found y
  | inr n ↦ there a found (any-HasCorrupting found (ground (arith, n)))
]

Has-any :
    (a : ProfileAnomaly) (found : List ProfileAnomaly)
    → is_corrupting a ≡ true
    → Has a found
    → any is_corrupting found ≡ true
Has-any a [] h has = absurd has
Has-any a (b ∷ bs) h (inl same) =
    let at : is_corrupting b ≡ true = ap is_corrupting same ∙ h in ground (arith, at)
Has-any a (b ∷ bs) h (inr has) = let at = Has-any a bs h has in ground (arith, at)

HasCorrupting-any :
    (found : List ProfileAnomaly) → HasCorrupting found → any is_corrupting found ≡ true
unfolding is_corrupting
HasCorrupting-any found (inl h) = Has-any bak_suffix found refl h
HasCorrupting-any found (inr (inl h)) = Has-any temp_session found refl h
HasCorrupting-any found (inr (inr (path, h))) = Has-any (path_collision path) found refl h

-- A profile is judged corrupted exactly if its key is a `.bak` key or one of its anomalies is a
-- `.bak` suffix, a temporary session or a path collision; healthy exactly if its key is no `.bak`
-- key and it has no anomaly.
pub compute_health_lem :
    (p : UserProfile)
    → (((compute_health p).health ≡ corrupted) ↔ ((p.is_bak ≡ true) ⊎ HasCorrupting p.anomalies))
      × (((compute_health p).health ≡ healthy) ↔ ((p.is_bak ≡ false) × (p.anomalies ≡ [])))
unfolding compute_health
compute_health_lem p = (
  (
    λ h. elim (Bool-cases p.is_bak) [
      | inl y ↦ inl y
      | inr n ↦ inr (any-HasCorrupting p.anomalies (ground (arith, n, h)))
    ],
    λ r. elim r [
      | inl y ↦ ground (arith, y)
      | inr has ↦ let hit = HasCorrupting-any p.anomalies has in ground (arith, hit)
    ],
  ),
  ground arith,
)
