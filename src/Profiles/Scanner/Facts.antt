-- ===== src/Profiles/Scanner/Facts.antt =====
-- Which anomalies of a scanned profile come from its key's name and its `State` value alone.
use win_profile.Base.{
  ℕ, ap, ◌≡◌, refl, ◌∙◌, Bool, true, false, List, [], ◌∷◌, ◌++◌, some, Result, ok, err, Text, any,
  any-append, ends_with, arith, ◌==◌, if◌then◌else◌, Bool-cases, inl, inr, contains_text,
}
use win_profile.Platform.Registry.Api.{
  RegistryError, error_file_not_found, value_not_found, win32_error, Win32Registry,
}
use win_profile.Profiles.Models.{
  ProfileAnomaly, locked_ntuser_dat, missing_directory, registry_read_failure,
  sid_resolution_failure, filesystem_scan_failure, lock_inspection_failure, UserProfile,
  compute_health, bak_extension, system_sid_prefixes,
}
use win_profile.Profiles.Scanner.{
  LockingProcess, Probes, required_string, optional_string, optional_u32, resolve_account,
  loaded_of, state_anomalies, directory_anomalies, inspect_locks, size_of, canonical_name,
  finish_profile, read_values, ProfileValues, read_opened, scan_key,
}

-- A test of anomalies that no failed reading, missing directory or lock passes.
pub record IsQuiet (f : ProfileAnomaly → Bool) : Type 0 where
  pub on_registry : (x : Text) → f (registry_read_failure x) ≡ false
  pub on_sid : (x : Text) → f (sid_resolution_failure x) ≡ false
  pub on_directory : (x : Text) → f (missing_directory x) ≡ false
  pub on_locks : (x : List Text) → f (locked_ntuser_dat x) ≡ false
  pub on_inspection : (x : Text) → f (lock_inspection_failure x) ≡ false
  pub on_filesystem : (x : Text) → f (filesystem_scan_failure x) ≡ false

anomalies-compute_health : (p : UserProfile) → (compute_health p).anomalies ≡ p.anomalies
unfolding compute_health
anomalies-compute_health p = ground arith

compute_health_fields :
    (p : UserProfile)
    → let q = compute_health p in
      (q.sid ≡ p.sid)
      × (q.is_bak ≡ p.is_bak)
      × (q.state_mask ≡ p.state_mask)
      × (compute_health q ≡ q)
unfolding compute_health
compute_health_fields p = ground arith

module _ (f : ProfileAnomaly → Bool) (q : IsQuiet f) where
  any-push :
      (a : ProfileAnomaly) (l : List ProfileAnomaly) → f a ≡ false → any f (l ++ a ∷ []) ≡ any f l
  any-push a l h = ground (arith, any-append f l (a ∷ []))

  any-if :
      {X : Type 0} (c : Bool) (x y : X × List ProfileAnomaly) (b : Bool)
      → any f x.1 ≡ b
      → any f y.1 ≡ b
      → any f (if c then x else y).1 ≡ b
  any-if true x y b hx hy = hx
  any-if false x y b hx hy = hy

  any-required_string :
      (n : Text) (r : Result RegistryError Text) (l : List ProfileAnomaly)
      → any f (required_string n r l).1 ≡ any f l
  unfolding required_string
  any-required_string n (ok v) l = any-if _ _ _ _ (any-push _ l (q.on_registry _)) refl
  any-required_string n (err e) l = any-push _ l (q.on_registry _)

  any-optional_string :
      (n : Text) (r : Result RegistryError Text) (l : List ProfileAnomaly)
      → any f (optional_string n r l).1 ≡ any f l
  unfolding optional_string
  any-optional_string n (ok v) l = refl
  any-optional_string n (err (value_not_found _)) l = refl
  any-optional_string n (err e) l = any-push _ l (q.on_registry _)

  any-optional_u32 :
      (n : Text) (r : Result RegistryError ℕ) (l : List ProfileAnomaly)
      → any f (optional_u32 n r l).1 ≡ any f l
  unfolding optional_u32
  any-optional_u32 n (ok v) l = refl
  any-optional_u32 n (err (value_not_found _)) l = refl
  any-optional_u32 n (err e) l = any-push _ l (q.on_registry _)

  any-resolve_account :
      (n : Text) (r : Result Text (Text × Text)) (l : List ProfileAnomaly)
      → any f (resolve_account n r l).1 ≡ any f l
  unfolding resolve_account
  any-resolve_account n (ok v) l = refl
  any-resolve_account n (err e) l = any-push _ l (q.on_sid _)

  any-when_not :
      (c : Bool) (l m : List ProfileAnomaly)
      → any f m ≡ any f l
      → any f (if c then l else m) ≡ any f l
  any-when_not true l m h = refl
  any-when_not false l m h = h

  any-loaded_of :
      {H : Type 0} (n : Text) (r : Result RegistryError H) (l : List ProfileAnomaly)
      → any f (loaded_of n r l).1 ≡ any f l
  unfolding loaded_of
  any-loaded_of n (ok v) l = refl
  any-loaded_of n (err (win32_error c)) l =
      any-when_not (c == error_file_not_found) _ _ (any-push _ l (q.on_registry _))
  any-loaded_of n (err e) l = any-push _ l (q.on_registry _)

  any-directory_anomalies :
      (p : Text) (exists : Bool) (l : List ProfileAnomaly)
      → any f (directory_anomalies p exists l) ≡ any f l
  unfolding directory_anomalies
  any-directory_anomalies p true l = refl
  any-directory_anomalies p false l = any-push _ l (q.on_directory _)

  any-inspect_locks :
      (r : Result Text (List LockingProcess)) (l : List ProfileAnomaly)
      → any f (inspect_locks r l) ≡ any f l
  unfolding inspect_locks
  any-inspect_locks (ok []) l = refl
  any-inspect_locks (ok (x ∷ xs)) l = any-push _ l (q.on_locks _)
  any-inspect_locks (err e) l = any-push _ l (q.on_inspection _)

  any-size_of : (r : Result Text ℕ) (l : List ProfileAnomaly) → any f (size_of r l).1 ≡ any f l
  unfolding size_of
  any-size_of (ok n) l = refl
  any-size_of (err e) l = any-push _ l (q.on_filesystem _)

  any-when :
      (c : Bool) (l m : List ProfileAnomaly)
      → any f m ≡ any f l
      → any f (if c then m else l) ≡ any f l
  any-when true l m h = h
  any-when false l m h = refl

  any-when_sized :
      (c : Bool) (r : Result Text ℕ) (l : List ProfileAnomaly)
      → any f (if c then size_of r l else (0, l)).1 ≡ any f l
  any-when_sized true r l = any-size_of r l
  any-when_sized false r l = refl

  module _ (R : Win32Registry) (P : Probes R.State) where
    pub any-read_values :
        (canonical : Text) (key : R.Hkey) (s : R.State)
        → any f (read_values R P canonical key s).0.anomalies ≡ false
    unfolding read_values
    any-read_values canonical key s =
        any-loaded_of canonical _ _
        ∙ any-resolve_account canonical _ _
        ∙ any-optional_string _ _ _
        ∙ any-optional_u32 _ _ _
        ∙ any-optional_u32 _ _ _
        ∙ any-required_string _ _ []

    pub any-finish_profile :
        (name canonical : Text) (v : ProfileValues) (s : R.State)
        → any f (finish_profile R P name canonical v s).anomalies
          ≡ any f (state_anomalies (ends_with name bak_extension) v.mask v.anomalies)
    unfolding finish_profile
    any-finish_profile name canonical v s =
        ap (any f) (anomalies-compute_health _)
        ∙ any-when_sized (P.is_dir v.path s) _ _
        ∙ any-when _ _ _ (any-inspect_locks _ _)
        ∙ any-directory_anomalies v.path _ _

-- The name, the state and the judgement of a finished profile.
module _ (R : Win32Registry) (P : Probes R.State) where
  pub finish_profile-fields :
      (name canonical : Text) (v : ProfileValues) (s : R.State)
      → let p = finish_profile R P name canonical v s in
        (p.sid ≡ name)
        × (p.is_bak ≡ ends_with name bak_extension)
        × (p.state_mask ≡ v.mask)
        × (compute_health p ≡ p)
  unfolding finish_profile
  finish_profile-fields name canonical v s = let q = compute_health_fields _ in (q.0, q.1, q.2, q.3)

  read_opened-some :
      (name canonical : Text) (r : Result RegistryError R.Hkey) (s : R.State) (p : UserProfile)
      → (read_opened R P name canonical r s).0 ≡ ok (some p)
      → (key : R.Hkey) × (t : R.State) × (finish_profile R P name canonical
            (read_values R P canonical key t).0
            (read_values R P canonical key t).1
          ≡ p)
  unfolding read_opened
  read_opened-some name canonical (err e) s p h = cc
  read_opened-some name canonical (ok key) s p h = (key, s, cc)

  -- A profile that a round of the scan adds was finished from the values of its opened key.
  pub scan_key-some :
      (name : Text) (s : R.State) (p : UserProfile)
      → (scan_key R P name s).0 ≡ ok (some p)
      → (key : R.Hkey) × (t : R.State) × (finish_profile R P name
            (canonical_name name)
            (read_values R P (canonical_name name) key t).0
            (read_values R P (canonical_name name) key t).1
          ≡ p)
  unfolding scan_key
  scan_key-some name s p h =
      elim (Bool-cases (contains_text (canonical_name name) system_sid_prefixes)) [
        | inl system ↦ absurd (cc (rw system at h))
        | inr user ↦ read_opened-some name (canonical_name name) _ _ p (rw user at h)
      ]
