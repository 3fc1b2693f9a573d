-- ===== src/Repair/Engine/Verified.antt =====
-- What the registry holds after a repair that reports success.
use win_profile.Base.{
  ◌≡◌, ◌≢◌, sym, ap, ◌∙◌, true, none, some, ok, Text, arith, inl, inr, Result-cases, bind_parts,
  with_error_ok,
}
use win_profile.Platform.Wide.{to_wide_null}
use win_profile.Platform.Registry.Api.{Win32Registry, key_read}
use win_profile.Platform.Registry.Keys.{open_subkey, subkey_exists}
use win_profile.Platform.Registry.Values.{query_value_u32, query_value_string, query_string_buffer}
use win_profile.Platform.Registry.View.{View, SameContents, SameContents-trans, ReadsFaithfully}
use win_profile.Profiles.Models.{RepairPlan, val_profile_image_path, val_state, val_ref_count}
use win_profile.Repair.Env.{registry_error, Services}
use win_profile.Repair.Checks.{bak_name}
use win_profile.Repair.Steps.{verify, verify_names, verify_reset, verify_path}
use win_profile.Repair.Engine.Keeps.{
  IsFrame, Keeps-subkey_exists, Keeps-query_value_u32, Keeps-open_subkey,
}
use win_profile.Repair.Checks.{registry}
use win_profile.Repair.Engine.Frame.{Keeps-verify_names, Keeps-verify_path}
use win_profile.Platform.Registry.Reads.{
  dword_of, subkey_exists-true, subkey_exists-false, open_subkey-ok, query_value_u32-ok,
}

module _ {R : Win32Registry} (W : View R) (F : ReadsFaithfully W) where
  open W use {Key, key_of, child, value}

  module _ (V : Services R.State) (G : IsFrame R V (SameContents W)) where
    query_value_string-ok :
        (h : R.Hkey) (n : Text) (s : R.State) (p : Text)
        → (query_value_string R V.expand h n s).0 ≡ ok p
        → value s (key_of h) n ≢ none
    unfolding query_value_string query_string_buffer
    query_value_string-ok h n s p e =
        let (out, t) = R.reg_query_value_ex h (to_wide_null n) none s in
        ground (
          arith,
          F.query_found h n out.data_size t,
          (G.on_query h (to_wide_null n) none s).values (key_of h) n,
        )

    verify_names-ok :
        (plan : RepairPlan) (parent : R.Hkey) (s : R.State) (u : Unit {0})
        → (verify_names R V plan parent s).0 ≡ ok u
        → (child s (key_of parent) plan.canonical_sid ≢ none)
          × (plan.fix_bak ≡ true → child s (key_of parent) (bak_name plan) ≡ none)
    unfolding verify_names
    verify_names-ok plan parent s u h =
        let t = (subkey_exists R parent plan.canonical_sid s).1 in
        let same = (Keeps-subkey_exists R V (SameContents W) G parent plan.canonical_sid).from s in
        (
          ground (arith, subkey_exists-true W F parent plan.canonical_sid s),
          λ fix. ground (
            arith,
            subkey_exists-false W F parent (bak_name plan) t,
            same.children (key_of parent) (bak_name plan),
          ),
        )

    verify_reset-ok :
        (plan : RepairPlan) (o : R.Hkey) (s : R.State) (u : Unit {0})
        → (verify_reset R V plan o s).0 ≡ ok u
        → plan.reset_state ≡ true
        → (dword_of (value s (key_of o) val_state) ≡ some 0)
          × (dword_of (value s (key_of o) val_ref_count) ≡ some 0)
    unfolding verify_reset
    verify_reset-ok plan o s u h reset =
        let (state, t) = query_value_u32 R o val_state s in
        let same = (Keeps-query_value_u32 R V (SameContents W) G o val_state).from s in
        ground (
          arith,
          query_value_u32-ok W F o val_state s 0,
          query_value_u32-ok W F o val_ref_count t 0,
          same.values (key_of o) val_ref_count,
        )

    verify_path-ok :
        (o : R.Hkey) (s : R.State) (u : Unit {0})
        → (verify_path R V o s).0 ≡ ok u
        → value s (key_of o) val_profile_image_path ≢ none
    unfolding verify_path
    verify_path-ok o s u h =
        elim (Result-cases (query_value_string R V.expand o val_profile_image_path s).0) [
          | inl (p, found) ↦ query_value_string-ok o val_profile_image_path s p found
          | inr (e, failed) ↦ ground arith
        ]

    -- What the registry holds of a repaired profile.
    pub record IsRepaired (plan : RepairPlan) (list : Key) (s : R.State) : Type 0 where
      pub canonical : Key
      pub canonical_there : child s list plan.canonical_sid ≡ some canonical
      pub bak_gone : plan.fix_bak ≡ true → child s list (bak_name plan) ≡ none
      pub has_path : value s canonical val_profile_image_path ≢ none
      pub state_reset : plan.reset_state ≡ true → dword_of (value s canonical val_state) ≡ some 0
      pub ref_count_reset :
          plan.reset_state ≡ true → dword_of (value s canonical val_ref_count) ≡ some 0

    -- What the verification reads is what the registry holds.
    pub verify-ok :
        (plan : RepairPlan) (parent : R.Hkey) (s : R.State) (u : Unit {0})
        → (verify R V plan parent s).0 ≡ ok u
        → IsRepaired plan (key_of parent) s
    unfolding verify
    verify-ok plan parent s u h =
        let (x, named, rest) = bind_parts (verify_names R V plan parent) _ s u h in
        let t = (verify_names R V plan parent s).1 in
        let (o, opened, checked) =
          bind_parts (registry R V (open_subkey R parent plan.canonical_sid key_read)) _ t u rest in
        let v = (open_subkey R parent plan.canonical_sid key_read t).1 in
        let (y, path, reset) =
          bind_parts (verify_path R V o) (λ _. verify_reset R V plan o) v u checked in
        let w = (verify_path R V o v).1 in
        let found = open_subkey-ok W F parent plan.canonical_sid key_read t o (
          with_error_ok registry_error (open_subkey R parent plan.canonical_sid key_read) t o
            opened) in
        let st = (Keeps-verify_names R V (SameContents W) G plan parent).from s in
        let tv =
          (Keeps-open_subkey R V (SameContents W) G parent plan.canonical_sid key_read).from t in
        let sv = SameContents-trans W s t v st tv in
        let sw =
          SameContents-trans W s v w sv ((Keeps-verify_path R V (SameContents W) G o).from v) in
        let numbers = verify_reset-ok plan o w u reset in
        record {
          canonical = key_of o;
          canonical_there = sym (st.children (key_of parent) plan.canonical_sid) ∙ found;
          bak_gone = (verify_names-ok plan parent s x named).1;
          has_path = λ absent.
              verify_path-ok o v y path (sv.values (key_of o) val_profile_image_path ∙ absent);
          state_reset =
              λ resets. ap dword_of (sym (sw.values (key_of o) val_state)) ∙ (numbers resets).0;
          ref_count_reset =
              λ resets. ap dword_of (sym (sw.values (key_of o) val_ref_count)) ∙ (numbers resets).1;
        }
