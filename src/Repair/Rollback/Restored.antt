-- ===== src/Repair/Rollback/Restored.antt =====
-- The names of `ProfileList` after a failed repair and its rollback.
use win_profile.Base.{
  ◌≡◌, ◌∙◌, Bool, true, false, List, [], Option, none, some, Text, codes, Program,
}
use win_profile.Platform.Registry.Api.{Win32Registry, RegistryError}
use win_profile.Platform.Registry.Keys.{subkey_exists}
use win_profile.Platform.Registry.View.{
  View, SameNames, SameNames-trans, ReadsFaithfully, RenamesFaithfully,
}
use win_profile.Platform.Registry.Reads.{subkey_exists-false}
use win_profile.Profiles.Models.{RepairPlan}
use win_profile.Repair.Env.{Services, RegistryMutation}
use win_profile.Repair.Checks.{bak_name}
use win_profile.Repair.Steps.{reg_step}
use win_profile.Repair.Rollback.{undo_rename, rollback_names}
use win_profile.Base.Hoare.{Hoare, Hoare-keeps}
use win_profile.Repair.Rollback.Names.{IsRename, after_inspection-restores, after_inspection-none}
use win_profile.Repair.Engine.Keeps.{IsFrame, Keeps, Keeps-subkey_exists}

module _ {R : Win32Registry} (W : View R) (F : ReadsFaithfully W) (N : RenamesFaithfully W)
    (V : Services R.State) (parent : R.Hkey) (G : IsFrame R V (SameNames W (W.key_of parent))) where
  open W use {Key, key_of, child}

  abbrev pub Same : R.State → R.State → Type 0
  Same = SameNames W (key_of parent)

  pub trans : (s t u : R.State) → Same s t → Same t u → Same s u
  trans = SameNames-trans W (key_of parent)

  -- A rename, if it was made.
  abbrev pub Renamed : Bool → Text → Text → R.State → R.State → Type 0
  Renamed true old new s t = IsRename W F N (key_of parent) old new s t
  Renamed false old new s t = Same s t

  abbrev pub Kept : RepairPlan → Option Text → R.State → R.State → Type 0
  Kept plan none s t = Same s t
  Kept plan (some name) s t = Renamed true plan.canonical_sid name s t

  abbrev pub Progress : RepairPlan → R.State → Bool → Option Text → R.State → Type 0
  Progress plan s moved kept t =
      (mid : R.State) × Kept plan kept s mid
      × Renamed moved (bak_name plan) plan.canonical_sid mid t

  abbrev pub Reached : RepairPlan → R.State → R.State × RegistryMutation → Type 0
  Reached plan s w = Progress plan s w.1.bak_moved w.1.canonical_backup w.0

  Renamed-then :
      (b : Bool) (old new : Text) (s t u : R.State)
      → Renamed b old new s t
      → Same t u
      → Renamed b old new s u
  Renamed-then true old new s t u h g = record {
    old_plain = h.old_plain;
    new_plain = h.new_plain;
    old_there = h.old_there;
    new_free = h.new_free;
    moved = λ n plain. g.names n plain ∙ h.moved n plain;
  }
  Renamed-then false old new s t u h g = trans s t u h g

  pub Kept-then :
      (plan : RepairPlan) (o : Option Text) (s t u : R.State)
      → Kept plan o s t
      → Same t u
      → Kept plan o s u
  Kept-then plan none s t u h g = trans s t u h g
  Kept-then plan (some name) s t u h g = Renamed-then true plan.canonical_sid name s t u h g

  pub Progress-then :
      (plan : RepairPlan) (s : R.State) (b : Bool) (o : Option Text) (t u : R.State)
      → Progress plan s b o t
      → Same t u
      → Progress plan s b o u
  Progress-then plan s b o t u (mid, kept, renamed) g =
      (mid, kept, Renamed-then b (bak_name plan) plan.canonical_sid mid t u renamed g)

  -- Undoing one rename.
  undo :
      (old new a b : Text) (errors : List Text) (s t : R.State)
      → Renamed true old new s t
      → (undo_rename R V parent new old a b errors t).0 ≡ []
      → (errors ≡ []) × Same s (undo_rename R V parent new old a b errors t).1
  unfolding undo_rename
  undo old new a b errors s t renamed e =
      after_inspection-restores W F N V parent old new a b errors s t (subkey_exists R parent new t)
        renamed ((Keeps-subkey_exists R V Same G parent new).from t)
        (subkey_exists-false W F parent new t) e

  undo-none :
      (from to a b : Text) (errors : List Text) (t : R.State)
      → (undo_rename R V parent from to a b errors t).0 ≡ []
      → errors ≡ []
  unfolding undo_rename
  undo-none from to a b errors t e =
      after_inspection-none W F N V parent from to a b errors (subkey_exists R parent from t) e

  pub rollback_names-Progress :
      (plan : RepairPlan) (s t : R.State) (b : Bool) (o : Option Text)
      → Progress plan s b o t
      → (rollback_names R V plan parent (record { bak_moved = b; canonical_backup = o }) t).0 ≡ []
      → Same s (rollback_names R V plan parent (record { bak_moved = b; canonical_backup = o }) t).1
  unfolding rollback_names
  rollback_names-Progress plan s t false none (mid, kept, renamed) e = trans s mid t kept renamed
  rollback_names-Progress plan s t true none (mid, kept, renamed) e =
      trans s mid _ kept (undo (bak_name plan) plan.canonical_sid _ _ [] mid t renamed e).1
  rollback_names-Progress plan s t false (some name) (mid, kept, renamed) e =
      (undo plan.canonical_sid name _ _ [] s t
        (Renamed-then true plan.canonical_sid name s mid t kept renamed) e).1
  rollback_names-Progress plan s t true (some name) (mid, kept, renamed) e =
      let a = codes "restore .bak name: " in
      let b = codes "inspect canonical key: " in
      let (errors, u) = undo_rename R V parent plan.canonical_sid (bak_name plan) a b [] t in
      let first =
        undo (bak_name plan) plan.canonical_sid a b [] mid t renamed
          (undo-none name plan.canonical_sid _ _ errors u e) in
      (undo plan.canonical_sid name _ _ errors s u
        (Renamed-then true plan.canonical_sid name s mid u kept first.1) e).1

  -- A step that leaves the record of the mutations and the names alone.
  pub Hoare-reg_step :
      {A : Type 0} (plan : RepairPlan) (s : R.State) (m : Program R.State RegistryError A)
      → Keeps Same m
      → Hoare (Reached plan s) (reg_step R V m) (λ _. Reached plan s) (Reached plan s)
  Hoare-reg_step plan s m h =
      Hoare-keeps _ _ _
        (λ w p. Progress-then plan s w.1.bak_moved w.1.canonical_backup w.0 _ p (h.from w.0))
        (λ w p. p)
