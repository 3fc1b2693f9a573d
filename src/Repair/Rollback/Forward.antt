-- ===== src/Repair/Rollback/Forward.antt =====
-- The steps of a repair, with what they have renamed when one of them fails.
use win_profile.Base.{
  ℕ, ◌≡◌, refl, sym, ap, ◌∙◌, true, false, List, [], some, Result, ok, err, Text, codes, Program,
  map_err, ◌++◌, arith, ◌>>=◌, ◌>>◌, raise_if, subst, any,
}
use win_profile.Platform.Wide.{Wide}
use win_profile.Platform.Registry.Api.{Win32Registry, RegistryError, key_all_access}
use win_profile.Platform.Registry.Keys.{subkey_exists, rename_subkey}
use win_profile.Platform.Registry.Values.{set_value_u32}
use win_profile.Platform.Registry.View.{
  View, separates, is_plain, is_plain-append, SameNames, SameNames-refl, ReadsFaithfully,
  RenamesFaithfully,
}
use win_profile.Profiles.Models.{RepairPlan, val_state, val_ref_count}
use win_profile.Repair.Env.{
  RepairError, registry_error, transaction_failed, Services, RegistryMutation,
}
use win_profile.Repair.Checks.{bak_name}
use win_profile.Repair.Steps.{
  reg_step, note, backup_name, preserve_canonical, move_bak, reset_values, rename_steps,
  execute_steps,
}
use win_profile.Repair.Rollback.{rollback_names}
use win_profile.Base.Hoare.{
  Post, Hoare, Hoare-bind, Hoare-keeps, Hoare-if, Hoare-raise_if, Hoare-pure, Hoare-weaken,
  Post-always,
}
use win_profile.Repair.Rollback.Names.{IsRename, rename_subkey-ok, rename_subkey-err}
use win_profile.Repair.Rollback.Restored.{
  Same, trans, Renamed, Kept, Kept-then, Progress, Progress-then, Reached, Hoare-reg_step,
  rollback_names-Progress,
}
use win_profile.Repair.Engine.{no_mutation}
use win_profile.Repair.Engine.Keeps.{IsFrame, Keeps, Keeps-subkey_exists, Keeps-open_subkey}
use win_profile.Repair.Engine.Frame.{Keeps-verify}

module _ {R : Win32Registry} (W : View R) (F : ReadsFaithfully W) (N : RenamesFaithfully W)
    (V : Services R.State) (parent : R.Hkey) (G : IsFrame R V (SameNames W (W.key_of parent))) where
  open W use {Key, key_of, child}

  abbrev World : Type 0
  World = R.State × RegistryMutation

  abbrev Same' : R.State → R.State → Type 0
  Same' = Same W F N V parent G

  step-Post :
      (P Q : World → Type 0) (r : Result RegistryError (Unit {0}) × R.State) (m : RegistryMutation)
      → ((u : Unit {0}) → r.0 ≡ ok u → P (r.1, m))
      → ((x : RegistryError) → r.0 ≡ err x → Q (r.1, m))
      → Post {E = RepairError} (λ (_ : Unit {0}). P) Q (map_err registry_error r.0, (r.1, m))
  step-Post P Q (ok u, t) m p q = p u refl
  step-Post P Q (err x, t) m p q = q x refl

  IsRename-from :
      (old new : Text) (s t u : R.State)
      → Same' s t
      → IsRename W F N (key_of parent) old new t u
      → IsRename W F N (key_of parent) old new s u
  IsRename-from old new s t u h r = record {
    old_plain = r.old_plain;
    new_plain = r.new_plain;
    old_there = λ absent. r.old_there (h.names old r.old_plain ∙ absent);
    new_free = sym (h.names new r.new_plain) ∙ r.new_free;
    moved = λ n plain. ground (arith, r.moved n plain, h.names n plain, h.names old r.old_plain);
  }

  module _ (plan : RepairPlan) (s : R.State) (plain : is_plain plan.canonical_sid ≡ true)
      (stamps : (t : R.State) → any separates (V.timestamp t) ≡ false) where
    backup_name-is_plain : (t : R.State) → is_plain (backup_name R V plan (V.timestamp t)) ≡ true
    backup_name-is_plain t = is_plain-append plan.canonical_sid _ plain (ground (arith, stamps t))

    bak_name-is_plain : is_plain (bak_name plan) ≡ true
    bak_name-is_plain = is_plain-append plan.canonical_sid _ plain refl

    abbrev HasKept : World → Type 0
    HasKept w = (w.1.bak_moved ≡ false) × Kept W F N V parent G plan w.1.canonical_backup s w.0

    abbrev Start : World → Type 0
    Start w = (w.1 ≡ no_mutation) × Same' s w.0

    abbrev Backed : Text → World → Type 0
    Backed name w =
        (w.1 ≡ no_mutation) × Renamed W F N V parent G true plan.canonical_sid name s w.0

    Start-HasKept : (w : World) → Start w → HasKept w
    Start-HasKept (t, m) (same, names) = rw same (refl, names)

    Start-reads :
        {A : Type 0} (m : Program R.State RegistryError A)
        → Keeps Same' m
        → Hoare Start (reg_step R V m) (λ _. Start) HasKept
    Start-reads m h =
        Hoare-keeps _ _ _ (λ w p. (p.0, trans W F N V parent G s w.0 _ p.1 (h.from w.0)))
          Start-HasKept

    rename_away :
        (name : Text)
        → is_plain name ≡ true
        → Hoare Start
            (reg_step R V (rename_subkey R parent plan.canonical_sid name))
            (λ _. Backed name)
            HasKept
    rename_away name free = record {
      run = λ w p.
          step-Post (Backed name) HasKept (rename_subkey R parent plan.canonical_sid name w.0) w.1
            (λ u done. (
              p.0,
              IsRename-from plan.canonical_sid name s w.0 _ p.1
                  (rename_subkey-ok W F N parent plan.canonical_sid name w.0 u plain free done),
            ))
            (λ x failed. Start-HasKept _ (
              p.0,
              trans W F N V parent G s w.0 _ p.1
                  (rename_subkey-err W F N parent plan.canonical_sid name w.0 x failed),
            ));
    }

    note_backup :
        (name : Text)
        → Hoare
            (Backed name)
            (note R V (λ m. record m { canonical_backup = some name }))
            (λ _. HasKept)
            HasKept
    note_backup name = record { run = λ w p. (ap (λ m. m.bak_moved) p.0, p.1) }

    after_name :
        (name : Text)
        → is_plain name ≡ true
        → Hoare Start
            (do
              taken ← reg_step R V (subkey_exists R parent name)
              raise_if taken (
                  transaction_failed
                    (codes "RegistryRename")
                    (codes "backup key already exists: " ++ name))
              reg_step R V (rename_subkey R parent plan.canonical_sid name)
              note R V (λ m. record m { canonical_backup = some name }))
            (λ _. HasKept)
            HasKept
    after_name name free =
        Hoare-bind HasKept Start (λ _. Start) (λ _. HasKept) _ _
          (Start-reads _ (Keeps-subkey_exists R V Same' G parent name))
          (λ taken.
            Hoare-bind HasKept Start (λ _. Start) (λ _. HasKept) _ _
              (Hoare-raise_if HasKept Start taken _ Start-HasKept)
              (λ _.
                Hoare-bind HasKept Start (λ _. Backed name) (λ _. HasKept) _ _
                  (rename_away name free) (λ _. note_backup name)))

    Hoare-preserve_canonical :
        Hoare Start (preserve_canonical R V plan parent) (λ _. HasKept) HasKept
    unfolding preserve_canonical
    Hoare-preserve_canonical =
        Hoare-bind HasKept Start (λ _. Start) (λ _. HasKept) _ _
          (Start-reads _ (Keeps-subkey_exists R V Same' G parent plan.canonical_sid))
          (λ exists.
            Hoare-if HasKept Start (λ _. HasKept) exists _ _
              (record {
                run = λ w p.
                    (after_name (backup_name R V plan (V.timestamp w.0))
                        (backup_name-is_plain w.0)).run
                      w p;
              })
              (Hoare-pure HasKept Start (λ _. HasKept) tt Start-HasKept))

    HasKept-Reached : (w : World) → HasKept w → Reached W F N V parent G plan s w
    HasKept-Reached (t, m) (unmoved, kept) =
        subst (λ b. Progress W F N V parent G plan s b m.canonical_backup t) (sym unmoved)
          (t, kept, SameNames-refl W (key_of parent) t)

    abbrev Moving : World → Type 0
    Moving w =
        (mid : R.State) × Kept W F N V parent G plan w.1.canonical_backup s mid
        × IsRename W F N (key_of parent) (bak_name plan) plan.canonical_sid mid w.0

    abbrev Reach : World → Type 0
    Reach = Reached W F N V parent G plan s

    rename_bak :
        Hoare HasKept
          (reg_step R V (rename_subkey R parent (bak_name plan) plan.canonical_sid))
          (λ _. Moving)
          Reach
    rename_bak = record {
      run = λ w p.
          step-Post Moving Reach (rename_subkey R parent (bak_name plan) plan.canonical_sid w.0) w.1
            (λ u done. (
              w.0,
              p.1,
              rename_subkey-ok W F N parent (bak_name plan) plan.canonical_sid w.0 u
                  bak_name-is_plain plain done,
            ))
            (λ x failed. HasKept-Reached _ (
              p.0,
              Kept-then W F N V parent G plan w.1.canonical_backup s w.0 _ p.1
                  (rename_subkey-err W F N parent (bak_name plan) plan.canonical_sid w.0 x failed),
            ));
    }

    Hoare-move_bak : Hoare HasKept (move_bak R V plan parent) (λ _. Reach) Reach
    unfolding move_bak
    Hoare-move_bak =
        Hoare-bind Reach HasKept (λ _. Moving) (λ _. Reach) _ _ rename_bak
          (λ _. record { run = λ w p. p })

    Hoare-rename_steps : Hoare Start (rename_steps R V plan parent) (λ _. Reach) Reach
    unfolding rename_steps
    Hoare-rename_steps =
        Hoare-if Reach Start (λ _. Reach) plan.fix_bak _ _
          (Hoare-bind Reach Start (λ _. HasKept) (λ _. Reach) _ _
            (Hoare-weaken HasKept Reach (λ _. HasKept) (λ _. HasKept) Start _
              Hoare-preserve_canonical (λ _ w p. p) HasKept-Reached)
            (λ _. Hoare-move_bak))
          (Hoare-pure Reach Start (λ _. Reach) tt (λ w p. HasKept-Reached w (Start-HasKept w p)))

    module _
        (on_set : (h : R.Hkey) (n : Wide) (ty : ℕ) (data_ : List ℕ) (t : R.State)
          → Same' t (R.reg_set_value_ex h n ty data_ t).1) where
      Keeps-set_value_u32 : (h : R.Hkey) (n : Text) (v : ℕ) → Keeps Same' (set_value_u32 R h n v)
      unfolding set_value_u32
      Keeps-set_value_u32 h n v = record { from = λ t. on_set h _ _ _ t }

      Reach-Keeps :
          {A : Type 0} (m : Program R.State RegistryError A)
          → Keeps Same' m
          → Hoare Reach (reg_step R V m) (λ _. Reach) Reach
      Reach-Keeps m h = Hoare-reg_step W F N V parent G plan s m h

      Hoare-reset_values : Hoare Reach (reset_values R V plan parent) (λ _. Reach) Reach
      unfolding reset_values
      Hoare-reset_values =
          Hoare-bind Reach Reach (λ _. Reach) (λ _. Reach) _ _
            (Reach-Keeps _ (Keeps-open_subkey R V Same' G parent plan.canonical_sid key_all_access))
            (λ canonical.
              Hoare-bind Reach Reach (λ _. Reach) (λ _. Reach) _ _
                (Reach-Keeps _ (Keeps-set_value_u32 canonical val_state 0))
                (λ _. Reach-Keeps _ (Keeps-set_value_u32 canonical val_ref_count 0)))

      Hoare-execute_steps : Hoare Start (execute_steps R V plan parent) (λ _. Reach) Reach
      unfolding execute_steps
      Hoare-execute_steps =
          Hoare-bind Reach Start (λ _. Reach) (λ _. Reach) _ _ Hoare-rename_steps
            (λ _.
              Hoare-bind Reach Reach (λ _. Reach) (λ _. Reach) _ _
                (Hoare-if Reach Reach (λ _. Reach) plan.reset_state _ _ Hoare-reset_values
                  (Hoare-pure Reach Reach (λ _. Reach) tt (λ w p. p)))
                (λ _.
                  Hoare-keeps Reach Reach _
                    (λ w p.
                      Progress-then W F N V parent G plan s w.1.bak_moved w.1.canonical_backup w.0 _
                        p ((Keeps-verify R V Same' G plan parent).from w.0))
                    (λ w p. p)))

      -- Whatever step of a repair ends it, a rollback of the renames that reports no error puts
      -- every direct subkey of `ProfileList` back under the name that it had. Conditions: the plan's
      -- canonical SID is a key's name and no path, the time stamp has no backslash, opening,
      -- reading, logging, renaming and setting values behave as documented, and nothing else
      -- changes the names meanwhile.
      pub rollback_names-execute_steps :
          (rollback_names R V plan parent
              (execute_steps R V plan parent (s, no_mutation)).1.1
              (execute_steps R V plan parent (s, no_mutation)).1.0).0
            ≡ []
          → SameNames W
              (key_of parent)
              s
              (rollback_names R V plan parent
                (execute_steps R V plan parent (s, no_mutation)).1.1
                (execute_steps R V plan parent (s, no_mutation)).1.0).1
      rollback_names-execute_steps e =
          let (r, (t, m)) = execute_steps R V plan parent (s, no_mutation) in
          rollback_names-Progress W F N V parent G plan s t m.bak_moved m.canonical_backup
            (Post-always Reach (r, (t, m))
              (Hoare-execute_steps.run (s, no_mutation) (refl, SameNames-refl W (key_of parent) s)))
            e
