-- ===== src/Repair/Engine/Repaired.antt =====
-- What a repair leaves in the registry when `execute_plan` returns without an error.
use win_profile.Base.{
  ◌≡◌, ◌≢◌, refl, sym, ap, ◌∙◌, Bool, false, List, some, Result, ok, err, ◌>>=◌, with_error_ok,
  Text, arith, subst, Program, pure, if◌then◌else◌, continue,
}
use win_profile.Platform.Registry.Api.{Win32Registry, local_machine, key_all_access}
use win_profile.Platform.Registry.Keys.{open_key}
use win_profile.Platform.Registry.Reads.{dword_of}
use win_profile.Platform.Registry.View.{View, SameContents, ReadsFaithfully}
use win_profile.Profiles.Models.{RepairPlan, reg_key_profile_list}
use win_profile.Repair.Env.{RepairError, registry_error, Services, RegistryMutation, RepairSnapshot}
use win_profile.Repair.Checks.{registry}
use win_profile.Repair.Steps.{execute_steps, rename_steps, reset_values, create_required_snapshots}
use win_profile.Repair.Engine.{
  no_mutation, success_event, log, report_failed_rollback, recover, conclude, settle, transact,
  preflight, change_registry, run_plan, held, execute_plan,
}
use win_profile.Repair.Engine.Keeps.{IsFrame}
use win_profile.Repair.Engine.Frame.{execute_plan-real, Keeps-verify}
use win_profile.Repair.Engine.Verified.{IsRepaired, verify-ok}

-- A program that ends well only in states with a property.
record Ensures {S E A : Type 0} (P : S → Type 0) (m : Program S E A) : Type 0 where
  pub holds : (s : S) (a : A) → (m s).0 ≡ ok a → P (m s).1

Ensures-bind :
    {S E A B : Type 0} (P : S → Type 0) (m : Program S E A) (f : A → Program S E B)
    → ((a : A) (s : S) → (m s).0 ≡ ok a → Ensures P (f a))
    → Ensures P (m >>= f)
Ensures-bind {S} {E} {A} {B} P m f h = record { holds = λ s b e. go s (m s) refl b e }
  where
    go :
        (s : S) (r : Result E A × S)
        → m s ≡ r
        → (b : B) → (continue r f).0 ≡ ok b
        → P (continue r f).1
    go s (ok a, t) q b e = (h a s (ap (λ z. z.0) q)).holds t b e
    go s (err x, t) q b e = ground arith

Ensures-if :
    {S E A : Type 0} (P : S → Type 0) (m n : Program S E A) (b : Bool)
    → b ≡ false
    → Ensures P n
    → Ensures P (if b then m else n)
Ensures-if P m n b off h = rw off h

module _ {R : Win32Registry} (W : View R) (F : ReadsFaithfully W) (V : Services R.State)
    (G : IsFrame R V (SameContents W)) where
  open W use {Key, key_of, child, value}

  moved :
      (plan : RepairPlan) (list : Key) (s t : R.State)
      → SameContents W s t
      → IsRepaired W F V G plan list s
      → IsRepaired W F V G plan list t
  moved plan list s t h r = record {
    canonical = r.canonical;
    canonical_there = h.children list _ ∙ r.canonical_there;
    bak_gone = λ fix. h.children list _ ∙ r.bak_gone fix;
    has_path = λ absent. r.has_path (sym (h.values r.canonical _) ∙ absent);
    state_reset = λ reset. ap dword_of (h.values r.canonical _) ∙ r.state_reset reset;
    ref_count_reset = λ reset. ap dword_of (h.values r.canonical _) ∙ r.ref_count_reset reset;
  }

  -- The last of the steps is the verification.
  Ensures-execute_steps :
      (plan : RepairPlan) (parent : R.Hkey)
      → Ensures (λ w. IsRepaired W F V G plan (key_of parent) w.0) (execute_steps R V plan parent)
  unfolding execute_steps
  Ensures-execute_steps plan parent = Ensures-bind _ (rename_steps R V plan parent) _ (λ _ _ _.
      Ensures-bind _ (if plan.reset_state then reset_values R V plan parent else pure tt) _
        (λ _ _ _. record {
          holds = λ w u e.
              moved plan (key_of parent) w.0 _
                ((Keeps-verify R V (SameContents W) G plan parent).from w.0)
                (verify-ok W F V G plan parent w.0 u e);
        }))

  recover-never-ok :
      (plan : RepairPlan) (parent : R.Hkey) (m : RegistryMutation)
      (snapshots : List (RepairSnapshot V.Snapshot)) (error : RepairError) (s : R.State)
      (u : Unit {0})
      → (recover R V plan parent m snapshots error s).0 ≢ ok u
  unfolding recover report_failed_rollback
  recover-never-ok plan parent m snapshots error s u h = ground arith

  conclude-ok :
      (plan : RepairPlan) (parent : R.Hkey) (m : RegistryMutation)
      (snapshots : List (RepairSnapshot V.Snapshot)) (s : R.State) (u : Unit {0})
      → (conclude R V plan parent m snapshots s).0 ≡ ok u
      → SameContents W s (conclude R V plan parent m snapshots s).1
  unfolding conclude
  conclude-ok plan parent m snapshots s u h = ground (arith, G.on_log (success_event plan m) s)

  settle-ok :
      (plan : RepairPlan) (parent : R.Hkey) (snapshots : List (RepairSnapshot V.Snapshot))
      (r : Result RepairError (Unit {0}) × (R.State × RegistryMutation)) (u : Unit {0})
      → ((v : Unit {0}) → r.0 ≡ ok v → IsRepaired W F V G plan (key_of parent) r.1.0)
      → (settle R V plan parent snapshots r).0 ≡ ok u
      → IsRepaired W F V G plan (key_of parent) (settle R V plan parent snapshots r).1
  unfolding settle
  settle-ok plan parent snapshots (ok v, (s, m)) u repaired e =
      moved plan (key_of parent) s _ (conclude-ok plan parent m snapshots s u e) (repaired v refl)
  settle-ok plan parent snapshots (err error, (s, m)) u repaired e =
      ground (arith, recover-never-ok plan parent m snapshots error s u e)

  Ensures-transact :
      (plan : RepairPlan) (parent : R.Hkey) (snapshots : List (RepairSnapshot V.Snapshot))
      → Ensures (IsRepaired W F V G plan (key_of parent)) (transact R V plan parent snapshots)
  unfolding transact
  Ensures-transact plan parent snapshots = record {
    holds = λ s u e.
        settle-ok plan parent snapshots (execute_steps R V plan parent (s, no_mutation)) u
          ((Ensures-execute_steps plan parent).holds (s, no_mutation)) e;
  }

  module _ (list : Key)
      (list_stays : (s : R.State) (k : Key)
        → child s (key_of (R.predefined local_machine)) reg_key_profile_list ≡ some k
        → k ≡ list) where
    opened_list :
        (s : R.State) (parent : R.Hkey)
        → (registry R V (open_key R local_machine reg_key_profile_list key_all_access) s).0
          ≡ ok parent
        → key_of parent ≡ list
    unfolding open_key
    opened_list s parent e = ground (
      arith,
      with_error_ok registry_error (open_key R local_machine reg_key_profile_list key_all_access) s
          parent e,
      F.open_found (R.predefined local_machine) reg_key_profile_list key_all_access s,
      list_stays s (key_of parent),
    )

    Ensures-change_registry :
        (plan : RepairPlan) → Ensures (IsRepaired W F V G plan list) (change_registry R V plan)
    unfolding change_registry
    Ensures-change_registry plan =
        Ensures-bind _ (create_required_snapshots R V plan) _ (λ snapshots _ _.
          Ensures-bind _ (log R V _) _ (λ _ _ _.
            Ensures-bind _
              (registry R V (open_key R local_machine reg_key_profile_list key_all_access)) _
              (λ parent s e.
                subst
                  (λ k. Ensures (IsRepaired W F V G plan k) (transact R V plan parent snapshots))
                  (opened_list s parent e) (Ensures-transact plan parent snapshots))))

    Ensures-run_plan :
        (plan : RepairPlan) (is_loaded : Bool)
        → plan.dry_run ≡ false
        → Ensures (IsRepaired W F V G plan list) (run_plan R V plan is_loaded)
    unfolding run_plan
    Ensures-run_plan plan is_loaded real =
        Ensures-bind _ (preflight R V plan is_loaded) _
          (λ note _ _. Ensures-if _ _ _ plan.dry_run real (Ensures-change_registry plan))

    held-ok :
        (P : R.State → Type 0) (r : Result Text (Unit {0}) × R.State)
        (m : Program R.State RepairError (Unit {0})) (u : Unit {0})
        → ((s : R.State) → P s → P (V.release_operation_guard s))
        → Ensures P m
        → (held R V r m).0 ≡ ok u
        → P (held R V r m).1
    unfolding held
    held-ok P (ok x, s) m u releases h e = releases (m s).1 (h.holds s u e)
    held-ok P (err x, s) m u releases h e = ground arith

    -- A repair that is not dry and returns without an error leaves the profile's key under its
    -- canonical name, no `.bak` key if the `.bak` repair was selected, a `ProfileImagePath` value,
    -- and `State` and `RefCount` values of 0 if the reset was selected. Conditions: opening,
    -- reading, logging and releasing the guard behave as documented, and `ProfileList` is not
    -- replaced by another key.
    pub execute_plan-repaired :
        (plan : RepairPlan) (is_loaded : Bool) (s : R.State) (u : Unit {0})
        → ((t : R.State) → SameContents W t (V.release_operation_guard t))
        → plan.dry_run ≡ false
        → (execute_plan R V plan is_loaded s).0 ≡ ok u
        → IsRepaired W F V G plan list (execute_plan R V plan is_loaded s).1
    execute_plan-repaired plan is_loaded s u releases real e =
        let run = execute_plan-real R V (SameContents W) G plan is_loaded s real in
        subst (λ r. IsRepaired W F V G plan list r.1) (sym run)
          (held-ok _ (V.acquire_operation_guard s) (run_plan R V plan is_loaded) u
            (λ t. moved plan list t _ (releases t)) (Ensures-run_plan plan is_loaded real)
            (sym (ap (λ r. r.0) run) ∙ e))
