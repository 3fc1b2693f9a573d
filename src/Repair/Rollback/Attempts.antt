-- ===== src/Repair/Rollback/Attempts.antt =====
-- Every snapshot of a rollback is restored, and what the rollback reports.
use win_profile.Base.{
  ◌≡◌, refl, sym, ap, ◌∙◌, true, List, [], ◌∷◌, ◌++◌, append_assoc, append-nil, Result, ok, err,
  is_ok, Program, Text, is_empty, length, arith, All,
}
use win_profile.Repair.Rollback.{
  note_failure, attempt_all, attempt_all_then_audit, rollback_names, restore_one, audit_summary,
  rollback,
}
use win_profile.Platform.Registry.Api.{Win32Registry}
use win_profile.Profiles.Models.{RepairPlan}
use win_profile.Repair.Env.{Services, RegistryMutation, RepairSnapshot}

-- The independent description: the items restored one after the other, whatever each one gives.
abbrev pub outcomes :
    {S T : Type 0}
    → (T → Program S Text (Unit {0}))
    → List T
    → S
    → List (Result Text (Unit {0})) × S
outcomes restore [] s = ([], s)
outcomes restore (item ∷ items) s =
    let (r, t) = restore item s in let (rs, u) = outcomes restore items t in (r ∷ rs, u)

abbrev pub failures : List (Result Text (Unit {0})) → List Text
failures [] = []
failures (ok _ ∷ rs) = failures rs
failures (err e ∷ rs) = e ∷ failures rs

failures-cons :
    (errors : List Text) (r : Result Text (Unit {0})) (rs : List (Result Text (Unit {0})))
    → (note_failure errors r ++ failures rs) ≡ (errors ++ failures (r ∷ rs))
failures-cons errors (ok u) rs = refl
failures-cons errors (err e) rs = append_assoc errors (e ∷ []) (failures rs)

failures-append :
    (rs : List (Result Text (Unit {0}))) (r : Result Text (Unit {0}))
    → note_failure (failures rs) r ≡ failures (rs ++ r ∷ [])
failures-append [] (ok u) = refl
failures-append [] (err e) = refl
failures-append (ok u ∷ rs) r = failures-append rs r
failures-append (err e ∷ rs) (ok u) = ap (λ z. e ∷ z) (failures-append rs (ok u))
failures-append (err e ∷ rs) (err x) = ap (λ z. e ∷ z) (failures-append rs (err x))

note_failure-append :
    (errors failed : List Text) (r : Result Text (Unit {0}))
    → note_failure (errors ++ failed) r ≡ (errors ++ note_failure failed r)
note_failure-append errors failed (ok u) = refl
note_failure-append errors failed (err e) = append_assoc errors failed (e ∷ [])

module _ {S : Type 0} {T : Type 0} (restore : T → Program S Text (Unit {0})) where
  -- Every item is restored, in order, whatever came before it, and the errors are those of the
  -- failures, in order, behind the errors that were there.
  pub attempt_all_lem :
      (items : List T) (errors : List Text) (s : S)
      → attempt_all restore items errors s
        ≡ (errors ++ failures (outcomes restore items s).0, (outcomes restore items s).1)
  unfolding attempt_all
  attempt_all_lem [] errors s = (simp append-nil)
  attempt_all_lem (item ∷ items) errors s =
      attempt_all_lem items _ _
      ∙ ap (λ e. (e, (outcomes restore items (restore item s).1).1))
          (failures-cons errors (restore item s).0 (outcomes restore items (restore item s).1).0)

  -- The audit runs once, with every failure, and after all items.
  pub attempt_all_then_audit_lem :
      (audit : List Text → Program S Text (Unit {0})) (items : List T) (errors : List Text) (s : S)
      → let (rs, t) = outcomes restore items s in
        let (logged, u) = audit (errors ++ failures rs) t in
        attempt_all_then_audit restore audit items errors s
        ≡ (errors ++ failures (rs ++ logged ∷ []), u)
  unfolding attempt_all_then_audit
  attempt_all_then_audit_lem audit items errors s = rw (attempt_all_lem items errors s) (
      ap
        (λ z. (
          z,
          (audit (errors ++ failures (outcomes restore items s).0) (outcomes restore items s).1).1,
        ))
        (note_failure-append errors _ _
          ∙ ap (λ z. errors ++ z) (failures-append (outcomes restore items s).0 _)))

failures-none :
    (errors : List Text) (rs : List (Result Text (Unit {0})))
    → is_empty (errors ++ failures rs) ≡ true
    → (errors ≡ []) × All (λ r. is_ok r ≡ true) rs
failures-none (e ∷ errors) rs h = ground arith
failures-none [] [] h = (refl, tt)
failures-none [] (ok u ∷ rs) h = (refl, (refl, (failures-none [] rs h).1))
failures-none [] (err e ∷ rs) h = ground arith

All-append-left :
    (P : Result Text (Unit {0}) → Type 0) (rs ts : List (Result Text (Unit {0})))
    → All P (rs ++ ts)
    → All P rs
All-append-left P [] ts h = tt
All-append-left P (r ∷ rs) ts h = (h.0, All-append-left P rs ts h.1)

module _ (R : Win32Registry) (V : Services R.State) where
  -- A rollback that reports no error reversed the renames without an error and restored every
  -- snapshot.
  pub rollback_complete :
      (plan : RepairPlan) (parent : R.Hkey) (m : RegistryMutation)
      (snapshots : List (RepairSnapshot V.Snapshot)) (s : R.State) (u : Unit {0})
      → (rollback R V plan parent m snapshots s).0 ≡ ok u
      → let (errors, t) = rollback_names R V plan parent m s in
        (errors ≡ []) × All (λ r. is_ok r ≡ true) (outcomes (restore_one R V) snapshots t).0
  unfolding rollback
  rollback_complete plan parent m snapshots s u h =
      let (errors, t) = rollback_names R V plan parent m s in
      let audit = audit_summary R V plan (length snapshots) in
      let (rs, v) = outcomes (restore_one R V) snapshots t in
      let r = (audit (errors ++ failures rs) v).0 in
      let reported : is_empty (attempt_all_then_audit (restore_one R V) audit snapshots errors t).0
          ≡ true =
        ground arith in
      let all =
        ap (λ z. is_empty z.0)
          (sym (attempt_all_then_audit_lem (restore_one R V) audit snapshots errors t))
        ∙ reported in
      let (none_before, none_after) = failures-none errors (rs ++ r ∷ []) all in
      (none_before, All-append-left (λ r. is_ok r ≡ true) rs (r ∷ []) none_after)
