-- ===== src/Audit/Legacy/Recovery.antt =====
-- What `execute_recovery` gives, and what it leaves alone when the legacy object was exchanged.
use win_profile.Base.{
  ℕ, ◌≤◌, ◌≡◌, ◌≢◌, ◌⊎◌, refl, ap, ◌∙◌, none, some, ok, Result-cases, arith, inl, inr,
}
use win_profile.Base.Hoare.{Gives, Gives-bind, Gives-pure}
use win_profile.Audit.Legacy.{
  MigrationPhase, prepared, detached, root_ready, audit_pending, done, phase_number, recovery_plan,
  MigrationStateRecord,
}
use win_profile.Audit.Legacy.Calls.{Calls}
use win_profile.Audit.Legacy.Transition.{
  product_directory, with_phase, stored, write_state, start_operation, privileged, start_namespace,
  resume_namespace, mark_pending, execute_recovery,
}
use win_profile.Audit.Legacy.Monotone.{
  IsFresh, Gives-privileged, Gives-start_operation, Gives-resume_namespace,
}

module _ {S : Type 0} (C : Calls S) where
  abbrev AtAudit : MigrationStateRecord → MigrationStateRecord → Type 0
  AtAudit state later = (later ≡ with_phase audit_pending state) × (phase_number state.phase ≤ 3)

  mark_pending-AtAudit :
      (p : MigrationPhase) (state : MigrationStateRecord)
      → state.phase ≡ p
      → Gives (AtAudit state) (mark_pending C (recovery_plan p) state)
  unfolding mark_pending recovery_plan phase_number
  mark_pending-AtAudit prepared state e = record { holds = λ s a h. ground arith }
  mark_pending-AtAudit detached state e = record { holds = λ s a h. ground arith }
  mark_pending-AtAudit root_ready state e =
      Gives-bind _ (write_state C (with_phase audit_pending state)) _
        (λ _ _ _. Gives-pure _ (with_phase audit_pending state) (refl, rw e (omega arith)))
  mark_pending-AtAudit audit_pending state e =
      Gives-pure _ state (ap (λ p. with_phase p state) e, rw e (omega arith))
  mark_pending-AtAudit done state e = record { holds = λ s a h. ground arith }

  -- A migration that is begun ends at the audit, and its source is the object that was consented to.
  pub execute_recovery-fresh :
      (detected : ℕ) (s : S) (state : MigrationStateRecord)
      → (execute_recovery C none detected s).0 ≡ ok state
      → (state.phase ≡ audit_pending) × (state.source_identity ≡ detected)
  unfolding execute_recovery start_namespace
  execute_recovery-fresh detected s state e =
      (Gives-bind (λ later. (later.phase ≡ audit_pending) × (later.source_identity ≡ detected))
          (privileged C (start_operation C detected)) _
          (λ begun t first. Gives-bind _ (stored C C.open_existing_root) _ (λ _ _ _. record {
            holds = λ u later h.
                let (same, early) = (mark_pending-AtAudit begun.phase begun refl).holds u later h in
                let fresh =
                  (Gives-privileged C (IsFresh C detected) (start_operation C detected)
                      (Gives-start_operation C detected)).holds
                    t begun first in
                (ap (λ r. r.phase) same, ap (λ r. r.source_identity) same ∙ fresh.0);
          }))).holds
        s state e

  -- A migration that is resumed ends at the audit, keeps its record but for the phase, and had not
  -- been completed.
  pub execute_recovery-resumed :
      (found : MigrationStateRecord) (detected : ℕ) (s : S) (state : MigrationStateRecord)
      → (execute_recovery C (some found) detected s).0 ≡ ok state
      → (state ≡ with_phase audit_pending found) × (phase_number found.phase ≤ 3)
  unfolding execute_recovery
  execute_recovery-resumed found detected s state e =
      (Gives-bind (AtAudit found) (resume_namespace C found) _ (λ resumed t first.
          Gives-bind _ (stored C C.open_existing_root) _ (λ _ _ _. record {
            holds = λ u later h.
                let (same, early) =
                  (mark_pending-AtAudit resumed.phase resumed refl).holds u later h in
                let kept = (Gives-resume_namespace C found).holds t resumed first in
                (
                  same ∙ ap (with_phase audit_pending) kept.same_migration,
                  omega (arith, kept.forward, early),
                );
          }))).holds
        s state e

  start_operation-exchanged :
      (detected : ℕ) (s : S)
      → ((source : C.Object)
          → (C.open_object_for_detach product_directory s).0 ≡ ok source
          → C.object_identity source ≢ detected)
      → (start_operation C detected s).1 ≡ (C.open_object_for_detach product_directory s).1
  unfolding start_operation
  start_operation-exchanged detected s other =
      elim (Result-cases (C.open_object_for_detach product_directory s).0) [
        | inl (source, opened) ↦ ground (arith, opened, other source opened)
        | inr (x, bad) ↦ ground (arith, bad)
      ]

  -- If the object under the product's name is not the one that was consented to, a begun
  -- migration makes no call but those that adjust and restore privileges and open the object.
  pub start_namespace-exchanged :
      (detected : ℕ) (s : S)
      → ((source : C.Object)
          → (C.open_object_for_detach product_directory (C.enable_privileges s).1).0 ≡ ok source
          → C.object_identity source ≢ detected)
      → ((start_namespace C detected s).1 ≡ (C.enable_privileges s).1)
        ⊎ ((start_namespace C detected s).1
            ≡ (C.restore_privileges
                (C.open_object_for_detach product_directory (C.enable_privileges s).1).1).1)
  unfolding start_namespace privileged
  start_namespace-exchanged detected s other = elim (Result-cases (C.enable_privileges s).0) [
    | inl (u, enabled) ↦ inr (
        ground (arith, enabled, start_operation-exchanged detected (C.enable_privileges s).1 other))
    | inr (x, bad) ↦ inl (ground (arith, bad))
  ]
