-- ===== src/Audit/Legacy/Monotone.antt =====
-- A migration only moves forward, and ends before its audit.
use win_profile.Base.{
  ℕ, ◌≤◌, ◌≡◌, refl, sym, ap, not, Result, ok, err, Program, with_error, raise_if, Text, codes,
  ◌++◌, ◌==◌, arith,
}
use win_profile.Base.Hoare.{Gives, Gives-bind, Gives-pure}
use win_profile.Audit.Legacy.{
  MigrationPhase, prepared, detached, root_ready, audit_pending, done, phase_number,
  MigrationStateRecord,
}
use win_profile.Audit.Legacy.Calls.{LegacyStorageError, random, identity_changed, privilege, Calls}
use win_profile.Audit.Legacy.Transition.{
  product_directory, with_phase, prepared_record, stored, write_state, persist_prepared_state,
  verify_ready_root, activate_prepared, start_operation, finish_privileged_namespace, privileged,
  activate_again, resume_detached, detach_again, resume_prepared, resume_ready, resume_operation,
  resume_namespace,
}

-- A later record of the same migration, in which the new root is in place.
pub record IsLater (state later : MigrationStateRecord) : Type 0 where
  pub same_migration : later ≡ with_phase later.phase state
  pub forward : phase_number state.phase ≤ phase_number later.phase
  pub in_place : 2 ≤ phase_number later.phase

module _ {S : Type 0} (C : Calls S) where
  finish_privileged_namespace-ok :
      (r : Result LegacyStorageError MigrationStateRecord) (v : Result Text (Unit {0}))
      (a : MigrationStateRecord)
      → finish_privileged_namespace C r v ≡ ok a
      → r ≡ ok a
  unfolding finish_privileged_namespace
  finish_privileged_namespace-ok (ok b) (ok u) a e = e
  finish_privileged_namespace-ok (ok b) (err x) a e = ground arith
  finish_privileged_namespace-ok (err y) (ok u) a e = ground arith
  finish_privileged_namespace-ok (err y) (err x) a e = ground arith

  pub Gives-privileged :
      (Q : MigrationStateRecord → Type 0) (m : Program S LegacyStorageError MigrationStateRecord)
      → Gives Q m
      → Gives Q (privileged C m)
  unfolding privileged
  Gives-privileged Q m h = Gives-bind Q (with_error privilege C.enable_privileges) _ (λ _ _ _.
      record { holds = λ s a e. h.holds s a (finish_privileged_namespace-ok (m s).0 _ a e) })

  Gives-resume_detached :
      (state start : MigrationStateRecord)
      → start ≡ with_phase start.phase state
      → phase_number start.phase ≤ 2
      → Gives (IsLater start) (resume_detached C state)
  unfolding resume_detached phase_number
  Gives-resume_detached state start same early =
      Gives-bind _ (stored C (C.open_object_identity state.legacy_name)) _ (λ _ _ _.
        Gives-bind _ (raise_if (not (_ == state.source_identity)) identity_changed) _ (λ _ _ _.
          Gives-bind _
            (λ s. activate_again C state (C.open_existing_child_for_rename state.next_name s)) _
            (λ _ _ _. Gives-bind _ (write_state C (with_phase root_ready state)) _ (λ _ _ _.
              Gives-pure _ (with_phase root_ready state) (record {
                same_migration = ap (with_phase root_ready) (sym same);
                forward = early;
                in_place = omega arith;
              })))))

  Gives-resume_prepared :
      (state : MigrationStateRecord)
      → state.phase ≡ prepared
      → Gives (IsLater state) (resume_prepared C state)
  unfolding resume_prepared phase_number
  Gives-resume_prepared state at_start =
      Gives-bind _ (λ s. detach_again C state (C.open_object_for_detach product_directory s)) _
        (λ _ _ _. Gives-bind _ (write_state C (with_phase detached state)) _ (λ _ _ _.
          Gives-resume_detached (with_phase detached state) state refl (rw at_start (omega arith))))

  Gives-resume_ready :
      (state : MigrationStateRecord)
      → 2 ≤ phase_number state.phase
      → Gives (IsLater state) (resume_ready C state)
  unfolding resume_ready
  Gives-resume_ready state ready = Gives-bind _ (verify_ready_root C state) _ (λ _ _ _.
      Gives-pure _ state
        (record { same_migration = refl; forward = omega arith; in_place = ready }))

  Gives-resume_operation :
      (p : MigrationPhase) (state : MigrationStateRecord)
      → state.phase ≡ p
      → Gives (IsLater state) (resume_operation C p state)
  unfolding resume_operation phase_number
  Gives-resume_operation prepared state e = Gives-resume_prepared state e
  Gives-resume_operation detached state e =
      Gives-resume_detached state state refl (rw e (omega arith))
  Gives-resume_operation root_ready state e = Gives-resume_ready state (rw e (omega arith))
  Gives-resume_operation audit_pending state e = Gives-resume_ready state (rw e (omega arith))
  Gives-resume_operation done state e = Gives-resume_ready state (rw e (omega arith))

  -- A resumed migration keeps its record but for the phase, which never moves back.
  pub Gives-resume_namespace :
      (state : MigrationStateRecord) → Gives (IsLater state) (resume_namespace C state)
  unfolding resume_namespace
  Gives-resume_namespace state =
      Gives-privileged _ _ (Gives-resume_operation state.phase state refl)

  abbrev pub IsFresh : ℕ → MigrationStateRecord → Type 0
  IsFresh detected state = (state.source_identity ≡ detected) × (state.phase ≡ root_ready)

  Gives-activate_prepared :
      (source : C.Object) (next : C.Directory) (state : MigrationStateRecord) (detected : ℕ)
      → state.source_identity ≡ detected
      → Gives (IsFresh detected) (activate_prepared C source next state)
  unfolding activate_prepared
  Gives-activate_prepared source next state detected e =
      Gives-bind _ (stored C (C.rename_object source state.legacy_name)) _ (λ _ _ _.
        Gives-bind _ (write_state C (with_phase detached state)) _ (λ _ _ _.
          Gives-bind _ (stored C (C.rename_directory next product_directory)) _ (λ active _ _.
            Gives-bind _ (stored C (C.validate_production_root active)) _ (λ _ _ _.
              Gives-bind _ (stored C (C.directory_identity active)) _ (λ identity _ _.
                Gives-bind _ (raise_if (not (identity == state.next_identity)) identity_changed) _
                  (λ _ _ _.
                    Gives-bind _ (write_state C (with_phase root_ready state)) _
                      (λ _ _ _. Gives-pure _ (with_phase root_ready state) (e, refl))))))))

  pub Gives-start_operation : (detected : ℕ) → Gives (IsFresh detected) (start_operation C detected)
  unfolding start_operation prepared_record
  Gives-start_operation detected =
      Gives-bind _ (stored C (C.open_object_for_detach product_directory)) _ (λ source _ _.
        Gives-bind _ (raise_if (not (detected == C.object_identity source)) identity_changed) _
          (λ _ s passed. Gives-bind _ (with_error random C.random_id) _ (λ id _ _.
            Gives-bind _ (stored C (C.create_protected_child (codes "WinProfile.Next." ++ id))) _
              (λ next _ _. Gives-bind _ (stored C (C.directory_identity next)) _ (λ identity _ _.
                Gives-bind _
                  (persist_prepared_state C next
                    (prepared_record id (C.object_identity source) identity))
                  _
                  (λ kept _ _.
                    Gives-activate_prepared source kept
                      (prepared_record id (C.object_identity source) identity) detected
                      (ground arith)))))))
