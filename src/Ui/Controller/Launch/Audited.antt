-- ===== src/Ui/Controller/Launch/Audited.antt =====
-- `execute_trustedinstaller_launch`, by the journal and the process that it leaves.
use win_profile.Base.{
  ℕ, ◌≡◌, refl, ◌⊎◌, sym, ◌∙◌, subst, List, [], ◌∷◌, ◌++◌, Result, ok, err, map_err, continue, Text,
  codes,
}
use win_profile.Audit.Event.{Event}
use win_profile.Ui.Controller.Launch.{
  TrustedInstallerLaunchError, operation_lock, request_audit, launch, launch_and_failure_audit,
  terminal_audit_compensated, terminal_audit_compensation_failed, request_event, failure_event,
  spawned_event, Launching, failure_of, compensation_error, after_failed_launch, after_spawn,
  after_launch, requested_launch, execute_trustedinstaller_launch,
}

-- `later` has the entry, which a record that failed may have written or not: forcing it to the disk
-- can fail behind the write.
abbrev pub Written : List Event → Event → Result Text (Unit {0}) → List Event → Type 0
Written es e (ok _) later = later ≡ es ++ e ∷ []
Written es e (err x) later = (later ≡ es) ⊎ (later ≡ es ++ e ∷ [])

module _ {S : Type 0} (L : Launching S) (journal : S → List Event) (IsGone : ℕ → S → Type 0) where
  -- `journal` has every entry that was recorded, those of archives that are dropped included.
  -- What the calls are documented to do: a record adds its entry, or it fails and may have added
  -- it, no other call changes the journal, and a process that was terminated and waited for is gone and stays so.
  pub record Records : Type 0 where
    pub recorded : (e : Event) (s : S) → Written (journal s) e (L.log e s).0 (journal (L.log e s).1)
    pub acquired : (s : S) → journal (L.acquire_trustedinstaller_operation_guard s).1 ≡ journal s
    pub released : (s : S) → journal (L.release_operation_guard s) ≡ journal s
    pub launched : (s : S) → journal (L.launcher s).1 ≡ journal s
    pub terminated : (p : L.Process) (s : S) → journal (L.terminate p s).1 ≡ journal s
    pub waited : (p : L.Process) (s : S) → journal (L.wait_for_exit p s).1 ≡ journal s
    pub dropped : (p : L.Process) (s : S) → journal (L.drop_process p s) ≡ journal s
    pub reaped :
        (p : L.Process) (s : S)
        → (L.terminate p s).0 ≡ ok tt
        → (L.wait_for_exit p (L.terminate p s).1).0 ≡ ok tt
        → IsGone (L.pid p) (L.wait_for_exit p (L.terminate p s).1).1
    pub stays : (p : L.Process) (pid : ℕ) (s : S) → IsGone pid s → IsGone pid (L.drop_process p s)
    pub stays_released : (pid : ℕ) (s : S) → IsGone pid s → IsGone pid (L.release_operation_guard s)

  -- The journal at the end, by the result, from the one at the start.
  abbrev pub Leaves : List Event → Result TrustedInstallerLaunchError ℕ → S → Type 0
  Leaves es (ok pid) s =
      (session_id : ℕ) × (journal s
        ≡ (es ++ request_event ∷ []) ++ spawned_event pid session_id ∷ [])
  Leaves es (err (operation_lock e)) s = journal s ≡ es
  Leaves es (err (request_audit e)) s = Written es request_event (err e) (journal s)
  Leaves es (err (launch e)) s = journal s ≡ (es ++ request_event ∷ []) ++ failure_event e ∷ []
  Leaves es (err (launch_and_failure_audit e a)) s =
      Written (es ++ request_event ∷ []) (failure_event e) (err a) (journal s)
  Leaves es (err (terminal_audit_compensated pid a)) s =
      ((session_id : ℕ) × Written (es ++ request_event ∷ []) (spawned_event pid session_id) (err a)
          (journal s))
      × IsGone pid s
  Leaves es (err (terminal_audit_compensation_failed pid a c)) s =
      (session_id : ℕ) × Written (es ++ request_event ∷ []) (spawned_event pid session_id) (err a)
        (journal s)

  module _ (R : Records) where
    compensated-Leaves :
        (es : List Event) (p : L.Process) (session_id : ℕ) (audit_error : Text) (s : S)
        (r q : Result Text (Unit {0}))
        → Written
            (es ++ request_event ∷ [])
            (spawned_event (L.pid p) session_id)
            (err audit_error)
            (journal s)
        → (r ≡ ok tt → q ≡ ok tt → IsGone (L.pid p) s)
        → Leaves es
            (err (
              compensation_error
                (L.pid p)
                audit_error
                (failure_of (codes "terminate: ") r ++ failure_of (codes "wait: ") q)))
            s
    unfolding compensation_error failure_of
    compensated-Leaves es p n audit_error s (ok u) (ok v) h gone = ((n, h), gone refl refl)
    compensated-Leaves es p n audit_error s (ok u) (err x) h gone = (n, h)
    compensated-Leaves es p n audit_error s (err x) (ok v) h gone = (n, h)
    compensated-Leaves es p n audit_error s (err x) (err y) h gone = (n, h)

    after_spawn-Leaves :
        (es : List Event) (p : L.Process) (session_id : ℕ) (r : Result Text (Unit {0})) (s : S)
        → Written (es ++ request_event ∷ []) (spawned_event (L.pid p) session_id) r (journal s)
        → Leaves es (after_spawn L p r s).0 (after_spawn L p r s).1
    unfolding after_spawn
    after_spawn-Leaves es p session_id (ok u) s same = (session_id, R.dropped p s ∙ same)
    after_spawn-Leaves es p session_id (err x) s h =
        let t = (L.terminate p s).1 in
        let u = (L.wait_for_exit p t).1 in
        compensated-Leaves es p session_id x (L.drop_process p u) (L.terminate p s).0
          (L.wait_for_exit p t).0
          (subst (Written (es ++ request_event ∷ []) (spawned_event (L.pid p) session_id) (err x))
            (sym (R.dropped p u ∙ (R.waited p t ∙ R.terminated p s))) h)
          (λ a b. R.stays p (L.pid p) u (R.reaped p s a b))

    after_launch-Leaves :
        (es : List Event) (r : Result Text (L.Process × ℕ)) (s : S)
        → journal s ≡ es ++ request_event ∷ []
        → Leaves es (after_launch L r s).0 (after_launch L r s).1
    unfolding after_launch after_failed_launch
    after_launch-Leaves es (err x) s same = failed_as (L.log (failure_event x) s) (
        subst
          (λ l.
            Written l (failure_event x) (L.log (failure_event x) s).0
              (journal (L.log (failure_event x) s).1))
          same (R.recorded (failure_event x) s))
      where
        failed_as :
            (g : Result Text (Unit {0}) × S)
            → Written (es ++ request_event ∷ []) (failure_event x) g.0 (journal g.1)
            → Leaves es (err (after_failed_launch L x g.0)) g.1
        failed_as (ok u, t) e = e
        failed_as (err y, t) e = e
    after_launch-Leaves es (ok (p, session_id)) s same =
        let e = spawned_event (L.pid p) session_id in
        after_spawn-Leaves es p session_id (L.log e s).0 (L.log e s).1
          (subst (λ l. Written l e (L.log e s).0 (journal (L.log e s).1)) same (R.recorded e s))

    requested_launch-Leaves :
        (s : S) → Leaves (journal s) (requested_launch L s).0 (requested_launch L s).1
    unfolding requested_launch
    requested_launch-Leaves s = requested (L.log request_event s) (R.recorded request_event s)
      where
        requested :
            (g : Result Text (Unit {0}) × S)
            → Written (journal s) request_event g.0 (journal g.1)
            → Leaves
                (journal s)
                (continue
                  (map_err request_audit g.0, g.1)
                  (λ _ s. let (launched, t) = L.launcher s in after_launch L launched t)).0
                (continue
                  (map_err request_audit g.0, g.1)
                  (λ _ s. let (launched, t) = L.launcher s in after_launch L launched t)).1
        requested (ok u, t) e =
            after_launch-Leaves (journal s) (L.launcher t).0 (L.launcher t).1 (R.launched t ∙ e)
        requested (err x, t) e = e

    Written-released :
        (es : List Event) (e : Event) (r : Result Text (Unit {0})) (s : S)
        → Written es e r (journal s)
        → Written es e r (journal (L.release_operation_guard s))
    Written-released es e r s = subst (Written es e r) (sym (R.released s))

    Leaves-released :
        (es : List Event) (r : Result TrustedInstallerLaunchError ℕ) (s : S)
        → Leaves es r s
        → Leaves es r (L.release_operation_guard s)
    Leaves-released es (ok pid) s (session_id, e) = (session_id, R.released s ∙ e)
    Leaves-released es (err (operation_lock x)) s e = R.released s ∙ e
    Leaves-released es (err (request_audit x)) s e = Written-released es request_event (err x) s e
    Leaves-released es (err (launch x)) s e = R.released s ∙ e
    Leaves-released es (err (launch_and_failure_audit x a)) s e =
        Written-released (es ++ request_event ∷ []) (failure_event x) (err a) s e
    Leaves-released es (err (terminal_audit_compensated pid a)) s ((n, e), gone) = (
      (n, Written-released (es ++ request_event ∷ []) (spawned_event pid n) (err a) s e),
      R.stays_released pid s gone,
    )
    Leaves-released es (err (terminal_audit_compensation_failed pid a c)) s (n, e) =
        (n, Written-released (es ++ request_event ∷ []) (spawned_event pid n) (err a) s e)

    -- However a launch of the console ends, the journal has what its result says: nothing new if the
    -- guard failed, otherwise the request, and then the process that was started or the error of the
    -- launch. Only the last of these entries may be missing, and only if the result says that its
    -- record failed; a process whose record failed is gone, or the error says that its compensation
    -- failed. The calls are taken to treat the journal and the process as documented, where a record
    -- that fails may have added its entry or not.
    pub execute_trustedinstaller_launch-Leaves :
        (s : S)
        → Leaves
            (journal s)
            (execute_trustedinstaller_launch L s).0
            (execute_trustedinstaller_launch L s).1
    unfolding execute_trustedinstaller_launch
    execute_trustedinstaller_launch-Leaves s =
        held (L.acquire_trustedinstaller_operation_guard s) (R.acquired s)
      where
        held :
            (g : Result Text (Unit {0}) × S)
            → journal g.1 ≡ journal s
            → Leaves
                (journal s)
                (continue
                  (map_err operation_lock g.0, g.1)
                  (λ _ s. let (r, t) = requested_launch L s in (r, L.release_operation_guard t))).0
                (continue
                  (map_err operation_lock g.0, g.1)
                  (λ _ s. let (r, t) = requested_launch L s in (r, L.release_operation_guard t))).1
        held (ok u, t) e =
            subst
              (λ es.
                Leaves es (requested_launch L t).0
                  (L.release_operation_guard (requested_launch L t).1))
              e
              (Leaves-released (journal t) (requested_launch L t).0 (requested_launch L t).1
                (requested_launch-Leaves t))
        held (err x, t) e = e
