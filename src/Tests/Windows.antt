-- ===== src/Tests/Windows.antt =====
-- A run of the window and a migration.
use win_profile.Base.{
  ℕ, ◌≡◌, ◌⊎◌, inl, inr, refl, Bool, true, false, List, [], ◌∷◌, ◌++◌, is_empty, ok, err, Program,
  Text, codes,
}
use win_profile.Audit.Event.{Event}
use win_profile.Ui.Controller.Launch.{
  Launching, terminal_audit_compensated, execute_trustedinstaller_launch,
}
use win_profile.Ui.Controller.Launch.Audited.{
  Written, Records, Leaves, execute_trustedinstaller_launch-Leaves,
}
use win_profile.Ui.Controller.Operation.{
  close_policy, active_operation, from_raw, to_raw, try_begin, install_cancellation,
  cancel_if_close_deferred, defer_close, request_close_after_finish, clear_cancellation,
  finish_operation, finish,
}
use win_profile.Ui.Controller.Operation.Sound.{
  World, launched, waiting, resting, copying, cleared, Steps, here, next, start, install, request,
  defer, clear, complete,
}
use win_profile.Ui.Controller.Operation.Deferred.{Closes, defer_close-Closes}

-- The window is asked to close while the migration copies.
abbrev copied_until : World
copied_until = record {
  shared = record {
    operation_state = record { active = 3; close_after_finish = true };
    cancellation = true;
    installed = true;
  };
  window = waiting;
  worker = copying;
  hidden = launched.hidden;
}

copied_until-reached : Steps launched copied_until
unfolding try_begin to_raw install_cancellation cancel_if_close_deferred close_policy
    active_operation from_raw defer_close request_close_after_finish
copied_until-reached =
    next (next (next (next here (start refl refl)) (install refl)) (request refl refl)) (defer refl)

abbrev cleared_then : World
cleared_then = record copied_until {
  shared = clear_cancellation copied_until.shared;
  worker = cleared;
}

defer_close-Closes_example : (cleared_then.hidden ≡ true) ⊎ Closes cleared_then
defer_close-Closes_example =
    defer_close-Closes copied_until cleared_then copied_until-reached (refl, inr (inl refl))
      (next here (clear refl))

-- A close that is requested while the migration completes stays deferred although none is under way.
abbrev completed_late : World
completed_late = record {
  shared = record {
    operation_state = record { active = 0; close_after_finish = true };
    cancellation = false;
    installed = false;
  };
  window = waiting;
  worker = resting;
  hidden = false;
}

stale_close : Steps launched completed_late
unfolding try_begin to_raw install_cancellation cancel_if_close_deferred close_policy
    active_operation from_raw defer_close request_close_after_finish clear_cancellation
    finish_operation finish
stale_close =
    next
      (next
        (next (next (next (next here (start refl refl)) (install refl)) (request refl refl))
          (clear refl))
        (complete refl))
      (defer refl)

-- The journal, and whether the process runs. The record of a process fails when its entry is
-- written.
record Console : Type 0 where
  journal : List Event
  running : Bool

unfoldable record_event : Bool → Event → Program Console Text (Unit {0})
record_event true e s = (ok tt, record s { journal = s.journal ++ e ∷ [] })
record_event false e s = (err (codes "sync"), record s { journal = s.journal ++ e ∷ [] })

abbrev console : Launching Console
console = record {
  Process = ℕ;
  acquire_trustedinstaller_operation_guard = λ s. (ok tt, s);
  release_operation_guard = λ s. s;
  log = λ e s. record_event (is_empty s.journal) e s;
  launcher = λ s. (ok (9, 2), record s { running = true });
  pid = λ p. p;
  terminate = λ p s. (ok tt, record s { running = false });
  wait_for_exit = λ p s. (ok tt, s);
  drop_process = λ p s. s;
}

abbrev journal : Console → List Event
journal s = s.journal

abbrev IsGone : ℕ → Console → Type 0
IsGone pid s = s.running ≡ false

record_event-Written :
    (b : Bool) (e : Event) (s : Console)
    → Written s.journal e (record_event b e s).0 (record_event b e s).1.journal
unfolding record_event
record_event-Written true e s = refl
record_event-Written false e s = inr refl

console-Records : Records console journal IsGone
console-Records = record {
  recorded = λ e s. record_event-Written (is_empty s.journal) e s;
  acquired = λ s. refl;
  released = λ s. refl;
  launched = λ s. refl;
  terminated = λ p s. refl;
  waited = λ p s. refl;
  dropped = λ p s. refl;
  reaped = λ p s a b. refl;
  stays = λ p pid s h. h;
  stays_released = λ pid s h. h;
}

abbrev no_console : Console
no_console = record { journal = []; running = false }

launch_runs :
    (execute_trustedinstaller_launch console no_console).0
    ≡ err (terminal_audit_compensated 9 (codes "sync"))
unfolding execute_trustedinstaller_launch record_event
launch_runs = refl

execute_trustedinstaller_launch-Leaves_example :
    Leaves console journal IsGone []
      (execute_trustedinstaller_launch console no_console).0
      (execute_trustedinstaller_launch console no_console).1
execute_trustedinstaller_launch-Leaves_example =
    execute_trustedinstaller_launch-Leaves console journal IsGone console-Records no_console
