-- ===== src/Ui/Controller/Operation.antt =====
-- `OperationKind`, `ClosePolicy` and `OperationState` of crates/app-ui/src/controller.rs, and the
-- sections of the controller that use them under the mutex of the migration's cancellation.
pub mod Sound
pub mod Deferred
use win_profile.Base.{ℕ, Bool, true, false, ◌||◌, ◌==◌, if◌then◌else◌}

pub data OperationKind : Type 0 where
  idle scan repair migration trusted_installer export unknown : OperationKind

pub data ClosePolicy : Type 0 where
  allow block cancel : ClosePolicy

-- The numbers of `repr(u8)`.
unfoldable pub to_raw : OperationKind → ℕ
to_raw idle = 0
to_raw scan = 1
to_raw repair = 2
to_raw migration = 3
to_raw trusted_installer = 4
to_raw export = 5
to_raw unknown = 255

unfoldable pub from_raw : ℕ → OperationKind
from_raw value =
    if value == 0
    then idle
    else if value == 1
    then scan
    else if value == 2
    then repair
    else if value == 3
    then migration
    else if value == 4
    then trusted_installer
    else if value == 5
    then export
    else unknown

unfoldable pub close_policy : OperationKind → ClosePolicy
close_policy idle = allow
close_policy migration = cancel
close_policy scan = block
close_policy repair = block
close_policy trusted_installer = block
close_policy export = block
close_policy unknown = block

-- `OperationState`, with the values of its atomics.
pub record OperationState : Type 0 where
  pub active : ℕ
  pub close_after_finish : Bool

abbrev pub new_state : OperationState
new_state = record { active = 0; close_after_finish = false }

-- A compare and exchange with the number of `Idle`.
unfoldable pub try_begin : OperationKind → OperationState → Bool × OperationState
unfolding to_raw
try_begin operation s =
    if s.active == 0 then (true, record s { active = to_raw operation }) else (false, s)

unfoldable pub active_operation : OperationState → OperationKind
unfolding from_raw
active_operation s = from_raw s.active

unfoldable pub request_close_after_finish : OperationState → OperationState
request_close_after_finish s = record s { close_after_finish = true }

-- The value of the flag that is given.
unfoldable pub cancel_if_close_deferred : OperationState → Bool → Bool
cancel_if_close_deferred s cancellation = if s.close_after_finish then true else cancellation

unfoldable pub finish : OperationState → Bool × OperationState
finish s = (s.close_after_finish, record { active = 0; close_after_finish = false })

-- What the threads share: the state, and the cancellation flag of the migration with whether the
-- slot holds it.
pub record Shared : Type 0 where
  pub operation_state : OperationState
  pub cancellation : Bool
  pub installed : Bool

-- The section of `start_migration`: a new flag, put into the slot.
unfoldable pub install_cancellation : Shared → Shared
unfolding cancel_if_close_deferred
install_cancellation s = record s {
  cancellation = cancel_if_close_deferred s.operation_state false;
  installed = true;
}

-- The section of `handle_close_requested` for a migration.
unfoldable pub defer_close : Shared → Shared
unfolding request_close_after_finish
defer_close s = record s {
  operation_state = request_close_after_finish s.operation_state;
  cancellation = if s.installed then true else s.cancellation;
}

unfoldable pub cancel_migration : Shared → Shared
cancel_migration s = record s { cancellation = if s.installed then true else s.cancellation }

-- The end of the migration's thread.
unfoldable pub clear_cancellation : Shared → Shared
clear_cancellation s = record s { installed = false }

unfoldable pub finish_operation : Shared → Bool × Shared
unfolding finish
finish_operation s =
    let (close, state) = finish s.operation_state in (close, record s { operation_state = state })
