-- ===== src/Ui/Controller/Operation/Sound.antt =====
-- The threads of the window and of an operation, interleaved.
use win_profile.Base.{
  ◌≡◌, ◌≢◌, Bool-cases, ==_iff, inl, inr, refl, sym, ap, ◌∙◌, Bool, true, false, ◌==◌,
  if◌then◌else◌, arith,
}
use win_profile.Ui.Controller.Operation.{
  allow, OperationKind, migration, cancel, block, idle, scan, repair, trusted_installer, export,
  unknown, close_policy, OperationState, new_state, try_begin, active_operation, finish, Shared,
  install_cancellation, defer_close, cancel_migration, clear_cancellation, finish_operation,
  cancel_if_close_deferred, request_close_after_finish, to_raw,
}

-- Where the window's thread stands: between two events, behind the start of a migration whose
-- cancellation is not yet installed, or in a close request that has read the active operation.
pub data WindowThread : Type 0 where
  waiting starting closing : WindowThread

-- Where the thread of the operation stands.
pub data WorkerThread : Type 0 where
  resting copying cleared : WorkerThread
  other : OperationKind → WorkerThread

pub record World : Type 0 where
  pub shared : Shared
  pub window : WindowThread
  pub worker : WorkerThread
  pub hidden : Bool

abbrev pub launched : World
launched = record {
  shared = record { operation_state = new_state; cancellation = false; installed = false };
  window = waiting;
  worker = resting;
  hidden = false;
}

abbrev pub begun : World → OperationKind → World
begun w k = record w {
  shared = record w.shared { operation_state = (try_begin k w.shared.operation_state).1 };
}

abbrev pub ended : World → World
ended w = record w { shared = (finish_operation w.shared).1; worker = resting }

-- One step of one of the threads, while no mutex is poisoned. Only a window that no operation keeps
-- busy offers to start a migration, so that a plan that selects nothing is refused only then. The
-- end of a migration takes the close that it queues to the window along.
pub data Step (w : World) : World → Type 0 where
  start :
      w.window ≡ waiting
      → (try_begin migration w.shared.operation_state).0 ≡ true
      → Step w (record (begun w migration) { window = starting })
  install :
      w.window ≡ starting
      → Step w
          (record w { shared = install_cancellation w.shared; window = waiting; worker = copying })
  refuse : w.window ≡ waiting → w.worker ≡ resting → Step w (ended w)
  hide :
      w.window ≡ waiting
      → close_policy (active_operation w.shared.operation_state) ≡ allow
      → Step w (record w { hidden = true })
  request :
      w.window ≡ waiting
      → close_policy (active_operation w.shared.operation_state) ≡ cancel
      → Step w (record w { window = closing })
  defer : w.window ≡ closing → Step w (record w { shared = defer_close w.shared; window = waiting })
  cancelled : w.window ≡ waiting → Step w (record w { shared = cancel_migration w.shared })
  clear :
      w.worker ≡ copying
      → Step w (record w { shared = clear_cancellation w.shared; worker = cleared })
  complete :
      w.worker ≡ cleared
      → Step w
          (record (ended w) { hidden = if (finish_operation w.shared).0 then true else w.hidden })
  start_other :
      (k : OperationKind)
      → close_policy k ≡ block
      → w.window ≡ waiting
      → (try_begin k w.shared.operation_state).0 ≡ true
      → Step w (record (begun w k) { worker = other k })
  finish_other : (k : OperationKind) → w.worker ≡ other k → Step w (ended w)

pub data Steps (w : World) : World → Type 0 where
  here : Steps w w
  next : {u v : World} → Steps w u → Step u v → Steps w v

-- What holds of every reachable world.
pub record IsSound (w : World) : Type 0 where
  pub begins : w.window ≡ starting → (w.worker ≡ resting) × (w.shared.operation_state.active ≡ 3)
  pub copies :
      w.worker ≡ copying
      → (w.shared.operation_state.active ≡ 3)
        × (w.shared.installed ≡ true)
        × (w.shared.operation_state.close_after_finish ≡ true → w.shared.cancellation ≡ true)
  pub clears : w.worker ≡ cleared → w.shared.operation_state.active ≡ 3
  pub works : (k : OperationKind) → w.worker ≡ other k → w.shared.operation_state.active ≢ 0

pub try_begin-free :
    (k : OperationKind) (s : OperationState)
    → (try_begin k s).0 ≡ true
    → (s.active ≡ 0) × ((try_begin k s).1 ≡ record s { active = to_raw k })
unfolding try_begin
try_begin-free k s h = elim (Bool-cases (s.active == 0)) [
  | inl free ↦ ((==_iff s.active 0).0 free, rw (try_begin, free) refl)
  | inr taken ↦ absurd (ground (arith, taken))
]

pub to_raw-block : (k : OperationKind) → close_policy k ≡ block → to_raw k ≢ 0
unfolding to_raw close_policy
to_raw-block idle h e = cc
to_raw-block scan h e = cc
to_raw-block repair h e = cc
to_raw-block migration h e = cc
to_raw-block trusted_installer h e = cc
to_raw-block export h e = cc
to_raw-block unknown h e = cc

pub worker-free :
    (w : World)
    → IsSound w
    → w.shared.operation_state.active ≡ 0
    → w.window ≡ waiting
    → w.worker ≡ resting
worker-free w i free at = go w.worker refl
  where
    go : (k : WorkerThread) → w.worker ≡ k → w.worker ≡ resting
    go resting e = e
    go copying e = absurd (let busy = (i.copies e).0 in ground arith)
    go cleared e = absurd (let busy = i.clears e in ground arith)
    go (other k) e = absurd (i.works k e free)

pub Step-IsSound : {w v : World} → Step w v → IsSound w → IsSound v
unfolding install_cancellation cancel_if_close_deferred defer_close request_close_after_finish
    cancel_migration clear_cancellation finish_operation finish to_raw
Step-IsSound {w} (start at free) i =
    let (free_at, same) = try_begin-free migration w.shared.operation_state free in
    let rests = worker-free w i free_at at in
    record {
      begins = λ e. (rests, ap (λ o. o.active) same);
      copies = λ e. absurd cc;
      clears = λ e. absurd cc;
      works = λ k e. absurd cc;
    }
Step-IsSound {w} (install at) i = record {
  begins = λ e. absurd cc;
  copies = λ e. ((i.begins at).1, refl, λ deferred. ground (arith, deferred));
  clears = λ e. absurd cc;
  works = λ k e. absurd cc;
}
Step-IsSound {w} (refuse at rests) i = record {
  begins = λ e. absurd cc;
  copies = λ e. absurd cc;
  clears = λ e. absurd cc;
  works = λ k e. absurd cc;
}
Step-IsSound {w} (hide at policy) i = record {
  begins = i.begins;
  copies = i.copies;
  clears = i.clears;
  works = i.works;
}
Step-IsSound {w} (request at policy) i = record {
  begins = λ e. absurd cc;
  copies = i.copies;
  clears = i.clears;
  works = i.works;
}
Step-IsSound {w} (defer at) i = record {
  begins = λ e. absurd cc;
  copies = λ e.
      let (active, installed, _) = i.copies e in
      (active, installed, λ deferred. ground (arith, installed));
  clears = i.clears;
  works = i.works;
}
Step-IsSound {w} (cancelled at) i = record {
  begins = i.begins;
  copies = λ e.
      let (active, installed, _) = i.copies e in
      (active, installed, λ deferred. ground (arith, installed));
  clears = i.clears;
  works = i.works;
}
Step-IsSound {w} (clear at) i = record {
  begins = λ e. let rests = (i.begins e).0 in absurd cc;
  copies = λ e. absurd cc;
  clears = λ e. (i.copies at).0;
  works = λ k e. absurd cc;
}
Step-IsSound {w} (complete at) i = record {
  begins = λ e. let rests = (i.begins e).0 in absurd cc;
  copies = λ e. absurd cc;
  clears = λ e. absurd cc;
  works = λ k e. absurd cc;
}
Step-IsSound {w} (start_other k blocks at free) i =
    let (free_at, same) = try_begin-free k w.shared.operation_state free in
    record {
      begins = λ e. absurd cc;
      copies = λ e. absurd cc;
      clears = λ e. absurd cc;
      works = λ j e zero. to_raw-block k blocks (sym (ap (λ o. o.active) same) ∙ zero);
    }
Step-IsSound {w} (finish_other k at) i = record {
  begins = λ e. let rests = (i.begins e).0 in absurd cc;
  copies = λ e. absurd cc;
  clears = λ e. absurd cc;
  works = λ j e. absurd cc;
}

pub Steps-IsSound : {w v : World} → Steps w v → IsSound w → IsSound v
Steps-IsSound here i = i
Steps-IsSound (next steps step) i = Step-IsSound step (Steps-IsSound steps i)

pub launched-IsSound : IsSound launched
launched-IsSound = record {
  begins = λ e. absurd cc;
  copies = λ e. absurd cc;
  clears = λ e. absurd cc;
  works = λ k e. absurd cc;
}
