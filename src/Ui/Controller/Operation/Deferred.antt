-- ===== src/Ui/Controller/Operation/Deferred.antt =====
-- The threads of the window and of an operation, interleaved, and the close of the window that a
-- migration defers.
use win_profile.Base.{◌≡◌, ◌⊎◌, inl, inr, refl, Bool, true, false, arith}
use win_profile.Ui.Controller.Operation.{
  migration, finish, install_cancellation, defer_close, cancel_migration, clear_cancellation,
  finish_operation, cancel_if_close_deferred, request_close_after_finish,
}
use win_profile.Ui.Controller.Operation.Sound.{
  hide, waiting, starting, copying, cleared, start, install, refuse, request, defer, cancelled,
  clear, complete, start_other, finish_other, here, next, World, launched, Step, Steps, IsSound,
  try_begin-free, Steps-IsSound, launched-IsSound,
}

-- A migration is begun, and not yet completed.
abbrev pub IsMigrating : World → Type 0
IsMigrating w = (w.window ≡ starting) ⊎ ((w.worker ≡ copying) ⊎ (w.worker ≡ cleared))

-- The close that a migration defers.
abbrev pub IsDeferred : World → Type 0
IsDeferred w = (w.shared.operation_state.close_after_finish ≡ true) × IsMigrating w

IsMigrating-busy : (w : World) → IsSound w → IsMigrating w → w.shared.operation_state.active ≡ 3
IsMigrating-busy w i (inl e) = (i.begins e).1
IsMigrating-busy w i (inr (inl e)) = (i.copies e).0
IsMigrating-busy w i (inr (inr e)) = i.clears e

-- Between two events of the window, it is the worker that stands in the migration.
IsMigrating-worker :
    (w : World)
    → (w.window ≡ starting → ⊥)
    → IsMigrating w
    → (w.worker ≡ copying) ⊎ (w.worker ≡ cleared)
IsMigrating-worker w away (inl e) = absurd (away e)
IsMigrating-worker w away (inr e) = e

Step-IsDeferred :
    {w v : World} → Step w v → IsSound w → IsDeferred w → (v.hidden ≡ true) ⊎ IsDeferred v
unfolding install_cancellation cancel_if_close_deferred defer_close request_close_after_finish
    cancel_migration clear_cancellation finish_operation finish
Step-IsDeferred {w} (start at free) i (flag, migrating) =
    let busy = IsMigrating-busy w i migrating in
    let (free_at, same) = try_begin-free migration w.shared.operation_state free in
    absurd (ground arith)
Step-IsDeferred {w} (install at) i (flag, migrating) = inr (flag, inr (inl refl))
Step-IsDeferred {w} (refuse at rests) i (flag, migrating) =
    elim (IsMigrating-worker w (λ e. cc) migrating) [ inl e ↦ absurd cc | inr e ↦ absurd cc ]
Step-IsDeferred {w} (hide at policy) i (flag, migrating) = inl refl
Step-IsDeferred {w} (request at policy) i (flag, migrating) =
    inr (flag, inr (IsMigrating-worker w (λ e. cc) migrating))
Step-IsDeferred {w} (defer at) i (flag, migrating) =
    inr (refl, inr (IsMigrating-worker w (λ e. cc) migrating))
Step-IsDeferred {w} (cancelled at) i (flag, migrating) = inr (flag, migrating)
Step-IsDeferred {w} (clear at) i (flag, migrating) = inr (flag, inr (inr refl))
Step-IsDeferred {w} (complete at) i (flag, migrating) = inl (ground (arith, flag))
Step-IsDeferred {w} (start_other k blocks at free) i (flag, migrating) =
    let busy = IsMigrating-busy w i migrating in
    let (free_at, same) = try_begin-free k w.shared.operation_state free in absurd (ground arith)
Step-IsDeferred {w} (finish_other k at) i (flag, migrating) = elim migrating [
  | inl e ↦ let rests = (i.begins e).0 in absurd cc
  | inr (inl e) ↦ absurd cc
  | inr (inr e) ↦ absurd cc
]

Step-hidden : {w v : World} → Step w v → w.hidden ≡ true → v.hidden ≡ true
unfolding finish_operation finish
Step-hidden (start at free) h = h
Step-hidden (install at) h = h
Step-hidden (refuse at rests) h = h
Step-hidden (hide at policy) h = refl
Step-hidden (request at policy) h = h
Step-hidden (defer at) h = h
Step-hidden (cancelled at) h = h
Step-hidden (clear at) h = h
Step-hidden {w} (complete at) h = ground (arith, h)
Step-hidden (start_other k blocks at free) h = h
Step-hidden (finish_other k at) h = h

Steps-IsDeferred :
    {w v : World} → Steps w v → IsSound w → IsDeferred w → (v.hidden ≡ true) ⊎ IsDeferred v
Steps-IsDeferred here i d = inr d
Steps-IsDeferred (next steps step) i d = elim (Steps-IsDeferred steps i d) [
  | inl h ↦ inl (Step-hidden step h)
  | inr e ↦ Step-IsDeferred step (Steps-IsSound steps i) e
]

-- The steps that a begun migration takes by itself, without another event of the window.
unfoldable pub is_own : {w v : World} → Step w v → Bool
is_own (start at free) = false
is_own (install at) = true
is_own (refuse at rests) = false
is_own (hide at policy) = false
is_own (request at policy) = false
is_own (defer at) = false
is_own (cancelled at) = false
is_own (clear at) = true
is_own (complete at) = true
is_own (start_other k blocks at free) = false
is_own (finish_other k at) = false

-- Such steps, one after the other.
pub data Rest (w : World) : World → Type 0 where
  ended_here : Rest w w
  and_then : {u v : World} → Rest w u → (step : Step u v) → is_own step ≡ true → Rest w v

-- The migration is told to stop, and the steps that it still takes by itself hide the window.
pub record Closes (w : World) : Type 0 where
  pub stops : w.worker ≡ copying → w.shared.cancellation ≡ true
  pub closed : (v : World) × Rest w v × (v.hidden ≡ true)

-- The steps of the second run follow those of the first.
join : {u w v : World} → Rest u w → Rest w v → Rest u v
join steps ended_here = steps
join steps (and_then more step own) = and_then (join steps more) step own

completes :
    (w : World)
    → w.shared.operation_state.close_after_finish ≡ true
    → w.worker ≡ cleared
    → (v : World) × Rest w v × (v.hidden ≡ true)
unfolding finish_operation finish is_own
completes w flag at = (_, and_then ended_here (complete at) refl, ground (arith, flag))

copies_on :
    (w : World)
    → w.shared.operation_state.close_after_finish ≡ true
    → w.worker ≡ copying
    → (v : World) × Rest w v × (v.hidden ≡ true)
unfolding clear_cancellation is_own
copies_on w flag at =
    let (v, steps, h) =
      completes (record w { shared = clear_cancellation w.shared; worker = cleared }) flag refl in
    (v, join (and_then ended_here (clear at) refl) steps, h)

IsDeferred-closed : (w : World) → IsDeferred w → (v : World) × Rest w v × (v.hidden ≡ true)
unfolding install_cancellation is_own
IsDeferred-closed w (flag, inl e) =
    let (v, steps, h) =
      copies_on
        (record w { shared = install_cancellation w.shared; window = waiting; worker = copying })
        flag refl in
    (v, join (and_then ended_here (install e) refl) steps, h)
IsDeferred-closed w (flag, inr (inl e)) = copies_on w flag e
IsDeferred-closed w (flag, inr (inr e)) = completes w flag e

-- If a close of the window is deferred while a migration is under way, then, whatever steps the
-- window and the operations take from there, the window is hidden, or the migration is told to stop
-- as long as it copies and the steps that it still takes by itself, without another event of the
-- window, hide the window.
pub defer_close-Closes :
    (w v : World) → Steps launched w → IsDeferred w → Steps w v → (v.hidden ≡ true) ⊎ Closes v
defer_close-Closes w v reached deferred steps =
    let sound = Steps-IsSound reached launched-IsSound in
    elim (Steps-IsDeferred steps sound deferred) [
      | inl hidden ↦ inl hidden
      | inr still ↦ inr record {
        stops = λ e. ((Steps-IsSound steps sound).copies e).2 still.0;
        closed = IsDeferred-closed v still;
      }
    ]
