-- ===== src/Utils/RefBase/Attempt.antt =====
-- attemptIncStrong of RefBase.cpp, cut at its atomic operations, and the steps of all the threads.
use droid_kernal.Prelude.{◌+◌, ◌-◌, Bool, not, ◌==◌, ltb, ◌&&◌, List, [], ◌∷◌, if◌then◌else◌}
use droid_kernal.Utils.RefBase.{
  initial_strong, is_positive, use_object, use_impl, add_weak, sub_weak, add_strong, sub_initial,
  revive,
}
use droid_kernal.Utils.RefBase.Counts.{
  World, has_room, begin_strong, begin_copy, count_created, count_copied, tell_first, drop_strong,
  tell_last, release, drop_weak, finish_weak, begin_weak, create_weak, copy_weak, attempt_inc_weak,
}

-- Its incWeak: the weak reference it is called on stays counted.
unfoldable pub begin_attempt : World → World
begin_attempt w =
    if ltb 0 w.weak_held && has_room w.refs
    then record w {
      refs = add_weak w.refs;
      weak_held = w.weak_held - 1;
      attempting = w.attempting + 1;
    }
    else w

-- The first loop, with the compare-exchange that ends it, and the test of the flags.
unfoldable pub try_attempt : World → World
try_attempt w =
    let c = w.refs.m_strong in
    let rest = record w { attempting = w.attempting - 1 } in
    if ltb 0 w.attempting
    then (if is_positive c && not (c == initial_strong)
        then record rest {
          refs = add_strong w.refs;
          held = rest.held + 1;
          weak_held = rest.weak_held + 1;
        }
        else if w.refs.extended
        then record rest { refs = use_impl w.refs; asking = rest.asking + 1 }
        else if is_positive c
        then record rest { refs = use_impl w.refs; promoting = rest.promoting + 1 }
        else record rest { refs = use_impl w.refs; failing = rest.failing + 1 })
    else w

-- The second loop.
unfoldable pub try_promote : World → World
try_promote w =
    let c = w.refs.m_strong in
    let rest = record w { promoting = w.promoting - 1 } in
    let won = record rest { refs = add_strong w.refs; weak_held = rest.weak_held + 1 } in
    if ltb 0 w.promoting
    then (if is_positive c
        then (if c == initial_strong
            then record won { pending_promoted = won.pending_promoted + 1 }
            else record won { held = won.held + 1 })
        else record rest { refs = use_impl w.refs; failing = rest.failing + 1 })
    else w

-- onIncStrongAttempted, with its answer.
unfoldable pub ask : Bool → World → World
ask agrees w =
    let rest = record w { refs = use_object w.refs; asking = w.asking - 1 } in
    if ltb 0 w.asking
    then (if agrees
        then record rest { reviving = rest.reviving + 1 }
        else record rest { failing = rest.failing + 1 })
    else w

unfoldable pub grab : World → World
unfolding revive
grab w =
    let rest = record w {
      refs = revive w.refs;
      reviving = w.reviving - 1;
      weak_held = w.weak_held + 1;
    } in
    if ltb 0 w.reviving
    then (if w.refs.m_strong == initial_strong
        then record rest { pending_promoted = rest.pending_promoted + 1 }
        else record rest { held = rest.held + 1 })
    else w

-- The fetch_sub at its end.
unfoldable pub tell_promoted : World → World
tell_promoted w =
    if ltb 0 w.pending_promoted
    then record w {
      refs = sub_initial w.refs;
      pending_promoted = w.pending_promoted - 1;
      held = w.held + 1;
    }
    else w

-- decWeak before it returns false.
unfoldable pub fail_attempt : World → World
fail_attempt w =
    let rest = record w {
      refs = sub_weak w.refs;
      failing = w.failing - 1;
      weak_held = w.weak_held + 1;
    } in
    if ltb 0 w.failing
    then (if w.refs.m_weak == 1 then record rest { ended = rest.ended + 1 } else rest)
    else w

-- One atomic operation of one thread.
pub data Action : Type 0 where
  create_first : Action
  create_weak_first : Action
  copy_strong : Action
  add_created : Action
  add_copied : Action
  leave_first : Action
  sub_held : Action
  leave_last : Action
  sub_released : Action
  sub_weak_held : Action
  leave_weak : Action
  make_weak : Action
  dup_weak : Action
  dup_weak_checked : Action
  start_attempt : Action
  load_attempt : Action
  load_promote : Action
  answer : Bool → Action
  add_revived : Action
  leave_promoted : Action
  sub_failed : Action

-- `step a w` is `w` where no thread can do `a`.
unfoldable pub step : Action → World → World
step create_first w = begin_strong w
step create_weak_first w = begin_weak w
step copy_strong w = begin_copy w
step add_created w = count_created w
step add_copied w = count_copied w
step leave_first w = tell_first w
step sub_held w = drop_strong w
step leave_last w = tell_last w
step sub_released w = release w
step sub_weak_held w = drop_weak w
step leave_weak w = finish_weak w
step make_weak w = create_weak w
step dup_weak w = copy_weak w
step dup_weak_checked w = attempt_inc_weak w
step start_attempt w = begin_attempt w
step load_attempt w = try_attempt w
step load_promote w = try_promote w
step (answer agrees) w = ask agrees w
step add_revived w = grab w
step leave_promoted w = tell_promoted w
step sub_failed w = fail_attempt w

-- The actions of all the threads in one order.
unfoldable pub run : List Action → World → World
run [] w = w
run (a ∷ rest) w = run rest (step a w)
