-- ===== src/Utils/RefTests.antt =====
-- The theorems about RefBase.cpp for the references of one thread.
use droid_kernal.Prelude.{
  ◌+◌, ◌<◌, ◌≤◌, ◌≡◌, refl, true, false, not, List, [], ◌∷◌, ◌==◌, ◌&&◌, if◌then◌else◌, arith,
}
use droid_kernal.Utils.RefBase.{
  initial_strong, first_ref, last_strong_ref, last_weak_ref, delete_object,
}
use droid_kernal.Utils.RefBase.Counts.{
  new_world, begin_strong, count_created, tell_first, create_weak, drop_strong, tell_last, release,
  drop_weak, finish_weak,
}
use droid_kernal.Utils.RefBase.Attempt.{
  Action, create_first, add_created, leave_first, make_weak, start_attempt, sub_held, leave_last,
  sub_released, sub_weak_held, leave_weak, begin_attempt, try_attempt, step, run,
}
use droid_kernal.Utils.RefBase.Invariant.{strong_units}
use droid_kernal.Utils.RefBase.Safety.{
  run_sound, run-held_alive, run-all_deleted, try_attempt-promotes,
}

-- A strong reference to a new object, and a weak one from it.
abbrev shared : List Action
shared = create_first ∷ add_created ∷ leave_first ∷ make_weak ∷ []

-- Both are dropped, the strong one first.
abbrev life : List Action
life =
    create_first ∷ add_created ∷ leave_first ∷ make_weak ∷ sub_held ∷ leave_last ∷ sub_released
    ∷ sub_weak_held ∷ leave_weak ∷ []

abbrev promotion : List Action
promotion = create_first ∷ add_created ∷ leave_first ∷ make_weak ∷ start_attempt ∷ []

run_sound_example :
    (run life (new_world true)).refs.bad ≡ 0
    × (run life (new_world true)).refs.first_refs ≤ 1
    × (run life (new_world true)).refs.last_weak_refs ≤ 1
run_sound_example = run_sound true life

run-held_alive_example :
    (0 < (run shared (new_world false)).held
      → (run shared (new_world false)).refs.object_alive ≡ true)
    × (0 < (run shared (new_world false)).weak_held
        → (run shared (new_world false)).refs.impl_alive ≡ true)
run-held_alive_example = run-held_alive false shared

run-all_deleted_example :
    let w = run life (new_world false) in
    w.refs.object_alive ≡ (not w.refs.extended && w.refs.m_strong == initial_strong)
    × w.refs.impl_alive ≡ (not w.refs.extended && w.refs.m_strong == initial_strong)
unfolding run step begin_strong count_created tell_first first_ref create_weak drop_strong tell_last
    last_strong_ref delete_object release drop_weak finish_weak last_weak_ref
run-all_deleted_example = run-all_deleted false life refl refl refl

try_attempt-promotes_example :
    let w = run promotion (new_world false) in
    (try_attempt w).held ≡ (if 0 == strong_units w then w.held else w.held + 1)
    × (try_attempt w).failing ≡ (if 0 == strong_units w then w.failing + 1 else w.failing)
unfolding run step begin_strong count_created tell_first first_ref create_weak begin_attempt
try_attempt-promotes_example =
    try_attempt-promotes false promotion (omega arith) refl (λ e. absurd (omega (arith, e)))
