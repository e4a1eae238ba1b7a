-- ===== src/Utils/RefBase/Safety.antt =====
-- What RefBase.cpp guarantees in every order of its atomic actions.
use droid_kernal.Prelude.{
  ℕ, ◌+◌, ◌<◌, ◌≤◌, ◌≡◌, ◌≢◌, Bool, true, false, not, ◌==◌, ◌&&◌, List, [], ◌∷◌, if◌then◌else◌,
  arith,
}
use droid_kernal.Utils.RefBase.{initial_strong}
use droid_kernal.Utils.RefBase.Counts.{World, new_world}
use droid_kernal.Utils.RefBase.Attempt.{Action, step, run, try_attempt}
use droid_kernal.Utils.RefBase.Invariant.{strong_units, weak_units, Counted, Live, first_after}
use droid_kernal.Utils.RefBase.Counting.{step-Counted}
use droid_kernal.Utils.RefBase.Living.{step-Live}

abbrev Managed : World → Type 0
Managed w = (first : ℕ) × Counted first w × Live first w

new_world-Managed : (extended : Bool) → Managed (new_world extended)
new_world-Managed true = (1, ground arith, ground arith)
new_world-Managed false = (1, ground arith, ground arith)

run-Managed : (actions : List Action) (w : World) → Managed w → Managed (run actions w)
unfolding run
run-Managed [] w m = m
run-Managed (a ∷ rest) w (f, h, l) =
    run-Managed rest (step a w) (first_after f a w, step-Counted f a w h, step-Live f a w h l)

abbrev after : Bool → List Action → World
after extended actions = run actions (new_world extended)

after-Managed : (extended : Bool) (actions : List Action) → Managed (after extended actions)
after-Managed extended actions =
    run-Managed actions (new_world extended) (new_world-Managed extended)

Managed-sound :
    (w : World) → Managed w → w.refs.bad ≡ 0 × w.refs.first_refs ≤ 1 × w.refs.last_weak_refs ≤ 1
Managed-sound w (f, h, l) = ground arith

Managed-held_alive :
    (w : World)
    → Managed w
    → (0 < w.held → w.refs.object_alive ≡ true) × (0 < w.weak_held → w.refs.impl_alive ≡ true)
Managed-held_alive w (f, h, l) = (λ q. ground arith, λ q. ground arith)

Managed-all_deleted :
    (w : World)
    → Managed w
    → w.raw ≡ 0
    → weak_units w ≡ 0
    → w.ended ≡ 0
    → w.refs.object_alive ≡ (not w.refs.extended && w.refs.m_strong == initial_strong)
      × w.refs.impl_alive ≡ (not w.refs.extended && w.refs.m_strong == initial_strong)
Managed-all_deleted w (f, h, l) a b c = ground arith

Managed-promotes :
    (w : World)
    → Managed w
    → 0 < w.attempting
    → w.refs.extended ≡ false
    → w.refs.m_strong ≢ initial_strong
    → (try_attempt w).held ≡ (if 0 == strong_units w then w.held else w.held + 1)
      × (try_attempt w).failing ≡ (if 0 == strong_units w then w.failing + 1 else w.failing)
unfolding try_attempt
Managed-promotes w (f, h, l) a b c = ground arith

-- In every order of the actions of any threads, with either lifetime, the object and its counts are never
-- used or deleted after their deletion, onFirstRef is called at most once and onLastWeakRef at most once.
pub run_sound :
    (extended : Bool) (actions : List Action)
    → (run actions (new_world extended)).refs.bad ≡ 0
      × (run actions (new_world extended)).refs.first_refs ≤ 1
      × (run actions (new_world extended)).refs.last_weak_refs ≤ 1
run_sound extended actions =
    Managed-sound (run actions (new_world extended)) (after-Managed extended actions)

-- In every order of the actions, the object lives while a strong reference is held, and its counts live
-- while a weak one is.
pub run-held_alive :
    (extended : Bool) (actions : List Action)
    → let w = run actions (new_world extended) in
      (0 < w.held → w.refs.object_alive ≡ true) × (0 < w.weak_held → w.refs.impl_alive ≡ true)
run-held_alive extended actions =
    Managed-held_alive (run actions (new_world extended)) (after-Managed extended actions)

-- When no pointer, no reference and no thread inside is left, the object and its counts are deleted, unless
-- the lifetime is not extended and no strong reference was ever counted: then neither is.
pub run-all_deleted :
    (extended : Bool) (actions : List Action)
    → let w = run actions (new_world extended) in
      w.raw ≡ 0
      → weak_units w ≡ 0
      → w.ended ≡ 0
      → w.refs.object_alive ≡ (not w.refs.extended && w.refs.m_strong == initial_strong)
        × w.refs.impl_alive ≡ (not w.refs.extended && w.refs.m_strong == initial_strong)
run-all_deleted extended actions =
    Managed-all_deleted (run actions (new_world extended)) (after-Managed extended actions)

-- The test of attemptIncStrong is right in every order of the actions: without an extended lifetime and
-- once a strong reference was counted, it gives a strong reference when one is counted and fails when none
-- is.
pub try_attempt-promotes :
    (extended : Bool) (actions : List Action)
    → let w = run actions (new_world extended) in
      0 < w.attempting
      → w.refs.extended ≡ false
      → w.refs.m_strong ≢ initial_strong
      → (try_attempt w).held ≡ (if 0 == strong_units w then w.held else w.held + 1)
        × (try_attempt w).failing ≡ (if 0 == strong_units w then w.failing + 1 else w.failing)
try_attempt-promotes extended actions =
    Managed-promotes (run actions (new_world extended)) (after-Managed extended actions)
