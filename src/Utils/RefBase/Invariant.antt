-- ===== src/Utils/RefBase/Invariant.antt =====
-- What holds between the counts of RefBase.cpp and the holders, kept by every atomic action.
use droid_kernal.Prelude.{
  ℕ, ◌+◌, ◌-◌, ◌*◌, ◌<◌, ◌≤◌, ◌≡◌, ◌⊎◌, true, false, not, ltb, ◌&&◌, if◌then◌else◌,
}
use droid_kernal.Utils.RefBase.{initial_strong}
use droid_kernal.Utils.RefBase.Counts.{World}
use droid_kernal.Utils.RefBase.Attempt.{Action, leave_first, leave_promoted}

-- The references that mStrong and mWeak count.
abbrev pub pending : World → ℕ
pending w = w.pending_first + w.pending_promoted

abbrev pub strong_units : World → ℕ
strong_units w = w.held + w.copying + pending w

abbrev pub weak_units : World → ℕ
weak_units w =
    w.held
    + 2 * w.copying
    + w.creating
    + pending w
    + w.dropped
    + w.releasing
    + w.weak_held
    + 2 * (w.attempting + w.promoting + w.asking + w.reviving + w.failing)

-- `first` is 1 until the initial value is taken out of mStrong.
pub record Counted (first : ℕ) (w : World) : Type 0 where
  pub first_le : first ≤ 1
  pub weak : w.refs.m_weak ≡ weak_units w
  pub small : weak_units w < initial_strong
  pub strong : w.refs.m_strong ≡ first * initial_strong + strong_units w
  pub pending_le : pending w ≤ first
  pub waits : first ≡ 0 ⊎ pending w ≡ 1 ⊎ strong_units w ≡ 0
  pub fresh :
      w.raw + w.creating ≡ 0
      ⊎ w.raw + w.creating ≡ 1 × weak_units w ≡ w.creating × w.ended ≡ 0 × first ≡ 1
  pub last : w.ended ≡ 0 ⊎ w.ended ≡ 1 × weak_units w ≡ 0
  pub once : w.refs.extended ≡ true ⊎ w.dropped ≡ 0 ⊎ w.dropped ≡ 1 × first ≡ 0 × strong_units w ≡ 0
  pub no_promoting : w.refs.extended ≡ false ⊎ w.promoting ≡ 0
  pub no_asking : w.refs.extended ≡ true ⊎ w.asking ≡ 0 × w.reviving ≡ 0

-- Where the object and its counts are deleted, and which of its methods were called.
pub record Live (first : ℕ) (w : World) : Type 0 where
  pub object : w.refs.object_alive ≡ (
      if w.refs.extended
      then ltb 0 (w.raw + weak_units w + w.ended)
      else ltb 0 (first + strong_units w + w.dropped))
  pub impl : w.refs.impl_alive ≡ (
      if w.refs.extended
      then ltb 0 (w.raw + weak_units w + w.ended)
      else ltb 0 (first + weak_units w + w.ended))
  pub sound : w.refs.bad ≡ 0
  pub told_first : w.refs.first_refs + first ≤ 1
  pub told_last :
      w.refs.extended ≡ true ⊎ w.refs.last_strong_refs ≡ (if w.refs.object_alive then 0 else 1)
  pub told_weak :
      w.refs.last_weak_refs ≡ (if w.refs.extended && not w.refs.object_alive then 1 else 0)

-- `first` after an action: the fetch_sub of the initial value sets it to 0.
unfoldable pub first_after : ℕ → Action → World → ℕ
first_after first leave_first w = first - w.pending_first
first_after first leave_promoted w = first - w.pending_promoted
first_after first _ w = first
