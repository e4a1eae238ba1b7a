-- ===== src/Utils/RefBase/Counting.antt =====
-- The counts of RefBase.cpp through each atomic action.
use droid_kernal.Prelude.{ℕ, ◌-◌, Bool, arith}
use droid_kernal.Utils.RefBase.{first_ref, last_strong_ref, last_weak_ref, revive, delete_object}
use droid_kernal.Utils.RefBase.Counts.{
  World, begin_strong, begin_copy, count_created, count_copied, tell_first, drop_strong, tell_last,
  release, drop_weak, finish_weak, begin_weak, create_weak, copy_weak, attempt_inc_weak,
}
use droid_kernal.Utils.RefBase.Attempt.{
  begin_attempt, try_attempt, try_promote, ask, grab, tell_promoted, fail_attempt, Action,
  create_first, create_weak_first, copy_strong, add_created, add_copied, leave_first, sub_held,
  leave_last, sub_released, sub_weak_held, leave_weak, make_weak, dup_weak, dup_weak_checked,
  start_attempt, load_attempt, load_promote, answer, add_revived, leave_promoted, sub_failed, step,
}
use droid_kernal.Utils.RefBase.Invariant.{Counted, first_after}

begin_strong-Counted : (f : ℕ) (w : World) → Counted f w → Counted f (begin_strong w)
unfolding begin_strong
begin_strong-Counted f w h = ground arith

begin_weak-Counted : (f : ℕ) (w : World) → Counted f w → Counted f (begin_weak w)
unfolding begin_weak
begin_weak-Counted f w h = ground arith

begin_copy-Counted : (f : ℕ) (w : World) → Counted f w → Counted f (begin_copy w)
unfolding begin_copy
begin_copy-Counted f w h = ground arith

count_created-Counted : (f : ℕ) (w : World) → Counted f w → Counted f (count_created w)
unfolding count_created
count_created-Counted f w h = ground arith

count_copied-Counted : (f : ℕ) (w : World) → Counted f w → Counted f (count_copied w)
unfolding count_copied
count_copied-Counted f w h = ground arith

tell_first-Counted :
    (f : ℕ) (w : World) → Counted f w → Counted (f - w.pending_first) (tell_first w)
unfolding tell_first first_ref
tell_first-Counted f w h = ground arith

drop_strong-Counted : (f : ℕ) (w : World) → Counted f w → Counted f (drop_strong w)
unfolding drop_strong
drop_strong-Counted f w h = ground arith

tell_last-Counted : (f : ℕ) (w : World) → Counted f w → Counted f (tell_last w)
unfolding tell_last last_strong_ref delete_object
tell_last-Counted f w h = ground arith

release-Counted : (f : ℕ) (w : World) → Counted f w → Counted f (release w)
unfolding release
release-Counted f w h = ground arith

drop_weak-Counted : (f : ℕ) (w : World) → Counted f w → Counted f (drop_weak w)
unfolding drop_weak
drop_weak-Counted f w h = ground arith

finish_weak-Counted : (f : ℕ) (w : World) → Counted f w → Counted f (finish_weak w)
unfolding finish_weak last_weak_ref delete_object
finish_weak-Counted f w h = ground arith

create_weak-Counted : (f : ℕ) (w : World) → Counted f w → Counted f (create_weak w)
unfolding create_weak
create_weak-Counted f w h = ground arith

copy_weak-Counted : (f : ℕ) (w : World) → Counted f w → Counted f (copy_weak w)
unfolding copy_weak
copy_weak-Counted f w h = ground arith

attempt_inc_weak-Counted : (f : ℕ) (w : World) → Counted f w → Counted f (attempt_inc_weak w)
unfolding attempt_inc_weak
attempt_inc_weak-Counted f w h = ground arith

begin_attempt-Counted : (f : ℕ) (w : World) → Counted f w → Counted f (begin_attempt w)
unfolding begin_attempt
begin_attempt-Counted f w h = ground arith

try_attempt-Counted : (f : ℕ) (w : World) → Counted f w → Counted f (try_attempt w)
unfolding try_attempt
try_attempt-Counted f w h = ground arith

try_promote-Counted : (f : ℕ) (w : World) → Counted f w → Counted f (try_promote w)
unfolding try_promote
try_promote-Counted f w h = ground arith

ask-Counted : (f : ℕ) (agrees : Bool) (w : World) → Counted f w → Counted f (ask agrees w)
unfolding ask
ask-Counted f agrees w h = ground arith

grab-Counted : (f : ℕ) (w : World) → Counted f w → Counted f (grab w)
unfolding grab revive
grab-Counted f w h = ground arith

tell_promoted-Counted :
    (f : ℕ) (w : World) → Counted f w → Counted (f - w.pending_promoted) (tell_promoted w)
unfolding tell_promoted
tell_promoted-Counted f w h = ground arith

fail_attempt-Counted : (f : ℕ) (w : World) → Counted f w → Counted f (fail_attempt w)
unfolding fail_attempt
fail_attempt-Counted f w h = ground arith

pub step-Counted :
    (f : ℕ) (a : Action) (w : World) → Counted f w → Counted (first_after f a w) (step a w)
unfolding step first_after
step-Counted f create_first w h = begin_strong-Counted f w h
step-Counted f create_weak_first w h = begin_weak-Counted f w h
step-Counted f copy_strong w h = begin_copy-Counted f w h
step-Counted f add_created w h = count_created-Counted f w h
step-Counted f add_copied w h = count_copied-Counted f w h
step-Counted f leave_first w h = tell_first-Counted f w h
step-Counted f sub_held w h = drop_strong-Counted f w h
step-Counted f leave_last w h = tell_last-Counted f w h
step-Counted f sub_released w h = release-Counted f w h
step-Counted f sub_weak_held w h = drop_weak-Counted f w h
step-Counted f leave_weak w h = finish_weak-Counted f w h
step-Counted f make_weak w h = create_weak-Counted f w h
step-Counted f dup_weak w h = copy_weak-Counted f w h
step-Counted f dup_weak_checked w h = attempt_inc_weak-Counted f w h
step-Counted f start_attempt w h = begin_attempt-Counted f w h
step-Counted f load_attempt w h = try_attempt-Counted f w h
step-Counted f load_promote w h = try_promote-Counted f w h
step-Counted f (answer agrees) w h = ask-Counted f agrees w h
step-Counted f add_revived w h = grab-Counted f w h
step-Counted f leave_promoted w h = tell_promoted-Counted f w h
step-Counted f sub_failed w h = fail_attempt-Counted f w h
