-- ===== src/Utils/RefBase/Living.antt =====
-- Where RefBase.cpp deletes the object and its counts, through each atomic action.
use droid_kernal.Prelude.{ℕ, ◌-◌, Bool, arith}
use droid_kernal.Utils.RefBase.{first_ref, last_strong_ref, last_weak_ref, revive, delete_object}
use droid_kernal.Utils.RefBase.Counts.{
  World, begin_strong, begin_copy, count_created, count_copied, tell_first, drop_strong, tell_last,
  release, drop_weak, finish_weak, begin_weak, create_weak, copy_weak, attempt_inc_weak,
}
use droid_kernal.Utils.RefBase.Attempt.{
  begin_attempt, try_attempt, try_promote, ask, grab, tell_promoted, fail_attempt, Action,
  create_first, create_weak_first, copy_strong, add_created, add_copied, leave_first, sub_held,
  leave_last, sub_released, sub_weak_held, leave_weak, make_weak, dup_weak, dup_weak_checked,
  start_attempt, load_attempt, load_promote, answer, add_revived, leave_promoted, sub_failed, step,
}
use droid_kernal.Utils.RefBase.Invariant.{Counted, Live, first_after}

release-Live : (f : ℕ) (w : World) → Counted f w → Live f w → Live f (release w)
unfolding release
release-Live f w h l = record {
  object = ground arith;
  impl = ground arith;
  sound = ground arith;
  told_first = ground arith;
  told_last = ground arith;
  told_weak = ground arith;
}

drop_weak-Live : (f : ℕ) (w : World) → Counted f w → Live f w → Live f (drop_weak w)
unfolding drop_weak
drop_weak-Live f w h l = record {
  object = ground arith;
  impl = ground arith;
  sound = ground arith;
  told_first = ground arith;
  told_last = ground arith;
  told_weak = ground arith;
}

drop_strong-Live : (f : ℕ) (w : World) → Counted f w → Live f w → Live f (drop_strong w)
unfolding drop_strong
drop_strong-Live f w h l = ground arith

try_attempt-Live : (f : ℕ) (w : World) → Counted f w → Live f w → Live f (try_attempt w)
unfolding try_attempt
try_attempt-Live f w h l = ground arith

tell_last-Live : (f : ℕ) (w : World) → Counted f w → Live f w → Live f (tell_last w)
unfolding tell_last last_strong_ref delete_object
tell_last-Live f w h l = ground arith

finish_weak-Live : (f : ℕ) (w : World) → Counted f w → Live f w → Live f (finish_weak w)
unfolding finish_weak last_weak_ref delete_object
finish_weak-Live f w h l = ground arith

try_promote-Live : (f : ℕ) (w : World) → Counted f w → Live f w → Live f (try_promote w)
unfolding try_promote
try_promote-Live f w h l = ground arith

grab-Live : (f : ℕ) (w : World) → Counted f w → Live f w → Live f (grab w)
unfolding grab revive
grab-Live f w h l = ground arith

fail_attempt-Live : (f : ℕ) (w : World) → Counted f w → Live f w → Live f (fail_attempt w)
unfolding fail_attempt
fail_attempt-Live f w h l = ground arith

count_created-Live : (f : ℕ) (w : World) → Counted f w → Live f w → Live f (count_created w)
unfolding count_created
count_created-Live f w h l = ground arith

count_copied-Live : (f : ℕ) (w : World) → Counted f w → Live f w → Live f (count_copied w)
unfolding count_copied
count_copied-Live f w h l = ground arith

tell_first-Live :
    (f : ℕ) (w : World) → Counted f w → Live f w → Live (f - w.pending_first) (tell_first w)
unfolding tell_first first_ref
tell_first-Live f w h l = ground arith

begin_strong-Live : (f : ℕ) (w : World) → Counted f w → Live f w → Live f (begin_strong w)
unfolding begin_strong
begin_strong-Live f w h l = ground arith

begin_weak-Live : (f : ℕ) (w : World) → Counted f w → Live f w → Live f (begin_weak w)
unfolding begin_weak
begin_weak-Live f w h l = ground arith

begin_copy-Live : (f : ℕ) (w : World) → Counted f w → Live f w → Live f (begin_copy w)
unfolding begin_copy
begin_copy-Live f w h l = ground arith

create_weak-Live : (f : ℕ) (w : World) → Counted f w → Live f w → Live f (create_weak w)
unfolding create_weak
create_weak-Live f w h l = ground arith

copy_weak-Live : (f : ℕ) (w : World) → Counted f w → Live f w → Live f (copy_weak w)
unfolding copy_weak
copy_weak-Live f w h l = ground arith

attempt_inc_weak-Live : (f : ℕ) (w : World) → Counted f w → Live f w → Live f (attempt_inc_weak w)
unfolding attempt_inc_weak
attempt_inc_weak-Live f w h l = ground arith

begin_attempt-Live : (f : ℕ) (w : World) → Counted f w → Live f w → Live f (begin_attempt w)
unfolding begin_attempt
begin_attempt-Live f w h l = ground arith

ask-Live : (f : ℕ) (agrees : Bool) (w : World) → Counted f w → Live f w → Live f (ask agrees w)
unfolding ask
ask-Live f agrees w h l = ground arith

tell_promoted-Live :
    (f : ℕ) (w : World) → Counted f w → Live f w → Live (f - w.pending_promoted) (tell_promoted w)
unfolding tell_promoted
tell_promoted-Live f w h l = ground arith

pub step-Live :
    (f : ℕ) (a : Action) (w : World) → Counted f w → Live f w → Live (first_after f a w) (step a w)
unfolding step first_after
step-Live f create_first w h l = begin_strong-Live f w h l
step-Live f create_weak_first w h l = begin_weak-Live f w h l
step-Live f copy_strong w h l = begin_copy-Live f w h l
step-Live f add_created w h l = count_created-Live f w h l
step-Live f add_copied w h l = count_copied-Live f w h l
step-Live f leave_first w h l = tell_first-Live f w h l
step-Live f sub_held w h l = drop_strong-Live f w h l
step-Live f leave_last w h l = tell_last-Live f w h l
step-Live f sub_released w h l = release-Live f w h l
step-Live f sub_weak_held w h l = drop_weak-Live f w h l
step-Live f leave_weak w h l = finish_weak-Live f w h l
step-Live f make_weak w h l = create_weak-Live f w h l
step-Live f dup_weak w h l = copy_weak-Live f w h l
step-Live f dup_weak_checked w h l = attempt_inc_weak-Live f w h l
step-Live f start_attempt w h l = begin_attempt-Live f w h l
step-Live f load_attempt w h l = try_attempt-Live f w h l
step-Live f load_promote w h l = try_promote-Live f w h l
step-Live f (answer agrees) w h l = ask-Live f agrees w h l
step-Live f add_revived w h l = grab-Live f w h l
step-Live f leave_promoted w h l = tell_promoted-Live f w h l
step-Live f sub_failed w h l = fail_attempt-Live f w h l
