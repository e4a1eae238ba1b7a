-- ===== src/Utils/RefBase/Counts.antt =====
-- incStrong, decStrong, creatWeak, attemptIncWeak and attemptIncStrong of RefBase.cpp, cut at their atomic
-- operations: which thread stands at which of them is forgotten, and the number of them is kept.
use droid_kernal.Prelude.{ℕ, ◌+◌, ◌-◌, Bool, ◌==◌, ltb, ◌&&◌, if◌then◌else◌}
use droid_kernal.Utils.RefBase.{
  Refs, initial_strong, new_refs, is_positive, use_object, use_impl, add_weak, sub_weak, add_strong,
  sub_strong, first_ref, last_strong_ref, last_weak_ref,
}

-- The object and the holders of it: pointers that were never counted (raw), strong and weak references,
-- and threads inside incStrong (copying from a strong reference, creating from the raw pointer,
-- pending_first), decStrong (dropped, releasing), decWeak (ended) and attemptIncStrong (the others).
pub record World : Type 0 where
  pub refs : Refs
  pub raw : ℕ
  pub creating : ℕ
  pub held : ℕ
  pub copying : ℕ
  pub pending_first : ℕ
  pub dropped : ℕ
  pub releasing : ℕ
  pub ended : ℕ
  pub weak_held : ℕ
  pub attempting : ℕ
  pub promoting : ℕ
  pub asking : ℕ
  pub reviving : ℕ
  pub pending_promoted : ℕ
  pub failing : ℕ

-- A new object, with one pointer to it.
abbrev pub new_world : Bool → World
new_world extended = record {
  refs = new_refs extended;
  raw = 1;
  creating = 0;
  held = 0;
  copying = 0;
  pending_first = 0;
  dropped = 0;
  releasing = 0;
  ended = 0;
  weak_held = 0;
  attempting = 0;
  promoting = 0;
  asking = 0;
  reviving = 0;
  pending_promoted = 0;
  failing = 0;
}

-- Fewer references than the value that marks an object never referenced.
abbrev pub has_room : Refs → Bool
has_room r = ltb r.m_weak (initial_strong - 1)

-- incStrong to its first atomic operation, incWeak.
unfoldable pub begin_strong : World → World
begin_strong w =
    if ltb 0 w.raw
    then record w {
      refs = add_weak (use_object w.refs);
      raw = w.raw - 1;
      creating = w.creating + 1;
    }
    else w

unfoldable pub begin_copy : World → World
begin_copy w =
    if ltb 0 w.held && has_room w.refs
    then record w {
      refs = add_weak (use_object w.refs);
      held = w.held - 1;
      copying = w.copying + 1;
    }
    else w

-- The fetch_add of incStrong.
unfoldable pub count_created : World → World
count_created w =
    let rest = record w { refs = add_strong w.refs; creating = w.creating - 1 } in
    if ltb 0 w.creating
    then (if w.refs.m_strong == initial_strong
        then record rest { pending_first = rest.pending_first + 1 }
        else record rest { held = rest.held + 1 })
    else w

unfoldable pub count_copied : World → World
count_copied w =
    let rest = record w { refs = add_strong w.refs; copying = w.copying - 1 } in
    if ltb 0 w.copying
    then (if w.refs.m_strong == initial_strong
        then record rest { held = rest.held + 1; pending_first = rest.pending_first + 1 }
        else record rest { held = rest.held + 2 })
    else w

-- The fetch_sub of incStrong and onFirstRef.
unfoldable pub tell_first : World → World
unfolding first_ref
tell_first w =
    if ltb 0 w.pending_first
    then record w {
      refs = first_ref w.refs;
      pending_first = w.pending_first - 1;
      held = w.held + 1;
    }
    else w

-- decStrong to its fetch_sub, the block for the last reference, and its call of decWeak.
unfoldable pub drop_strong : World → World
drop_strong w =
    let rest = record w { refs = sub_strong (use_object w.refs); held = w.held - 1 } in
    if ltb 0 w.held
    then (if w.refs.m_strong == 1
        then record rest { dropped = rest.dropped + 1 }
        else record rest { releasing = rest.releasing + 1 })
    else w

unfoldable pub tell_last : World → World
unfolding last_strong_ref
tell_last w =
    if ltb 0 w.dropped
    then record w {
      refs = last_strong_ref w.refs;
      dropped = w.dropped - 1;
      releasing = w.releasing + 1;
    }
    else w

unfoldable pub release : World → World
release w =
    let rest = record w { refs = sub_weak w.refs; releasing = w.releasing - 1 } in
    if ltb 0 w.releasing
    then (if w.refs.m_weak == 1 then record rest { ended = rest.ended + 1 } else rest)
    else w

-- decWeak of a weak reference, and decWeak after its fetch_sub saw the last one.
unfoldable pub drop_weak : World → World
drop_weak w =
    let rest = record w { refs = sub_weak w.refs; weak_held = w.weak_held - 1 } in
    if ltb 0 w.weak_held
    then (if w.refs.m_weak == 1 then record rest { ended = rest.ended + 1 } else rest)
    else w

unfoldable pub finish_weak : World → World
unfolding last_weak_ref
finish_weak w =
    if ltb 0 w.ended then record w { refs = last_weak_ref w.refs; ended = w.ended - 1 } else w

-- creatWeak by the raw pointer and by a strong reference, incWeak by a weak one, attemptIncWeak.
unfoldable pub begin_weak : World → World
begin_weak w =
    if ltb 0 w.raw
    then record w {
      refs = add_weak (use_object w.refs);
      raw = w.raw - 1;
      weak_held = w.weak_held + 1;
    }
    else w

unfoldable pub create_weak : World → World
create_weak w =
    if ltb 0 w.held && has_room w.refs
    then record w { refs = add_weak (use_object w.refs); weak_held = w.weak_held + 1 }
    else w

unfoldable pub copy_weak : World → World
copy_weak w =
    if ltb 0 w.weak_held && has_room w.refs
    then record w { refs = add_weak w.refs; weak_held = w.weak_held + 1 }
    else w

unfoldable pub attempt_inc_weak : World → World
attempt_inc_weak w =
    if ltb 0 w.weak_held && has_room w.refs
    then (if is_positive w.refs.m_weak
        then record w { refs = add_weak w.refs; weak_held = w.weak_held + 1 }
        else record w { refs = use_impl w.refs })
    else w
