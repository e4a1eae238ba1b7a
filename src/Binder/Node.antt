-- ===== src/Binder/Node.antt =====
-- The reference counts of a binder node, and the work that they queue, in binder.c.
pub mod Counts
pub mod Queued
use droid_kernal.Prelude.{
  ℕ, ◌+◌, ◌-◌, ◌%◌, ◌^◌, Bool, true, false, not, Option, none, some, List, [], ◌∷◌, ◌++◌, ◌&&◌,
  ◌||◌, ◌==◌, leb, if◌then◌else◌,
}
use droid_kernal.Binder.Types.{Ret, zero_ret, err, e_inval, inc32, dec32, contains, remove}

-- struct binder_node. `proc` is the owner's process id, none once it is dead; `has_refs` says
-- whether the list of references is non-empty.
pub record Node : Type 0 where
  pub addr : ℕ
  pub debug_id : ℕ
  pub proc : Option ℕ
  pub has_refs : Bool
  pub internal_strong_refs : ℕ
  pub local_weak_refs : ℕ
  pub local_strong_refs : ℕ
  pub tmp_refs : ℕ
  pub ptr : ℕ
  pub cookie : ℕ
  pub has_strong_ref : Bool
  pub has_weak_ref : Bool
  pub sched_policy : ℕ
  pub inherit_rt : Bool
  pub accept_fds : Bool
  pub min_priority : ℕ

-- A node with the lists that its work may be in: the owner's, and the list of a thread that the
-- caller names, if it does. `wakeups` counts the calls of binder_wakeup_proc_ilocked, and
-- `owner_tmp_ref` is the owner's own count.
pub record Refs : Type 0 where
  pub node : Node
  pub proc_todo : List ℕ
  pub target_list : Option (List ℕ)
  pub wakeups : ℕ
  pub owner_tmp_ref : ℕ

abbrev in_target : ℕ → Option (List ℕ) → Bool
in_target a none = false
in_target a (some todo) = contains a todo

-- !list_empty(&node->work.entry)
unfoldable pub is_queued : Refs → Bool
unfolding contains
is_queued r = contains r.node.addr r.proc_todo || in_target r.node.addr r.target_list

abbrev remove_target : ℕ → Option (List ℕ) → Option (List ℕ)
remove_target a none = none
remove_target a (some todo) = some (remove a todo)

unfoldable pub binder_dequeue_work_ilocked : Refs → Refs
unfolding remove
binder_dequeue_work_ilocked r = record r {
  proc_todo = remove r.node.addr r.proc_todo;
  target_list = remove_target r.node.addr r.target_list;
}

-- binder_enqueue_work_ilocked for the target list, which the callers have tested.
abbrev enqueue_target : ℕ → Option (List ℕ) → Option (List ℕ)
enqueue_target a none = none
enqueue_target a (some todo) = some (todo ++ (a ∷ []))

unfoldable pub enqueue_on_target : Refs → Refs
enqueue_on_target r = record r { target_list = enqueue_target r.node.addr r.target_list }

abbrev given : Option (List ℕ) → Bool
given none = false
given (some todo) = true

inc_strong : Bool → Node → Node
inc_strong internal n =
    if internal
    then record n { internal_strong_refs = inc32 n.internal_strong_refs }
    else record n { local_strong_refs = inc32 n.local_strong_refs }

inc_weak : Bool → Node → Node
inc_weak internal n = if internal then n else record n { local_weak_refs = inc32 n.local_weak_refs }

unfoldable pub binder_inc_node_nilocked : Refs → Bool → Bool → Ret × Refs
unfolding inc_strong inc_weak is_queued binder_dequeue_work_ilocked enqueue_on_target
binder_inc_node_nilocked r strong internal =
    let s = record r { node = inc_strong internal r.node } in
    let w = record r { node = inc_weak internal r.node } in
    if strong
    then (if not r.node.has_strong_ref && given r.target_list
        then (zero_ret, enqueue_on_target (binder_dequeue_work_ilocked s))
        else (zero_ret, s))
    else if not r.node.has_weak_ref && not (is_queued r)
    then (if given r.target_list then (zero_ret, enqueue_on_target w) else (err e_inval, w))
    else (zero_ret, w)

-- What a decrement asks of its caller: whether to free the node, and whether the node was taken
-- out of the tree of its owner or the list of dead nodes; `bug` is the BUG for a dead node whose
-- work is queued.
pub record Decrement : Type 0 where
  pub free_node : Bool
  pub erased : Bool
  pub bug : Bool
  pub refs : Refs

abbrev keep_node : Refs → Decrement
keep_node r = record { free_node = false; erased = false; bug = false; refs = r }

abbrev nonzero : ℕ → Bool
nonzero n = not (n == 0)

abbrev alive : Option ℕ → Bool
alive none = false
alive (some p) = true

-- The part behind the early returns: tell the owner, or take the node out.
dec_last : Refs → Decrement
unfolding is_queued binder_dequeue_work_ilocked
dec_last r =
    let n = r.node in
    let told = record r { proc_todo = r.proc_todo ++ (n.addr ∷ []); wakeups = r.wakeups + 1 } in
    if alive n.proc && (n.has_strong_ref || n.has_weak_ref)
    then (if is_queued r then keep_node r else keep_node told)
    else if n.has_refs && n.local_strong_refs == 0 && n.local_weak_refs == 0 && n.tmp_refs == 0
    then (if alive n.proc
        then record {
          free_node = true;
          erased = true;
          bug = false;
          refs = binder_dequeue_work_ilocked r;
        }
        else if is_queued r
        then record { free_node = false; erased = false; bug = true; refs = r }
        else record { free_node = true; erased = true; bug = false; refs = r })
    else keep_node r

dec_strong : Bool → Node → Node
dec_strong internal n =
    if internal
    then record n { internal_strong_refs = dec32 n.internal_strong_refs }
    else record n { local_strong_refs = dec32 n.local_strong_refs }

dec_weak : Bool → Node → Node
dec_weak internal n = if internal then n else record n { local_weak_refs = dec32 n.local_weak_refs }

-- The second test of `tmp_refs`, under the lock of the dead nodes, sees the same value: the model
-- runs one task.
unfoldable pub binder_dec_node_nilocked : Refs → Bool → Bool → Decrement
unfolding dec_last dec_strong dec_weak
binder_dec_node_nilocked r strong internal =
    let s = dec_strong internal r.node in
    let w = dec_weak internal r.node in
    if strong
    then (if nonzero s.local_strong_refs || nonzero s.internal_strong_refs
        then keep_node (record r { node = s })
        else dec_last (record r { node = s }))
    else if nonzero w.local_weak_refs || nonzero w.tmp_refs || w.has_refs
    then keep_node (record r { node = w })
    else dec_last (record r { node = w })

unfoldable pub binder_inc_node_tmpref_ilocked : Node → Node
binder_inc_node_tmpref_ilocked n = record n { tmp_refs = inc32 n.tmp_refs }

-- `none` is a BUG, such as the one for a count below zero.
unfoldable pub binder_dec_node_tmpref : Refs → Option Decrement
unfolding binder_dec_node_nilocked
binder_dec_node_tmpref r =
    let n = record r.node { tmp_refs = dec32 r.node.tmp_refs } in
    let rest = binder_dec_node_nilocked (record r { node = n }) false true in
    if leb (2 ^ 31) n.tmp_refs || rest.bug then none else some rest

unfoldable pub binder_put_node : Refs → Option Decrement
unfolding binder_dec_node_tmpref
binder_put_node r = binder_dec_node_tmpref r

-- The node and the owner's count for a transaction; the error where the owner is dead.
pub data Target : Type 0 where
  target_is : Refs → Target
  dead_reply : Target

unfoldable pub binder_get_node_refs_for_txn : Refs → Target
unfolding binder_inc_node_nilocked binder_inc_node_tmpref_ilocked
binder_get_node_refs_for_txn r =
    let (ret, up) = binder_inc_node_nilocked (record r { target_list = none }) true false in
    if alive r.node.proc
    then target_is (record up {
      node = binder_inc_node_tmpref_ilocked up.node;
      owner_tmp_ref = inc32 up.owner_tmp_ref;
    })
    else dead_reply
