-- ===== src/Binder/Node/Queued.antt =====
-- The work item of a binder node in the lists of binder.c.
use droid_kernal.Prelude.{
  occurrences, occurrences-append, ℕ, ◌+◌, ◌-◌, ◌≤◌, ◌≡◌, refl, Bool, false, Option, none, some,
  List, [], ◌∷◌, arith,
}
use droid_kernal.Binder.Types.{contains, remove}
use droid_kernal.Binder.Node.{
  Refs, is_queued, binder_dequeue_work_ilocked, enqueue_on_target, binder_inc_node_nilocked,
  binder_dec_node_nilocked,
}

abbrev pub target_occurrences : ℕ → Option (List ℕ) → ℕ
target_occurrences a none = 0
target_occurrences a (some todo) = occurrences a todo

-- In at most one of the two lists, and there once.
abbrev pub QueuedOnce : Refs → Type 0
QueuedOnce r =
    occurrences r.node.addr r.proc_todo + target_occurrences r.node.addr r.target_list ≤ 1

occurrences-remove : (a : ℕ) (xs : List ℕ) → occurrences a (remove a xs) ≡ occurrences a xs - 1
unfolding remove
occurrences-remove a [] = omega arith
occurrences-remove a (x ∷ xs) = ground (arith, occurrences-remove a xs)

occurrences-contains : (a : ℕ) (xs : List ℕ) → contains a xs ≡ false → occurrences a xs ≡ 0
unfolding contains
occurrences-contains a [] h = refl
occurrences-contains a (x ∷ xs) h = ground (arith, occurrences-contains a xs)

-- An increment of any kind leaves the work of a node queued at most once.
binder_inc_node_nilocked-QueuedOnce :
    (r : Refs) (strong internal : Bool)
    → QueuedOnce r
    → QueuedOnce (binder_inc_node_nilocked r strong internal).1
unfolding binder_inc_node_nilocked binder_dequeue_work_ilocked enqueue_on_target is_queued
binder_inc_node_nilocked-QueuedOnce r strong internal q = go r.target_list refl
  where
    go :
        (t : Option (List ℕ))
        → r.target_list ≡ t
        → QueuedOnce (binder_inc_node_nilocked r strong internal).1
    go none e = ground arith
    go (some todo) e = ground (
      arith,
      occurrences-remove r.node.addr r.proc_todo,
      occurrences-remove r.node.addr todo,
      occurrences-append r.node.addr (remove r.node.addr todo) (r.node.addr ∷ []),
      occurrences-append r.node.addr todo (r.node.addr ∷ []),
      occurrences-contains r.node.addr r.proc_todo,
      occurrences-contains r.node.addr todo,
    )

-- A decrement of any kind leaves the work of a node queued at most once.
pub binder_dec_node_nilocked-QueuedOnce :
    (r : Refs) (strong internal : Bool)
    → QueuedOnce r
    → QueuedOnce (binder_dec_node_nilocked r strong internal).refs
unfolding binder_dec_node_nilocked binder_dequeue_work_ilocked is_queued
binder_dec_node_nilocked-QueuedOnce r strong internal q = go r.target_list refl
  where
    go :
        (t : Option (List ℕ))
        → r.target_list ≡ t
        → QueuedOnce (binder_dec_node_nilocked r strong internal).refs
    go none e = ground (
      arith,
      occurrences-remove r.node.addr r.proc_todo,
      occurrences-append r.node.addr r.proc_todo (r.node.addr ∷ []),
      occurrences-contains r.node.addr r.proc_todo,
    )
    go (some todo) e = ground (
      arith,
      occurrences-remove r.node.addr r.proc_todo,
      occurrences-remove r.node.addr todo,
      occurrences-append r.node.addr r.proc_todo (r.node.addr ∷ []),
      occurrences-contains r.node.addr r.proc_todo,
      occurrences-contains r.node.addr todo,
    )
