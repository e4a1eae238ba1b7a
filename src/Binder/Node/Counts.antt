-- ===== src/Binder/Node/Counts.antt =====
-- The counts of a binder node under the increments and decrements of binder.c.
use droid_kernal.Prelude.{◌^◌, ◌<◌, ◌≡◌, Bool, true, false, some, arith}
use droid_kernal.Binder.Node.{
  Node, Refs, Decrement, binder_dequeue_work_ilocked, enqueue_on_target, binder_inc_node_nilocked,
  binder_dec_node_nilocked, binder_put_node,
}

-- A decrement asks for the node to be freed only if it was one of a strong count, and only while
-- references to the node are still there; all the counts that it tests are zero then.
pub binder_dec_node_nilocked_free :
    (r : Refs) (strong internal : Bool)
    → (binder_dec_node_nilocked r strong internal).free_node ≡ true
    → let n = (binder_dec_node_nilocked r strong internal).refs.node in
      (strong ≡ true)
      × (r.node.has_refs ≡ true)
      × (n.local_strong_refs ≡ 0)
      × (n.internal_strong_refs ≡ 0)
      × (n.local_weak_refs ≡ 0)
      × (n.tmp_refs ≡ 0)
unfolding binder_dec_node_nilocked binder_dequeue_work_ilocked
binder_dec_node_nilocked_free r true true h = ground arith
binder_dec_node_nilocked_free r true false h = ground arith
binder_dec_node_nilocked_free r false true h = ground arith
binder_dec_node_nilocked_free r false false h = ground arith

-- Dropping a temporary reference never frees a node, whatever its counts are.
pub binder_put_node_keeps :
    (r : Refs) (d : Decrement) → binder_put_node r ≡ some d → d.free_node ≡ false
unfolding binder_put_node binder_dequeue_work_ilocked
binder_put_node_keeps r d h = ground arith

-- The counts of a node are numbers of 32 bits.
pub record Wide (n : Node) : Type 0 where
  pub internal_wide : n.internal_strong_refs < 2 ^ 32
  pub weak_wide : n.local_weak_refs < 2 ^ 32
  pub strong_wide : n.local_strong_refs < 2 ^ 32

-- A decrement takes back an increment of the same kind: the node is as it was.
node-dec-inc :
    (r : Refs) (strong internal : Bool)
    → Wide r.node
    → (binder_dec_node_nilocked
        (binder_inc_node_nilocked r strong internal).1
        strong
        internal).refs.node
      ≡ r.node
unfolding binder_inc_node_nilocked binder_dec_node_nilocked binder_dequeue_work_ilocked
    enqueue_on_target
node-dec-inc r true true w = ground arith
node-dec-inc r true false w = ground arith
node-dec-inc r false true w = ground arith
node-dec-inc r false false w = ground arith
