-- ===== src/Binder/Proc/Fresh.antt =====
-- A node that is made for an object the process has no node of.
use droid_kernal.Prelude.{ℕ, Bool, ◌≡◌, refl, ap, Option, none, some, arith, Option-cases, inl, inr}
use droid_kernal.Binder.Types.{Uapi, Stats}
use droid_kernal.Binder.Tree.{Tree, find, KeepsOrder}
use droid_kernal.Binder.Node.{Node}
use droid_kernal.Binder.Proc.{
  Thread, Proc, FlatBinderObject, node_key, binder_of, init_node, insert_node,
  binder_init_node_ilocked, binder_new_node, insert_thread, thread_key, new_thread,
  binder_get_thread_ilocked, binder_get_thread,
}
use droid_kernal.Binder.Proc.Trees.{NodesInOrder, binder_init_node_ilocked-HasNode}

-- The process and the counts after a node was made, and the node.
pub record Fresh (ptr : ℕ) (p : Proc) (made : Option Node × Proc × Stats) : Type 0 where
  pub node : Node
  pub is_made : made.0 ≡ some node
  pub ptr_is : node.ptr ≡ ptr
  pub proc_is : node.proc ≡ some p.pid
  pub held : node.tmp_refs ≡ 1
  pub no_weak : node.local_weak_refs ≡ 0
  pub no_strong : node.local_strong_refs ≡ 0
  pub finds_it : find node_key ptr made.1.nodes ≡ some node
  pub pid_kept : made.1.pid ≡ p.pid

module _ (u : Uapi) (balance_threads : Tree Thread → Tree Thread)
    (balance_nodes : Tree Node → Tree Node) (keeps_threads : KeepsOrder balance_threads)
    (keeps_nodes : KeepsOrder balance_nodes) where
  pub binder_new_node-Fresh :
      (addr : ℕ) (fp : Option FlatBinderObject) (p : Proc) (s : Stats)
      → NodesInOrder p
      → find node_key (binder_of fp) p.nodes ≡ none
      → Fresh (binder_of fp) p (binder_new_node u balance_threads balance_nodes (some addr) fp p s)
  unfolding binder_new_node insert_node init_node
  binder_new_node-Fresh addr fp p s order new =
      let has =
        binder_init_node_ilocked-HasNode u balance_threads balance_nodes keeps_threads keeps_nodes
          addr fp p s order in
      let made : binder_init_node_ilocked u balance_threads balance_nodes addr fp p s
          ≡ insert_node u balance_threads balance_nodes addr fp p s =
        unfold binder_init_node_ilocked in rw (new, binder_init_node_ilocked) refl in
      record {
        node = (binder_init_node_ilocked u balance_threads balance_nodes addr fp p s).0;
        is_made = refl;
        ptr_is = has.ptr_is;
        proc_is = ap (λ o. o.0.proc) made;
        held = ap (λ o. o.0.tmp_refs) made;
        no_weak = ap (λ o. o.0.local_weak_refs) made;
        no_strong = ap (λ o. o.0.local_strong_refs) made;
        finds_it = has.finds_it;
        pid_kept = ap (λ o. o.1.pid) made;
      }

-- A node is made without touching the threads.
pub binder_new_node-threads :
    (u : Uapi) (balance_threads : Tree Thread → Tree Thread) (balance_nodes : Tree Node → Tree Node)
    (addr : Option ℕ) (fp : Option FlatBinderObject) (p : Proc) (s : Stats)
    → (binder_new_node u balance_threads balance_nodes addr fp p s).1.threads ≡ p.threads
unfolding binder_new_node binder_init_node_ilocked insert_node
binder_new_node-threads u balance_threads balance_nodes addr fp p s = ground arith

-- A thread has no error to return if the process has none of that task that has one.
pub binder_get_thread-return_error_cmd :
    (u : Uapi) (balance_threads : Tree Thread → Tree Thread) (balance_nodes : Tree Node → Tree Node)
    (pid : ℕ) (memory : Bool) (p : Proc) (stats : Stats) (t : Thread)
    → ((old : Thread) → find thread_key pid p.threads ≡ some old → old.return_error_cmd ≡ u.br_ok)
    → (binder_get_thread u balance_threads balance_nodes pid memory p stats).0 ≡ some t
    → t.return_error_cmd ≡ u.br_ok
unfolding binder_get_thread binder_get_thread_ilocked insert_thread new_thread
binder_get_thread-return_error_cmd u balance_threads balance_nodes pid memory p stats t fine found =
    elim (Option-cases (find thread_key pid p.threads)) [
      | inl e ↦ ground arith
      | inr (old, e) ↦ ground (arith, fine old e)
    ]

-- The search for a thread does not touch the nodes.
pub binder_get_thread-nodes :
    (u : Uapi) (balance_threads : Tree Thread → Tree Thread) (balance_nodes : Tree Node → Tree Node)
    (pid : ℕ) (memory : Bool) (p : Proc) (stats : Stats)
    → let out = binder_get_thread u balance_threads balance_nodes pid memory p stats in
      (out.1.nodes ≡ p.nodes) × (out.1.pid ≡ p.pid)
unfolding binder_get_thread binder_get_thread_ilocked insert_thread
binder_get_thread-nodes u balance_threads balance_nodes pid memory p stats =
    (ground arith, ground arith)
