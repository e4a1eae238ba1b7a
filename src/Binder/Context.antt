-- ===== src/Binder/Context.antt =====
-- The context manager: binder_ioctl_set_ctx_mgr in binder.c.
pub mod Manager
pub mod Threads
use droid_kernal.Prelude.{ℕ, Bool, true, false, Option, none, some, ◌==◌, if◌then◌else◌}
use droid_kernal.Binder.Types.{Uapi, Stats, Ret, zero_ret, err, e_busy, e_perm, inc32}
use droid_kernal.Binder.Tree.{Tree, update}
use droid_kernal.Binder.Node.{Node, Refs, binder_put_node}
use droid_kernal.Binder.Proc.{Thread, Proc, FlatBinderObject, node_key, binder_new_node}
use droid_kernal.Binder.Transaction.{State}

-- struct binder_context and what it is used with: `mgr_uid` is none while the uid is not valid,
-- and the manager's node is in `state`.
pub record Context : Type 0 where
  pub proc : Proc
  pub state : State
  pub mgr_uid : Option ℕ

abbrev pub with_refs : Node → Node
with_refs n = record n {
  local_weak_refs = inc32 n.local_weak_refs;
  local_strong_refs = inc32 n.local_strong_refs;
  has_weak_ref = true;
  has_strong_ref = true;
}

-- The node's object with the owner's work list.
abbrev pub refs_of : Node → Proc → Refs
refs_of n p = record {
  node = with_refs n;
  proc_todo = p.todo;
  target_list = none;
  wakeups = 0;
  owner_tmp_ref = p.tmp_ref;
}

-- The tree of the process and the context point to one object, so a change shows in both; `none`
-- is the BUG of binder_dec_node_tmpref.
pub set_manager : Node → Proc → Stats → Context → Option (Ret × Context)
set_manager n p stats c = elim (binder_put_node (refs_of n p)) [
  | none ↦ none
  | some d ↦ some (
    zero_ret,
    record c {
      proc = record p {
        nodes = update node_key n.ptr (λ old. d.refs.node) p.nodes;
        todo = d.refs.proc_todo;
      };
      state = record c.state { stats = stats; mgr = some d.refs };
    },
  )
]

module _ (u : Uapi) (balance_threads : Tree Thread → Tree Thread)
    (balance_nodes : Tree Node → Tree Node) where
  pub claim_manager : Option ℕ → Option FlatBinderObject → Context → Option (Ret × Context)
  claim_manager kzalloc fbo c =
      let (made, p, stats) =
        binder_new_node u balance_threads balance_nodes kzalloc fbo c.proc c.state.stats in
      elim made [
        | none ↦ some (err e_perm, record c { proc = p; state = record c.state { stats = stats } })
        | some n ↦ set_manager n p stats c
      ]

  pub check_uid : ℕ → Option ℕ → Option FlatBinderObject → Context → Option (Ret × Context)
  check_uid euid kzalloc fbo c = elim c.mgr_uid [
    | some uid ↦ if uid == euid then claim_manager kzalloc fbo c else some (err e_perm, c)
    | none ↦ claim_manager kzalloc fbo (record c { mgr_uid = some euid })
  ]

  -- `kzalloc` is the address of the new node, if there is memory.
  unfoldable pub binder_ioctl_set_ctx_mgr :
      ℕ → Option ℕ → Option FlatBinderObject → Context → Option (Ret × Context)
  binder_ioctl_set_ctx_mgr euid kzalloc fbo c = elim c.state.mgr [
    | some r ↦ some (err e_busy, c)
    | none ↦ check_uid euid kzalloc fbo c
  ]
