-- ===== src/Binder/Proc.antt =====
-- Processes and threads of binder.c: the tree of threads, the tree of nodes, and who is woken.
pub mod Trees
pub mod Fresh
use droid_kernal.Prelude.{
  ℕ, ◌+◌, ◌-◌, ◌*◌, ◌/◌, ◌%◌, ◌^◌, Bool, true, false, not, Option, none, some, List, [], ◌∷◌, ◌++◌,
  ◌&&◌, ◌||◌, ◌==◌, if◌then◌else◌, bit_and,
}
use droid_kernal.Binder.Types.{Uapi, Stats, to_kernel_prio, inc32}
use droid_kernal.Binder.Tree.{Tree, leaf, to_list, find, link, update}
use droid_kernal.Binder.Node.{Node, binder_inc_node_tmpref_ilocked}

-- enum: BINDER_LOOPER_STATE_*
abbrev pub looper_registered : ℕ
looper_registered = 0x01

abbrev pub looper_entered : ℕ
looper_entered = 0x02

abbrev pub looper_poll : ℕ
looper_poll = 0x20

-- struct binder_thread. `in_transaction` says that the transaction stack is not empty, and `todo`
-- holds the addresses of queued work.
pub record Thread : Type 0 where
  pub pid : ℕ
  pub looper : ℕ
  pub looper_need_return : Bool
  pub in_transaction : Bool
  pub todo : List ℕ
  pub return_error_cmd : ℕ
  pub reply_error_cmd : ℕ
  pub tmp_ref : ℕ

-- struct binder_proc. `woken` lists the threads that were woken, the latest last.
pub record Proc : Type 0 where
  pub pid : ℕ
  pub threads : Tree Thread
  pub nodes : Tree Node
  pub todo : List ℕ
  pub waiting_threads : List ℕ
  pub max_threads : ℕ
  pub tmp_ref : ℕ
  pub woken : List ℕ

is_empty : List ℕ → Bool
is_empty [] = true
is_empty (x ∷ xs) = false

unfoldable pub binder_worklist_empty_ilocked : List ℕ → Bool
unfolding is_empty
binder_worklist_empty_ilocked todo = is_empty todo

unfoldable pub binder_available_for_proc_work_ilocked : Thread → Bool
unfolding binder_worklist_empty_ilocked
binder_available_for_proc_work_ilocked t =
    not t.in_transaction
    && (binder_worklist_empty_ilocked t.todo
        && not (bit_and t.looper (looper_entered + looper_registered) == 0))

-- The threads, in the order of the tree, that the loop over pollers wakes.
unfoldable pub pollers : List Thread → List ℕ
pollers [] = []
pollers (t ∷ ts) =
    let rest = pollers ts in
    if not (bit_and t.looper looper_poll == 0) && binder_available_for_proc_work_ilocked t
    then t.pid ∷ rest
    else rest

unfoldable pub binder_wakeup_poll_thread_ilocked : Proc → Proc
unfolding pollers
binder_wakeup_poll_thread_ilocked p = record p { woken = p.woken ++ pollers (to_list p.threads) }

-- The first waiting thread leaves the list.
select_first : List ℕ → Proc → Option ℕ × Proc
select_first [] p = (none, p)
select_first (t ∷ ts) p = (some t, record p { waiting_threads = ts })

unfoldable pub binder_select_thread_ilocked : Proc → Option ℕ × Proc
unfolding select_first
binder_select_thread_ilocked p = select_first p.waiting_threads p

unfoldable pub binder_wakeup_thread_ilocked : Proc → Option ℕ → Proc
unfolding binder_wakeup_poll_thread_ilocked
binder_wakeup_thread_ilocked p thread = elim thread [
  | none ↦ binder_wakeup_poll_thread_ilocked p
  | some t ↦ record p { woken = p.woken ++ (t ∷ []) }
]

unfoldable pub binder_wakeup_proc_ilocked : Proc → Proc
unfolding binder_select_thread_ilocked binder_wakeup_thread_ilocked
binder_wakeup_proc_ilocked p =
    let (thread, p') = binder_select_thread_ilocked p in binder_wakeup_thread_ilocked p' thread

abbrev pub thread_key : Thread → ℕ
thread_key t = t.pid

abbrev pub node_key : Node → ℕ
node_key n = n.ptr

new_thread : Uapi → ℕ → Thread
new_thread u pid = record {
  pid = pid;
  looper = 0;
  looper_need_return = true;
  in_transaction = false;
  todo = [];
  return_error_cmd = u.br_ok;
  reply_error_cmd = u.br_ok;
  tmp_ref = 0;
}

-- struct flat_binder_object, as far as it is read.
pub record FlatBinderObject : Type 0 where
  pub binder : ℕ
  pub cookie : ℕ
  pub flags : ℕ

-- FLAT_BINDER_FLAG_SCHED_POLICY_SHIFT and _MASK
abbrev sched_policy_shift : ℕ
sched_policy_shift = 9

abbrev sched_policy_mask : ℕ
sched_policy_mask = 3 * 2 ^ sched_policy_shift

-- An s8, sign-extended to 32 bits.
abbrev sign_extend : ℕ → ℕ
sign_extend b = if bit_and b 128 == 0 then b else b + 2 ^ 32 - 2 ^ 8

has_flag : ℕ → ℕ → Bool
has_flag flags flag = not (bit_and flags flag == 0)

-- The fields of a new node, `none` being a null `fp`.
init_node : Uapi → ℕ → ℕ → ℕ → ℕ → ℕ → ℕ → Node
unfolding has_flag
init_node u pid addr id ptr cookie flags =
    let policy = bit_and flags sched_policy_mask / 2 ^ sched_policy_shift in
    let priority = sign_extend (bit_and flags u.priority_mask % 2 ^ 8) in
    record {
      addr = addr;
      debug_id = id;
      proc = some pid;
      has_refs = false;
      internal_strong_refs = 0;
      local_weak_refs = 0;
      local_strong_refs = 0;
      tmp_refs = 1;
      ptr = ptr;
      cookie = cookie;
      has_strong_ref = false;
      has_weak_ref = false;
      sched_policy = policy;
      inherit_rt = has_flag flags u.txn_security_ctx;
      accept_fds = has_flag flags u.accepts_fds;
      min_priority = to_kernel_prio u policy priority % 2 ^ 8;
    }

abbrev pub binder_of : Option FlatBinderObject → ℕ
binder_of none = 0
binder_of (some fp) = fp.binder

abbrev cookie_of : Option FlatBinderObject → ℕ
cookie_of none = 0
cookie_of (some fp) = fp.cookie

abbrev flags_of : Option FlatBinderObject → ℕ
flags_of none = 0
flags_of (some fp) = fp.flags

module _ (u : Uapi) (balance_threads : Tree Thread → Tree Thread)
    (balance_nodes : Tree Node → Tree Node) where
  pub insert_thread : ℕ → Proc → Stats → Thread × Proc × Stats
  unfolding new_thread
  insert_thread pid p s = (
    new_thread u pid,
    record p { threads = balance_threads (link thread_key (new_thread u pid) p.threads) },
    record s { threads_created = inc32 s.threads_created },
  )

  -- The thread of the current task; a new one is linked if there is memory for it.
  unfoldable pub binder_get_thread_ilocked : ℕ → Bool → Proc → Stats → Option Thread × Proc × Stats
  binder_get_thread_ilocked pid has_new p s = elim (find thread_key pid p.threads) [
    | some t ↦ (some t, p, s)
    | none ↦
        if has_new
        then (let (t, p', s') = insert_thread pid p s in (some t, p', s'))
        else (none, p, s)
  ]

  unfoldable pub binder_get_thread : ℕ → Bool → Proc → Stats → Option Thread × Proc × Stats
  binder_get_thread pid kzalloc_ok p s = elim (binder_get_thread_ilocked pid false p s).0 [
    | some t ↦ (some t, p, s)
    | none ↦ if kzalloc_ok then binder_get_thread_ilocked pid true p s else (none, p, s)
  ]

  pub insert_node : ℕ → Option FlatBinderObject → Proc → Stats → Node × Proc × Stats
  unfolding init_node
  insert_node addr fp p s =
      let id = inc32 s.last_id in
      let n = init_node u p.pid addr id (binder_of fp) (cookie_of fp) (flags_of fp) in
      (
        n,
        record p { nodes = balance_nodes (link node_key n p.nodes) },
        record s { nodes_created = inc32 s.nodes_created; last_id = id },
      )

  -- A node for the object's address, with one more temporary reference.
  unfoldable pub binder_init_node_ilocked :
      ℕ → Option FlatBinderObject → Proc → Stats → Node × Proc × Stats
  binder_init_node_ilocked addr fp p s = elim (find node_key (binder_of fp) p.nodes) [
    | some n ↦ (
      binder_inc_node_tmpref_ilocked n,
      record p { nodes = update node_key (binder_of fp) binder_inc_node_tmpref_ilocked p.nodes },
      s,
    )
    | none ↦ insert_node addr fp p s
  ]

  unfoldable pub binder_new_node :
      Option ℕ → Option FlatBinderObject → Proc → Stats → Option Node × Proc × Stats
  unfolding binder_init_node_ilocked
  binder_new_node kzalloc fp p s = elim kzalloc [
    | none ↦ (none, p, s)
    | some addr ↦ (let (n, p', s') = binder_init_node_ilocked addr fp p s in (some n, p', s'))
  ]
