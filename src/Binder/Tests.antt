-- ===== src/Binder/Tests.antt =====
-- The theorems about binder.c at concrete nodes, processes and transactions.
use droid_kernal.Prelude.{ℕ, ◌+◌, ◌%◌, ◌^◌, ◌≡◌, refl, [], ◌∷◌, arith, true, false, none, some}
use droid_kernal.Binder.Types.{Uapi, Stats}
use droid_kernal.Binder.Tree.{Tree, leaf, branch}
use droid_kernal.Binder.Node.{Node, Refs, binder_dec_node_nilocked, binder_put_node}
use droid_kernal.Binder.Node.Queued.{QueuedOnce}
use droid_kernal.Binder.Proc.{Proc, Thread, FlatBinderObject, binder_get_thread}
use droid_kernal.Binder.Proc.Trees.{HasThread, binder_get_thread-HasThread}
use droid_kernal.Binder.Transaction.{State, Sender, TransactionData, binder_transaction}
use droid_kernal.Binder.Transaction.Log.{fresh_log}
use droid_kernal.Binder.Transaction.Laws.{Sent, binder_transaction-Sent}

-- The numbers of a build of the headers.
abbrev pub header_constants : Uapi
header_constants = record {
  br_ok = 29185;
  br_dead_reply = 29189;
  bc_transaction = 1077961472;
  bc_reply = 1077961473;
  tf_one_way = 1;
  priority_mask = 255;
  accepts_fds = 256;
  txn_security_ctx = 4096;
  sched_normal = 0;
  sched_fifo = 1;
  sched_rr = 2;
  sched_batch = 3;
  max_rt_prio = 100;
  nice_to_prio = λ nice. (nice + 120) % 2 ^ 32;
}

-- The context manager's node as the ioctl that sets it leaves it.
abbrev manager : Node
manager = record {
  addr = 4096;
  debug_id = 1;
  proc = some 50;
  has_refs = false;
  internal_strong_refs = 0;
  local_weak_refs = 1;
  local_strong_refs = 1;
  tmp_refs = 0;
  ptr = 0;
  cookie = 0;
  has_strong_ref = true;
  has_weak_ref = true;
  sched_policy = 0;
  inherit_rt = false;
  accept_fds = false;
  min_priority = 120;
}

abbrev pub manager_refs : Refs
manager_refs = record {
  node = manager;
  proc_todo = [];
  target_list = none;
  wakeups = 0;
  owner_tmp_ref = 0;
}

-- The node of a dead process with one count left and a reference outstanding.
abbrev orphan : Refs
orphan = record manager_refs {
  node = record manager {
    proc = none;
    has_refs = true;
    local_weak_refs = 0;
    has_strong_ref = false;
    has_weak_ref = false;
  };
}

-- The manager's node while a caller holds it for a moment.
abbrev held : Refs
held = record manager_refs { node = record manager { tmp_refs = 1 } }

abbrev held_after : Refs
held_after = record held { node = record manager { tmp_refs = 0 } }

-- A node whose work is queued at its owner, and which the owner does not know of yet.
abbrev queued : Refs
queued = record manager_refs {
  node = record manager { has_strong_ref = false; has_weak_ref = false };
  proc_todo = 7 ∷ 4096 ∷ [];
  target_list = some (9 ∷ []);
}

orphan_freed : (binder_dec_node_nilocked orphan true false).free_node ≡ true
unfolding binder_dec_node_nilocked
orphan_freed = refl

put_held :
    binder_put_node held
    ≡ some (record { free_node = false; erased = false; bug = false; refs = held_after })
unfolding binder_put_node
put_held = refl

queued-QueuedOnce : QueuedOnce queued
queued-QueuedOnce = omega arith

abbrev pub thread : ℕ → Thread
thread pid = record {
  pid = pid;
  looper = 2;
  looper_need_return = true;
  in_transaction = false;
  todo = [];
  return_error_cmd = 29185;
  reply_error_cmd = 29185;
  tmp_ref = 0;
}

abbrev process : Proc
process = record {
  pid = 50;
  threads = branch leaf (thread 51) (branch leaf (thread 53) leaf);
  nodes = branch leaf manager leaf;
  todo = [];
  waiting_threads = [];
  max_threads = 0;
  tmp_ref = 0;
  woken = [];
}

abbrev pub counts : Stats
counts = record {
  threads_created = 2;
  nodes_created = 1;
  transactions_created = 0;
  complete_created = 0;
  last_id = 1;
}

-- A tree that is never turned.
abbrev pub unbalanced : {A : Type 0} → Tree A → Tree A
unbalanced t = t

binder_get_thread-HasThread_example :
    HasThread 52 process
      (binder_get_thread header_constants unbalanced unbalanced 52 true process counts)
binder_get_thread-HasThread_example =
    binder_get_thread-HasThread header_constants unbalanced unbalanced (λ t. refl) (λ t. refl) 52
      process counts (omega arith, (omega arith, tt))

abbrev service : FlatBinderObject
service = record { binder = 8192; cookie = 12; flags = 256 + 19 }

abbrev pub caller : Sender
caller = record { proc_pid = 60; thread_pid = 61; euid = 1000; policy = 0; kzalloc_ok = true }

abbrev pub call : TransactionData
call = record { handle = 0; code = 3; flags = 0; data_size = 16; offsets_size = 0 }

abbrev driver : State
driver = record { log = fresh_log; mgr = some manager_refs; stats = counts; made = [] }

binder_transaction-Sent_example :
    (out : State) × (binder_transaction header_constants caller call false driver ≡ some out)
    × Sent call manager_refs 50 driver out
binder_transaction-Sent_example =
    binder_transaction-Sent header_constants caller call driver manager_refs 50 refl refl refl
      (omega arith) refl
