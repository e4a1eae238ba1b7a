-- ===== src/Binder/IoctlTests.antt =====
-- The theorems about binder_ioctl and about the start of the module at concrete calls.
use droid_kernal.Prelude.{ℕ, ◌≡◌, refl, true, false, none, some, [], ◌∷◌, arith}
use droid_kernal.Binder.Types.{Ret, zero_ret}
use droid_kernal.Binder.Tree.{leaf, find}
use droid_kernal.Binder.Proc.{Thread, Proc, thread_key}
use droid_kernal.Binder.Transaction.Log.{fresh_log}
use droid_kernal.Binder.Context.Manager.{Managed}
use droid_kernal.Binder.Ioctl.{
  Caller, Session, cmd_set_context_mgr, cmd_write_read, returned, with_proc, binder_ioctl,
}
use droid_kernal.Binder.Ioctl.Laws.{Settled, binder_ioctl-Settled}
use droid_kernal.Binder.Ioctl.Serves.{CanRun, Served, binder_ioctl-Serves}
use droid_kernal.Binder.Init.{Module, InitErrors, binder_init}
use droid_kernal.Binder.Init.Laws.{InitLaw, binder_init-InitLaw}
use droid_kernal.Binder.Tests.{header_constants, caller, unbalanced}
use droid_kernal.Binder.ContextTests.{
  two_calls, two_calls-Bounded, two_calls-HoldsCalls, both_calls, unmanaged, no_nodes, served_work,
  two_calls_bwr, write_read_call,
}

abbrev start : Session
start = record { context = unmanaged; counts = served_work.counts }

abbrev task : ℕ → Caller
task pid = record {
  task_pid = pid;
  wait = none;
  kzalloc_ok = true;
  node_at = some 4096;
  euid = 1000;
  sender = caller;
  memory = λ ptr. true;
  user = two_calls;
}

-- The same with a manager.
abbrev managed : Session
managed = record start { context = record unmanaged { state = served_work.state } }

binder_ioctl-Settled_example : Settled (cmd_write_read write_read_call) 52 unmanaged.proc (
    binder_ioctl header_constants unbalanced unbalanced 35
      (task 52)
      (cmd_write_read write_read_call)
      managed)
binder_ioctl-Settled_example =
    binder_ioctl-Settled header_constants unbalanced unbalanced (λ t. refl) (λ t. refl) 34 8192
      (task 52) (cmd_write_read write_read_call) managed refl refl (omega arith, tt)
      two_calls-Bounded (omega arith)

abbrev client : Proc
client = record unmanaged.proc { pid = 60; threads = leaf }

runs : (pid : ℕ) → CanRun (task pid)
runs pid = record { ready = refl; memory = refl }

no_thread : (t : Thread) → find thread_key 61 client.threads ≡ some t → t.return_error_cmd ≡ 29185
unfolding find
no_thread t e = ground arith

binder_ioctl-Serves_example :
    (s' : Session) × (binder_ioctl header_constants unbalanced unbalanced 0
        (task 51)
        cmd_set_context_mgr
        start
      ≡ returned zero_ret none s')
    × Managed 1000 50 0 s'.context
    × Served 50 both_calls s'.context.state.made two_calls_bwr (
        binder_ioctl header_constants unbalanced unbalanced 3
          (task 61)
          (cmd_write_read write_read_call)
          (with_proc client s'))
binder_ioctl-Serves_example =
    binder_ioctl-Serves header_constants unbalanced unbalanced (λ t. refl) (λ t. refl) 0 2 4096
      (task 51) (task 61) start client write_read_call two_calls_bwr both_calls (runs 51) (runs 61)
      refl refl refl (omega arith, tt) tt no_nodes tt no_thread (λ e. omega (arith, e))
      (λ ptr. refl)
      (record { size_is = refl; reads = refl; writes = refl; some_size = omega arith })
      (omega arith) two_calls-HoldsCalls

abbrev no_errors : InitErrors
no_errors = record {
  list_lru_init = none;
  register_shrinker = none;
  alloc_chrdev_region = none;
  register_filesystem = none;
}

abbrev unloaded : Module
unloaded = record {
  shrinker = record { lru_ready = false; registered = false };
  registry = record { region = false; filesystem = false };
  transaction_log = fresh_log;
  transaction_log_failed = fresh_log;
}

binder_init-InitLaw_example :
    (r : Ret) × (m' : Module) × (binder_init (98 ∷ 44 ∷ 99 ∷ []) no_errors unloaded ≡ some (r, m'))
    × InitLaw no_errors r m'
binder_init-InitLaw_example =
    binder_init-InitLaw (98 ∷ 44 ∷ 99 ∷ []) no_errors unloaded
      (record { no_shrinker = refl; no_registry = refl })
