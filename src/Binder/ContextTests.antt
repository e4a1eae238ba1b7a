-- ===== src/Binder/ContextTests.antt =====
-- The theorems about a thread's commands and about the context manager at concrete values.
use droid_kernal.Prelude.{
  ℕ, ◌+◌, ◌*◌, ◌||◌, ◌&&◌, leb, List, ◌∷◌, ◌%◌, ◌≡◌, ◌≢◌, ◌==◌, refl, inl, true, [], none, some,
  arith, if◌then◌else◌,
}
use droid_kernal.Binder.Types.{zero_ret}
use droid_kernal.Binder.Tree.{leaf, branch, find}
use droid_kernal.Binder.Proc.{node_key, binder_of}
use droid_kernal.Binder.Transaction.{TransactionData}
use droid_kernal.Binder.Transaction.Log.{fresh_log}
use droid_kernal.Binder.Commands.{UserMem, Work, more, binder_thread_write}
use droid_kernal.Binder.Commands.Ends.{Bounded, binder_thread_write_ends}
use droid_kernal.Binder.Commands.Served.{Live, HoldsCalls, Served, binder_thread_write-Served}
use droid_kernal.Binder.Context.{Context, binder_ioctl_set_ctx_mgr}
use droid_kernal.Binder.Context.Manager.{Managed, binder_ioctl_set_ctx_mgr-Managed}
use droid_kernal.Binder.WriteRead.{Bwr, WriteReadCall}
use droid_kernal.Binder.Tests.{
  header_constants, manager_refs, caller, call, thread, counts, unbalanced,
}

-- The bytes of two calls at address 4096: the command, and the data of 64 bytes with the code at 16,
-- the flags at 20 and the sizes at 32 and 40.
abbrev user_byte : ℕ → ℕ
user_byte a =
    if a == 4097 || a == 4165
    then 99
    else if a == 4098 || a == 4099 || a == 4166 || a == 4167
    then 64
    else if a == 4116
    then 3
    else if a == 4184
    then 4
    else if a == 4132 || a == 4200
    then 16
    else 0

abbrev user_word : ℕ → ℕ
user_word a =
    user_byte a
    + 256 * user_byte (a + 1)
    + 65_536 * user_byte (a + 2)
    + 16_777_216 * user_byte (a + 3)

abbrev user_call : ℕ → TransactionData
user_call a = record {
  handle = user_word a;
  code = user_word (a + 16);
  flags = user_word (a + 20);
  data_size = user_word (a + 32) + 4_294_967_296 * user_word (a + 36);
  offsets_size = user_word (a + 40) + 4_294_967_296 * user_word (a + 44);
}

-- A page of memory that holds them, read at whatever address.
abbrev pub two_calls : UserMem
two_calls = record {
  get_user = λ a. if leb 4096 a && leb (a + 4) 8192 then some (user_word a) else none;
  copy_from_user = λ a. if leb 4096 a && leb (a + 64) 8192 then some (user_call a) else none;
  sizeof_tr = 64;
  ioc_nr = λ cmd. cmd % 256;
  bc_size = 19;
}

pub two_calls-Bounded : Bounded two_calls 8192
two_calls-Bounded = record {
  get_below = λ a h. ground (arith, h);
  copy_below = λ a h. ground (arith, h);
  room = omega arith;
}

abbrev pub both_calls : List TransactionData
both_calls = call ∷ record call { code = 4 } ∷ []

pub two_calls-HoldsCalls : HoldsCalls header_constants two_calls 4096 4232 both_calls
two_calls-HoldsCalls = (omega arith, refl, refl, refl, (omega arith, refl, refl, refl, omega arith))

abbrev pub served_work : Work
served_work = record {
  state = record { log = fresh_log; mgr = some manager_refs; stats = counts; made = [] };
  counts = record { driver_bc = λ k. 0; proc_bc = λ k. 0; thread_bc = λ k. 0 };
}

binder_thread_write_ends_example :
    binder_thread_write header_constants two_calls caller
      (λ ptr. true)
      (thread 61)
      35
      4096
      136
      0
      served_work
    ≢ more
binder_thread_write_ends_example =
    binder_thread_write_ends header_constants two_calls 8192 two_calls-Bounded caller (λ ptr. true)
      (thread 61) 34 4096 136 0 served_work (omega arith) (omega arith) (omega arith)

manager-Live : Live 50 served_work.state
manager-Live = record { refs = manager_refs; mgr_is = refl; proc_is = refl; few = omega arith }

binder_thread_write-Served_example : Served 50 both_calls [] (
    binder_thread_write header_constants two_calls caller
      (λ ptr. true)
      (thread 61)
      3
      4096
      136
      0
      served_work)
binder_thread_write-Served_example =
    binder_thread_write-Served header_constants two_calls caller (λ ptr. true) (λ ptr. refl)
      (thread 61) refl (λ e. omega (arith, e)) 50 2 4096 136 0 served_work both_calls (omega arith)
      two_calls-HoldsCalls manager-Live

-- A context without a manager, seen from a process without nodes.
abbrev pub unmanaged : Context
unmanaged = record {
  proc = record {
    pid = 50;
    threads = branch leaf (thread 51) leaf;
    nodes = leaf;
    todo = [];
    waiting_threads = [];
    max_threads = 0;
    tmp_ref = 0;
    woken = [];
  };
  state = record { log = fresh_log; mgr = none; stats = counts; made = [] };
  mgr_uid = none;
}

pub no_nodes : find node_key (binder_of none) unmanaged.proc.nodes ≡ none
unfolding find
no_nodes = refl

binder_ioctl_set_ctx_mgr-Managed_example :
    (out : Context) × (binder_ioctl_set_ctx_mgr header_constants unbalanced unbalanced 1000
        (some 4096)
        none
        unmanaged
      ≡ some (zero_ret, out))
    × Managed 1000 50 0 out
binder_ioctl_set_ctx_mgr-Managed_example =
    binder_ioctl_set_ctx_mgr-Managed header_constants unbalanced unbalanced (λ t. refl) (λ t. refl)
      1000 4096 none unmanaged refl (inl refl) tt no_nodes

abbrev pub two_calls_bwr : Bwr
two_calls_bwr = record {
  write_size = 136;
  write_consumed = 0;
  write_buffer = 4096;
  read_size = 0;
  read_consumed = 0;
  read_buffer = 0;
}

abbrev pub write_read_call : WriteReadCall
write_read_call = record {
  ioc_size = 48;
  sizeof_bwr = 48;
  from_user = some two_calls_bwr;
  to_user_ok = true;
}
