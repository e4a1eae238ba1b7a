-- ===== src/Binder/Ioctl.antt =====
-- binder_ioctl of binder.c: one call of a task on an open binder device.
pub mod Laws
pub mod Serves
use droid_kernal.Prelude.{ℕ, Bool, true, false, Option, none, some, ◌==◌, if◌then◌else◌}
use droid_kernal.Binder.Types.{Uapi, Errno, Ret, zero_ret, err, e_inval, e_nomem}
use droid_kernal.Binder.Tree.{Tree, update}
use droid_kernal.Binder.Node.{Node}
use droid_kernal.Binder.Proc.{Thread, Proc, FlatBinderObject, thread_key, binder_get_thread}
use droid_kernal.Binder.Transaction.{State, Sender}
use droid_kernal.Binder.Commands.{UserMem, Counts, Work}
use droid_kernal.Binder.WriteRead.{
  Bwr, WriteReadCall, Answer, answer, faults, unfinished, binder_ioctl_write_read,
}
use droid_kernal.Binder.Context.{Context, binder_ioctl_set_ctx_mgr}

-- The commands of the switch, each with what it reads from the user; `none` cannot be read.
pub data Command : Type 0 where
  cmd_write_read : WriteReadCall → Command
  cmd_set_max_threads : Option ℕ → Command
  cmd_set_context_mgr_ext : Option FlatBinderObject → Command
  cmd_set_context_mgr : Command
  cmd_version : Bool → Bool → Command
  cmd_other : Command

-- The current task, what the kernel answers it, and its memory. `wait` is the result of
-- wait_event_interruptible, `kzalloc_ok` stands for a thread and `node_at` for a node; the `kzalloc_ok` of
-- `sender` is not read, as `memory` says what each command gets.
pub record Caller : Type 0 where
  pub task_pid : ℕ
  pub wait : Option Errno
  pub kzalloc_ok : Bool
  pub node_at : Option ℕ
  pub euid : ℕ
  pub sender : Sender
  pub memory : ℕ → Bool
  pub user : UserMem

-- The process, its context and the counts of commands.
pub record Session : Type 0 where
  pub context : Context
  pub counts : Counts

-- The end of a call, with the struct that was copied back if one was; or a fault, or a loop that has
-- not ended.
pub data Result : Type 0 where
  returned : Ret → Option Bwr → Session → Result
  crashed : Result
  running : Result

abbrev pub with_proc : Proc → Session → Session
with_proc p s = record s { context = record s.context { proc = p } }

abbrev pub with_thread : Proc → State → Session → Session
with_thread p st s = record s { context = record s.context { proc = p; state = st } }

abbrev from_answer : Session → Answer → Result
from_answer s (answer r b w) =
    returned r b (record s { context = record s.context { state = w.state }; counts = w.counts })
from_answer s faults = crashed
from_answer s unfinished = running

abbrev from_context : Session → Option (Ret × Context) → Result
from_context s none = crashed
from_context s (some (r, c)) = returned r none (record s { context = c })

-- The label `err`: the thread has returned once.
abbrev settle_thread : Thread → Thread
settle_thread t = record t { looper_need_return = false }

abbrev pub settle : ℕ → Result → Result
settle pid (returned r b s) = returned r b (
    with_proc
      (record s.context.proc {
        threads = update thread_key pid settle_thread s.context.proc.threads;
      })
      s)
settle pid crashed = crashed
settle pid running = running

module _ (u : Uapi) (balance_threads : Tree Thread → Tree Thread)
    (balance_nodes : Tree Node → Tree Node) where
  -- The switch.
  pub dispatch : ℕ → Caller → Thread → Command → Session → Result
  dispatch fuel c t (cmd_write_read call) s = from_answer s (
      binder_ioctl_write_read u c.user c.sender c.memory t fuel call
        (record { state = s.context.state; counts = s.counts }))
  dispatch fuel c t (cmd_set_max_threads none) s = returned (err e_inval) none s
  dispatch fuel c t (cmd_set_max_threads (some n)) s =
      returned zero_ret none (with_proc (record s.context.proc { max_threads = n }) s)
  dispatch fuel c t (cmd_set_context_mgr_ext none) s = returned (err e_inval) none s
  dispatch fuel c t (cmd_set_context_mgr_ext (some fbo)) s = from_context s (
      binder_ioctl_set_ctx_mgr u balance_threads balance_nodes c.euid c.node_at (some fbo)
        s.context)
  dispatch fuel c t cmd_set_context_mgr s =
      from_context s
        (binder_ioctl_set_ctx_mgr u balance_threads balance_nodes c.euid c.node_at none s.context)
  dispatch fuel c t (cmd_version size_ok put_ok) s =
      if size_ok
      then (if put_ok then returned zero_ret none s else returned (err e_inval) none s)
      else returned (err e_inval) none s
  dispatch fuel c t cmd_other s = returned (err e_inval) none s

  -- With the task's thread, if there is one.
  pub with_task : ℕ → Caller → Command → Option Thread → Session → Result
  with_task fuel c cmd none s = returned (err e_nomem) none s
  with_task fuel c cmd (some t) s = settle c.task_pid (dispatch fuel c t cmd s)

  unfoldable pub binder_ioctl : ℕ → Caller → Command → Session → Result
  binder_ioctl fuel c cmd s = elim c.wait [
    | some e ↦ returned (err e) none s
    | none ↦
        (let (t, p, stats) =
            binder_get_thread u balance_threads balance_nodes c.task_pid c.kzalloc_ok s.context.proc
              s.context.state.stats in
          with_task fuel c cmd t (with_thread p (record s.context.state { stats = stats }) s))
  ]
