-- ===== src/Binder/Ioctl/Laws.antt =====
-- binder_ioctl of binder.c: the thread of the calling task.
use droid_kernal.Prelude.{
  ℕ, suc, ◌*◌, ◌≤◌, ◌≡◌, ◌≢◌, refl, sym, ap, ◌∙◌, eq→==, ne→==, if_true, if_false, ◌==◌, true,
  false, Option, none, some,
}
use mathlib.Core.Option
use droid_kernal.Binder.Types.{Uapi, Ret}
use droid_kernal.Binder.Tree.{Tree, find, KeepsOrder}
use droid_kernal.Binder.Tree.Update.{find-update}
use droid_kernal.Binder.Node.{Node}
use droid_kernal.Binder.Proc.{Thread, Proc, thread_key, binder_get_thread}
use droid_kernal.Binder.Proc.Trees.{ThreadsInOrder, binder_get_thread-HasThread}
use droid_kernal.Binder.Commands.{Work}
use droid_kernal.Binder.Commands.Ends.{Bounded}
use droid_kernal.Binder.WriteRead.Ends.{bytes_of_call, binder_ioctl_write_read_ends}
use droid_kernal.Binder.WriteRead.{Answer, answer, faults, unfinished, binder_ioctl_write_read}
use droid_kernal.Binder.Context.{Context}
use droid_kernal.Binder.Context.Threads.{KeepsThreads, binder_ioctl_set_ctx_mgr-KeepsThreads}
use droid_kernal.Binder.Ioctl.{
  Command, Caller, Session, Result, cmd_write_read, cmd_set_max_threads, cmd_set_context_mgr_ext,
  cmd_set_context_mgr, cmd_version, cmd_other, returned, crashed, running, with_thread, from_answer,
  from_context, settle_thread, settle, dispatch, with_task, binder_ioctl,
}

-- The commands that may end in a fault or a BUG: those that work on nodes.
abbrev pub WorksOnNodes : Command → Type 0
WorksOnNodes (cmd_write_read call) = Unit {0}
WorksOnNodes (cmd_set_max_threads n) = ⊥
WorksOnNodes (cmd_set_context_mgr_ext fbo) = Unit {0}
WorksOnNodes cmd_set_context_mgr = Unit {0}
WorksOnNodes (cmd_version size_ok put_ok) = ⊥
WorksOnNodes cmd_other = ⊥

-- The command has ended, and if it has returned, it has left the tree of threads `t`.
KeepsTree : Command → Tree Thread → Result → Type 0
KeepsTree cmd t (returned r b s) = s.context.proc.threads ≡ t
KeepsTree cmd t crashed = WorksOnNodes cmd
KeepsTree cmd t running = ⊥

-- The bytes of commands that a command of the device reads from the user.
abbrev pub bytes_read : Command → ℕ
bytes_read (cmd_write_read call) = bytes_of_call call
bytes_read (cmd_set_max_threads n) = 0
bytes_read (cmd_set_context_mgr_ext fbo) = 0
bytes_read cmd_set_context_mgr = 0
bytes_read (cmd_version size_ok put_ok) = 0
bytes_read cmd_other = 0

-- The task `pid` has a thread that is marked as returned, and the threads of the others are those of
-- the process before.
pub record Returned (pid : ℕ) (before : Proc) (s : Session) : Type 0 where
  pub thread : Thread
  pub finds_it : find thread_key pid s.context.proc.threads ≡ some thread
  pub is_settled : thread.looper_need_return ≡ false
  pub finds_others :
      (k : ℕ)
      → k ≢ pid
      → find thread_key k s.context.proc.threads ≡ find thread_key k before.threads

abbrev pub Settled : Command → ℕ → Proc → Result → Type 0
Settled cmd pid before (returned r b s) = Returned pid before s
Settled cmd pid before crashed = WorksOnNodes cmd
Settled cmd pid before running = ⊥

from_answer-KeepsTree :
    (cmd : Command) (s : Session) (a : Answer)
    → WorksOnNodes cmd
    → a ≢ unfinished
    → KeepsTree cmd s.context.proc.threads (from_answer s a)
unfolding KeepsTree
from_answer-KeepsTree cmd s (answer r b w) may ends = refl
from_answer-KeepsTree cmd s faults may ends = may
from_answer-KeepsTree cmd s unfinished may ends = absurd (ends refl)

from_context-KeepsTree :
    (cmd : Command) (s : Session) (o : Option (Ret × Context))
    → WorksOnNodes cmd
    → KeepsThreads s.context.proc.threads o
    → KeepsTree cmd s.context.proc.threads (from_context s o)
unfolding KeepsTree
from_context-KeepsTree cmd s none may same = may
from_context-KeepsTree cmd s (some (r, c)) may same = same

settle-Settled :
    (cmd : Command) (pid : ℕ) (before p : Proc) (t : Thread) (r : Result)
    → find thread_key pid p.threads ≡ some t
    → ((k : ℕ) → k ≢ pid → find thread_key k p.threads ≡ find thread_key k before.threads)
    → KeepsTree cmd p.threads r
    → Settled cmd pid before (settle pid r)
unfolding KeepsTree
settle-Settled cmd pid before p t crashed finds others may = may
settle-Settled cmd pid before p t running finds others may = may
settle-Settled cmd pid before p t (returned r b s) finds others same =
    let found =
      λ (k : ℕ). find-update thread_key pid k settle_thread s.context.proc.threads (λ x. refl) in
    record {
      thread = settle_thread t;
      finds_it =
          found pid
          ∙ if_true (pid == pid) _ _ (eq→== pid pid refl)
          ∙ ap (Option.map settle_thread) (ap (find thread_key pid) same ∙ finds);
      is_settled = refl;
      finds_others = λ k ne.
          found k
          ∙ if_false (pid == k) _ _ (ne→== pid k (λ q. ne (sym q)))
          ∙ ap (find thread_key k) same
          ∙ others k ne;
    }

module _ (u : Uapi) (balance_threads : Tree Thread → Tree Thread)
    (balance_nodes : Tree Node → Tree Node) where
  dispatch-KeepsTree :
      (fuel limit : ℕ) (c : Caller) (t : Thread) (cmd : Command) (s : Session)
      → Bounded c.user limit
      → bytes_read cmd ≤ 4 * fuel
      → KeepsTree cmd s.context.proc.threads
          (dispatch u balance_threads balance_nodes (suc fuel) c t cmd s)
  unfolding KeepsTree dispatch
  dispatch-KeepsTree fuel limit c t (cmd_write_read call) s bounded enough =
      let w : Work = record { state = s.context.state; counts = s.counts } in
      from_answer-KeepsTree (cmd_write_read call) s
        (binder_ioctl_write_read u c.user c.sender c.memory t (suc fuel) call w) tt
        (binder_ioctl_write_read_ends u c.user limit bounded c.sender c.memory t fuel call w enough)
  dispatch-KeepsTree fuel limit c t (cmd_set_max_threads none) s bounded enough = refl
  dispatch-KeepsTree fuel limit c t (cmd_set_max_threads (some n)) s bounded enough = refl
  dispatch-KeepsTree fuel limit c t (cmd_set_context_mgr_ext none) s bounded enough = refl
  dispatch-KeepsTree fuel limit c t (cmd_set_context_mgr_ext (some fbo)) s bounded enough =
      from_context-KeepsTree (cmd_set_context_mgr_ext (some fbo)) s _ tt (
        binder_ioctl_set_ctx_mgr-KeepsThreads u balance_threads balance_nodes c.euid c.node_at
          (some fbo) s.context)
  dispatch-KeepsTree fuel limit c t cmd_set_context_mgr s bounded enough =
      from_context-KeepsTree cmd_set_context_mgr s _ tt (
        binder_ioctl_set_ctx_mgr-KeepsThreads u balance_threads balance_nodes c.euid c.node_at none
          s.context)
  dispatch-KeepsTree fuel limit c t (cmd_version true true) s bounded enough = refl
  dispatch-KeepsTree fuel limit c t (cmd_version true false) s bounded enough = refl
  dispatch-KeepsTree fuel limit c t (cmd_version false put_ok) s bounded enough = refl
  dispatch-KeepsTree fuel limit c t cmd_other s bounded enough = refl

  -- Where the wait is not interrupted, there is memory for a thread, the caller's memory ends below
  -- the top of the address space, and a round is given for every 4 bytes of commands and one more, a
  -- call of the device ends: it returns, or, if it is one that works on nodes, may meet a fault.
  -- Whatever the command and its result, where it returns, the calling task has a thread that is
  -- marked as returned, and the threads of the other tasks are those of before.
  pub binder_ioctl-Settled :
      KeepsOrder balance_threads
      → KeepsOrder balance_nodes
      → (fuel limit : ℕ) (c : Caller) (cmd : Command) (s : Session) → c.wait ≡ none
      → c.kzalloc_ok ≡ true
      → ThreadsInOrder s.context.proc
      → Bounded c.user limit
      → bytes_read cmd ≤ 4 * fuel
      → Settled cmd c.task_pid s.context.proc
          (binder_ioctl u balance_threads balance_nodes (suc fuel) c cmd s)
  unfolding binder_ioctl with_task dispatch
  binder_ioctl-Settled keeps_threads keeps_nodes fuel limit c cmd s ready memory order bounded
        enough =
      let has =
        binder_get_thread-HasThread u balance_threads balance_nodes keeps_threads keeps_nodes
          c.task_pid s.context.proc s.context.state.stats order in
      let out =
        binder_get_thread u balance_threads balance_nodes c.task_pid true s.context.proc
          s.context.state.stats in
      let s' = with_thread out.1 (record s.context.state { stats = out.2 }) s in
      rw (ready, memory, binder_ioctl)
        (rw (has.is_found) (
          settle-Settled cmd c.task_pid s.context.proc out.1 has.thread
            (dispatch u balance_threads balance_nodes (suc fuel) c has.thread cmd s') has.finds_it
            has.finds_others (dispatch-KeepsTree fuel limit c has.thread cmd s' bounded enough)))
