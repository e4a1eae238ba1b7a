-- ===== src/Binder/Ioctl/Serves.antt =====
-- A manager and a client of one context, by binder_ioctl of binder.c.
use droid_kernal.Prelude.{
  ℕ, suc, List, length, ◌≢◌, ◌≤◌, ◌≡◌, inl, refl, sym, ap, ◌∙◌, subst, true, Option, none, some,
  arith,
}
use droid_kernal.Binder.Types.{Uapi, zero_ret}
use droid_kernal.Binder.Tree.{Tree, find, update, to_list, KeepsOrder}
use droid_kernal.Binder.Tree.Order.{Asc}
use droid_kernal.Binder.Node.{Node}
use droid_kernal.Binder.Proc.{Thread, Proc, thread_key, node_key, binder_get_thread}
use droid_kernal.Binder.Proc.Trees.{ThreadsInOrder, NodesInOrder, binder_get_thread-HasThread}
use droid_kernal.Binder.Proc.Fresh.{binder_get_thread-nodes, binder_get_thread-return_error_cmd}
use droid_kernal.Binder.Commands.{Work, advance}
use droid_kernal.Binder.Commands.Served.{Live, HoldsCalls, MadeFor}
use droid_kernal.Binder.Transaction.{Transaction, TransactionData}
use droid_kernal.Binder.Context.{Context, binder_ioctl_set_ctx_mgr}
use droid_kernal.Binder.Context.Manager.{Managed, binder_ioctl_set_ctx_mgr-Managed}
use droid_kernal.Binder.WriteRead.{Bwr, WriteReadCall, Answer, binder_ioctl_write_read}
use droid_kernal.Binder.WriteRead.Laws.{Answered, CanWrite, binder_ioctl_write_read-Answered}
use droid_kernal.Binder.Ioctl.{
  Caller, Session, Result, cmd_write_read, cmd_set_context_mgr, returned, from_context, with_proc,
  with_thread, from_answer, settle_thread, settle, dispatch, with_task, binder_ioctl,
}

-- The call has returned 0 with the struct as it was, one transaction for each call is made, and the
-- manager of process `pid` is still there.
pub record Served (pid : ℕ) (tds : List TransactionData) (before : List Transaction) (bwr : Bwr)
    (r : Result) : Type 0 where
  pub session : Session
  pub is_returned : r ≡ returned zero_ret (some bwr) session
  pub all_made : MadeFor pid tds before session.context.state.made
  pub live : Live pid session.context.state

-- The wait is not interrupted, and there is memory for a thread.
pub record CanRun (c : Caller) : Type 0 where
  pub ready : c.wait ≡ none
  pub memory : c.kzalloc_ok ≡ true

settle-Served :
    (task pid : ℕ) (tds : List TransactionData) (before : List Transaction) (bwr : Bwr)
    (s : Session) (a : Answer)
    → Answered pid tds before bwr a
    → Served pid tds before bwr (settle task (from_answer s a))
settle-Served task pid tds before bwr s a ok =
    subst (λ x. Served pid tds before bwr (settle task (from_answer s x))) (sym ok.is_answer)
      (record { session = _; is_returned = refl; all_made = ok.all_made; live = ok.live })

-- The manager's node is what later calls need.
Managed-Live : (euid pid ptr : ℕ) (c : Context) → Managed euid pid ptr c → Live pid c.state
Managed-Live euid pid ptr c m = record {
  refs = m.refs;
  mgr_is = m.mgr_is;
  proc_is = m.proc_is;
  few = omega (arith, m.counted.2);
}

Live-with_proc :
    (pid : ℕ) (p : Proc) (s : Session)
    → Live pid s.context.state
    → Live pid (with_proc p s).context.state
Live-with_proc pid p s live = live

-- The tree of threads is nothing to the manager.
settle-Managed :
    (euid pid ptr : ℕ) (c : Context) (t : Tree Thread)
    → Managed euid pid ptr c
    → Managed euid pid ptr (record c { proc = record c.proc { threads = t } })
settle-Managed euid pid ptr c t m = record {
  refs = m.refs;
  mgr_is = m.mgr_is;
  proc_is = m.proc_is;
  counted = m.counted;
  told = m.told;
  shared = m.shared;
  uid_is = m.uid_is;
}

module _ (u : Uapi) (balance_threads : Tree Thread → Tree Thread)
    (balance_nodes : Tree Node → Tree Node) (keeps_threads : KeepsOrder balance_threads)
    (keeps_nodes : KeepsOrder balance_nodes) where
  -- The call that makes the caller the manager.
  binder_ioctl-Registers :
      (fuel addr : ℕ) (c : Caller) (s : Session)
      → c.wait ≡ none
      → c.kzalloc_ok ≡ true
      → c.node_at ≡ some addr
      → s.context.state.mgr ≡ none
      → s.context.mgr_uid ≡ none
      → ThreadsInOrder s.context.proc
      → NodesInOrder s.context.proc
      → find node_key 0 s.context.proc.nodes ≡ none
      → (out : Session) × (binder_ioctl u balance_threads balance_nodes fuel c cmd_set_context_mgr s
          ≡ returned zero_ret none out)
        × Managed c.euid s.context.proc.pid 0 out.context
  unfolding binder_ioctl with_task dispatch
  binder_ioctl-Registers fuel addr c s ready memory at free unset threads nodes new =
      let has =
        binder_get_thread-HasThread u balance_threads balance_nodes keeps_threads keeps_nodes
          c.task_pid s.context.proc s.context.state.stats threads in
      let same =
        binder_get_thread-nodes u balance_threads balance_nodes c.task_pid true s.context.proc
          s.context.state.stats in
      let out =
        binder_get_thread u balance_threads balance_nodes c.task_pid true s.context.proc
          s.context.state.stats in
      let s' = with_thread out.1 (record s.context.state { stats = out.2 }) s in
      let set = λ (k : Option ℕ).
        binder_ioctl_set_ctx_mgr u balance_threads balance_nodes c.euid k none s'.context in
      let (made, is_made, managed) =
        binder_ioctl_set_ctx_mgr-Managed u balance_threads balance_nodes keeps_threads keeps_nodes
          c.euid addr none s'.context free (inl unset)
          (subst (λ t. Asc node_key 0 (to_list t)) (sym same.0) nodes)
          (ap (find node_key 0) same.0 ∙ new) in
      let ends : binder_ioctl u balance_threads balance_nodes fuel c cmd_set_context_mgr s
          ≡ settle c.task_pid (from_context s' (some (zero_ret, made))) =
        rw (ready, memory, binder_ioctl)
          (rw has.is_found
            (ap (λ o. settle c.task_pid (from_context s' o)) (ap set at ∙ is_made))) in
      (
        _,
        ends,
        settle-Managed c.euid s.context.proc.pid 0 made
            (update thread_key c.task_pid settle_thread made.proc.threads)
            (subst (λ p. Managed c.euid p 0 made) same.1 managed),
      )

  -- A task of another process calls the manager that lives in the context.
  served :
      (fuel pid : ℕ) (c : Caller) (call : WriteReadCall) (bwr : Bwr) (s : Session)
      (tds : List TransactionData)
      → CanRun c
      → ThreadsInOrder s.context.proc
      → ((t : Thread)
          → find thread_key c.task_pid s.context.proc.threads ≡ some t
          → t.return_error_cmd ≡ u.br_ok)
      → u.bc_transaction ≢ u.bc_reply
      → ((ptr : ℕ) → c.memory ptr ≡ true)
      → CanWrite call bwr
      → length tds ≤ fuel
      → HoldsCalls u c.user
          (advance bwr.write_buffer bwr.write_consumed)
          (advance bwr.write_buffer bwr.write_size)
          tds
      → Live pid s.context.state
      → Served pid tds s.context.state.made bwr
          (binder_ioctl u balance_threads balance_nodes (suc fuel) c (cmd_write_read call) s)
  unfolding binder_ioctl with_task dispatch
  served fuel pid c call bwr s tds run threads fine apart plenty can enough holds live =
      let has =
        binder_get_thread-HasThread u balance_threads balance_nodes keeps_threads keeps_nodes
          c.task_pid s.context.proc s.context.state.stats threads in
      let out =
        binder_get_thread u balance_threads balance_nodes c.task_pid true s.context.proc
          s.context.state.stats in
      let no_error =
        binder_get_thread-return_error_cmd u balance_threads balance_nodes c.task_pid true
          s.context.proc s.context.state.stats has.thread fine has.is_found in
      let s' = with_thread out.1 (record s.context.state { stats = out.2 }) s in
      let w : Work = record { state = s'.context.state; counts = s'.counts } in
      let live' : Live pid s'.context.state = record {
        refs = live.refs;
        mgr_is = live.mgr_is;
        proc_is = live.proc_is;
        few = live.few;
      } in
      let result = settle c.task_pid (
        from_answer s'
          (binder_ioctl_write_read u c.user c.sender c.memory has.thread (suc fuel) call w)) in
      let ends : binder_ioctl u balance_threads balance_nodes (suc fuel) c (cmd_write_read call) s
          ≡ result =
        rw (run.ready, run.memory, binder_ioctl) (rw has.is_found refl) in
      subst (Served pid tds s.context.state.made bwr) (sym ends) (
        settle-Served c.task_pid pid tds s.context.state.made bwr s' _ (
          binder_ioctl_write_read-Answered u c.user c.sender c.memory plenty has.thread no_error
            apart pid fuel call bwr w tds can enough holds live'))

  -- In a context without a manager and without a uid of one, a task that has no node at address 0
  -- becomes the manager if there is memory for its thread and its node and its wait is not
  -- interrupted. Then a task of any process `client`, which has no error to return, is served when
  -- it writes calls to handle 0, where its wait is not interrupted, no allocation fails, its
  -- struct can be copied both ways, BC_TRANSACTION and BC_REPLY are two commands, and a round is
  -- given for each call and one more: its ioctl returns 0, one transaction is made for each call,
  -- in their order, to the manager's process and with the call's code and flags, and the manager
  -- is still there. Yet the struct goes back with the consumed count that it came with.
  pub binder_ioctl-Serves :
      (fuel fuel' addr : ℕ) (c c' : Caller) (s : Session) (client : Proc) (call : WriteReadCall)
      (bwr : Bwr) (tds : List TransactionData)
      → CanRun c
      → CanRun c'
      → c.node_at ≡ some addr
      → s.context.state.mgr ≡ none
      → s.context.mgr_uid ≡ none
      → ThreadsInOrder s.context.proc
      → NodesInOrder s.context.proc
      → find node_key 0 s.context.proc.nodes ≡ none
      → ThreadsInOrder client
      → ((t : Thread)
          → find thread_key c'.task_pid client.threads ≡ some t
          → t.return_error_cmd ≡ u.br_ok)
      → u.bc_transaction ≢ u.bc_reply
      → ((ptr : ℕ) → c'.memory ptr ≡ true)
      → CanWrite call bwr
      → length tds ≤ fuel'
      → HoldsCalls u c'.user
          (advance bwr.write_buffer bwr.write_consumed)
          (advance bwr.write_buffer bwr.write_size)
          tds
      → (s' : Session) × (binder_ioctl u balance_threads balance_nodes fuel c cmd_set_context_mgr s
          ≡ returned zero_ret none s')
        × Managed c.euid s.context.proc.pid 0 s'.context
        × Served s.context.proc.pid tds s'.context.state.made bwr (
            binder_ioctl u balance_threads balance_nodes
              (suc fuel')
              c'
              (cmd_write_read call)
              (with_proc client s'))
  binder_ioctl-Serves fuel fuel' addr c c' s client call bwr tds run run' at free unset threads
        nodes new threads' fine apart plenty can enough holds =
      let (s', registered, managed) =
        binder_ioctl-Registers fuel addr c s run.ready run.memory at free unset threads nodes new in
      (
        s',
        registered,
        managed,
        served fuel' s.context.proc.pid c' call bwr (with_proc client s') tds run' threads' fine
            apart plenty can enough holds
            (Live-with_proc s.context.proc.pid client s'
              (Managed-Live c.euid s.context.proc.pid 0 s'.context managed)),
      )
