-- ===== src/Binder/Commands/Served.antt =====
-- The loop of binder_thread_write where user memory holds calls to the context manager.
use droid_kernal.Prelude.{
  ℕ, zero, suc, ◌^◌, ◌≤◌, ◌<◌, ◌≡◌, ◌≢◌, inl, inr, refl, sym, ap, ◌∙◌, Bool, true, false, some,
  List, [], ◌∷◌, length, ◌&&◌, ◌==◌, ltb, eq→==, ne→==, subst, arith, Bool-cases,
}
use droid_kernal.Binder.Types.{Uapi, zero_ret}
use droid_kernal.Binder.Node.{Refs}
use droid_kernal.Binder.Proc.{Thread}
use droid_kernal.Binder.Transaction.{
  Transaction, TransactionData, State, Sender, binder_transaction,
}
use droid_kernal.Binder.Transaction.Laws.{binder_transaction-Sent}
use droid_kernal.Binder.Commands.{
  UserMem, Work, Written, written, count_cmd, advance, goes_on, write_command, write_round,
  write_loop, binder_thread_write,
}

-- The context manager's node is there, its process is `pid`, and its temporary references are few.
pub record Live (pid : ℕ) (s : State) : Type 0 where
  pub refs : Refs
  pub mgr_is : s.mgr ≡ some refs
  pub proc_is : refs.node.proc ≡ some pid
  pub few : refs.node.tmp_refs < 2 ^ 31

-- From `ptr` on and up to `end`, user memory holds one call to handle 0 after the other: the command
-- BC_TRANSACTION and, behind it, the data of the call.
abbrev pub HoldsCalls : Uapi → UserMem → ℕ → ℕ → List TransactionData → Type 0
HoldsCalls u m ptr end [] = end ≤ ptr
HoldsCalls u m ptr end (td ∷ tds) =
    (ptr < end)
    × (m.get_user ptr ≡ some u.bc_transaction)
    × (m.copy_from_user (advance ptr 4) ≡ some td)
    × (td.handle ≡ 0)
    × HoldsCalls u m (advance (advance ptr 4) m.sizeof_tr) end tds

-- For each call, one transaction has been made, to the process and with the call's code and flags,
-- in the order of the calls; the last one made comes first.
abbrev pub MadeFor : ℕ → List TransactionData → List Transaction → List Transaction → Type 0
MadeFor pid [] before after = after ≡ before
MadeFor pid (td ∷ tds) before after =
    (t : Transaction) × (t.to_proc ≡ pid)
    × (t.code ≡ td.code)
    × (t.flags ≡ td.flags)
    × MadeFor pid tds (t ∷ before) after

-- The loop has returned 0, the transactions are made, and the context manager is still there.
pub record Served (pid : ℕ) (tds : List TransactionData) (before : List Transaction) (r : Written)
    : Type 0 where
  pub work : Work
  pub is_written : r ≡ written zero_ret work
  pub all_made : MadeFor pid tds before work.state.made
  pub live : Live pid work.state

-- What one call has made of the state.
record One (pid : ℕ) (td : TransactionData) (before : List Transaction) (out : State) : Type 0 where
  t : Transaction
  made_is : out.made ≡ t ∷ before
  to_is : t.to_proc ≡ pid
  code_is : t.code ≡ td.code
  flags_is : t.flags ≡ td.flags
  live : Live pid out

binder_transaction-One :
    (u : Uapi) (who : Sender) (td : TransactionData) (s : State) (pid : ℕ)
    → td.handle ≡ 0
    → who.kzalloc_ok ≡ true
    → Live pid s
    → (out : State) × (binder_transaction u who td false s ≡ some out) × One pid td s.made out
binder_transaction-One u who td s pid h mem live =
    let (out, sent, after) =
      binder_transaction-Sent u who td s live.refs pid h live.mgr_is live.proc_is live.few mem in
    let (r, found, same) = after.node_kept in
    let (t, made, to, code, flags) = after.one_made in
    (
      out,
      sent,
      record {
        t = t;
        made_is = made;
        to_is = to;
        code_is = code;
        flags_is = flags;
        live = record {
          refs = r;
          mgr_is = found;
          proc_is = ap (λ n. n.proc) same ∙ live.proc_is;
          few = omega (arith, live.few, ap (λ n. n.tmp_refs) same);
        };
      },
    )

count_cmd-state : (m : UserMem) (cmd : ℕ) (w : Work) → (count_cmd m cmd w).state ≡ w.state
count_cmd-state m cmd w = elim (Bool-cases (ltb (m.ioc_nr cmd) m.bc_size)) [
  | inl e ↦ rw e refl
  | inr e ↦ rw e refl
]

module _ (u : Uapi) (m : UserMem) (who : Sender) (memory : ℕ → Bool)
    (plenty : (ptr : ℕ) → memory ptr ≡ true) (thread : Thread)
    (fine : thread.return_error_cmd ≡ u.br_ok) (apart : u.bc_transaction ≢ u.bc_reply)
    (pid : ℕ) where
  write_command_sends :
      (ptr : ℕ) (w : Work) (td : TransactionData) (out : State)
      → m.copy_from_user (advance ptr 4) ≡ some td
      → binder_transaction u (record who { kzalloc_ok = memory ptr }) td false w.state ≡ some out
      → write_command u m who memory thread ptr u.bc_transaction w
        ≡ goes_on (advance (advance ptr 4) m.sizeof_tr) (record w { state = out })
  unfolding write_command
  write_command_sends ptr w td out read sent =
      let known : (u.bc_transaction == u.bc_transaction) ≡ true =
        eq→== u.bc_transaction u.bc_transaction refl in
      let call : (u.bc_transaction == u.bc_reply) ≡ false =
        ne→== u.bc_transaction u.bc_reply apart in
      rw (read, known, call, write_command) (rw sent refl)

  -- A round over a call carries it out.
  write_round_calls :
      (ptr end : ℕ) (w : Work) (td : TransactionData) (tds : List TransactionData)
      → HoldsCalls u m ptr end (td ∷ tds)
      → Live pid w.state
      → (w' : Work) × (write_round u m who memory thread ptr end w
          ≡ goes_on (advance (advance ptr 4) m.sizeof_tr) w')
        × One pid td w.state.made w'.state
  unfolding write_round
  write_round_calls ptr end w td tds (before, got, read, handle, rest) live =
      let counted = count_cmd m u.bc_transaction w in
      let same = count_cmd-state m u.bc_transaction w in
      let (out, sent, one) =
        binder_transaction-One u (record who { kzalloc_ok = memory ptr }) td counted.state pid
          handle (plenty ptr) (subst (Live pid) (sym same) live) in
      let on : (ltb ptr end && thread.return_error_cmd == u.br_ok) ≡ true =
        ground (arith, before, fine) in
      (
        record counted { state = out },
        rw (on, got, write_round) (write_command_sends ptr counted td out read sent),
        subst (λ s. One pid td s.made out) same one,
      )

  write_loop-Served :
      (fuel ptr end : ℕ) (w : Work) (tds : List TransactionData)
      → length tds ≤ fuel
      → HoldsCalls u m ptr end tds
      → Live pid w.state
      → Served pid tds w.state.made (write_loop u m who memory thread (suc fuel) ptr end w)
  unfolding write_loop write_round
  write_loop-Served fuel ptr end w [] enough holds live = record {
    work = w;
    is_written = ground arith;
    all_made = refl;
    live = live;
  }
  write_loop-Served zero ptr end w (td ∷ tds) enough holds live = absurd (omega (arith, enough))
  write_loop-Served (suc fuel) ptr end w (td ∷ tds) enough holds live =
      let (w', goes, one) = write_round_calls ptr end w td tds holds live in
      let rest =
        write_loop-Served fuel (advance (advance ptr 4) m.sizeof_tr) end w' tds
          (omega (arith, enough)) holds.4 one.live in
      record {
        work = rest.work;
        is_written = rw (goes, write_loop) rest.is_written;
        all_made = (
          one.t,
          one.to_is,
          one.code_is,
          one.flags_is,
          subst (λ made. MadeFor pid tds made rest.work.state.made) one.made_is rest.all_made,
        );
        live = rest.live;
      }

  -- Where the context manager lives, the thread has no error to return, no allocation fails,
  -- BC_TRANSACTION and BC_REPLY are two commands, and what is left of the buffer holds calls to
  -- handle 0, every call is carried out: with one round for each call and one more the loop
  -- returns 0, has made one transaction for each, in their order, to the manager's process and
  -- with the call's code and flags, and the context manager is still there for the next caller.
  pub binder_thread_write-Served :
      (fuel buffer size consumed : ℕ) (w : Work) (tds : List TransactionData)
      → length tds ≤ fuel
      → HoldsCalls u m (advance buffer consumed) (advance buffer size) tds
      → Live pid w.state
      → Served pid tds w.state.made
          (binder_thread_write u m who memory thread (suc fuel) buffer size consumed w)
  unfolding binder_thread_write
  binder_thread_write-Served fuel buffer size consumed w tds enough holds live =
      write_loop-Served fuel (advance buffer consumed) (advance buffer size) w tds enough holds live
