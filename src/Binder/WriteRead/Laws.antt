-- ===== src/Binder/WriteRead/Laws.antt =====
-- binder_ioctl_write_read of binder.c: what goes back to the user.
use droid_kernal.Prelude.{
  ℕ, suc, ◌≤◌, ◌<◌, ◌≡◌, ◌≢◌, refl, Bool, true, false, some, List, length, ◌==◌, eq→==, ne→==,
  arith,
}
use droid_kernal.Binder.Types.{Uapi, zero_ret}
use droid_kernal.Binder.Proc.{Thread}
use droid_kernal.Binder.Transaction.{Transaction, TransactionData, Sender}
use droid_kernal.Binder.Commands.{UserMem, Work, advance}
use droid_kernal.Binder.Commands.Served.{Live, HoldsCalls, MadeFor, binder_thread_write-Served}
use droid_kernal.Binder.WriteRead.{
  Bwr, WriteReadCall, Answer, answer, write_and_answer, binder_ioctl_write_read,
}

-- The call has returned 0, and the struct is back at the user's as it was. One transaction for each
-- call is made, and the manager of process `pid` is still there.
pub record Answered (pid : ℕ) (tds : List TransactionData) (before : List Transaction) (bwr : Bwr)
    (a : Answer) : Type 0 where
  pub work : Work
  pub is_answer : a ≡ answer zero_ret (some bwr) work
  pub all_made : MadeFor pid tds before work.state.made
  pub live : Live pid work.state

-- The struct can be copied both ways, and there is something in its buffer.
pub record CanWrite (call : WriteReadCall) (bwr : Bwr) : Type 0 where
  pub size_is : call.ioc_size ≡ call.sizeof_bwr
  pub reads : call.from_user ≡ some bwr
  pub writes : call.to_user_ok ≡ true
  pub some_size : 0 < bwr.write_size

-- Where the context manager lives, the thread has no error to return, no allocation fails, the struct
-- can be copied both ways and the rest of the buffer holds calls to handle 0, the call returns 0 and
-- has made a transaction for each; yet the struct goes back with the consumed count that it came
-- with.
pub binder_ioctl_write_read-Answered :
    (u : Uapi) (m : UserMem) (who : Sender) (memory : ℕ → Bool)
    → ((ptr : ℕ) → memory ptr ≡ true)
    → (thread : Thread) → thread.return_error_cmd ≡ u.br_ok
    → u.bc_transaction ≢ u.bc_reply
    → (pid fuel : ℕ) (call : WriteReadCall) (bwr : Bwr) (w : Work) (tds : List TransactionData)
    → CanWrite call bwr
    → length tds ≤ fuel
    → HoldsCalls u m
        (advance bwr.write_buffer bwr.write_consumed)
        (advance bwr.write_buffer bwr.write_size)
        tds
    → Live pid w.state
    → Answered pid tds w.state.made bwr
        (binder_ioctl_write_read u m who memory thread (suc fuel) call w)
unfolding binder_ioctl_write_read write_and_answer
binder_ioctl_write_read-Answered u m who memory plenty thread fine apart pid fuel call bwr w tds can
      enough holds live =
    let served =
      binder_thread_write-Served u m who memory plenty thread fine apart pid fuel bwr.write_buffer
        bwr.write_size bwr.write_consumed w tds enough holds live in
    let some_size : (bwr.write_size == 0) ≡ false =
      ne→== bwr.write_size 0 (λ e. omega (arith, e, can.some_size)) in
    record {
      work = served.work;
      is_answer =
          rw (eq→== call.ioc_size call.sizeof_bwr can.size_is, binder_ioctl_write_read)
            (rw can.reads (rw some_size (rw served.is_written (rw can.writes refl))));
      all_made = served.all_made;
      live = served.live;
    }
