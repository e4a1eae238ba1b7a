-- ===== src/Binder/WriteRead/Ends.antt =====
-- binder_ioctl_write_read of binder.c: how many rounds a call needs.
use droid_kernal.Prelude.{
  ℕ, suc, ◌*◌, ◌-◌, ◌≤◌, ◌≢◌, refl, Bool, true, false, none, some, ◌==◌, Bool-cases, Option-cases,
  inl, inr, arith,
}
use droid_kernal.Binder.Types.{Uapi, Ret, zero_ret, err}
use droid_kernal.Binder.Proc.{Thread}
use droid_kernal.Binder.Transaction.{Sender}
use droid_kernal.Binder.Commands.{
  UserMem, Work, Written, written, faulted, more, advance, binder_thread_write,
}
use droid_kernal.Binder.Commands.Ends.{Bounded, write_loop_ends}
use droid_kernal.Binder.WriteRead.{
  Bwr, WriteReadCall, faults, unfinished, after_write, write_and_answer, binder_ioctl_write_read,
}

-- The bytes of commands in the buffer of a struct, and of a call.
abbrev pub bytes_to_write : Bwr → ℕ
bytes_to_write bwr =
    advance bwr.write_buffer bwr.write_size - advance bwr.write_buffer bwr.write_consumed

abbrev pub bytes_of_call : WriteReadCall → ℕ
bytes_of_call call = elim call.from_user [ none ↦ 0 | some bwr ↦ bytes_to_write bwr ]

after_write_ends :
    (ok : Bool) (r : Ret) (bwr : Bwr) (w : Work) → after_write ok r bwr w ≢ unfinished
after_write_ends true zero_ret bwr w = λ e. ground arith
after_write_ends false zero_ret bwr w = λ e. ground arith
after_write_ends true (err x) bwr w = λ e. ground arith
after_write_ends false (err x) bwr w = λ e. ground arith

-- A loop that has ended gives an answer or a fault.
loop_answers :
    (ok : Bool) (bwr : Bwr) (r : Written)
    → r ≢ more
    → (elim r [ written x w' ↦ after_write ok x bwr w' | faulted ↦ faults | more ↦ unfinished ])
      ≢ unfinished
loop_answers ok bwr (written x w') ends = after_write_ends ok x bwr w'
loop_answers ok bwr faulted ends = λ e. ground arith
loop_answers ok bwr more ends = absurd (ends refl)

module _ (u : Uapi) (m : UserMem) (limit : ℕ) (bounded : Bounded m limit) (who : Sender)
    (memory : ℕ → Bool) (thread : Thread) where
  write_and_answer_ends :
      (fuel : ℕ) (ok : Bool) (bwr : Bwr) (w : Work)
      → bytes_to_write bwr ≤ 4 * fuel
      → write_and_answer u m who memory thread (suc fuel) ok bwr w ≢ unfinished
  unfolding write_and_answer binder_thread_write
  write_and_answer_ends fuel ok bwr w enough = elim (Bool-cases (bwr.write_size == 0)) [
    | inl z ↦ rw z (after_write_ends ok zero_ret bwr w)
    | inr z ↦ rw z (
        loop_answers ok bwr _ (
          write_loop_ends u m limit bounded who memory thread fuel
            (advance bwr.write_buffer bwr.write_consumed) (advance bwr.write_buffer bwr.write_size)
            w (omega (arith, enough))))
  ]

  -- One round for every 4 bytes of commands and one more are enough: the call does not run on.
  pub binder_ioctl_write_read_ends :
      (fuel : ℕ) (call : WriteReadCall) (w : Work)
      → bytes_of_call call ≤ 4 * fuel
      → binder_ioctl_write_read u m who memory thread (suc fuel) call w ≢ unfinished
  unfolding binder_ioctl_write_read
  binder_ioctl_write_read_ends fuel call w enough =
      elim (Bool-cases (call.ioc_size == call.sizeof_bwr)) [
        | inr z ↦ rw (z, binder_ioctl_write_read) (λ e. ground arith)
        | inl z ↦ elim (Option-cases call.from_user) [
          | inl unread ↦ rw (z, unread, binder_ioctl_write_read) (λ e. ground arith)
          | inr (bwr, read) ↦
              rw (z, read, binder_ioctl_write_read)
                (write_and_answer_ends fuel call.to_user_ok bwr w (ground (arith, enough)))
        ]
      ]
