-- ===== src/Binder/WriteRead.antt =====
-- The ioctl around the commands of a thread: binder_ioctl_write_read in binder.c.
pub mod Ends
pub mod Laws
use droid_kernal.Prelude.{ℕ, Bool, Option, none, some, ◌==◌, if◌then◌else◌}
use droid_kernal.Binder.Types.{Uapi, Ret, zero_ret, err, e_inval, e_fault}
use droid_kernal.Binder.Proc.{Thread}
use droid_kernal.Binder.Transaction.{Sender}
use droid_kernal.Binder.Commands.{UserMem, Work, written, faulted, more, binder_thread_write}

-- struct binder_write_read
pub record Bwr : Type 0 where
  pub write_size : ℕ
  pub write_consumed : ℕ
  pub write_buffer : ℕ
  pub read_size : ℕ
  pub read_consumed : ℕ
  pub read_buffer : ℕ

-- The call: the size in the command, the struct if it can be copied in, and whether it can be
-- copied back.
pub record WriteReadCall : Type 0 where
  pub ioc_size : ℕ
  pub sizeof_bwr : ℕ
  pub from_user : Option Bwr
  pub to_user_ok : Bool

-- A return, with the struct that the user's memory holds if one was copied back; or what the loop
-- over the commands may end in besides.
pub data Answer : Type 0 where
  answer : Ret → Option Bwr → Work → Answer
  faults : Answer
  unfinished : Answer

abbrev pub copy_back : Bool → Ret → Bwr → Work → Answer
copy_back ok r bwr w = if ok then answer r (some bwr) w else answer (err e_fault) none w

abbrev pub after_write : Bool → Ret → Bwr → Work → Answer
after_write ok zero_ret bwr w = copy_back ok zero_ret bwr w
after_write ok (err e) bwr w = copy_back ok (err e) (record bwr { read_consumed = 0 }) w

module _ (u : Uapi) (m : UserMem) (who : Sender) (memory : ℕ → Bool) (thread : Thread) where
  pub write_and_answer : ℕ → Bool → Bwr → Work → Answer
  write_and_answer fuel ok bwr w =
      if bwr.write_size == 0
      then copy_back ok zero_ret bwr w
      else elim (binder_thread_write u m who memory thread fuel bwr.write_buffer bwr.write_size
          bwr.write_consumed w) [
            | written r w' ↦ after_write ok r bwr w'
            | faulted ↦ faults
            | more ↦ unfinished
          ]

  unfoldable pub binder_ioctl_write_read : ℕ → WriteReadCall → Work → Answer
  binder_ioctl_write_read fuel call w =
      if call.ioc_size == call.sizeof_bwr
      then elim call.from_user [
        | none ↦ answer (err e_fault) none w
        | some bwr ↦ write_and_answer fuel call.to_user_ok bwr w
      ]
      else answer (err e_inval) none w
