-- ===== src/Binder/Commands.antt =====
-- The commands that a thread writes: binder_thread_write in binder.c.
pub mod Ends
pub mod Served
use droid_kernal.Prelude.{
  ℕ, zero, suc, ◌+◌, ◌%◌, ◌^◌, Bool, Option, none, some, ◌&&◌, ◌||◌, ◌==◌, ltb, if◌then◌else◌,
}
use droid_kernal.Binder.Types.{Uapi, Ret, zero_ret, err, e_inval, e_fault}
use droid_kernal.Binder.Proc.{Thread}
use droid_kernal.Binder.Transaction.{TransactionData, State, Sender, binder_transaction}

-- What get_user and copy_from_user read at an address; `none` is a fault. `sizeof_tr` is the size
-- of struct binder_transaction_data, and `ioc_nr` is _IOC_NR.
pub record UserMem : Type 0 where
  pub get_user : ℕ → Option ℕ
  pub copy_from_user : ℕ → Option TransactionData
  pub sizeof_tr : ℕ
  pub ioc_nr : ℕ → ℕ
  pub bc_size : ℕ

-- The counts of the commands: for the driver, the process and the thread.
pub record Counts : Type 0 where
  pub driver_bc : ℕ → ℕ
  pub proc_bc : ℕ → ℕ
  pub thread_bc : ℕ → ℕ

-- The state that the loop works on.
pub record Work : Type 0 where
  pub state : State
  pub counts : Counts

-- How the loop ends: with a result, in a fault of the kernel, or short of fuel.
pub data Written : Type 0 where
  written : Ret → Work → Written
  faulted : Written
  more : Written

abbrev bump : ℕ → (ℕ → ℕ) → ℕ → ℕ
bump nr bc = λ k. if nr == k then (bc k + 1) % 2 ^ 32 else bc k

abbrev pub count_cmd : UserMem → ℕ → Work → Work
count_cmd m cmd w =
    let nr = m.ioc_nr cmd in
    if ltb nr m.bc_size
    then (record w {
      counts = record w.counts {
        driver_bc = bump nr w.counts.driver_bc;
        proc_bc = bump nr w.counts.proc_bc;
        thread_bc = bump nr w.counts.thread_bc;
      };
    })
    else w

abbrev pub advance : ℕ → ℕ → ℕ
advance ptr n = (ptr + n) % 2 ^ 64

-- What one round of the loop leads to.
pub data Next : Type 0 where
  stops : Written → Next
  goes_on : ℕ → Work → Next

-- Whether a command is one of the two that the switch knows.
abbrev pub transacts : Uapi → ℕ → Bool
transacts u cmd = cmd == u.bc_transaction || cmd == u.bc_reply

module _ (u : Uapi) (m : UserMem) (who : Sender) (memory : ℕ → Bool) (thread : Thread) where
  -- A command read at `ptr`, where `memory` says if the allocation for it succeeds.
  unfoldable pub write_command : ℕ → ℕ → Work → Next
  write_command ptr cmd w =
      let next = advance ptr 4 in
      if transacts u cmd
      then elim (m.copy_from_user next) [
        | none ↦ stops (written (err e_fault) w)
        | some td ↦
            elim (binder_transaction u (record who { kzalloc_ok = memory ptr }) td
              (cmd == u.bc_reply) w.state) [
                | none ↦ stops faulted
                | some s ↦ goes_on (advance next m.sizeof_tr) (record w { state = s })
              ]
      ]
      else goes_on next w

  unfoldable pub write_round : ℕ → ℕ → Work → Next
  write_round ptr end w =
      if ltb ptr end && thread.return_error_cmd == u.br_ok
      then elim (m.get_user ptr) [
        | none ↦ stops (written (err e_fault) w)
        | some cmd ↦ write_command ptr cmd (count_cmd m cmd w)
      ]
      else stops (written zero_ret w)

  unfoldable pub write_loop : ℕ → ℕ → ℕ → Work → Written
  write_loop zero ptr end w = more
  write_loop (suc fuel) ptr end w = elim (write_round ptr end w) [
    | stops r ↦ r
    | goes_on next w' ↦ write_loop fuel next end w'
  ]

  unfoldable pub binder_thread_write : ℕ → ℕ → ℕ → ℕ → Work → Written
  binder_thread_write fuel buffer size consumed w =
      write_loop fuel (advance buffer consumed) (advance buffer size) w
