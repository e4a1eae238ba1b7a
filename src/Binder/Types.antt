-- ===== src/Binder/Types.antt =====
-- What binder.c takes from the kernel's headers, and the types of its errors and counters.
use droid_kernal.Prelude.{
  ℕ, ◌+◌, ◌-◌, ◌%◌, ◌^◌, Bool, ◌||◌, ◌==◌, if◌then◌else◌, List, [], ◌∷◌, false,
}

-- The constants of uapi/linux/android/binder.h and of the scheduler that the driver names.
pub record Uapi : Type 0 where
  pub br_ok : ℕ
  pub br_dead_reply : ℕ
  pub bc_transaction : ℕ
  pub bc_reply : ℕ
  pub tf_one_way : ℕ
  pub priority_mask : ℕ
  pub accepts_fds : ℕ
  pub txn_security_ctx : ℕ
  pub sched_normal : ℕ
  pub sched_fifo : ℕ
  pub sched_rr : ℕ
  pub sched_batch : ℕ
  pub max_rt_prio : ℕ
  pub nice_to_prio : ℕ → ℕ

pub data Errno : Type 0 where
  e_inval e_fault e_nomem e_busy e_perm e_intr e_nospc e_exist e_2big e_restart : Errno

-- 0 or a negated error.
pub data Ret : Type 0 where
  zero_ret : Ret
  err : Errno → Ret

-- An `int` is its 32-bit pattern.
abbrev pub inc32 : ℕ → ℕ
inc32 n = (n + 1) % 2 ^ 32

abbrev pub dec32 : ℕ → ℕ
dec32 n = (n + 2 ^ 32 - 1) % 2 ^ 32

-- binder_stats, as far as the driver counts what it creates, and binder_last_id.
pub record Stats : Type 0 where
  pub threads_created : ℕ
  pub nodes_created : ℕ
  pub transactions_created : ℕ
  pub complete_created : ℕ
  pub last_id : ℕ

-- A work list holds the addresses of the nodes whose work is queued.
unfoldable pub contains : ℕ → List ℕ → Bool
contains a [] = false
contains a (b ∷ bs) = b == a || contains a bs

-- list_del_init of a node's work, wherever in the list it is.
unfoldable pub remove : ℕ → List ℕ → List ℕ
remove a [] = []
remove a (b ∷ bs) = let rest = remove a bs in if b == a then bs else b ∷ rest

module _ (u : Uapi) where
  unfoldable pub is_rt_policy : ℕ → Bool
  is_rt_policy policy = policy == u.sched_fifo || policy == u.sched_rr

  unfoldable pub is_fair_policy : ℕ → Bool
  is_fair_policy policy = policy == u.sched_normal || policy == u.sched_batch

  unfoldable pub binder_supported_policy : ℕ → Bool
  binder_supported_policy policy = is_rt_policy policy || is_fair_policy policy

  pub to_kernel_prio : ℕ → ℕ → ℕ
  to_kernel_prio policy user_priority =
      if is_fair_policy policy
      then u.nice_to_prio user_priority
      else (u.max_rt_prio + 2 ^ 32 - 1 + (2 ^ 32 - user_priority)) % 2 ^ 32
