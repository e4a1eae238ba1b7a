-- ===== src/Binder/Init.antt =====
-- The start and the end of the module: binder_init and binder_exit of
-- common/drivers/staging/binder/binder.c.
pub mod Laws
use droid_kernal.Prelude.{ℕ, ◌-◌, ◌^◌, Option, none, some, List}
use droid_kernal.Binder.Types.{Ret, zero_ret, err, Errno}
use droid_kernal.Binder.Transaction.{TransactionLog}
use droid_kernal.Binder.Alloc.Page.{Shrinker, binder_alloc_shrinker_init, binder_alloc_exit}
use droid_kernal.Binderfs.Mount.{Registry, init_binderfs, binder_fs_exit}

-- What the module holds.
pub record Module : Type 0 where
  pub shrinker : Shrinker
  pub registry : Registry
  pub transaction_log : TransactionLog
  pub transaction_log_failed : TransactionLog

-- The errors of the kernel's four registrations, none where they succeed.
pub record InitErrors : Type 0 where
  pub list_lru_init : Option Errno
  pub register_shrinker : Option Errno
  pub alloc_chrdev_region : Option Errno
  pub register_filesystem : Option Errno

abbrev reset_log : TransactionLog → TransactionLog
reset_log log = record log { cur = 2 ^ 32 - 1 }

abbrev pub reset_logs : Module → Module
reset_logs m = record m {
  transaction_log = reset_log m.transaction_log;
  transaction_log_failed = reset_log m.transaction_log_failed;
}

abbrev with_registry : Module → Option (Ret × Registry) → Option (Ret × Module)
with_registry m none = none
with_registry m (some (r, reg)) = some (r, record m { registry = reg })

-- `param` is binder_devices_param; the result `none` is a loop over the names that has not ended.
unfoldable pub binder_init : List ℕ → InitErrors → Module → Option (Ret × Module)
unfolding binder_alloc_shrinker_init
binder_init param e m =
    let (r, shrinker) = binder_alloc_shrinker_init e.list_lru_init e.register_shrinker m.shrinker in
    let ready = reset_logs (record m { shrinker = shrinker }) in
    elim r [
      | err x ↦ some (err x, record m { shrinker = shrinker })
      | zero_ret ↦
          with_registry ready
            (init_binderfs param e.alloc_chrdev_region e.register_filesystem m.registry)
    ]

unfoldable pub binder_exit : Module → Module
unfolding binder_alloc_exit binder_fs_exit
binder_exit m = record m {
  shrinker = binder_alloc_exit m.shrinker;
  registry = binder_fs_exit m.registry;
}
