-- ===== src/Binderfs/Tests.antt =====
-- The theorems about binderfs.c at concrete mounts and devices.
use droid_kernal.Prelude.{ℕ, ◌≡◌, refl, true, none, some, List, [], ◌∷◌, arith}
use droid_kernal.Binder.Types.{zero_ret}
use droid_kernal.Binderfs.Options.{MountOpts, opt_max, stats_global, default_opts}
use droid_kernal.Binderfs.Names.{device_names}
use droid_kernal.Binderfs.Names.Laws.{join, device_names-join}
use droid_kernal.Binderfs.Device.{
  Fs, minor_is, with_minor, with_name, add_entry, is_taken, has_name, CreateAnswers,
  binderfs_binder_device_create,
}
use droid_kernal.Binderfs.Device.Create.{AllOrNothing, binderfs_binder_device_create_lem}
use droid_kernal.Binderfs.Mount.{MountAnswers, binderfs_fill_super}
use droid_kernal.Binderfs.Mount.Numbers.{GivesBack, binderfs_fill_super-GivesBack}

abbrev four_global : MountOpts
four_global = record { max = 4; stats_mode = stats_global }

-- "binder,vnd"
abbrev two_names : List (List ℕ)
two_names = (98 ∷ 105 ∷ []) ∷ (118 ∷ 110 ∷ 100 ∷ []) ∷ []

device_names-join_example : device_names 7 (join two_names) ≡ some two_names
device_names-join_example =
    device_names-join 7 two_names
      (
        ((λ e. cc), ((λ e. omega arith), ((λ e. omega arith), tt))),
        (((λ e. cc), ((λ e. omega arith), ((λ e. omega arith), ((λ e. omega arith), tt)))), tt),
      )
      (omega arith)

abbrev answers : CreateAnswers
answers = record {
  ida = λ limit. minor_is 1;
  kzalloc = some 4096;
  new_inode = true;
  kmemdup = some 8192;
  copy_ok = true;
  lookup = none;
}

abbrev mounted : Fs
mounted = record {
  init_ipc = true;
  root_uid = 0;
  root_gid = 0;
  mount_opts = default_opts;
  device_count = 0;
  control = none;
  devices = [];
  minors = 0 ∷ [];
  heap = record { live = 1024 ∷ []; bad = [] };
}

abbrev device_name : List ℕ
device_name = 98 ∷ 105 ∷ []

binderfs_binder_device_create_lem_example :
    AllOrNothing answers device_name mounted
      (binderfs_binder_device_create answers true device_name mounted)
binderfs_binder_device_create_lem_example =
    binderfs_binder_device_create_lem answers true device_name mounted (omega arith)

created : (binderfs_binder_device_create answers true device_name mounted).ret ≡ zero_ret
unfolding binderfs_binder_device_create with_minor with_name add_entry is_taken has_name
created = refl

abbrev mount_answers : MountAnswers
mount_answers = record {
  info_at = some 2048;
  capable = true;
  fields = opt_max (some 8) ∷ [];
  init_ipc = true;
  root_uid = 0;
  root_gid = 0;
  new_inode = true;
  make_root = true;
  control = record {
    kzalloc = some 512;
    new_inode = true;
    ida = λ limit. minor_is 0;
    d_alloc_name = true;
  };
  device = λ name. answers;
}

binderfs_fill_super-GivesBack_example :
    GivesBack true
      (7 ∷ [])
      (binderfs_fill_super mount_answers device_name (7 ∷ []) (record { live = []; bad = [] }))
binderfs_fill_super-GivesBack_example =
    binderfs_fill_super-GivesBack mount_answers device_name (7 ∷ [])
      (record { live = []; bad = [] })
