-- ===== src/Binderfs/Mount.antt =====
-- A mount of binderfs.c: binderfs_fill_super, binderfs_kill_super, binder_ctl_ioctl, and the module's
-- init_binderfs.
pub mod Numbers
use droid_kernal.Prelude.{
  ℕ, suc, ◌+◌, Bool, true, false, Option, none, some, List, [], ◌∷◌, ◌==◌, if◌then◌else◌, length,
}
use droid_kernal.Prelude.Heap.{Heap, kfree, kmalloc_at}
use droid_kernal.Binder.Types.{Ret, zero_ret, err, Errno, e_nomem, e_inval, e_fault}
use droid_kernal.Binderfs.Options.{MountOpts, Token, binderfs_parse_mount_opts, stats_none}
use droid_kernal.Binderfs.Names.{device_names, check_names}
use droid_kernal.Binderfs.Device.{
  Device, Fs, CreateAnswers, Created, ControlAnswers, binderfs_binder_device_create,
  binderfs_binder_ctl_create, binderfs_evict_inode,
}

-- What the kernel answers to one mount: the struct for its state, the parsed fields of the options,
-- the namespace, the ids of root, the root directory, and the creations.
pub record MountAnswers : Type 0 where
  pub info_at : Option ℕ
  pub capable : Bool
  pub fields : List Token
  pub init_ipc : Bool
  pub root_uid : ℕ
  pub root_gid : ℕ
  pub new_inode : Bool
  pub make_root : Bool
  pub control : ControlAnswers
  pub device : List ℕ → CreateAnswers

abbrev pub new_fs : MountAnswers → MountOpts → List ℕ → Heap → Fs
new_fs k opts minors heap = record {
  init_ipc = k.init_ipc;
  root_uid = k.root_uid;
  root_gid = k.root_gid;
  mount_opts = opts;
  device_count = 0;
  control = none;
  devices = [];
  minors = minors;
  heap = heap;
}

-- The loop over the names, up to the first creation that fails.
unfoldable pub fill_devices : (List ℕ → CreateAnswers) → List (List ℕ) → Fs → Ret × Fs
fill_devices k [] fs = (zero_ret, fs)
fill_devices k (name ∷ names) fs =
    let out = binderfs_binder_device_create (k name) false name fs in
    elim out.ret [ err e ↦ (err e, out.fs) | zero_ret ↦ fill_devices k names out.fs ]

-- `none` is a fault, or a loop over the names that has not ended. The state of the mount stays with
-- the super block also where the mount fails.
pub fill_entries : MountAnswers → List ℕ → Fs → Option (Ret × Fs)
fill_entries k param fs = elim (binderfs_binder_ctl_create k.control fs) [
  | none ↦ none
  | some (err e, fs') ↦ some (err e, fs')
  | some (zero_ret, fs') ↦ elim (device_names (suc (length param)) param) [
    | none ↦ none
    | some names ↦ some (fill_devices k.device names fs')
  ]
]

pub fill_root : MountAnswers → List ℕ → Fs → Option (Ret × Fs)
fill_root k param fs =
    if k.new_inode
    then (if k.make_root then fill_entries k param fs else some (err e_nomem, fs))
    else some (err e_nomem, fs)

-- With the struct at `at`.
unfoldable pub fill_info : MountAnswers → List ℕ → ℕ → List ℕ → Heap → Option (Ret × Fs)
fill_info k param at minors heap =
    let zeroed : MountOpts = record { max = 0; stats_mode = stats_none } in
    let (r, opts) = binderfs_parse_mount_opts k.capable k.fields zeroed in
    let fs = new_fs k opts minors (kmalloc_at at heap) in
    elim r [ err e ↦ some (err e, fs) | zero_ret ↦ fill_root k param fs ]

-- The result, and the state where there was memory for it.
pub data Filled : Type 0 where
  no_info : Ret → Filled
  filled : Ret → ℕ → Fs → Filled
  faulted : Filled

abbrev pub with_info : ℕ → Option (Ret × Fs) → Filled
with_info at none = faulted
with_info at (some (r, fs)) = filled r at fs

unfoldable pub binderfs_fill_super : MountAnswers → List ℕ → List ℕ → Heap → Filled
binderfs_fill_super k param minors heap = elim k.info_at [
  | none ↦ no_info (err e_nomem)
  | some at ↦ with_info at (fill_info k param at minors heap)
]

-- kill_litter_super evicts every inode of the directory.
unfoldable pub evict_all : List Device → Fs → Fs
evict_all [] fs = fs
evict_all (d ∷ ds) fs = evict_all ds (binderfs_evict_inode (some d) fs)

unfoldable pub binderfs_kill_super : ℕ → Fs → Fs
binderfs_kill_super at fs =
    let gone = binderfs_evict_inode fs.control (evict_all fs.devices fs) in
    record gone { control = none; devices = []; heap = kfree at gone.heap }

-- The request of binder_ctl_ioctl: another command, one that cannot be copied in, or a name.
pub data CtlRequest : Type 0 where
  other_cmd : CtlRequest
  unreadable : CtlRequest
  ctl_add : List ℕ → CtlRequest

unfoldable pub binder_ctl_ioctl : CreateAnswers → CtlRequest → Fs → Created
binder_ctl_ioctl k other_cmd fs = record { ret = err e_inval; told = none; fs = fs }
binder_ctl_ioctl k unreadable fs = record { ret = err e_fault; told = none; fs = fs }
binder_ctl_ioctl k (ctl_add name) fs = binderfs_binder_device_create k true name fs

-- What module start has registered.
pub record Registry : Type 0 where
  pub region : Bool
  pub filesystem : Bool

-- The arguments are the errors of alloc_chrdev_region and register_filesystem, none where they
-- succeed; the result `none` is a loop over the names that has not ended.
unfoldable pub register_binderfs : Option Errno → Option Errno → Registry → Ret × Registry
register_binderfs (some e) fs_error s = (err e, s)
register_binderfs none (some e) s = (err e, record s { region = false })
register_binderfs none none s = (zero_ret, record { region = true; filesystem = true })

unfoldable pub init_binderfs :
    List ℕ → Option Errno → Option Errno → Registry → Option (Ret × Registry)
init_binderfs param region_error fs_error s = elim (device_names (suc (length param)) param) [
  | none ↦ none
  | some names ↦ elim (check_names names) [
    | err e ↦ some (err e, s)
    | zero_ret ↦ some (register_binderfs region_error fs_error s)
  ]
]

unfoldable pub binder_fs_exit : Registry → Registry
binder_fs_exit s = record { region = false; filesystem = false }
