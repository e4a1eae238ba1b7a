-- ===== src/Binderfs/Device.antt =====
-- The devices of binderfs.c: binderfs_binder_device_create, binderfs_evict_inode and
-- binderfs_binder_ctl_create over the directory, the minor numbers and the heap.
pub mod Create
pub mod Control
use droid_kernal.Prelude.{
  ℕ, ◌+◌, ◌-◌, ◌%◌, ◌^◌, Bool, true, false, Option, none, some, List, [], ◌∷◌, ◌==◌, leb, ◌||◌,
  if◌then◌else◌, take,
}
use droid_kernal.Prelude.Heap.{Heap, kfree, kmalloc_at, drop_addr}
use droid_kernal.Binder.Types.{
  Ret, zero_ret, err, Errno, e_nomem, e_fault, e_nospc, e_exist, inc32, dec32,
}
use droid_kernal.Binderfs.Options.{MountOpts, max_minor, str_eq}
use droid_kernal.Binderfs.Names.{max_name}

-- INODE_OFFSET, and the inode of the control device.
abbrev inode_offset : ℕ
inode_offset = 3

abbrev second_inode : ℕ
second_inode = 2

-- struct binder_device with the parts of its inode that are set; the control device has no name of
-- its own. `ref` is the count of its users.
pub record Device : Type 0 where
  pub addr : ℕ
  pub name_at : Option ℕ
  pub name : List ℕ
  pub minor : ℕ
  pub ref : ℕ
  pub ino : ℕ
  pub uid : ℕ
  pub gid : ℕ

-- struct binderfs_info with the directory of the mount, the minor numbers that are taken on all
-- mounts, and the heap. `control` is the entry of the control device.
pub record Fs : Type 0 where
  pub init_ipc : Bool
  pub root_uid : ℕ
  pub root_gid : ℕ
  pub mount_opts : MountOpts
  pub device_count : ℕ
  pub control : Option Device
  pub devices : List Device
  pub minors : List ℕ
  pub heap : Heap

-- What ida_alloc_max answers.
pub data Minor : Type 0 where
  minor_is : ℕ → Minor
  refused : Errno → Minor

-- What the kernel answers to one creation. `ida` is asked for a number up to a limit, and `lookup` is
-- the error of lookup_one_len if it has one.
pub record CreateAnswers : Type 0 where
  pub ida : ℕ → Minor
  pub kzalloc : Option ℕ
  pub new_inode : Bool
  pub kmemdup : Option ℕ
  pub copy_ok : Bool
  pub lookup : Option Errno

-- The result, and the minor number if it was copied to the user.
pub record Created : Type 0 where
  pub ret : Ret
  pub told : Option ℕ
  pub fs : Fs

-- `use_reserve`: the last four numbers are for the first namespace.
abbrev pub minor_limit : Bool → ℕ
minor_limit init_ipc = if init_ipc then max_minor else max_minor - 4

-- `a <= b` on the patterns of two ints.
abbrev pub signed_le : ℕ → ℕ → Bool
signed_le a b = leb ((a + 2 ^ 31) % 2 ^ 32) ((b + 2 ^ 31) % 2 ^ 32)

-- The bytes before the first 0.
abbrev pub c_string : List ℕ → List ℕ
c_string [] = []
c_string (c ∷ cs) = let rest = c ∷ c_string cs in if c == 0 then [] else rest

-- The name in a request, whose last byte is set to 0.
abbrev pub stored_name : List ℕ → List ℕ
stored_name name = c_string (take max_name name)

-- "binder-control"
abbrev pub control_name : List ℕ
control_name = 98 ∷ 105 ∷ 110 ∷ 100 ∷ 101 ∷ 114 ∷ 45 ∷ 99 ∷ 111 ∷ 110 ∷ 116 ∷ 114 ∷ 111 ∷ 108 ∷ []

unfoldable pub has_name : List ℕ → List Device → Bool
has_name name [] = false
has_name name (d ∷ ds) = str_eq d.name name || has_name name ds

abbrev is_control : List ℕ → Option Device → Bool
is_control name none = false
is_control name (some d) = str_eq d.name name

-- d_really_is_positive of the entry that the lookup gives.
unfoldable pub is_taken : List ℕ → Fs → Bool
is_taken name fs = has_name name fs.devices || is_control name fs.control

abbrev pub kfree_at : Option ℕ → Heap → Heap
kfree_at none h = h
kfree_at (some a) h = kfree a h

-- The label `err`: what was allocated is freed and the number given back. The inode that is put has
-- no device yet, so its eviction changes nothing.
pub create_failed : Ret → Option ℕ → Option ℕ → Option ℕ → ℕ → Fs → Created
create_failed r told name device minor fs = record {
  ret = r;
  told = told;
  fs = record fs {
    heap = kfree_at device (kfree_at name fs.heap);
    device_count = dec32 fs.device_count;
    minors = drop_addr minor fs.minors;
  };
}

pub new_device : ℕ → ℕ → List ℕ → ℕ → Fs → Device
new_device at name_at name minor fs = record {
  addr = at;
  name_at = some name_at;
  name = name;
  minor = minor;
  ref = 1;
  ino = minor + inode_offset;
  uid = fs.root_uid;
  gid = fs.root_gid;
}

module _ (k : CreateAnswers) (userp : Bool) (req_name : List ℕ) where
  -- From the lookup on.
  unfoldable pub add_entry : Option ℕ → ℕ → ℕ → ℕ → Fs → Created
  add_entry told at name_at minor fs =
      let name = stored_name req_name in
      elim k.lookup [
        | some e ↦ create_failed (err e) told (some name_at) (some at) minor fs
        | none ↦
            if is_taken name fs
            then create_failed (err e_exist) told (some name_at) (some at) minor fs
            else record {
              ret = zero_ret;
              told = told;
              fs = record fs { devices = new_device at name_at name minor fs ∷ fs.devices };
            }
      ]

  -- From the copy of the name on.
  unfoldable pub with_name : ℕ → ℕ → Fs → Created
  with_name at minor fs = elim k.kmemdup [
    | none ↦ create_failed (err e_nomem) none none (some at) minor fs
    | some name_at ↦
        let named = record fs { heap = kmalloc_at name_at fs.heap } in
        if userp
        then (if k.copy_ok
            then add_entry (some minor) at name_at minor named
            else create_failed (err e_fault) none (some name_at) (some at) minor named)
        else add_entry none at name_at minor named
  ]

  -- With a minor number.
  unfoldable pub with_minor : ℕ → Fs → Created
  with_minor minor fs = elim k.kzalloc [
    | none ↦ create_failed (err e_nomem) none none none minor fs
    | some at ↦
        let held = record fs { heap = kmalloc_at at fs.heap } in
        if k.new_inode
        then with_name at minor held
        else create_failed (err e_nomem) none none (some at) minor held
  ]

  unfoldable pub binderfs_binder_device_create : Fs → Created
  binderfs_binder_device_create fs =
      let counted = record fs { device_count = inc32 fs.device_count } in
      let answer =
        if signed_le counted.device_count fs.mount_opts.max
        then k.ida (minor_limit fs.init_ipc)
        else refused e_nospc in
      elim answer [
        | refused e ↦ record {
          ret = err e;
          told = none;
          fs = record counted { device_count = dec32 counted.device_count };
        }
        | minor_is n ↦ with_minor n (record counted { minors = n ∷ counted.minors })
      ]

-- The eviction of the inode of a device, which the kernel has taken out of the directory; one of a
-- file without a device changes nothing.
unfoldable pub binderfs_evict_inode : Option Device → Fs → Fs
binderfs_evict_inode none fs = fs
binderfs_evict_inode (some d) fs =
    let given = record fs {
      device_count = dec32 fs.device_count;
      minors = drop_addr d.minor fs.minors;
    } in
    if d.ref == 1
    then record given { heap = kfree d.addr (kfree_at d.name_at given.heap) }
    else given

-- What the kernel answers to the creation of the control device.
pub record ControlAnswers : Type 0 where
  pub kzalloc : Option ℕ
  pub new_inode : Bool
  pub ida : ℕ → Minor
  pub d_alloc_name : Bool

-- `none` is the use of an inode that was never set.
module _ (k : ControlAnswers) where
  pub control_entry : ℕ → ℕ → Fs → Ret × Fs
  control_entry at minor fs =
      let d : Device = record {
        addr = at;
        name_at = none;
        name = control_name;
        minor = minor;
        ref = 1;
        ino = second_inode;
        uid = fs.root_uid;
        gid = fs.root_gid;
      } in
      if k.d_alloc_name
      then (zero_ret, record fs { control = some d })
      else (err e_nomem, record fs { heap = kfree at fs.heap })

  pub control_minor : ℕ → Fs → Ret × Fs
  control_minor at fs =
      let failed = record fs { heap = kfree at fs.heap } in
      if k.new_inode
      then elim (k.ida (minor_limit fs.init_ipc)) [
        | refused e ↦ (err e, failed)
        | minor_is n ↦ control_entry at n (record fs { minors = n ∷ fs.minors })
      ]
      else (err e_nomem, failed)

  unfoldable pub binderfs_binder_ctl_create : Fs → Option (Ret × Fs)
  binderfs_binder_ctl_create fs = elim k.kzalloc [
    | none ↦ some (err e_nomem, fs)
    | some at ↦ elim fs.control [
      | some d ↦ none
      | none ↦ some (control_minor at (record fs { heap = kmalloc_at at fs.heap }))
    ]
  ]
