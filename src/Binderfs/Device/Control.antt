-- ===== src/Binderfs/Device/Control.antt =====
-- binderfs_binder_ctl_create of binderfs.c on all of its branches.
use droid_kernal.Prelude.{
  ℕ, ◌≡◌, ◌⊎◌, inl, inr, refl, sym, subst, false, Option, none, some, ◌∷◌, arith, Bool-cases,
  Option-cases,
}
use droid_kernal.Prelude.Heap.{kmalloc_at, kfree-kmalloc_at}
use droid_kernal.Binder.Types.{Ret, zero_ret, err, Errno, e_nomem}
use droid_kernal.Binderfs.Device.{
  Device, Fs, Minor, minor_is, refused, ControlAnswers, minor_limit, control_name, second_inode,
  control_entry, control_minor, binderfs_binder_ctl_create,
}

-- The control device is there: one number and one block more, and the count of devices as before.
pub record HasControl (fs out : Fs) : Type 0 where
  pub device : Device
  pub named : device.name ≡ control_name
  pub out_is : out ≡ record fs {
    control = some device;
    minors = device.minor ∷ fs.minors;
    heap = kmalloc_at device.addr fs.heap;
  }

-- The outcome on a mount without a control device. In the last case a number is lost.
pub data Outcome (k : ControlAnswers) (fs : Fs) : Option (Ret × Fs) → Type 0 where
  made : (out : Fs) → HasControl fs out → Outcome k fs (some (zero_ret, out))
  failed : (e : Errno) → Outcome k fs (some (err e, fs))
  lost :
      (n : ℕ)
      → k.d_alloc_name ≡ false
      → Outcome k fs (some (err e_nomem, record fs { minors = n ∷ fs.minors }))

Minor-cases : (m : Minor) → ((e : Errno) × (m ≡ refused e)) ⊎ ((n : ℕ) × (m ≡ minor_is n))
Minor-cases (refused e) = inl (e, refl)
Minor-cases (minor_is n) = inr (n, refl)

abbrev by_eq :
    (k : ControlAnswers) (fs : Fs) (o o' : Option (Ret × Fs))
    → o ≡ o'
    → Outcome k fs o'
    → Outcome k fs o
by_eq k fs o o' q a = subst (Outcome k fs) (sym q) a

control_cases :
    (k : ControlAnswers) (fs : Fs)
    → fs.control ≡ none
    → Outcome k fs (binderfs_binder_ctl_create k fs)
unfolding binderfs_binder_ctl_create control_minor control_entry
control_cases k fs first = elim (Option-cases k.kzalloc) [
  | inl e ↦ by_eq k fs _ (some (err e_nomem, fs)) (ground arith) (failed e_nomem)
  | inr (at, e) ↦ elim (Bool-cases k.new_inode) [
    | inr no_inode ↦
        by_eq k fs _ (some (err e_nomem, fs)) (ground (arith, kfree-kmalloc_at at fs.heap))
          (failed e_nomem)
    | inl inode ↦ elim (Minor-cases (k.ida (minor_limit fs.init_ipc))) [
      | inl (r, q) ↦
          by_eq k fs _ (some (err r, fs)) (ground (arith, kfree-kmalloc_at at fs.heap)) (failed r)
      | inr (n, q) ↦ elim (Bool-cases k.d_alloc_name) [
        | inr no_entry ↦
            by_eq k fs _ (some (err e_nomem, record fs { minors = n ∷ fs.minors }))
              (ground (arith, kfree-kmalloc_at at fs.heap)) (lost n no_entry)
        | inl entry ↦
            let d : Device = record {
              addr = at;
              name_at = none;
              name = control_name;
              minor = n;
              ref = 1;
              ino = second_inode;
              uid = fs.root_uid;
              gid = fs.root_gid;
            } in
            let out = record fs {
              control = some d;
              minors = n ∷ fs.minors;
              heap = kmalloc_at at fs.heap;
            } in
            by_eq k fs _ (some (zero_ret, out)) (ground arith)
              (made out (record { device = d; named = refl; out_is = refl }))
      ]
    ]
  ]
]

-- On a mount without a control device the creation makes it, or fails without a trace, or, where
-- there is no memory for the directory entry, fails and keeps the minor number for ever. On a mount
-- that has one it puts an inode that was never set.
pub binderfs_binder_ctl_create_lem :
    (k : ControlAnswers) (fs : Fs)
    → (fs.control ≡ none → Outcome k fs (binderfs_binder_ctl_create k fs))
      × ((d : Device) (at : ℕ)
          → fs.control ≡ some d
          → k.kzalloc ≡ some at
          → binderfs_binder_ctl_create k fs ≡ none)
unfolding binderfs_binder_ctl_create control_minor control_entry
binderfs_binder_ctl_create_lem k fs =
    ((λ first. control_cases k fs first), λ d at second mem. ground arith)
