-- ===== src/Binderfs/Mount/Numbers.antt =====
-- The minor numbers over a mount and an unmount of binderfs.c.
use droid_kernal.Prelude.{
  ℕ, suc, ◌+◌, ◌-◌, ◌%◌, ◌^◌, ◌≡◌, ◌⊎◌, inl, inr, refl, ap, sym, subst, Bool, false, Option, none,
  some, List, [], ◌∷◌, map, arith, ◌==◌, if◌then◌else◌, length, occurrences, Option-cases,
  Bool-cases,
}
use droid_kernal.Prelude.Heap.{Heap, drop_addr, kmalloc_at, occurrences-drop_addr}
use droid_kernal.Binder.Types.{Ret, zero_ret, err, e_nomem}
use droid_kernal.Binderfs.Device.{
  Device, Fs, CreateAnswers, binderfs_binder_device_create, binderfs_binder_ctl_create,
  binderfs_evict_inode,
}
use droid_kernal.Binderfs.Device.Create.{AllOrNothing, added, binderfs_binder_device_create_lem}
use droid_kernal.Binderfs.Device.Control.{
  HasControl, Outcome, made, failed, lost, binderfs_binder_ctl_create_lem,
}
use droid_kernal.Binderfs.Options.{MountOpts, stats_none, binderfs_parse_mount_opts}
use droid_kernal.Binderfs.Names.Laws.{device_names_total}
use droid_kernal.Binderfs.Mount.{
  MountAnswers, new_fs, fill_devices, fill_entries, fill_root, fill_info, Filled, no_info, filled,
  faulted, with_info, binderfs_fill_super, evict_all, binderfs_kill_super,
}

abbrev pub control_occurrences : ℕ → Option Device → ℕ
control_occurrences n none = 0
control_occurrences n (some d) = if d.minor == n then 1 else 0

abbrev pub minors_of : List Device → List ℕ
minors_of ds = map (λ d. d.minor) ds

-- The count is that of the devices, and the numbers that are taken are those of the devices and of
-- the control device, once each, and those that `others` counts, which other mounts have.
pub record IsFs (others : ℕ → ℕ) (fs : Fs) : Type 0 where
  pub counted : fs.device_count ≡ length fs.devices % 2 ^ 32
  pub numbered :
      (n : ℕ)
      → occurrences n fs.minors
        ≡ occurrences n (minors_of fs.devices) + control_occurrences n fs.control + others n

module _ (others : ℕ → ℕ) where
  added-IsFs :
      (d : Device) (name_at : ℕ) (fs : Fs) → IsFs others fs → IsFs others (added d name_at fs)
  added-IsFs d name_at fs v = record {
    counted = omega (arith, v.counted);
    numbered = λ n. ground (arith, v.numbered n);
  }

  -- Creating a device keeps the count and the numbers true, whether it succeeds or fails.
  pub binderfs_binder_device_create-IsFs :
      (k : CreateAnswers) (userp : Bool) (req_name : List ℕ) (fs : Fs)
      → IsFs others fs
      → IsFs others (binderfs_binder_device_create k userp req_name fs).fs
  binderfs_binder_device_create-IsFs k userp req_name fs v =
      go (binderfs_binder_device_create_lem k userp req_name fs (omega (arith, v.counted)))
    where
      go :
          AllOrNothing k req_name fs (binderfs_binder_device_create k userp req_name fs)
          → IsFs others (binderfs_binder_device_create k userp req_name fs).fs
      go (inl (e, r, f)) = subst (IsFs others) (sym f) v
      go (inr a) = subst (IsFs others) (sym a.fs_is) (added-IsFs a.device a.name_at fs v)

  fill_devices-IsFs :
      (k : List ℕ → CreateAnswers) (names : List (List ℕ)) (fs : Fs)
      → IsFs others fs
      → IsFs others (fill_devices k names fs).1
  unfolding fill_devices
  fill_devices-IsFs k [] fs v = v
  fill_devices-IsFs k (name ∷ names) fs v =
      go (fill_devices-IsFs k names) (binderfs_binder_device_create (k name) false name fs).ret refl
    where
      go :
          ((fs' : Fs) → IsFs others fs' → IsFs others (fill_devices k names fs').1)
          → (r : Ret) → (binderfs_binder_device_create (k name) false name fs).ret ≡ r
          → IsFs others (fill_devices k (name ∷ names) fs).1
      go ih (err e) q =
          rw (q, fill_devices) (binderfs_binder_device_create-IsFs (k name) false name fs v)
      go ih zero_ret q =
          rw (q, fill_devices) (ih _ (binderfs_binder_device_create-IsFs (k name) false name fs v))

evict-minors :
    (d : Device) (fs : Fs) → (binderfs_evict_inode (some d) fs).minors ≡ drop_addr d.minor fs.minors
unfolding binderfs_evict_inode
evict-minors d fs = ground arith

evict-control : (d : Device) (fs : Fs) → (binderfs_evict_inode (some d) fs).control ≡ fs.control
unfolding binderfs_evict_inode
evict-control d fs = ground arith

evict_all-minors :
    (ds : List Device) (n : ℕ) (fs : Fs)
    → occurrences n (evict_all ds fs).minors
      ≡ occurrences n fs.minors - occurrences n (minors_of ds)
unfolding evict_all
evict_all-minors [] n fs = omega arith
evict_all-minors (d ∷ ds) n fs = ground (
  arith,
  evict_all-minors ds n (binderfs_evict_inode (some d) fs),
  ap (occurrences n) (evict-minors d fs),
  occurrences-drop_addr n d.minor fs.minors,
)

evict_control-minors :
    (c : Option Device) (n : ℕ) (fs : Fs)
    → occurrences n (binderfs_evict_inode c fs).minors
      ≡ occurrences n fs.minors - control_occurrences n c
unfolding binderfs_evict_inode
evict_control-minors none n fs = omega arith
evict_control-minors (some d) n fs =
    ground
      (arith, ap (occurrences n) (evict-minors d fs), occurrences-drop_addr n d.minor fs.minors)

-- An unmount gives back the numbers of the mount, and no other.
kill-minors :
    (others : ℕ → ℕ) (at : ℕ) (fs : Fs)
    → IsFs others fs
    → (n : ℕ) → occurrences n (binderfs_kill_super at fs).minors ≡ others n
unfolding binderfs_kill_super
kill-minors others at fs v n = omega (
  arith,
  v.numbered n,
  evict_control-minors fs.control n (evict_all fs.devices fs),
  evict_all-minors fs.devices n fs,
)

-- The mount has not faulted, and its unmount will give back what it took; or the control device got no
-- directory entry, the mount fails for that, and one number stays taken. `entry` says if it got one.
pub GivesBack : Bool → List ℕ → Filled → Type 0
GivesBack entry minors (no_info r) = r ≡ err e_nomem
GivesBack entry minors (filled r at fs) =
    ((n : ℕ) → occurrences n (binderfs_kill_super at fs).minors ≡ occurrences n minors)
    ⊎ (entry ≡ false
        × r ≡ err e_nomem
        × ((lost_number : ℕ) × ((n : ℕ)
              → occurrences n (binderfs_kill_super at fs).minors
                ≡ occurrences n minors + (if lost_number == n then 1 else 0))))
GivesBack entry minors faulted = ⊥

-- A number that no device of the mount has.
abbrev with_lost : ℕ → (ℕ → ℕ) → ℕ → ℕ
with_lost m others n = others n + (if m == n then 1 else 0)

-- The state of the mount is true to the numbers, or to them and a lost one.
FillIsFs : Bool → (ℕ → ℕ) → Option (Ret × Fs) → Type 0
FillIsFs entry others none = ⊥
FillIsFs entry others (some (r, fs)) =
    IsFs others fs ⊎ (entry ≡ false × r ≡ err e_nomem × ((m : ℕ) × IsFs (with_lost m others) fs))

module _ (others : ℕ → ℕ) (k : MountAnswers) (param : List ℕ) where
  lost-IsFs :
      (m : ℕ) (fs : Fs)
      → IsFs others fs
      → IsFs (with_lost m others) (record fs { minors = m ∷ fs.minors })
  lost-IsFs m fs v = record { counted = v.counted; numbered = λ n. ground (arith, v.numbered n) }

  control-IsFs :
      (fs out : Fs) → HasControl fs out → fs.control ≡ none → IsFs others fs → IsFs others out
  control-IsFs fs out h first v =
      subst (IsFs others) (sym h.out_is)
        (record { counted = v.counted; numbered = λ n. ground (arith, v.numbered n) })

  -- From a control device that was made, the loop over the names goes on.
  made_IsFs :
      (fs out : Fs)
      → binderfs_binder_ctl_create k.control fs ≡ some (zero_ret, out)
      → IsFs others out
      → FillIsFs k.control.d_alloc_name others (fill_entries k param fs)
  unfolding fill_entries FillIsFs
  made_IsFs fs out q v =
      let (names, e) = device_names_total (suc (length param)) param (omega arith) in
      rw (q, fill_entries) (rw e (inl (fill_devices-IsFs others k.device names out v)))

  fill_entries-IsFs :
      (fs : Fs)
      → fs.control ≡ none
      → IsFs others fs
      → FillIsFs k.control.d_alloc_name others (fill_entries k param fs)
  unfolding fill_entries FillIsFs
  fill_entries-IsFs fs first v =
      go (binderfs_binder_ctl_create k.control fs) refl
        ((binderfs_binder_ctl_create_lem k.control fs).0 first)
    where
      go :
          (o : Option (Ret × Fs))
          → binderfs_binder_ctl_create k.control fs ≡ o
          → Outcome k.control fs o
          → FillIsFs k.control.d_alloc_name others (fill_entries k param fs)
      go o q (made out h) = made_IsFs fs out q (control-IsFs fs out h first v)
      go o q (failed e) = rw (q, fill_entries) (inl v)
      go o q (lost n no_entry) = rw (q, fill_entries) (inr (no_entry, refl, (n, lost-IsFs n fs v)))

  fill_root-IsFs :
      (fs : Fs)
      → fs.control ≡ none
      → IsFs others fs
      → FillIsFs k.control.d_alloc_name others (fill_root k param fs)
  unfolding fill_root FillIsFs
  fill_root-IsFs fs first v = elim (Bool-cases k.new_inode) [
    | inr e ↦ rw (e, fill_root) (inl v)
    | inl e ↦ elim (Bool-cases k.make_root) [
      | inr e' ↦
          let q : fill_root k param fs ≡ some (err e_nomem, fs) = ground arith in
          subst (FillIsFs k.control.d_alloc_name others) (sym q) (inl v)
      | inl e' ↦
          subst (FillIsFs k.control.d_alloc_name others) (sym (ground arith))
            (fill_entries-IsFs fs first v)
    ]
  ]

new_fs-IsFs :
    (k : MountAnswers) (opts : MountOpts) (minors : List ℕ) (heap : Heap)
    → IsFs (λ n. occurrences n minors) (new_fs k opts minors heap)
new_fs-IsFs k opts minors heap = record { counted = refl; numbered = λ n. omega arith }

module _ (k : MountAnswers) (param minors : List ℕ) (heap : Heap) where
  fill_info-IsFs :
      (at : ℕ)
      → FillIsFs k.control.d_alloc_name
          (λ n. occurrences n minors)
          (fill_info k param at minors heap)
  unfolding fill_info FillIsFs
  fill_info-IsFs at =
      let opts =
        binderfs_parse_mount_opts k.capable k.fields
          (record { max = 0; stats_mode = stats_none }) in
      go opts.0 refl
    where
      parsed : Ret × MountOpts
      parsed =
          binderfs_parse_mount_opts k.capable k.fields (record { max = 0; stats_mode = stats_none })

      go :
          (r : Ret)
          → parsed.0 ≡ r
          → FillIsFs k.control.d_alloc_name
              (λ n. occurrences n minors)
              (fill_info k param at minors heap)
      go (err e) q = rw (q, fill_info) (inl (new_fs-IsFs k parsed.1 minors (kmalloc_at at heap)))
      go zero_ret q =
          rw (q, fill_info)
            (fill_root-IsFs (λ n. occurrences n minors) k param
              (new_fs k parsed.1 minors (kmalloc_at at heap)) refl
              (new_fs-IsFs k parsed.1 minors (kmalloc_at at heap)))

  -- Whatever the options, the names and the answers of the kernel are, a mount does not fault, and
  -- whether it succeeds or fails, the unmount that follows leaves exactly the minor numbers taken that
  -- were taken before; but where the control device gets no directory entry and the mount fails for
  -- that, one number more may stay taken.
  pub binderfs_fill_super-GivesBack :
      GivesBack k.control.d_alloc_name minors (binderfs_fill_super k param minors heap)
  unfolding binderfs_fill_super GivesBack FillIsFs
  binderfs_fill_super-GivesBack = elim (Option-cases k.info_at) [
    | inl e ↦ rw (e, binderfs_fill_super) refl
    | inr (at, e) ↦
        rw (e, binderfs_fill_super)
          (gives_back at (fill_info k param at minors heap) (fill_info-IsFs at))
  ]
    where
      gives_back :
          (at : ℕ) (o : Option (Ret × Fs))
          → FillIsFs k.control.d_alloc_name (λ n. occurrences n minors) o
          → GivesBack k.control.d_alloc_name minors (with_info at o)
      gives_back at none v = v
      gives_back at (some (r, fs)) (inl v) = inl (kill-minors (λ j. occurrences j minors) at fs v)
      gives_back at (some (r, fs)) (inr (no_entry, r_is, (m, v))) =
          inr (no_entry, r_is, (m, kill-minors (with_lost m (λ j. occurrences j minors)) at fs v))
