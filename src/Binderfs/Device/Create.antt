-- ===== src/Binderfs/Device/Create.antt =====
-- binderfs_binder_device_create of binderfs.c: all or nothing, and its undoing by an eviction.
use droid_kernal.Prelude.{
  ℕ, ◌^◌, ◌<◌, ◌≡◌, ◌⊎◌, inl, inr, refl, ap, sym, ◌∙◌, Bool, true, false, Option, none, some, List,
  ◌∷◌, arith, Bool-cases, Option-cases, subst,
}
use droid_kernal.Prelude.Heap.{Heap, kmalloc_at, drop_addr, kfree-kmalloc_at}
use droid_kernal.Binder.Types.{Ret, zero_ret, err, Errno, e_nomem, e_fault, e_nospc, e_exist, inc32}
use droid_kernal.Binderfs.Device.{
  Device, Fs, Minor, minor_is, refused, CreateAnswers, Created, minor_limit, signed_le, stored_name,
  is_taken, create_failed, new_device, add_entry, with_name, with_minor,
  binderfs_binder_device_create, binderfs_evict_inode,
}

-- The file system with one device more, and what comes with it.
abbrev pub added : Device → ℕ → Fs → Fs
added d name_at fs = record fs {
  device_count = inc32 fs.device_count;
  devices = d ∷ fs.devices;
  minors = d.minor ∷ fs.minors;
  heap = kmalloc_at name_at (kmalloc_at d.addr fs.heap);
}

-- The creation has succeeded.
pub record Added (k : CreateAnswers) (req_name : List ℕ) (fs : Fs) (out : Created) : Type 0 where
  pub device : Device
  pub name_at : ℕ
  pub is_ok : out.ret ≡ zero_ret
  pub fs_is : out.fs ≡ added device name_at fs
  pub named : device.name ≡ stored_name req_name
  pub own_name : device.name_at ≡ some name_at
  pub one_user : device.ref ≡ 1
  pub was_free : is_taken device.name fs ≡ false
  pub numbered : k.ida (minor_limit fs.init_ipc) ≡ minor_is device.minor
  pub in_limit : signed_le (inc32 fs.device_count) fs.mount_opts.max ≡ true

-- It has either succeeded or failed without a trace.
abbrev pub AllOrNothing : CreateAnswers → List ℕ → Fs → Created → Type 0
AllOrNothing k req_name fs out =
    ((e : Errno) × (out.ret ≡ err e) × (out.fs ≡ fs)) ⊎ Added k req_name fs out

module _ (k : CreateAnswers) (userp : Bool) (req_name : List ℕ) (fs : Fs)
    (small : fs.device_count < 2 ^ 32) (n : ℕ)
    (numbered : k.ida (minor_limit fs.init_ipc) ≡ minor_is n)
    (room : signed_le (inc32 fs.device_count) fs.mount_opts.max ≡ true) where
  abbrev counted : Heap → Fs
  counted h = record fs { device_count = inc32 fs.device_count; minors = n ∷ fs.minors; heap = h }

  failed_plain :
      (r : Ret) (told : Option ℕ) → (create_failed r told none none n (counted fs.heap)).fs ≡ fs
  unfolding create_failed drop_addr
  failed_plain r told = ground arith

  failed_device :
      (r : Ret) (told : Option ℕ) (at : ℕ)
      → (create_failed r told none (some at) n (counted (kmalloc_at at fs.heap))).fs ≡ fs
  unfolding create_failed drop_addr
  failed_device r told at = ground (arith, kfree-kmalloc_at at fs.heap)

  failed_named :
      (r : Ret) (told : Option ℕ) (at name_at : ℕ)
      → (create_failed r told
          (some name_at)
          (some at)
          n
          (counted (kmalloc_at name_at (kmalloc_at at fs.heap)))).fs
        ≡ fs
  unfolding create_failed drop_addr
  failed_named r told at name_at =
      ground (arith, kfree-kmalloc_at name_at (kmalloc_at at fs.heap), kfree-kmalloc_at at fs.heap)

  -- A failure at some step, from the equation that says which.
  by_failed :
      (out : Created) (e : Errno) (told name device : Option ℕ) (h : Heap)
      → out ≡ create_failed (err e) told name device n (counted h)
      → (create_failed (err e) told name device n (counted h)).fs ≡ fs
      → AllOrNothing k req_name fs out
  unfolding create_failed
  by_failed out e told name device h q restored =
      inl (e, ap (λ o. o.ret) q, ap (λ o. o.fs) q ∙ restored)

  entry_added :
      (told : Option ℕ) (at name_at : ℕ)
      → k.lookup ≡ none
      → is_taken (stored_name req_name) fs ≡ false
      → AllOrNothing k req_name fs (
          add_entry k userp req_name told at name_at n
            (counted (kmalloc_at name_at (kmalloc_at at fs.heap))))
  unfolding add_entry is_taken new_device
  entry_added told at name_at q free =
      let d = new_device at name_at (stored_name req_name) n fs in
      inr (record {
        device = d;
        name_at = name_at;
        is_ok = ground arith;
        fs_is = ground arith;
        named = refl;
        own_name = refl;
        one_user = refl;
        was_free = free;
        numbered = numbered;
        in_limit = room;
      })

  add_entry_lem :
      (told : Option ℕ) (at name_at : ℕ)
      → AllOrNothing k req_name fs (
          add_entry k userp req_name told at name_at n
            (counted (kmalloc_at name_at (kmalloc_at at fs.heap))))
  unfolding add_entry is_taken
  add_entry_lem told at name_at =
      let h = kmalloc_at name_at (kmalloc_at at fs.heap) in
      elim (Option-cases k.lookup) [
        | inr (e, q) ↦
            by_failed _ e told (some name_at) (some at) h (ground arith)
              (failed_named (err e) told at name_at)
        | inl q ↦ elim (Bool-cases (is_taken (stored_name req_name) fs)) [
          | inl taken ↦
              by_failed _ e_exist told (some name_at) (some at) h (ground arith)
                (failed_named (err e_exist) told at name_at)
          | inr free ↦ entry_added told at name_at q free
        ]
      ]

  with_name_lem :
      (at : ℕ)
      → AllOrNothing k req_name fs
          (with_name k userp req_name at n (counted (kmalloc_at at fs.heap)))
  unfolding with_name
  with_name_lem at = elim (Option-cases k.kmemdup) [
    | inl e ↦
        by_failed _ e_nomem none none (some at) (kmalloc_at at fs.heap) (ground arith)
          (failed_device (err e_nomem) none at)
    | inr (name_at, e) ↦ elim (Bool-cases userp) [
      | inr no_user ↦
          subst (AllOrNothing k req_name fs) (sym (ground arith)) (add_entry_lem none at name_at)
      | inl user ↦ elim (Bool-cases k.copy_ok) [
        | inl copied ↦
            subst (AllOrNothing k req_name fs) (sym (ground arith))
              (add_entry_lem (some n) at name_at)
        | inr fault ↦
            by_failed _ e_fault none (some name_at) (some at)
              (kmalloc_at name_at (kmalloc_at at fs.heap)) (ground arith)
              (failed_named (err e_fault) none at name_at)
      ]
    ]
  ]

  with_minor_lem : AllOrNothing k req_name fs (with_minor k userp req_name n (counted fs.heap))
  unfolding with_minor
  with_minor_lem = elim (Option-cases k.kzalloc) [
    | inl e ↦
        by_failed _ e_nomem none none none fs.heap (ground arith) (failed_plain (err e_nomem) none)
    | inr (at, e) ↦ elim (Bool-cases k.new_inode) [
      | inl inode ↦ subst (AllOrNothing k req_name fs) (sym (ground arith)) (with_name_lem at)
      | inr no_inode ↦
          by_failed _ e_nomem none none (some at) (kmalloc_at at fs.heap) (ground arith)
            (failed_device (err e_nomem) none at)
    ]
  ]

-- Creating a device either fails and leaves the file system as it was, at whichever step: the count,
-- the minor numbers, the heap and the directory; or succeeds, with a device of the name asked for,
-- cut at 255 bytes, that no entry had, a number that was asked for below the namespace's limit, a
-- count within the mount's limit, and nothing else changed.
pub binderfs_binder_device_create_lem :
    (k : CreateAnswers) (userp : Bool) (req_name : List ℕ) (fs : Fs)
    → fs.device_count < 2 ^ 32
    → AllOrNothing k req_name fs (binderfs_binder_device_create k userp req_name fs)
unfolding binderfs_binder_device_create
binderfs_binder_device_create_lem k userp req_name fs small =
    elim (Bool-cases (signed_le (inc32 fs.device_count) fs.mount_opts.max)) [
      | inr full ↦ inl (e_nospc, ground arith, ground arith)
      | inl room ↦ go (k.ida (minor_limit fs.init_ipc)) refl room
    ]
  where
    go :
        (m : Minor)
        → k.ida (minor_limit fs.init_ipc) ≡ m
        → signed_le (inc32 fs.device_count) fs.mount_opts.max ≡ true
        → AllOrNothing k req_name fs (binderfs_binder_device_create k userp req_name fs)
    go (refused e) q room = inl (e, ground arith, ground arith)
    go (minor_is n) q room =
        subst (AllOrNothing k req_name fs) (sym (ground arith))
          (with_minor_lem k userp req_name fs small n q room)

evict-added :
    (d : Device) (name_at : ℕ) (fs : Fs)
    → fs.device_count < 2 ^ 32
    → d.ref ≡ 1
    → d.name_at ≡ some name_at
    → record (binderfs_evict_inode (some d) (added d name_at fs)) { devices = fs.devices } ≡ fs
unfolding binderfs_evict_inode drop_addr
evict-added d name_at fs small one own =
    ground
      (arith, kfree-kmalloc_at name_at (kmalloc_at d.addr fs.heap), kfree-kmalloc_at d.addr fs.heap)

-- The eviction of a device that was created, before anything else happens and with no other user,
-- takes everything back but the entry of the directory, which the kernel takes out.
evict-create :
    (k : CreateAnswers) (userp : Bool) (req_name : List ℕ) (fs : Fs)
    → fs.device_count < 2 ^ 32
    → (binderfs_binder_device_create k userp req_name fs).ret ≡ zero_ret
    → (d : Device) × ((binderfs_binder_device_create k userp req_name fs).fs.devices
        ≡ d ∷ fs.devices)
      × (record (binderfs_evict_inode
            (some d)
            (binderfs_binder_device_create k userp req_name fs).fs) { devices = fs.devices }
          ≡ fs)
unfolding binderfs_evict_inode
evict-create k userp req_name fs small ok =
    go (binderfs_binder_device_create_lem k userp req_name fs small)
  where
    go :
        AllOrNothing k req_name fs (binderfs_binder_device_create k userp req_name fs)
        → (d : Device) × ((binderfs_binder_device_create k userp req_name fs).fs.devices
            ≡ d ∷ fs.devices)
          × (record (binderfs_evict_inode
                (some d)
                (binderfs_binder_device_create k userp req_name fs).fs) { devices = fs.devices }
              ≡ fs)
    go (inl (e, r, f)) = absurd (cc)
    go (inr a) = (
      a.device,
      ap (λ f. f.devices) a.fs_is,
      ap (λ f. record (binderfs_evict_inode (some a.device) f) { devices = fs.devices }) a.fs_is
          ∙ evict-added a.device a.name_at fs small a.one_user a.own_name,
    )
