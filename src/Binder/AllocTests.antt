-- ===== src/Binder/AllocTests.antt =====
-- The theorems about binder_alloc.c and binder_mmap at concrete regions.
use droid_kernal.Prelude.{
  ℕ, ◌==◌, ◌+◌, ◌-◌, ◌^◌, ◌<◌, ◌≡◌, ◌≢◌, ◌⊎◌, refl, true, false, none, some, List, [], ◌∷◌, ◌&&◌,
  ◌*◌, ltb, if◌then◌else◌, arith,
}
use droid_kernal.Binder.Types.{
  zero_ret, err, e_busy, e_nomem, e_inval, e_perm, binder_supported_policy, is_fair_policy,
  is_rt_policy,
}
use droid_kernal.Binder.Tree.{Tree, leaf, branch, to_list}
use droid_kernal.Binder.Tests.{header_constants, unbalanced}
use droid_kernal.Binder.Alloc.{
  Buffer, Vma, Alloc, MapAnswers, MapState, binder_alloc_init, binder_alloc_buffer_size,
  binder_insert_free_buffer, binder_alloc_mmap_handler, binder_alloc_vma_close,
}
use droid_kernal.Binder.Alloc.Free.{Placed, Ascending, binder_insert_free_buffer-Placed}
use droid_kernal.Binder.Alloc.Mapping.{Mapped, binder_alloc_mmap_handler_err}
use droid_kernal.Binder.Alloc.Page.{PageState}
use droid_kernal.Binder.Open.{
  default_priority, existing_pid, OpenProc, Opener, Driver, opened, new_proc, binder_open,
}
use droid_kernal.Binder.Open.Laws.{uses, led_by, holds, Counted}
use droid_kernal.Binder.Mmap.{Area, prepare_area, binder_mmap}
use droid_kernal.Binder.Mmap.Laws.{
  ReadOnly, Attempt, closes, maps, after_attempts, binder_mmap-binder_open,
}

-- Two buffers of 4096 bytes and of 8192 bytes.
abbrev buffer : ℕ → ℕ → Buffer
buffer addr at = record { addr = addr; user_data = at; free = true }

abbrev region : Vma
region = record { vm_start = 65536; vm_end = 65536 + 12288; vm_mm = 9 }

abbrev split : Alloc
split = record {
  vma = some region;
  vma_vm_mm = some 9;
  buffer = 65536;
  buffers = buffer 1 65536 ∷ buffer 2 69632 ∷ [];
  free_buffers = branch leaf (buffer 2 69632) leaf;
  free_async_space = 6144;
  pages = some 512;
  buffer_size = 12288;
  pid = 50;
}

binder_insert_free_buffer-Placed_example :
    (t : Tree Buffer) × (binder_insert_free_buffer unbalanced split (buffer 1 65536)
      ≡ some (record split { free_buffers = t }))
    × Placed (binder_alloc_buffer_size split) (buffer 1 65536) (buffer 2 69632 ∷ []) (to_list t)
    × Ascending (binder_alloc_buffer_size split) (to_list t)
binder_insert_free_buffer-Placed_example =
    binder_insert_free_buffer-Placed unbalanced (λ t. refl) split (buffer 1 65536)
      (record { all_free = (refl, tt); ascending = (tt, tt) }) refl

abbrev no_memory : MapAnswers
no_memory = record { kcalloc = some 512; kzalloc = none; page_size = 4096 }

abbrev enough_memory : MapAnswers
enough_memory = record { kcalloc = some 512; kzalloc = some 640; page_size = 4096 }

abbrev unmapped : MapState
unmapped = record {
  alloc = record {
    vma = none;
    vma_vm_mm = none;
    buffer = 0;
    buffers = [];
    free_buffers = leaf;
    free_async_space = 0;
    pages = none;
    buffer_size = 0;
    pid = 50;
  };
  heap = record { live = []; bad = [] };
  mm_grabbed = [];
  asked_pages = 0;
}

binder_alloc_mmap_handler_err_example :
    (unmapped.alloc.buffer_size ≢ 0
      → binder_alloc_mmap_handler unbalanced no_memory region unmapped
        ≡ some (err e_busy, unmapped))
    × ((old : Vma) (a : Alloc)
        → Mapped old a
        → old.vm_start < old.vm_end
        → let closed = record unmapped { alloc = binder_alloc_vma_close a } in
          binder_alloc_mmap_handler unbalanced no_memory region closed ≡ some (err e_busy, closed))
    × (unmapped.alloc.buffer_size ≡ 0
        → (no_memory.kcalloc ≡ none) ⊎ (no_memory.kzalloc ≡ none)
        → (s' : MapState) × (binder_alloc_mmap_handler unbalanced no_memory region unmapped
            ≡ some (err e_nomem, s'))
          × (s'.alloc ≡ record unmapped.alloc { buffer = 0; buffer_size = 0; pages = none })
          × (s'.heap ≡ unmapped.heap)
          × (s'.mm_grabbed ≡ unmapped.mm_grabbed))
binder_alloc_mmap_handler_err_example =
    binder_alloc_mmap_handler_err unbalanced (λ t. refl) no_memory region unmapped

-- The whole region in one buffer.
abbrev whole : Alloc
whole = record split {
  buffers = buffer 1 65536 ∷ [];
  free_buffers = branch leaf (buffer 1 65536) leaf;
}

abbrev unused_page : PageState
unused_page = record {
  page_ptr = some 77;
  on_lru = true;
  mutex_held = false;
  lru_locked = true;
  mm_users = 1;
  mmap_readers = 0;
  freed = [];
  zapped = [];
}

-- refcount_inc below saturation.
abbrev counted_up : ℕ → ℕ
counted_up n = if ltb 0 n && ltb n (2 ^ 31 - 1) then n + 1 else 3 * 2 ^ 30

counted_up_below : (n : ℕ) → 0 < n → n < 2 ^ 31 - 1 → counted_up n ≡ n + 1
counted_up_below n some_refs h = ground arith

abbrev opener : Opener
opener = record { leader = 50; policy = 0; normal_prio = 120; kzalloc_ok = true }

abbrev idle : Driver
idle = record { procs = []; device_ref = λ k. 1; tasks_held = []; procs_created = 0 }

idle-Counted : Counted (λ k. 1) idle
unfolding uses led_by holds
idle-Counted = record { refs_are = λ k. refl; holds_are = λ k. refl }

abbrev first_proc : OpenProc
first_proc = record {
  proc = new_proc 50;
  alloc = unmapped.alloc;
  leader = 50;
  device = 3;
  default_priority = record { sched_policy = 0; prio = 120 };
}

abbrev one_open : Driver
one_open = record {
  procs = first_proc ∷ [];
  device_ref = λ k. if k == 3 then counted_up 1 else 1;
  tasks_held = 50 ∷ [];
  procs_created = 1;
}

opens : binder_open counted_up header_constants 3 opener idle ≡ opened first_proc false one_open
unfolding binder_open default_priority binder_supported_policy is_fair_policy is_rt_policy
    existing_pid binder_alloc_init
opens = refl

abbrev read_only : Area
read_only = record {
  vma = region;
  vm_write = false;
  vm_maywrite = true;
  vm_dontcopy = false;
  vm_mixedmap = false;
  has_ops = false;
  private_pid = none;
}

-- The area is closed, and another is tried.
abbrev attempts : List Attempt
attempts = closes ∷ maps 50 enough_memory read_only ∷ []

binder_mmap-binder_open_example :
    (s' : MapState) × (binder_mmap unbalanced 50 50 enough_memory read_only unmapped
      ≡ some (zero_ret, prepare_area 50 read_only, s'))
    × ReadOnly 50 (prepare_area 50 read_only)
    × Mapped region s'.alloc
    × (let now = after_attempts unbalanced 50 attempts s' in
        binder_mmap unbalanced 50 50 enough_memory read_only now
        ≡ some (err e_busy, prepare_area now.alloc.pid read_only, now))
    × (binder_mmap unbalanced 50 50 enough_memory (record read_only { vm_write = true }) unmapped
        ≡ some (err e_perm, record read_only { vm_write = true }, unmapped))
    × (binder_mmap unbalanced 50 51 enough_memory read_only unmapped
        ≡ some (err e_inval, read_only, unmapped))
binder_mmap-binder_open_example =
    binder_mmap-binder_open unbalanced (λ t. refl) counted_up counted_up_below header_constants
      (λ k. 1) 3 opener idle one_open first_proc false enough_memory enough_memory read_only
      read_only unmapped 512 640 51 attempts idle-Counted (omega arith) (omega arith) opens refl
      refl refl (omega arith) (omega arith) refl refl (λ e. omega arith)
