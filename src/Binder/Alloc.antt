-- ===== src/Binder/Alloc.antt =====
-- The address space that a process maps for its buffers, of
-- common/drivers/staging/binder/binder_alloc.c: the mapping, the tree of free buffers, and the pages.
pub mod Free
pub mod Mapping
pub mod Page
use droid_kernal.Prelude.{
  ℕ, ◌+◌, ◌-◌, ◌*◌, ◌/◌, ◌%◌, ◌^◌, min, Bool, true, false, Option, none, some, List, [], ◌∷◌, ◌==◌,
  ltb, if◌then◌else◌,
}
use droid_kernal.Prelude.Heap.{Heap, kfree, kmalloc_at}
use droid_kernal.Binder.Types.{Ret, zero_ret, err, Errno, e_busy, e_nomem}
use droid_kernal.Binder.Tree.{Tree, leaf, branch}

-- struct binder_buffer, as far as it is set: `addr` is its own address, `free` its flag.
pub record Buffer : Type 0 where
  pub addr : ℕ
  pub user_data : ℕ
  pub free : Bool

-- struct vm_area_struct, as far as it is read.
pub record Vma : Type 0 where
  pub vm_start : ℕ
  pub vm_end : ℕ
  pub vm_mm : ℕ

-- struct binder_alloc. `buffers` is the list by address, `pages` the address of the page array.
pub record Alloc : Type 0 where
  pub vma : Option Vma
  pub vma_vm_mm : Option ℕ
  pub buffer : ℕ
  pub buffers : List Buffer
  pub free_buffers : Tree Buffer
  pub free_async_space : ℕ
  pub pages : Option ℕ
  pub buffer_size : ℕ
  pub pid : ℕ

-- binder_alloc_init of zeroed memory.
unfoldable pub binder_alloc_init : ℕ → Alloc
binder_alloc_init pid = record {
  vma = none;
  vma_vm_mm = none;
  buffer = 0;
  buffers = [];
  free_buffers = leaf;
  free_async_space = 0;
  pages = none;
  buffer_size = 0;
  pid = pid;
}

-- A size_t of 64 bits.
abbrev sub64 : ℕ → ℕ → ℕ
sub64 a b = (a + 2 ^ 64 - b) % 2 ^ 64

abbrev head_of : List Buffer → Option Buffer
head_of [] = none
head_of (b ∷ bs) = some b

-- The buffer behind the one at an address, none behind the last.
unfoldable pub binder_buffer_next : ℕ → List Buffer → Option Buffer
binder_buffer_next a [] = none
binder_buffer_next a (b ∷ bs) = if b.addr == a then head_of bs else binder_buffer_next a bs

unfoldable pub binder_alloc_buffer_size : Alloc → Buffer → ℕ
binder_alloc_buffer_size alloc b = elim (binder_buffer_next b.addr alloc.buffers) [
  | none ↦ sub64 ((alloc.buffer + alloc.buffer_size) % 2 ^ 64) b.user_data
  | some next ↦ sub64 next.user_data b.user_data
]

-- `none` is a BUG.
abbrev to_left : Option (Tree Buffer) → Buffer → Tree Buffer → Option (Tree Buffer)
to_left none x r = none
to_left (some l) x r = some (branch l x r)

abbrev to_right : Tree Buffer → Buffer → Option (Tree Buffer) → Option (Tree Buffer)
to_right l x none = none
to_right l x (some r) = some (branch l x r)

-- The descent by size, and the link where it ends; equal sizes go to the right.
unfoldable pub link_free : (Buffer → ℕ) → Buffer → Tree Buffer → Option (Tree Buffer)
link_free size new leaf = some (branch leaf new leaf)
link_free size new (branch l x r) =
    let left = to_left (link_free size new l) x r in
    let right = to_right l x (link_free size new r) in
    if x.free then (if ltb (size new) (size x) then left else right) else none

unfoldable pub binder_alloc_set_vma : Option Vma → Alloc → Alloc
binder_alloc_set_vma none a = record a { vma = none }
binder_alloc_set_vma (some v) a = record a { vma = some v; vma_vm_mm = some v.vm_mm }

unfoldable pub binder_alloc_get_vma : Alloc → Option Vma
binder_alloc_get_vma a = a.vma

unfoldable pub binder_alloc_vma_close : Alloc → Alloc
unfolding binder_alloc_set_vma
binder_alloc_vma_close a = binder_alloc_set_vma none a

abbrev pub sz_4m : ℕ
sz_4m = 4 * 2 ^ 20

-- What the kernel answers to one mapping: the page array, the buffer's struct, and PAGE_SIZE.
pub record MapAnswers : Type 0 where
  pub kcalloc : Option ℕ
  pub kzalloc : Option ℕ
  pub page_size : ℕ

-- `mm_grabbed` lists the address spaces that mmgrab has counted, and `asked_pages` is the size of
-- the page array that was last asked for.
pub record MapState : Type 0 where
  pub alloc : Alloc
  pub heap : Heap
  pub mm_grabbed : List ℕ
  pub asked_pages : ℕ

module _ (balance : Tree Buffer → Tree Buffer) where
  abbrev with_tree : Alloc → Option (Tree Buffer) → Option Alloc
  with_tree a none = none
  with_tree a (some t) = some (record a { free_buffers = balance t })

  unfoldable pub binder_insert_free_buffer : Alloc → Buffer → Option Alloc
  unfolding link_free binder_alloc_buffer_size
  binder_insert_free_buffer a new =
      if new.free
      then with_tree a (link_free (binder_alloc_buffer_size a) new a.free_buffers)
      else none

  -- The part behind the two allocations.
  pub map_buffer : ℕ → Vma → MapState → Option (Ret × MapState)
  map_buffer at vma s =
      let b : Buffer = record { addr = at; user_data = s.alloc.buffer; free = true } in
      let listed = record s.alloc { buffers = b ∷ s.alloc.buffers } in
      elim (binder_insert_free_buffer listed b) [
        | none ↦ none
        | some a ↦ some (
          zero_ret,
          record s {
            alloc =
                binder_alloc_set_vma (some vma) (record a { free_async_space = a.buffer_size / 2 });
            mm_grabbed = vma.vm_mm ∷ s.mm_grabbed;
          },
        )
      ]

  -- The labels of the error path, from the one for the page array on.
  pub undo_pages : MapState → Ret × MapState
  undo_pages s = (err e_nomem, record s { alloc = record s.alloc { buffer = 0; buffer_size = 0 } })

  pub map_struct : MapAnswers → Vma → ℕ → MapState → Option (Ret × MapState)
  map_struct k vma pages s = elim k.kzalloc [
    | none ↦ some (
        undo_pages
          (record s { alloc = record s.alloc { pages = none }; heap = kfree pages s.heap }))
    | some at ↦ map_buffer at vma (record s { heap = kmalloc_at at s.heap })
  ]

  pub map_pages : MapAnswers → Vma → MapState → Option (Ret × MapState)
  map_pages k vma s = elim k.kcalloc [
    | none ↦ some (undo_pages (record s { alloc = record s.alloc { pages = none } }))
    | some p ↦
        map_struct k vma p
          (record s { alloc = record s.alloc { pages = some p }; heap = kmalloc_at p s.heap })
  ]

  unfoldable pub binder_alloc_mmap_handler : MapAnswers → Vma → MapState → Option (Ret × MapState)
  binder_alloc_mmap_handler k vma s =
      let size = min (sub64 vma.vm_end vma.vm_start) sz_4m in
      if s.alloc.buffer_size == 0
      then map_pages k vma (record s {
        alloc = record s.alloc { buffer_size = size; buffer = vma.vm_start };
        asked_pages = size / k.page_size;
      })
      else some (err e_busy, s)
