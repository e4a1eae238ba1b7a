-- ===== src/Binder/Alloc/Mapping.antt =====
-- binder_alloc_mmap_handler of binder_alloc.c: a mapping that succeeds, and what one that fails leaves.
use droid_kernal.Prelude.{
  ℕ, ◌-◌, ◌/◌, ◌^◌, ◌<◌, ◌≡◌, ◌≢◌, ◌⊎◌, inl, inr, min, refl, true, none, some, [], ◌∷◌, arith,
  Option-cases, ◌==◌, ne→==, if_false,
}
use droid_kernal.Prelude.Heap.{kmalloc_at, kfree-kmalloc_at}
use droid_kernal.Binder.Types.{zero_ret, err, e_busy, e_nomem}
use droid_kernal.Binder.Tree.{Tree, leaf, branch, to_list, KeepsOrder}
use droid_kernal.Binder.Alloc.{
  Buffer, Vma, Alloc, MapAnswers, MapState, sz_4m, sub64, binder_alloc_buffer_size,
  binder_buffer_next, binder_alloc_set_vma, binder_insert_free_buffer, map_buffer, map_struct,
  map_pages, undo_pages, binder_alloc_mmap_handler, binder_alloc_vma_close,
}

-- Nothing is mapped.
pub record Unmapped (a : Alloc) : Type 0 where
  pub no_size : a.buffer_size ≡ 0
  pub no_buffers : a.buffers ≡ []
  pub no_free : a.free_buffers ≡ leaf

-- The region is mapped up to its first 4 megabytes, and one free buffer, in the list and in the tree,
-- has all of it.
pub record Mapped (vma : Vma) (a : Alloc) : Type 0 where
  pub buffer : Buffer
  pub size_is : a.buffer_size ≡ min (vma.vm_end - vma.vm_start) sz_4m
  pub at_start : a.buffer ≡ vma.vm_start
  pub listed : a.buffers ≡ buffer ∷ []
  pub in_tree : to_list a.free_buffers ≡ buffer ∷ []
  pub is_free : buffer.free ≡ true
  pub from_start : buffer.user_data ≡ vma.vm_start
  pub has_all : binder_alloc_buffer_size a buffer ≡ a.buffer_size
  pub async_half : a.free_async_space ≡ a.buffer_size / 2
  pub vma_is : a.vma ≡ some vma
  pub mm_is : a.vma_vm_mm ≡ some vma.vm_mm

-- A mapped region is not empty.
pub Mapped-ne :
    (vma : Vma) (a : Alloc) → Mapped vma a → vma.vm_start < vma.vm_end → a.buffer_size ≢ 0
Mapped-ne vma a m up e = omega (arith, m.size_is, up)

module _ (balance : Tree Buffer → Tree Buffer) (keeps : KeepsOrder balance) where
  -- The first mapping of a region, with memory for the pages and for a buffer, succeeds: one free
  -- buffer has all of the region up to 4 megabytes, half of that may be taken by asynchronous calls,
  -- a page entry was asked for each page, and the address space is counted once.
  pub binder_alloc_mmap_handler-Mapped :
      (k : MapAnswers) (vma : Vma) (s : MapState) (p at : ℕ)
      → Unmapped s.alloc
      → vma.vm_start < vma.vm_end
      → vma.vm_end < 2 ^ 64
      → k.kcalloc ≡ some p
      → k.kzalloc ≡ some at
      → (s' : MapState) × (binder_alloc_mmap_handler balance k vma s ≡ some (zero_ret, s'))
        × Mapped vma s'.alloc
        × (s'.alloc.pages ≡ some p)
        × (s'.asked_pages ≡ s'.alloc.buffer_size / k.page_size)
        × (s'.heap ≡ kmalloc_at at (kmalloc_at p s.heap))
        × (s'.mm_grabbed ≡ vma.vm_mm ∷ s.mm_grabbed)
  unfolding binder_alloc_mmap_handler map_pages map_struct map_buffer binder_insert_free_buffer
      binder_alloc_set_vma binder_buffer_next
  binder_alloc_mmap_handler-Mapped k vma s p at un up top pages struct =
      let size = min (sub64 vma.vm_end vma.vm_start) sz_4m in
      let b : Buffer = record { addr = at; user_data = vma.vm_start; free = true } in
      let s' : MapState = record {
        alloc = record s.alloc {
          vma = some vma;
          vma_vm_mm = some vma.vm_mm;
          buffer = vma.vm_start;
          buffers = b ∷ [];
          free_buffers = balance (branch leaf b leaf);
          free_async_space = size / 2;
          pages = some p;
          buffer_size = size;
        };
        heap = kmalloc_at at (kmalloc_at p s.heap);
        mm_grabbed = vma.vm_mm ∷ s.mm_grabbed;
        asked_pages = size / k.page_size;
      } in
      (
        s',
        ground arith,
        record {
          buffer = b;
          size_is = omega arith;
          at_start = refl;
          listed = refl;
          in_tree = keeps (branch leaf b leaf);
          is_free = refl;
          from_start = refl;
          has_all = ground arith;
          async_half = refl;
          vma_is = refl;
          mm_is = refl;
        },
        refl,
        refl,
        refl,
        refl,
      )

  mmap_nomem :
      (k : MapAnswers) (vma : Vma) (s : MapState)
      → s.alloc.buffer_size ≡ 0
      → (k.kcalloc ≡ none) ⊎ (k.kzalloc ≡ none)
      → (s' : MapState) × (binder_alloc_mmap_handler balance k vma s ≡ some (err e_nomem, s'))
        × (s'.alloc ≡ record s.alloc { buffer = 0; buffer_size = 0; pages = none })
        × (s'.heap ≡ s.heap)
        × (s'.mm_grabbed ≡ s.mm_grabbed)
  unfolding binder_alloc_mmap_handler map_pages map_struct undo_pages
  mmap_nomem k vma s free lack =
      let s' : MapState = record s {
        alloc = record s.alloc { buffer = 0; buffer_size = 0; pages = none };
        asked_pages = min (sub64 vma.vm_end vma.vm_start) sz_4m / k.page_size;
      } in
      elim (Option-cases k.kcalloc) [
        | inl e ↦ (s', ground arith, refl, refl, refl)
        | inr (p, e) ↦ elim lack [
          | inl e' ↦ absurd (cc)
          | inr e' ↦ (s', ground (arith, kfree-kmalloc_at p s.heap), refl, refl, refl)
        ]
      ]

  -- Where a region is mapped already, also one that was unmapped since, the call fails as busy and
  -- changes nothing. Where there is no memory for the pages or for the buffer, it fails for that,
  -- the heap is as before and nothing is mapped, so that it may be tried again.
  pub binder_alloc_mmap_handler_err :
      (k : MapAnswers) (vma : Vma) (s : MapState)
      → (s.alloc.buffer_size ≢ 0 → binder_alloc_mmap_handler balance k vma s ≡ some (err e_busy, s))
        × ((old : Vma) (a : Alloc)
            → Mapped old a
            → old.vm_start < old.vm_end
            → let closed = record s { alloc = binder_alloc_vma_close a } in
              binder_alloc_mmap_handler balance k vma closed ≡ some (err e_busy, closed))
        × (s.alloc.buffer_size ≡ 0
            → (k.kcalloc ≡ none) ⊎ (k.kzalloc ≡ none)
            → (s' : MapState) × (binder_alloc_mmap_handler balance k vma s ≡ some (err e_nomem, s'))
              × (s'.alloc ≡ record s.alloc { buffer = 0; buffer_size = 0; pages = none })
              × (s'.heap ≡ s.heap)
              × (s'.mm_grabbed ≡ s.mm_grabbed))
  unfolding binder_alloc_mmap_handler binder_alloc_vma_close
  binder_alloc_mmap_handler_err k vma s = (
    (λ mapped. ground arith),
    (λ old a m up.
        if_false (a.buffer_size == 0) _ _ (ne→== a.buffer_size 0 (Mapped-ne old a m up))),
    λ free lack. mmap_nomem k vma s free lack,
  )
