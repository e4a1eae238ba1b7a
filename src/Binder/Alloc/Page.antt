-- ===== src/Binder/Alloc/Page.antt =====
-- The reclaim of a page that no buffer uses, binder_alloc_free_page of binder_alloc.c, and the
-- shrinker that calls it.
use droid_kernal.Prelude.{
  ℕ, ◌+◌, ◌-◌, ◌*◌, ◌%◌, ◌^◌, ◌≡◌, ◌≢◌, Bool, true, false, Option, none, some, List, ◌∷◌, ◌==◌,
  if◌then◌else◌,
}
use droid_kernal.Binder.Types.{Ret, zero_ret, err, Errno}
use droid_kernal.Binder.Alloc.{Alloc, Vma, binder_alloc_get_vma}

pub data LruStatus : Type 0 where
  lru_removed_retry lru_skip : LruStatus

-- A page entry with the locks and counts round it: whether alloc->mutex is held, whether the lock of
-- the LRU list is, the users of the address space and the readers of its lock. `freed` and `zapped`
-- list the pages that were freed and the addresses that were unmapped, the latest first.
pub record PageState : Type 0 where
  pub page_ptr : Option ℕ
  pub on_lru : Bool
  pub mutex_held : Bool
  pub lru_locked : Bool
  pub mm_users : ℕ
  pub mmap_readers : ℕ
  pub freed : List ℕ
  pub zapped : List ℕ

mutex_unlock : PageState → PageState
mutex_unlock s = record s { mutex_held = false }

mmput_async : PageState → PageState
mmput_async s = record s { mm_users = s.mm_users - 1 }

abbrev zap : Option Vma → ℕ → List ℕ → List ℕ
zap none at done = done
zap (some v) at done = at ∷ done

abbrev pub page_addr : ℕ → Alloc → ℕ → ℕ
page_addr page_size a index = (a.buffer + index * page_size) % 2 ^ 64

-- With all locks: off the list, unmapped and freed.
pub reclaim : ℕ → Alloc → ℕ → ℕ → PageState → LruStatus × PageState
unfolding mutex_unlock mmput_async binder_alloc_get_vma
reclaim page_size a index ptr s =
    let locked = record s { mmap_readers = s.mmap_readers + 1 } in
    let isolated = record locked { on_lru = false; lru_locked = false } in
    let gone = record isolated {
      zapped = zap (binder_alloc_get_vma a) (page_addr page_size a index) isolated.zapped;
    } in
    let put = mmput_async (record gone { mmap_readers = gone.mmap_readers - 1 }) in
    let free = record put { freed = ptr ∷ put.freed; page_ptr = none } in
    (lru_removed_retry, mutex_unlock (record free { lru_locked = true }))

-- `index` is the place of the page in alloc->pages, and `read_ok` whether the lock of the address
-- space can be had.
pub free_locked : ℕ → Alloc → ℕ → Bool → PageState → LruStatus × PageState
unfolding mutex_unlock mmput_async
free_locked page_size a index read_ok s = elim s.page_ptr [
  | none ↦ (lru_skip, mutex_unlock s)
  | some ptr ↦
      let held = record s { mm_users = s.mm_users + 1 } in
      if s.mm_users == 0
      then (lru_skip, mutex_unlock s)
      else if read_ok
      then reclaim page_size a index ptr held
      else (lru_skip, mutex_unlock (mmput_async held))
]

unfoldable pub binder_alloc_free_page : ℕ → Alloc → ℕ → Bool → PageState → LruStatus × PageState
binder_alloc_free_page page_size a index read_ok s =
    if s.mutex_held
    then (lru_skip, s)
    else free_locked page_size a index read_ok (record s { mutex_held = true })

-- An entry of the LRU list: the address space and the place of its page, and whether the lock of the
-- address space can be had when it comes to it.
pub record LruItem : Type 0 where
  pub alloc : Alloc
  pub index : ℕ
  pub read_ok : Bool

-- `list_lru_walk` is the kernel's: it calls its first argument on entries of the list, up to the number.
pub binder_shrink_scan :
    {S : Type 0}
    → ((LruItem → PageState → LruStatus × PageState) → ℕ → S → ℕ × S)
    → ℕ
    → ℕ
    → S
    → ℕ × S
unfolding binder_alloc_free_page
binder_shrink_scan list_lru_walk page_size nr_to_scan s =
    list_lru_walk (λ item. binder_alloc_free_page page_size item.alloc item.index item.read_ok)
      nr_to_scan s

-- binder_shrink_count logs the count and returns the constant SHRINK_EMPTY.
pub binder_shrink_count : ℕ → ℕ → ℕ
binder_shrink_count shrink_empty count = shrink_empty

-- Whether the LRU list is set up and the shrinker registered.
pub record Shrinker : Type 0 where
  pub lru_ready : Bool
  pub registered : Bool

abbrev answer : Option Errno → Ret
answer none = zero_ret
answer (some e) = err e

-- The arguments are the errors of list_lru_init and register_shrinker, none where they succeed.
unfoldable pub binder_alloc_shrinker_init : Option Errno → Option Errno → Shrinker → Ret × Shrinker
binder_alloc_shrinker_init none none s = (zero_ret, record { lru_ready = true; registered = true })
binder_alloc_shrinker_init none (some e) s = (err e, record s { lru_ready = false })
binder_alloc_shrinker_init (some e) register s = (err e, s)

unfoldable pub binder_alloc_exit : Shrinker → Shrinker
binder_alloc_exit s = record { lru_ready = false; registered = false }

-- What it takes to reclaim the page `ptr`.
pub record CanReclaim (ptr : ℕ) (read_ok : Bool) (s : PageState) : Type 0 where
  pub mutex_free : s.mutex_held ≡ false
  pub has_page : s.page_ptr ≡ some ptr
  pub users_left : s.mm_users ≢ 0
  pub lock_free : read_ok ≡ true
