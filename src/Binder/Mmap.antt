-- ===== src/Binder/Mmap.antt =====
-- binder_mmap of common/drivers/staging/binder/binder.c, and the operations of the area that it maps.
pub mod Laws
use droid_kernal.Prelude.{ℕ, Bool, true, false, Option, none, some, ◌==◌, if◌then◌else◌}
use droid_kernal.Binder.Types.{Ret, err, e_inval, e_perm}
use droid_kernal.Binder.Tree.{Tree}
use droid_kernal.Binder.Alloc.{
  Buffer, Vma, Alloc, MapAnswers, MapState, binder_alloc_mmap_handler, binder_alloc_vma_close,
}

-- struct vm_area_struct, with the bits of `vm_flags` that are read or set. `has_ops` says that vm_ops is
-- binder_vm_ops, and `private_pid` is the id of the process that vm_private_data points to.
pub record Area : Type 0 where
  pub vma : Vma
  pub vm_write : Bool
  pub vm_maywrite : Bool
  pub vm_dontcopy : Bool
  pub vm_mixedmap : Bool
  pub has_ops : Bool
  pub private_pid : Option ℕ

-- The flags and the operations that a mapping is given.
unfoldable pub prepare_area : ℕ → Area → Area
prepare_area pid area = record area {
  vm_dontcopy = true;
  vm_mixedmap = true;
  vm_maywrite = false;
  has_ops = true;
  private_pid = some pid;
}

unfoldable pub binder_vma_open : MapState → MapState
binder_vma_open s = s

unfoldable pub binder_vma_close : MapState → MapState
unfolding binder_alloc_vma_close
binder_vma_close s = record s { alloc = binder_alloc_vma_close s.alloc }

-- VM_FAULT_SIGBUS
pub data FaultAnswer : Type 0 where
  vm_fault_sigbus : FaultAnswer

-- No page is ever put in by a fault.
unfoldable pub binder_vm_fault : ℕ → FaultAnswer
binder_vm_fault at = vm_fault_sigbus

abbrev pub with_area : Area → Option (Ret × MapState) → Option (Ret × Area × MapState)
with_area area none = none
with_area area (some (r, s)) = some (r, area, s)

-- `tsk` is the leader that opened the file and `leader` the current one; `none` is a BUG.
module _ (balance : Tree Buffer → Tree Buffer) where
  unfoldable pub binder_mmap : ℕ → ℕ → MapAnswers → Area → MapState → Option (Ret × Area × MapState)
  unfolding prepare_area
  binder_mmap tsk leader k area s =
      if tsk == leader
      then (if area.vm_write
          then some (err e_perm, area, s)
          else with_area (prepare_area s.alloc.pid area)
              (binder_alloc_mmap_handler balance k area.vma s))
      else some (err e_inval, area, s)
