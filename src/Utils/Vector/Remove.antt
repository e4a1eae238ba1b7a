-- ===== src/Utils/Vector/Remove.antt =====
-- removeItemsAt of VectorImpl.cpp.
use droid_kernal.Prelude.{ℕ, suc, ◌+◌, ◌/◌, ◌^◌, ◌≤◌, ◌<◌, ◌≡◌, refl, false, some, arith}
use droid_kernal.Utils.SharedBuffer.{Memory, Answers, only_owner}
use droid_kernal.Utils.Vector.{
  Vector, use_trivial_move, with_data, capacity, do_destroy, do_move_forward, edit_array_impl,
}
use droid_kernal.Utils.Vector.Grow.{index_is, items_of}
use droid_kernal.Utils.Vector.Shrink.{close_gap, shrink_buffer, shrink, remove_items_at}
use droid_kernal.Utils.Vector.Moves.{do_move_forward-down}

module _ {A : Type 0} (k : Answers) (v : Vector) (mem : Memory A) (at index n : ℕ) where
  -- A vector of a type that is not moved as bytes has a buffer of its own that is at least half full
  -- after one item is removed, with one item or more behind it. Then the removal puts the last
  -- item of the vector, not the next one, in the place of the removed item.
  pub remove_items_at_last :
      v.m_storage ≡ some at
      → (mem at).m_refs ≡ 1
      → use_trivial_move v.m_flags ≡ false
      → v.m_count ≡ suc (suc index + n)
      → v.m_count < 2 ^ 63
      → capacity v mem / 2 ≤ suc index + n
      → (v' : Vector) × (m' : Memory A) × (remove_items_at k index 1 v mem
          ≡ some (index_is index, v', m'))
        × (v'.m_count ≡ suc index + n)
        × (items_of v' m' index ≡ items_of v mem (suc index + n))
  unfolding remove_items_at shrink shrink_buffer edit_array_impl only_owner close_gap do_destroy
  remove_items_at_last e own moves count small half =
      let destroyed = do_destroy v.m_flags index 1 (mem at).slots in
      let slots = do_move_forward v.m_flags index (suc index) (suc n) destroyed in
      let moved : slots index ≡ destroyed (suc index + n) =
        do_move_forward-down v.m_flags index n destroyed moves in
      let kept : destroyed (suc index + n) ≡ (mem at).slots (suc index + n) = ground arith in
      (
        record v { m_count = suc index + n },
        with_data at slots mem,
        ground arith,
        refl,
        ground (arith, moved, kept),
      )
