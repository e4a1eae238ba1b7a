-- ===== src/Utils/Vector/Shrink.antt =====
-- VectorImpl.cpp: _shrink, removeItemsAt and clear.
use droid_kernal.Prelude.{ℕ, ◌+◌, ◌-◌, ◌/◌, ◌%◌, ◌^◌, Option, none, some, ◌==◌, ltb, if◌then◌else◌}
use droid_kernal.Utils.SharedBuffer.{Memory, Answers, alloc, edit_resize}
use droid_kernal.Utils.Vector.{
  Vector, min_vector_capacity, max, add64, mul64, copy_slots, do_move_forward, do_destroy,
  with_data, capacity, release_storage, edit_array_impl,
}
use droid_kernal.Utils.Vector.Grow.{Status, index_is, bad_value, items_of, in_place}

module _ {ℓ} {A : Type ℓ} where
  -- The items are destroyed and those behind them move down in their buffer.
  unfoldable pub close_gap : ℕ → ℕ → ℕ → Vector → Memory A → Memory A
  unfolding do_move_forward do_destroy
  close_gap new_size at_index amount v mem = elim v.m_storage [
    | none ↦ mem
    | some at ↦
        (let destroyed = do_destroy v.m_flags at_index amount (mem at).slots in
          with_data at
            (if at_index == new_size
              then destroyed
              else do_move_forward v.m_flags at_index (at_index + amount) (new_size - at_index)
                  destroyed)
            mem)
  ]

  abbrev pub shrunk : ℕ → Vector → Memory A → Option (Vector × Memory A) → Vector × Memory A
  shrunk new_size v mem none = (v, mem)
  shrunk new_size v mem (some (v', m)) = (record v' { m_count = new_size }, m)

  abbrev pub edited : ℕ → ℕ → ℕ → Option (Vector × Memory A) → Option (Vector × Memory A)
  edited new_size at_index amount none = none
  edited new_size at_index amount (some (v, m)) =
      some (record v { m_count = new_size }, close_gap new_size at_index amount v m)

  abbrev returns : ℕ → Option (Vector × Memory A) → Option (Status × Vector × Memory A)
  returns index none = none
  returns index (some (v, m)) = some (index_is index, v, m)

module _ {ℓ} {A : Type ℓ} (k : Answers) where
  -- A new buffer without the `amount` items from `at_index` on.
  unfoldable pub shrink_copy : ℕ → ℕ → ℕ → ℕ → Vector → Memory A → Option (Vector × Memory A)
  unfolding alloc release_storage
  shrink_copy size new_size at_index amount v mem =
      let (sb, made) = alloc k.malloc size mem in
      elim sb [
        | none ↦ none
        | some to ↦
            (let front = copy_slots (items_of v mem) 0 0 at_index (made to).slots in
              let back =
                copy_slots (items_of v mem) (at_index + amount) at_index (new_size - at_index)
                  front in
              some (record v { m_storage = some to }, release_storage v (with_data to back made)))
      ]

  -- The smaller buffer; `none` leaves the vector as it is.
  unfoldable pub shrink_storage : ℕ → ℕ → ℕ → ℕ → ℕ → Vector → Memory A → Option (Vector × Memory A)
  unfolding shrink_copy edit_resize
  shrink_storage size new_size at_index amount at v mem =
      if in_place (at_index == new_size) v
      then (let (sb, m) = edit_resize k v.m_item_size size at mem in
          elim sb [ none ↦ none | some to ↦ some (record v { m_storage = some to }, m) ])
      else shrink_copy size new_size at_index amount v mem

  -- With the buffer at `at`. The difference of the counts wraps.
  unfoldable pub shrink_buffer : ℕ → ℕ → ℕ → Vector → Memory A → Option (Vector × Memory A)
  unfolding capacity shrink_storage edit_array_impl
  shrink_buffer at at_index amount v mem =
      let new_size = (v.m_count + 2 ^ 64 - amount) % 2 ^ 64 in
      let size = mul64 (max min_vector_capacity (mul64 new_size 2)) v.m_item_size in
      if ltb new_size (capacity v mem / 2)
      then some (shrunk new_size v mem (shrink_storage size new_size at_index amount at v mem))
      else edited new_size at_index amount (edit_array_impl k v mem)

  -- VectorImpl::_shrink; `none` is a copy to a null address.
  unfoldable pub shrink : ℕ → ℕ → Vector → Memory A → Option (Vector × Memory A)
  unfolding shrink_buffer
  shrink at_index amount v mem = elim v.m_storage [
    | none ↦ some (v, mem)
    | some at ↦ shrink_buffer at at_index amount v mem
  ]

  -- VectorImpl::removeItemsAt; the index is returned also where nothing was removed.
  unfoldable pub remove_items_at : ℕ → ℕ → Vector → Memory A → Option (Status × Vector × Memory A)
  unfolding shrink
  remove_items_at index count v mem =
      if ltb v.m_count (add64 index count)
      then some (bad_value, v, mem)
      else returns index (shrink index count v mem)

  -- VectorImpl::clear
  unfoldable pub clear : Vector → Memory A → Option (Vector × Memory A)
  unfolding shrink
  clear v mem = shrink 0 v.m_count v mem
