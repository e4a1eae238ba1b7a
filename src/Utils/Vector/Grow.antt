-- ===== src/Utils/Vector/Grow.antt =====
-- VectorImpl.cpp: _grow, insertAt, push and setCapacity.
use droid_kernal.Prelude.{
  ℕ, ◌+◌, ◌-◌, ◌/◌, Bool, true, false, Option, none, some, ◌==◌, ltb, leb, ◌&&◌, if◌then◌else◌,
}
use droid_kernal.Utils.SharedBuffer.{Memory, Answers, alloc, edit_resize}
use droid_kernal.Utils.Vector.{
  Vector, min_vector_capacity, max, add64, mul64, copy_slots, fill_slots, do_move_forward,
  with_data, capacity, release_storage, edit_array_impl,
}

-- The status of a call, or the index that it returns.
pub data Status : Type 0 where
  index_is : ℕ → Status
  bad_index no_memory bad_value : Status

abbrev pub new_capacity : ℕ → ℕ
new_capacity new_size = max min_vector_capacity (add64 new_size (new_size / 2))

-- Whether items are last and can be moved as bytes, so that realloc may do it.
abbrev pub in_place : Bool → Vector → Bool
in_place last v = last && (v.m_flags.has_trivial_copy && v.m_flags.has_trivial_dtor)

-- The items of the vector's buffer.
abbrev pub items_of {ℓ} : {A : Type ℓ} → Vector → Memory A → ℕ → Option A
items_of v mem k = elim v.m_storage [ none ↦ none | some at ↦ (mem at).slots k ]

-- What _grow gives: whether its pointer is not null, and the state.
abbrev pub Grown {ℓ} : Type ℓ → Type ℓ
Grown A = Bool × Vector × Memory A

module _ {ℓ} {A : Type ℓ} where
  -- The items from `at_index` on move up in their buffer.
  unfoldable pub open_gap : ℕ → ℕ → Vector → Memory A → Memory A
  unfolding do_move_forward
  open_gap at_index amount v mem = elim v.m_storage [
    | none ↦ mem
    | some at ↦
        if v.m_count == at_index
        then mem
        else with_data at
            (do_move_forward v.m_flags (at_index + amount) at_index (v.m_count - at_index)
              (mem at).slots)
            mem
  ]

  -- The count is set, and the pointer is itemLocation of the gap.
  abbrev pub finish_grow : ℕ → ℕ → Vector → Memory A → Grown A
  finish_grow new_size at_index v mem =
      (ltb at_index (capacity v mem), record v { m_count = new_size }, mem)

  abbrev pub after_storage : ℕ → ℕ → Vector → Memory A → Option (Vector × Memory A) → Grown A
  after_storage new_size at_index v mem none = (false, v, mem)
  after_storage new_size at_index v mem (some (v', m)) = finish_grow new_size at_index v' m

  abbrev pub after_edit : ℕ → ℕ → ℕ → Option (Vector × Memory A) → Option (Grown A)
  after_edit new_size at_index amount none = none
  after_edit new_size at_index amount (some (v, m)) =
      some (finish_grow new_size at_index v (open_gap at_index amount v m))

  -- _do_splat, or _do_construct without an item, where `fresh` is what a constructor makes.
  unfoldable pub fill_gap : A → Option A → ℕ → ℕ → Vector → Memory A → Memory A
  fill_gap fresh item at_index num v mem = elim v.m_storage [
    | none ↦ mem
    | some at ↦ elim item [
      | some x ↦ with_data at (fill_slots (some x) at_index num (mem at).slots) mem
      | none ↦
          if v.m_flags.has_trivial_ctor
          then mem
          else with_data at (fill_slots (some fresh) at_index num (mem at).slots) mem
    ]
  ]

  abbrev pub after_grow :
      A → Option A → ℕ → ℕ → Option (Grown A) → Option (Status × Vector × Memory A)
  after_grow fresh item index num none = none
  after_grow fresh item index num (some (false, v, m)) = some (no_memory, v, m)
  after_grow fresh item index num (some (true, v, m)) =
      some (index_is index, v, fill_gap fresh item index num v m)

module _ {ℓ} {A : Type ℓ} (k : Answers) where
  -- A new buffer with a gap of `amount` slots at `at_index`; `none` is a null pointer.
  unfoldable pub grow_copy : ℕ → ℕ → ℕ → Vector → Memory A → Option (Vector × Memory A)
  unfolding alloc release_storage
  grow_copy size at_index amount v mem =
      let (sb, made) = alloc k.malloc size mem in
      elim sb [
        | none ↦ none
        | some to ↦
            (let front = copy_slots (items_of v mem) 0 0 at_index (made to).slots in
              let back =
                copy_slots (items_of v mem) at_index (at_index + amount) (v.m_count - at_index)
                  front in
              some (record v { m_storage = some to }, release_storage v (with_data to back made)))
      ]

  unfoldable pub grow_storage : ℕ → ℕ → ℕ → Vector → Memory A → Option (Vector × Memory A)
  unfolding grow_copy edit_resize
  grow_storage size at_index amount v mem = elim v.m_storage [
    | none ↦ grow_copy size at_index amount v mem
    | some at ↦
        if in_place (v.m_count == at_index) v
        then (let (sb, m) = edit_resize k v.m_item_size size at mem in
            elim sb [ none ↦ none | some to ↦ some (record v { m_storage = some to }, m) ])
        else grow_copy size at_index amount v mem
  ]

  -- VectorImpl::_grow; the assertions are messages, and the sizes wrap. `none` is a copy to a null
  -- address.
  unfoldable pub grow : ℕ → ℕ → Vector → Memory A → Option (Grown A)
  unfolding capacity grow_storage edit_array_impl
  grow at_index amount v mem =
      let new_size = add64 v.m_count amount in
      if ltb (capacity v mem) new_size
      then some (
          after_storage new_size at_index v mem
            (grow_storage (mul64 (new_capacity new_size) v.m_item_size) at_index amount v mem))
      else after_edit new_size at_index amount (edit_array_impl k v mem)

  -- VectorImpl::insertAt of an item that does not lie in the vector itself.
  unfoldable pub insert_at :
      A → Option A → ℕ → ℕ → Vector → Memory A → Option (Status × Vector × Memory A)
  unfolding grow fill_gap
  insert_at fresh item index num v mem =
      if ltb v.m_count index
      then some (bad_index, v, mem)
      else after_grow fresh item index num (grow index num v mem)

  -- VectorImpl::push
  unfoldable pub push : A → Option A → Vector → Memory A → Option (Status × Vector × Memory A)
  unfolding insert_at
  push fresh item v mem = insert_at fresh item v.m_count 1 v mem

  -- VectorImpl::setCapacity
  unfoldable pub set_capacity : ℕ → Vector → Memory A → Status × Vector × Memory A
  unfolding capacity grow_copy
  set_capacity new v mem =
      if leb new v.m_count
      then (index_is (capacity v mem), v, mem)
      else elim (grow_copy (mul64 new v.m_item_size) v.m_count 0 v mem) [
        | none ↦ (no_memory, v, mem)
        | some (v', m) ↦ (index_is new, v', m)
      ]
