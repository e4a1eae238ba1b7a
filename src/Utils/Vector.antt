-- ===== src/Utils/Vector.antt =====
-- VectorImpl.cpp of system/core/libutils with VectorImpl.h, and the copies that Vector.h and TypeHelpers.h
-- give it.
pub mod Grow
pub mod Shrink
pub mod Moves
pub mod Gap
pub mod Resize
pub mod Room
pub mod Insert
pub mod Remove
pub mod Search
use droid_kernal.Prelude.{
  ℕ, zero, suc, ◌+◌, ◌-◌, ◌*◌, ◌/◌, ◌%◌, ◌^◌, Bool, true, false, not, Option, none, some, ◌==◌, ltb,
  leb, ◌&&◌, ◌||◌, if◌then◌else◌,
}
use droid_kernal.Utils.SharedBuffer.{
  SharedBuffer, Memory, Answers, put, no_items, alloc, dealloc, only_owner, release, edit_resize,
}

-- The traits of the type of the items.
pub record Traits : Type 0 where
  pub has_trivial_ctor : Bool
  pub has_trivial_dtor : Bool
  pub has_trivial_copy : Bool
  pub has_trivial_move : Bool

-- use_trivial_move
abbrev pub use_trivial_move : Traits → Bool
use_trivial_move t = (t.has_trivial_dtor && t.has_trivial_ctor) || t.has_trivial_move

-- VectorImpl; `m_storage` is the address of the data of its buffer.
pub record Vector : Type 0 where
  pub m_storage : Option ℕ
  pub m_count : ℕ
  pub m_flags : Traits
  pub m_item_size : ℕ

-- kMinVectorCapacity
abbrev pub min_vector_capacity : ℕ
min_vector_capacity = 4

abbrev pub max : ℕ → ℕ → ℕ
max a b = if ltb b a then a else b

abbrev pub add64 : ℕ → ℕ → ℕ
add64 a b = (a + b) % 2 ^ 64

abbrev pub mul64 : ℕ → ℕ → ℕ
mul64 a b = (a * b) % 2 ^ 64

-- VectorImpl::VectorImpl
abbrev pub new_vector : ℕ → Traits → Vector
new_vector item_size flags = record {
  m_storage = none;
  m_count = 0;
  m_flags = flags;
  m_item_size = item_size;
}

module _ {ℓ} {A : Type ℓ} where
  -- `num` slots from `from` on, copied to `dest` and on; the rest is as it was.
  abbrev pub copy_slots : (ℕ → Option A) → ℕ → ℕ → ℕ → (ℕ → Option A) → ℕ → Option A
  copy_slots src from dest num slots k =
      if leb dest k && ltb k (dest + num) then src (from + (k - dest)) else slots k

  abbrev pub fill_slots : Option A → ℕ → ℕ → (ℕ → Option A) → ℕ → Option A
  fill_slots item dest num slots k = if leb dest k && ltb k (dest + num) then item else slots k

  abbrev put_slot : ℕ → Option A → (ℕ → Option A) → ℕ → Option A
  put_slot i x slots k = if k == i then x else slots k

  -- The loop of move_forward_type from the last item on, which destroys each item that it has copied.
  unfoldable pub move_loop : Traits → ℕ → ℕ → ℕ → (ℕ → Option A) → ℕ → Option A
  move_loop t d s zero slots = slots
  move_loop t d s (suc n) slots =
      let copied = put_slot (d + n) (slots (s + n)) slots in
      move_loop t d s n (if t.has_trivial_dtor then copied else put_slot (s + n) none copied)

  -- _do_move_forward with move_forward_type: memmove, or the loop.
  unfoldable pub do_move_forward : Traits → ℕ → ℕ → ℕ → (ℕ → Option A) → ℕ → Option A
  unfolding move_loop
  do_move_forward t d s n slots =
      if use_trivial_move t then copy_slots slots s d n slots else move_loop t d s n slots

  -- _do_destroy
  unfoldable pub do_destroy : Traits → ℕ → ℕ → (ℕ → Option A) → ℕ → Option A
  do_destroy t at num slots = if t.has_trivial_dtor then slots else fill_slots none at num slots

  abbrev pub with_data : ℕ → (ℕ → Option A) → Memory A → Memory A
  with_data at slots mem = put at (record (mem at) { slots = slots }) mem

  unfoldable pub capacity : Vector → Memory A → ℕ
  capacity v mem = elim v.m_storage [ none ↦ 0 | some at ↦ (mem at).m_size / v.m_item_size ]

  unfoldable pub release_storage : Vector → Memory A → Memory A
  unfolding release dealloc do_destroy
  release_storage v mem = elim v.m_storage [
    | none ↦ mem
    | some at ↦
        (let (prev, m) = release true at mem in
          if prev == 1
          then dealloc at (with_data at (do_destroy v.m_flags 0 v.m_count (m at).slots) m)
          else m)
  ]

  -- The copy of a buffer that has another owner; without memory for it, the copy goes to a null
  -- address.
  pub edit_copy : Answers → ℕ → Vector → Memory A → Option (Vector × Memory A)
  unfolding alloc release_storage
  edit_copy k at v mem =
      let (editable, made) = alloc k.malloc (mem at).m_size mem in
      elim editable [
        | none ↦ none
        | some to ↦ some (
          record v { m_storage = some to },
          release_storage v
              (with_data to (copy_slots (mem at).slots 0 0 v.m_count (made to).slots) made),
        )
      ]

  -- VectorImpl::editArrayImpl
  unfoldable pub edit_array_impl : Answers → Vector → Memory A → Option (Vector × Memory A)
  unfolding only_owner edit_copy
  edit_array_impl k v mem = elim v.m_storage [
    | none ↦ some (v, mem)
    | some at ↦ if only_owner at mem then some (v, mem) else edit_copy k at v mem
  ]

  -- VectorImpl::editItemLocation: the place of the first item, whatever the index is.
  unfoldable pub edit_item_location :
      Answers → ℕ → Vector → Memory A → Option (Option ℕ × Vector × Memory A)
  unfolding edit_array_impl
  edit_item_location k index v mem = elim (edit_array_impl k v mem) [
    | none ↦ none
    | some (u, after) ↦ some (u.m_storage, u, after)
  ]
