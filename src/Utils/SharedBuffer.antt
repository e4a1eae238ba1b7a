-- ===== src/Utils/SharedBuffer.antt =====
-- SharedBuffer.cpp of system/core/libutils with SharedBuffer.h: storage that several owners share.
use droid_kernal.Prelude.{
  ℕ, suc, ◌+◌, ◌-◌, ◌*◌, ◌%◌, ◌^◌, min, Bool, false, Option, none, some, ◌==◌, leb, if◌then◌else◌,
}

-- A buffer by slots of one item each; a slot without an item is `none`. `mRefs` is 0 after the last
-- release, and `m_size` is in bytes.
pub record SharedBuffer {ℓ} (A : Type ℓ) : Type ℓ where
  pub m_refs : ℕ
  pub m_size : ℕ
  pub slots : ℕ → Option A

-- The buffers by the addresses of their data.
abbrev pub Memory {ℓ} : Type ℓ → Type ℓ
Memory A = ℕ → SharedBuffer A

-- What malloc and realloc answer to an operation, none where there is no memory.
pub record Answers : Type 0 where
  pub malloc : Option ℕ
  pub realloc : Option ℕ

module _ {ℓ} {A : Type ℓ} where
  abbrev pub put : ℕ → SharedBuffer A → Memory A → Memory A
  put at b mem k = if k == at then b else mem k

  abbrev pub no_items : ℕ → Option A
  no_items k = none

  abbrev pub new_buffer : ℕ → SharedBuffer A
  new_buffer size = record { m_refs = 1; m_size = size; slots = no_items }

  -- SharedBuffer::alloc. The assertion on the size is a message.
  unfoldable pub alloc : Option ℕ → ℕ → Memory A → Option ℕ × Memory A
  alloc none size mem = (none, mem)
  alloc (some at) size mem = (some at, put at (new_buffer size) mem)

  unfoldable pub dealloc : ℕ → Memory A → Memory A
  dealloc at mem = put at (record (mem at) { slots = no_items }) mem

  unfoldable pub only_owner : ℕ → Memory A → Bool
  only_owner at mem = (mem at).m_refs == 1

  abbrev set_refs : ℕ → ℕ → Memory A → Memory A
  set_refs at refs mem = put at (record (mem at) { m_refs = refs }) mem

  -- SharedBuffer::release, which returns the count of before; `keep` is eKeepStorage. A count is an
  -- int32_t, so a further release of a dead buffer wraps.
  unfoldable pub release : Bool → ℕ → Memory A → ℕ × Memory A
  unfolding only_owner dealloc
  release keep at mem =
      let freed = λ (m : Memory A). if keep then m else dealloc at m in
      if only_owner at mem
      then (1, freed (set_refs at 0 mem))
      else ((mem at).m_refs, set_refs at (((mem at).m_refs + 2 ^ 32 - 1) % 2 ^ 32) mem)

  -- The items that lie whole in the first bytes.
  abbrev pub first_bytes : ℕ → ℕ → (ℕ → Option A) → ℕ → Option A
  first_bytes item_size bytes slots k = if leb (suc k * item_size) bytes then slots k else none

  -- The end of editResize, for a buffer that is shared or that realloc has no memory for.
  unfoldable pub resize_copy : Answers → ℕ → ℕ → ℕ → Memory A → Option ℕ × Memory A
  resize_copy k item_size new_size at mem =
      let (sb, made) = alloc k.malloc new_size mem in
      elim sb [
        | none ↦ (none, made)
        | some to ↦ (
          some to,
          (release false at (
              put to
                (record (made to) {
                  slots = first_bytes item_size (min (mem at).m_size new_size) (mem at).slots;
                })
                made)).1,
        )
      ]

  unfoldable pub resize_own : Answers → ℕ → ℕ → ℕ → Memory A → Option ℕ × Memory A
  unfolding resize_copy dealloc
  resize_own k item_size new_size at mem =
      if (mem at).m_size == new_size then (some at, mem) else elim k.realloc [
        | none ↦ resize_copy k item_size new_size at mem
        | some to ↦ (
          some to,
          put to
              (record {
                m_refs = (mem at).m_refs;
                m_size = new_size;
                slots = first_bytes item_size (min (mem at).m_size new_size) (mem at).slots;
              })
              (dealloc at mem),
        )
      ]

  -- SharedBuffer::editResize. `realloc` keeps the bytes that both sizes have.
  unfoldable pub edit_resize : Answers → ℕ → ℕ → ℕ → Memory A → Option ℕ × Memory A
  unfolding resize_own resize_copy
  edit_resize k item_size new_size at mem =
      if only_owner at mem
      then resize_own k item_size new_size at mem
      else resize_copy k item_size new_size at mem
