-- ===== src/Parcel/Resize.antt =====
-- growData, continueWrite and setDataSize of Parcel.cpp.
use droid_kernal.Prelude.{
  ℕ, zero, suc, ◌+◌, ◌-◌, ◌/◌, ◌*◌, ◌%◌, ◌^◌, Bool, false, Option, none, some, ◌++◌, ◌==◌, ltb, leb,
  if◌then◌else◌,
}
use droid_kernal.Parcel.{
  Status, no_error, bad_value, no_memory, is_no_error, int32_max, size_max, FlatObject, Array,
  Parcel, entry, bytes_of, is_fd, nth_object, release_object, acquire_objects, tell_owner,
  free_data,
}

-- What the allocations of one operation answer, each with the address if it succeeds, and what
-- uninitialised memory holds.
pub record Answers : Type 0 where
  pub malloc : Bool
  pub malloc_at : ℕ
  pub calloc : Bool
  pub calloc_at : ℕ
  pub realloc : Bool
  pub realloc_at : ℕ
  pub realloc_objects : Bool
  pub realloc_objects_at : ℕ
  pub garbage : ℕ → ℕ

-- The loop that drops the objects at `desired` and after it.
unfoldable pub objects_before : (ℕ → ℕ) → ℕ → ℕ → ℕ
objects_before offsets desired zero = zero
objects_before offsets desired (suc n) =
    let rest = objects_before offsets desired n in if ltb (offsets n) desired then suc n else rest

-- The objects that stay when the data becomes `desired` bytes.
unfoldable pub kept_objects : ℕ → Parcel → ℕ
kept_objects desired p =
    if ltb desired p.m_data_size
    then (if desired == 0 then 0 else objects_before (entry p.m_objects) desired p.m_objects_size)
    else p.m_objects_size

-- A copy of the first `n` elements in memory of `size` elements.
abbrev pub copy_of : ℕ → (ℕ → ℕ) → ℕ → (ℕ → ℕ) → ℕ → Array
copy_of address garbage size from n = record {
  address = address;
  room = size;
  at = λ i. if ltb i n then from i else garbage i;
}

module _ (object_at : (ℕ → ℕ) → ℕ → FlatObject) (proxy_for_handle : ℕ → Option ℕ) where
  -- The owner's branch after the allocations.
  unfoldable pub take_ownership : Answers → ℕ → ℕ → Parcel → Parcel
  take_ownership k desired n p =
      let size = if ltb p.m_data_size desired then p.m_data_size else desired in
      let told = tell_owner object_at proxy_for_handle p in
      record told {
        m_owner = false;
        alloc_size = (told.alloc_size + desired) % 2 ^ 64;
        alloc_count = (told.alloc_count + 1) % 2 ^ 64;
        m_data = some (copy_of k.malloc_at k.garbage desired (bytes_of p.m_data) size);
        m_objects =
            if n == 0 then none else some (copy_of k.calloc_at (λ _. 0) n (entry p.m_objects) n);
        m_data_size = size;
        m_data_capacity = desired;
        m_objects_size = n;
        m_objects_capacity = n;
        m_next_object_hint = 0;
        m_objects_sorted = false;
      }

  unfoldable pub continue_owned : Answers → ℕ → ℕ → Parcel → Status × Parcel
  continue_owned k desired n p =
      let acquired = acquire_objects object_at proxy_for_handle (record p { m_objects_size = n }) in
      let failed : Status × Parcel = (no_memory, record p { m_error = no_memory }) in
      if desired == 0
      then (no_error, free_data object_at proxy_for_handle p)
      else if k.malloc
      then (if n == 0
          then (no_error, take_ownership k desired n p)
          else if k.calloc
          then (
            no_error,
            take_ownership k desired n (record acquired { m_objects_size = p.m_objects_size }),
          )
          else failed)
      else failed

  -- The loop that releases the objects from `i`, with `n` of them left.
  unfoldable pub release_from : ℕ → ℕ → Parcel → Parcel
  release_from zero i p = p
  release_from (suc n) i p =
      let object = nth_object object_at proxy_for_handle p i in
      let q = record p { calls = release_object object_at proxy_for_handle object ++ p.calls } in
      release_from n (suc i)
        (if is_fd object_at proxy_for_handle object then record q { m_fds_known = false } else q)

  -- The offsets after the release: freed, or shrunk where realloc allows.
  abbrev shrink_objects : Answers → ℕ → Parcel → Parcel
  shrink_objects k n p =
      if n == 0
      then record p { m_objects = none; m_objects_capacity = 0 }
      else if k.realloc_objects
      then record p {
        m_objects = some (copy_of k.realloc_objects_at (λ _. 0) n (entry p.m_objects) n);
        m_objects_capacity = n;
      }
      else p

  unfoldable pub trim_objects : Answers → ℕ → Parcel → Parcel
  trim_objects k n p =
      let q = shrink_objects k n (release_from (p.m_objects_size - n) n p) in
      if ltb n p.m_objects_size
      then record q { m_objects_size = n; m_next_object_hint = 0; m_objects_sorted = false }
      else p

  -- realloc, or the sizes cut to `desired`.
  unfoldable pub resize_data : Answers → ℕ → Parcel → Status × Parcel
  resize_data k desired p =
      let cut = record p {
        m_data_size = if ltb desired p.m_data_size then desired else p.m_data_size;
        m_data_pos = if ltb desired p.m_data_pos then desired else p.m_data_pos;
      } in
      if ltb p.m_data_capacity desired
      then (if k.realloc
          then (
            no_error,
            record p {
              alloc_size =
                  ((p.alloc_size + desired) % 2 ^ 64 + 2 ^ 64 - p.m_data_capacity) % 2 ^ 64;
              m_data =
                  some
                    (copy_of k.realloc_at k.garbage desired (bytes_of p.m_data) p.m_data_capacity);
              m_data_capacity = desired;
            },
          )
          else (no_memory, record p { m_error = no_memory }))
      else (no_error, cut)

  unfoldable pub first_data : Answers → ℕ → Parcel → Status × Parcel
  first_data k desired p =
      if k.malloc
      then (
        no_error,
        record p {
          alloc_size = (p.alloc_size + desired) % 2 ^ 64;
          alloc_count = (p.alloc_count + 1) % 2 ^ 64;
          m_data = some (record { address = k.malloc_at; room = desired; at = k.garbage });
          m_data_size = 0;
          m_data_pos = 0;
          m_data_capacity = desired;
        },
      )
      else (no_memory, record p { m_error = no_memory })

  unfoldable pub continue_write : Answers → ℕ → Parcel → Status × Parcel
  continue_write k desired p =
      let n = kept_objects desired p in
      let own : Status × Parcel = elim p.m_data [
        | none ↦ first_data k desired p
        | some b ↦ resize_data k desired (trim_objects k n p)
      ] in
      if ltb int32_max desired
      then (bad_value, p)
      else if p.m_owner
      then continue_owned k desired n p
      else own

  unfoldable pub grow_data : Answers → ℕ → Parcel → Status × Parcel
  grow_data k len p =
      let new_size = (p.m_data_size + len) * 3 % 2 ^ 64 / 2 in
      if ltb int32_max len
      then (bad_value, p)
      else if ltb (size_max - p.m_data_size) len
      then (no_memory, p)
      else if ltb (size_max / 3) (p.m_data_size + len)
      then (no_memory, p)
      else if leb new_size p.m_data_size
      then (no_memory, p)
      else continue_write k new_size p

  unfoldable pub set_data_size : Answers → ℕ → Parcel → Status × Parcel
  set_data_size k size p =
      let r = continue_write k size p in
      if ltb int32_max size
      then (bad_value, p)
      else if is_no_error (r.0)
      then (no_error, record (r.1) { m_data_size = size })
      else r
