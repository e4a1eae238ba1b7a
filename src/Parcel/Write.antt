-- ===== src/Parcel/Write.antt =====
-- writeInplace, write, writeInt32 and ipcSetDataReference of Parcel.cpp.
use droid_kernal.Prelude.{
  ℕ, zero, suc, ◌+◌, ◌-◌, ◌/◌, ◌%◌, ◌^◌, Bool, true, false, Option, none, some, ◌&&◌, ◌==◌, ltb,
  leb, if◌then◌else◌,
}
use droid_kernal.Parcel.{
  Status, no_error, bad_value, is_no_error, int32_max, pad_size, FlatObject, unknown_object, Array,
  Parcel, entry, nth_object, release_objects, free_data_no_init, scan_for_fds,
}
use droid_kernal.Parcel.Resize.{Answers, grow_data}

unfoldable pub finish_write : ℕ → Parcel → Status × Parcel
finish_write len p =
    let pos = (p.m_data_pos + len) % 2 ^ 64 in
    if ltb int32_max len then (bad_value, p) else (
      no_error,
      record p {
        m_data_pos = pos;
        m_data_size = if ltb p.m_data_size pos then pos else p.m_data_size;
      },
    )

-- The bytes of a buffer replaced at an offset, and those of a parcel. A null pointer is not written to.
abbrev pub edit : ((ℕ → ℕ) → ℕ → ℕ) → Parcel → Parcel
edit change p = elim p.m_data [
  | none ↦ p
  | some b ↦ record p { m_data = some (record b { at = change b.at }) }
]

-- `n` bytes from `source` at `start`.
abbrev pub bytes_at : ℕ → ℕ → (ℕ → ℕ) → (ℕ → ℕ) → ℕ → ℕ
bytes_at start n source old i =
    if leb start i && ltb i (start + n) then source (i - start) else old i

-- The word that ends at `start + padded`, under the mask of a little-endian machine: the last
-- `padded - len` of its bytes become 0.
abbrev pub mask_padding : ℕ → ℕ → ℕ → (ℕ → ℕ) → ℕ → ℕ
mask_padding start len padded = bytes_at (start + len) (padded - len) (λ _. 0)

-- A pointer to data, as an offset.
abbrev pub pointer : Parcel → Option ℕ
pointer p = elim p.m_data [
  | none ↦ (if p.m_data_pos == 0 then none else some p.m_data_pos)
  | some b ↦ some p.m_data_pos
]

-- The block at `restart_write`.
unfoldable pub restart_write : ℕ → Parcel → Option ℕ × Parcel
unfolding pad_size finish_write
restart_write len p =
    let padded = pad_size len in
    let masked = if padded == len then p else edit (mask_padding p.m_data_pos len padded) p in
    (pointer p, (finish_write padded masked).1)

-- memcpy to what writeInplace returned.
abbrev pub copy_in : ℕ → (ℕ → ℕ) → Option ℕ × Parcel → Status × Parcel
copy_in len source (none, p) = (p.m_error, p)
copy_in len source (some at, p) = (no_error, edit (bytes_at at len source) p)

-- The bytes of a word, the lowest first.
abbrev pub byte : ℕ → ℕ → ℕ
byte val j = val / 256 ^ j % 256

unfoldable pub write_word : ℕ → Parcel → Status × Parcel
unfolding finish_write
write_word val p = finish_write 4 (edit (bytes_at p.m_data_pos 4 (byte val)) p)

module _ (object_at : (ℕ → ℕ) → ℕ → FlatObject) (proxy_for_handle : ℕ → Option ℕ) where
  unfoldable pub write_inplace : Answers → ℕ → Parcel → Option ℕ × Parcel
  write_inplace k len p =
      let padded = pad_size len in
      let grown = grow_data object_at proxy_for_handle k padded p in
      let end = (p.m_data_pos + padded) % 2 ^ 64 in
      if ltb int32_max len
      then (none, p)
      else if ltb end p.m_data_pos
      then (none, p)
      else if leb end p.m_data_capacity
      then restart_write len p
      else if is_no_error (grown.0)
      then restart_write len (grown.1)
      else (none, grown.1)

  unfoldable pub write : Answers → ℕ → (ℕ → ℕ) → Parcel → Status × Parcel
  write k len source p =
      if ltb int32_max len then (bad_value, p) else copy_in len source (write_inplace k len p)

  -- writeInt32 by writeAligned.
  unfoldable pub write_int32 : Answers → ℕ → Parcel → Status × Parcel
  write_int32 k val p =
      let grown = grow_data object_at proxy_for_handle k 4 p in
      if leb ((p.m_data_pos + 4) % 2 ^ 64) p.m_data_capacity
      then write_word val p
      else if is_no_error (grown.0)
      then write_word val (grown.1)
      else grown

-- `object_size` is sizeof(flat_binder_object).
module _ (object_at : (ℕ → ℕ) → ℕ → FlatObject) (proxy_for_handle : ℕ → Option ℕ)
    (object_size : ℕ) where
  abbrev pub is_supported : FlatObject → Bool
  is_supported unknown_object = false
  is_supported _ = true

  -- The loop of ipcSetDataReference from `i`, with `n` objects left.
  unfoldable pub check_objects : ℕ → ℕ → ℕ → Parcel → Parcel
  check_objects zero i min_offset p = p
  check_objects (suc n) i min_offset p =
      let offset = entry p.m_objects i in
      let rest = check_objects n (suc i) ((offset + object_size) % 2 ^ 64) p in
      if ltb offset min_offset
      then record p { m_objects_size = 0 }
      else if is_supported (nth_object object_at proxy_for_handle p i)
      then rest
      else record (release_objects object_at proxy_for_handle p) { m_objects_size = 0 }

  unfoldable pub ipc_set_data_reference : Array → Array → ℕ → Bool → Parcel → Parcel
  ipc_set_data_reference bytes objects count has_owner p =
      let freed = free_data_no_init object_at proxy_for_handle p in
      let set = record freed {
        m_error = no_error;
        m_data = some bytes;
        m_data_size = bytes.room;
        m_data_capacity = bytes.room;
        m_objects = some objects;
        m_objects_size = count;
        m_objects_capacity = count;
        m_next_object_hint = 0;
        m_objects_sorted = false;
        m_owner = has_owner;
      } in
      scan_for_fds object_at proxy_for_handle (check_objects count 0 0 set)
