-- ===== src/Parcel/Received.antt =====
-- The accounts of Parcel.cpp when a parcel takes the data of the driver by ipcSetDataReference.
use droid_kernal.Prelude.{
  ℕ, zero, suc, ◌+◌, ◌%◌, ◌^◌, ◌≤◌, ◌≡◌, refl, ap, Bool, true, false, Option, some, arith,
}
use droid_kernal.Parcel.{
  no_error, int32_max, FlatObject, Array, Parcel, entry, release_objects, free_data_no_init,
  scan_for_fds,
}
use droid_kernal.Parcel.Write.{check_objects, ipc_set_data_reference}
use droid_kernal.Parcel.Accounts.{Accounted, release_objects_only, free_data_no_init-gives_back}

module _ (object_at : (ℕ → ℕ) → ℕ → FlatObject) (proxy_for_handle : ℕ → Option ℕ)
    (object_size : ℕ) where
  -- The parcel without its objects and the calls made.
  abbrev sizes_of : Parcel → ℕ × ℕ × Bool × Option Array
  sizes_of p = (p.alloc_size, p.m_data_capacity, p.m_owner, p.m_data)

  release_objects_sizes :
      (p : Parcel) → sizes_of (release_objects object_at proxy_for_handle p) ≡ sizes_of p
  unfolding release_objects
  release_objects_sizes p =
      ap sizes_of ((release_objects_only object_at proxy_for_handle p.m_objects_size p).1)

  check_objects_sizes :
      (n i min_offset : ℕ) (p : Parcel)
      → sizes_of (check_objects object_at proxy_for_handle object_size n i min_offset p)
        ≡ sizes_of p
  unfolding check_objects
  check_objects_sizes zero i min_offset p = refl
  check_objects_sizes (suc n) i min_offset p =
      let next = (entry p.m_objects i + object_size) % 2 ^ 64 in
      ground (arith, check_objects_sizes n (suc i) next p, release_objects_sizes p)

  -- A parcel that takes the driver's data gives the bytes that it allocated itself back to the global size,
  -- and does not count the driver's.
  pub ipc_set_data_reference-Accounted :
      (others count : ℕ) (bytes objects : Array) (p : Parcel)
      → bytes.room ≤ int32_max
      → Accounted others p
      → Accounted others
          (ipc_set_data_reference object_at proxy_for_handle object_size bytes objects count true p)
  unfolding ipc_set_data_reference scan_for_fds
  ipc_set_data_reference-Accounted others count bytes objects p small a =
      let freed = free_data_no_init object_at proxy_for_handle p in
      let set : Parcel = record freed {
        m_error = no_error;
        m_data = some bytes;
        m_data_size = bytes.room;
        m_data_capacity = bytes.room;
        m_objects = some objects;
        m_objects_size = count;
        m_objects_capacity = count;
        m_next_object_hint = 0;
        m_objects_sorted = false;
        m_owner = true;
      } in
      let same = check_objects_sizes count 0 0 set in
      let back = free_data_no_init-gives_back object_at proxy_for_handle others p a in
      record {
        counted = ground (arith, same, back);
        bounded = a.bounded;
        small = ground (arith, same);
        none_empty = ground (arith, same);
      }
