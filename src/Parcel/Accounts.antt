-- ===== src/Parcel/Accounts.antt =====
-- gParcelGlobalAllocSize of Parcel.cpp: the capacity of the data that parcels own.
use droid_kernal.Prelude.{
  ℕ, zero, suc, ◌+◌, ◌/◌, ◌*◌, ◌%◌, ◌^◌, ◌<◌, ◌≤◌, ◌≡◌, refl, sym, ap, subst, true, false, Option,
  none, List, ◌++◌, if◌then◌else◌, arith,
}
use droid_kernal.Parcel.{
  int32_max, pad_size, FlatObject, Parcel, Call, nth_object, acquire_objects, release_object,
  release_objects_below, release_objects, free_data_no_init, free_data, init_state,
}
use droid_kernal.Parcel.Resize.{
  Answers, kept_objects, take_ownership, continue_owned, trim_objects, resize_data, first_data,
  continue_write, grow_data, set_data_size,
}
use droid_kernal.Parcel.Write.{
  finish_write, restart_write, write_inplace, copy_in, write, write_word, write_int32,
}
use droid_kernal.Parcel.Room.{room_of, acquire_only}
use droid_kernal.Parcel.Size.{SameData, trim_objects-SameData}

-- The bytes that a parcel allocated itself.
abbrev pub own_bytes : Parcel → ℕ
own_bytes p = if p.m_owner then 0 else p.m_data_capacity

-- The size counts those of the parcel, besides `others` of the other parcels.
pub record Accounted (others : ℕ) (p : Parcel) : Type 0 where
  pub counted : p.alloc_size ≡ others + own_bytes p
  pub bounded : others < 2 ^ 63
  pub small : p.m_data_capacity ≤ int32_max
  pub none_empty : room_of p.m_data ≡ p.m_data_capacity

module _ (object_at : (ℕ → ℕ) → ℕ → FlatObject) (proxy_for_handle : ℕ → Option ℕ) where
  take_ownership-Accounted :
      (k : Answers) (others desired n : ℕ) (p : Parcel)
      → p.m_owner ≡ true
      → desired ≤ int32_max
      → Accounted others p
      → Accounted others (take_ownership object_at proxy_for_handle k desired n p)
  unfolding take_ownership
  take_ownership-Accounted k others desired n p e small a = record {
    counted = ground arith;
    bounded = a.bounded;
    small = small;
    none_empty = refl;
  }

  acquired-Accounted :
      (k : Answers) (others desired n : ℕ) (p : Parcel)
      → p.m_owner ≡ true
      → desired ≤ int32_max
      → Accounted others p
      → let q = acquire_objects object_at proxy_for_handle (record p { m_objects_size = n }) in
        Accounted others (
          take_ownership object_at proxy_for_handle k desired n
            (record q { m_objects_size = p.m_objects_size }))
  unfolding acquire_objects
  acquired-Accounted k others desired n p e small a =
      let (made, same) =
        acquire_only object_at proxy_for_handle n (record p { m_objects_size = n }) in
      let told : Accounted others (record p { calls = made }) = record {
        counted = a.counted;
        bounded = a.bounded;
        small = a.small;
        none_empty = a.none_empty;
      } in
      subst
        (λ q. Accounted others (
          take_ownership object_at proxy_for_handle k desired n
            (record q { m_objects_size = p.m_objects_size })))
        (sym same)
        (take_ownership-Accounted k others desired n (record p { calls = made }) e small told)

  continue_owned-Accounted :
      (k : Answers) (others desired n : ℕ) (p : Parcel)
      → p.m_owner ≡ true
      → desired ≤ int32_max
      → Accounted others p
      → Accounted others ((continue_owned object_at proxy_for_handle k desired n p).1)
  unfolding continue_owned free_data free_data_no_init init_state
  continue_owned-Accounted k others desired n p e small a = ground (
    arith,
    take_ownership-Accounted k others desired n p e small a,
    acquired-Accounted k others desired n p e small a,
  )

  resize_data-Accounted :
      (k : Answers) (others desired : ℕ) (p q : Parcel)
      → SameData object_at proxy_for_handle p q
      → p.m_owner ≡ false
      → desired ≤ int32_max
      → Accounted others p
      → Accounted others ((resize_data object_at proxy_for_handle k desired q).1)
  unfolding resize_data
  resize_data-Accounted k others desired p q (same, size, pos, cap, alloc, own) e small a = record {
    counted = ground (arith, a.counted);
    bounded = a.bounded;
    small = ground (arith, a.small);
    none_empty = ground (arith, ap room_of same, a.none_empty);
  }

  first_data-Accounted :
      (k : Answers) (others desired : ℕ) (p : Parcel)
      → p.m_data ≡ none
      → p.m_owner ≡ false
      → desired ≤ int32_max
      → Accounted others p
      → Accounted others ((first_data object_at proxy_for_handle k desired p).1)
  unfolding first_data
  first_data-Accounted k others desired p d e small a = ground arith

  continue_write-Accounted :
      (k : Answers) (others desired : ℕ) (p : Parcel)
      → Accounted others p
      → Accounted others ((continue_write object_at proxy_for_handle k desired p).1)
  unfolding continue_write
  continue_write-Accounted k others desired p a =
      let n = kept_objects desired p in
      let q = trim_objects object_at proxy_for_handle k n p in
      ground (
        arith,
        continue_owned-Accounted k others desired n p,
        first_data-Accounted k others desired p,
        resize_data-Accounted k others desired p q
            (trim_objects-SameData object_at proxy_for_handle k n p),
      )

  grow_data-Accounted :
      (k : Answers) (others len : ℕ) (p : Parcel)
      → Accounted others p
      → Accounted others ((grow_data object_at proxy_for_handle k len p).1)
  unfolding grow_data
  grow_data-Accounted k others len p a =
      ground (arith, continue_write-Accounted k others ((p.m_data_size + len) * 3 % 2 ^ 64 / 2) p a)

  restart_write-Accounted :
      (others len : ℕ) (source : ℕ → ℕ) (p : Parcel)
      → Accounted others p
      → Accounted others ((copy_in len source (restart_write len p)).1)
  unfolding restart_write finish_write
  restart_write-Accounted others len source p a = ground arith

  write_word-Accounted :
      (others val : ℕ) (p : Parcel) → Accounted others p → Accounted others ((write_word val p).1)
  unfolding write_word finish_write
  write_word-Accounted others val p a = ground arith

  write-Accounted :
      (k : Answers) (others len : ℕ) (source : ℕ → ℕ) (p : Parcel)
      → Accounted others p
      → Accounted others ((write object_at proxy_for_handle k len source p).1)
  unfolding write write_inplace
  write-Accounted k others len source p a =
      let grown = grow_data-Accounted k others (pad_size len) p a in
      ground (
        arith,
        grown,
        restart_write-Accounted others len source p a,
        restart_write-Accounted others len source
            ((grow_data object_at proxy_for_handle k (pad_size len) p).1) grown,
      )

  write_int32-Accounted :
      (k : Answers) (others val : ℕ) (p : Parcel)
      → Accounted others p
      → Accounted others ((write_int32 object_at proxy_for_handle k val p).1)
  unfolding write_int32
  write_int32-Accounted k others val p a =
      let grown = grow_data-Accounted k others 4 p a in
      ground (
        arith,
        grown,
        write_word-Accounted others val p a,
        write_word-Accounted others val ((grow_data object_at proxy_for_handle k 4 p).1) grown,
      )

  set_data_size-Accounted :
      (k : Answers) (others size : ℕ) (p : Parcel)
      → Accounted others p
      → Accounted others ((set_data_size object_at proxy_for_handle k size p).1)
  unfolding set_data_size
  set_data_size-Accounted k others size p a =
      ground (arith, a, continue_write-Accounted k others size p a)

  -- write, writeInt32 and setDataSize keep the global size equal to the bytes that the parcels allocated
  -- themselves, on every branch, failures included.
  pub writes-Accounted :
      (k : Answers) (others len : ℕ) (source : ℕ → ℕ) (p : Parcel)
      → Accounted others p
      → Accounted others ((write object_at proxy_for_handle k len source p).1)
        × Accounted others ((write_int32 object_at proxy_for_handle k len p).1)
        × Accounted others ((set_data_size object_at proxy_for_handle k len p).1)
  writes-Accounted k others len source p a = (
    write-Accounted k others len source p a,
    write_int32-Accounted k others len p a,
    set_data_size-Accounted k others len p a,
  )

  pub release_objects_only :
      (n : ℕ) (p : Parcel)
      → (made : List Call) × (release_objects_below object_at proxy_for_handle n p
          ≡ record p { calls = made })
  unfolding release_objects_below
  release_objects_only zero p = (p.calls, refl)
  release_objects_only (suc n) p = release_objects_only n (record p {
    calls =
        release_object object_at proxy_for_handle (nth_object object_at proxy_for_handle p n)
        ++ p.calls;
  })

  pub free_data_no_init-gives_back :
      (others : ℕ) (p : Parcel)
      → Accounted others p
      → (free_data_no_init object_at proxy_for_handle p).alloc_size ≡ others
  unfolding free_data_no_init release_objects
  free_data_no_init-gives_back others p a =
      let (made, e) = release_objects_only p.m_objects_size p in
      let q = release_objects_below object_at proxy_for_handle p.m_objects_size p in
      let size : q.alloc_size ≡ p.alloc_size = ap (λ (r : Parcel). r.alloc_size) e in
      let capacity : q.m_data_capacity ≡ p.m_data_capacity =
        ap (λ (r : Parcel). r.m_data_capacity) e in
      let same : q.m_data ≡ p.m_data = ap (λ (r : Parcel). r.m_data) e in
      ground (arith, ap room_of same)
