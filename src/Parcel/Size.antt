-- ===== src/Parcel/Size.antt =====
-- setDataSize of Parcel.cpp.
use droid_kernal.Prelude.{
  ℕ, zero, suc, ◌-◌, ◌<◌, ◌≤◌, ◌≡◌, ◌⊎◌, inl, inr, refl, sym, ap, subst, true, false, Option, none,
  ◌++◌, ltb, ltb→lt, ltb→le, Bool-cases, if◌then◌else◌, arith,
}
use droid_kernal.Parcel.{
  is_no_error, int32_max, FlatObject, Parcel, bytes_of, nth_object, acquire_objects, release_object,
  is_fd, free_data, init_state,
}
use droid_kernal.Parcel.Resize.{
  Answers, kept_objects, take_ownership, continue_owned, release_from, trim_objects, resize_data,
  first_data, continue_write, set_data_size,
}
use droid_kernal.Parcel.Room.{room_of, Fits, Grown, acquire_only, continue_write-Grown}

-- `q` is `p` with room for `desired` bytes, the bytes before it, and the position not behind it.
pub record Kept (desired : ℕ) (p q : Parcel) : Type 0 where
  pub pos_is : q.m_data_pos ≡ (if ltb desired p.m_data_pos then desired else p.m_data_pos)
  pub room_is : room_of q.m_data ≡ q.m_data_capacity
  pub has_room : desired ≤ q.m_data_capacity
  pub small : q.m_data_capacity ≤ int32_max
  pub keeps : (i : ℕ) → i < p.m_data_size → i < desired → bytes_of q.m_data i ≡ bytes_of p.m_data i

Grown-Kept :
    (desired : ℕ) (p q : Parcel)
    → Fits p
    → p.m_data_capacity < desired
    → desired ≤ int32_max
    → Grown desired p q
    → Kept desired p q
Grown-Kept desired p q h lt small g = record {
  pos_is = ground arith;
  room_is = ground arith;
  has_room = ground arith;
  small = ground arith;
  keeps = λ i a b. g.keeps i a;
}

module _ (object_at : (ℕ → ℕ) → ℕ → FlatObject) (proxy_for_handle : ℕ → Option ℕ) where
  take_ownership-Kept :
      (k : Answers) (desired n : ℕ) (p : Parcel)
      → p.m_data_pos ≤ desired
      → desired ≤ int32_max
      → Kept desired p (take_ownership object_at proxy_for_handle k desired n p)
  unfolding take_ownership
  take_ownership-Kept k desired n p le small = record {
    pos_is = ground arith;
    room_is = ground arith;
    has_room = ground arith;
    small = ground arith;
    keeps = λ i a b. ground arith;
  }

  acquired-Kept :
      (k : Answers) (desired n : ℕ) (p : Parcel)
      → p.m_data_pos ≤ desired
      → desired ≤ int32_max
      → let q = acquire_objects object_at proxy_for_handle (record p { m_objects_size = n }) in
        Kept desired p (
          take_ownership object_at proxy_for_handle k desired n
            (record q { m_objects_size = p.m_objects_size }))
  unfolding acquire_objects
  acquired-Kept k desired n p le small =
      let (made, e) = acquire_only object_at proxy_for_handle n (record p { m_objects_size = n }) in
      let kept = take_ownership-Kept k desired n (record p { calls = made }) le small in
      subst
        (λ q. Kept desired p (
          take_ownership object_at proxy_for_handle k desired n
            (record q { m_objects_size = p.m_objects_size })))
        (sym e)
        (record {
          pos_is = kept.pos_is;
          room_is = kept.room_is;
          has_room = kept.has_room;
          small = kept.small;
          keeps = kept.keeps;
        })

  continue_owned-Kept :
      (k : Answers) (desired n : ℕ) (p : Parcel)
      → Fits p
      → p.m_data_pos ≤ desired
      → desired ≤ int32_max
      → is_no_error ((continue_owned object_at proxy_for_handle k desired n p).0) ≡ true
      → Kept desired p ((continue_owned object_at proxy_for_handle k desired n p).1)
  unfolding continue_owned free_data init_state
  continue_owned-Kept k desired n p h le small ok =
      ground
        (arith, take_ownership-Kept k desired n p le small, acquired-Kept k desired n p le small)

  -- The release of objects leaves the data and its sizes.
  abbrev pub SameData : Parcel → Parcel → Type 0
  SameData p q =
      q.m_data ≡ p.m_data
      × q.m_data_size ≡ p.m_data_size
      × q.m_data_pos ≡ p.m_data_pos
      × q.m_data_capacity ≡ p.m_data_capacity
      × q.alloc_size ≡ p.alloc_size
      × q.m_owner ≡ p.m_owner

  release_from-SameData :
      (n i : ℕ) (p : Parcel) → SameData p (release_from object_at proxy_for_handle n i p)
  unfolding release_from
  release_from-SameData zero i p = (refl, refl, refl, refl, refl, refl)
  release_from-SameData (suc n) i p =
      let object = nth_object object_at proxy_for_handle p i in
      let q = record p { calls = release_object object_at proxy_for_handle object ++ p.calls } in
      let next =
        if is_fd object_at proxy_for_handle object then record q { m_fds_known = false } else q in
      ground (arith, release_from-SameData n (suc i) next)

  pub trim_objects-SameData :
      (k : Answers) (n : ℕ) (p : Parcel)
      → SameData p (trim_objects object_at proxy_for_handle k n p)
  unfolding trim_objects
  trim_objects-SameData k n p = ground (arith, release_from-SameData (p.m_objects_size - n) n p)

  cut-Kept :
      (k : Answers) (desired : ℕ) (p q : Parcel)
      → Fits p
      → SameData p q
      → desired ≤ p.m_data_capacity
      → Kept desired p ((resize_data object_at proxy_for_handle k desired q).1)
  unfolding resize_data
  cut-Kept k desired p q h (same, size, pos, cap, alloc, own) le = record {
    pos_is = ground arith;
    room_is = ground (arith, ap room_of same, h.room_is);
    has_room = ground arith;
    small = ground (arith, h.small);
    keeps = λ i a b. ground (arith, ap (λ d. bytes_of d i) same);
  }

  first_data-Kept :
      (k : Answers) (desired : ℕ) (p : Parcel)
      → Fits p
      → p.m_data ≡ none
      → desired ≤ p.m_data_capacity
      → is_no_error ((first_data object_at proxy_for_handle k desired p).0) ≡ true
      → Kept desired p ((first_data object_at proxy_for_handle k desired p).1)
  unfolding first_data
  first_data-Kept k desired p h e le ok = record {
    pos_is = ground arith;
    room_is = ground arith;
    has_room = ground arith;
    small = ground arith;
    keeps = λ i a b. ground arith;
  }

  continue_write-Kept :
      (k : Answers) (desired : ℕ) (p : Parcel)
      → Fits p
      → p.m_owner ≡ false ⊎ p.m_data_pos ≤ desired
      → desired ≤ p.m_data_capacity
      → is_no_error ((continue_write object_at proxy_for_handle k desired p).0) ≡ true
      → Kept desired p ((continue_write object_at proxy_for_handle k desired p).1)
  unfolding continue_write
  continue_write-Kept k desired p h side le ok =
      let n = kept_objects desired p in
      let trimmed = trim_objects object_at proxy_for_handle k n p in
      ground (
        arith,
        h.small,
        continue_owned-Kept k desired n p h,
        first_data-Kept k desired p h,
        cut-Kept k desired p trimmed h (trim_objects-SameData k n p) le,
      )

  either-Kept :
      (k : Answers) (desired : ℕ) (p : Parcel)
      → Fits p
      → p.m_owner ≡ false ⊎ p.m_data_pos ≤ desired
      → is_no_error ((continue_write object_at proxy_for_handle k desired p).0) ≡ true
      → Kept desired p ((continue_write object_at proxy_for_handle k desired p).1)
  either-Kept k desired p h side ok = elim (Bool-cases (ltb p.m_data_capacity desired)) [
    | inl up ↦
        let lt = ltb→lt p.m_data_capacity desired up in
        let (grown, small) = continue_write-Grown object_at proxy_for_handle k desired p h lt ok in
        Grown-Kept desired p _ h lt small grown
    | inr down ↦ continue_write-Kept k desired p h side (ltb→le p.m_data_capacity desired down) ok
  ]

  sized-Fits :
      (size : ℕ) (p q : Parcel)
      → Kept size p q
      → let r = record q { m_data_size = size } in Fits r × r.m_data_size ≡ size × Kept size p r
  sized-Fits size p q kept = (
    record {
      pos_le = ground (arith, kept.pos_is);
      size_le = kept.has_room;
      room_is = kept.room_is;
      small = kept.small;
    },
    refl,
    record {
      pos_is = kept.pos_is;
      room_is = kept.room_is;
      has_room = kept.has_room;
      small = kept.small;
      keeps = kept.keeps;
    },
  )

  -- setDataSize of a parcel whose position is within its data: when it answers NO_ERROR the size is as asked,
  -- within the capacity, the bytes below it stay, and a position behind it is moved to it; unless the driver
  -- owns the data, when the position must not be behind the new size.
  pub set_data_size-Kept :
      (k : Answers) (size : ℕ) (p : Parcel)
      → Fits p
      → p.m_owner ≡ false ⊎ p.m_data_pos ≤ size
      → is_no_error ((set_data_size object_at proxy_for_handle k size p).0) ≡ true
      → let q = (set_data_size object_at proxy_for_handle k size p).1 in
        Fits q × q.m_data_size ≡ size × Kept size p q
  unfolding set_data_size
  set_data_size-Kept k size p h side ok = ground (
    arith,
    either-Kept k size p h side,
    sized-Fits size p ((continue_write object_at proxy_for_handle k size p).1),
  )
