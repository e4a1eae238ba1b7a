-- ===== src/Parcel/Room.antt =====
-- The room in a parcel: growData and the branches of continueWrite that make more.
use droid_kernal.Prelude.{
  ℕ, zero, suc, ◌+◌, ◌/◌, ◌*◌, ◌%◌, ◌^◌, ◌<◌, ◌≤◌, ◌≡◌, refl, sym, subst, true, Option, none, some,
  List, ◌++◌, arith,
}
use droid_kernal.Parcel.{
  is_no_error, int32_max, FlatObject, Array, Parcel, Call, bytes_of, nth_object, acquire_object,
  acquire_objects_below, acquire_objects,
}
use droid_kernal.Parcel.Resize.{
  Answers, kept_objects, take_ownership, continue_owned, trim_objects, resize_data, first_data,
  continue_write, grow_data,
}

-- The length of the buffer is the capacity, and without a buffer it is 0.
abbrev pub room_of : Option Array → ℕ
room_of none = 0
room_of (some b) = b.room

pub record Fits (p : Parcel) : Type 0 where
  pub pos_le : p.m_data_pos ≤ p.m_data_size
  pub size_le : p.m_data_size ≤ p.m_data_capacity
  pub room_is : room_of p.m_data ≡ p.m_data_capacity
  pub small : p.m_data_capacity ≤ int32_max

-- `q` is `p` with the capacity `desired`.
pub record Grown (desired : ℕ) (p q : Parcel) : Type 0 where
  pub pos_is : q.m_data_pos ≡ p.m_data_pos
  pub size_is : q.m_data_size ≡ p.m_data_size
  pub capacity_is : q.m_data_capacity ≡ desired
  pub room_is : room_of q.m_data ≡ desired
  pub keeps : (i : ℕ) → i < p.m_data_size → bytes_of q.m_data i ≡ bytes_of p.m_data i

pub Grown-Fits :
    {p q : Parcel} {desired : ℕ}
    → Fits p
    → p.m_data_size ≤ desired
    → desired ≤ int32_max
    → Grown desired p q
    → Fits q
Grown-Fits h a b g = ground arith

pub Grown-called :
    {p q : Parcel} {desired : ℕ} (made : List Call)
    → Grown desired (record p { calls = made }) q
    → Grown desired p q
Grown-called made g = record {
  pos_is = g.pos_is;
  size_is = g.size_is;
  capacity_is = g.capacity_is;
  room_is = g.room_is;
  keeps = g.keeps;
}

module _ (object_at : (ℕ → ℕ) → ℕ → FlatObject) (proxy_for_handle : ℕ → Option ℕ) where
  take_ownership-Grown :
      (k : Answers) (desired n : ℕ) (p : Parcel)
      → p.m_data_size < desired
      → Grown desired p (take_ownership object_at proxy_for_handle k desired n p)
  unfolding take_ownership
  take_ownership-Grown k desired n p h = record {
    pos_is = ground arith;
    size_is = ground arith;
    capacity_is = ground arith;
    room_is = ground arith;
    keeps = λ i lt. ground arith;
  }

  first_data-Grown :
      (k : Answers) (desired : ℕ) (p : Parcel)
      → Fits p
      → p.m_data ≡ none
      → is_no_error ((first_data object_at proxy_for_handle k desired p).0) ≡ true
      → Grown desired p ((first_data object_at proxy_for_handle k desired p).1)
  unfolding first_data
  first_data-Grown k desired p h e ok = record {
    pos_is = ground arith;
    size_is = ground arith;
    capacity_is = ground arith;
    room_is = ground arith;
    keeps = λ i lt. ground arith;
  }

  resize_data-Grown :
      (k : Answers) (desired : ℕ) (p : Parcel)
      → Fits p
      → p.m_data_capacity < desired
      → is_no_error ((resize_data object_at proxy_for_handle k desired p).0) ≡ true
      → Grown desired p ((resize_data object_at proxy_for_handle k desired p).1)
  unfolding resize_data
  resize_data-Grown k desired p h e ok = record {
    pos_is = ground arith;
    size_is = ground arith;
    capacity_is = ground arith;
    room_is = ground arith;
    keeps = λ i lt. ground arith;
  }

  pub acquire_only :
      (n : ℕ) (p : Parcel)
      → (made : List Call) × (acquire_objects_below object_at proxy_for_handle n p
          ≡ record p { calls = made })
  unfolding acquire_objects_below
  acquire_only zero p = (p.calls, refl)
  acquire_only (suc n) p = acquire_only n (record p {
    calls =
        acquire_object object_at proxy_for_handle (nth_object object_at proxy_for_handle p n)
        ++ p.calls;
  })

  acquired-Grown :
      (k : Answers) (desired n : ℕ) (p : Parcel)
      → p.m_data_size < desired
      → let q = acquire_objects object_at proxy_for_handle (record p { m_objects_size = n }) in
        Grown desired p (
          take_ownership object_at proxy_for_handle k desired n
            (record q { m_objects_size = p.m_objects_size }))
  unfolding acquire_objects
  acquired-Grown k desired n p h =
      let (made, e) = acquire_only n (record p { m_objects_size = n }) in
      subst
        (λ q. Grown desired p (
          take_ownership object_at proxy_for_handle k desired n
            (record q { m_objects_size = p.m_objects_size })))
        (sym e) (Grown-called made (take_ownership-Grown k desired n (record p { calls = made }) h))

  continue_owned-Grown :
      (k : Answers) (desired n : ℕ) (p : Parcel)
      → p.m_data_size < desired
      → is_no_error ((continue_owned object_at proxy_for_handle k desired n p).0) ≡ true
      → Grown desired p ((continue_owned object_at proxy_for_handle k desired n p).1)
  unfolding continue_owned
  continue_owned-Grown k desired n p h ok =
      ground (arith, take_ownership-Grown k desired n p h, acquired-Grown k desired n p h)

  trim_objects_none :
      (k : Answers) (desired : ℕ) (p : Parcel)
      → p.m_data_size ≤ desired
      → trim_objects object_at proxy_for_handle k (kept_objects desired p) p ≡ p
  unfolding trim_objects kept_objects
  trim_objects_none k desired p h = ground arith

  trimmed-Grown :
      (k : Answers) (desired : ℕ) (p : Parcel)
      → Fits p
      → p.m_data_capacity < desired
      → let r =
          resize_data object_at proxy_for_handle k desired
            (trim_objects object_at proxy_for_handle k (kept_objects desired p) p) in
        is_no_error (r.0) ≡ true → Grown desired p (r.1)
  trimmed-Grown k desired p h lt =
      subst
        (λ q.
          is_no_error ((resize_data object_at proxy_for_handle k desired q).0) ≡ true
          → Grown desired p ((resize_data object_at proxy_for_handle k desired q).1))
        (sym (trim_objects_none k desired p (omega (arith, h.size_le))))
        (resize_data-Grown k desired p h lt)

  pub continue_write-Grown :
      (k : Answers) (desired : ℕ) (p : Parcel)
      → Fits p
      → p.m_data_capacity < desired
      → is_no_error ((continue_write object_at proxy_for_handle k desired p).0) ≡ true
      → Grown desired p ((continue_write object_at proxy_for_handle k desired p).1)
        × desired ≤ int32_max
  unfolding continue_write
  continue_write-Grown k desired p h lt ok = ground (
    arith,
    continue_owned-Grown k desired (kept_objects desired p) p (omega (arith, h.size_le)),
    first_data-Grown k desired p h,
    trimmed-Grown k desired p h lt,
  )

  -- growData that answers NO_ERROR to a parcel whose position is within its data makes room for `len` bytes
  -- at the position, and keeps the position, the size and the bytes.
  pub grow_data-Grown :
      (k : Answers) (len : ℕ) (p : Parcel)
      → Fits p
      → p.m_data_capacity < p.m_data_pos + len
      → is_no_error ((grow_data object_at proxy_for_handle k len p).0) ≡ true
      → let q = (grow_data object_at proxy_for_handle k len p).1 in
        Fits q
        × p.m_data_pos + len ≤ q.m_data_capacity
        × q.m_data_pos ≡ p.m_data_pos
        × q.m_data_size ≡ p.m_data_size
        × ((i : ℕ) → i < p.m_data_size → bytes_of q.m_data i ≡ bytes_of p.m_data i)
  unfolding grow_data
  grow_data-Grown k len p h lt ok =
      ground (arith, continue_write-Grown k ((p.m_data_size + len) * 3 % 2 ^ 64 / 2) p h)
