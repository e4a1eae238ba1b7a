-- ===== src/Parcel/Objects.antt =====
-- The objects in a parcel: those that ipcSetDataReference accepts, and those that continueWrite keeps.
use droid_kernal.Prelude.{
  ℕ, zero, suc, ◌+◌, ◌-◌, ◌%◌, ◌^◌, ◌<◌, ◌≤◌, ◌≡◌, ◌⊎◌, inl, inr, refl, sym, subst, Bool, true,
  false, Option, some, ltb, arith,
}
use native.Mathlib.Decide.{ℕ_discrete}
use droid_kernal.Parcel.{
  no_error, FlatObject, Array, Parcel, entry, nth_object, scan_for_fds, free_data_no_init,
}
use droid_kernal.Parcel.Resize.{objects_before}
use droid_kernal.Parcel.Write.{is_supported, check_objects, ipc_set_data_reference}

-- Where the offsets do not decrease, the loop keeps exactly the objects that begin before `desired`.
pub objects_before_lem :
    (offsets : ℕ → ℕ) (desired n : ℕ)
    → ((i j : ℕ) → i ≤ j → offsets i ≤ offsets j)
    → objects_before offsets desired n ≤ n
      × ((i : ℕ) → i < n → ltb (offsets i) desired ≡ ltb i (objects_before offsets desired n))
unfolding objects_before
objects_before_lem offsets desired zero up = (ground arith, λ i lt. ground arith)
objects_before_lem offsets desired (suc n) up =
    let (le, before) = objects_before_lem offsets desired n up in
    (ground arith, λ i lt. ground (arith, before i, up i n))

module _ (object_at : (ℕ → ℕ) → ℕ → FlatObject) (proxy_for_handle : ℕ → Option ℕ)
    (object_size : ℕ) where
  -- The `n` objects from `i` are of a known kind, the first does not begin before `min_offset`, and each
  -- other not before the end of the one before it.
  record Checked (n i min_offset : ℕ) (p : Parcel) : Type 0 where
    known :
        (j : ℕ)
        → i ≤ j
        → j < i + n
        → is_supported object_at proxy_for_handle object_size
            (nth_object object_at proxy_for_handle p j)
          ≡ true
    first : 0 < n → min_offset ≤ entry p.m_objects i
    apart :
        (j : ℕ)
        → i ≤ j
        → suc j < i + n
        → (entry p.m_objects j + object_size) % 2 ^ 64 ≤ entry p.m_objects (suc j)

  Checked-suc :
      (n i min_offset : ℕ) (p : Parcel)
      → min_offset ≤ entry p.m_objects i
      → is_supported object_at proxy_for_handle object_size
          (nth_object object_at proxy_for_handle p i)
        ≡ true
      → Checked n (suc i) ((entry p.m_objects i + object_size) % 2 ^ 64) p
      → Checked (suc n) i min_offset p
  Checked-suc n i min_offset p low good c = record {
    known = λ j ge lt. elim (ℕ_discrete i j) [
      | yes e ↦
          subst
            (λ k.
              is_supported object_at proxy_for_handle object_size
                (nth_object object_at proxy_for_handle p k)
              ≡ true)
            e good
      | no ne ↦ c.known j (omega arith) (omega arith)
    ];
    first = λ some_left. low;
    apart = λ j ge lt. elim (ℕ_discrete i j) [
      | yes e ↦
          subst (λ k. (entry p.m_objects k + object_size) % 2 ^ 64 ≤ entry p.m_objects (suc k)) e
            (c.first (omega arith))
      | no ne ↦ c.apart j (omega arith) (omega arith)
    ];
  }

  check_objects-Checked :
      (n i min_offset : ℕ) (p : Parcel)
      → let q = check_objects object_at proxy_for_handle object_size n i min_offset p in
        (q ≡ p × Checked n i min_offset p) ⊎ q.m_objects_size ≡ 0
  unfolding check_objects
  check_objects-Checked zero i min_offset p = inl (
    refl,
    record {
      known = λ j ge lt. absurd (omega arith);
      first = λ lt. absurd (omega arith);
      apart = λ j ge lt. absurd (omega arith);
    },
  )
  check_objects-Checked (suc n) i min_offset p =
      let next = (entry p.m_objects i + object_size) % 2 ^ 64 in
      ground (arith, check_objects-Checked n (suc i) next p, Checked-suc n i min_offset p)

  -- The objects of `p` are of a known kind, and no two of them share a byte.
  pub record Ordered (p : Parcel) : Type 0 where
    pub known :
        (j : ℕ)
        → j < p.m_objects_size
        → is_supported object_at proxy_for_handle object_size
            (nth_object object_at proxy_for_handle p j)
          ≡ true
    pub apart :
        (i j : ℕ)
        → i < j
        → j < p.m_objects_size
        → entry p.m_objects i + object_size ≤ entry p.m_objects j

  -- No object of `p` ends beyond the address space.
  abbrev NoWrap : Parcel → Type 0
  NoWrap p = (j : ℕ) → j < p.m_objects_size → entry p.m_objects j + object_size < 2 ^ 64

  next_object :
      (p : Parcel) (j : ℕ)
      → NoWrap p
      → Checked p.m_objects_size 0 0 p
      → suc j < p.m_objects_size
      → entry p.m_objects j + object_size ≤ entry p.m_objects (suc j)
  next_object p j no_wrap c lt =
      let small = no_wrap j (omega (arith, lt)) in
      let step = c.apart j (omega arith) (omega (arith, lt)) in omega (arith, small, step)

  later_object :
      (p : Parcel) (d i j : ℕ)
      → NoWrap p
      → Checked p.m_objects_size 0 0 p
      → suc (d + i) ≡ j
      → j < p.m_objects_size
      → entry p.m_objects i + object_size ≤ entry p.m_objects j
  later_object p zero i j no_wrap c e lt =
      let e' : suc i ≡ j = omega (arith, e) in
      subst (λ n. entry p.m_objects i + object_size ≤ entry p.m_objects n) e'
        (next_object p i no_wrap c (omega (arith, e, lt)))
  later_object p (suc d) i j no_wrap c e lt =
      let middle = suc (d + i) in
      let e' : suc middle ≡ j = omega (arith, e) in
      subst (λ n. entry p.m_objects i + object_size ≤ entry p.m_objects n) e'
        (omega (
          arith,
          later_object p d i middle no_wrap c refl (omega (arith, e, lt)),
          next_object p middle no_wrap c (omega (arith, e, lt)),
        ))

  checked-Ordered :
      (p : Parcel)
      → NoWrap p
      → Ordered (check_objects object_at proxy_for_handle object_size p.m_objects_size 0 0 p)
  checked-Ordered p no_wrap = elim (check_objects-Checked p.m_objects_size 0 0 p) [
    | inl both ↦ subst Ordered (sym (both.0)) (record {
      known = λ j lt. (both.1).known j (omega arith) (omega arith);
      apart = λ i j before lt.
          later_object p (j - suc i) i j no_wrap (both.1) (omega (arith, before)) lt;
    })
    | inr none_left ↦ record {
      known = λ j lt. absurd (omega (arith, none_left));
      apart = λ i j before lt. absurd (omega (arith, none_left));
    }
  ]

  scanned-Ordered : (p : Parcel) → Ordered p → Ordered (scan_for_fds object_at proxy_for_handle p)
  unfolding scan_for_fds
  scanned-Ordered p o = record { known = o.known; apart = o.apart }

  -- Where the driver hands over no object that ends beyond the address space, the objects that
  -- ipcSetDataReference leaves in the parcel are all of a known kind, and each ends before every later one
  -- begins.
  pub ipc_set_data_reference-Ordered :
      (bytes objects : Array) (count : ℕ) (has_owner : Bool) (p : Parcel)
      → ((j : ℕ) → j < count → objects.at j + object_size < 2 ^ 64)
      → Ordered (
          ipc_set_data_reference object_at proxy_for_handle object_size bytes objects count
            has_owner p)
  unfolding ipc_set_data_reference
  ipc_set_data_reference-Ordered bytes objects count has_owner p no_wrap = scanned-Ordered _ (
      checked-Ordered
        (record (free_data_no_init object_at proxy_for_handle p) {
          m_error = no_error;
          m_data = some bytes;
          m_data_size = bytes.room;
          m_data_capacity = bytes.room;
          m_objects = some objects;
          m_objects_size = count;
          m_objects_capacity = count;
          m_next_object_hint = 0;
          m_objects_sorted = false;
          m_owner = has_owner;
        })
        no_wrap)
