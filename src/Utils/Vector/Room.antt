-- ===== src/Utils/Vector/Room.antt =====
-- _grow of VectorImpl.cpp in full, with editArrayImpl below it.
use droid_kernal.Prelude.{
  ℕ, suc, ◌+◌, ◌*◌, ◌/◌, ◌^◌, ◌≤◌, ◌<◌, ◌≡◌, ◌≢◌, inl, inr, refl, sym, ap, ◌∙◌, subst, true,
  Bool-cases, Option-cases, some, ltb, ◌==◌, if_true, if_false, arith,
}
use native.Mathlib.Nat.{mul_comm, mul-le-mul_left, le-div_iff_mul-le}
use droid_kernal.Utils.SharedBuffer.{Memory, Answers, put, no_items, alloc, only_owner}
use droid_kernal.Utils.Vector.{
  Vector, add64, mul64, copy_slots, with_data, capacity, release_storage, edit_copy,
  edit_array_impl,
}
use droid_kernal.Utils.Vector.Grow.{
  new_capacity, items_of, open_gap, after_storage, after_edit, grow,
}
use droid_kernal.Utils.Vector.Gap.{
  Within, Gapped, release_storage-other, release_storage-shared, open_gap-other,
  grow_storage-Gapped, open_gap-Gapped,
}

-- The vector with a buffer of its own, and the items that it had.
record Edited {A : Type 0} (at size : ℕ) (v : Vector) (mem : Memory A) (v' : Vector) (m' : Memory A)
    : Type 0 where
  new_at : ℕ
  vector_is : v' ≡ record v { m_storage = some new_at }
  kept : (i : ℕ) → i < v.m_count → (m' new_at).slots i ≡ (mem at).slots i
  size_is : (m' new_at).m_size ≡ size
  own : (m' new_at).m_refs ≡ 1
  old_kept : (mem at).m_refs ≢ 1 → (at ≢ new_at) × ((m' at).slots ≡ (mem at).slots)

-- There is memory for a buffer somewhere else, and no size wraps.
pub record CanGrow (k : Answers) (num : ℕ) (v : Vector) : Type 0 where
  pub to : ℕ
  pub has_memory : k.malloc ≡ some to
  pub elsewhere : v.m_storage ≢ some to
  pub one_byte : 0 < v.m_item_size
  pub no_wrap : (2 * (v.m_count + num) + 4) * v.m_item_size < 2 ^ 64

module _ {A : Type 0} (k : Answers) (v : Vector) (mem : Memory A) (within : Within v mem) where
  edit_array_impl-Edited :
      (at to : ℕ)
      → v.m_storage ≡ some at
      → k.malloc ≡ some to
      → to ≢ at
      → (v' : Vector) × (m' : Memory A) × (edit_array_impl k v mem ≡ some (v', m'))
        × Edited at (mem at).m_size v mem v' m'
  unfolding edit_array_impl edit_copy alloc only_owner
  edit_array_impl-Edited at to e memory other = elim (Bool-cases ((mem at).m_refs == 1)) [
    | inl own ↦ (
      v,
      mem,
      ground arith,
      record {
        new_at = at;
        vector_is = ap (λ s. record v { m_storage = s }) e;
        kept = λ i h. refl;
        size_is = refl;
        own = ground (arith, own);
        old_kept = λ shared. absurd (ground (arith, own));
      },
    )
    | inr shared ↦
        let made : Memory A =
          put to (record { m_refs = 1; m_size = (mem at).m_size; slots = no_items }) mem in
        let m = with_data to (copy_slots (mem at).slots 0 0 v.m_count (made to).slots) made in
        let same = release_storage-other v mem within 0 0 m to (λ q. ground arith) in
        (
          record v { m_storage = some to },
          release_storage v m,
          ground arith,
          record {
            new_at = to;
            vector_is = refl;
            kept = λ i h. ap (λ b. b.slots i) same ∙ ground arith;
            size_is = ap (λ b. b.m_size) same ∙ ground arith;
            own = ap (λ b. b.m_refs) same ∙ ground arith;
            old_kept = λ more.
                let old : m at ≡ mem at = ground arith in
                (
                  (λ q. other (sym q)),
                  release_storage-shared v mem within 0 0 m at e
                        (λ q. more (sym (ap (λ x. x.m_refs) old) ∙ q))
                      ∙ ap (λ x. x.slots) old,
                );
          },
        )
  ]

  -- The size that _grow asks for has room.
  grow_size :
      (num : ℕ)
      → CanGrow k num v
      → (add64 v.m_count num ≡ v.m_count + num)
        × ((v.m_count + num) * v.m_item_size
            ≤ mul64 (new_capacity (add64 v.m_count num)) v.m_item_size)
  grow_size num can =
      let w = v.m_item_size in
      let n = v.m_count + num in
      let wide : (2 * n + 4) * 1 ≤ (2 * n + 4) * w = mul-le-mul_left (2 * n + 4) can.one_byte in
      let small : n < 2 ^ 63 = omega (arith, wide, can.no_wrap) in
      let sum : add64 v.m_count num ≡ n = omega (arith, small) in
      let c = new_capacity n in
      let bounds : (n ≤ c) × (c ≤ 2 * n + 4) = (ground (arith, small), ground (arith, small)) in
      let low : w * n ≤ w * c = mul-le-mul_left w bounds.0 in
      let high : w * c ≤ w * (2 * n + 4) = mul-le-mul_left w bounds.1 in
      let fits : c * w < 2 ^ 64 =
        omega (arith, high, can.no_wrap, mul_comm w c, mul_comm w (2 * n + 4)) in
      let all : n * w ≤ mul64 c w = omega (arith, low, fits, mul_comm w n, mul_comm w c) in
      (sum, subst (λ x. n * w ≤ mul64 (new_capacity x) w) (sym sum) all)

  -- The buffer of a gap has room, so the pointer to it is not null.
  gap-pointer :
      (index num m : ℕ) (v' : Vector) (m' : Memory A)
      → CanGrow k num v
      → num ≡ suc m
      → index ≤ v.m_count
      → (g : Gapped index num v mem v' m') → ltb index (capacity v' m') ≡ true
  unfolding capacity
  gap-pointer index num m v' m' can positive inside g =
      let held : (v.m_count + num) ≤ (m' g.at).m_size / v.m_item_size =
        (le-div_iff_mul-le can.one_byte).1 g.room in
      rw (g.storage_is, g.size_same) (ground (arith, held))

  -- In the buffer that there is, or in a copy of it.
  grow_within-Gapped :
      (index num m at : ℕ)
      → CanGrow k num v
      → num ≡ suc m
      → index ≤ v.m_count
      → v.m_storage ≡ some at
      → (v.m_count + num) * v.m_item_size ≤ (mem at).m_size
      → (v' : Vector) × (m' : Memory A) × (after_edit
            (v.m_count + num)
            index
            num
            (edit_array_impl k v mem)
          ≡ some (true, record v' { m_count = v.m_count + num }, m'))
        × Gapped index num v mem v' m'
  grow_within-Gapped index num m at can positive inside e room =
      let (v0, m1, edits, ed) =
        edit_array_impl-Edited at can.to e can.has_memory
          (λ q. can.elsewhere (e ∙ ap some (sym q))) in
      let v1 = record v { m_storage = some ed.new_at } in
      let room1 : (v.m_count + num) * v.m_item_size ≤ (m1 ed.new_at).m_size =
        omega (arith, room, ed.size_is) in
      let within1 : Within v1 m1 = record {
        empty_without = λ q. absurd cc;
        fits = λ b q.
            subst (λ x. v.m_count * v.m_item_size ≤ (m1 x).m_size) (some-inj q)
              (omega (arith, within.fits at e, ed.size_is));
      } in
      let g =
        open_gap-Gapped v1 m1 within1 index num m ed.new_at positive refl ed.own inside room1 in
      let items = λ (i : ℕ) (h : i < v.m_count). ed.kept i h ∙ sym (old_items e i) in
      let gapped : Gapped index num v mem v1 (open_gap index num v1 m1) = record {
        at = g.at;
        storage_is = g.storage_is;
        below = λ i h. g.below i h ∙ items i (omega (arith, h, inside));
        above = λ i h l. g.above i h l ∙ items i l;
        flags_same = refl;
        size_same = refl;
        room = g.room;
        owner_kept = λ b q shared.
            let here : b ≡ at = cc (e, q) in
            let kept = ed.old_kept (λ r. shared (ap (λ x. (mem x).m_refs) here ∙ r)) in
            let off : b ≢ ed.new_at = λ r. kept.0 (sym here ∙ r) in
            (
              (λ r. off (r ∙ same_at g.storage_is)),
              ap (λ x. x.slots) (open_gap-other v1 m1 within1 index num ed.new_at b refl off)
                  ∙ ap (λ x. (m1 x).slots) here
                  ∙ kept.1
                  ∙ ap (λ x. (mem x).slots) (sym here),
            );
      } in
      let pointer =
        gap-pointer index num m v1 (open_gap index num v1 m1) can positive inside gapped in
      (
        v1,
        open_gap index num v1 m1,
        ap (after_edit (v.m_count + num) index num) (edits ∙ ap (λ x. some (x, m1)) ed.vector_is)
            ∙ ap (λ b. some (b, record v1 { m_count = v.m_count + num }, open_gap index num v1 m1))
                pointer,
        gapped,
      )
    where
      old_items : v.m_storage ≡ some at → (i : ℕ) → items_of v mem i ≡ (mem at).slots i
      old_items e i = ground arith

      some-inj : {x y : ℕ} → some x ≡ some y → x ≡ y
      some-inj q = cc

      same_at : {x y : ℕ} → some x ≡ some y → y ≡ x
      same_at q = cc

  -- The whole of _grow.
  pub grow-Gapped :
      (index num m : ℕ)
      → CanGrow k num v
      → num ≡ suc m
      → index ≤ v.m_count
      → (v' : Vector) × (m' : Memory A) × (grow k index num v mem
          ≡ some (true, record v' { m_count = v.m_count + num }, m'))
        × Gapped index num v mem v' m'
  unfolding grow capacity
  grow-Gapped index num m can positive inside =
      let (sum, enough) = grow_size num can in
      elim (Bool-cases (ltb (capacity v mem) (add64 v.m_count num))) [
        | inl short ↦
            let (v', m', grows, gapped) =
              grow_storage-Gapped v mem within index num k
                (mul64 (new_capacity (add64 v.m_count num)) v.m_item_size) can.to can.has_memory
                can.elsewhere inside enough in
            let pointer = gap-pointer index num m v' m' can positive inside gapped in
            (
              v',
              m',
              if_true (ltb (capacity v mem) (add64 v.m_count num)) _ _ short
                  ∙ ap (λ o. some (after_storage (add64 v.m_count num) index v mem o)) grows
                  ∙ ap (λ n. some (ltb index (capacity v' m'), record v' { m_count = n }, m')) sum
                  ∙ ap (λ b. some (b, record v' { m_count = v.m_count + num }, m')) pointer,
              gapped,
            )
        | inr roomy ↦ elim (Option-cases v.m_storage) [
          | inl e ↦ absurd (ground arith)
          | inr (at, e) ↦
              let room : (v.m_count + num) * v.m_item_size ≤ (mem at).m_size =
                (le-div_iff_mul-le can.one_byte).0 (ground arith) in
              let (v', m', grows, gapped) =
                grow_within-Gapped index num m at can positive inside e room in
              (
                v',
                m',
                if_false (ltb (capacity v mem) (add64 v.m_count num)) _ _ roomy
                    ∙ ap (λ n. after_edit n index num (edit_array_impl k v mem)) sum
                    ∙ grows,
                gapped,
              )
        ]
      ]
