-- ===== src/Utils/Vector/Resize.antt =====
-- editResize of SharedBuffer.cpp under a vector: the items stay, wherever the buffer goes.
use droid_kernal.Prelude.{
  ℕ, suc, ◌*◌, ◌≤◌, ◌<◌, ◌≡◌, ◌≢◌, inl, inr, sym, subst, Bool-cases, Option-cases, Option, some,
  min, ◌==◌, arith,
}
use native.Mathlib.Nat.{mul_comm, mul-le-mul_left}
use droid_kernal.Utils.SharedBuffer.{
  Memory, Answers, first_bytes, alloc, dealloc, only_owner, release, resize_copy, resize_own,
  edit_resize,
}

-- Item `i` of `count` lies in the bytes of all.
pub item-le : (w i count bytes : ℕ) → i < count → count * w ≤ bytes → suc i * w ≤ bytes
item-le w i count bytes h fits =
    let one : w * suc i ≤ w * count = mul-le-mul_left w (omega (arith, h)) in
    omega (arith, one, fits, mul_comm w (suc i), mul_comm w count)

-- The buffer after it was resized: its address, its size, and the items that it had.
pub record Resized {A : Type 0} (w count size at : ℕ) (mem : Memory A) (out : Option ℕ × Memory A)
    : Type 0 where
  pub to : ℕ
  pub to_is : out.0 ≡ some to
  pub size_is : (out.1 to).m_size ≡ size
  pub kept : (i : ℕ) → i < count → (out.1 to).slots i ≡ (mem at).slots i
  pub owner_kept : (mem at).m_refs ≢ 1 → (at ≢ to) × ((out.1 at).slots ≡ (mem at).slots)

module _ {A : Type 0} (k : Answers) (w count size at to : ℕ) (mem : Memory A)
    (memory : k.malloc ≡ some to) (other : to ≢ at) (fits : count * w ≤ (mem at).m_size)
    (enough : count * w ≤ size) where
  first_bytes-kept :
      (i : ℕ)
      → i < count
      → first_bytes w (min (mem at).m_size size) (mem at).slots i ≡ (mem at).slots i
  first_bytes-kept i h =
      ground (arith, item-le w i count (mem at).m_size h fits, item-le w i count size h enough)

  resize_copy-Resized : Resized w count size at mem (resize_copy k w size at mem)
  unfolding resize_copy alloc release dealloc only_owner
  resize_copy-Resized = record {
    to = to;
    to_is = ground arith;
    size_is = ground arith;
    kept = λ i h. ground (arith, first_bytes-kept i h);
    owner_kept = λ shared. ((λ q. other (sym q)), ground arith);
  }

  resize_own-Resized :
      (mem at).m_refs ≡ 1 → Resized w count size at mem (resize_own k w size at mem)
  unfolding resize_own dealloc
  resize_own-Resized own = elim (Bool-cases ((mem at).m_size == size)) [
    | inl same ↦ record {
      to = at;
      to_is = ground arith;
      size_is = ground arith;
      kept = λ i h. ground arith;
      owner_kept = λ shared. absurd (shared own);
    }
    | inr differs ↦ elim (Option-cases k.realloc) [
      | inl e ↦
          let q : resize_own k w size at mem ≡ resize_copy k w size at mem = ground arith in
          subst (Resized w count size at mem) (sym q) resize_copy-Resized
      | inr (r, e) ↦ record {
        to = r;
        to_is = ground arith;
        size_is = ground arith;
        kept = λ i h. ground (arith, first_bytes-kept i h);
        owner_kept = λ shared. absurd (shared own);
      }
    ]
  ]

  pub edit_resize-Resized : Resized w count size at mem (edit_resize k w size at mem)
  unfolding edit_resize only_owner
  edit_resize-Resized = elim (Bool-cases ((mem at).m_refs == 1)) [
    | inl own ↦
        let q : edit_resize k w size at mem ≡ resize_own k w size at mem = ground arith in
        subst (Resized w count size at mem) (sym q) (resize_own-Resized (ground arith))
    | inr shared ↦
        let q : edit_resize k w size at mem ≡ resize_copy k w size at mem = ground arith in
        subst (Resized w count size at mem) (sym q) resize_copy-Resized
  ]
