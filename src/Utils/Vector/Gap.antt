-- ===== src/Utils/Vector/Gap.antt =====
-- _grow of VectorImpl.cpp: the gap that it opens, whichever way it finds the room.
use droid_kernal.Prelude.{
  ℕ, suc, ◌+◌, ◌-◌, ◌*◌, ◌≤◌, ◌<◌, ◌≡◌, ◌≢◌, inl, inr, refl, sym, ap, ◌∙◌, subst, Bool-cases,
  Option-cases, none, some, ◌==◌, arith,
}
use droid_kernal.Utils.SharedBuffer.{
  Memory, Answers, put, no_items, alloc, dealloc, only_owner, release, edit_resize,
}
use droid_kernal.Utils.Vector.{Vector, copy_slots, with_data, release_storage}
use droid_kernal.Utils.Vector.Grow.{in_place, items_of, grow_copy, grow_storage, open_gap}
use droid_kernal.Utils.Vector.Resize.{edit_resize-Resized}
use native.Mathlib.Nat.{mul_comm, mul-add}
use droid_kernal.Utils.Vector.Moves.{do_move_forward-up}

-- The gap of `num` slots at `index`: the items below it stand where they were, those from it on have moved
-- up, and there is room for all.
pub record Gapped {A : Type 0} (index num : ℕ) (v : Vector) (mem : Memory A) (v' : Vector)
    (m' : Memory A) : Type 0 where
  pub at : ℕ
  pub storage_is : v'.m_storage ≡ some at
  pub below : (i : ℕ) → i < index → (m' at).slots i ≡ items_of v mem i
  pub above : (i : ℕ) → index ≤ i → i < v.m_count → (m' at).slots (i + num) ≡ items_of v mem i
  pub flags_same : v'.m_flags ≡ v.m_flags
  pub size_same : v'.m_item_size ≡ v.m_item_size
  pub room : (v.m_count + num) * v.m_item_size ≤ (m' at).m_size
  pub owner_kept :
      (b : ℕ)
      → v.m_storage ≡ some b
      → (mem b).m_refs ≢ 1
      → (b ≢ at) × ((m' b).slots ≡ (mem b).slots)

-- The items lie within the buffer.
pub record Within {A : Type 0} (v : Vector) (mem : Memory A) : Type 0 where
  pub empty_without : v.m_storage ≡ none → v.m_count ≡ 0
  pub fits : (at : ℕ) → v.m_storage ≡ some at → v.m_count * v.m_item_size ≤ (mem at).m_size

module _ {A : Type 0} (v : Vector) (mem : Memory A) (within : Within v mem) (index num : ℕ) where
  -- What release_storage leaves of another buffer.
  pub release_storage-other :
      (m : Memory A) (at : ℕ) → v.m_storage ≢ some at → release_storage v m at ≡ m at
  unfolding release_storage release dealloc only_owner
  release_storage-other m at ne = elim (Option-cases v.m_storage) [
    | inl e ↦ ground arith
    | inr (old, e) ↦ elim (Bool-cases ((m old).m_refs == 1)) [
      | inl last ↦ ground arith
      | inr shared ↦ ground arith
    ]
  ]

  -- The buffer that another owner keeps.
  pub release_storage-shared :
      (m : Memory A) (b : ℕ)
      → v.m_storage ≡ some b
      → (m b).m_refs ≢ 1
      → (release_storage v m b).slots ≡ (m b).slots
  unfolding release_storage release only_owner
  release_storage-shared m b e shared = ground arith

  grow_copy-Gapped :
      (k : Answers) (size to : ℕ)
      → k.malloc ≡ some to
      → v.m_storage ≢ some to
      → index ≤ v.m_count
      → (v.m_count + num) * v.m_item_size ≤ size
      → (v' : Vector) × (m' : Memory A) × (grow_copy k size index num v mem ≡ some (v', m'))
        × Gapped index num v mem v' m'
  unfolding grow_copy alloc
  grow_copy-Gapped k size to memory ne inside enough =
      let made : Memory A = put to (record { m_refs = 1; m_size = size; slots = no_items }) mem in
      let front = copy_slots (items_of v mem) 0 0 index (made to).slots in
      let back = copy_slots (items_of v mem) index (index + num) (v.m_count - index) front in
      let m = with_data to back made in
      let same = release_storage-other m to ne in
      (
        record v { m_storage = some to },
        release_storage v m,
        ground arith,
        record {
          at = to;
          storage_is = refl;
          below = λ i h. ap (λ b. b.slots i) same ∙ ground arith;
          above = λ i h g. ap (λ b. b.slots (i + num)) same ∙ ground arith;
          flags_same = refl;
          size_same = refl;
          room =
              subst (λ b. (v.m_count + num) * v.m_item_size ≤ b.m_size) (sym same)
                (ground (arith, enough));
          owner_kept = λ b e shared.
              let other : b ≢ to = λ q. ne (e ∙ ap some q) in
              let old : m b ≡ mem b = ground arith in
              (
                other,
                release_storage-shared m b e (λ q. shared (sym (ap (λ x. x.m_refs) old) ∙ q))
                    ∙ ap (λ x. x.slots) old,
              );
        },
      )

  -- Whichever way the storage grows.
  pub grow_storage-Gapped :
      (k : Answers) (size to : ℕ)
      → k.malloc ≡ some to
      → v.m_storage ≢ some to
      → index ≤ v.m_count
      → (v.m_count + num) * v.m_item_size ≤ size
      → (v' : Vector) × (m' : Memory A) × (grow_storage k size index num v mem ≡ some (v', m'))
        × Gapped index num v mem v' m'
  unfolding grow_storage
  grow_storage-Gapped k size to memory ne inside enough =
      let (v1, m1, copies, gapped) = grow_copy-Gapped k size to memory ne inside enough in
      elim (Option-cases v.m_storage) [
        | inl e ↦ (v1, m1, ground (arith, copies), gapped)
        | inr (at, e) ↦ elim (Bool-cases (in_place (v.m_count == index) v)) [
          | inr moves ↦ (v1, m1, ground (arith, copies), gapped)
          | inl stays ↦
              let all : v.m_count * v.m_item_size ≤ size = omega (
                arith,
                enough,
                mul-add v.m_item_size v.m_count num,
                mul_comm v.m_item_size v.m_count,
                mul_comm v.m_item_size (v.m_count + num),
              ) in
              let r =
                edit_resize-Resized k v.m_item_size v.m_count size at to mem memory
                  (λ q. ne (e ∙ ap some (sym q))) (within.fits at e) all in
              (
                record v { m_storage = some r.to },
                (edit_resize k v.m_item_size size at mem).1,
                ground (arith, r.to_is),
                record {
                  at = r.to;
                  storage_is = refl;
                  below = λ i h. r.kept i (omega (arith, h, inside)) ∙ ground arith;
                  above = λ i h g. absurd (ground arith);
                  flags_same = refl;
                  size_same = refl;
                  room = omega (arith, enough, r.size_is);
                  owner_kept = λ b q shared.
                      subst
                        (λ x.
                          (mem x).m_refs ≢ 1
                          → (x ≢ r.to)
                            × (((edit_resize k v.m_item_size size at mem).1 x).slots
                                ≡ (mem x).slots))
                        (cc (e, q)) r.owner_kept shared;
                },
              )
        ]
      ]

  pub open_gap-other :
      (at b : ℕ) → v.m_storage ≡ some at → b ≢ at → open_gap index num v mem b ≡ mem b
  unfolding open_gap
  open_gap-other at b e ne = ground arith

  -- In a buffer of its own that has the room.
  pub open_gap-Gapped :
      (m : ℕ) (at : ℕ)
      → num ≡ suc m
      → v.m_storage ≡ some at
      → (mem at).m_refs ≡ 1
      → index ≤ v.m_count
      → (v.m_count + num) * v.m_item_size ≤ (mem at).m_size
      → Gapped index num v mem v (open_gap index num v mem)
  unfolding open_gap
  open_gap-Gapped m at positive e own inside room =
      let up =
        λ (i : ℕ). do_move_forward-up v.m_flags m index (v.m_count - index) (mem at).slots i in
      elim (Bool-cases (v.m_count == index)) [
        | inl last ↦ record {
          at = at;
          storage_is = e;
          below = λ i h. ground arith;
          above = λ i h g. absurd (ground arith);
          flags_same = refl;
          size_same = refl;
          room = ground (arith, room);
          owner_kept = λ b q shared. absurd (own_only at b e own q shared);
        }
        | inr before ↦ record {
          at = at;
          storage_is = e;
          below = λ i h. ground (arith, (up i).0 h);
          above = λ i h g. ground (arith, (up i).1 h (omega (arith, g, inside)));
          flags_same = refl;
          size_same = refl;
          room = ground (arith, room);
          owner_kept = λ b q shared. absurd (own_only at b e own q shared);
        }
      ]
    where
      own_only :
          (a b : ℕ)
          → v.m_storage ≡ some a
          → (mem a).m_refs ≡ 1
          → v.m_storage ≡ some b
          → (mem b).m_refs ≢ 1
          → ⊥
      own_only a b e own q shared = shared (cc (e, own, q))
