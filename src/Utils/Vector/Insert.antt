-- ===== src/Utils/Vector/Insert.antt =====
-- insertAt of VectorImpl.cpp.
use droid_kernal.Prelude.{
  ℕ, suc, ◌+◌, ◌*◌, ◌≤◌, ◌<◌, ◌≡◌, ◌≢◌, refl, sym, ap, ◌∙◌, subst, true, Option, some, ltb,
  if_false, arith,
}
use droid_kernal.Utils.SharedBuffer.{SharedBuffer, Memory, Answers, put}
use droid_kernal.Utils.Vector.{Vector, fill_slots, with_data}
use droid_kernal.Utils.Vector.Grow.{Status, index_is, items_of, fill_gap, after_grow, insert_at}
use droid_kernal.Utils.Vector.Gap.{Within, Gapped}
use droid_kernal.Utils.Vector.Room.{CanGrow, grow-Gapped}

-- The vector after `num` copies of an item went in at `index`.
pub record Inserted {A : Type 0} (item : A) (index num : ℕ) (v : Vector) (mem : Memory A)
    (out : Option (Status × Vector × Memory A)) : Type 0 where
  pub vector : Vector
  pub memory : Memory A
  pub is_ok : out ≡ some (index_is index, vector, memory)
  pub counted : vector.m_count ≡ v.m_count + num
  pub below : (i : ℕ) → i < index → items_of vector memory i ≡ items_of v mem i
  pub placed : (i : ℕ) → i < num → items_of vector memory (index + i) ≡ some item
  pub above :
      (i : ℕ) → index ≤ i → i < v.m_count → items_of vector memory (i + num) ≡ items_of v mem i
  pub owner_kept :
      (b : ℕ) → v.m_storage ≡ some b → (mem b).m_refs ≢ 1 → (memory b).slots ≡ (mem b).slots
  pub still_within : Within vector memory

module _ {A : Type 0} (k : Answers) (v : Vector) (mem : Memory A) where
  fill_gap-Inserted :
      (fresh item : A) (index num : ℕ) (v' : Vector) (m' : Memory A)
      → index ≤ v.m_count
      → Gapped index num v mem v' m'
      → let v2 = record v' { m_count = v.m_count + num } in
        Inserted item index num v mem
          (some (index_is index, v2, fill_gap fresh (some item) index num v2 m'))
  unfolding fill_gap
  fill_gap-Inserted fresh item index num v' m' inside g = record {
    vector = record v' { m_count = v.m_count + num };
    memory = with_data g.at (fill_slots (some item) index num (m' g.at).slots) m';
    is_ok = rw g.storage_is refl;
    counted = refl;
    below = λ i h. rw g.storage_is (ground (arith, g.below i h));
    placed = λ i h. rw g.storage_is (ground arith);
    above = λ i h l. rw g.storage_is (ground (arith, g.above i h l));
    owner_kept = λ b q shared.
        let kept = g.owner_kept b q shared in
        ap (λ x. x.slots) (put-other g.at b _ m' kept.0) ∙ kept.1;
    still_within = record {
      empty_without = λ q. absurd (cc (q, g.storage_is));
      fits = λ b q.
          subst
            (λ x.
              (v.m_count + num) * v'.m_item_size
              ≤ (with_data g.at (fill_slots (some item) index num (m' g.at).slots) m' x).m_size)
            (same b q) (rw g.size_same (ground (arith, g.room)));
    };
  }
    where
      put-other : (a b : ℕ) (x : SharedBuffer A) (m : Memory A) → b ≢ a → put a x m b ≡ m b
      put-other a b x m ne = ground arith

      same : (b : ℕ) → v'.m_storage ≡ some b → g.at ≡ b
      same b q = cc (q, g.storage_is)

  -- Where there is memory, no size wraps and the items lie in the buffer, inserting one copy of an item
  -- or more at an index of at most the count succeeds, whether the buffer is shared or not, has room
  -- or not, and however the items are moved: the items below the index stay, the copies stand at it,
  -- the items from it on stand behind them, and all lie in the buffer again. The items that another
  -- owner of the buffer sees do not change.
  pub insert_at-Inserted :
      (fresh item : A) (index m : ℕ)
      → Within v mem
      → CanGrow k (suc m) v
      → index ≤ v.m_count
      → Inserted item index (suc m) v mem (insert_at k fresh (some item) index (suc m) v mem)
  unfolding insert_at
  insert_at-Inserted fresh item index m within can inside =
      let (v', m', grows, g) = grow-Gapped k v mem within index (suc m) m can refl inside in
      let q : insert_at k fresh (some item) index (suc m) v mem
          ≡ after_grow fresh (some item) index (suc m)
              (some (true, record v' { m_count = v.m_count + suc m }, m')) =
        if_false (ltb v.m_count index) _ _ (ground arith)
        ∙ ap (after_grow fresh (some item) index (suc m)) grows in
      subst (Inserted item index (suc m) v mem) (sym q)
        (fill_gap-Inserted fresh item index (suc m) v' m' inside g)
