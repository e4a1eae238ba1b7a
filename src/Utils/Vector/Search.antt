-- ===== src/Utils/Vector/Search.antt =====
-- SortedVectorImpl::_indexOrderOf of VectorImpl.cpp: the binary search in a sorted vector.
use droid_kernal.Prelude.{
  ℕ, zero, suc, ◌+◌, ◌-◌, ◌/◌, ◌<◌, ◌≤◌, ◌≡◌, ◌⊎◌, inl, inr, refl, Option, none, some, Bool, true,
  false, ◌==◌, ltb, ltb→lt, ltb→le, if◌then◌else◌, arith,
}

-- The sign of the result of do_compare.
pub data Sign : Type 0 where
  less : Sign
  same : Sign
  greater : Sign

-- What the search answers: the index or NAME_NOT_FOUND, and `*order`.
pub record Place : Type 0 where
  pub index : Option ℕ
  pub order : ℕ

module _ {ℓ} {A : Type ℓ} (do_compare : A → A → Sign) (items : ℕ → A) (item : A) where
  -- The loop, with `h` one more than in the source, where it can be -1, and the rounds on fuel.
  unfoldable pub search : ℕ → ℕ → ℕ → Option Place
  search zero l h = none
  search (suc fuel) l h =
      let mid = l + (h - 1 - l) / 2 in
      let right = search fuel (mid + 1) h in
      let left = search fuel l mid in
      if ltb l h
      then elim (do_compare (items mid) item) [
        | less ↦ right
        | same ↦ some (record { index = some mid; order = mid })
        | greater ↦ left
      ]
      else some (record { index = none; order = l })

  -- `count` items, with as many rounds as there are items and one more.
  unfoldable pub index_order_of : ℕ → Option Place
  index_order_of count =
      let found = search (suc count) 0 count in
      if count == 0 then some (record { index = none; order = 0 }) else found

  -- The items below the one searched for come first, and those above it last.
  pub record Sorted (count : ℕ) : Type 0 where
    pub up :
        (i j : ℕ)
        → i ≤ j
        → j < count
        → do_compare (items j) item ≡ less
        → do_compare (items i) item ≡ less
    pub down :
        (i j : ℕ)
        → i ≤ j
        → j < count
        → do_compare (items i) item ≡ greater
        → do_compare (items j) item ≡ greater

  -- The place of the item, or the one to insert it at.
  abbrev pub IsPlace : ℕ → Place → Type 0
  IsPlace count p =
      (p.index ≡ some p.order × p.order < count × do_compare (items p.order) item ≡ same)
      ⊎ (p.index ≡ none
          × p.order ≤ count
          × ((i : ℕ) → i < p.order → do_compare (items i) item ≡ less)
          × ((i : ℕ) → p.order ≤ i → i < count → do_compare (items i) item ≡ greater))

  -- What holds at the head of the loop.
  record Narrowed (count l h : ℕ) : Type 0 where
    ordered : l ≤ h
    within : h ≤ count
    below : (i : ℕ) → i < l → do_compare (items i) item ≡ less
    above : (i : ℕ) → h ≤ i → i < count → do_compare (items i) item ≡ greater

  -- The search ended, at the right place.
  abbrev Found : ℕ → Option Place → Type 0
  Found count r = (p : Place) × (r ≡ some p) × IsPlace count p

  branch-Found :
      (count : ℕ) (in_range : Bool) (c : Sign) (right here left stop : Option Place)
      → (in_range ≡ true → c ≡ less → Found count right)
      → (in_range ≡ true → c ≡ same → Found count here)
      → (in_range ≡ true → c ≡ greater → Found count left)
      → (in_range ≡ false → Found count stop)
      → Found count
          (if in_range then elim c [ less ↦ right | same ↦ here | greater ↦ left ] else stop)
  branch-Found count true less right here left stop a b c d = a refl refl
  branch-Found count true same right here left stop a b c d = b refl refl
  branch-Found count true greater right here left stop a b c d = c refl refl
  branch-Found count false sign right here left stop a b c d = d refl

  middle_lem : (l h : ℕ) → l < h → l ≤ l + (h - 1 - l) / 2 × l + (h - 1 - l) / 2 < h
  middle_lem l h lt = (omega arith, omega arith)

  right-Narrowed :
      (count l h mid : ℕ)
      → Sorted count
      → Narrowed count l h
      → mid < h
      → do_compare (items mid) item ≡ less
      → Narrowed count (mid + 1) h
  right-Narrowed count l h mid s n lt e = record {
    ordered = omega arith;
    within = n.within;
    below = λ i below_mid. s.up i mid (omega arith) (omega (arith, n.within)) e;
    above = n.above;
  }

  left-Narrowed :
      (count l h mid : ℕ)
      → Sorted count
      → Narrowed count l h
      → l ≤ mid
      → mid < h
      → do_compare (items mid) item ≡ greater
      → Narrowed count l mid
  left-Narrowed count l h mid s n le lt e = record {
    ordered = le;
    within = omega (arith, n.within);
    below = n.below;
    above = λ i from_mid inside. s.down mid i from_mid inside e;
  }

  stopped-Found :
      (count l h : ℕ)
      → Narrowed count l h
      → h ≤ l
      → Found count (some (record { index = none; order = l }))
  stopped-Found count l h n le = (
    record { index = none; order = l },
    refl,
    inr (refl, omega (arith, n.ordered, n.within), n.below, λ i from_l. n.above i (omega arith)),
  )

  search-Found :
      (count fuel l h : ℕ)
      → Sorted count
      → Narrowed count l h
      → h - l < fuel
      → Found count (search fuel l h)
  unfolding search
  search-Found count zero l h s n enough = absurd (omega arith)
  search-Found count (suc fuel) l h s n enough =
      let mid = l + (h - 1 - l) / 2 in
      branch-Found count (ltb l h) (do_compare (items mid) item) _ _ _ _
        (λ t e.
          let (low, high) = middle_lem l h (ltb→lt l h t) in
          search-Found count fuel (mid + 1) h s (right-Narrowed count l h mid s n high e)
            (omega arith))
        (λ t e.
          let (low, high) = middle_lem l h (ltb→lt l h t) in
          (record { index = some mid; order = mid }, refl, inl (refl, omega (arith, n.within), e)))
        (λ t e.
          let (low, high) = middle_lem l h (ltb→lt l h t) in
          search-Found count fuel l mid s (left-Narrowed count l h mid s n low high e)
            (omega arith))
        (λ t. stopped-Found count l h n (ltb→le l h t))

  -- The search in a sorted vector ends: it gives the index of an item that compares as the same, which is also
  -- the order, or NAME_NOT_FOUND, and then every item before the order compares as less and every item from it
  -- on as greater.
  pub index_order_of-IsPlace :
      (count : ℕ) → Sorted count → (p : Place) × (index_order_of count ≡ some p) × IsPlace count p
  unfolding index_order_of
  index_order_of-IsPlace zero s = (
    record { index = none; order = 0 },
    refl,
    inr (refl, omega arith, λ i lt. absurd (omega arith), λ i le lt. absurd (omega arith)),
  )
  index_order_of-IsPlace (suc n) s =
      let (p, e, placed) =
        search-Found (suc n) (suc (suc n)) 0 (suc n) s
          (record {
            ordered = omega arith;
            within = omega arith;
            below = λ i lt. absurd (omega arith);
            above = λ i le lt. absurd (omega arith);
          })
          (omega arith) in
      (p, ground (arith, e), placed)
