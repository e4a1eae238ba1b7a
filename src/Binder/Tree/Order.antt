-- ===== src/Binder/Tree/Order.antt =====
-- A tree in ascending order is the sorted list of its entries: the descent is a search of the
-- list, and the link an insertion into it.
use droid_kernal.Prelude.{
  ℕ, suc, ◌≤◌, ◌<◌, ◌≡◌, refl, ap, sym, ◌∙◌, inl, inr, List, [], ◌∷◌, ◌++◌, Option, none, some,
  arith, ltb, ◌==◌, if◌then◌else◌, Bool-cases, ltb→lt, ltb→le,
}
use droid_kernal.Binder.Tree.{Tree, leaf, branch, to_list, find, link}

module _ {A : Type 0} (key : A → ℕ) where
  -- Keys of at least `lo`, each larger than the one before it.
  abbrev pub Asc : ℕ → List A → Type 0
  Asc lo [] = Unit {0}
  Asc lo (x ∷ xs) = (lo ≤ key x) × Asc (suc (key x)) xs

  unfoldable pub lookup : ℕ → List A → Option A
  lookup k [] = none
  lookup k (x ∷ xs) = if key x == k then some x else lookup k xs

  unfoldable pub insert : A → List A → List A
  insert a [] = a ∷ []
  insert a (x ∷ xs) = if ltb (key a) (key x) then a ∷ x ∷ xs else x ∷ insert a xs

  Asc-le : (lo lo' : ℕ) (xs : List A) → lo' ≤ lo → Asc lo xs → Asc lo' xs
  Asc-le lo lo' [] h s = tt
  Asc-le lo lo' (x ∷ xs) h s = (omega arith, s.1)

  Asc-left : (lo : ℕ) (xs ys : List A) → Asc lo (xs ++ ys) → Asc lo xs
  Asc-left lo [] ys s = tt
  Asc-left lo (x ∷ xs) ys s = (s.0, Asc-left (suc (key x)) xs ys s.1)

  Asc-right :
      (lo : ℕ) (xs : List A) (y : A) (ys : List A)
      → Asc lo (xs ++ (y ∷ ys))
      → (lo ≤ key y) × Asc (suc (key y)) ys
  Asc-right lo [] y ys s = s
  Asc-right lo (x ∷ xs) y ys s =
      let (le, rest) = Asc-right (suc (key x)) xs y ys s.1 in (omega arith, rest)

  lookup_below : (k lo : ℕ) (xs : List A) → Asc lo xs → k < lo → lookup k xs ≡ none
  unfolding lookup
  lookup_below k lo [] s h = refl
  lookup_below k lo (x ∷ xs) s h = ground (arith, lookup_below k (suc (key x)) xs s.1)

  lookup_left :
      (k lo : ℕ) (xs : List A) (y : A) (ys : List A)
      → Asc lo (xs ++ (y ∷ ys))
      → k < key y
      → lookup k (xs ++ (y ∷ ys)) ≡ lookup k xs
  unfolding lookup
  lookup_left k lo [] y ys s h = ground (arith, lookup_below k (suc (key y)) ys s.1)
  lookup_left k lo (x ∷ xs) y ys s h = ground (arith, lookup_left k (suc (key x)) xs y ys s.1 h)

  lookup_right :
      (k lo : ℕ) (xs : List A) (y : A) (ys : List A)
      → Asc lo (xs ++ (y ∷ ys))
      → key y < k
      → lookup k (xs ++ (y ∷ ys)) ≡ lookup k ys
  unfolding lookup
  lookup_right k lo [] y ys s h = ground arith
  lookup_right k lo (x ∷ xs) y ys s h =
      ground
        (arith, Asc-right (suc (key x)) xs y ys s.1, lookup_right k (suc (key x)) xs y ys s.1 h)

  lookup_here :
      (lo : ℕ) (xs : List A) (y : A) (ys : List A)
      → Asc lo (xs ++ (y ∷ ys))
      → lookup (key y) (xs ++ (y ∷ ys)) ≡ some y
  unfolding lookup
  lookup_here lo [] y ys s = ground arith
  lookup_here lo (x ∷ xs) y ys s =
      ground (arith, Asc-right (suc (key x)) xs y ys s.1, lookup_here (suc (key x)) xs y ys s.1)

  -- The descent finds what a search of the sorted list finds.
  pub find-lookup :
      (k lo : ℕ) (t : Tree A) → Asc lo (to_list t) → find key k t ≡ lookup k (to_list t)
  unfolding find lookup
  find-lookup k lo leaf s = refl
  find-lookup k lo (branch l x r) s = ground (
    arith,
    find-lookup k lo l (Asc-left lo (to_list l) (x ∷ to_list r) s),
    find-lookup k (suc (key x)) r (Asc-right lo (to_list l) x (to_list r) s).1,
    lookup_left k lo (to_list l) x (to_list r) s,
    lookup_right k lo (to_list l) x (to_list r) s,
    lookup_here lo (to_list l) x (to_list r) s,
  )

  insert_left :
      (a : A) (xs : List A) (y : A) (ys : List A)
      → key a < key y
      → insert a (xs ++ (y ∷ ys)) ≡ insert a xs ++ (y ∷ ys)
  unfolding insert
  insert_left a [] y ys h = ground arith
  insert_left a (x ∷ xs) y ys h = ground (arith, insert_left a xs y ys h)

  insert_right :
      (a : A) (lo : ℕ) (xs : List A) (y : A) (ys : List A)
      → Asc lo (xs ++ (y ∷ ys))
      → key y ≤ key a
      → insert a (xs ++ (y ∷ ys)) ≡ xs ++ (y ∷ insert a ys)
  unfolding insert
  insert_right a lo [] y ys s h = ground arith
  insert_right a lo (x ∷ xs) y ys s h =
      ground
        (arith, Asc-right (suc (key x)) xs y ys s.1, insert_right a (suc (key x)) xs y ys s.1 h)

  -- The link is the insertion into the sorted list.
  pub to_list-link :
      (a : A) (lo : ℕ) (t : Tree A)
      → Asc lo (to_list t)
      → to_list (link key a t) ≡ insert a (to_list t)
  unfolding link insert
  to_list-link a lo leaf s = refl
  to_list-link a lo (branch l x r) s = elim (Bool-cases (ltb (key a) (key x))) [
    | inl e ↦ rw e (
        ap (λ xs. xs ++ (x ∷ to_list r))
          (to_list-link a lo l (Asc-left lo (to_list l) (x ∷ to_list r) s))
        ∙ sym (insert_left a (to_list l) x (to_list r) (ltb→lt _ _ e)))
    | inr e ↦ rw e (
        ap (λ ys. to_list l ++ (x ∷ ys))
          (to_list-link a (suc (key x)) r (Asc-right lo (to_list l) x (to_list r) s).1)
        ∙ sym (insert_right a lo (to_list l) x (to_list r) s (ltb→le _ _ e)))
  ]

  pub Asc-insert :
      (a : A) (lo : ℕ) (xs : List A)
      → Asc lo xs
      → lo ≤ key a
      → lookup (key a) xs ≡ none
      → Asc lo (insert a xs)
  unfolding insert lookup
  Asc-insert a lo [] s h new = (h, tt)
  Asc-insert a lo (x ∷ xs) s h new = ground (arith, Asc-insert a (suc (key x)) xs s.1)

  pub lookup-insert :
      (k : ℕ) (a : A) (lo : ℕ) (xs : List A)
      → Asc lo xs
      → lookup (key a) xs ≡ none
      → lookup k (insert a xs) ≡ (if key a == k then some a else lookup k xs)
  unfolding insert lookup
  lookup-insert k a lo [] s new = refl
  lookup-insert k a lo (x ∷ xs) s new = ground (arith, lookup-insert k a (suc (key x)) xs s.1)
