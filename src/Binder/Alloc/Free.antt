-- ===== src/Binder/Alloc/Free.antt =====
-- The tree of free buffers of binder_alloc.c: binder_insert_free_buffer.
use droid_kernal.Prelude.{
  ℕ, ◌≤◌, ◌<◌, ◌≡◌, refl, ap, sym, ◌∙◌, inl, inr, true, false, some, List, [], ◌∷◌, ◌++◌, arith,
  ltb, append_assoc, Bool-cases, if_true, if_false, subst, ltb→lt, ltb→le,
}
use droid_kernal.Binder.Tree.{Tree, leaf, branch, to_list, KeepsOrder}
use droid_kernal.Binder.Alloc.{
  Buffer, Alloc, binder_alloc_buffer_size, link_free, to_left, to_right, with_tree,
  binder_insert_free_buffer,
}

abbrev pub All : (Buffer → Type 0) → List Buffer → Type 0
All P [] = Unit {0}
All P (x ∷ xs) = P x × All P xs

All-append : (P : Buffer → Type 0) (xs ys : List Buffer) → All P xs → All P ys → All P (xs ++ ys)
All-append P [] ys h k = k
All-append P (x ∷ xs) ys h k = (h.0, All-append P xs ys h.1 k)

All-left : (P : Buffer → Type 0) (xs ys : List Buffer) → All P (xs ++ ys) → All P xs
All-left P [] ys h = tt
All-left P (x ∷ xs) ys h = (h.0, All-left P xs ys h.1)

All-right : (P : Buffer → Type 0) (xs ys : List Buffer) → All P (xs ++ ys) → All P ys
All-right P [] ys h = h
All-right P (x ∷ xs) ys h = All-right P xs ys h.1

module _ (size : Buffer → ℕ) where
  -- In ascending order of size, each at least as large as all before it.
  abbrev pub Ascending : List Buffer → Type 0
  Ascending [] = Unit {0}
  Ascending (x ∷ xs) = All (λ b. size x ≤ size b) xs × Ascending xs

  -- The new buffer stands behind all that are no larger and before all that are larger.
  pub record Placed (new : Buffer) (old out : List Buffer) : Type 0 where
    pub before : List Buffer
    pub behind : List Buffer
    pub old_is : old ≡ before ++ behind
    pub out_is : out ≡ before ++ (new ∷ behind)
    pub no_larger : All (λ b. size b ≤ size new) before
    pub larger : All (λ b. size new < size b) behind

  Ascending-left : (xs ys : List Buffer) → Ascending (xs ++ ys) → Ascending xs
  Ascending-left [] ys h = tt
  Ascending-left (x ∷ xs) ys h = (All-left _ xs ys h.0, Ascending-left xs ys h.1)

  Ascending-right : (xs ys : List Buffer) → Ascending (xs ++ ys) → Ascending ys
  Ascending-right [] ys h = h
  Ascending-right (x ∷ xs) ys h = Ascending-right xs ys h.1

  -- What stands before an entry of an ascending list is no larger.
  Ascending-before :
      (xs : List Buffer) (y : Buffer) (ys : List Buffer)
      → Ascending (xs ++ (y ∷ ys))
      → All (λ b. size b ≤ size y) xs
  Ascending-before [] y ys h = tt
  Ascending-before (x ∷ xs) y ys h = ((All-right _ xs (y ∷ ys) h.0).0, Ascending-before xs y ys h.1)

  All-le-lt :
      (m n : ℕ) (xs : List Buffer) → n < m → All (λ b. m ≤ size b) xs → All (λ b. n < size b) xs
  All-le-lt m n [] h s = tt
  All-le-lt m n (x ∷ xs) h s = (omega arith, All-le-lt m n xs h s.1)

  All-le-le :
      (m n : ℕ) (xs : List Buffer) → m ≤ n → All (λ b. size b ≤ m) xs → All (λ b. size b ≤ n) xs
  All-le-le m n [] h s = tt
  All-le-le m n (x ∷ xs) h s = (omega arith, All-le-le m n xs h s.1)

  link_left :
      (new : Buffer) (l : Tree Buffer) (x : Buffer) (r : Tree Buffer) {l' : Tree Buffer}
      → x.free ≡ true
      → ltb (size new) (size x) ≡ true
      → link_free size new l ≡ some l'
      → link_free size new (branch l x r) ≡ some (branch l' x r)
  unfolding link_free
  link_left new l x r free small e =
      if_true x.free _ _ free
      ∙ if_true (ltb (size new) (size x)) _ _ small
      ∙ ap (λ o. to_left o x r) e

  link_right :
      (new : Buffer) (l : Tree Buffer) (x : Buffer) (r : Tree Buffer) {r' : Tree Buffer}
      → x.free ≡ true
      → ltb (size new) (size x) ≡ false
      → link_free size new r ≡ some r'
      → link_free size new (branch l x r) ≡ some (branch l x r')
  unfolding link_free
  link_right new l x r free large e =
      if_true x.free _ _ free
      ∙ if_false (ltb (size new) (size x)) _ _ large
      ∙ ap (λ o. to_right l x o) e

  All-lt-le : (n : ℕ) (xs : List Buffer) → All (λ b. n < size b) xs → All (λ b. n ≤ size b) xs
  All-lt-le n [] s = tt
  All-lt-le n (x ∷ xs) s = (omega arith, All-lt-le n xs s.1)

  Ascending-insert :
      (new : Buffer) (xs ys : List Buffer)
      → Ascending (xs ++ ys)
      → All (λ b. size b ≤ size new) xs
      → All (λ b. size new < size b) ys
      → Ascending (xs ++ (new ∷ ys))
  Ascending-insert new [] ys s below above = (All-lt-le (size new) ys above, s)
  Ascending-insert new (x ∷ xs) ys s below above = (
    All-append _ xs (new ∷ ys) (All-left _ xs ys s.0) (below.0, All-right _ xs ys s.0),
    Ascending-insert new xs ys s.1 below.1 above,
  )

  Placed-Ascending :
      (new : Buffer) (old out : List Buffer) → Placed new old out → Ascending old → Ascending out
  Placed-Ascending new old out p s =
      subst Ascending (sym p.out_is)
        (Ascending-insert new p.before p.behind (subst Ascending p.old_is s) p.no_larger p.larger)

  link_free-Placed :
      (new : Buffer) (t : Tree Buffer)
      → All (λ b. b.free ≡ true) (to_list t)
      → Ascending (to_list t)
      → (t' : Tree Buffer) × (link_free size new t ≡ some t') × Placed new (to_list t) (to_list t')
  unfolding link_free
  link_free-Placed new leaf free s = (
    branch leaf new leaf,
    refl,
    record { before = []; behind = []; old_is = refl; out_is = refl; no_larger = tt; larger = tt },
  )
  link_free-Placed new (branch l x r) free s = elim (Bool-cases (ltb (size new) (size x))) [
    | inl small ↦
        let (l', e, p) =
          link_free-Placed new l (All-left _ (to_list l) _ free) (Ascending-left (to_list l) _ s) in
        (
          branch l' x r,
          link_left new l x r (All-right _ (to_list l) _ free).0 small e,
          record {
            before = p.before;
            behind = p.behind ++ (x ∷ to_list r);
            old_is = ap (λ m. m ++ (x ∷ to_list r)) p.old_is ∙ append_assoc p.before p.behind _;
            out_is =
                ap (λ m. m ++ (x ∷ to_list r)) p.out_is ∙ append_assoc p.before (new ∷ p.behind) _;
            no_larger = p.no_larger;
            larger = All-append _ p.behind (x ∷ to_list r) p.larger (
              ltb→lt _ _ small,
              All-le-lt (size x) (size new) (to_list r) (ltb→lt _ _ small)
                  (Ascending-right (to_list l) _ s).0,
            );
          },
        )
    | inr large ↦
        let (r', e, p) =
          link_free-Placed new r (All-right _ (to_list l) _ free).1
            (Ascending-right (to_list l) _ s).1 in
        (
          branch l x r',
          link_right new l x r (All-right _ (to_list l) _ free).0 large e,
          record {
            before = to_list l ++ (x ∷ p.before);
            behind = p.behind;
            old_is =
                ap (λ m. to_list l ++ (x ∷ m)) p.old_is
                ∙ sym (append_assoc (to_list l) (x ∷ p.before) _);
            out_is =
                ap (λ m. to_list l ++ (x ∷ m)) p.out_is
                ∙ sym (append_assoc (to_list l) (x ∷ p.before) _);
            no_larger =
                All-append _ (to_list l) (x ∷ p.before)
                  (All-le-le (size x) (size new) (to_list l) (ltb→le _ _ large)
                    (Ascending-before (to_list l) x (to_list r) s))
                  (ltb→le _ _ large, p.no_larger);
            larger = p.larger;
          },
        )
  ]

-- The free buffers of an address space: all are free, and they stand in ascending order of size.
pub record FreeInOrder (a : Alloc) : Type 0 where
  pub all_free : All (λ b. b.free ≡ true) (to_list a.free_buffers)
  pub ascending : Ascending (binder_alloc_buffer_size a) (to_list a.free_buffers)

module _ (balance : Tree Buffer → Tree Buffer) (keeps : KeepsOrder balance) where
  -- Into a tree of free buffers in ascending order of size, a free buffer goes without a BUG: behind
  -- all buffers that are no larger and before all that are larger. The tree is in order then, and
  -- nothing but the tree has changed.
  pub binder_insert_free_buffer-Placed :
      (a : Alloc) (new : Buffer)
      → FreeInOrder a
      → new.free ≡ true
      → (t : Tree Buffer) × (binder_insert_free_buffer balance a new
          ≡ some (record a { free_buffers = t }))
        × Placed (binder_alloc_buffer_size a) new (to_list a.free_buffers) (to_list t)
        × Ascending (binder_alloc_buffer_size a) (to_list t)
  unfolding binder_insert_free_buffer
  binder_insert_free_buffer-Placed a new order free =
      let (t, e, p) =
        link_free-Placed (binder_alloc_buffer_size a) new a.free_buffers order.all_free
          order.ascending in
      let placed =
        subst (Placed (binder_alloc_buffer_size a) new (to_list a.free_buffers)) (sym (keeps t))
          p in
      (
        balance t,
        if_true new.free _ _ free ∙ ap (with_tree balance a) e,
        placed,
        Placed-Ascending (binder_alloc_buffer_size a) new (to_list a.free_buffers)
            (to_list (balance t)) placed order.ascending,
      )
