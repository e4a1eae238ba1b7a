-- ===== src/Logger/Memory.antt =====
-- The bytes behind `log->buffer`, and the copies that logger.c makes into and out of them.
-- An address counts from the start of the buffer; the memory goes on past its end, so a copy
-- that leaves the buffer shows in the list of spans that an operation returns.
use droid_kernal.Prelude.{
  ℕ, zero, suc, ◌+◌, ◌≤◌, ◌<◌, ◌≡◌, refl, sym, ap, ap₂, ◌∙◌, ◌⊎◌, inl, inr, List, [], ◌∷◌, ◌++◌,
  arith, length, ◌==◌, if◌then◌else◌,
}

abbrev pub Mem : Type 0
Mem = ℕ → ℕ

-- `*(buffer + p) = v`
unfoldable pub poke : Mem → ℕ → ℕ → Mem
poke m p v q = if p == q then v else m q

-- `memcpy(buffer + p, bytes, n)`
unfoldable pub store : Mem → ℕ → List ℕ → Mem
store m p [] = m
store m p (b ∷ bs) = store (poke m p b) (p + 1) bs

-- The `n` bytes from address `p` on.
unfoldable pub slice : Mem → ℕ → ℕ → List ℕ
slice m p zero = []
slice m p (suc n) = m p ∷ slice m (p + 1) n

-- One access to the buffer: its first address and its length.
pub record Span : Type 0 where
  pub start : ℕ
  pub len : ℕ

abbrev pub span : ℕ → ℕ → Span
span p n = record { start = p; len = n }

-- Every access stays within the `size` bytes of the buffer.
abbrev pub AllWithin : ℕ → List Span → Type 0
AllWithin size [] = Unit {0}
AllWithin size (s ∷ ss) = (s.start + s.len ≤ size) × AllWithin size ss

pub length-slice : (m : Mem) (p n : ℕ) → length (slice m p n) ≡ n
unfolding slice
length-slice m p zero = refl
length-slice m p (suc n) = ap suc (length-slice m (p + 1) n)

-- A copy changes no byte outside its span.
pub store_outside :
    (m : Mem) (p : ℕ) (bs : List ℕ) (q : ℕ) → (q < p) ⊎ (p + length bs ≤ q) → store m p bs q ≡ m q
unfolding store poke
store_outside m p [] q h = refl
store_outside m p (b ∷ bs) q (inl h) =
    ground (arith, store_outside (poke m p b) (p + 1) bs q (inl (omega arith)))
store_outside m p (b ∷ bs) q (inr h) =
    ground (arith, store_outside (poke m p b) (p + 1) bs q (inr (omega arith)))

-- A read that does not meet the copied span reads what was there.
pub slice-store_apart :
    (m : Mem) (p : ℕ) (bs : List ℕ) (q n : ℕ)
    → (q + n ≤ p) ⊎ (p + length bs ≤ q)
    → slice (store m p bs) q n ≡ slice m q n
unfolding slice
slice-store_apart m p bs q zero h = refl
slice-store_apart m p bs q (suc n) (inl h) =
    ap₂ ◌∷◌ (store_outside m p bs q (inl (omega arith)))
      (slice-store_apart m p bs (q + 1) n (inl (omega arith)))
slice-store_apart m p bs q (suc n) (inr h) =
    ap₂ ◌∷◌ (store_outside m p bs q (inr (omega arith)))
      (slice-store_apart m p bs (q + 1) n (inr (omega arith)))

-- A read of the copied span gives the copied bytes.
pub slice-store_self :
    (m : Mem) (p : ℕ) (bs : List ℕ) (n : ℕ) → n ≡ length bs → slice (store m p bs) p n ≡ bs
unfolding slice store
slice-store_self m p [] zero h = refl
slice-store_self m p [] (suc n) h = absurd (omega arith)
slice-store_self m p (b ∷ bs) zero h = absurd (omega arith)
slice-store_self m p (b ∷ bs) (suc n) h =
    ap₂ ◌∷◌ (store_outside (poke m p b) (p + 1) bs p (inl (omega arith)) ∙ poked)
      (slice-store_self (poke m p b) (p + 1) bs n (omega arith))
  where
    poked : poke m p b p ≡ b
    poked = unfold poke in ground arith

-- A copy of two pieces is the copy of one behind the other.
pub store-append :
    (m : Mem) (p : ℕ) (xs ys : List ℕ)
    → store m p (xs ++ ys) ≡ store (store m p xs) (p + length xs) ys
unfolding store
store-append m p [] ys = ap (λ q. store m q ys) (omega arith)
store-append m p (x ∷ xs) ys =
    store-append (poke m p x) (p + 1) xs ys
    ∙ ap (λ q. store (store (poke m p x) (p + 1) xs) q ys) (omega arith)

pub store_join :
    (m : Mem) (p n : ℕ) (xs ys : List ℕ)
    → length xs ≡ n
    → store (store m p xs) (p + n) ys ≡ store m p (xs ++ ys)
store_join m p n xs ys e =
    ap (λ k. store (store m p xs) (p + k) ys) (sym e) ∙ sym (store-append m p xs ys)
