-- ===== src/Utils/Vector/Moves.antt =====
-- The moves of items within one buffer: move_forward_type of TypeHelpers.h upwards and downwards.
use droid_kernal.Prelude.{
  ℕ, zero, suc, ◌+◌, ◌≤◌, ◌<◌, ◌≡◌, refl, ◌∙◌, inl, inr, false, Bool-cases, Option, none, ◌==◌,
  if◌then◌else◌, arith,
}
use droid_kernal.Utils.Vector.{Traits, use_trivial_move, put_slot, move_loop, do_move_forward}

module _ {A : Type 0} (t : Traits) where
  -- The loop reads no slot behind the ones that it moves.
  move_loop-above :
      (m s n : ℕ) (slots : ℕ → Option A) (k : ℕ)
      → s + m + n ≤ k
      → s + n ≤ k
      → move_loop t (s + m) s n slots k ≡ slots k
  unfolding move_loop
  move_loop-above m s zero slots k h g = refl
  move_loop-above m s (suc n) slots k h g =
      move_loop-above m s n _ k (omega (arith, h)) (omega (arith, g)) ∙ ground arith

  move_loop-below :
      (m s n : ℕ) (slots : ℕ → Option A) (k : ℕ) → k < s → move_loop t (s + m) s n slots k ≡ slots k
  unfolding move_loop
  move_loop-below m s zero slots k h = refl
  move_loop-below m s (suc n) slots k h = move_loop-below m s n _ k h ∙ ground arith

  -- Moved up by one slot at least, each item arrives.
  move_loop-up :
      (m s n : ℕ) (slots : ℕ → Option A) (k : ℕ)
      → s ≤ k
      → k < s + n
      → move_loop t (s + suc m) s n slots (k + suc m) ≡ slots k
  unfolding move_loop
  move_loop-up m s zero slots k h g = absurd (omega (arith, h, g))
  move_loop-up m s (suc n) slots k h g = elim (Bool-cases (k == s + n)) [
    | inl last ↦
        move_loop-above (suc m) s n _ (k + suc m) (ground arith) (ground arith) ∙ ground arith
    | inr before ↦ move_loop-up m s n _ k h (ground arith) ∙ ground arith
  ]

  -- Items that move up, as bytes or one by one, arrive, and those below them stay.
  pub do_move_forward-up :
      (m s n : ℕ) (slots : ℕ → Option A) (k : ℕ)
      → (k < s → do_move_forward t (s + suc m) s n slots k ≡ slots k)
        × (s ≤ k → k < s + n → do_move_forward t (s + suc m) s n slots (k + suc m) ≡ slots k)
  unfolding do_move_forward
  do_move_forward-up m s n slots k = elim (Bool-cases (use_trivial_move t)) [
    | inl trivial ↦ ((λ h. ground arith), λ h g. ground arith)
    | inr loops ↦ (
      (λ h. ground (arith, move_loop-below (suc m) s n slots k h)),
      λ h g. ground (arith, move_loop-up m s n slots k h g),
    )
  ]

  move_loop-down :
      (s n : ℕ) (slots : ℕ → Option A) → move_loop t s (suc s) (suc n) slots s ≡ slots (suc s + n)
  unfolding move_loop
  move_loop-down s zero slots = ground arith
  move_loop-down s (suc n) slots =
      let copied = put_slot (s + suc n) (slots (suc s + suc n)) slots in
      let step : ℕ → Option A =
        if t.has_trivial_dtor then copied else put_slot (suc s + suc n) none copied in
      let moved : step (suc s + n) ≡ slots (suc s + suc n) = ground arith in
      move_loop-down s n step ∙ moved

  -- Items that are moved down by one slot, one by one, leave the last of them in the first slot.
  pub do_move_forward-down :
      (s n : ℕ) (slots : ℕ → Option A)
      → use_trivial_move t ≡ false
      → do_move_forward t s (suc s) (suc n) slots s ≡ slots (suc s + n)
  unfolding do_move_forward
  do_move_forward-down s n slots loops = ground (arith, move_loop-down s n slots)
