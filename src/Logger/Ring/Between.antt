-- ===== src/Logger/Ring/Between.antt =====
-- `is_between` as a distance round the ring.
use droid_kernal.Prelude.{ℕ, ◌+◌, ◌-◌, ◌≤◌, ◌<◌, ◌≡◌, ◌≢◌, ◌↔◌, true, arith, ltb, if◌then◌else◌}
use droid_kernal.Logger.Ring.{is_between}

-- How far `b` lies ahead of `a` in a ring of `size` offsets.
abbrev pub distance : ℕ → ℕ → ℕ → ℕ
distance size a b = if ltb b a then b + size - a else b - a

-- For offsets within the ring and a move from a to another offset b, `is_between a b c` holds
-- exactly when c lies ahead of a, and no further than b.
is_between_lem :
    (size a b c : ℕ)
    → a < size
    → b < size
    → c < size
    → a ≢ b
    → (is_between a b c ≡ true)
      ↔ ((0 < distance size a c) × (distance size a c ≤ distance size a b))
unfolding is_between
is_between_lem size a b c ha hb hc ne = (λ h. ground arith, λ h. ground arith)
