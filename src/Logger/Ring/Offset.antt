-- ===== src/Logger/Ring/Offset.antt =====
-- Offsets in a log whose size is a power of two.
use droid_kernal.Prelude.{
  ℕ, ◌-◌, ◌*◌, ◌%◌, ◌^◌, ◌≤◌, ◌<◌, ◌≡◌, sym, ◌∙◌, ap, List, [], ◌∷◌, arith, ltb, if◌then◌else◌,
  bit_and, Bool-cases, inl, inr,
}
use droid_kernal.Prelude.Bits.{bit_and_mask}
use native.Mathlib.Nat.{mod-lt, mod-eq_of_lt, mod-eq-sub-mod}
use droid_kernal.Logger.Types.{Log, Reader, entry_size, sub_size}
use droid_kernal.Logger.Ring.{logger_offset}

abbrev pub AllBelow : ℕ → List Reader → Type 0
AllBelow size [] = Unit {0}
AllBelow size (r ∷ rs) = (r.r_off < size) × AllBelow size rs

-- A log as `create_log` makes it and the operations keep it.
pub record IsValid (log : Log) : Type 0 where
  pub order : ℕ
  pub size_pow : log.size ≡ 2 ^ order
  pub size_min : 2 * entry_size ≤ log.size
  pub size_max : log.size ≤ 2 ^ 31
  pub w_in : log.w_off < log.size
  pub head_in : log.head < log.size
  pub readers_in : AllBelow log.size log.readers

-- On a valid log masking is the remainder by the size.
pub logger_offset-eq-mod : (log : Log) (n : ℕ) → IsValid log → logger_offset log n ≡ n % log.size
unfolding logger_offset
logger_offset-eq-mod log n v =
    ap (bit_and n) mask ∙ bit_and_mask v.order n ∙ ap (λ s. n % s) (sym v.size_pow)
  where
    mask : sub_size log.size 1 ≡ 2 ^ v.order - 1
    mask = omega arith

pub logger_offset-lt : (log : Log) (n : ℕ) → IsValid log → logger_offset log n < log.size
logger_offset-lt log n v =
    omega (arith, logger_offset-eq-mod log n v, mod-lt n {m = log.size} (omega arith))

-- Less than twice the size is wrapped by one subtraction.
pub logger_offset_once :
    (log : Log) (n : ℕ)
    → IsValid log
    → n < 2 * log.size
    → logger_offset log n ≡ (if ltb n log.size then n else n - log.size)
logger_offset_once log n v h = elim (Bool-cases (ltb n log.size)) [
  | inl e ↦ rw e (logger_offset-eq-mod log n v ∙ mod-eq_of_lt (ground arith))
  | inr e ↦
      rw e
        (logger_offset-eq-mod log n v ∙ mod-eq-sub-mod (ground arith) ∙ mod-eq_of_lt (ground arith))
]
