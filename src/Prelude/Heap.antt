-- ===== src/Prelude/Heap.antt =====
-- The kernel's heap, as far as the drivers use it: the addresses that are allocated.
use Prim.Native.Nat.{ℕ, ◌-◌}
use mathlib.Core.Path.{◌≡◌}
use mathlib.Core.Bool.{Bool, false, ◌||◌}
use mathlib.Core.List.{List, [], ◌∷◌}
use native.Mathlib.Omega.{arith}
use droid_kernal.Prelude.Lists.{occurrences}
use droid_kernal.Prelude.Tests.{◌==◌, if◌then◌else◌}

-- The addresses that are allocated, and those that were freed without being so.
pub record Heap : Type 0 where
  pub live : List ℕ
  pub bad : List ℕ

unfoldable pub drop_addr : ℕ → List ℕ → List ℕ
drop_addr a [] = []
drop_addr a (b ∷ bs) = if b == a then bs else b ∷ drop_addr a bs

unfoldable pub has_addr : ℕ → List ℕ → Bool
has_addr a [] = false
has_addr a (b ∷ bs) = b == a || has_addr a bs

unfoldable pub kfree : ℕ → Heap → Heap
kfree a h =
    if has_addr a h.live
    then record h { live = drop_addr a h.live }
    else record h { bad = a ∷ h.bad }

abbrev pub kmalloc_at : ℕ → Heap → Heap
kmalloc_at a h = record h { live = a ∷ h.live }

-- What was allocated last is freed without a trace.
pub kfree-kmalloc_at : (a : ℕ) (h : Heap) → kfree a (kmalloc_at a h) ≡ h
unfolding kfree has_addr drop_addr
kfree-kmalloc_at a h = ground arith

-- What is taken out goes from the list once, and nothing else does.
pub occurrences-drop_addr :
    (n a : ℕ) (xs : List ℕ)
    → occurrences n (drop_addr a xs) ≡ (if a == n then occurrences n xs - 1 else occurrences n xs)
unfolding drop_addr
occurrences-drop_addr n a [] = ground arith
occurrences-drop_addr n a (x ∷ xs) = ground (arith, occurrences-drop_addr n a xs)
