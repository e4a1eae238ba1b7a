-- ===== src/Utils/Tests.antt =====
-- The theorems about VectorImpl.cpp at concrete vectors.
use droid_kernal.Prelude.{
  ℕ, ◌+◌, ◌*◌, ◌/◌, ◌≤◌, ◌≡◌, refl, Bool, true, false, none, some, ◌==◌, ltb, if◌then◌else◌, arith,
}
use droid_kernal.Utils.SharedBuffer.{Memory, Answers}
use droid_kernal.Utils.Vector.{Vector, capacity}
use droid_kernal.Utils.Vector.Grow.{index_is, items_of, insert_at}
use droid_kernal.Utils.Vector.Shrink.{remove_items_at}
use droid_kernal.Utils.Vector.Search.{
  Sign, less, same, greater, Place, index_order_of, Sorted, IsPlace, index_order_of-IsPlace,
}
use droid_kernal.Utils.Vector.Gap.{Within}
use droid_kernal.Utils.Vector.Insert.{Inserted, insert_at-Inserted}
use droid_kernal.Utils.Vector.Remove.{remove_items_at_last}

-- Three numbers of 8 bytes in a buffer for four that has two owners.
abbrev numbers : ℕ → Memory ℕ
numbers refs at =
    if at == 100
    then record { m_refs = refs; m_size = 32; slots = λ k. if ltb k 3 then some (k + 10) else none }
    else record { m_refs = 0; m_size = 0; slots = λ k. none }

abbrev vector : Bool → Vector
vector trivial = record {
  m_storage = some 100;
  m_count = 3;
  m_flags = record {
    has_trivial_ctor = trivial;
    has_trivial_dtor = trivial;
    has_trivial_copy = trivial;
    has_trivial_move = trivial;
  };
  m_item_size = 8;
}

abbrev answers : Answers
answers = record { malloc = some 200; realloc = none }

numbers-Within : Within (vector true) (numbers 2)
numbers-Within = record { empty_without = λ e. absurd cc; fits = λ at e. ground arith }

insert_at-Inserted_example :
    Inserted 7 1 2
      (vector true)
      (numbers 2)
      (insert_at answers 0 (some 7) 1 2 (vector true) (numbers 2))
insert_at-Inserted_example =
    insert_at-Inserted answers (vector true) (numbers 2) 0 7 1 1 numbers-Within
      (record {
        to = 200;
        has_memory = refl;
        elsewhere = λ e. omega (arith, some-inj e);
        one_byte = omega arith;
        no_wrap = omega arith;
      })
      (omega arith)
  where
    some-inj : {x y : ℕ} → some x ≡ some y → x ≡ y
    some-inj q = cc

half_full : capacity (vector false) (numbers 1) / 2 ≤ 2
unfolding capacity
half_full = omega arith

remove_items_at_last_example :
    (v' : Vector) × (m' : Memory ℕ) × (remove_items_at answers 0 1 (vector false) (numbers 1)
      ≡ some (index_is 0, v', m'))
    × (v'.m_count ≡ 2)
    × (items_of v' m' 0 ≡ items_of (vector false) (numbers 1) 2)
remove_items_at_last_example =
    remove_items_at_last answers (vector false) (numbers 1) 100 0 1 refl refl refl refl
      (omega arith) half_full

-- Numbers in order, and the signs of their comparison.
abbrev compare_numbers : ℕ → ℕ → Sign
compare_numbers a b = if ltb a b then less else if a == b then same else greater

abbrev tens : ℕ → ℕ
tens i = 10 * i

tens-Sorted : Sorted compare_numbers tens 25 4
tens-Sorted = record { up = λ i j le lt e. ground arith; down = λ i j le lt e. ground arith }

index_order_of-IsPlace_example :
    (p : Place) × (index_order_of compare_numbers tens 25 4 ≡ some p)
    × IsPlace compare_numbers tens 25 4 p
index_order_of-IsPlace_example = index_order_of-IsPlace compare_numbers tens 25 4 tens-Sorted
