-- ===== src/Logger/Device/Create.antt =====
-- Module load: what is allocated, what is freed, and what the list of channels holds.
use droid_kernal.Prelude.{ℕ, ◌^◌, ◌≤◌, ◌≡◌, refl, List, [], ◌∷◌, ◌++◌, arith, true, false}
use droid_kernal.Logger.Types.{Log}
use droid_kernal.Logger.Ring.Offset.{IsValid}
use droid_kernal.Prelude.Heap.{Heap, kmalloc_at, has_addr}
use droid_kernal.Logger.Device.{Link, to_log, dangling, Answers, ends_dangling, new_log}

-- The struct, the buffer and the name of a channel are allocated.
pub record InHeap (h : Heap) (log : Log) : Type 0 where
  pub addr_live : has_addr log.addr h.live ≡ true
  pub buffer_live : has_addr log.vaddr h.live ≡ true
  pub name_live : has_addr log.name h.live ≡ true

-- Every element of the list is a valid channel in memory that is allocated.
abbrev pub AllStanding : Heap → List Link → Type 0
AllStanding h [] = Unit {0}
AllStanding h (to_log log ∷ links) = IsValid log × InHeap h log × AllStanding h links
AllStanding h (dangling a ∷ links) = ⊥

pub AllStanding-ends_dangling :
    (h : Heap) (links : List Link) → AllStanding h links → ends_dangling links ≡ false
unfolding ends_dangling
AllStanding-ends_dangling h [] s = refl
AllStanding-ends_dangling h (to_log log ∷ []) s = refl
AllStanding-ends_dangling h (dangling a ∷ links) s = elim s [ ]
AllStanding-ends_dangling h (to_log log ∷ y ∷ links) s = AllStanding-ends_dangling h (y ∷ links) s.2

-- The three allocations of a channel.
abbrev pub allocated : ℕ → ℕ → ℕ → Heap → Heap
allocated b l n h = kmalloc_at n (kmalloc_at l (kmalloc_at b h))

InHeap-allocated :
    (b l n : ℕ) (h : Heap) (log : Log) → InHeap h log → InHeap (allocated b l n h) log
unfolding has_addr
InHeap-allocated b l n h log i = record {
  addr_live = ground (arith, i.addr_live);
  buffer_live = ground (arith, i.buffer_live);
  name_live = ground (arith, i.name_live);
}

pub AllStanding-allocated :
    (b l n : ℕ) (h : Heap) (links : List Link)
    → AllStanding h links
    → AllStanding (allocated b l n h) links
AllStanding-allocated b l n h [] s = tt
AllStanding-allocated b l n h (to_log log ∷ links) s =
    (s.0, InHeap-allocated b l n h log s.1, AllStanding-allocated b l n h links s.2)
AllStanding-allocated b l n h (dangling a ∷ links) s = elim s [ ]

pub append-AllStanding :
    (h : Heap) (links : List Link) (log : Log)
    → AllStanding h links
    → IsValid log
    → InHeap h log
    → AllStanding h (links ++ (to_log log ∷ []))
append-AllStanding h [] log s v i = (v, i, tt)
append-AllStanding h (to_log x ∷ links) log s v i =
    (s.0, s.1, append-AllStanding h links log s.2 v i)
append-AllStanding h (dangling a ∷ links) log s v i = elim s [ ]

pub new_log-IsValid :
    (k : Answers) (b l n order minor : ℕ)
    → 64 ≤ 2 ^ order
    → 2 ^ order ≤ 2 ^ 31
    → IsValid (new_log k b l n (2 ^ order) minor)
unfolding new_log
new_log-IsValid k b l n order minor lo hi = record {
  order = order;
  size_pow = refl;
  size_min = lo;
  size_max = hi;
  w_in = omega arith;
  head_in = omega arith;
  readers_in = tt;
}

pub new_log-InHeap :
    (k : Answers) (b l n size minor : ℕ) (h : Heap)
    → InHeap (allocated b l n h) (new_log k b l n size minor)
unfolding new_log has_addr
new_log-InHeap k b l n size minor h = record {
  addr_live = ground arith;
  buffer_live = ground arith;
  name_live = ground arith;
}
