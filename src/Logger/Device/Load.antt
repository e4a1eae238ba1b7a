-- ===== src/Logger/Device/Load.antt =====
-- The start of the module logger.c: the four channels.
use droid_kernal.Prelude.{length, ◌+◌, ◌*◌, ℕ, ◌^◌, ◌≤◌, ◌≡◌, List, [], ◌∷◌, ◌++◌, map, some, ◌⊎◌}
use droid_kernal.Logger.Types.{Log, Ret, ret, err, Errno, e_nomem}
use droid_kernal.Prelude.Heap.{Heap}
use droid_kernal.Logger.Device.{Link, to_log, dangling, Driver, Answers, refused}
use droid_kernal.Logger.Device.Create.{AllStanding}

-- One of the calls was refused its registration with `e`, and its channel was at `a`.
abbrev pub Refused : List (Answers × ℕ) → Errno → ℕ → Type 0
Refused [] e a = ⊥
Refused ((k, order) ∷ ks) e a =
    ((k.misc_register ≡ refused e) × (k.kzalloc ≡ some a)) ⊎ Refused ks e a

-- One more channel.
record Added (size : ℕ) (d : Driver) (out : Ret × Driver) : Type 0 where
  log : Log
  returns : out.0 ≡ ret 0
  list_is : out.1.log_list ≡ d.log_list ++ (to_log log ∷ [])
  size_is : log.size ≡ size
  standing : AllStanding out.1.heap out.1.log_list
  no_bad : out.1.heap.bad ≡ d.heap.bad
  three : length out.1.heap.live ≡ length d.heap.live + 3

-- No channel, and the heap as it was; the list has the freed channel if its registration was refused.
record Failed (k : Answers) (d : Driver) (out : Ret × Driver) : Type 0 where
  e : Errno
  returns : out.0 ≡ err e
  heap_is : out.1.heap ≡ d.heap
  list_is :
      ((e ≡ e_nomem) × (out.1.log_list ≡ d.log_list))
      ⊎ ((a : ℕ) × (k.misc_register ≡ refused e)
          × (k.kzalloc ≡ some a)
          × (out.1.log_list ≡ d.log_list ++ (dangling a ∷ [])))

-- The sizes of the channels that are allocated.
abbrev pub sizes : List Link → List ℕ
sizes [] = []
sizes (to_log log ∷ links) = log.size ∷ sizes links
sizes (dangling a ∷ links) = sizes links

abbrev orders_of : List (Answers × ℕ) → List (Answers × ℕ)
orders_of = map (λ (k, order). (k, 2 ^ order))

abbrev InRange : List (Answers × ℕ) → Type 0
InRange [] = Unit {0}
InRange ((k, order) ∷ ks) = (64 ≤ 2 ^ order) × (2 ^ order ≤ 2 ^ 31) × InRange ks

-- How the start ends: with all channels of the sizes asked for, or with an error. With an error the
-- elements before the last are channels, and the last is one too where memory ran out; where a
-- registration was refused, it is the channel that was freed for that. Each channel that was added
-- has taken three allocations, and nothing else is left of the calls.
pub record Loaded (asked : List ℕ) (refused_at : Errno → ℕ → Type 0) (d : Driver) (r : Ret)
    (d' : Driver) : Type 0 where
  pub links : List Link
  pub standing : AllStanding d'.heap links
  pub no_bad : d'.heap.bad ≡ d.heap.bad
  pub no_leak : length d'.heap.live + 3 * length d.log_list ≡ length d.heap.live + 3 * length links
  pub ends :
      ((r ≡ ret 0) × (d'.log_list ≡ links) × (sizes links ≡ sizes d.log_list ++ asked))
      ⊎ ((r ≡ err e_nomem) × (d'.log_list ≡ links))
      ⊎ ((e : Errno) × (a : ℕ) × (r ≡ err e)
          × refused_at e a
          × (d'.log_list ≡ links ++ (dangling a ∷ [])))

abbrev asked_of : List (Answers × ℕ) → List ℕ
asked_of = map (λ (k, order). 2 ^ order)

abbrev LoadedBy : List (Answers × ℕ) → Driver → Ret × Driver → Type 0
LoadedBy ks d (r, d') = Loaded (asked_of ks) (Refused ks) d r d'
