-- ===== src/Binder/Open/Laws.antt =====
-- binder_open of binder.c: the new process, and what the driver holds for the open ones.
use droid_kernal.Prelude.{
  ℕ, suc, ◌+◌, ◌-◌, ◌^◌, ◌<◌, ◌≡◌, inl, inr, refl, true, false, Bool-cases, List, [], ◌∷◌, ◌==◌,
  if◌then◌else◌, arith,
}
use droid_kernal.Binder.Types.{
  Uapi, err, e_nomem, is_rt_policy, is_fair_policy, binder_supported_policy,
}
use droid_kernal.Binder.Proc.Trees.{ThreadsInOrder, NodesInOrder}
use droid_kernal.Binder.Alloc.{binder_alloc_init}
use droid_kernal.Binder.Alloc.Mapping.{Unmapped}
use droid_kernal.Binder.Open.{
  OpenProc, Opener, Driver, Opened, opened, not_opened, default_priority, binder_open,
}

-- How many open processes use a device, and how many have a task as their leader.
unfoldable pub uses : ℕ → List OpenProc → ℕ
uses device [] = 0
uses device (p ∷ ps) = if p.device == device then suc (uses device ps) else uses device ps

unfoldable pub led_by : ℕ → List OpenProc → ℕ
led_by leader [] = 0
led_by leader (p ∷ ps) = if p.leader == leader then suc (led_by leader ps) else led_by leader ps

unfoldable pub holds : ℕ → List ℕ → ℕ
holds leader [] = 0
holds leader (t ∷ ts) = if t == leader then suc (holds leader ts) else holds leader ts

-- Each device has the references that it was made with, `base`, and one for each open process; each task
-- is held once for each process that it leads; and every process has its leader's id.
pub record Counted (base : ℕ → ℕ) (d : Driver) : Type 0 where
  pub refs_are : (device : ℕ) → d.device_ref device ≡ base device + uses device d.procs
  pub holds_are : (leader : ℕ) → holds leader d.tasks_held ≡ led_by leader d.procs

-- The new process, which is in front of the others: it has trees in order and no mapping, and a
-- priority that the driver supports.
pub record NewProc (u : Uapi) (device leader : ℕ) (before : Driver) (p : OpenProc) (after : Driver)
    : Type 0 where
  pub in_front : after.procs ≡ p ∷ before.procs
  pub pid_is : (p.proc.pid ≡ leader) × (p.alloc.pid ≡ leader) × (p.device ≡ device)
  pub leader_is : p.leader ≡ leader
  pub threads_in_order : ThreadsInOrder p.proc
  pub nodes_in_order : NodesInOrder p.proc
  pub unmapped : Unmapped p.alloc
  pub supported : binder_supported_policy u p.default_priority.sched_policy ≡ true

-- Whether the open succeeds is whether there is memory.
abbrev pub OpenLaw : Uapi → (ℕ → ℕ) → ℕ → Opener → Driver → Opened → Type 0
OpenLaw u base device o d (opened p again d') =
    (o.kzalloc_ok ≡ true) × NewProc u device o.leader d p d' × Counted base d'
OpenLaw u base device o d (not_opened r d') = (o.kzalloc_ok ≡ false) × (r ≡ err e_nomem) × (d' ≡ d)

module _ (refcount_inc : ℕ → ℕ)
    (counts_up : (n : ℕ) → 0 < n → n < 2 ^ 31 - 1 → refcount_inc n ≡ n + 1) (u : Uapi) where
  pub binder_open-Counted :
      (base : ℕ → ℕ) (device : ℕ) (o : Opener) (d : Driver)
      → Counted base d
      → 0 < base device
      → d.device_ref device < 2 ^ 31 - 1
      → OpenLaw u base device o d (binder_open refcount_inc u device o d)
  unfolding binder_open default_priority binder_supported_policy is_rt_policy is_fair_policy uses
      led_by holds binder_alloc_init
  binder_open-Counted base device o d counted made room = elim (Bool-cases o.kzalloc_ok) [
    | inr lack ↦ rw (lack, binder_open) (refl, refl, refl)
    | inl ok ↦
        rw (ok, binder_open)
          (
            refl,
            record {
              in_front = refl;
              pid_is = (refl, refl, refl);
              leader_is = refl;
              threads_in_order = tt;
              nodes_in_order = tt;
              unmapped = record { no_size = refl; no_buffers = refl; no_free = refl };
              supported = ground arith;
            },
            record {
              refs_are = λ k. ground (arith, counted.refs_are k, counts_up (d.device_ref k));
              holds_are = λ k. ground (arith, counted.holds_are k);
            },
          )
  ]
