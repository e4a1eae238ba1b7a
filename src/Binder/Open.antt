-- ===== src/Binder/Open.antt =====
-- binder_open of common/drivers/staging/binder/binder.c: a task opens a binder device.
pub mod Laws
use droid_kernal.Prelude.{ℕ, ◌==◌, ◌||◌, Bool, true, false, List, [], ◌∷◌, if◌then◌else◌}
use droid_kernal.Binder.Types.{Uapi, Ret, zero_ret, err, e_nomem, inc32, binder_supported_policy}
use droid_kernal.Binder.Tree.{leaf}
use droid_kernal.Binder.Proc.{Proc}
use droid_kernal.Binder.Alloc.{Alloc, binder_alloc_init}

-- struct binder_priority
pub record Priority : Type 0 where
  pub sched_policy : ℕ
  pub prio : ℕ

-- An open file: the process's own struct with the parts that only binder_open sets. `device` is the
-- device whose context it uses, by the minor number, and `leader` the group leader that it counts.
pub record OpenProc : Type 0 where
  pub proc : Proc
  pub alloc : Alloc
  pub leader : ℕ
  pub device : ℕ
  pub default_priority : Priority

-- The current task and the answer of kzalloc.
pub record Opener : Type 0 where
  pub leader : ℕ
  pub policy : ℕ
  pub normal_prio : ℕ
  pub kzalloc_ok : Bool

-- `binder_procs`, the latest first; the reference counts of the devices by minor number; the uses of the
-- task structs, the latest first; and how many processes were counted.
pub record Driver : Type 0 where
  pub procs : List OpenProc
  pub device_ref : ℕ → ℕ
  pub tasks_held : List ℕ
  pub procs_created : ℕ

-- A zeroed struct after its list heads are set up.
abbrev pub new_proc : ℕ → Proc
new_proc pid = record {
  pid = pid;
  threads = leaf;
  nodes = leaf;
  todo = [];
  waiting_threads = [];
  max_threads = 0;
  tmp_ref = 0;
  woken = [];
}

unfoldable pub default_priority : Uapi → Opener → Priority
default_priority u o =
    if binder_supported_policy u o.policy
    then record { sched_policy = o.policy; prio = o.normal_prio }
    else record { sched_policy = u.sched_normal; prio = u.nice_to_prio 0 }

-- The walk over `binder_procs`.
unfoldable pub existing_pid : ℕ → List OpenProc → Bool
existing_pid pid [] = false
existing_pid pid (p ∷ ps) = if p.proc.pid == pid then true else existing_pid pid ps

-- What is opened, besides the result.
pub data Opened : Type 0 where
  opened : OpenProc → Bool → Driver → Opened
  not_opened : Ret → Driver → Opened

-- `refcount_inc` is the kernel's; `device` is the minor number of the file that is opened.
module _ (refcount_inc : ℕ → ℕ) (u : Uapi) where
  abbrev pub count_device : ℕ → (ℕ → ℕ) → ℕ → ℕ
  count_device device ref k = if k == device then refcount_inc (ref k) else ref k

  unfoldable pub binder_open : ℕ → Opener → Driver → Opened
  unfolding default_priority binder_alloc_init
  binder_open device o d =
      let p : OpenProc = record {
        proc = new_proc o.leader;
        alloc = binder_alloc_init o.leader;
        leader = o.leader;
        device = device;
        default_priority = default_priority u o;
      } in
      if o.kzalloc_ok
      then opened p (existing_pid o.leader d.procs) (record {
        procs = p ∷ d.procs;
        device_ref = count_device device d.device_ref;
        tasks_held = o.leader ∷ d.tasks_held;
        procs_created = inc32 d.procs_created;
      })
      else not_opened (err e_nomem) d
