-- ===== src/Parcel/Process.antt =====
-- ProcessState.cpp of frameworks/native/libs/binder: the descriptor of the driver, its mapping and the settings
-- of a process.
use droid_kernal.Prelude.{
  ℕ, ◌+◌, ◌≡◌, Bool, true, false, Option, none, some, List, [], ◌∷◌, ◌++◌, ◌&&◌, ◌==◌,
  if◌then◌else◌, arith,
}

-- DEFAULT_MAX_BINDER_THREADS
abbrev pub default_max_threads : ℕ
default_max_threads = 15

-- What the system answers to the constructor: the descriptor of open, the value that the ioctl for the version
-- returns, none for -1, with the version that it gives, and whether mmap succeeds. `current` is
-- BINDER_CURRENT_PROTOCOL_VERSION.
pub record OpenAnswers : Type 0 where
  pub opened : Option ℕ
  pub version_result : Option ℕ
  pub vers : ℕ
  pub current : ℕ
  pub mapped : Bool

-- ProcessState, with the descriptors that were closed, none for a close of -1.
pub record ProcessState : Type 0 where
  pub m_driver_fd : Option ℕ
  pub m_vm_start : Bool
  pub m_max_threads : ℕ
  pub has_check_func : Bool
  pub closed : List (Option ℕ)

abbrev pub is_zero : Option ℕ → Bool
is_zero none = false
is_zero (some n) = n == 0

-- The tests of open_driver on a descriptor: the second is made after a failure of the first too.
unfoldable pub check_version : OpenAnswers → ℕ → Option ℕ × List (Option ℕ)
check_version k fd =
    let agrees = is_zero k.version_result && k.vers == k.current in
    elim k.version_result [
      | none ↦ (none, some fd ∷ none ∷ [])
      | some r ↦ (if agrees then (some fd, []) else (none, some fd ∷ []))
    ]

unfoldable pub open_driver : OpenAnswers → Option ℕ × List (Option ℕ)
unfolding check_version
open_driver k = elim k.opened [ none ↦ (none, []) | some fd ↦ check_version k fd ]

-- The constructor.
unfoldable pub new_process : OpenAnswers → ProcessState
unfolding open_driver
new_process k =
    let r = open_driver k in
    elim (r.0) [
      | none ↦ record {
        m_driver_fd = none;
        m_vm_start = false;
        m_max_threads = default_max_threads;
        has_check_func = false;
        closed = r.1;
      }
      | some fd ↦ record {
        m_driver_fd = if k.mapped then some fd else none;
        m_vm_start = k.mapped;
        m_max_threads = default_max_threads;
        has_check_func = false;
        closed = if k.mapped then r.1 else r.1 ++ (some fd ∷ []);
      }
    ]

-- becomeContextManager; the two ioctls answer 0, another value, or -1, which is none.
unfoldable pub become_context_manager : Option ℕ → Option ℕ → ProcessState → Bool × ProcessState
become_context_manager extended original p =
    let result = if is_zero extended then extended else original in
    elim result [
      | none ↦ (false, record p { has_check_func = false })
      | some n ↦ (n == 0, record p { has_check_func = true })
    ]

-- setThreadPoolMaxThreadCount; the error is -errno.
unfoldable pub set_max_threads : Bool → ℕ → ℕ → ProcessState → Option ℕ × ProcessState
set_max_threads accepted errno max_threads p =
    if accepted then (none, record p { m_max_threads = max_threads }) else (some errno, p)

-- How often a descriptor was closed.
abbrev pub times_closed : ℕ → List (Option ℕ) → ℕ
times_closed fd [] = 0
times_closed fd (none ∷ rest) = times_closed fd rest
times_closed fd (some n ∷ rest) =
    let later = times_closed fd rest in if n == fd then 1 + later else later

-- The descriptor that was opened is either kept, with its mapping, when the versions agree and the mapping
-- succeeds, or it is closed once and not kept.
pub new_process_lem :
    (k : OpenAnswers) (fd : ℕ)
    → k.opened ≡ some fd
    → let p = new_process k in
      if is_zero k.version_result && k.vers == k.current && k.mapped
      then p.m_driver_fd ≡ some fd × p.m_vm_start ≡ true × times_closed fd p.closed ≡ 0
      else p.m_driver_fd ≡ none × p.m_vm_start ≡ false × times_closed fd p.closed ≡ 1
unfolding new_process open_driver check_version
new_process_lem k fd e = ground arith
