-- ===== src/Utils/RefBase.antt =====
-- RefBase.cpp of system/core/libutils with RefBase.h: the strong and the weak references to an object,
-- as the atomic actions of any number of threads in any order.
pub mod Counts
pub mod Attempt
pub mod Invariant
pub mod Counting
pub mod Living
pub mod Safety
use droid_kernal.Prelude.{
  ℕ, ◌+◌, ◌-◌, ◌*◌, ◌%◌, ◌^◌, ◌<◌, ◌≡◌, ◌≢◌, ◌⊎◌, Bool, true, false, not, ◌==◌, ltb, ◌&&◌, ◌||◌,
  if◌then◌else◌,
}

-- INITIAL_STRONG_VALUE
abbrev pub initial_strong : ℕ
initial_strong = 2 ^ 28

-- weakref_impl and its object. The counts are patterns of int32_t, and `extended` is the flag
-- OBJECT_LIFETIME_WEAK. `bad` counts the uses of the object or of the counts after they were deleted, and
-- the three last fields the calls of onFirstRef, onLastStrongRef and onLastWeakRef.
pub record Refs : Type 0 where
  pub m_strong : ℕ
  pub m_weak : ℕ
  pub extended : Bool
  pub object_alive : Bool
  pub impl_alive : Bool
  pub bad : ℕ
  pub first_refs : ℕ
  pub last_strong_refs : ℕ
  pub last_weak_refs : ℕ

-- RefBase::RefBase
abbrev pub new_refs : Bool → Refs
new_refs extended = record {
  m_strong = initial_strong;
  m_weak = 0;
  extended = extended;
  object_alive = true;
  impl_alive = true;
  bad = 0;
  first_refs = 0;
  last_strong_refs = 0;
  last_weak_refs = 0;
}

-- extendObjectLifetime, whose argument is whether it has the flag OBJECT_LIFETIME_WEAK.
unfoldable pub extend_object_lifetime : Bool → Refs → Refs
extend_object_lifetime mode r = record r { extended = r.extended || mode }

abbrev inc32 : ℕ → ℕ
inc32 n = (n + 1) % 2 ^ 32

abbrev dec32 : ℕ → ℕ
dec32 n = (n + 2 ^ 32 - 1) % 2 ^ 32

-- `curCount > 0`
abbrev pub is_positive : ℕ → Bool
is_positive n = ltb 0 n && ltb n (2 ^ 31)

abbrev pub use_object : Refs → Refs
use_object r = if r.object_alive then r else record r { bad = r.bad + 1 }

abbrev pub use_impl : Refs → Refs
use_impl r = if r.impl_alive then r else record r { bad = r.bad + 1 }

-- mWeak.fetch_add(1), and mWeak.fetch_sub(1), in incWeak and decWeak.
abbrev pub add_weak : Refs → Refs
add_weak r = let u = use_impl r in record u { m_weak = inc32 u.m_weak }

abbrev pub sub_weak : Refs → Refs
sub_weak r = let u = use_impl r in record u { m_weak = dec32 u.m_weak }

-- mStrong.fetch_add(1) or the compare-exchange that adds 1, mStrong.fetch_sub(1), and
-- mStrong.fetch_sub(INITIAL_STRONG_VALUE).
abbrev pub add_strong : Refs → Refs
add_strong r = let u = use_impl r in record u { m_strong = inc32 u.m_strong }

abbrev pub sub_strong : Refs → Refs
sub_strong r = let u = use_impl r in record u { m_strong = dec32 u.m_strong }

abbrev pub sub_initial : Refs → Refs
sub_initial r =
    let u = use_impl r in record u { m_strong = (u.m_strong + 2 ^ 32 - initial_strong) % 2 ^ 32 }

-- `delete impl`
abbrev pub delete_impl : Refs → Refs
delete_impl r = let u = use_impl r in record u { impl_alive = false }

-- RefBase::~RefBase
unfoldable pub delete_object : Refs → Refs
delete_object r =
    let u = use_impl (use_object r) in
    let gone = record u { object_alive = false } in
    if u.extended && u.m_weak == 0 then delete_impl gone else gone

-- The end of incStrong for the first reference: onFirstRef.
unfoldable pub first_ref : Refs → Refs
first_ref r = let u = use_object (sub_initial r) in record u { first_refs = u.first_refs + 1 }

-- decStrong after the count was 1: onLastStrongRef, and `delete this` without an extended lifetime.
unfoldable pub last_strong_ref : Refs → Refs
unfolding delete_object
last_strong_ref r =
    let u = use_impl (use_object r) in
    let told = record u { last_strong_refs = u.last_strong_refs + 1 } in
    if told.extended then told else delete_object told

-- decWeak after the count was 1.
unfoldable pub last_weak_ref : Refs → Refs
unfolding delete_object
last_weak_ref r =
    let u = use_impl r in
    let told = use_object (record u { last_weak_refs = u.last_weak_refs + 1 }) in
    if u.extended
    then delete_object told
    else if u.m_strong == initial_strong
    then u
    else delete_impl u

-- attemptIncStrong for an extended lifetime: mStrong.fetch_add(1), and onLastStrongRef if the count was
-- neither 0 nor the initial value.
unfoldable pub revive : Refs → Refs
revive r =
    let u = add_strong r in
    let told = use_object u in
    if r.m_strong == 0 || r.m_strong == initial_strong
    then u
    else record told { last_strong_refs = told.last_strong_refs + 1 }
