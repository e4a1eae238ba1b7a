-- ===== src/Parcel.antt =====
-- Parcel.cpp of frameworks/native/libs/binder with Parcel.h: the buffer that a transaction is written to and
-- its reply read from, its offsets of objects, and its owner.
pub mod Resize
pub mod Write
pub mod Room
pub mod Contents
pub mod Words
pub mod Thread
pub mod Calls
pub mod Process
pub mod Size
pub mod Accounts
pub mod Received
mod Tests
mod CallTests
pub mod Objects
use droid_kernal.Prelude.{
  ℕ, zero, suc, ◌+◌, ◌-◌, ◌/◌, ◌*◌, ◌%◌, ◌^◌, Bool, true, false, Option, none, some, List, [], ◌∷◌,
  ◌++◌, ◌==◌, ltb, leb, if◌then◌else◌,
}

-- The values of status_t that Parcel.cpp and IPCThreadState.cpp return; `bad_fd` is -EBADF.
pub data Status : Type 0 where
  no_error : Status
  bad_value : Status
  no_memory : Status
  bad_fd : Status

abbrev pub is_no_error : Status → Bool
is_no_error no_error = true
is_no_error _ = false

-- INT32_MAX and SIZE_MAX
abbrev pub int32_max : ℕ
int32_max = 2 ^ 31 - 1

abbrev pub size_max : ℕ
size_max = 2 ^ 64 - 1

unfoldable pub pad_size : ℕ → ℕ
pad_size s = (s + 3) % 2 ^ 64 / 4 * 4

unfoldable pub max : ℕ → ℕ → ℕ
max d1 d2 = if ltb d2 d1 then d1 else d2

-- flat_binder_object by the cases of the switches.
pub data FlatObject : Type 0 where
  local_object : ℕ → ℕ → FlatObject
  handle_object : ℕ → FlatObject
  fd_object : FlatObject
  unknown_object : FlatObject

-- What a parcel calls: the references of an object, and the owner of its data, with the arguments that are
-- sizes.
pub data Call : Type 0 where
  call_inc_strong : ℕ → Call
  call_dec_strong : ℕ → Call
  call_owner : ℕ → ℕ → Call

-- An allocated array: its address, its length, and its contents.
pub record Array : Type 0 where
  pub address : ℕ
  pub room : ℕ
  pub at : ℕ → ℕ

-- Parcel. The three last fields are gParcelGlobalAllocSize, gParcelGlobalAllocCount and the calls made, the
-- last of them first.
pub record Parcel : Type 0 where
  pub m_error : Status
  pub m_data : Option Array
  pub m_data_size : ℕ
  pub m_data_capacity : ℕ
  pub m_data_pos : ℕ
  pub m_objects : Option Array
  pub m_objects_size : ℕ
  pub m_objects_capacity : ℕ
  pub m_next_object_hint : ℕ
  pub m_objects_sorted : Bool
  pub m_fds_known : Bool
  pub m_has_fds : Bool
  pub m_owner : Bool
  pub m_open_ashmem_size : ℕ
  pub alloc_size : ℕ
  pub alloc_count : ℕ
  pub calls : List Call

unfoldable pub init_state : Parcel → Parcel
init_state p = record {
  m_error = no_error;
  m_data = none;
  m_data_size = 0;
  m_data_capacity = 0;
  m_data_pos = 0;
  m_objects = none;
  m_objects_size = 0;
  m_objects_capacity = 0;
  m_next_object_hint = 0;
  m_objects_sorted = false;
  m_fds_known = false;
  m_has_fds = false;
  m_owner = false;
  m_open_ashmem_size = 0;
  alloc_size = p.alloc_size;
  alloc_count = p.alloc_count;
  calls = p.calls;
}

unfoldable pub data_size : Parcel → ℕ
unfolding max
data_size p = max p.m_data_size p.m_data_pos

-- A pointer to an array, 0 where it is null.
abbrev pub address_of : Option Array → ℕ
address_of none = 0
address_of (some b) = b.address

-- ipcData, ipcDataSize, ipcObjects and ipcObjectsCount.
unfoldable pub ipc_data : Parcel → ℕ
ipc_data p = address_of p.m_data

unfoldable pub ipc_data_size : Parcel → ℕ
unfolding max
ipc_data_size p = max p.m_data_size p.m_data_pos

unfoldable pub ipc_objects : Parcel → ℕ
ipc_objects p = address_of p.m_objects

unfoldable pub ipc_objects_count : Parcel → ℕ
ipc_objects_count p = p.m_objects_size

unfoldable pub data_avail : Parcel → ℕ
unfolding data_size
data_avail p = (data_size p + 2 ^ 64 - p.m_data_pos) % 2 ^ 64

unfoldable pub set_data_position : ℕ → Parcel → Parcel
set_data_position pos p = record p {
  m_data_pos = pos;
  m_next_object_hint = 0;
  m_objects_sorted = false;
}

unfoldable pub set_error : Status → Parcel → Parcel
set_error err p = record p { m_error = err }

-- The element of an array that may be null.
abbrev pub entry : Option Array → ℕ → ℕ
entry none i = 0
entry (some b) i = b.at i

abbrev pub bytes_of : Option Array → ℕ → ℕ
bytes_of b i = entry b i

-- `object_at bytes offset` reads a flat_binder_object, and `proxy_for_handle` is
-- ProcessState::getStrongProxyForHandle.
module _ (object_at : (ℕ → ℕ) → ℕ → FlatObject) (proxy_for_handle : ℕ → Option ℕ) where
  unfoldable pub acquire_object : FlatObject → List Call
  acquire_object (local_object zero cookie) = []
  acquire_object (local_object (suc binder) cookie) = call_inc_strong cookie ∷ []
  acquire_object (handle_object handle) = elim (proxy_for_handle handle) [
    | none ↦ []
    | some b ↦ call_dec_strong b ∷ []
  ]
  acquire_object fd_object = []
  acquire_object unknown_object = []

  unfoldable pub release_object : FlatObject → List Call
  release_object (local_object zero cookie) = []
  release_object (local_object (suc binder) cookie) = call_dec_strong cookie ∷ []
  release_object (handle_object handle) = elim (proxy_for_handle handle) [
    | none ↦ []
    | some b ↦ call_dec_strong b ∷ []
  ]
  release_object fd_object = []
  release_object unknown_object = []

  -- The object at the i-th offset.
  abbrev pub nth_object : Parcel → ℕ → FlatObject
  nth_object p i = object_at (bytes_of p.m_data) (entry p.m_objects i)

  -- The loops of releaseObjects and acquireObjects, from the last object to the first.
  unfoldable pub release_objects_below : ℕ → Parcel → Parcel
  release_objects_below zero p = p
  release_objects_below (suc i) p =
      release_objects_below i (record p { calls = release_object (nth_object p i) ++ p.calls })

  unfoldable pub acquire_objects_below : ℕ → Parcel → Parcel
  acquire_objects_below zero p = p
  acquire_objects_below (suc i) p =
      acquire_objects_below i (record p { calls = acquire_object (nth_object p i) ++ p.calls })

  unfoldable pub release_objects : Parcel → Parcel
  release_objects p = release_objects_below p.m_objects_size p

  unfoldable pub acquire_objects : Parcel → Parcel
  acquire_objects p = acquire_objects_below p.m_objects_size p

  abbrev pub is_fd : FlatObject → Bool
  is_fd fd_object = true
  is_fd _ = false

  -- The loop of scanForFds from `i`, with `n` objects left.
  unfoldable pub any_fd : ℕ → ℕ → Parcel → Bool
  any_fd zero i p = false
  any_fd (suc n) i p =
      let rest = any_fd n (suc i) p in if is_fd (nth_object p i) then true else rest

  unfoldable pub scan_for_fds : Parcel → Parcel
  scan_for_fds p = record p { m_has_fds = any_fd p.m_objects_size 0 p; m_fds_known = true }

  -- mOwner(this, mData, mDataSize, mObjects, mObjectsSize, mOwnerCookie)
  abbrev pub tell_owner : Parcel → Parcel
  tell_owner p = record p { calls = call_owner p.m_data_size p.m_objects_size ∷ p.calls }

  -- The block of freeDataNoInit that takes the capacity from the global size and frees the data; the
  -- pointers stay.
  abbrev pub free_own_data : Option Array → Parcel → Parcel
  free_own_data none p = p
  free_own_data (some b) p = record p {
    alloc_size = if leb p.m_data_capacity p.alloc_size then p.alloc_size - p.m_data_capacity else 0;
  }

  unfoldable pub free_data_no_init : Parcel → Parcel
  free_data_no_init p =
      if p.m_owner then tell_owner p else (let q = release_objects p in free_own_data q.m_data q)

  unfoldable pub free_data : Parcel → Parcel
  free_data p = init_state (free_data_no_init p)
