-- ===== src/Parcel/CallTests.antt =====
-- The theorems about IPCThreadState.cpp and ProcessState.cpp at concrete calls.
use droid_kernal.Prelude.{
  ℕ, ◌+◌, ◌<◌, ◌≡◌, refl, true, false, Option, none, some, [], ◌==◌, if◌then◌else◌, arith,
}
use droid_kernal.Parcel.{max, Status, no_error, pad_size, FlatObject, fd_object, Parcel, bytes_of}
use droid_kernal.Parcel.Resize.{Answers}
use droid_kernal.Parcel.Write.{finish_write, write_int32, write_word}
use droid_kernal.Parcel.Room.{Fits}
use droid_kernal.Parcel.Words.{int32_at}
use droid_kernal.Parcel.Thread.{IpcThread, IpcData, Layout, write_transaction_data}
use droid_kernal.Parcel.Process.{OpenAnswers, new_process, times_closed, new_process_lem}
use droid_kernal.Parcel.Calls.{write_transaction_data_lem}

abbrev no_objects : (ℕ → ℕ) → ℕ → FlatObject
no_objects bytes at = fd_object

abbrev no_proxies : ℕ → Option ℕ
no_proxies handle = none

-- A parcel with room for 128 bytes, and a thread whose outgoing parcel it is.
abbrev roomy : Status → Parcel
roomy err = record {
  m_error = err;
  m_data = some (record { address = 8192; room = 128; at = λ i. 0 });
  m_data_size = 8;
  m_data_capacity = 128;
  m_data_pos = 8;
  m_objects = none;
  m_objects_size = 0;
  m_objects_capacity = 0;
  m_next_object_hint = 0;
  m_objects_sorted = false;
  m_fds_known = false;
  m_has_fds = false;
  m_owner = false;
  m_open_ashmem_size = 0;
  alloc_size = 128;
  alloc_count = 1;
  calls = [];
}

roomy-Fits : Fits (roomy no_error)
roomy-Fits = ground arith

abbrev thread : IpcThread
thread = record {
  m_in = roomy no_error;
  m_out = roomy no_error;
  m_last_error = no_error;
  post_write_weak_derefs = [];
  post_write_strong_derefs = [];
  dereferenced = [];
}

abbrev all_answers : Answers
all_answers = record {
  malloc = true;
  malloc_at = 16384;
  calloc = true;
  calloc_at = 20480;
  realloc = true;
  realloc_at = 24576;
  realloc_objects = true;
  realloc_objects_at = 28672;
  garbage = λ i. 0;
}

abbrev layout : Layout
layout = record {
  call_bytes = λ tr i. if i == 0 then tr.handle else 0;
  call_size = 64;
  sizeof_binder_size = 8;
  bc_transaction = 7;
  accept_fds = λ flags. flags;
  is_one_way = λ flags. flags == 1;
}

write_transaction_data_lem_example :
    let tr : IpcData = record {
      handle = 0;
      code = 1;
      flags = 16;
      data_bytes = 8;
      buffer = 8192;
      offsets_bytes = 0;
      offsets = 0;
    } in
    let out =
      (write_transaction_data no_objects no_proxies all_answers layout 7 16 0 1
        (roomy no_error)
        thread).1.m_out in
    int32_at out 8 ≡ 7
    × ((i : ℕ) → i < 64 → bytes_of out.m_data (8 + 4 + i) ≡ layout.call_bytes tr i)
    × Fits out
unfolding max write_int32 write_word finish_write pad_size
write_transaction_data_lem_example =
    write_transaction_data_lem no_objects no_proxies all_answers layout 7 16 0 1 (roomy no_error)
      thread roomy-Fits (omega arith) (omega arith) (omega arith) refl refl (omega arith)

-- A driver that is opened, of the right version, whose mapping fails.
abbrev unmapped : OpenAnswers
unmapped = record {
  opened = some 3;
  version_result = some 0;
  vers = 8;
  current = 8;
  mapped = false;
}

new_process_lem_example :
    (new_process unmapped).m_driver_fd ≡ none
    × (new_process unmapped).m_vm_start ≡ false
    × times_closed 3 (new_process unmapped).closed ≡ 1
new_process_lem_example = new_process_lem unmapped 3 refl
