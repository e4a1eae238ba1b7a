-- ===== src/Parcel/Tests.antt =====
-- The theorems about Parcel.cpp at concrete parcels.
use droid_kernal.Prelude.{
  ℕ, ◌+◌, ◌*◌, ◌%◌, ◌<◌, ◌≤◌, ◌≡◌, inl, refl, true, false, Option, none, some, [], ◌==◌, ltb, leb,
  ◌||◌, if◌then◌else◌, arith,
}
use droid_kernal.Parcel.{
  no_error, is_no_error, pad_size, FlatObject, local_object, handle_object, Array, Parcel, bytes_of,
}
use droid_kernal.Parcel.Resize.{
  Answers, objects_before, kept_objects, trim_objects, resize_data, continue_write, grow_data,
  set_data_size,
}
use droid_kernal.Parcel.Write.{
  finish_write, byte, write, write_word, write_int32, ipc_set_data_reference,
}
use droid_kernal.Parcel.Room.{Fits, grow_data-Grown}
use droid_kernal.Parcel.Contents.{Written, SameButError, pad_size_lem, write-Written}
use droid_kernal.Parcel.Words.{int32_at, write_int32-write, write_int32_lem}
use droid_kernal.Parcel.Size.{Kept, set_data_size-Kept}
use droid_kernal.Parcel.Accounts.{Accounted, writes-Accounted}
use droid_kernal.Parcel.Objects.{Ordered, objects_before_lem, ipc_set_data_reference-Ordered}
use droid_kernal.Parcel.Received.{ipc_set_data_reference-Accounted}

abbrev objects : (ℕ → ℕ) → ℕ → FlatObject
objects bytes at = if bytes at == 0 then handle_object 1 else local_object 5 7

abbrev proxies : ℕ → Option ℕ
proxies handle = none

-- A parcel of 6 bytes in a buffer for 8, with the position at 4.
abbrev parcel : Parcel
parcel = record {
  m_error = no_error;
  m_data = some (record { address = 8192; room = 8; at = λ i. i });
  m_data_size = 6;
  m_data_capacity = 8;
  m_data_pos = 4;
  m_objects = none;
  m_objects_size = 0;
  m_objects_capacity = 0;
  m_next_object_hint = 0;
  m_objects_sorted = false;
  m_fds_known = false;
  m_has_fds = false;
  m_owner = false;
  m_open_ashmem_size = 0;
  alloc_size = 108;
  alloc_count = 1;
  calls = [];
}

parcel-Fits : Fits parcel
parcel-Fits = ground arith

parcel-Accounted : Accounted 100 parcel
parcel-Accounted = ground arith

abbrev answers : Answers
answers = record {
  malloc = true;
  malloc_at = 16384;
  calloc = true;
  calloc_at = 20480;
  realloc = true;
  realloc_at = 24576;
  realloc_objects = true;
  realloc_objects_at = 28672;
  garbage = λ i. 255;
}

abbrev text : ℕ → ℕ
text i = i + 65

pad_size_lem_example : pad_size 5 % 4 ≡ 0 × 5 ≤ pad_size 5 × pad_size 5 < 9
pad_size_lem_example = pad_size_lem 5 (omega arith)

grow_data-Grown_example :
    let q = (grow_data objects proxies answers 8 parcel).1 in
    Fits q
    × 12 ≤ q.m_data_capacity
    × q.m_data_pos ≡ 4
    × q.m_data_size ≡ 6
    × ((i : ℕ) → i < 6 → bytes_of q.m_data i ≡ i)
unfolding grow_data continue_write kept_objects trim_objects resize_data
grow_data-Grown_example =
    grow_data-Grown objects proxies answers 8 parcel parcel-Fits (omega arith) refl

write-Written_example :
    let grown = is_no_error ((grow_data objects proxies answers (pad_size 5) parcel).0) in
    let r = write objects proxies answers 5 text parcel in
    if leb (4 + pad_size 5) 8 || grown
    then r.0 ≡ no_error × Written 5 text parcel (r.1)
    else r.0 ≡ (r.1).m_error × SameButError parcel (r.1)
write-Written_example =
    write-Written objects proxies answers 5 text parcel parcel-Fits (omega arith) (omega arith)

write_int32-write_example :
    write_int32 objects proxies answers 1000 parcel
    ≡ write objects proxies answers 4 (byte 1000) parcel
write_int32-write_example = write_int32-write objects proxies answers 1000 parcel parcel-Fits

write_int32_lem_example : int32_at ((write_int32 objects proxies answers 1000 parcel).1) 4 ≡ 1000
unfolding write_int32 write_word finish_write
write_int32_lem_example =
    write_int32_lem objects proxies answers 1000 parcel parcel-Fits (omega arith) refl

set_data_size-Kept_example :
    let q = (set_data_size objects proxies answers 3 parcel).1 in
    Fits q × q.m_data_size ≡ 3 × Kept 3 parcel q
unfolding set_data_size continue_write kept_objects objects_before trim_objects resize_data
set_data_size-Kept_example =
    set_data_size-Kept objects proxies answers 3 parcel parcel-Fits (inl refl) refl

objects_before_lem_example :
    objects_before (λ i. i * 24) 50 4 ≤ 4
    × ((i : ℕ) → i < 4 → ltb (i * 24) 50 ≡ ltb i (objects_before (λ i. i * 24) 50 4))
objects_before_lem_example = objects_before_lem (λ i. i * 24) 50 4 (λ i j le. omega arith)

abbrev reply : Array
reply = record { address = 4096; room = 48; at = λ i. i }

abbrev offsets : Array
offsets = record { address = 4144; room = 2; at = λ i. i * 24 }

ipc_set_data_reference-Ordered_example :
    Ordered objects proxies 24
      (ipc_set_data_reference objects proxies 24 reply offsets 2 true parcel)
ipc_set_data_reference-Ordered_example =
    ipc_set_data_reference-Ordered objects proxies 24 reply offsets 2 true parcel
      (λ j lt. omega arith)

writes-Accounted_example :
    Accounted 100 ((write objects proxies answers 9 text parcel).1)
    × Accounted 100 ((write_int32 objects proxies answers 9 parcel).1)
    × Accounted 100 ((set_data_size objects proxies answers 9 parcel).1)
writes-Accounted_example =
    writes-Accounted objects proxies answers 100 9 text parcel parcel-Accounted

ipc_set_data_reference-Accounted_example :
    Accounted 100 (ipc_set_data_reference objects proxies 24 reply offsets 2 true parcel)
ipc_set_data_reference-Accounted_example =
    ipc_set_data_reference-Accounted objects proxies 24 100 2 reply offsets parcel (omega arith)
      parcel-Accounted
