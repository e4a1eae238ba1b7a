-- ===== src/Parcel/Thread.antt =====
-- IPCThreadState.cpp of frameworks/native/libs/binder: a call to the driver by a thread.
use droid_kernal.Prelude.{
  ◌*◌, ◌%◌, ◌^◌, ℕ, Bool, true, not, Option, none, some, List, [], ◌∷◌, ◌++◌, ◌&&◌, ◌||◌, ◌==◌, ltb,
  leb, if◌then◌else◌,
}
use droid_kernal.Parcel.{
  Status, no_error, bad_fd, is_no_error, FlatObject, Parcel, data_size, ipc_data, ipc_data_size,
  ipc_objects, ipc_objects_count, set_data_position, set_error,
}
use droid_kernal.Parcel.Resize.{Answers, set_data_size}
use droid_kernal.Parcel.Write.{write, write_int32}

-- IPCThreadState, with the references that wait to be dropped and those that were.
pub record IpcThread : Type 0 where
  pub m_in : Parcel
  pub m_out : Parcel
  pub m_last_error : Status
  pub post_write_weak_derefs : List ℕ
  pub post_write_strong_derefs : List ℕ
  pub dereferenced : List ℕ

-- One call of ioctl: whether it answers another value than 0, errno after it, and what it leaves in the
-- struct binder_write_read.
pub record Ioctl : Type 0 where
  pub nonzero : Bool
  pub errno : ℕ
  pub write_consumed : ℕ
  pub read_consumed : ℕ

-- The fields of binder_transaction_data that writeTransactionData sets to other values than 0: `buffer` and
-- `offsets` are the pointers tr.data.ptr.buffer and tr.data.ptr.offsets.
pub record IpcData : Type 0 where
  pub handle : ℕ
  pub code : ℕ
  pub flags : ℕ
  pub data_bytes : ℕ
  pub buffer : ℕ
  pub offsets_bytes : ℕ
  pub offsets : ℕ

-- What linux/android/binder.h lays down: the bytes and the size of a binder_transaction_data, the size of a
-- binder_size_t, the command, and
-- the flags TF_ACCEPT_FDS, set, and TF_ONE_WAY, tested.
pub record Layout : Type 0 where
  pub call_bytes : IpcData → ℕ → ℕ
  pub call_size : ℕ
  pub sizeof_binder_size : ℕ
  pub bc_transaction : ℕ
  pub accept_fds : ℕ → ℕ
  pub is_one_way : ℕ → Bool

abbrev pub eintr : ℕ
eintr = 4

unfoldable pub process_post_write_derefs : IpcThread → IpcThread
process_post_write_derefs t = record t {
  dereferenced = t.dereferenced ++ t.post_write_weak_derefs ++ t.post_write_strong_derefs;
  post_write_weak_derefs = [];
  post_write_strong_derefs = [];
}

-- `needRead`, and the sizes that the driver is asked for.
unfoldable pub need_read : IpcThread → Bool
unfolding data_size
need_read t = leb (data_size t.m_in) t.m_in.m_data_pos

unfoldable pub out_avail : Bool → IpcThread → ℕ
unfolding need_read data_size
out_avail do_receive t = if not do_receive || need_read t then data_size t.m_out else 0

unfoldable pub in_avail : Bool → IpcThread → ℕ
unfolding need_read
in_avail do_receive t = if do_receive && need_read t then t.m_in.m_data_capacity else 0

module _ (object_at : (ℕ → ℕ) → ℕ → FlatObject) (proxy_for_handle : ℕ → Option ℕ) where
  unfoldable pub take_written : Answers → ℕ → IpcThread → IpcThread
  unfolding process_post_write_derefs
  take_written k consumed t =
      let emptied = record t { m_out = (set_data_size object_at proxy_for_handle k 0 t.m_out).1 } in
      if ltb 0 consumed && leb (data_size t.m_out) consumed
      then process_post_write_derefs emptied
      else t

  unfoldable pub take_read : Answers → ℕ → IpcThread → IpcThread
  take_read k consumed t =
      if ltb 0 consumed
      then record t {
        m_in = set_data_position 0 ((set_data_size object_at proxy_for_handle k consumed t.m_in).1);
      }
      else t

  -- The loop over ioctl and what follows it; none where the answers end before the loop does.
  unfoldable pub call_driver : Answers → List Ioctl → IpcThread → Option (Status × IpcThread)
  call_driver k [] t = none
  call_driver k (a ∷ rest) t =
      let again = call_driver k rest t in
      let done = some (no_error, take_read k a.read_consumed (take_written k a.write_consumed t)) in
      if a.nonzero || a.errno == 0
      then done
      else if a.errno == eintr
      then again
      else some (bad_fd, t)

  unfoldable pub talk_with_driver :
      Answers → Bool → List Ioctl → Bool → IpcThread → Option (Status × IpcThread)
  talk_with_driver k is_open ioctls do_receive t =
      let called = call_driver k ioctls t in
      if not is_open
      then some (bad_fd, t)
      else if out_avail do_receive t == 0 && in_avail do_receive t == 0
      then some (no_error, t)
      else called

  -- The loop, which has one round, and the label finish: the error of the reply and of the thread.
  abbrev pub with_error : Status → Option Parcel → Option Parcel
  with_error err none = none
  with_error err (some reply) = some (set_error err reply)

  abbrev pub finish : Option Parcel → Status → IpcThread → Status × Option Parcel × IpcThread
  finish reply err t =
      if is_no_error err
      then (err, reply, t)
      else (err, with_error err reply, record t { m_last_error = err })

  unfoldable pub wait_for_response :
      Answers
      → Bool
      → List Ioctl
      → Option Parcel
      → IpcThread
      → Option (Status × Option Parcel × IpcThread)
  wait_for_response k is_open ioctls reply t = elim (talk_with_driver k is_open ioctls true t) [
    | none ↦ none
    | some (err, u) ↦ some (finish reply (if is_no_error err then u.m_in.m_error else err) u)
  ]

  -- The status buffer is null, as in every call.
  unfoldable pub write_transaction_data :
      Answers → Layout → ℕ → ℕ → ℕ → ℕ → Parcel → IpcThread → Status × IpcThread
  write_transaction_data k l cmd binder_flags handle code sent t =
      let tr : IpcData = record {
        handle = handle;
        code = code;
        flags = binder_flags;
        data_bytes = ipc_data_size sent;
        buffer = ipc_data sent;
        offsets_bytes = ipc_objects_count sent * l.sizeof_binder_size % 2 ^ 64;
        offsets = ipc_objects sent;
      } in
      let worded = (write_int32 object_at proxy_for_handle k cmd t.m_out).1 in
      let out = (write object_at proxy_for_handle k l.call_size (l.call_bytes tr) worded).1 in
      if is_no_error sent.m_error
      then (no_error, record t { m_out = out })
      else (sent.m_error, record t { m_last_error = sent.m_error })

  -- A call without a reply parcel waits with one of its own, whose error nobody reads.
  unfoldable pub transact :
      Answers
      → Layout
      → Bool
      → List Ioctl
      → ℕ
      → ℕ
      → Parcel
      → Option Parcel
      → ℕ
      → IpcThread
      → Option (Status × Option Parcel × IpcThread)
  transact k l is_open ioctls handle code sent reply flags t =
      let r = write_transaction_data k l l.bc_transaction (l.accept_fds flags) handle code sent t in
      let waited =
        wait_for_response k is_open ioctls (if l.is_one_way flags then none else reply) (r.1) in
      let answered : Option (Status × Option Parcel × IpcThread) = elim waited [
        | none ↦ none
        | some (err, got, u) ↦ some (err, (if l.is_one_way flags then reply else got), u)
      ] in
      if is_no_error (r.0) then answered else some (r.0, with_error (r.0) reply, r.1)
