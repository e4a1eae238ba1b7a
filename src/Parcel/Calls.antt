-- ===== src/Parcel/Calls.antt =====
-- What a call by IPCThreadState.cpp puts into the outgoing parcel.
use droid_kernal.Prelude.{
  ℕ, ◌+◌, ◌*◌, ◌%◌, ◌^◌, ◌<◌, ◌≤◌, ◌≡◌, inl, ap₂, ◌∙◌, subst, true, Option, arith,
}
use droid_kernal.Parcel.{
  address_of, ipc_data, ipc_data_size, ipc_objects, ipc_objects_count, no_error, is_no_error,
  int32_max, pad_size, max, FlatObject, Parcel, bytes_of,
}
use droid_kernal.Parcel.Resize.{Answers}
use droid_kernal.Parcel.Write.{byte, write, write_int32}
use droid_kernal.Parcel.Room.{Fits}
use droid_kernal.Parcel.Contents.{Written, write-Written}
use droid_kernal.Parcel.Words.{int32_at, Written-word, write_int32-Written}
use droid_kernal.Parcel.Thread.{IpcThread, IpcData, Layout, write_transaction_data}

int32_at-same :
    (at : ℕ) (p q : Parcel)
    → ((j : ℕ) → j < 4 → bytes_of q.m_data (at + j) ≡ bytes_of p.m_data (at + j))
    → int32_at q at ≡ int32_at p at
int32_at-same at p q same =
    let first : bytes_of q.m_data at ≡ bytes_of p.m_data at =
      subst (λ n. bytes_of q.m_data n ≡ bytes_of p.m_data n) add-zero (same 0 (omega arith)) in
    ap₂
      (λ a b.
        a + 256 * b + 256 ^ 2 * bytes_of q.m_data (at + 2) + 256 ^ 3 * bytes_of q.m_data (at + 3))
      first (same 1 (omega arith))
    ∙ ap₂
        (λ c d. bytes_of p.m_data at + 256 * bytes_of p.m_data (at + 1) + 256 ^ 2 * c + 256 ^ 3 * d)
        (same 2 (omega arith)) (same 3 (omega arith))
  where
    add-zero : at + 0 ≡ at
    add-zero = omega arith

module _ (object_at : (ℕ → ℕ) → ℕ → FlatObject) (proxy_for_handle : ℕ → Option ℕ) where
  write_room-Written :
      (k : Answers) (len : ℕ) (source : ℕ → ℕ) (p : Parcel)
      → Fits p
      → 0 < len
      → len ≤ int32_max
      → p.m_data_pos + pad_size len ≤ p.m_data_capacity
      → Written len source p ((write object_at proxy_for_handle k len source p).1)
  write_room-Written k len source p h some_len small room =
      let written = write-Written object_at proxy_for_handle k len source p h some_len small in
      ground (arith, written)

  two_writes_lem :
      (cmd len : ℕ) (source : ℕ → ℕ) (p q r : Parcel)
      → cmd < 2 ^ 32
      → Written 4 (byte cmd) p q
      → Written len source q r
      → int32_at r p.m_data_pos ≡ cmd
        × ((i : ℕ) → i < len → bytes_of r.m_data (p.m_data_pos + 4 + i) ≡ source i)
        × Fits r
  unfolding pad_size max
  two_writes_lem cmd len source p q r small v w =
      let behind : q.m_data_pos ≡ p.m_data_pos + 4 = v.pos_is in
      let long : p.m_data_pos + 4 ≤ q.m_data_size = ground (arith, v.size_is) in
      (
        int32_at-same p.m_data_pos q r (λ j lt.
              w.keeps (p.m_data_pos + j) (omega (arith, long)) (inl (omega (arith, behind))))
            ∙ Written-word cmd p q small v,
        λ i lt. subst (λ at. bytes_of r.m_data (at + i) ≡ source i) behind (w.holds i lt),
        w.fits,
      )

  -- A parcel without an error is put into the outgoing parcel, where there is room, as the command
  -- and, behind it, the bytes of the transaction data: the handle, the code, the flags, the number of
  -- bytes of its data and of its offsets, and the addresses of both.
  pub write_transaction_data_lem :
      (k : Answers) (l : Layout) (cmd flags handle code : ℕ) (sent : Parcel) (t : IpcThread)
      → Fits t.m_out
      → cmd < 2 ^ 32
      → 0 < l.call_size
      → l.call_size ≤ int32_max
      → sent.m_error ≡ no_error
      → let worded = write_int32 object_at proxy_for_handle k cmd t.m_out in
        let tr : IpcData = record {
          handle = handle;
          code = code;
          flags = flags;
          data_bytes = max sent.m_data_size sent.m_data_pos;
          buffer = address_of sent.m_data;
          offsets_bytes = sent.m_objects_size * l.sizeof_binder_size % 2 ^ 64;
          offsets = address_of sent.m_objects;
        } in
        let out =
          (write_transaction_data object_at proxy_for_handle k l cmd flags handle code sent
            t).1.m_out in
        let end = (worded.1).m_data_pos + pad_size l.call_size in
        is_no_error (worded.0) ≡ true
        → end ≤ (worded.1).m_data_capacity
        → int32_at out t.m_out.m_data_pos ≡ cmd
          × ((i : ℕ)
              → i < l.call_size
              → bytes_of out.m_data (t.m_out.m_data_pos + 4 + i) ≡ l.call_bytes tr i)
          × Fits out
  unfolding write_transaction_data ipc_data ipc_data_size ipc_objects ipc_objects_count
  write_transaction_data_lem k l cmd flags handle code sent t h small some_size size fine ok room =
      let q = (write_int32 object_at proxy_for_handle k cmd t.m_out).1 in
      let v = write_int32-Written object_at proxy_for_handle k cmd t.m_out h ok in
      let tr : IpcData = record {
        handle = handle;
        code = code;
        flags = flags;
        data_bytes = max sent.m_data_size sent.m_data_pos;
        buffer = address_of sent.m_data;
        offsets_bytes = sent.m_objects_size * l.sizeof_binder_size % 2 ^ 64;
        offsets = address_of sent.m_objects;
      } in
      let w = write_room-Written k l.call_size (l.call_bytes tr) q v.fits some_size size room in
      let lem = two_writes_lem cmd l.call_size (l.call_bytes tr) t.m_out q _ small v w in
      ground (arith, lem)
