-- ===== src/Logger/Read/Branches.antt =====
-- `logger_read` on all of its branches.
use droid_kernal.Prelude.{
  ℕ, ◌+◌, ◌-◌, ◌≤◌, ◌<◌, ◌≡◌, refl, ◌⊎◌, inl, inr, List, true, ◌==◌, ltb, Bool-cases, min, arith,
  ltb→le, sym, subst, if_true, ◌^◌,
}
use droid_kernal.Logger.Memory.{Mem, slice}
use droid_kernal.Logger.Types.{Log, Reader, ret, entry_size, sub_size, add_size}
use droid_kernal.Logger.Ring.{logger_offset, get_user_hdr_len, get_entry_msg_len, get_entry_header}
use droid_kernal.Logger.Ring.Walk.{get_entry_msg_len-lt}
use droid_kernal.Logger.Read.{
  ReadCall, ReadResult, returns, copy_header_to_user, copy_payload_to_user, do_read_log_to_user,
  read_at, logger_read,
}

-- Either the call returned a number of bytes that fits the user's buffer, or the reader is as it was.
abbrev pub Consumes : Reader → ℕ → ReadResult → Type 0
Consumes reader room got =
    ((k : ℕ) × (got.outcome ≡ returns (ret k)) × (k ≤ room)) ⊎ (got.reader ≡ reader)

module _ (copy_to_user : Mem → ℕ → List ℕ → ℕ × Mem) where
  copy_payload-Consumes :
      (log : Log) (reader : Reader) (um : Mem) (buf n room : ℕ)
      → entry_size + n ≤ room
      → Consumes reader room (copy_payload_to_user copy_to_user log reader um buf n)
  unfolding copy_payload_to_user get_user_hdr_len
  copy_payload-Consumes log reader um buf n room h =
      let w = logger_offset log (add_size reader.r_off entry_size) in
      let k = min n (sub_size log.size w) in
      let one = copy_to_user um buf (slice log.buffer w k) in
      let two = copy_to_user one.1 (buf + k) (slice log.buffer 0 (n - k)) in
      elim (Bool-cases (one.0 == 0)) [
        | inl e ↦ elim (Bool-cases (n == k)) [
          | inl t ↦ rw (e, t) (inl (entry_size + n, refl, h))
          | inr t ↦ elim (Bool-cases (two.0 == 0)) [
            | inl f ↦ rw (e, t, f) (inl (entry_size + n, refl, h))
            | inr f ↦ rw (e, t, f) (inr refl)
          ]
        ]
        | inr e ↦ rw e (inr refl)
      ]

  do_read-Consumes :
      (log : Log) (reader : Reader) (um : Mem) (buf n room : ℕ)
      → entry_size + sub_size n entry_size ≤ room
      → Consumes reader room (do_read_log_to_user copy_to_user log reader um buf n)
  unfolding do_read_log_to_user get_user_hdr_len
  do_read-Consumes log reader um buf n room h =
      let one =
        copy_header_to_user copy_to_user reader.r_ver (get_entry_header log reader.r_off) um buf in
      elim (Bool-cases (one.0 == 0)) [
        | inl e ↦ rw e (
            copy_payload-Consumes log reader one.1 (buf + entry_size) (sub_size n entry_size) room
              h)
        | inr e ↦ rw e (inr refl)
      ]

  read_at-Consumes :
      (log : Log) (reader : Reader) (call : ReadCall) (um : Mem)
      → ((a : ℕ) → log.buffer a < 256)
      → Consumes reader call.count (read_at copy_to_user log reader call um)
  unfolding read_at get_user_hdr_len
  read_at-Consumes log reader call um bytes =
      let need = entry_size + get_entry_msg_len log reader.r_off in
      let small : get_entry_msg_len log reader.r_off < 2 ^ 16 =
        get_entry_msg_len-lt log reader.r_off bytes in
      elim (Bool-cases (log.w_off == reader.r_off)) [
        | inl e ↦ rw e (inr refl)
        | inr e ↦ elim (Bool-cases (ltb call.count need)) [
          | inl t ↦ rw (e, t) (inr refl)
          | inr t ↦
              rw (e, t)
                (do_read-Consumes log reader um call.buf need call.count
                  (omega (arith, ltb→le _ _ t)))
        ]
      ]

  -- A call for a reader that may read all entries, over a buffer that holds bytes, either returns
  -- a number of bytes that is at most the size of the user's buffer, or leaves the reader where it
  -- stood: no fault, short buffer, signal or empty channel skips an entry.
  pub logger_read-Consumes :
      (fuel : ℕ) (log : Log) (reader : Reader) (call : ReadCall) (um : Mem)
      → reader.r_all ≡ true
      → ((a : ℕ) → log.buffer a < 256)
      → Consumes reader call.count (logger_read copy_to_user fuel log reader call um)
  unfolding logger_read
  logger_read-Consumes fuel log reader call um all bytes =
      elim (Bool-cases (log.w_off == reader.r_off)) [
        | inl e ↦ rw e (inr refl)
        | inr e ↦ rw e (
            subst (Consumes reader call.count) (sym (if_true reader.r_all _ _ all))
              (read_at-Consumes log reader call um bytes))
      ]
