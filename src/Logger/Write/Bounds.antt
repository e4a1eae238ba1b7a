-- ===== src/Logger/Write/Bounds.antt =====
-- Which memory a write touches, what it leaves alone, and what it returns.
use droid_kernal.Prelude.{ℕ, ◌+◌, ◌*◌, ◌≤◌, ◌<◌, ◌≡◌, ◌↔◌, List, arith, length, true, take}
use droid_kernal.Logger.Memory.{AllWithin}
use droid_kernal.Logger.Types.{
  Log, ret, entry_size, max_payload, header_bytes, length-header_bytes, add_size,
}
use droid_kernal.Logger.Ring.Offset.{IsValid, logger_offset-lt}
use droid_kernal.Logger.Entry.{before_end, ahead, outside_entry}
use droid_kernal.Logger.Invariant.{logger_offset-Behind}
use droid_kernal.Logger.Write.{IovIter, Caller, Delivers, write_header, logger_write_iter}
use droid_kernal.Logger.Write.Effect.{payload_off, logger_write_iter_effect}

module _ (io : IovIter) (c : Caller) (log : Log) (p : List ℕ) (from : io.Iter) (v : IsValid log)
    (d : Delivers io from p) (some_byte : 0 < length p) (fits : length p ≤ max_payload)
    (mem : c.vzalloc_ok ≡ true) where
  -- A write of a deliverable message to a valid channel, with room for it, changes no byte of the
  -- ring that lies at least the entry's length ahead of the write offset.
  pub logger_write_iter-frame :
      (q : ℕ)
      → entry_size + length p ≤ log.size
      → q < log.size
      → entry_size + length p ≤ ahead log.size log.w_off q
      → (logger_write_iter io c log from).log.buffer q ≡ log.buffer q
  logger_write_iter-frame q room below far =
      rw (logger_write_iter_effect io c log p from v d some_byte fits mem) (
        outside_entry log.size log.buffer log.w_off (payload_off io log)
          (header_bytes (write_header c (length p))) p v.w_in room
          (length-header_bytes (write_header c (length p)))
          (logger_offset-Behind log v log.w_off v.w_in) q below far)

  -- A write of a deliverable message of 1 to 4096 bytes to a valid channel returns the message's
  -- length exactly when the payload does not reach beyond the end of the ring; otherwise it
  -- returns the length of the part before the end, which is smaller.
  logger_write_iter-result :
      (k : ℕ) × ((logger_write_iter io c log from).result ≡ ret k)
      × (k ≤ length p)
      × ((k ≡ length p) ↔ (payload_off io log + length p ≤ log.size))
  logger_write_iter-result =
      let w = payload_off io log in
      let inside : w < log.size = logger_offset-lt log (add_size log.w_off entry_size) v in
      (
        before_end log.size w (length p),
        rw (logger_write_iter_effect io c log p from v d some_byte fits mem),
        omega arith,
        ((λ e. omega arith), (λ h. omega arith)),
      )

  -- All accesses of such a write, its debug copy included, stay within the buffer exactly when the
  -- payload does not reach beyond the end of the ring.
  pub logger_write_iter-AllWithin :
      AllWithin log.size (logger_write_iter io c log from).touched
      ↔ (payload_off io log + length p ≤ log.size)
  logger_write_iter-AllWithin =
      let w = payload_off io log in
      let inside : w < log.size = logger_offset-lt log (add_size log.w_off entry_size) v in
      rw (logger_write_iter_effect io c log p from v d some_byte fits mem)
        ((λ h. h.1.1.1.1.0), (λ h. omega arith))

  -- The four copies that fill the ring, which come before the debug copy, stay within the buffer
  -- exactly when the payload is no longer than the rest of the ring behind the header plus one
  -- whole ring.
  pub logger_write_iter-copies_within :
      AllWithin log.size (take 4 (logger_write_iter io c log from).touched)
      ↔ (payload_off io log + length p ≤ 2 * log.size)
  logger_write_iter-copies_within =
      let w = payload_off io log in
      let inside : w < log.size = logger_offset-lt log (add_size log.w_off entry_size) v in
      rw (logger_write_iter_effect io c log p from v d some_byte fits mem)
        ((λ h. omega arith), (λ h. omega arith))
