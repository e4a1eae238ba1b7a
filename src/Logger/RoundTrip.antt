-- ===== src/Logger/RoundTrip.antt =====
-- A message on its way through `logger_write_iter` and `logger_read` of logger.c.
use droid_kernal.Prelude.{
  ℕ, ◌+◌, ◌-◌, ◌≤◌, ◌<◌, ◌≡◌, ◌≢◌, refl, sym, ap, ap₂, ◌∙◌, List, ◌++◌, arith, length, true, false,
  ltb, if◌then◌else◌, if_true, ne→==, le→ltb, length-append, ◌==◌,
}
use droid_kernal.Logger.Memory.{Mem, store, slice, slice-store_self}
use droid_kernal.Logger.Types.{
  Log, Reader, ret, entry_size, add_size, max_payload, header_bytes, header_of, length-header_bytes,
}
use droid_kernal.Logger.Ring.{logger_offset, get_user_hdr_len, get_entry_header, get_entry_msg_len}
use droid_kernal.Logger.Ring.Offset.{IsValid, logger_offset-lt, logger_offset_once}
use droid_kernal.Logger.Entry.{Behind, slice_round, header_of_entry, payload_of_entry}
use droid_kernal.Logger.Write.{IovIter, Caller, Delivers, write_header, logger_write_iter}
use droid_kernal.Logger.Write.Effect.{after_write, payload_off, logger_write_iter_effect}
use droid_kernal.Logger.Read.{
  ReadCall, Writable, returns, read_at, logger_read, do_read_log_to_user,
}
use droid_kernal.Logger.Read.Effect.{served, get_entry_header_lem, do_read_log_to_user_effect}
use droid_kernal.Logger.Invariant.{
  buffer-IsValid, moved-IsValid, logger_offset-Behind, logger_offset-add,
}

module _ (io : IovIter) (c : Caller) (log : Log) (p : List ℕ) (v : IsValid log)
    (room : entry_size + length p < log.size) (fits : length p ≤ max_payload)
    (some_byte : 0 < length p) where
  abbrev written : Log
  written = after_write io c log p

  abbrev hdr : List ℕ
  hdr = header_bytes (write_header c (length p))

  behind : Behind log.size log.w_off (payload_off io log)
  behind = logger_offset-Behind log v log.w_off v.w_in

  written-IsValid : IsValid written
  written-IsValid =
      moved-IsValid _ (logger_offset-lt log (add_size (payload_off io log) (length p)) v)
        (buffer-IsValid _ v)

  -- The entry is not empty, so the write offset has moved.
  moved_on : written.w_off ≢ log.w_off
  moved_on = ground (arith, next_off)
    where
      next_off : written.w_off ≡ (
          if ltb (log.w_off + entry_size + length p) log.size
          then log.w_off + entry_size + length p
          else log.w_off + entry_size + length p - log.size)
      next_off =
          sym (logger_offset-add log v log.w_off (length p) v.w_in (omega arith))
          ∙ ap (logger_offset log) (omega arith)
          ∙ logger_offset_once log (log.w_off + entry_size + length p) v (omega arith)

  header-written : get_entry_header written log.w_off ≡ hdr
  header-written =
      get_entry_header_lem written log.w_off v.size_max v.w_in
      ∙ header_of_entry log.size log.buffer log.w_off (payload_off io log) hdr p v.w_in
          (omega arith) (length-header_bytes (write_header c (length p))) behind

  msg_len-written : get_entry_msg_len written log.w_off ≡ length p
  unfolding get_entry_msg_len header_of header_bytes write_header
  msg_len-written = ap (λ b. (header_of b).len) header-written ∙ small
    where
      small : (header_of hdr).len ≡ length p
      small = omega arith

  -- What a read at the entry's offset hands out.
  read_entry :
      (copy_to_user : Mem → ℕ → List ℕ → ℕ × Mem) (reader : Reader) (um : Mem) (buf : ℕ)
      → reader.r_off ≡ log.w_off
      → Writable copy_to_user buf (entry_size + length p)
      → do_read_log_to_user copy_to_user written reader um buf (entry_size + length p)
        ≡ served written reader (length p) (store um buf (hdr ++ p))
  unfolding logger_offset
  read_entry copy reader um buf at ok =
      do_read_log_to_user_effect copy written reader um buf (length p) written-IsValid (omega arith)
        (omega arith) ok
      ∙ ap (λ b. served written reader (length p) (store um buf b))
          (ap₂ ◌++◌
            (ap (λ q. slice_round log.size written.buffer q entry_size) at
              ∙ header_of_entry log.size log.buffer log.w_off (payload_off io log) hdr p v.w_in
                  (omega arith) (length-header_bytes (write_header c (length p))) behind)
            (ap
                (λ q.
                  slice_round log.size written.buffer (logger_offset log (add_size q entry_size))
                    (length p))
                at
              ∙ payload_of_entry log.size log.buffer log.w_off (payload_off io log) hdr p v.w_in
                  (omega arith) (length-header_bytes (write_header c (length p))) behind))

  read_at-written :
      (copy_to_user : Mem → ℕ → List ℕ → ℕ × Mem) (reader : Reader) (call : ReadCall) (um : Mem)
      → reader.r_off ≡ log.w_off
      → entry_size + length p ≤ call.count
      → Writable copy_to_user call.buf (entry_size + length p)
      → read_at copy_to_user written reader call um
        ≡ served written reader (length p) (store um call.buf (hdr ++ p))
  unfolding read_at get_user_hdr_len
  read_at-written copy reader call um at large ok =
      let waiting : (written.w_off == reader.r_off) ≡ false =
        ne→== written.w_off reader.r_off (λ e. moved_on (e ∙ at)) in
      let len : get_entry_msg_len written reader.r_off ≡ length p =
        ap (get_entry_msg_len written) at ∙ msg_len-written in
      rw (waiting, len, le→ltb call.count (entry_size + length p) large)
        (read_entry copy reader um call.buf at ok)

  read-written :
      (copy_to_user : Mem → ℕ → List ℕ → ℕ × Mem) (fuel : ℕ) (reader : Reader) (call : ReadCall)
      (um : Mem)
      → reader.r_off ≡ log.w_off
      → reader.r_all ≡ true
      → entry_size + length p ≤ call.count
      → Writable copy_to_user call.buf (entry_size + length p)
      → logger_read copy_to_user fuel written reader call um
        ≡ served written reader (length p) (store um call.buf (hdr ++ p))
  unfolding logger_read
  read-written copy fuel reader call um at all large ok =
      let waiting : (written.w_off == reader.r_off) ≡ false =
        ne→== written.w_off reader.r_off (λ e. moved_on (e ∙ at)) in
      rw waiting (
        if_true reader.r_all (read_at copy written reader call um) _ all
        ∙ read_at-written copy reader call um at large ok)

-- A message of 1 to 4096 bytes that leaves room in a valid channel, all of which can be copied in,
-- is delivered whole to a reader that may read all entries, stands at the write offset and offers
-- a writable buffer of sufficient size: the read returns the length of the header and the payload,
-- the buffer then holds exactly the header's bytes and the payload, also where the entry lies
-- across the end of the ring, and the reader stands at the new write offset.
pub logger_read-logger_write_iter :
    (io : IovIter) (c : Caller) (log : Log) (p : List ℕ) (from : io.Iter)
    (copy_to_user : Mem → ℕ → List ℕ → ℕ × Mem) (fuel : ℕ) (reader : Reader) (call : ReadCall)
    (um : Mem)
    → IsValid log
    → Delivers io from p
    → 0 < length p
    → length p ≤ max_payload
    → entry_size + length p < log.size
    → c.vzalloc_ok ≡ true
    → reader.r_off ≡ log.w_off
    → reader.r_all ≡ true
    → entry_size + length p ≤ call.count
    → Writable copy_to_user call.buf (entry_size + length p)
    → let after = (logger_write_iter io c log from).log in
      let got = logger_read copy_to_user fuel after reader call um in
      (got.outcome ≡ returns (ret (entry_size + length p)))
      × (slice got.user call.buf (entry_size + length p)
          ≡ header_bytes (write_header c (length p)) ++ p)
      × (got.reader.r_off ≡ after.w_off)
unfolding logger_offset
logger_read-logger_write_iter io c log p from copy fuel reader call um v d some_byte fits room mem
      at all large ok =
    let e = logger_write_iter_effect io c log p from v d some_byte fits mem in
    let r =
      read-written io c log p v room fits some_byte copy fuel reader call um at all large ok in
    rw (e, r)
      (
        refl,
        slice-store_self um call.buf (header_bytes (write_header c (length p)) ++ p) _ (sym whole),
        ap (λ q. logger_offset log (add_size (add_size q entry_size) (length p))) at
            ∙ logger_offset-add log v log.w_off (length p) v.w_in (omega arith),
      )
  where
    whole : length (header_bytes (write_header c (length p)) ++ p) ≡ entry_size + length p
    whole =
        length-append (header_bytes (write_header c (length p))) p
        ∙ ap (λ n. n + length p) (length-header_bytes (write_header c (length p)))
