-- ===== src/Logger/Read.antt =====
-- `logger_read` and `do_read_log_to_user` of logger.c.
pub mod Effect
pub mod Branches
use droid_kernal.Prelude.{
  ℕ, ◌+◌, ◌-◌, Bool, true, false, Option, none, some, List, [], ◌∷◌, ◌++◌, ◌≡◌, ◌≤◌, min, ◌==◌, ltb,
  if◌then◌else◌, length,
}
use droid_kernal.Logger.Memory.{Mem, store, slice, Span, span}
use droid_kernal.Logger.Types.{
  Log, Reader, Ret, ret, err, Errno, e_intr, e_fault, e_inval, entry_size, add_size, sub_size,
}
use droid_kernal.Logger.Ring.{
  logger_offset, get_user_hdr_len, get_entry_header, get_entry_msg_len, get_next_entry_by_uid,
}

-- A call of read(): its flags, the user id of the task, and the user's buffer.
pub record ReadCall : Type 0 where
  pub nonblock : Bool
  pub signal : Bool
  pub euid : ℕ
  pub buf : ℕ
  pub count : ℕ

-- `sleeps` is a call of schedule(), after which the call starts again; `spins` a loop that used up
-- its fuel.
pub data Outcome : Type 0 where
  returns : Ret → Outcome
  sleeps spins : Outcome

pub record ReadResult : Type 0 where
  pub outcome : Outcome
  pub reader : Reader
  pub user : Mem

-- The wait loop, entered with nothing to read.
unfoldable pub blocked : ReadCall → Outcome
blocked call =
    if call.nonblock
    then returns (err e_intr)
    else if call.signal
    then returns (err e_intr)
    else sleeps

-- copy_to_user on the user's memory: how many bytes it could not copy, and the memory after it.
module _ (copy_to_user : Mem → ℕ → List ℕ → ℕ × Mem) where
  -- Every copy that stays within the `n` bytes from `lo` on succeeds.
  abbrev pub Writable : ℕ → ℕ → Type 0
  Writable lo n =
      (um : Mem) (a : ℕ) (bs : List ℕ)
      → lo ≤ a
      → a + length bs ≤ lo + n
      → copy_to_user um a bs ≡ (0, store um a bs)

  unfoldable pub copy_header_to_user : ℕ → List ℕ → Mem → ℕ → ℕ × Mem
  copy_header_to_user ver entry um buf = copy_to_user um buf entry

  -- The payload's copies, once the header is out; `count` is the payload's length.
  unfoldable pub copy_payload_to_user : Log → Reader → Mem → ℕ → ℕ → ReadResult
  copy_payload_to_user log reader um buf count =
      let msg_start = logger_offset log (add_size reader.r_off entry_size) in
      let len = min count (sub_size log.size msg_start) in
      let (left1, um1) = copy_to_user um buf (slice log.buffer msg_start len) in
      let (left2, um2) = copy_to_user um1 (buf + len) (slice log.buffer 0 (count - len)) in
      let moved = logger_offset log (add_size (add_size reader.r_off entry_size) count) in
      let done = returns (ret (get_user_hdr_len reader.r_ver + count)) in
      let faulted = returns (err e_fault) in
      if left1 == 0
      then (if count == len
          then record { outcome = done; reader = record reader { r_off = moved }; user = um1 }
          else if left2 == 0
          then record { outcome = done; reader = record reader { r_off = moved }; user = um2 }
          else record { outcome = faulted; reader = reader; user = um2 })
      else record { outcome = faulted; reader = reader; user = um1 }

  unfoldable pub do_read_log_to_user : Log → Reader → Mem → ℕ → ℕ → ReadResult
  do_read_log_to_user log reader um buf count =
      let entry = get_entry_header log reader.r_off in
      let hdr_len = get_user_hdr_len reader.r_ver in
      let (left, um1) = copy_header_to_user reader.r_ver entry um buf in
      if left == 0
      then copy_payload_to_user log reader um1 (buf + hdr_len) (sub_size count hdr_len)
      else record { outcome = returns (err e_fault); reader = reader; user = um1 }

  -- The part behind the seek by user id, with `goto start` where that ran to the write offset.
  unfoldable pub read_at : Log → Reader → ReadCall → Mem → ReadResult
  read_at log reader call um =
      let need = get_user_hdr_len reader.r_ver + get_entry_msg_len log reader.r_off in
      if log.w_off == reader.r_off
      then record { outcome = blocked call; reader = reader; user = um }
      else if ltb call.count need
      then record { outcome = returns (err e_inval); reader = reader; user = um }
      else do_read_log_to_user log reader um call.buf need

  -- One call, up to its return or its first sleep. No other task runs between its two locks.
  unfoldable pub logger_read : ℕ → Log → Reader → ReadCall → Mem → ReadResult
  logger_read fuel log reader call um =
      if log.w_off == reader.r_off
      then record { outcome = blocked call; reader = reader; user = um }
      else if reader.r_all
      then read_at log reader call um
      else elim (get_next_entry_by_uid fuel log reader.r_off call.euid) [
        | none ↦ record { outcome = spins; reader = reader; user = um }
        | some off ↦ read_at log (record reader { r_off = off }) call um
      ]
