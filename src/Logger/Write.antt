-- ===== src/Logger/Write.antt =====
-- `logger_write_iter` of logger.c.
pub mod Effect
pub mod Branches
pub mod Bounds
use droid_kernal.Prelude.{
  ℕ, ◌+◌, ◌-◌, ◌*◌, ◌%◌, ◌^◌, Bool, true, false, List, [], ◌∷◌, ◌++◌, ◌≡◌, min, ◌==◌, ◌≤◌,
  if◌then◌else◌, length, take, drop,
}
use droid_kernal.Logger.Memory.{Mem, store, Span, span}
use droid_kernal.Logger.Types.{
  Log, Header, Ret, ret, err, oops, Errno, e_fault, entry_size, max_payload, add_size, sub_size,
  header_bytes,
}
use droid_kernal.Logger.Ring.{logger_offset}

-- The user's data: how many bytes it holds, and a copy of at most so many of them, which gives the
-- bytes that could be read and the iterator behind them.
pub record IovIter : Type 1 where
  pub Iter : Type 0
  pub iov_iter_count : Iter → ℕ
  pub copy_from_iter : ℕ → Iter → List ℕ × Iter

-- The calling task, the clocks, the kernel's division that gives quotient and remainder, and
-- whether `vzalloc` finds memory.
pub record Caller : Type 0 where
  pub tgid : ℕ
  pub pid : ℕ
  pub euid : ℕ
  pub now : ℕ
  pub real_now : ℕ
  pub do_div : ℕ → ℕ → ℕ × ℕ
  pub vzalloc_ok : Bool

pub record WriteResult : Type 0 where
  pub result : Ret
  pub log : Log
  pub touched : List Span
  pub woken : Bool

-- The header that the call fills in; the casts keep 32 bits, and the length 16.
unfoldable pub write_header : Caller → ℕ → Header
write_header c count =
    let (sec, nsec) = c.do_div c.now 1_000_000_000 in
    let (real_sec, real_nsec) = c.do_div c.real_now 1_000_000_000 in
    record {
      len = count % 2 ^ 16;
      hdr_size = entry_size;
      pid = c.tgid;
      tid = c.pid;
      sec = sec % 2 ^ 32;
      nsec = nsec % 2 ^ 32;
      real_sec = real_sec % 2 ^ 32;
      real_nsec = real_nsec % 2 ^ 32;
      euid = c.euid;
    }

-- The two copies of the header, and the offset behind it.
unfoldable pub put_header : Log → Header → Log × List Span
put_header log header =
    let len = min entry_size (sub_size log.size log.w_off) in
    let bytes = header_bytes header in
    (
      record log {
        buffer = store (store log.buffer log.w_off (take len bytes)) 0 (drop len bytes);
      },
      span log.w_off len ∷ span 0 (entry_size - len) ∷ [],
    )

-- The end of a call whose payload is in place: the new write offset, the debug copy and its
-- unchecked allocation, the wake-up, and the result, which is the length of the first copy.
unfoldable pub finish_write : Caller → Log → ℕ → ℕ → ℕ → List Span → WriteResult
finish_write c log w_off count len touched =
    let moved = record log { w_off = logger_offset log (add_size w_off count) } in
    if c.vzalloc_ok
    then record {
      result = ret len;
      log = moved;
      touched = touched ++ (span w_off count ∷ []);
      woken = true;
    }
    else record { result = oops; log = moved; touched = touched; woken = false }

module _ (io : IovIter) where
  open io use {Iter, iov_iter_count, copy_from_iter}

  -- The two copies of the payload, after which the entry counts.
  unfoldable pub put_payload : Caller → Log → ℕ → ℕ → Iter → List Span → WriteResult
  put_payload c log w_off count from touched =
      let len = min count (sub_size log.size w_off) in
      let (first, from1) = copy_from_iter len from in
      let log1 = record log { buffer = store log.buffer w_off first } in
      let touched1 = touched ++ (span w_off len ∷ []) in
      let (second, _) = copy_from_iter (count - len) from1 in
      let log2 = record log1 { buffer = store log1.buffer 0 second } in
      let touched2 = touched1 ++ (span 0 (count - len) ∷ []) in
      if length first == len
      then (if length second == (count - len)
          then finish_write c log2 w_off count len touched2
          else record { result = err e_fault; log = log2; touched = touched2; woken = false })
      else record { result = err e_fault; log = log1; touched = touched1; woken = false }

  unfoldable pub logger_write_iter : Caller → Log → Iter → WriteResult
  logger_write_iter c log from =
      let count = min (iov_iter_count from) max_payload in
      let header = write_header c count in
      let (headed, touched) = put_header log header in
      let w_off = logger_offset log (add_size log.w_off entry_size) in
      if header.len == 0
      then record { result = ret 0; log = log; touched = []; woken = false }
      else put_payload c headed w_off count from touched

  -- Consecutive copies from the iterator give consecutive bytes of `p`, all of which can be read.
  pub record Delivers (from : Iter) (p : List ℕ) : Type 0 where
    pub counted : iov_iter_count from ≡ length p
    pub first_copy : (n : ℕ) → n ≤ length p → (copy_from_iter n from).0 ≡ take n p
    pub second_copy :
        (n m : ℕ) → n + m ≡ length p → (copy_from_iter m (copy_from_iter n from).1).0 ≡ drop n p
