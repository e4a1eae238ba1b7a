-- ===== src/Logger/Write/Branches.antt =====
-- `logger_write_iter` on its branches that fail.
use droid_kernal.Prelude.{ℕ, ◌≡◌, List, false, min, arith}
use droid_kernal.Logger.Memory.{Span}
use droid_kernal.Logger.Types.{Log, err, Errno, entry_size, max_payload, add_size}
use droid_kernal.Logger.Ring.{logger_offset}
use droid_kernal.Logger.Write.{
  IovIter, Caller, WriteResult, write_header, put_header, put_payload, finish_write,
  logger_write_iter,
}

-- Nothing that a reader or a later write looks at has changed.
pub record Unpublished (log : Log) (r : WriteResult) : Type 0 where
  pub same_w_off : r.log.w_off ≡ log.w_off
  pub same_head : r.log.head ≡ log.head
  pub same_size : r.log.size ≡ log.size
  pub same_readers : r.log.readers ≡ log.readers
  pub asleep : r.woken ≡ false

module _ (io : IovIter) where
  put_payload_err :
      (c : Caller) (log : Log) (w count : ℕ) (from : io.Iter) (touched : List Span) (e : Errno)
      → (put_payload io c log w count from touched).result ≡ err e
      → Unpublished log (put_payload io c log w count from touched)
  unfolding put_payload finish_write
  put_payload_err c log w count from touched e h = ground arith

  -- A write that returns an error leaves the write offset, the head, the size and the readers as
  -- they were and wakes no reader, whatever part of the entry it had copied.
  logger_write_iter_err :
      (c : Caller) (log : Log) (from : io.Iter) (e : Errno)
      → (logger_write_iter io c log from).result ≡ err e
      → Unpublished log (logger_write_iter io c log from)
  unfolding logger_write_iter put_header
  logger_write_iter_err c log from e h =
      let count = min (io.iov_iter_count from) max_payload in
      let headed = (put_header log (write_header c count)).0 in
      let w = logger_offset log (add_size log.w_off entry_size) in
      ground
        (arith, put_payload_err c headed w count from (put_header log (write_header c count)).1 e)
