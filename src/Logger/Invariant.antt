-- ===== src/Logger/Invariant.antt =====
-- The validity of a log and of its readers under the writes of logger.c.
use droid_kernal.Prelude.{
  ℕ, ◌+◌, ◌-◌, ◌^◌, ◌<◌, ◌≡◌, sym, ap, ◌∙◌, inl, inr, List, arith, false, if◌then◌else◌, ◌==◌,
  Bool-cases, length, min, ltb, ltb→lt, ltb→le,
}
use native.Mathlib.Nat.{mod-add-mod}
use droid_kernal.Logger.Memory.{Mem, Span}
use droid_kernal.Logger.Types.{Log, entry_size, add_size, sub_size, max_payload}
use droid_kernal.Logger.Ring.{logger_offset}
use droid_kernal.Logger.Ring.Offset.{
  IsValid, logger_offset-lt, logger_offset_once, logger_offset-eq-mod,
}
use droid_kernal.Logger.Entry.{Behind}
use droid_kernal.Logger.Write.{
  IovIter, Caller, put_header, put_payload, finish_write, logger_write_iter, write_header,
}

pub buffer-IsValid : {log : Log} (b : Mem) → IsValid log → IsValid (record log { buffer = b })
buffer-IsValid b v = record {
  order = v.order;
  size_pow = v.size_pow;
  size_min = v.size_min;
  size_max = v.size_max;
  w_in = v.w_in;
  head_in = v.head_in;
  readers_in = v.readers_in;
}

pub moved-IsValid :
    {log : Log} (w : ℕ) → w < log.size → IsValid log → IsValid (record log { w_off = w })
moved-IsValid w h v = record {
  order = v.order;
  size_pow = v.size_pow;
  size_min = v.size_min;
  size_max = v.size_max;
  w_in = h;
  head_in = v.head_in;
  readers_in = v.readers_in;
}

finish_write-IsValid :
    (c : Caller) (log : Log) (w count len : ℕ) (touched : List Span)
    → IsValid log
    → IsValid (finish_write c log w count len touched).log
unfolding finish_write
finish_write-IsValid c log w count len touched v =
    let moved = moved-IsValid _ (logger_offset-lt log (add_size w count) v) v in
    elim (Bool-cases c.vzalloc_ok) [ inl e ↦ rw e moved | inr e ↦ rw e moved ]

module _ (io : IovIter) where
  open io use {Iter}

  put_payload-IsValid :
      (c : Caller) (log : Log) (w count : ℕ) (from : Iter) (touched : List Span)
      → IsValid log
      → IsValid (put_payload io c log w count from touched).log
  unfolding put_payload
  put_payload-IsValid c log w count from touched v =
      let len = min count (sub_size log.size w) in
      let first = (io.copy_from_iter len from).0 in
      let second = (io.copy_from_iter (count - len) (io.copy_from_iter len from).1).0 in
      elim (Bool-cases (length first == len)) [
        | inl e ↦ elim (Bool-cases (length second == (count - len))) [
          | inl e' ↦ rw (e, e') (finish_write-IsValid c _ w count len _ (buffer-IsValid _ v))
          | inr e' ↦ rw (e, e') (buffer-IsValid _ v)
        ]
        | inr e ↦ rw e (buffer-IsValid _ v)
      ]

  -- A write keeps a valid log valid on each of its branches: nothing to write, a fault in either
  -- copy, an allocation that fails, and success.
  pub logger_write_iter-IsValid :
      (c : Caller) (log : Log) (from : Iter)
      → IsValid log
      → IsValid (logger_write_iter io c log from).log
  unfolding logger_write_iter put_header
  logger_write_iter-IsValid c log from v =
      let count = min (io.iov_iter_count from) max_payload in
      elim (Bool-cases ((write_header c count).len == 0)) [
        | inl e ↦ rw e v
        | inr e ↦ rw e (put_payload-IsValid c _ _ count from _ (buffer-IsValid _ v))
      ]

module _ (log : Log) (v : IsValid log) where
  -- The payload's offset lies behind the header's, going round.
  pub logger_offset-Behind :
      (w : ℕ) → w < log.size → Behind log.size w (logger_offset log (add_size w entry_size))
  logger_offset-Behind w inside = elim (Bool-cases (ltb (w + entry_size) log.size)) [
    | inl e ↦ inl (ltb→lt _ _ e, no_wrap ∙ once ∙ rw e)
    | inr e ↦ inr (ltb→le _ _ e, omega (arith, no_wrap ∙ once ∙ wrapped e, ltb→le _ _ e))
  ]
    where
      no_wrap : logger_offset log (add_size w entry_size) ≡ logger_offset log (w + entry_size)
      no_wrap = ap (logger_offset log) (omega arith)

      once :
          logger_offset log (w + entry_size)
          ≡ (if ltb (w + entry_size) log.size then w + entry_size else w + entry_size - log.size)
      once = logger_offset_once log (w + entry_size) v (omega arith)

      wrapped :
          ltb (w + entry_size) log.size ≡ false
          → (if ltb (w + entry_size) log.size then w + entry_size else w + entry_size - log.size)
            ≡ w + entry_size - log.size
      wrapped e = rw e

  -- Two moves are one.
  pub logger_offset-add :
      (w n : ℕ)
      → w < log.size
      → n < 2 ^ 31
      → logger_offset log (add_size (add_size w entry_size) n)
        ≡ logger_offset log (add_size (logger_offset log (add_size w entry_size)) n)
  logger_offset-add w n inside small =
      let a : add_size (add_size w entry_size) n ≡ w + entry_size + n = omega arith in
      let b : add_size w entry_size ≡ w + entry_size = omega arith in
      let off = logger_offset log (w + entry_size) in
      let lt : off < log.size = logger_offset-lt log (w + entry_size) v in
      let c : add_size off n ≡ off + n = omega arith in
      rw
        (
          a,
          b,
          c,
          logger_offset-eq-mod log (w + entry_size + n) v,
          logger_offset-eq-mod log (off + n) v,
          logger_offset-eq-mod log (w + entry_size) v,
        )
        (sym (mod-add-mod (w + entry_size) log.size n))
