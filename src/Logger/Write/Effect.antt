-- ===== src/Logger/Write/Effect.antt =====
-- What a write of a deliverable payload does to the log, in one equation.
use droid_kernal.Prelude.{
  ℕ, ◌-◌, ◌^◌, ◌≤◌, ◌<◌, ◌≡◌, ◌∙◌, List, [], ◌∷◌, ◌++◌, arith, min, length, take, drop, true, false,
  length-take, length-drop, ◌==◌, eq→==,
}
use droid_kernal.Logger.Memory.{Span, span}
use droid_kernal.Logger.Types.{
  Log, Header, ret, entry_size, max_payload, add_size, sub_size, header_bytes,
}
use droid_kernal.Logger.Ring.{logger_offset}
use droid_kernal.Logger.Ring.Offset.{IsValid, logger_offset-lt}
use droid_kernal.Logger.Entry.{before_end, store_round, store_entry}
use droid_kernal.Logger.Write.{
  IovIter, Caller, Delivers, write_header, put_header, put_payload, finish_write, logger_write_iter,
}

put_header_lem :
    (log : Log) (h : Header)
    → IsValid log
    → put_header log h ≡ (
      record log { buffer = store_round log.size log.buffer log.w_off (header_bytes h) },
      span log.w_off (before_end log.size log.w_off entry_size)
          ∷ span 0 (entry_size - before_end log.size log.w_off entry_size)
          ∷ [],
    )
unfolding put_header header_bytes
put_header_lem log h v =
    let e : sub_size log.size log.w_off ≡ log.size - log.w_off = omega arith in rw e

header-len : (c : Caller) (n : ℕ) → 0 < n → n ≤ max_payload → ((write_header c n).len == 0) ≡ false
unfolding write_header
header-len c n h k = ground arith

module _ (io : IovIter) where
  open io use {Iter, iov_iter_count, copy_from_iter}

  put_payload_lem :
      (c : Caller) (log : Log) (w : ℕ) (p : List ℕ) (from : Iter) (touched : List Span)
      → log.size ≤ 2 ^ 31
      → w < log.size
      → Delivers io from p
      → put_payload io c log w (length p) from touched
        ≡ finish_write c
            (record log { buffer = store_round log.size log.buffer w p })
            w
            (length p)
            (before_end log.size w (length p))
            ((touched ++ (span w (before_end log.size w (length p)) ∷ []))
              ++ (span 0 (length p - before_end log.size w (length p)) ∷ []))
  unfolding put_payload
  put_payload_lem c log w p from touched small inside d =
      let e : sub_size log.size w ≡ log.size - w = omega arith in
      let k = before_end log.size w (length p) in
      let part : k ≤ length p = omega arith in
      let rest : (copy_from_iter (length p - k) (copy_from_iter k from).1).0 ≡ drop k p =
        d.second_copy k (length p - k) (omega arith) in
      let took : (length (take k p) == k) ≡ true =
        eq→== (length (take k p)) k (omega (arith, length-take k p)) in
      let left : (length (drop k p) == (length p - k)) ≡ true =
        eq→== (length (drop k p)) (length p - k) (length-drop k p) in
      rw (e, d.first_copy k part, rest, took, left)

  -- The log after the call, and the offset of the payload.
  abbrev pub payload_off : Log → ℕ
  payload_off log = logger_offset log (add_size log.w_off entry_size)

  abbrev pub after_write : Caller → Log → List ℕ → Log
  after_write c log p = record log {
    buffer =
        store_entry log.size log.buffer log.w_off (payload_off log)
          (header_bytes (write_header c (length p))) p;
    w_off = logger_offset log (add_size (payload_off log) (length p));
  }

  -- What the call touches: the header's two parts and the payload's two, then the debug copy.
  abbrev pub write_spans : Log → ℕ → List Span
  write_spans log n =
      let k = before_end log.size log.w_off entry_size in
      let w = payload_off log in
      let l = before_end log.size w n in
      span log.w_off k ∷ span 0 (entry_size - k) ∷ span w l ∷ span 0 (n - l) ∷ []

  pub logger_write_iter_effect :
      (c : Caller) (log : Log) (p : List ℕ) (from : Iter)
      → IsValid log
      → Delivers io from p
      → 0 < length p
      → length p ≤ max_payload
      → c.vzalloc_ok ≡ true
      → logger_write_iter io c log from ≡ record {
        result = ret (before_end log.size (payload_off log) (length p));
        log = after_write c log p;
        touched = write_spans log (length p) ++ (span (payload_off log) (length p) ∷ []);
        woken = true;
      }
  unfolding logger_write_iter finish_write logger_offset
  logger_write_iter_effect c log p from v d some_byte fits mem =
      let count : min (iov_iter_count from) max_payload ≡ length p = omega (arith, d.counted) in
      let headed = record log {
        buffer =
            store_round log.size log.buffer log.w_off (header_bytes (write_header c (length p)));
      } in
      rw
        (
          count,
          put_header_lem log (write_header c (length p)) v,
          header-len c (length p) some_byte fits,
        )
        (put_payload_lem c headed (payload_off log) p from _ v.size_max
            (logger_offset-lt log (add_size log.w_off entry_size) v) d
          ∙ finished)
    where
      finished :
          finish_write c
            (record log {
              buffer =
                  store_entry log.size log.buffer log.w_off
                    (payload_off log)
                    (header_bytes (write_header c (length p)))
                    p;
            })
            (payload_off log)
            (length p)
            (before_end log.size (payload_off log) (length p))
            (write_spans log (length p))
          ≡ record {
            result = ret (before_end log.size (payload_off log) (length p));
            log = after_write c log p;
            touched = write_spans log (length p) ++ (span (payload_off log) (length p) ∷ []);
            woken = true;
          }
      finished = rw mem
