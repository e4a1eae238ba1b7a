-- ===== src/Logger/Read/Effect.antt =====
-- What a read that meets no fault hands to the user, in one equation.
use droid_kernal.Prelude.{
  ℕ, ◌+◌, ◌-◌, ◌^◌, ◌≤◌, ◌<◌, ◌≡◌, refl, sym, ap, ◌∙◌, inl, inr, List, ◌++◌, arith, length, ◌==◌,
  ==→eq, append-nil, Bool-cases, length-append,
}
use droid_kernal.Logger.Memory.{Mem, store, slice, length-slice, store_join}
use droid_kernal.Logger.Types.{Log, Reader, ret, entry_size, add_size, sub_size}
use droid_kernal.Logger.Ring.{logger_offset, get_user_hdr_len, get_entry_header}
use droid_kernal.Logger.Ring.Offset.{IsValid, logger_offset-lt}
use droid_kernal.Logger.Entry.{before_end, slice_round}
use droid_kernal.Logger.Read.{
  ReadResult, returns, Writable, copy_header_to_user, copy_payload_to_user, do_read_log_to_user,
}

-- Once nothing is left behind the end, the round read is the plain one.
slice_round_straight :
    (size : ℕ) (m : Mem) (w n k : ℕ)
    → before_end size w n ≡ k
    → k ≡ n
    → slice_round size m w n ≡ slice m w n
unfolding slice
slice_round_straight size m w n k e f =
    let none_left : n - n ≡ 0 = omega arith in rw (e, f, none_left) (append-nil (slice m w n))

pub get_entry_header_lem :
    (log : Log) (off : ℕ)
    → log.size ≤ 2 ^ 31
    → off < log.size
    → get_entry_header log off ≡ slice_round log.size log.buffer off entry_size
unfolding get_entry_header
get_entry_header_lem log off small inside =
    let e : sub_size log.size off ≡ log.size - off = omega arith in
    let k = before_end log.size off entry_size in
    elim (Bool-cases (k == entry_size)) [
      | inl t ↦
          rw (e, t)
            (sym (slice_round_straight log.size log.buffer off entry_size k refl (==→eq _ _ t)))
      | inr t ↦ rw (e, t)
    ]

pub length-slice_round : (size : ℕ) (m : Mem) (w n : ℕ) → length (slice_round size m w n) ≡ n
length-slice_round size m w n = omega (
  arith,
  length-append (slice m w (before_end size w n)) (slice m 0 (n - before_end size w n)),
  length-slice m w (before_end size w n),
  length-slice m 0 (n - before_end size w n),
)

-- The result of a read of `n` bytes of payload that leaves the user's memory as `um`.
abbrev pub served : Log → Reader → ℕ → Mem → ReadResult
served log reader n um = record {
  outcome = returns (ret (entry_size + n));
  reader = record reader {
    r_off = logger_offset log (add_size (add_size reader.r_off entry_size) n);
  };
  user = um;
}

module _ (copy_to_user : Mem → ℕ → List ℕ → ℕ × Mem) where
  copy_payload_lem :
      (log : Log) (reader : Reader) (um : Mem) (buf n : ℕ)
      → IsValid log
      → Writable copy_to_user buf n
      → copy_payload_to_user copy_to_user log reader um buf n
        ≡ served log reader n (
            store um buf (
              slice_round log.size log.buffer
                (logger_offset log (add_size reader.r_off entry_size))
                n))
  unfolding copy_payload_to_user get_user_hdr_len
  copy_payload_lem log reader um buf n v ok =
      let w = logger_offset log (add_size reader.r_off entry_size) in
      let inside : w < log.size = logger_offset-lt log (add_size reader.r_off entry_size) v in
      let e : sub_size log.size w ≡ log.size - w = omega arith in
      let k = before_end log.size w n in
      let first = slice log.buffer w k in
      let copied = ok um buf first (omega arith) (omega (arith, length-slice log.buffer w k)) in
      let rest = slice log.buffer 0 (n - k) in
      elim (Bool-cases (n == k)) [
        | inl t ↦
            let whole : k ≡ n = sym (==→eq _ _ t) in
            let same : first ≡ slice_round log.size log.buffer w n =
              ap (slice log.buffer w) whole
              ∙ sym (slice_round_straight log.size log.buffer w n k refl whole) in
            rw (e, copied, t) (ap (λ l. served log reader n (store um buf l)) same)
        | inr t ↦
            let more : copy_to_user (store um buf first) (buf + k) rest
                ≡ (0, store (store um buf first) (buf + k) rest) =
              ok (store um buf first) (buf + k) rest (omega arith)
                (omega (arith, length-slice log.buffer 0 (n - k))) in
            let joined : store (store um buf first) (buf + k) rest ≡ store um buf (first ++ rest) =
              store_join um buf k first rest (length-slice log.buffer w k) in
            rw (e, copied, t, more, joined)
      ]

  pub do_read_log_to_user_effect :
      (log : Log) (reader : Reader) (um : Mem) (buf n : ℕ)
      → IsValid log
      → reader.r_off < log.size
      → entry_size + n < 2 ^ 32
      → Writable copy_to_user buf (entry_size + n)
      → do_read_log_to_user copy_to_user log reader um buf (entry_size + n)
        ≡ served log reader n (
            store um buf (
              slice_round log.size log.buffer reader.r_off entry_size
              ++ slice_round log.size log.buffer
                  (logger_offset log (add_size reader.r_off entry_size))
                  n))
  unfolding do_read_log_to_user copy_header_to_user get_user_hdr_len
  do_read_log_to_user_effect log reader um buf n v inside small ok =
      let hdr = slice_round log.size log.buffer reader.r_off entry_size in
      let e : sub_size (entry_size + n) entry_size ≡ n = omega arith in
      let full : length hdr ≡ entry_size =
        length-slice_round log.size log.buffer reader.r_off entry_size in
      let copied : copy_to_user um buf hdr ≡ (0, store um buf hdr) =
        ok um buf hdr (omega arith) (omega arith) in
      let later : Writable copy_to_user (buf + entry_size) n =
        λ um' a bs lo hi. ok um' a bs (omega arith) (omega arith) in
      rw
        (
          get_entry_header_lem log reader.r_off v.size_max inside,
          copied,
          e,
          copy_payload_lem log reader (store um buf hdr) (buf + entry_size) n v later,
        )
        (ap (served log reader n) (
          store_join um buf entry_size hdr
            (slice_round log.size log.buffer (logger_offset log (add_size reader.r_off entry_size))
              n)
            full))
