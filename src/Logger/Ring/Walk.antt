-- ===== src/Logger/Ring/Walk.antt =====
-- The two walks over the entries of a log in logger.c, get_next_entry and get_next_entry_by_uid.
use droid_kernal.Prelude.{
  ℕ, zero, suc, ◌+◌, ◌-◌, ◌^◌, ◌<◌, ◌≡◌, ◌≢◌, refl, inl, inr, none, some, arith, ltb, ◌==◌,
  Bool-cases, ltb→lt, ne→==, List, [], ◌∷◌, ◌++◌, min,
}
use droid_kernal.Logger.Memory.{Mem, slice}
use droid_kernal.Logger.Types.{Log, entry_size, add_size, sub_size, header_of, get16}
use droid_kernal.Logger.Ring.{
  logger_offset, get_entry_header, get_entry_msg_len, get_next_entry_by_uid, next_entry_from,
  get_next_entry,
}
use droid_kernal.Logger.Ring.Offset.{IsValid, logger_offset-lt}

abbrev AllBytes : List ℕ → Type 0
AllBytes [] = Unit {0}
AllBytes (b ∷ bs) = (b < 256) × AllBytes bs

slice-AllBytes : (m : Mem) (p n : ℕ) → ((a : ℕ) → m a < 256) → AllBytes (slice m p n)
unfolding slice
slice-AllBytes m p zero h = tt
slice-AllBytes m p (suc n) h = (h p, slice-AllBytes m (p + 1) n h)

append-AllBytes : (xs ys : List ℕ) → AllBytes xs → AllBytes ys → AllBytes (xs ++ ys)
append-AllBytes [] ys hx hy = hy
append-AllBytes (x ∷ xs) ys hx hy = (hx.0, append-AllBytes xs ys hx.1 hy)

get16-lt : (bs : List ℕ) → AllBytes bs → get16 bs < 2 ^ 16
get16-lt [] h = omega arith
get16-lt (a ∷ []) h = omega arith
get16-lt (a ∷ b ∷ r) h = omega arith

-- A length field read from bytes has 16 bits.
pub get_entry_msg_len-lt :
    (log : Log) (off : ℕ) → ((a : ℕ) → log.buffer a < 256) → get_entry_msg_len log off < 2 ^ 16
unfolding get_entry_msg_len get_entry_header header_of
get_entry_msg_len-lt log off h =
    let k = min entry_size (sub_size log.size off) in
    elim (Bool-cases (k == entry_size)) [
      | inl e ↦ rw e (get16-lt _ (slice-AllBytes log.buffer off entry_size h))
      | inr e ↦ rw e (
          get16-lt _ (
            append-AllBytes (slice log.buffer off k) (slice log.buffer 0 (entry_size - k))
              (slice-AllBytes log.buffer off k h) (slice-AllBytes log.buffer 0 (entry_size - k) h)))
    ]

next_entry_from_total :
    (fuel : ℕ) (log : Log) (off count len : ℕ)
    → IsValid log
    → ((a : ℕ) → log.buffer a < 256)
    → off < log.size
    → len < 2 ^ 32
    → count < 2 ^ 33
    → len < fuel + count
    → 0 < fuel
    → (r : ℕ) × (next_entry_from fuel log off count len ≡ some r) × (r < log.size)
unfolding next_entry_from
next_entry_from_total zero log off count len v bytes inside small bounded enough pos =
    absurd (omega arith)
next_entry_from_total (suc fuel) log off count len v bytes inside small bounded enough pos =
    let nr = add_size entry_size (get_entry_msg_len log off) in
    let next = logger_offset log (add_size off nr) in
    let here : next < log.size = logger_offset-lt log (add_size off nr) v in
    let bound : get_entry_msg_len log off < 2 ^ 16 = get_entry_msg_len-lt log off bytes in
    elim (Bool-cases (ltb (add_size count nr) len)) [
      | inl e ↦
          let (r, found, below) =
            next_entry_from_total fuel log next (add_size count nr) len v bytes here small
              (omega (arith, ltb→lt _ _ e)) (omega arith) (omega (arith, ltb→lt _ _ e)) in
          (r, rw e found, below)
      | inr e ↦ (next, rw e, here)
    ]

-- On a valid channel whose buffer holds bytes, the search from an offset within the
-- ring for an entry at least `len` bytes on ends within `len + 1` rounds, at an offset within the
-- ring.
pub get_next_entry_total :
    (log : Log) (off len : ℕ)
    → IsValid log
    → ((a : ℕ) → log.buffer a < 256)
    → off < log.size
    → len < 2 ^ 32
    → (r : ℕ) × (get_next_entry log off len ≡ some r) × (r < log.size)
unfolding get_next_entry
get_next_entry_total log off len v bytes inside small =
    next_entry_from_total (len + 1) log off 0 len v bytes inside small (omega arith) (omega arith)
      (omega arith)

-- The search for a user's entry takes the next offset from the entry's length alone. So where
-- another user's entry, not at the write offset, has the length that leads back to its own
-- offset, no number of rounds ends the search.
pub get_next_entry_by_uid_spins :
    (log : Log) (off euid : ℕ)
    → log.w_off ≢ off
    → (header_of (get_entry_header log off)).euid ≢ euid
    → logger_offset log (add_size entry_size (header_of (get_entry_header log off)).len) ≡ off
    → (fuel : ℕ) → get_next_entry_by_uid fuel log off euid ≡ none
unfolding get_next_entry_by_uid
get_next_entry_by_uid_spins log off euid away other back zero = refl
get_next_entry_by_uid_spins log off euid away other back (suc fuel) =
    rw (ne→== _ _ away, ne→== _ _ other, back)
      (get_next_entry_by_uid_spins log off euid away other back fuel)
