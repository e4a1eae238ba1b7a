-- ===== src/Logger/Ring.antt =====
-- The offsets of logger.c: masking, entry headers that may lie across the end of the buffer, the
-- walk from entry to entry, and the move of readers that a write overtakes.
pub mod Offset
pub mod Between
pub mod Walk
use droid_kernal.Prelude.{
  ℕ, zero, suc, ◌+◌, ◌-◌, Bool, true, false, Option, none, some, List, [], ◌∷◌, ◌++◌, ◌&&◌, ◌||◌,
  min, bit_and, ltb, leb, ◌==◌, if◌then◌else◌,
}
use droid_kernal.Logger.Memory.{slice}
use droid_kernal.Logger.Types.{Log, Reader, Header, entry_size, add_size, sub_size, header_of}

-- n & (log->size - 1)
unfoldable pub logger_offset : Log → ℕ → ℕ
logger_offset log n = bit_and n (sub_size log.size 1)

unfoldable pub get_user_hdr_len : ℕ → ℕ
get_user_hdr_len ver = entry_size

-- The bytes of the entry header at `off`: in one piece, or in the two pieces that `scratch` joins.
unfoldable pub get_entry_header : Log → ℕ → List ℕ
get_entry_header log off =
    let len = min entry_size (sub_size log.size off) in
    if len == entry_size
    then slice log.buffer off entry_size
    else slice log.buffer off len ++ slice log.buffer 0 (entry_size - len)

unfoldable pub get_entry_msg_len : Log → ℕ → ℕ
get_entry_msg_len log off = (header_of (get_entry_header log off)).len

-- The loop over entries until one of the user's; `none` when the fuel is used up.
unfoldable pub get_next_entry_by_uid : ℕ → Log → ℕ → ℕ → Option ℕ
get_next_entry_by_uid zero log off euid = none
get_next_entry_by_uid (suc fuel) log off euid =
    let entry = header_of (get_entry_header log off) in
    let rest =
      get_next_entry_by_uid fuel log (logger_offset log (add_size entry_size entry.len)) euid in
    if log.w_off == off then some off else if entry.euid == euid then some off else rest

-- The do-while loop of `get_next_entry`, with the `count` that it has reached.
unfoldable pub next_entry_from : ℕ → Log → ℕ → ℕ → ℕ → Option ℕ
next_entry_from zero log off count len = none
next_entry_from (suc fuel) log off count len =
    let nr = add_size entry_size (get_entry_msg_len log off) in
    let next = logger_offset log (add_size off nr) in
    let reached = add_size count nr in
    let rest = next_entry_from fuel log next reached len in
    if ltb reached len then rest else some next

-- Every round adds at least the size of a header, so `len + 1` rounds are enough.
unfoldable pub get_next_entry : Log → ℕ → ℕ → Option ℕ
unfolding next_entry_from
get_next_entry log off len = next_entry_from (len + 1) log off 0 len

-- Does c lie behind a and up to b, going round?
unfoldable pub is_between : ℕ → ℕ → ℕ → Bool
is_between a b c = if ltb a b then ltb a c && leb c b else leb c b || ltb a c

-- One offset of `fix_up_readers`, `log->head` or a reader's.
unfoldable pub fix_up_offset : Log → ℕ → ℕ → Option ℕ
unfolding is_between get_next_entry
fix_up_offset log len off =
    let old = log.w_off in
    let new = logger_offset log (add_size old len) in
    if is_between old new off then get_next_entry log off len else some off

fix_up_list : Log → ℕ → List Reader → Option (List Reader)
fix_up_list log len [] = some []
fix_up_list log len (r ∷ rs) = elim (fix_up_offset log len r.r_off) [
  | none ↦ none
  | some off ↦ elim (fix_up_list log len rs) [
    | none ↦ none
    | some fixed ↦ some (record r { r_off = off } ∷ fixed)
  ]
]

-- No caller is left: the call in `logger_write_iter` is commented out.
unfoldable pub fix_up_readers : Log → ℕ → Option Log
unfolding fix_up_list
fix_up_readers log len = elim (fix_up_offset log len log.head) [
  | none ↦ none
  | some head ↦ elim (fix_up_list (record log { head = head }) len log.readers) [
    | none ↦ none
    | some readers ↦ some (record log { head = head; readers = readers })
  ]
]
