-- ===== src/Logger/Tests.antt =====
-- The theorems about logger.c at concrete channels, and runs of its functions.
use droid_kernal.Prelude.{
  ℕ, ◌+◌, ◌/◌, ◌%◌, ◌≤◌, ◌<◌, ◌≡◌, ◌↔◌, refl, List, [], ◌∷◌, ◌++◌, arith, true, false, none, some,
  length, take, drop, take_all, length-drop,
}
use droid_kernal.Logger.Memory.{Mem, store, slice, AllWithin}
use droid_kernal.Logger.Types.{Log, Reader, ret, header_bytes, header_of}
use droid_kernal.Logger.Ring.{
  logger_offset, get_next_entry, get_next_entry_by_uid, get_entry_header,
}
use droid_kernal.Logger.Ring.Offset.{IsValid}
use droid_kernal.Logger.Ring.Walk.{get_next_entry_total, get_next_entry_by_uid_spins}
use droid_kernal.Logger.Write.{IovIter, Caller, Delivers, write_header, logger_write_iter}
use droid_kernal.Logger.Write.Effect.{payload_off}
use droid_kernal.Logger.Write.Bounds.{logger_write_iter-frame, logger_write_iter-AllWithin}
use droid_kernal.Logger.Read.{ReadCall, returns, logger_read}
use droid_kernal.Logger.Read.Branches.{Consumes, logger_read-Consumes}
use droid_kernal.Logger.Invariant.{logger_write_iter-IsValid}
use droid_kernal.Logger.RoundTrip.{logger_read-logger_write_iter}

-- A user's data as a list, all of which can be read.
abbrev lists : IovIter
lists = record {
  Iter = List ℕ;
  iov_iter_count = length;
  copy_from_iter = λ n it. (take n it, drop n it);
}

-- A user's data of which nothing can be read.
abbrev unmapped : IovIter
unmapped = record { Iter = List ℕ; iov_iter_count = length; copy_from_iter = λ n it. ([], it) }

lists-Delivers : (p : List ℕ) → Delivers lists p p
lists-Delivers p = record {
  counted = refl;
  first_copy = λ n h. refl;
  second_copy = λ n m h. take_all m (drop n p) (omega (arith, length-drop n p));
}

abbrev task : Caller
task = record {
  tgid = 100;
  pid = 101;
  euid = 1000;
  now = 5_000_000_007;
  real_now = 9_000_000_003;
  do_div = λ n d. (n / d, n % d);
  vzalloc_ok = true;
}

-- A channel of one kilobyte whose next payload will lie across the end.
abbrev channel : Log
channel = record {
  addr = 1;
  vaddr = 2;
  name = 3;
  buffer = λ a. 0;
  minor = 60;
  readers = [];
  w_off = 985;
  head = 0;
  size = 1024;
}

channel-IsValid : IsValid channel
channel-IsValid = record {
  order = 10;
  size_pow = refl;
  size_min = omega arith;
  size_max = omega arith;
  w_in = omega arith;
  head_in = omega arith;
  readers_in = tt;
}

abbrev message : List ℕ
message = 1 ∷ 2 ∷ 3 ∷ 4 ∷ 5 ∷ 6 ∷ 7 ∷ 8 ∷ 9 ∷ 10 ∷ []

abbrev at_end : Reader
at_end = record { addr = 7; r_off = 985; r_all = true; r_ver = 1 }

abbrev big_read : ReadCall
big_read = record { nonblock = true; signal = false; euid = 1000; buf = 64; count = 4096 }

abbrev user_writes : Mem → ℕ → List ℕ → ℕ × Mem
user_writes um a bs = (0, store um a bs)

logger_read-logger_write_iter_example :
    let after = (logger_write_iter lists task channel message).log in
    let got = logger_read user_writes 1 after at_end big_read (λ a. 0) in
    (got.outcome ≡ returns (ret 42))
    × (slice got.user 64 42 ≡ header_bytes (write_header task 10) ++ message)
    × (got.reader.r_off ≡ after.w_off)
logger_read-logger_write_iter_example =
    logger_read-logger_write_iter lists task channel message message user_writes 1 at_end big_read
      (λ a. 0) channel-IsValid (lists-Delivers message) (omega arith) (omega arith) (omega arith)
      refl refl refl (omega arith) (λ um a bs lo hi. refl)

logger_write_iter-IsValid_example : IsValid (logger_write_iter lists task channel message).log
logger_write_iter-IsValid_example =
    logger_write_iter-IsValid lists task channel message channel-IsValid

-- The byte behind the entry, which ends at offset 3.
logger_write_iter-frame_example : (logger_write_iter lists task channel message).log.buffer 3 ≡ 0
logger_write_iter-frame_example =
    logger_write_iter-frame lists task channel message message channel-IsValid
      (lists-Delivers message) (omega arith) (omega arith) refl 3 (omega arith) (omega arith)
      (omega arith)

logger_write_iter-AllWithin_example :
    AllWithin 1024 (logger_write_iter lists task channel message).touched
    ↔ (payload_off lists channel + 10 ≤ 1024)
logger_write_iter-AllWithin_example =
    logger_write_iter-AllWithin lists task channel message message channel-IsValid
      (lists-Delivers message) (omega arith) (omega arith) refl

logger_read-Consumes_example :
    Consumes at_end 4096 (logger_read user_writes 1 channel at_end big_read (λ a. 0))
logger_read-Consumes_example =
    logger_read-Consumes user_writes 1 channel at_end big_read (λ a. 0) refl (λ a. omega arith)

get_next_entry_example : (r : ℕ) × (get_next_entry channel 64 100 ≡ some r) × (r < 1024)
get_next_entry_example =
    get_next_entry_total channel 64 100 channel-IsValid (λ a. omega arith) (omega arith)
      (omega arith)

-- A zeroed header belongs to user 0, and its length 0 leads back to offset 32.
get_next_entry_by_uid_spins_example : get_next_entry_by_uid 1000 channel 32 1000 ≡ none
unfolding get_entry_header header_of slice logger_offset
get_next_entry_by_uid_spins_example =
    get_next_entry_by_uid_spins channel 32 1000 (omega arith) (omega arith) refl 1000
