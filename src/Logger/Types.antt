-- ===== src/Logger/Types.antt =====
-- The types of logger.c and logger.h: a log channel, a reader, the entry header and its bytes.
use droid_kernal.Prelude.{
  ℕ, ◌+◌, ◌-◌, ◌*◌, ◌/◌, ◌%◌, ◌^◌, ◌<◌, ◌≡◌, refl, Bool, List, [], ◌∷◌, ◌++◌, arith, drop, length,
}
use droid_kernal.Logger.Memory.{Mem}

-- The error codes that the driver returns, negated.
pub data Errno : Type 0 where
  e_intr e_nomem e_fault e_inval e_nodev : Errno

-- What a call returns: a count or 0, an error, or no return at all since the kernel faults on a
-- null pointer.
pub data Ret : Type 0 where
  ret : ℕ → Ret
  err : Errno → Ret
  oops : Ret

-- `size_t` addition and subtraction.
abbrev pub add_size : ℕ → ℕ → ℕ
add_size a b = (a + b) % 2 ^ 64

abbrev pub sub_size : ℕ → ℕ → ℕ
sub_size a b = (a + 2 ^ 64 - b) % 2 ^ 64

-- struct logger_reader. `addr` is the pointer that `file->private_data` keeps.
pub record Reader : Type 0 where
  pub addr : ℕ
  pub r_off : ℕ
  pub r_all : Bool
  pub r_ver : ℕ

-- struct logger_log. The wait queue and the mutex have no state between two calls. `addr`,
-- `vaddr` and `name` are the addresses of the struct, of the buffer and of the device's name.
pub record Log : Type 0 where
  pub addr : ℕ
  pub vaddr : ℕ
  pub name : ℕ
  pub buffer : Mem
  pub minor : ℕ
  pub readers : List Reader
  pub w_off : ℕ
  pub head : ℕ
  pub size : ℕ

-- struct logger_entry. A signed field is its 32-bit pattern.
pub record Header : Type 0 where
  pub len : ℕ
  pub hdr_size : ℕ
  pub pid : ℕ
  pub tid : ℕ
  pub sec : ℕ
  pub nsec : ℕ
  pub real_sec : ℕ
  pub real_nsec : ℕ
  pub euid : ℕ

-- `sizeof(struct logger_entry)`
abbrev pub entry_size : ℕ
entry_size = 32

-- LOGGER_ENTRY_MAX_PAYLOAD
abbrev pub max_payload : ℕ
max_payload = 4 * 1024

-- The bytes of a 16-bit and of a 32-bit field, the lowest first.
abbrev pub le16 : ℕ → List ℕ
le16 n = n % 256 ∷ n / 256 % 256 ∷ []

abbrev pub le32 : ℕ → List ℕ
le32 n = n % 256 ∷ n / 256 % 256 ∷ n / 65536 % 256 ∷ n / 16777216 % 256 ∷ []

abbrev pub get16 : List ℕ → ℕ
get16 (a ∷ b ∷ r) = a + 256 * b
get16 _ = 0

abbrev pub get32 : List ℕ → ℕ
get32 (a ∷ b ∷ c ∷ d ∷ r) = a + 256 * b + 65536 * c + 16777216 * d
get32 _ = 0

-- The header as it lies in memory.
unfoldable pub header_bytes : Header → List ℕ
header_bytes h =
    le16 h.len
    ++ (le16 h.hdr_size
        ++ (le32 h.pid
            ++ (le32 h.tid
                ++ (le32 h.sec
                    ++ (le32 h.nsec ++ (le32 h.real_sec ++ (le32 h.real_nsec ++ le32 h.euid)))))))

-- Bytes read as a header.
unfoldable pub header_of : List ℕ → Header
header_of bs = record {
  len = get16 bs;
  hdr_size = get16 (drop 2 bs);
  pid = get32 (drop 4 bs);
  tid = get32 (drop 8 bs);
  sec = get32 (drop 12 bs);
  nsec = get32 (drop 16 bs);
  real_sec = get32 (drop 20 bs);
  real_nsec = get32 (drop 24 bs);
  euid = get32 (drop 28 bs);
}

-- Each field fits its width.
pub record Fits (h : Header) : Type 0 where
  pub len_fits : h.len < 2 ^ 16
  pub hdr_size_fits : h.hdr_size < 2 ^ 16
  pub pid_fits : h.pid < 2 ^ 32
  pub tid_fits : h.tid < 2 ^ 32
  pub sec_fits : h.sec < 2 ^ 32
  pub nsec_fits : h.nsec < 2 ^ 32
  pub real_sec_fits : h.real_sec < 2 ^ 32
  pub real_nsec_fits : h.real_nsec < 2 ^ 32
  pub euid_fits : h.euid < 2 ^ 32

pub length-header_bytes : (h : Header) → length (header_bytes h) ≡ entry_size
unfolding header_bytes
length-header_bytes h = refl

get16-le16 : (n : ℕ) (r : List ℕ) → n < 2 ^ 16 → get16 (le16 n ++ r) ≡ n
get16-le16 n r h = omega arith

get32-le32 : (n : ℕ) (r : List ℕ) → n < 2 ^ 32 → get32 (le32 n ++ r) ≡ n
get32-le32 n r h = omega arith

-- A header whose fields fit their widths is read back from its bytes.
pub header_of-header_bytes : (h : Header) → Fits h → header_of (header_bytes h) ≡ h
unfolding header_of header_bytes
header_of-header_bytes h f = λ i. record {
  len = get16-le16 h.len [] f.len_fits i;
  hdr_size = get16-le16 h.hdr_size [] f.hdr_size_fits i;
  pid = get32-le32 h.pid [] f.pid_fits i;
  tid = get32-le32 h.tid [] f.tid_fits i;
  sec = get32-le32 h.sec [] f.sec_fits i;
  nsec = get32-le32 h.nsec [] f.nsec_fits i;
  real_sec = get32-le32 h.real_sec [] f.real_sec_fits i;
  real_nsec = get32-le32 h.real_nsec [] f.real_nsec_fits i;
  euid = get32-le32 h.euid [] f.euid_fits i;
}
