-- ===== src/Logger/Device.antt =====
-- The channels of logger.c as devices: registration, open, release, module load and unload.
pub mod Create
pub mod Load
pub mod Open
mod Tests
use droid_kernal.Prelude.{
  ℕ, ◌+◌, ◌*◌, ◌^◌, Bool, true, false, Option, none, some, List, [], ◌∷◌, ◌++◌, ◌||◌, ◌==◌,
  if◌then◌else◌,
}
use droid_kernal.Prelude.Heap.{Heap, kfree, kmalloc_at}
use droid_kernal.Logger.Memory.{Mem}
use droid_kernal.Logger.Types.{Log, Reader, Ret, ret, err, oops, Errno, e_nomem, e_nodev}

-- An element of `log_list`: the member `logs` of a channel, or of one whose memory was freed while it
-- was linked, with the channel's address. What freed memory holds is not known.
pub data Link : Type 0 where
  to_log : Log → Link
  dangling : ℕ → Link

-- `log_list` and the kernel's heap.
pub record Driver : Type 0 where
  pub log_list : List Link
  pub heap : Heap

-- What misc_register answers: the minor number, or an error.
pub data Registered : Type 0 where
  minor_is : ℕ → Registered
  refused : Errno → Registered

-- What the kernel answers to one call of create_log. The buffer comes with its first content.
pub record Answers : Type 0 where
  pub vmalloc : Option ℕ
  pub kzalloc : Option ℕ
  pub kstrdup : Option ℕ
  pub content : Mem
  pub misc_register : Registered

pub new_log : Answers → ℕ → ℕ → ℕ → ℕ → ℕ → Log
new_log k buffer log name size minor = record {
  addr = log;
  vaddr = buffer;
  name = name;
  buffer = k.content;
  minor = minor;
  readers = [];
  w_off = 0;
  head = 0;
  size = size;
}

-- Whether the last element lies in freed memory.
unfoldable pub ends_dangling : List Link → Bool
ends_dangling [] = false
ends_dangling (to_log log ∷ []) = false
ends_dangling (dangling a ∷ []) = true
ends_dangling (x ∷ y ∷ links) = ends_dangling (y ∷ links)

-- The part behind the last allocation; the log joins the list before it is registered, and the list's
-- last element is written to for that. If the registration is refused, the log is freed and stays in
-- the list.
register_log : Answers → ℕ → ℕ → ℕ → ℕ → Driver → Ret × Driver
unfolding new_log kfree
register_log k buffer log name size d =
    if ends_dangling d.log_list then (oops, d) else elim k.misc_register [
      | minor_is m ↦ (
        ret 0,
        record d { log_list = d.log_list ++ (to_log (new_log k buffer log name size m) ∷ []) },
      )
      | refused e ↦ (
        err e,
        record {
          log_list = d.log_list ++ (dangling log ∷ []);
          heap = kfree buffer (kfree log (kfree name d.heap));
        },
      )
    ]

name_log : Answers → ℕ → ℕ → ℕ → Driver → Ret × Driver
name_log k buffer log size d = elim k.kstrdup [
  | none ↦ (err e_nomem, record d { heap = kfree buffer (kfree log d.heap) })
  | some name ↦ register_log k buffer log name size (record d { heap = kmalloc_at name d.heap })
]

alloc_log : Answers → ℕ → ℕ → Driver → Ret × Driver
alloc_log k buffer size d = elim k.kzalloc [
  | none ↦ (err e_nomem, record d { heap = kfree buffer d.heap })
  | some log ↦ name_log k buffer log size (record d { heap = kmalloc_at log d.heap })
]

pub create_log : Answers → ℕ → Driver → Ret × Driver
create_log k size d = elim k.vmalloc [
  | none ↦ (err e_nomem, d)
  | some buffer ↦ alloc_log k buffer size (record d { heap = kmalloc_at buffer d.heap })
]

-- The channels in order, up to the first that fails.
create_logs : List (Answers × ℕ) → Driver → Ret × Driver
create_logs [] d = (ret 0, d)
create_logs ((k, size) ∷ rest) d =
    let (r, d') = create_log k size d in
    elim r [ ret n ↦ create_logs rest d' | err e ↦ (err e, d') | oops ↦ (oops, d') ]

-- Main, system, events and radio.
pub logger_init : Answers → Answers → Answers → Answers → Driver → Ret × Driver
logger_init main system events radio d =
    create_logs
      ((main, 512 * 1024) ∷ (system, 1 * 1024) ∷ (events, 1 * 1024) ∷ (radio, 1 * 1024) ∷ []) d

-- One round of the loop of `logger_exit`: `logs_at` is the place of the member `logs` in its
-- struct, and it is the member whose address is freed.
release_log : ℕ → Log → Heap → Heap
unfolding kfree
release_log logs_at log h = kfree (log.addr + logs_at) (kfree log.name (kfree log.vaddr h))

-- `none` is a use of freed memory.
release_logs : ℕ → List Link → Heap → Option Heap
unfolding release_log
release_logs logs_at [] h = some h
release_logs logs_at (to_log log ∷ links) h = release_logs logs_at links (release_log logs_at log h)
release_logs logs_at (dangling a ∷ links) h = none

unfoldable pub logger_exit : ℕ → Driver → Option Driver
unfolding release_logs
logger_exit logs_at d = elim (release_logs logs_at d.log_list d.heap) [
  | none ↦ none
  | some h ↦ some (record { log_list = []; heap = h })
]

-- What the search for a minor number comes to.
pub data Found : Type 0 where
  found : Log → Found
  not_found : Found
  in_freed : Found

unfoldable pub get_log_from_minor : List Link → ℕ → Found
get_log_from_minor [] minor = not_found
get_log_from_minor (to_log log ∷ links) minor =
    if log.minor == minor then found log else get_log_from_minor links minor
get_log_from_minor (dangling a ∷ links) minor = in_freed

-- A change of the channel at an address, which other pointers to it see.
unfoldable pub update_log : ℕ → (Log → Log) → List Link → List Link
update_log a f [] = []
update_log a f (to_log log ∷ links) =
    to_log (if log.addr == a then f log else log) ∷ update_log a f links
update_log a f (dangling b ∷ links) = dangling b ∷ update_log a f links

-- `list_del(&reader->list)`
unfoldable pub del_reader : ℕ → List Reader → List Reader
del_reader a [] = []
del_reader a (r ∷ rs) = if r.addr == a then rs else r ∷ del_reader a rs

-- What open() asks of the kernel: nonseekable_open's answer, the mode, the memory for a reader, and
-- the task's rights.
pub record OpenCall : Type 0 where
  pub refused_by : Option Errno
  pub minor : ℕ
  pub mode_read : Bool
  pub kmalloc : Option ℕ
  pub in_egroup : Bool
  pub cap_syslog : Bool

-- `file->private_data`: a reader and its log, or a log.
pub data Private : Type 0 where
  of_reader : ℕ → ℕ → Private
  of_log : ℕ → Private
  unset : Private

-- `file_get_log`
unfoldable pub file_get_log : Private → Option ℕ
file_get_log (of_reader log reader) = some log
file_get_log (of_log log) = some log
file_get_log unset = none

unfoldable pub new_reader : OpenCall → Log → ℕ → Reader
new_reader call log addr = record {
  addr = addr;
  r_off = log.head;
  r_all = call.in_egroup || call.cap_syslog;
  r_ver = 1;
}

unfoldable pub logger_open : OpenCall → Driver → Ret × Private × Driver
unfolding new_reader
logger_open call d = elim call.refused_by [
  | some e ↦ (err e, unset, d)
  | none ↦ elim (get_log_from_minor d.log_list call.minor) [
    | not_found ↦ (err e_nodev, unset, d)
    | in_freed ↦ (oops, unset, d)
    | found log ↦
        if call.mode_read
        then elim call.kmalloc [
          | none ↦ (err e_nodev, unset, d)
          | some a ↦ (
            ret 0,
            of_reader log.addr a,
            record {
              log_list =
                  update_log log.addr
                    (λ l. record l { readers = l.readers ++ (new_reader call log a ∷ []) })
                    d.log_list;
              heap = kmalloc_at a d.heap;
            },
          )
        ]
        else (ret 0, of_log log.addr, d)
  ]
]

unfoldable pub logger_release : Private → Driver → Driver
logger_release (of_reader log reader) d = record {
  log_list = update_log log (λ l. record l { readers = del_reader reader l.readers }) d.log_list;
  heap = kfree reader d.heap;
}
logger_release (of_log log) d = d
logger_release unset d = d
