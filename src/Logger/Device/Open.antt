-- ===== src/Logger/Device/Open.antt =====
-- Opening a channel and releasing it again.
use droid_kernal.Prelude.{
  ℕ, ◌≡◌, refl, ap, List, [], ◌∷◌, ◌++◌, arith, false, some, ◌==◌, ne→==, ◌≢◌,
}
use droid_kernal.Logger.Types.{Reader, ret}
use droid_kernal.Prelude.Heap.{kfree, has_addr, drop_addr}
use droid_kernal.Logger.Device.{
  Link, to_log, dangling, Found, found, not_found, in_freed, Driver, OpenCall, update_log,
  del_reader, new_reader, get_log_from_minor, logger_open, logger_release,
}

-- No reader of any channel lies at the address.
abbrev pub FreshReaders : ℕ → List Reader → Type 0
FreshReaders a [] = Unit {0}
FreshReaders a (r ∷ rs) = (r.addr ≢ a) × FreshReaders a rs

abbrev pub FreshLogs : ℕ → List Link → Type 0
FreshLogs a [] = Unit {0}
FreshLogs a (to_log l ∷ ls) = FreshReaders a l.readers × FreshLogs a ls
FreshLogs a (dangling b ∷ ls) = FreshLogs a ls

del_reader_last :
    (a : ℕ) (rs : List Reader) (r : Reader)
    → FreshReaders a rs
    → r.addr ≡ a
    → del_reader a (rs ++ (r ∷ [])) ≡ rs
unfolding del_reader
del_reader_last a [] r f e = ground arith
del_reader_last a (x ∷ rs) r f e =
    let apart : (x.addr == a) ≡ false = ne→== x.addr a f.0 in
    rw (apart, del_reader_last a rs r f.1 e)

update_log_undo :
    (p a : ℕ) (r : Reader) (ls : List Link)
    → FreshLogs a ls
    → r.addr ≡ a
    → update_log p
        (λ l. record l { readers = del_reader a l.readers })
        (update_log p (λ l. record l { readers = l.readers ++ (r ∷ []) }) ls)
      ≡ ls
unfolding update_log
update_log_undo p a r [] f e = refl
update_log_undo p a r (dangling b ∷ ls) f e =
    ap (λ rest. dangling b ∷ rest) (update_log_undo p a r ls f e)
update_log_undo p a r (to_log l ∷ ls) f e =
    ground (arith, del_reader_last a l.readers r f.0, update_log_undo p a r ls f.1)

-- Where opening a channel succeeds with memory for the reader at an address at which no reader
-- lies yet, releasing the file puts the channels and the heap back to what they were.
logger_release-logger_open :
    (call : OpenCall) (d : Driver) (a : ℕ)
    → call.kmalloc ≡ some a
    → FreshLogs a d.log_list
    → (logger_open call d).0 ≡ ret 0
    → let (r, private, d') = logger_open call d in logger_release private d' ≡ d
unfolding logger_open logger_release kfree has_addr drop_addr new_reader
logger_release-logger_open call d a mem fresh ok =
    go (get_log_from_minor d.log_list call.minor) refl
  where
    go :
        (found_it : Found)
        → get_log_from_minor d.log_list call.minor ≡ found_it
        → let (r, private, d') = logger_open call d in logger_release private d' ≡ d
    go (found log) e =
        ground (arith, update_log_undo log.addr a (new_reader call log a) d.log_list fresh)
    go not_found e = ground arith
    go in_freed e = ground arith
