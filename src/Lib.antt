-- ===== src/Lib.antt =====
-- A model of the two kernel drivers of this repository and of the libraries that call the second: the
-- log device, common/drivers/staging/log/logger.c with logger.h, the binder driver,
-- common/drivers/staging/binder/ with binder.c, binder_alloc.c, binderfs.c and their headers, and parts of
-- system/core/libutils and frameworks/native/libs/binder.
--
-- The log device keeps channels, each a ring of bytes in which every message is an entry: a header
-- (struct logger_entry) and a payload. A writer appends an entry at `w_off`, and a reader, one for
-- each file that is open for reading, takes entries from its own `r_off` on. The binder driver
-- keeps processes with threads and nodes, objects that other processes call. A thread writes
-- commands, a command starts a transaction, and a transaction to handle 0 goes to the node of the
-- context manager. A process maps an address space for its buffers (binder_alloc.c), and the devices
-- that processes open are files of a file system of their own (binderfs.c). The two drivers do not
-- interact. Of the C++ libraries, system/core/libutils gives its growing array, VectorImpl.cpp with the
-- shared storage of SharedBuffer.cpp, and its counted references, RefBase.cpp; and libbinder gives the
-- buffer that transactions are written to and read from, frameworks/native/libs/binder/Parcel.cpp, and
-- the process and its threads that call the driver, ProcessState.cpp and IPCThreadState.cpp beside it.
--
-- Prelude holds the names that all modules share: Boolean tests of native numbers, list functions
-- measured by native numbers, `&` with a mask as a remainder (Bits), and the kernel's heap as the
-- addresses that are allocated and those that were freed wrongly (Heap).
--
-- Logger, for logger.c:
--   Memory      the bytes at `log->buffer`, a function from positions to bytes; `store` and `slice`
--               are memcpy into and out of it. Positions beyond the size are the memory behind the
--               buffer, and a write lists the spans that it accesses.
--   Types       struct logger_log, logger_reader and logger_entry, and the bytes of an entry's
--               header, little-endian.
--   Ring        logger_offset, get_entry_header, get_entry_msg_len, get_next_entry,
--               get_next_entry_by_uid, is_between, fix_up_readers.
--   Entry       an entry's place in the ring: lemmas on stores that go round the end.
--   Write       logger_write_iter, cut into the header (write_header, put_header), the payload
--               (put_payload) and what follows it (finish_write).
--   Read        logger_read, do_read_log_to_user, copy_header_to_user.
--   Device      create_log, logger_init, logger_exit, logger_open, logger_release over the list of
--               channels and a heap of addresses that records what is freed wrongly.
--               An element of the list whose memory was freed is kept as its address alone, and a
--               walk or an insertion that reads or writes it is a fault.
-- A size_t is a number below 2 ^ 64, with the wrap-around written out in add_size and sub_size.
-- get_next_entry gets len + 1 rounds, which are enough since a round counts at least one byte.
-- get_next_entry_by_uid takes its fuel as an argument, for its loop need not end. The iov_iter,
-- copy_to_user, the clock, do_div, the allocators and misc_register are parameters. A call of
-- logger_read is modelled up to its return or its first sleep.
--
-- Binder, for binder.c:
--   Tree        the search by key and the link of a new entry, which binder.c writes out in
--               binder_get_thread_ilocked and binder_init_node_ilocked; rb_insert_color is a
--               parameter that keeps the order of the entries.
--   Types       the constants that come from kernel headers, the errors, the 32-bit counters, the
--               scheduler policies.
--   Node        struct binder_node, binder_inc_node_nilocked, binder_dec_node_nilocked, the
--               temporary references, binder_get_node_refs_for_txn. `Refs` is a node with the work
--               lists that it may be queued in.
--   Proc        struct binder_thread and binder_proc, binder_get_thread, binder_init_node_ilocked,
--               binder_new_node, and the wakeups.
--   Transaction binder_transaction_log_add and binder_transaction; `none` is a fault of the kernel.
--   Commands    binder_thread_write: rounds on fuel over user memory, which is a parameter. One
--               round for every 4 bytes of the buffer and one more are enough, since each round
--               moves on by the 4 bytes of a command at least.
--   WriteRead   binder_ioctl_write_read, with the struct that it copies in and back.
--   Context     binder_ioctl_set_ctx_mgr. The node in the tree and the one in the context are one
--               object, so both are updated.
--   Alloc       binder_alloc.c: the mapping of a region with its error labels, the tree of free
--               buffers by size, and in Page the reclaim of a page, where the locks that it takes are
--               part of the state, and the shrinker. `none` is a BUG.
--   Ioctl       binder_ioctl: the wait, the search for the thread, the switch over the commands, and
--               the label that marks the thread as returned.
--   Open        binder_open: the new process, and what the driver holds for the open ones. refcount_inc
--               is a parameter that counts up below saturation.
--   Mmap        binder_mmap and the operations of the area.
--   Init        binder_init and binder_exit.
-- Binderfs, for binderfs.c:
--   Options     binderfs_parse_mount_opts over the fields between commas as match_token reads them,
--               binderfs_remount, binderfs_show_mount_opts.
--   Names       the loop over the list of device names. A round passes one byte at least, so as many
--               rounds as the list has bytes and one more are enough.
--   Device      binderfs_binder_device_create, binderfs_evict_inode and binderfs_binder_ctl_create
--               over the directory, the minor numbers and the heap.
--   Mount       binderfs_fill_super, binderfs_kill_super, binder_ctl_ioctl, init_binderfs and
--               binder_fs_exit.
-- Utils, for libutils:
--   SharedBuffer a buffer by slots of one item, with its count of owners; alloc, release, editResize.
--   Vector      VectorImpl: editArrayImpl, release_storage and the moves of items; Grow has _grow and
--               insertAt, Shrink has _shrink and removeItemsAt, Search the search of SortedVectorImpl. `none` is a copy to a null address. The
--               bytes of an item are not looked into, and an inserted item lies outside the vector.
--   RefBase     the two counts of an object and what happens at each of their atomic operations. Counts and
--               Attempt cut incStrong, decStrong, the weak references and attemptIncStrong at these
--               operations; a World is the object with the number of threads that stand at each, and a
--               list of actions is one order of the operations of all of them. `bad` counts every use and
--               deletion after a deletion. A compare-exchange that fails only loads again, so a loop is the
--               load and exchange that end it. The creator uses its plain pointer for one reference, and
--               no longer after it. An object is assumed to have fewer references than the initial
--               strong count, 2 ^ 28, and its flags to be set before it is shared.
-- Parcel, for Parcel.cpp:
--   Parcel      the parcel with the global size and the calls made to the outside; a buffer has its length
--               and its contents. Which bytes are an object, and the proxy of a handle, are parameters.
--   Resize      growData, continueWrite with its three branches, setDataSize.
--   Write       writeInplace, write, writeInt32, ipcSetDataReference, on a little-endian machine.
--   Thread      IPCThreadState.cpp: transact, waitForResponse, talkWithDriver and writeTransactionData. Each
--               call of ioctl is an answer from a list, and the loop over it ends with the list at the latest;
--               `none` is a loop that did not end. The addresses of a call's data and offsets are those
--               that the allocators answer. linux/android/binder.h is a parameter (Layout).
--   Process     ProcessState.cpp: open_driver with the constructor, becomeContextManager and
--               setThreadPoolMaxThreadCount. The table of handles is not modelled.
-- What the kernel or the C library answers to a call, such as the addresses of the allocators, is an argument.
--
-- Locks are not modelled, but for those of a page's reclaim: each function runs to its end with no
-- other task in between, but for those of RefBase. The debug messages are left out, but for the copy that logger_write_iter makes
-- for one. Not modelled are the rest of libutils (Unicode.cpp
-- is a copy of the Android sources), liblog, the rest of libbinder and the services, which reach the drivers through
-- system calls, and the exercise for list_lru under test/.
pub mod Prelude
pub mod Binderfs
pub mod Utils
pub mod Logger
pub mod Binder
pub mod Parcel
