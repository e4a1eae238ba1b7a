-- ===== src/Binder.antt =====
-- The binder driver of common/drivers/staging/binder/binder.c: Tree is the search of its red-black
-- trees, Node the reference counts of its nodes, Proc the threads and nodes of a process,
-- Transaction one transaction and the log of them, Commands the commands that a thread writes,
-- WriteRead the ioctl around them, Context the context manager, Ioctl all commands of the device, Alloc
-- the mapped address space of binder_alloc.c, and Open, Mmap and Init the rest of the driver.
pub mod Tree
pub mod Alloc
pub mod Types
pub mod Node
pub mod Proc
pub mod Transaction
pub mod Commands
pub mod Context
pub mod WriteRead
pub mod Ioctl
pub mod Open
pub mod Mmap
pub mod Init
mod Tests
mod ContextTests
mod AllocTests
mod IoctlTests
