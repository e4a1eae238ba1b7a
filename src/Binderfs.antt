-- ===== src/Binderfs.antt =====
-- The file system of binder devices, common/drivers/staging/binder/binderfs.c: Options is the parser
-- of the mount options, Names the list of devices that every mount gets, Device the creation and the
-- eviction of a device, and Mount what a mount does with them.
pub mod Options
pub mod Names
pub mod Device
pub mod Mount
mod Tests
