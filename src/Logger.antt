-- ===== src/Logger.antt =====
-- The log device of common/drivers/staging/log/logger.c: Memory and Types are the data, Ring the
-- offsets and the walks over entries, Entry the layout of one entry, Write and Read the two
-- operations, Invariant and RoundTrip what they keep and what goes through, and Device the
-- channels' creation, their opening and their end.
pub mod Memory
pub mod Types
pub mod Ring
pub mod Entry
pub mod Write
pub mod Read
pub mod Invariant
pub mod RoundTrip
pub mod Device
mod Tests
