-- ===== src/Utils.antt =====
-- The containers of system/core/libutils: SharedBuffer, the counted storage, and Vector, the array that
-- grows and shrinks in it.
pub mod SharedBuffer
pub mod Vector
pub mod RefBase
mod Tests
mod RefTests
