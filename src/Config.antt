-- ===== src/Config.antt =====
-- src/config.c
pub mod Judy
pub mod Types
pub mod Insert
pub mod Switch
pub mod FileSwitch
pub mod Load
pub mod New
pub mod Buffers
pub mod Puts
pub mod Lines
pub mod Refused
pub mod Text
pub mod RoundTrip
pub mod Lossless
pub mod Get
pub mod Values
pub mod Open
mod Sample
mod Tests
mod PoolTests
mod CheckTests
mod CopyTests
pub mod SameSwitch
pub mod Check
pub mod SameCheck
pub mod Sound
pub mod InPool
pub mod Erase
pub mod Backing
pub mod Composed
pub mod Whole
pub mod Order
pub mod Walk
pub mod CopyKeys
pub mod CopyLine
