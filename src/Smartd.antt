-- ===== src/Smartd.antt =====
-- The monitoring daemon smartd, src/smartd.cpp.
pub mod State
pub mod Mail
pub mod StateFile
pub mod Temperature
pub mod SelfTestLog
pub mod Checks
pub mod OpenDevice
pub mod AtaSelfTest
pub mod Schedule
pub mod AtaCheck
pub mod NvmeCheck
pub mod ScsiCheck
pub mod MainLoop
pub mod Wakeup
pub mod Sleep
pub mod Standby
mod Sample
mod Tests
