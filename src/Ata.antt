-- ===== src/Ata.antt =====
-- The ATA layer: lib/atacmds.cpp over the structures of include/smartmon/ata.h and atacmds.h.
pub mod Attributes
pub mod Checksum
pub mod SelectiveTest
