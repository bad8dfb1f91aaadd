-- ===== src/Jmb39x.antt =====
-- The JMicron JMB39x and JMS56x RAID protocol of lib/dev_jmb39x_raid.cpp.
pub mod Tables
pub mod Sector
pub mod Protocol
pub mod Device
