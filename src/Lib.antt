-- ===== src/Lib.antt =====
-- smartmontools: a model of the core logic of the library, of smartctl and of smartd.
--
-- The library talks to disks through commands of 512-byte sectors. lib/atacmds.cpp reads and
-- interprets the sectors of ATA disks; lib/dev_jmb39x_raid.cpp sends ATA commands to the disks behind
-- a JMicron RAID controller, through sectors of the disk that the controller listens to;
-- src/smartd.cpp checks the disks from time to time, keeps a state for each and sends mails.
--
-- ByteOrder models include/smartmon/byteorder.h: the swaps and the unaligned little and big endian
-- types that the sectors are made of.
-- Ata.Attributes models the SMART attributes of lib/atacmds.cpp and include/smartmon/atacmds.h: state
-- against the thresholds, raw value, index and temperature.
-- Ata.Checksum models ata_checksum, check_multi_sector_sum and invalidate_serno.
-- Ata.SelectiveTest models ata_prepare_selective_self_test with all its modes.
-- Jmb39x.Sector models the sectors of the JMB39x protocol: obfuscation, CRC, wakeup and request.
-- Jmb39x.Protocol models which commands pass the controller (ata_cmd_is_supported of
-- lib/dev_interface.cpp, is_supported_by_jmb), their bytes, and the repair of truncated data.
-- Jmb39x.Device models class jmb39x_device: open, close and ata_pass_through. It uses the sectors and
-- the commands, and a device that is tunnelled through.
-- Smartd.State models the members of dev_state and dev_config that are used, and the copies between
-- the temporary and the persistent attributes.
-- Smartd.Mail models MailWarning and reset_warning_mail; Smartd.Temperature (CheckTemperature),
-- Smartd.SelfTestLog (check_ata_self_test_log, check_nvme_self_test_log,
-- report_self_test_log_changes) and Smartd.Checks (check_pending_id, check_pending,
-- check_attribute) call them.
-- Smartd.StateFile models parse_dev_state_line and read_dev_state, its module Writer write_dev_state.
-- Smartd.OpenDevice models open_device and the power mode check, Smartd.Schedule next_scheduled_test,
-- Smartd.AtaSelfTest DoATASelfTest, which calls the preparation of Ata.SelectiveTest.
-- Smartd.AtaCheck models ATACheckDevice and composes all of these: open_device, the power mode, the
-- health status, the attributes, the self-test log, the error count and the scheduled test, in the
-- order of the code. The state goes from step to step, and the mails are collected.
-- Smartd.Wakeup models calc_next_wakeuptime and its use in dosleep, Smartd.Standby the state machine
-- of do_disable_standby_check.
-- Smartd.NvmeCheck models NVMeCheckDevice with the logs it reads, and Nvme the status values of
-- lib/nvmecmds.cpp that its error log is judged by. Smartd.ScsiCheck models SCSICheckDevice,
-- DoSCSISelfTest and when scsiGetIEString of lib/scsicmds.cpp finds a string.
-- Smartd.Sleep models dosleep, and Smartd.MainLoop CheckDevicesOnce, which calls the three checks, and
-- write_all_dev_states.
-- Common passes on what all of them share: tests, lists as arrays, and the laws of the bit operators.
--
-- Integers are natural numbers, with the wrap-around of unsigned types written as a remainder. A
-- buffer is the list of its bytes. Values that the code gets from outside are arguments: the time,
-- the contents of a log, the answer of the device. A device or system whose state matters, that
-- behind the JMB39x tunnel and the system's auto standby, is an interface over a type of worlds. A
-- thrown assertion, an error and a division by zero are results. The regular expression library and
-- localtime are functions that the definitions take. Loops run over lists or count down, but for two:
-- the digits of a number have fuel 20, which a uint64_t does not exceed, and the hours of
-- next_scheduled_test have fuel for 90 days and two more rounds, which its own limit of 90 days
-- leaves. dosleep runs over the list of the clock readings that follow its calls of sleep. The text of
-- messages is left out.
--
-- Not modelled are the platform layers (lib/os_*.cpp), the command blocks of SCSI and NVMe, the other
-- RAID devices, the reports of smartctl, the parsers of options and of smartd.conf, and of smartd's
-- main_worker the processes and signals, the attribute logs and the JSON files. The values of the SCSI
-- error counter pages, which only the attribute log uses, are left out. The copies of the GNU regex
-- and getopt code are not part of the program.
pub mod Common
pub mod ByteOrder
pub mod Ata
pub mod Jmb39x
pub mod Nvme
pub mod Smartd
