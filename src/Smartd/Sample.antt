-- ===== src/Smartd/Sample.antt =====
-- A device with three attributes and its configuration, for the tests.
use smartmontools.Common.{true, false, some, [], replicate, ◌∷◌}
use smartmontools.ByteOrder.{uint64_to_uile128}
use smartmontools.Ata.Attributes.{SmartAttribute, VendorAttrDefs, RawFormat, Priority}
use smartmontools.Smartd.State.{AtaAttribute, DevState, DevConfig, EmailFreq, HealthStatus}
use smartmontools.Smartd.Mail.{no_mailinfo}

abbrev pub defs : VendorAttrDefs
defs id = record {
  name = "";
  raw_format = RawFormat.rawfmt_default;
  priority = Priority.prior_default;
  flags = 0;
  byteorder = [];
}

-- Current_Pending_Sector with 8 sectors.
abbrev pub pending : SmartAttribute
pending = record {
  id = 197;
  flags = record { b0 = 0x12; b1 = 0 };
  current = 100;
  worst = 100;
  raw0 = 8;
  raw1 = 1;
  raw2 = 0;
  raw3 = 0;
  raw4 = 0;
  raw5 = 2;
  reserv = 0;
}

abbrev pub more_pending : SmartAttribute
more_pending = record pending { raw0 = 9 }

abbrev pub stored : AtaAttribute
stored = record { id = 0; val = 0; worst = 0; raw = 0; resvd = 0 }

abbrev pub state : DevState
state = record {
  tempmin = 20;
  tempmax = 40;
  selflogcount = 0;
  selfloghour = 0;
  scheduled_test_next_check = 0;
  selective_test_last_start = 0;
  selective_test_last_end = 0;
  ataerrorcount = 0;
  nvme_err_log_entries = 0;
  nvme_avail_spare = 0;
  nvme_percent_used = 0;
  nvme_media_errors = uint64_to_uile128 0;
  maillog = replicate 13 no_mailinfo;
  ata_attributes = stored ∷ [];
  must_write = false;
  skip = false;
  wakeuptime = 0;
  not_cap_offline = false;
  not_cap_conveyance = false;
  not_cap_short = false;
  not_cap_long = false;
  not_cap_selective = false;
  smart_health_status = HealthStatus.not_checked;
  removed = false;
  powermodefail = false;
  powerskipcnt = 0;
  lastpowermodeskipped = some 0;
  json_dirty = false;
  ata_attr_refreshed = false;
  ata_errorlog_refreshed = false;
  scsi_logs_refreshed = false;
  attrlog_valid = 0;
  smartthres = [];
  temperature = 30;
  tempmin_delay = 0;
  selftest_log_refreshed = false;
  num_sectors = 0;
  smartval = pending ∷ [];
  offline_data_collection_status = 0;
  self_test_exec_status = 0;
  offline_started = false;
  selftest_started = true;
  selftest_op = 0;
  suppress_report = false;
  selftest_compl = 0;
}

abbrev pub cfg : DevConfig
cfg = record {
  emailaddress = b'r' ∷ [];
  emailcmdline = [];
  emailfreq = EmailFreq.diminishing;
  state_file = [];
  tempdiff = 2;
  tempinfo = 0;
  tempcrit = 60;
  usagefailed = true;
  prefail = true;
  usage = true;
  monitor_attr_flags = λ id. 0;
  attribute_defs = defs;
  checktime = 600;
  offlinests_ns = false;
  selfteststs_ns = true;
  emailtest = false;
  removable = false;
  powermode = 2;
  powerquiet = false;
  powerskipmax = 3;
  attrlog_file = [];
  smartcheck = true;
  smartcheck_nvme = 0xff;
  selftest = true;
  errorlog = true;
  xerrorlog = true;
  offlinests = true;
  selfteststs = true;
  curr_pending_id = 197;
  offl_pending_id = 198;
  curr_pending_incr = false;
  offl_pending_incr = true;
  test_regex = [];
  test_offset_factor = 0;
  bug_samsung3 = false;
}
