-- ===== src/Smartd/State.antt =====
-- The state of a monitored device and its configuration in src/smartd.cpp: the members that the
-- modelled functions use, of the persistent and of the temporary part.
pub mod Persistence
use smartmontools.Common.{ℕ, bit_or, Bool, Option, List, [], u8, ◌∷◌, ◌==◌, ◌<<◌, ◌>>◌}
use smartmontools.Common.{if◌then◌else◌}
use smartmontools.ByteOrder.{Uile128}
use smartmontools.Ata.Attributes.{SmartAttribute, ThresholdEntry, VendorAttrDefs}

-- struct mailinfo; times are time_t values that are not negative.
pub record MailInfo : Type 0 where
  pub logged : ℕ
  pub firstsent : ℕ
  pub lastsent : ℕ

-- persistent_dev_state::ata_attribute
pub record AtaAttribute : Type 0 where
  pub id : ℕ
  pub val : ℕ
  pub worst : ℕ
  pub raw : ℕ
  pub resvd : ℕ

-- smart_health_status: 0, 1 and -1
pub data HealthStatus : Type 0 where
  not_checked passed failed : HealthStatus

-- struct dev_state. The array `maillog` and the tables of attributes are lists, and of the
-- structures `smartval`, `smartthres` and `nvme_smartval` the fields that are used stand here. The
-- power mode -1 is `none`.
pub record DevState : Type 0 where
  pub tempmin : ℕ
  pub tempmax : ℕ
  pub selflogcount : ℕ
  pub selfloghour : ℕ
  pub scheduled_test_next_check : ℕ
  pub selective_test_last_start : ℕ
  pub selective_test_last_end : ℕ
  pub ataerrorcount : ℕ
  pub nvme_err_log_entries : ℕ
  pub nvme_avail_spare : ℕ
  pub nvme_percent_used : ℕ
  pub nvme_media_errors : Uile128
  pub maillog : List MailInfo
  pub ata_attributes : List AtaAttribute
  pub must_write : Bool
  pub skip : Bool
  pub wakeuptime : ℕ
  pub not_cap_offline : Bool
  pub not_cap_conveyance : Bool
  pub not_cap_short : Bool
  pub not_cap_long : Bool
  pub not_cap_selective : Bool
  pub smart_health_status : HealthStatus
  pub removed : Bool
  pub powermodefail : Bool
  pub powerskipcnt : ℕ
  pub lastpowermodeskipped : Option ℕ
  pub json_dirty : Bool
  pub ata_attr_refreshed : Bool
  pub ata_errorlog_refreshed : Bool
  pub scsi_logs_refreshed : Bool
  pub attrlog_valid : ℕ
  pub smartthres : List ThresholdEntry
  pub temperature : ℕ
  pub tempmin_delay : ℕ
  pub selftest_log_refreshed : Bool
  pub num_sectors : ℕ
  pub smartval : List SmartAttribute
  pub offline_data_collection_status : ℕ
  pub self_test_exec_status : ℕ
  pub offline_started : Bool
  pub selftest_started : Bool
  pub selftest_op : ℕ
  pub suppress_report : Bool
  pub selftest_compl : ℕ

pub data EmailFreq : Type 0 where
  unknown once always daily diminishing : EmailFreq

-- struct dev_config; `test_regex` is the pattern, empty where none is set. An address or a command line is the list of its characters;
-- `monitor_attr_flags` gives the MONITOR_* bits of an attribute id.
pub record DevConfig : Type 0 where
  pub emailaddress : List ℕ
  pub emailcmdline : List ℕ
  pub emailfreq : EmailFreq
  pub state_file : List ℕ
  pub tempdiff : ℕ
  pub tempinfo : ℕ
  pub tempcrit : ℕ
  pub usagefailed : Bool
  pub prefail : Bool
  pub usage : Bool
  pub monitor_attr_flags : ℕ → ℕ
  pub attribute_defs : VendorAttrDefs
  pub checktime : ℕ
  pub offlinests_ns : Bool
  pub selfteststs_ns : Bool
  pub emailtest : Bool
  pub removable : Bool
  pub powermode : ℕ
  pub powerquiet : Bool
  pub powerskipmax : ℕ
  pub attrlog_file : List ℕ
  pub smartcheck : Bool
  pub smartcheck_nvme : ℕ
  pub selftest : Bool
  pub errorlog : Bool
  pub xerrorlog : Bool
  pub offlinests : Bool
  pub selfteststs : Bool
  pub curr_pending_id : ℕ
  pub offl_pending_id : ℕ
  pub curr_pending_incr : Bool
  pub offl_pending_incr : Bool
  pub test_regex : List ℕ
  pub test_offset_factor : ℕ
  pub bug_samsung3 : Bool

-- The attribute that update_persistent_state stores for `ta`; `pa` is the one stored before.
unfoldable pub persistent_attribute : SmartAttribute → AtaAttribute → AtaAttribute
persistent_attribute ta pa =
    if ta.id == 0 then record pa { id = 0; val = 0; worst = 0; raw = 0 } else record {
      id = ta.id;
      val = ta.current;
      worst = ta.worst;
      raw = bit_or (ta.raw5 << 40) (
          bit_or (ta.raw4 << 32)
            (bit_or (ta.raw3 << 24) (bit_or (ta.raw2 << 16) (bit_or (ta.raw1 << 8) ta.raw0))));
      resvd = ta.reserv;
    }

-- The attribute that update_temp_state makes of `pa`; its flags are those it had.
unfoldable pub temp_attribute : AtaAttribute → SmartAttribute → SmartAttribute
temp_attribute pa ta =
    if pa.id == 0
    then record ta {
      id = 0;
      current = 0;
      worst = 0;
      raw0 = 0;
      raw1 = 0;
      raw2 = 0;
      raw3 = 0;
      raw4 = 0;
      raw5 = 0;
    }
    else record ta {
      id = pa.id;
      current = pa.val;
      worst = pa.worst;
      raw0 = u8 pa.raw;
      raw1 = u8 (pa.raw >> 8);
      raw2 = u8 (pa.raw >> 16);
      raw3 = u8 (pa.raw >> 24);
      raw4 = u8 (pa.raw >> 32);
      raw5 = u8 (pa.raw >> 40);
      reserv = pa.resvd;
    }

-- The loops over the tables, which have the same length.
unfoldable pub update_each : {A B : Type 0} → (A → B → B) → List A → List B → List B
update_each f [] bs = bs
update_each f (a ∷ xs) [] = []
update_each f (a ∷ xs) (b ∷ bs) = f a b ∷ update_each f xs bs

unfoldable pub update_persistent_state : DevState → DevState
unfolding update_each persistent_attribute
update_persistent_state s = record s {
  ata_attributes = update_each persistent_attribute s.smartval s.ata_attributes;
}

unfoldable pub update_temp_state : DevState → DevState
unfolding update_each temp_attribute
update_temp_state s = record s { smartval = update_each temp_attribute s.ata_attributes s.smartval }
