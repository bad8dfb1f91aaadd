-- ===== src/Smartd/MainLoop/Tests.antt =====
-- Two devices, one of which is skipped, and the files that are written afterwards.
use smartmontools.Common.{ℕ, refl, Bool, true, false, List, [], codes, ◌≡◌, ◌∷◌}
use smartmontools.Smartd.Sample.{state, cfg}
use smartmontools.Smartd.State.{DevState, DevConfig}
use smartmontools.Smartd.Schedule.{Tm}
use smartmontools.Smartd.MainLoop.{Replies, write_all_dev_states}

abbrev no_match : List ℕ → Bool
no_match text = false

abbrev no_clock : ℕ → ℕ → Tm
no_clock t d = record { tm_sec = 0; tm_min = 0; tm_hour = 0; tm_mday = 1; tm_mon = 0; tm_wday = 0 }

abbrev devices : List (DevConfig × DevState × Replies)
devices = (cfg, state, Replies.other) ∷ (cfg, record state { skip = true }, Replies.other) ∷ []

-- A state is written if it must be, and not marked any more.
abbrev with_file : DevConfig
with_file = record cfg { state_file = codes "/var/lib/smartd.state" }

written_once :
    (write_all_dev_states false ((with_file, record state { must_write = true }, true) ∷ [])).0
    ≡ (with_file, state) ∷ []
unfolding write_all_dev_states
written_once = refl
