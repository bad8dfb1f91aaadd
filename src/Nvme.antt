-- ===== src/Nvme.antt =====
-- The status values of NVMe commands, lib/nvmecmds.cpp.
use smartmontools.Common.{ℕ, Bool, false, not, List, [], flag_set, ◌%◌, ◌^◌, ◌||◌, ◌∷◌, ◌==◌}
use smartmontools.Common.{if◌then◌else◌}

-- The values of SCT and SC whose message starts with '-' in nvme_status_to_flagged_str: invalid
-- commands.
abbrev pub invalid_commands : List ℕ
invalid_commands =
    0x001 ∷ 0x002 ∷ 0x00b ∷ 0x00d ∷ 0x00e ∷ 0x00f ∷ 0x010 ∷ 0x011 ∷ 0x012 ∷ 0x013 ∷ 0x016 ∷ 0x01a
    ∷ 0x085 ∷ 0x086 ∷ 0x100 ∷ 0x101 ∷ 0x102 ∷ 0x106 ∷ 0x107 ∷ 0x108 ∷ 0x109 ∷ 0x10a ∷ 0x10c ∷ 0x10d
    ∷ 0x10e ∷ 0x10f ∷ 0x116 ∷ 0x11c ∷ 0x120 ∷ 0x121 ∷ 0x122 ∷ 0x124 ∷ 0x12c ∷ 0x12d ∷ 0x180 ∷ 0x181
    ∷ []

unfoldable pub is_listed : ℕ → List ℕ → Bool
is_listed n [] = false
is_listed n (m ∷ ms) = n == m || is_listed n ms

-- nvme_status_is_error
unfoldable pub nvme_status_is_error : ℕ → Bool
unfolding flag_set
nvme_status_is_error status = flag_set status 0x07ff

-- The results of nvme_status_to_errno: 0, EINVAL and EIO.
pub data Errno : Type 0 where
  no_errno einval eio : Errno

unfoldable pub nvme_status_to_errno : ℕ → Errno
unfolding nvme_status_is_error is_listed
nvme_status_to_errno status =
    if not (nvme_status_is_error status)
    then Errno.no_errno
    else if is_listed (status % 2 ^ 11) invalid_commands
    then Errno.einval
    else Errno.eio
