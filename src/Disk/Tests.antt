-- ===== src/Disk/Tests.antt =====
-- The disk collector on concrete mounts.
use pi_monitor.Prelude.{ℕ, ◌*◌, ◌+◌, ◌/◌, ◌≡◌, List, [], ◌∷◌, ◌++◌, some, if◌then◌else◌, arith}
use pi_monitor.Prelude.Int.{pos}
use pi_monitor.Prelude.Bytes.{Bytes, codes, str_eq}
use pi_monitor.Prelude.Maps.{lookup}
use pi_monitor.Prelude.Whole.{whole_float}
use pi_monitor.Disk.Mounts.{MountEntry, unescape_mount_field, dedupe_mounts}
use pi_monitor.Disk.Collect.{StatResult, failed, timed_out, BadUntil, disk_usage, collect}
use pi_monitor.Disk.Escape.{escape, unescape_mount_field-escape}
use pi_monitor.Disk.Dedupe.{mountpoints, distinct, last_entry, dedupe_mounts_lem}
use pi_monitor.Disk.Ticks.{Round}
use pi_monitor.Disk.Usage.{disk_usage_lem}

abbrev usb : MountEntry
usb = record {
  device = codes "/dev/sda1";
  mountpoint = codes "/mnt/My Drive";
  fstype = codes "vfat";
}

abbrev root : MountEntry
root = record { device = codes "/dev/root"; mountpoint = codes "/"; fstype = codes "ext4" }

abbrev over : MountEntry
over = record { device = codes "/dev/sdb1"; mountpoint = codes "/"; fstype = codes "btrfs" }

abbrev mounts_text : Bytes
mounts_text =
    codes "/dev/root / ext4 rw 0 0"
    ++ 10 ∷ codes "/dev/sda1 /mnt/My\\040Drive vfat rw 0 0"
    ++ 10 ∷ []

unescape_mount_field-escape_example :
    unescape_mount_field (escape (codes "My Drive")) ≡ codes "My Drive"
unescape_mount_field-escape_example = unescape_mount_field-escape (codes "My Drive")

dedupe_mounts_lem_example :
    ((dedupe_mounts (root ∷ usb ∷ over ∷ [])).0 ≡ distinct (mountpoints (root ∷ usb ∷ over ∷ [])))
    × ((k : Bytes)
        → lookup k (dedupe_mounts (root ∷ usb ∷ over ∷ [])).1
          ≡ last_entry k (root ∷ usb ∷ over ∷ []))
dedupe_mounts_lem_example = dedupe_mounts_lem (root ∷ usb ∷ over ∷ [])

abbrev hung : Bytes → StatResult
hung p = timed_out

-- A minute's cooldown; the stick has gone, and its calls time out until they fail.
abbrev percent : ℕ → ℕ → ℕ
percent used all = used * 100 / all

abbrev gone : Bytes → StatResult
gone p = failed

abbrev stuck_usb : Bytes → StatResult
stuck_usb p = if str_eq p usb.mountpoint then timed_out else failed

abbrev at_second : (Bytes → StatResult) → ℕ → Round
at_second statfs n = record { statfs = statfs; text = some mounts_text; now = pos n }

abbrev ticks : List Round
ticks = at_second gone 30 ∷ at_second stuck_usb 50 ∷ []

abbrev other_ticks : List Round
other_ticks = at_second stuck_usb 30 ∷ at_second stuck_usb 50 ∷ []

-- What the Collect leaves in which statfs times out for the drive.
abbrev marked : BadUntil
marked = (collect percent (pos 60) stuck_usb (some mounts_text) (pos 0) []).0

disk_usage_lem_example :
    disk_usage percent root record { blocks = 60 + 40; bfree = 40; bavail = 35; bsize = 4096 }
    ≡ some (record {
      mountpoint = codes "/";
      device = codes "/dev/root";
      fstype = codes "ext4";
      total_bytes = (60 + 40) * 4096;
      used_bytes = 60 * 4096;
      used_percent = percent (60 * 4096) ((60 + 35) * 4096);
    })
disk_usage_lem_example =
    disk_usage_lem percent root 40 35 4096 60 (omega arith) (omega arith) (omega arith)
      (omega arith)
