-- ===== src/Disk/Collect.antt =====
-- internal/collector/disk.go: `Collect` with `collectDisk`, the cooldown of mounts that hang, and the
-- usage of one filesystem. `percent used all` is the float64 of used / all * 100.
use pi_monitor.Prelude.{
  ℕ, ◌+◌, ◌-◌, ◌*◌, ◌%◌, List, [], ◌∷◌, Option, none, some, ltb, ◌==◌, if◌then◌else◌,
}
use pi_monitor.Prelude.Int.{ℤ, pos, ltb_ℤ, leb_ℤ, ◌+ℤ◌}
use pi_monitor.Prelude.Bytes.{Bytes}
use pi_monitor.Prelude.Maps.{lookup, insert, delete}
use pi_monitor.Prelude.Float.{Float}
use pi_monitor.Disk.Mounts.{MountEntry, parse_mounts, dedupe_mounts, excluded_types, is_member}

pub record FsStats : Type 0 where
  pub blocks : ℕ
  pub bfree : ℕ
  pub bavail : ℕ
  pub bsize : ℕ

-- How a call of `statfsWithTimeout` ends; `timed_out` is errStatfsTimeout.
pub data StatResult : Type 0 where
  stats : FsStats → StatResult
  failed : StatResult
  timed_out : StatResult

-- How the platform's statfs ends, and whether that is before the timer fires.
pub data StatfsRun : Type 0 where
  answers : FsStats → StatfsRun
  fails : StatfsRun
  hangs : StatfsRun

-- With no timeout a call that hangs never returns: `none`.
unfoldable pub statfs_with_timeout : ℤ → StatfsRun → Option StatResult
statfs_with_timeout timeout (answers s) = some (stats s)
statfs_with_timeout timeout fails = some failed
statfs_with_timeout timeout hangs = if leb_ℤ timeout (pos 0) then none else some timed_out

pub record Disk (V : Type 0) : Type 0 where
  pub mountpoint : Bytes
  pub device : Bytes
  pub fstype : Bytes
  pub total_bytes : ℕ
  pub used_bytes : ℕ
  pub used_percent : V

-- Two seconds and a minute, in nanoseconds.
abbrev pub default_statfs_timeout : ℤ
default_statfs_timeout = pos 2000000000

abbrev pub default_statfs_cooldown : ℤ
default_statfs_cooldown = pos 60000000000

abbrev pub BadUntil : Type 0
BadUntil = List (Bytes × ℤ)

unfoldable pub mark_bad : ℤ → Bytes → ℤ → BadUntil → BadUntil
mark_bad cooldown mountpoint now bad = insert mountpoint (now +ℤ cooldown) bad

-- The uint64 operations.
abbrev pub mul64 : ℕ → ℕ → ℕ
mul64 a b = a * b % 18446744073709551616

abbrev pub add64 : ℕ → ℕ → ℕ
add64 a b = (a + b) % 18446744073709551616

abbrev pub sub64 : ℕ → ℕ → ℕ
sub64 a b = (a + 18446744073709551616 - b) % 18446744073709551616

module _ {V : Type 0} ⦃f : Float V⦄ (percent : ℕ → ℕ → V) where
  -- `none` for a filesystem of zero size.
  unfoldable pub disk_usage : MountEntry → FsStats → Option (Disk V)
  disk_usage e buf =
      let total = mul64 buf.blocks buf.bsize in
      let used = sub64 total (mul64 buf.bfree buf.bsize) in
      let denom = add64 used (mul64 buf.bavail buf.bsize) in
      if total == 0
      then none
      else some (record {
        mountpoint = e.mountpoint;
        device = e.device;
        fstype = e.fstype;
        total_bytes = total;
        used_bytes = used;
        used_percent = if ltb 0 denom then percent used denom else f.zero;
      })

  -- From the call of statfs on, by its result.
  unfoldable pub stat_disk : ℤ → MountEntry → ℤ → BadUntil → StatResult → BadUntil × Option (Disk V)
  stat_disk cooldown e now bad (stats buf) = (bad, disk_usage e buf)
  stat_disk cooldown e now bad failed = (bad, none)
  stat_disk cooldown e now bad timed_out = (mark_bad cooldown e.mountpoint now bad, none)

  unfoldable pub collect_disk :
      ℤ → (Bytes → StatResult) → MountEntry → ℤ → BadUntil → BadUntil × Option (Disk V)
  collect_disk cooldown statfs e now bad = elim (lookup e.mountpoint bad) [
    | none ↦ stat_disk cooldown e now bad (statfs e.mountpoint)
    | some until ↦
        if ltb_ℤ now until
        then (bad, none)
        else stat_disk cooldown e now (delete e.mountpoint bad) (statfs e.mountpoint)
  ]

  abbrev pub with_disk : Option (Disk V) → List (Disk V) → List (Disk V)
  with_disk none disks = disks
  with_disk (some d) disks = d ∷ disks

  -- One round of the loop of `Collect`, at the entry of a mount point.
  unfoldable pub collect_entry :
      ℤ → (Bytes → StatResult) → Option MountEntry → ℤ → BadUntil → BadUntil × Option (Disk V)
  collect_entry cooldown statfs none now bad = (bad, none)
  collect_entry cooldown statfs (some e) now bad =
      if is_member excluded_types e.fstype
      then (bad, none)
      else collect_disk cooldown statfs e now bad

  unfoldable pub collect_order :
      ℤ
      → (Bytes → StatResult)
      → List (Bytes × MountEntry)
      → ℤ
      → List Bytes
      → BadUntil
      → BadUntil × List (Disk V)
  collect_order cooldown statfs by_mountpoint now [] bad = (bad, [])
  collect_order cooldown statfs by_mountpoint now (mp ∷ order) bad =
      let (bad', disk) = collect_entry cooldown statfs (lookup mp by_mountpoint) now bad in
      let (bad'', disks) = collect_order cooldown statfs by_mountpoint now order bad' in
      (bad'', with_disk disk disks)

  -- `text` is the content of /proc/mounts, `none` where it cannot be read; so is the result on error.
  unfoldable pub collect :
      ℤ → (Bytes → StatResult) → Option Bytes → ℤ → BadUntil → BadUntil × Option (List (Disk V))
  collect cooldown statfs none now bad = (bad, none)
  collect cooldown statfs (some text) now bad = elim (parse_mounts text) [
    | none ↦ (bad, none)
    | some entries ↦
        let (order, by_mountpoint) = dedupe_mounts entries in
        let (bad', disks) = collect_order cooldown statfs by_mountpoint now order bad in
        (bad', some disks)
  ]
