-- ===== src/Disk/Usage.antt =====
-- internal/collector/disk.go: the sizes that `collectDisk` reports do not wrap.
use pi_monitor.Prelude.{ℕ, ◌+◌, ◌*◌, ◌≤◌, ◌<◌, ◌≡◌, refl, true, false, some, ltb, ◌==◌, arith}
use native.Mathlib.Nat.{mul-le-mul_right}
use pi_monitor.Prelude.Float.{Float}
use pi_monitor.Disk.Mounts.{MountEntry}
use pi_monitor.Disk.Collect.{mul64, add64, sub64, disk_usage}

abbrev limit : ℕ
limit = 18446744073709551616

-- A filesystem with `used` blocks in use and `bfree` free ones, of which `bavail` are available to
-- users, is reported by `collectDisk` with its true sizes, provided that it has less than 2^64 bytes
-- and some block in use: the total, the bytes in use, and the percentage of these in what users can
-- have; no product, sum or difference wraps around.
pub disk_usage_lem :
    {V : Type 0} ⦃f : Float V⦄ (percent : ℕ → ℕ → V) (e : MountEntry) (bfree bavail bsize used : ℕ)
    → bavail ≤ bfree
    → 0 < used
    → 0 < bsize
    → (used + bfree) * bsize < limit
    → disk_usage percent e
        record { blocks = used + bfree; bfree = bfree; bavail = bavail; bsize = bsize }
      ≡ some (record {
        mountpoint = e.mountpoint;
        device = e.device;
        fstype = e.fstype;
        total_bytes = (used + bfree) * bsize;
        used_bytes = used * bsize;
        used_percent = percent (used * bsize) ((used + bavail) * bsize);
      })
unfolding disk_usage
disk_usage_lem percent e bfree bavail bsize used ha hu hs ht =
    let free_le = mul-le-mul_right bsize ha in
    let one_le = mul-le-mul_right bsize hu in
    let total_eq : mul64 (used + bfree) bsize ≡ (used + bfree) * bsize = omega arith in
    let used_eq : sub64 ((used + bfree) * bsize) (mul64 bfree bsize) ≡ used * bsize = omega arith in
    let denom_eq : add64 (used * bsize) (mul64 bavail bsize) ≡ (used + bavail) * bsize =
      omega arith in
    let some_bytes : ((used + bfree) * bsize == 0) ≡ false = ground arith in
    let some_denom : ltb 0 ((used + bavail) * bsize) ≡ true = ground arith in
    rw (total_eq, used_eq, denom_eq, some_bytes, some_denom) refl
