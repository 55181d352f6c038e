-- ===== src/Disk/Ticks.antt =====
-- internal/collector/disk.go: the cooldown of a mount point over the ticks after statfs timed out.
use pi_monitor.Prelude.{ℕ, ◌≡◌, true, List, [], ◌∷◌, Option}
use pi_monitor.Prelude.Int.{ℤ, ltb_ℤ}
use pi_monitor.Prelude.Bytes.{Bytes}
use pi_monitor.Prelude.Float.{Float}
use pi_monitor.Disk.Collect.{Disk, StatResult, BadUntil, collect}
use pi_monitor.Disk.Cooldown.{SameElsewhere}

-- One tick: what statfs answers, the content of /proc/mounts, and the time.
pub record Round : Type 0 where
  pub statfs : Bytes → StatResult
  pub text : Option Bytes
  pub now : ℤ

-- The same ticks, all before a time, but for what statfs answers for one mount point.
abbrev pub SameRounds : Bytes → ℤ → List Round → List Round → Type 0
SameRounds mp until [] [] = Unit
SameRounds mp until (r ∷ rs) (u ∷ us) =
    (r.text ≡ u.text)
    × (r.now ≡ u.now)
    × (ltb_ℤ r.now until ≡ true)
    × SameElsewhere mp r.statfs u.statfs
    × SameRounds mp until rs us
SameRounds mp until [] (u ∷ us) = ⊥
SameRounds mp until (r ∷ rs) [] = ⊥

module _ {V : Type 0} ⦃f : Float V⦄ (percent : ℕ → ℕ → V) (cooldown : ℤ) where
  -- The cooldowns, and the filesystems of each tick.
  abbrev pub Gathered : Type 0
  Gathered = BadUntil × List (Option (List (Disk V)))

  -- The filesystems that the ticks give, and the cooldowns behind them.
  unfoldable pub collect_all : List Round → BadUntil → BadUntil × List (Option (List (Disk V)))
  collect_all [] bad = (bad, [])
  collect_all (r ∷ rs) bad =
      let (bad', disks) = collect percent cooldown r.statfs r.text r.now bad in
      let (bad'', rest) = collect_all rs bad' in (bad'', disks ∷ rest)
