-- ===== src/Cpu/Usage.antt =====
-- internal/collector/cpu.go: `usagePercent`, and `Collect` and `CoreCount` of `CPUCollector`.
use pi_monitor.Prelude.{ℕ, suc, Bool, List, [], ◌∷◌, ◌++◌, Option, none, some, if◌then◌else◌}
use pi_monitor.Prelude.Bytes.{Bytes, codes, str_eq}
use pi_monitor.Prelude.Maps.{lookup, insert}
use pi_monitor.Prelude.Arith.{Arith}
use pi_monitor.Cpu.Stat.{
  CpuStatLine, total, idle_total, Parsed, done, wrong, panics, parse_proc_stat,
}

pub record CpuUsage (V : Type 0) : Type 0 where
  pub overall_percent : V
  pub per_core_percent : List V

abbrev pub Previous : Type 0
Previous = Option (List (Bytes × CpuStatLine))

abbrev pub is_overall : CpuStatLine → Bool
is_overall l = str_eq l.name (codes "cpu")

-- `c.prev` after a sample: the last line of each name.
unfoldable pub by_name : List CpuStatLine → List (Bytes × CpuStatLine) → List (Bytes × CpuStatLine)
by_name [] m = m
by_name (l ∷ ls) m = by_name ls (insert l.name l m)

module _ {V : Type 0} ⦃a : Arith V⦄ where
  -- Between 0 and 100.
  abbrev pub clamp_percent : V → V
  clamp_percent pct =
      if a.lt pct (a.number 0)
      then a.number 0
      else if a.lt (a.number 100) pct
      then a.number 100
      else pct

  unfoldable pub usage_percent : CpuStatLine → CpuStatLine → V
  usage_percent prev cur =
      let total_delta = a.minus (a.number (total cur)) (a.number (total prev)) in
      let idle_delta = a.minus (a.number (idle_total cur)) (a.number (idle_total prev)) in
      if a.le total_delta (a.number 0)
      then a.number 0
      else clamp_percent
          (a.times (a.minus (a.number 1) (a.over idle_delta total_delta)) (a.number 100))

  -- One line of the sample, with the line of its name in the one before.
  abbrev pub with_line : Option CpuStatLine → CpuStatLine → CpuUsage V → CpuUsage V
  with_line none l usage = usage
  with_line (some p) l usage =
      if is_overall l
      then record usage { overall_percent = usage_percent p l }
      else record usage { per_core_percent = usage.per_core_percent ++ usage_percent p l ∷ [] }

  unfoldable pub usage_from :
      List (Bytes × CpuStatLine) → List CpuStatLine → CpuUsage V → CpuUsage V
  usage_from prev [] usage = usage
  usage_from prev (l ∷ ls) usage = usage_from prev ls (with_line (lookup l.name prev) l usage)

  abbrev pub no_usage : CpuUsage V
  no_usage = record { overall_percent = a.number 0; per_core_percent = [] }

  abbrev pub usage_of : Previous → List CpuStatLine → CpuUsage V
  usage_of none ls = no_usage
  usage_of (some prev) ls = usage_from prev ls no_usage

  -- `Collect` on the content of /proc/stat, `none` where it cannot be read.
  abbrev pub collect_lines : Previous → Parsed (List CpuStatLine) → Previous × Parsed (CpuUsage V)
  collect_lines prev (done ls) = (some (by_name ls []), done (usage_of prev ls))
  collect_lines prev wrong = (prev, wrong)
  collect_lines prev panics = (prev, panics)

  unfoldable pub collect_cpu : Option Bytes → Previous → Previous × Parsed (CpuUsage V)
  collect_cpu none prev = (prev, wrong)
  collect_cpu (some text) prev = collect_lines prev (parse_proc_stat text)

unfoldable pub count_cores : List CpuStatLine → ℕ
count_cores [] = 0
count_cores (l ∷ ls) = let rest = count_cores ls in if is_overall l then rest else suc rest

abbrev pub count_of : Parsed (List CpuStatLine) → Parsed ℕ
count_of (done ls) = done (count_cores ls)
count_of wrong = wrong
count_of panics = panics

unfoldable pub core_count : Option Bytes → Parsed ℕ
core_count none = wrong
core_count (some text) = count_of (parse_proc_stat text)
