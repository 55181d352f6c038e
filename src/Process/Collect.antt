-- ===== src/Process/Collect.antt =====
-- internal/collector/process.go: `Collect` of `ProcessCollector`, and `topProcesses`.
-- `seconds` makes the float64 of a duration; a range over the map of processes follows `iteration`.
use pi_monitor.Prelude.{
  ℕ, ◌+◌, ◌-◌, ◌%◌, Bool, ◌&&◌, List, [], ◌∷◌, Option, none, some, take, ltb, leb, ◌==◌,
  if◌then◌else◌,
}
use pi_monitor.Prelude.Int.{ℤ, pos, leb_ℤ, ltb_ℤ, ◌-ℤ◌, pos_part}
use pi_monitor.Prelude.Bytes.{Bytes}
use pi_monitor.Prelude.Arith.{Arith}
use pi_monitor.Prelude.Text.{parse_int}
use pi_monitor.Prelude.Sort.{sort}
use pi_monitor.Process.Parse.{ProcessStat, parse_proc_pid_stat, parse_proc_pid_status_rss}

pub record Process (V : Type 0) : Type 0 where
  pub pid : ℤ
  pub name : Bytes
  pub cpu_percent : V
  pub rss_bytes : ℕ

pub record Processes (V : Type 0) : Type 0 where
  pub by_cpu : List (Process V)
  pub by_memory : List (Process V)

-- An entry of /proc, with the contents of its two files where they can be read.
pub record ProcEntry : Type 0 where
  pub entry_name : Bytes
  pub stat_text : Option Bytes
  pub status_text : Option Bytes

-- What is known of one process in this sample: its counters and its memory.
pub record Sampled : Type 0 where
  pub stat : ProcessStat
  pub rss : ℕ

abbrev pub PidMap : Type 0 → Type 0
PidMap A = List (ℤ × A)

abbrev pub eq_pid : ℤ → ℤ → Bool
eq_pid p q = leb_ℤ p q && leb_ℤ q p

unfoldable pub lookup_pid : {A : Type 0} → ℤ → PidMap A → Option A
lookup_pid p [] = none
lookup_pid p ((q, x) ∷ m) = if eq_pid q p then some x else lookup_pid p m

unfoldable pub insert_pid : {A : Type 0} → ℤ → A → PidMap A → PidMap A
insert_pid p x [] = (p, x) ∷ []
insert_pid p x ((q, y) ∷ m) = if eq_pid q p then (p, x) ∷ m else (q, y) ∷ insert_pid p x m

-- One directory entry: the process, unless it is none or its files cannot be read and parsed.
abbrev pub sampled : Option ProcessStat → Option ℕ → Option Sampled
sampled (some stat) (some rss) = some (record { stat = stat; rss = rss })
sampled (some stat) none = none
sampled none rss = none

abbrev pub parse_entry : Option Bytes → Option Bytes → Option Sampled
parse_entry (some stat) (some status) =
    sampled (parse_proc_pid_stat stat) (parse_proc_pid_status_rss status)
parse_entry (some stat) none = none
parse_entry none status = none

abbrev pub add_entry : Option ℤ → Option Sampled → PidMap Sampled → PidMap Sampled
add_entry (some pid) (some s) m = insert_pid pid s m
add_entry (some pid) none m = m
add_entry none s m = m

unfoldable pub read_entries : List ProcEntry → PidMap Sampled → PidMap Sampled
read_entries [] m = m
read_entries (e ∷ es) m =
    read_entries es (add_entry (parse_int e.entry_name) (parse_entry e.stat_text e.status_text) m)

-- The sample before, and when it was taken.
pub record ProcessHistory : Type 0 where
  pub prev : Option (PidMap Sampled)
  pub prev_time : ℤ

abbrev pub at_least_one : ℤ → ℤ
at_least_one n = if ltb_ℤ n (pos 1) then pos 1 else n

-- The first `n` entries, none for a negative `n`.
unfoldable pub top_processes : {V : Type 0} → List (Process V) → ℤ → List (Process V)
top_processes sorted n = take (pos_part n) sorted

abbrev pub mem_lt : {V : Type 0} → Process V → Process V → Bool
mem_lt a b = if a.rss_bytes == b.rss_bytes then ltb_ℤ a.pid b.pid else ltb b.rss_bytes a.rss_bytes

module _ {V : Type 0} ⦃a : Arith V⦄ where
  -- By CPU descending, then by process number.
  abbrev pub cpu_lt : Process V → Process V → Bool
  cpu_lt p q =
      if a.le p.cpu_percent q.cpu_percent && a.le q.cpu_percent p.cpu_percent
      then ltb_ℤ p.pid q.pid
      else a.lt q.cpu_percent p.cpu_percent

module _ {V : Type 0} ⦃a : Arith V⦄ (seconds : ℤ → V) (cores : ℤ → V) where
  -- The counters have not gone back, and belong to one process.
  abbrev pub continues : ProcessStat → ProcessStat → Bool
  continues p stat =
      p.start_time_ticks == stat.start_time_ticks
      && leb p.utime stat.utime
      && leb p.stime stat.stime

  -- `cores` makes the float64 of the number of cores.
  unfoldable pub percent_of : V → ℤ → ProcessStat → ProcessStat → V
  percent_of elapsed core_count p stat =
      let ticks = (stat.utime - p.utime + (stat.stime - p.stime)) % 18446744073709551616 in
      a.over (a.times (a.over (a.over (a.number ticks) (a.number 100)) elapsed) (a.number 100))
        (cores core_count)

  abbrev pub percent_since : V → ℤ → Option Sampled → ProcessStat → V
  percent_since elapsed core_count none stat = a.number 0
  percent_since elapsed core_count (some p) stat =
      if continues p.stat stat then percent_of elapsed core_count p.stat stat else a.number 0

  unfoldable pub cpu_percent_of : ProcessHistory → ℤ → ℤ → ℤ → ProcessStat → V
  cpu_percent_of h core_count now pid stat =
      let elapsed = seconds (now -ℤ h.prev_time) in
      elim h.prev [
        | none ↦ a.number 0
        | some prev ↦
            if a.lt (a.number 0) elapsed
            then percent_since elapsed core_count (lookup_pid pid prev) stat
            else a.number 0
      ]

  unfoldable pub all_processes : ProcessHistory → ℤ → ℤ → PidMap Sampled → List (Process V)
  all_processes h core_count now [] = []
  all_processes h core_count now ((pid, s) ∷ cur) =
      record {
        pid = pid;
        name = s.stat.comm;
        cpu_percent = cpu_percent_of h core_count now pid s.stat;
        rss_bytes = s.rss;
      }
      ∷ all_processes h core_count now cur

  -- `entries` is the listing of /proc, `none` where it cannot be read.
  unfoldable pub collect_processes :
      (PidMap Sampled → PidMap Sampled)
      → ProcessHistory
      → ℤ
      → ℤ
      → ℤ
      → Option (List ProcEntry)
      → ProcessHistory × Option (Processes V)
  collect_processes iteration h top_n core_count now none = (h, none)
  collect_processes iteration h top_n core_count now (some entries) =
      let cur = read_entries entries [] in
      let all = all_processes h (at_least_one core_count) now (iteration cur) in
      (
        record { prev = some cur; prev_time = now },
        some (record {
          by_cpu = top_processes (sort cpu_lt all) top_n;
          by_memory = top_processes (sort mem_lt all) top_n;
        }),
      )
