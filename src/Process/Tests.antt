-- ===== src/Process/Tests.antt =====
-- Two processes, one with a name that looks like the end of its own, and the theorems at them.
use pi_monitor.Prelude.{ℕ, ◌≡◌, refl, List, [], ◌∷◌, ◌++◌, none, some, length, ltb, if◌then◌else◌}
use pi_monitor.Prelude.Int.{ℤ, pos, pos_part}
use pi_monitor.Prelude.Bytes.{Bytes, codes}
use pi_monitor.Prelude.Whole.{Value, num, whole_arith}
use pi_monitor.Prelude.Text.{
  has_prefix, fields, split, parse_uint, parse_int, index_byte, last_index_byte,
}
use pi_monitor.Prelude.Sort.{sort, insert_sorted}
use pi_monitor.Process.Parse.{
  number_at, stat_of, stat_between, parse_proc_pid_stat, rss_from, parse_proc_pid_status_rss,
}
use pi_monitor.Process.Collect.{
  ProcEntry, Sampled, PidMap, Process, Processes, ProcessHistory, insert_pid, read_entries,
  cpu_percent_of, all_processes, top_processes, collect_processes,
}
use pi_monitor.Process.Entries.{ReadFrom}
use pi_monitor.Process.Ranking.{IsTop, ByCpu, ByMemory, ShowsAll, collect_processes-IsTop}
use pi_monitor.Process.Comm.{parse_proc_pid_stat_lem}

abbrev behind : Bytes
behind = codes " S 1 2 3 4 5 6 7 8 9 10 250 50 0 0 20 0 1 0 77 1 2"

abbrev odd_name : Bytes
odd_name = codes "a) (b"

parsed :
    parse_proc_pid_stat (codes "42 (a) (b) S 1 2 3 4 5 6 7 8 9 10 250 50 0 0 20 0 1 0 77 1 2")
    ≡ some (record { comm = odd_name; utime = 250; stime = 50; start_time_ticks = 77 })
unfolding parse_proc_pid_stat stat_between index_byte last_index_byte fields parse_uint
parsed = refl

parse_proc_pid_stat_lem_example :
    parse_proc_pid_stat (codes "42 " ++ b'(' ∷ (odd_name ++ b')' ∷ behind)) ≡ (
      if ltb (length (fields behind)) 20
      then none
      else stat_of odd_name
          (number_at (fields behind) 11)
          (number_at (fields behind) 12)
          (number_at (fields behind) 19))
unfolding index_byte last_index_byte
parse_proc_pid_stat_lem_example = parse_proc_pid_stat_lem (codes "42 ") odd_name behind refl refl

abbrev entry : Bytes → Bytes → ProcEntry
entry name rss = record {
  entry_name = name;
  stat_text = some (name ++ codes " (sh)" ++ behind);
  status_text = some (codes "VmRSS: " ++ rss ++ codes " kB");
}

abbrev listing : List ProcEntry
listing =
    entry (codes "7") (codes "100")
    ∷ entry (codes "self") (codes "1")
    ∷ entry (codes "42") (codes "300")
    ∷ []

abbrev first_sample : ProcessHistory
first_sample = record { prev = none; prev_time = pos 0 }

abbrev seconds : ℤ → Value
seconds d = num (pos_part d)

abbrev same_order : PidMap Sampled → PidMap Sampled
same_order m = m

abbrev process : ℤ → ℕ → Process Value
process pid rss = record { pid = pid; name = codes "sh"; cpu_percent = num 0; rss_bytes = rss }

ranked :
    (collect_processes seconds seconds same_order first_sample
      (pos 1)
      (pos 4)
      (pos 10)
      (some listing)).1
    ≡ some
        (record { by_cpu = process (pos 7) 102400 ∷ []; by_memory = process (pos 42) 307200 ∷ [] })
unfolding collect_processes top_processes all_processes cpu_percent_of read_entries insert_pid
    parse_proc_pid_stat stat_between parse_proc_pid_status_rss rss_from index_byte last_index_byte
    fields split parse_uint parse_int has_prefix sort insert_sorted
ranked = refl

collect_processes-IsTop_example :
    (p : Processes Value) × (cur : PidMap Sampled) × (all : List (Process Value))
    × ((collect_processes seconds seconds same_order first_sample
          (pos 1)
          (pos 4)
          (pos 10)
          (some listing)).1
        ≡ some p)
    × ReadFrom listing cur
    × ShowsAll seconds seconds same_order first_sample (pos 4) (pos 10) all cur
    × IsTop ByCpu all (pos 1) p.by_cpu
    × IsTop ByMemory all (pos 1) p.by_memory
collect_processes-IsTop_example =
    collect_processes-IsTop seconds seconds same_order first_sample (pos 1) (pos 4) (pos 10) listing
