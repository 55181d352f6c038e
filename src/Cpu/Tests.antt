-- ===== src/Cpu/Tests.antt =====
-- A reading of /proc/stat, one that is cut short, and the theorem at it.
use pi_monitor.Prelude.{◌≡◌, ◌↔◌, refl, [], ◌∷◌, ◌++◌, some}
use pi_monitor.Prelude.Bytes.{Bytes, codes, str_eq}
use pi_monitor.Prelude.Text.{has_prefix, fields, split, parse_uint}
use pi_monitor.Cpu.Stat.{done, panics, values, stat_of, stat_line, stat_lines, parse_proc_stat}
use pi_monitor.Cpu.Usage.{core_count, count_cores}
use pi_monitor.Cpu.Panic.{Crashes, parse_proc_stat_iff}

abbrev full : Bytes
full =
    codes "cpu  10 2 3 40 5 6 7 8 0 0"
    ++ 10 ∷ codes "cpu0 10 2 3 40 5 6 7 8 0 0"
    ++ 10 ∷ codes "intr 5"
    ++ 10 ∷ []

cores : core_count (some full) ≡ done 1
unfolding core_count count_cores parse_proc_stat stat_lines stat_line values stat_of fields split
    parse_uint has_prefix str_eq
cores = refl

-- Seven counters, as a kernel before 2.6.11 writes them.
abbrev old_kernel : Bytes
old_kernel = codes "cpu  10 2 3 40 5 6 7" ++ 10 ∷ []

crashes : parse_proc_stat old_kernel ≡ panics
unfolding parse_proc_stat stat_lines stat_line values fields split parse_uint has_prefix
crashes = refl

parse_proc_stat_iff_example : (parse_proc_stat old_kernel ≡ panics) ↔ Crashes (split 10 old_kernel)
parse_proc_stat_iff_example = parse_proc_stat_iff old_kernel
