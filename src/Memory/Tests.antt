-- ===== src/Memory/Tests.antt =====
-- A reading of /proc/meminfo of an old kernel.
use pi_monitor.Prelude.{◌≡◌, refl, [], ◌∷◌, ◌++◌, some}
use pi_monitor.Prelude.Bytes.{Bytes, codes, str_eq}
use pi_monitor.Prelude.Maps.{lookup, insert}
use pi_monitor.Prelude.Text.{cut, trim_space, fields, scan_lines, parse_uint}
use pi_monitor.Prelude.Whole.{Value, num, whole_arith}
use pi_monitor.Memory.Defs.{
  parse_meminfo, add_lines, field, kilobytes, available, swap_used, memory_of, swap_of,
  mem_and_swap_from_fields, collect_memory,
}

abbrev text : Bytes
text =
    codes "MemTotal: 1000 kB"
    ++ 10 ∷ codes "MemFree: 1000 kB"
    ++ 10 ∷ codes "SwapTotal: 8 kB"
    ++ 10 ∷ codes "SwapFree: 2 kB"
    ++ 10 ∷ []

read :
    collect_memory {V = Value} (some text)
    ≡ some (
      record { total_bytes = 1024000; available_bytes = 1024000; used_percent = num 0 },
      record { swap_total_bytes = 8192; swap_used_bytes = 6144; swap_used_percent = num 0 },
    )
unfolding collect_memory mem_and_swap_from_fields memory_of swap_of available swap_used kilobytes
    field parse_meminfo add_lines cut trim_space fields scan_lines parse_uint lookup insert str_eq
read = refl
