-- ===== src/Memory/Defs.antt =====
-- internal/collector/memory.go: `parseMeminfo`, `memAndSwapFromFields` and `Collect`.
use pi_monitor.Prelude.{
  ℕ, ◌-◌, ◌*◌, ◌%◌, ◌&&◌, List, [], ◌∷◌, Option, none, some, ltb, ◌==◌, if◌then◌else◌,
}
use pi_monitor.Prelude.Bytes.{Bytes, codes}
use pi_monitor.Prelude.Maps.{lookup, insert}
use pi_monitor.Prelude.Arith.{Arith}
use pi_monitor.Prelude.Text.{cut, trim_space, fields, scan_lines, parse_uint}

pub record Memory (V : Type 0) : Type 0 where
  pub total_bytes : ℕ
  pub available_bytes : ℕ
  pub used_percent : V

pub record Swap (V : Type 0) : Type 0 where
  pub swap_total_bytes : ℕ
  pub swap_used_bytes : ℕ
  pub swap_used_percent : V

abbrev pub MemFields : Type 0
MemFields = List (Bytes × ℕ)

-- What follows the key: none is skipped, and a first word that is no number is an error.
abbrev pub add_value : Bytes → List Bytes → MemFields → Option MemFields
add_value key [] m = some m
add_value key (word ∷ words) m = elim (parse_uint word) [
  | none ↦ none
  | some v ↦ some (insert key v m)
]

-- One line, cut at its first colon.
abbrev pub add_line : Option (Bytes × Bytes) → MemFields → Option MemFields
add_line none m = some m
add_line (some (key, rest)) m = add_value (trim_space key) (fields rest) m

unfoldable pub add_lines : List Bytes → MemFields → Option MemFields
add_lines [] m = some m
add_lines (line ∷ lines) m = elim (add_line (cut b':' line) m) [
  | none ↦ none
  | some m' ↦ add_lines lines m'
]

abbrev pub not_empty : MemFields → Option MemFields
not_empty [] = none
not_empty (e ∷ m) = some (e ∷ m)

-- `none` is an error.
unfoldable pub parse_meminfo : Bytes → Option MemFields
parse_meminfo text =
    let (lines, long) = scan_lines text in
    elim (add_lines lines []) [ none ↦ none | some m ↦ if long then none else not_empty m ]

-- A missing field is 0; the product with 1024 wraps around at 2^64.
unfoldable pub field : MemFields → Bytes → ℕ
field m key = elim (lookup key m) [ none ↦ 0 | some v ↦ v ]

unfoldable pub kilobytes : ℕ → ℕ
kilobytes v = v * 1024 % 18446744073709551616

-- Without `MemAvailable`, which old kernels do not have, what is free is available.
unfoldable pub available : MemFields → ℕ
available m =
    let b = kilobytes (field m (codes "MemAvailable")) in
    if b == 0 && ltb 0 (field m (codes "MemFree")) then kilobytes (field m (codes "MemFree")) else b

unfoldable pub swap_used : ℕ → ℕ → ℕ
swap_used total free = if ltb free total then total - free else 0

module _ {V : Type 0} ⦃a : Arith V⦄ where
  unfoldable pub memory_of : MemFields → Memory V
  memory_of m =
      let total = kilobytes (field m (codes "MemTotal")) in
      record {
        total_bytes = total;
        available_bytes = available m;
        used_percent =
            if ltb 0 total
            then a.times (a.minus (a.number 1) (a.over (a.number (available m)) (a.number total)))
                (a.number 100)
            else a.number 0;
      }

  unfoldable pub swap_of : MemFields → Swap V
  swap_of m =
      let total = kilobytes (field m (codes "SwapTotal")) in
      let used = swap_used total (kilobytes (field m (codes "SwapFree"))) in
      record {
        swap_total_bytes = total;
        swap_used_bytes = used;
        swap_used_percent =
            if ltb 0 total
            then a.times (a.over (a.number used) (a.number total)) (a.number 100)
            else a.number 0;
      }

  unfoldable pub mem_and_swap_from_fields : MemFields → Memory V × Swap V
  mem_and_swap_from_fields m = (memory_of m, swap_of m)

  -- On the content of /proc/meminfo, `none` where it cannot be read.
  unfoldable pub collect_memory : Option Bytes → Option (Memory V × Swap V)
  collect_memory none = none
  collect_memory (some text) = elim (parse_meminfo text) [
    | none ↦ none
    | some m ↦ some (mem_and_swap_from_fields m)
  ]
