-- ===== src/Rates/Parse.antt =====
-- internal/collector/network.go and diskio.go: `parseNetDev` and `parseDiskStats`, and `Collect` from
-- the content of the file on.
use pi_monitor.Prelude.{
  ℕ, Bool, List, [], ◌∷◌, Option, none, some, length, drop, get_elem?, ltb, if◌then◌else◌,
}
use pi_monitor.Prelude.Int.{ℤ}
use pi_monitor.Prelude.Bytes.{Bytes, codes, str_eq}
use pi_monitor.Prelude.Maps.{insert}
use pi_monitor.Prelude.Text.{cut, trim_space, fields, scan_lines, parse_uint}
use pi_monitor.Rates.Defs.{Counters, Previous, Rate, collect, is_excluded_disk_io_device}

abbrev pub DeviceCounters : Type 0
DeviceCounters = List (Bytes × Counters)

-- A number among the fields; `none` where it is no number.
abbrev pub number_in : List Bytes → ℕ → Option ℕ
number_in words i = elim (get_elem? words i) [ none ↦ none | some s ↦ parse_uint s ]

abbrev pub put : Bytes → Option ℕ → Option ℕ → DeviceCounters → Option DeviceCounters
put name (some a) (some b) m = some (insert name (record { first = a; second = b }) m)
put name (some a) none m = none
put name none b m = none

-- A line of `parseNetDev`, cut at its first colon.
abbrev pub add_net_line : Option (Bytes × Bytes) → DeviceCounters → Option DeviceCounters
add_net_line none m = some m
add_net_line (some (name, rest)) m =
    let words = fields rest in
    if ltb (length words) 9
    then some m
    else put (trim_space name) (number_in words 0) (number_in words 8) m

unfoldable pub add_net_lines : List Bytes → DeviceCounters → Option DeviceCounters
add_net_lines [] m = some m
add_net_lines (line ∷ lines) m = elim (add_net_line (cut b':' line) m) [
  | none ↦ none
  | some m' ↦ add_net_lines lines m'
]

-- Two lines of headers are skipped; a line that is too long for the scanner is an error.
unfoldable pub parse_net_dev : Bytes → Option DeviceCounters
parse_net_dev text =
    let (lines, long) = scan_lines text in
    elim (add_net_lines (drop 2 lines) []) [ none ↦ none | some m ↦ if long then none else some m ]

-- A line of `parseDiskStats`, by its fields.
abbrev pub add_disk_line : List Bytes → DeviceCounters → Option DeviceCounters
add_disk_line words m = if ltb (length words) 10 then some m else elim (get_elem? words 2) [
  | none ↦ none
  | some name ↦ put name (number_in words 5) (number_in words 9) m
]

unfoldable pub add_disk_lines : List Bytes → DeviceCounters → Option DeviceCounters
add_disk_lines [] m = some m
add_disk_lines (line ∷ lines) m = elim (add_disk_line (fields line) m) [
  | none ↦ none
  | some m' ↦ add_disk_lines lines m'
]

unfoldable pub parse_disk_stats : Bytes → Option DeviceCounters
parse_disk_stats text =
    let (lines, long) = scan_lines text in
    elim (add_disk_lines lines []) [ none ↦ none | some m ↦ if long then none else some m ]

-- The content of a file that may be unreadable, parsed.
abbrev pub parsed : (Bytes → Option DeviceCounters) → Option Bytes → Option DeviceCounters
parsed parse none = none
parsed parse (some text) = parse text

-- The loopback interface is left out.
abbrev pub is_loopback : Bytes → Bool
is_loopback name = str_eq name (codes "lo")

module _ {V : Type 0} (rate : ℕ → ℤ → V) where
  unfoldable pub collect_network : Option Bytes → ℤ → Previous → Previous × Option (List (Rate V))
  collect_network text now p = collect rate is_loopback p now (parsed parse_net_dev text)

  unfoldable pub collect_disk_io :
      (Bytes → Bool) → Option Bytes → ℤ → Previous → Previous × Option (List (Rate V))
  collect_disk_io is_partition text now p =
      collect rate (is_excluded_disk_io_device is_partition) p now (parsed parse_disk_stats text)
