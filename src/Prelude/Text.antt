-- ===== src/Prelude/Text.antt =====
-- Go's packages strings, strconv and bufio on ASCII text, as the parsers use them.
use Prim.Native.Nat.{ℕ, suc, ◌+◌, ◌-◌, ◌*◌, ◌<◌}
use mathlib.Core.Path.{◌≡◌}
use mathlib.Core.Bool.{Bool, true, false, not, ◌&&◌, ◌||◌}
use mathlib.Core.Option.{Option, none, some}
use mathlib.Core.List.{List, [], ◌∷◌, ◌++◌, reverse}
use native.Mathlib.Omega.{arith}
use pi_monitor.Prelude.Tests.{ltb, leb, ◌==◌, if◌then◌else◌}
use pi_monitor.Prelude.Lists.{length, drop}
use pi_monitor.Prelude.Bytes.{Bytes}
use pi_monitor.Prelude.Int.{ℤ, pos, ◌-ℤ◌}

-- `strings.HasPrefix` and `strings.TrimPrefix`.
unfoldable pub has_prefix : Bytes → Bytes → Bool
has_prefix s [] = true
has_prefix [] (p ∷ ps) = false
has_prefix (c ∷ s) (p ∷ ps) = c == p && has_prefix s ps

abbrev pub trim_prefix : Bytes → Bytes → Bytes
trim_prefix s prefix = if has_prefix s prefix then drop (length prefix) s else s

-- `strings.HasSuffix`.
unfoldable pub has_suffix : Bytes → Bytes → Bool
unfolding has_prefix
has_suffix s suffix = has_prefix (reverse s) (reverse suffix)

-- White space: tab to carriage return, and the space.
unfoldable pub is_space : ℕ → Bool
is_space c = c == 32 || leb 9 c && leb c 13

-- `strings.TrimSpace`.
unfoldable pub trim_left : Bytes → Bytes
unfolding is_space
trim_left [] = []
trim_left (c ∷ s) = if is_space c then trim_left s else c ∷ s

unfoldable pub trim_space : Bytes → Bytes
unfolding trim_left
trim_space s = reverse (trim_left (reverse (trim_left s)))

-- `strings.Fields`: the words between white space.
abbrev pub flush : Bytes → List Bytes → List Bytes
flush [] rest = rest
flush (c ∷ word) rest = (c ∷ word) ∷ rest

unfoldable pub fields_from : Bytes → Bytes → List Bytes
unfolding is_space
fields_from word [] = flush word []
fields_from word (c ∷ s) = elim (is_space c) [
  | true ↦ flush word (fields_from [] s)
  | false ↦ fields_from (word ++ c ∷ []) s
]

unfoldable pub fields : Bytes → List Bytes
unfolding fields_from
fields s = fields_from [] s

-- `strings.Split` at one byte.
unfoldable pub split_from : ℕ → Bytes → Bytes → List Bytes
split_from sep word [] = word ∷ []
split_from sep word (c ∷ s) = elim (c == sep) [
  | true ↦ word ∷ split_from sep [] s
  | false ↦ split_from sep (word ++ c ∷ []) s
]

unfoldable pub split : ℕ → Bytes → List Bytes
unfolding split_from
split sep s = split_from sep [] s

-- `strings.Cut` at one byte: what stands before its first occurrence, and after.
unfoldable pub cut : ℕ → Bytes → Option (Bytes × Bytes)
cut sep [] = none
cut sep (c ∷ s) =
    if c == sep
    then some ([], s)
    else elim (cut sep s) [ none ↦ none | some (before, after) ↦ some (c ∷ before, after) ]

-- The lines of `bufio.Scanner`, less the carriage return, up to the first that does not fit its
-- buffer of 64 KB; the flag says whether there is such a line. A last line that is empty is none.
abbrev pub drop_return : Bytes → Bytes
drop_return line = elim (reverse line) [
  | [] ↦ []
  | c ∷ rest ↦ if c == 13 then reverse rest else line
]

abbrev pub max_token : ℕ
max_token = 65536

unfoldable pub scan_from : Bytes → ℕ → Bytes → List Bytes × Bool
scan_from line size [] =
    if ltb size max_token
    then (elim line [ [] ↦ [] | c ∷ cs ↦ drop_return (c ∷ cs) ∷ [] ], false)
    else ([], true)
scan_from line size (c ∷ s) = if not (ltb size max_token) then ([], true) else elim (c == 10) [
  | true ↦ let (lines, long) = scan_from [] 0 s in (drop_return line ∷ lines, long)
  | false ↦ scan_from (line ++ c ∷ []) (suc size) s
]

unfoldable pub scan_lines : Bytes → List Bytes × Bool
unfolding scan_from
scan_lines s = scan_from [] 0 s

-- `strconv.ParseUint(s, 10, 64)`: digits only, at least one, and a value that fits.
abbrev pub uint64_limit : ℕ
uint64_limit = 18446744073709551616

unfoldable pub digits_from : ℕ → Bytes → Option ℕ
digits_from n [] = some n
digits_from n (c ∷ s) =
    if leb 48 c && leb c 57 && ltb (n * 10 + (c - 48)) uint64_limit
    then digits_from (n * 10 + (c - 48)) s
    else none

unfoldable pub parse_uint : Bytes → Option ℕ
unfolding digits_from
parse_uint [] = none
parse_uint (c ∷ s) = digits_from 0 (c ∷ s)

digits_from-lt :
    (n : ℕ) (s : Bytes) (v : ℕ) → n < uint64_limit → digits_from n s ≡ some v → v < uint64_limit
unfolding digits_from
digits_from-lt n [] v h e = ground arith
digits_from-lt n (c ∷ s) v h e = ground (arith, digits_from-lt (n * 10 + (c - 48)) s v)

-- A number that has been read fits 64 bits.
pub parse_uint-lt : (s : Bytes) (v : ℕ) → parse_uint s ≡ some v → v < uint64_limit
unfolding parse_uint
parse_uint-lt [] v e = cc
parse_uint-lt (c ∷ s) v e = digits_from-lt 0 (c ∷ s) v (omega arith) e

-- `strconv.ParseInt(s, 10, 64)`: a sign, then a number without one, in the range of the type.
unfoldable pub signed : ℕ → Bool → Option ℕ → Option ℤ
signed limit minus none = none
signed limit true (some n) = if leb n limit then some (pos 0 -ℤ pos n) else none
signed limit false (some n) = if ltb n limit then some (pos n) else none

unfoldable pub parse_int : Bytes → Option ℤ
unfolding parse_uint signed
parse_int [] = none
parse_int (c ∷ s) =
    if c == 43
    then signed 9223372036854775808 false (parse_uint s)
    else if c == 45
    then signed 9223372036854775808 true (parse_uint s)
    else signed 9223372036854775808 false (parse_uint (c ∷ s))

-- `strings.IndexByte` and `strings.LastIndexByte`.
unfoldable pub index_byte : Bytes → ℕ → Option ℕ
index_byte [] c = none
index_byte (d ∷ s) c =
    if d == c then some 0 else elim (index_byte s c) [ none ↦ none | some i ↦ some (suc i) ]

unfoldable pub last_index_byte : Bytes → ℕ → Option ℕ
last_index_byte [] c = none
last_index_byte (d ∷ s) c = elim (last_index_byte s c) [
  | some i ↦ some (suc i)
  | none ↦ if d == c then some 0 else none
]
