-- ===== src/Cpu/Stat.antt =====
-- internal/collector/cpu.go: `parseProcStat`. An index out of range is a panic, which is a result here.
use pi_monitor.Prelude.{
  ℕ, zero, suc, ◌+◌, ◌%◌, not, ◌||◌, List, [], ◌∷◌, Option, none, some, length, ltb, if◌then◌else◌,
}
use pi_monitor.Prelude.Bytes.{Bytes, codes}
use pi_monitor.Prelude.Text.{has_prefix, fields, split, parse_uint}

pub record CpuStatLine : Type 0 where
  pub name : Bytes
  pub user : ℕ
  pub nice : ℕ
  pub system : ℕ
  pub idle : ℕ
  pub iowait : ℕ
  pub irq : ℕ
  pub softirq : ℕ
  pub steal : ℕ

-- The sums wrap around at 2^64.
unfoldable pub total : CpuStatLine → ℕ
total l =
    (l.user + l.nice + l.system + l.idle + l.iowait + l.irq + l.softirq + l.steal)
    % 18446744073709551616

unfoldable pub idle_total : CpuStatLine → ℕ
idle_total l = (l.idle + l.iowait) % 18446744073709551616

-- How a piece of the parser ends.
pub data Parsed (A : Type 0) : Type 0 where
  done : A → Parsed A
  wrong : Parsed A
  panics : Parsed A

abbrev pub prepend : {A : Type 0} → A → Parsed (List A) → Parsed (List A)
prepend x (done xs) = done (x ∷ xs)
prepend x wrong = wrong
prepend x panics = panics

-- The loop that reads `n` values, from the fields that are left.
unfoldable pub values : ℕ → List Bytes → Parsed (List ℕ)
values zero fs = done []
values (suc n) [] = panics
values (suc n) (field ∷ fs) =
    let rest = values n fs in elim (parse_uint field) [ none ↦ wrong | some v ↦ prepend v rest ]

-- A line of eight values.
unfoldable pub stat_of : Bytes → List ℕ → Option CpuStatLine
stat_of name (user ∷ nice ∷ system ∷ idle ∷ iowait ∷ irq ∷ softirq ∷ steal ∷ []) = some (record {
  name = name;
  user = user;
  nice = nice;
  system = system;
  idle = idle;
  iowait = iowait;
  irq = irq;
  softirq = softirq;
  steal = steal;
})
stat_of name vals = none

-- One round of the loop over the lines: no line, a line, or an end of the parser.
abbrev pub line_of : Bytes → Parsed (List ℕ) → Parsed (Option CpuStatLine)
line_of name (done vals) = done (stat_of name vals)
line_of name wrong = wrong
line_of name panics = panics

abbrev pub line_of_fields : List Bytes → Parsed (Option CpuStatLine)
line_of_fields [] = done none
line_of_fields (name ∷ rest) =
    if ltb (length (name ∷ rest)) 8 || not (has_prefix name (codes "cpu"))
    then done none
    else line_of name (values 8 rest)

unfoldable pub stat_line : Bytes → Parsed (Option CpuStatLine)
stat_line raw = line_of_fields (fields raw)

abbrev pub add_line : Option CpuStatLine → Parsed (List CpuStatLine) → Parsed (List CpuStatLine)
add_line none rest = rest
add_line (some l) rest = prepend l rest

unfoldable pub stat_lines : List Bytes → Parsed (List CpuStatLine)
stat_lines [] = done []
stat_lines (raw ∷ raws) =
    let rest = stat_lines raws in
    elim (stat_line raw) [ done line ↦ add_line line rest | wrong ↦ wrong | panics ↦ panics ]

-- Without any line it is an error.
abbrev pub not_empty : Parsed (List CpuStatLine) → Parsed (List CpuStatLine)
not_empty (done []) = wrong
not_empty (done (l ∷ ls)) = done (l ∷ ls)
not_empty wrong = wrong
not_empty panics = panics

unfoldable pub parse_proc_stat : Bytes → Parsed (List CpuStatLine)
parse_proc_stat text = not_empty (stat_lines (split 10 text))
