-- ===== src/Process/Parse.antt =====
-- internal/collector/process.go: `parseProcPidStat` and `parseProcPidStatusRSS`.
use pi_monitor.Prelude.{
  ℕ, suc, ◌-◌, ◌*◌, ◌%◌, ◌||◌, List, [], ◌∷◌, Option, none, some, length, take, drop, get_elem?,
  ltb, if◌then◌else◌,
}
use pi_monitor.Prelude.Bytes.{Bytes, codes}
use pi_monitor.Prelude.Text.{has_prefix, fields, split, parse_uint, index_byte, last_index_byte}

pub record ProcessStat : Type 0 where
  pub comm : Bytes
  pub utime : ℕ
  pub stime : ℕ
  pub start_time_ticks : ℕ

-- A number among the fields; `none` where it is missing or no number.
abbrev pub number_at : List Bytes → ℕ → Option ℕ
number_at fs i = elim (get_elem? fs i) [ none ↦ none | some s ↦ parse_uint s ]

abbrev pub stat_of : Bytes → Option ℕ → Option ℕ → Option ℕ → Option ProcessStat
stat_of comm (some utime) (some stime) (some start) =
    some (record { comm = comm; utime = utime; stime = stime; start_time_ticks = start })
stat_of comm none stime start = none
stat_of comm (some utime) none start = none
stat_of comm (some utime) (some stime) none = none

-- The name stands between the first opening parenthesis and the last closing one.
unfoldable pub stat_between : Bytes → ℕ → ℕ → Option ProcessStat
stat_between text opening closing =
    let fs = fields (drop (suc closing) text) in
    if ltb closing opening || ltb (length fs) 20
    then none
    else stat_of (take (closing - suc opening) (drop (suc opening) text)) (number_at fs 11)
        (number_at fs 12) (number_at fs 19)

abbrev pub stat_at : Bytes → Option ℕ → Option ℕ → Option ProcessStat
stat_at text (some opening) (some closing) = stat_between text opening closing
stat_at text none closing = none
stat_at text (some opening) none = none

unfoldable pub parse_proc_pid_stat : Bytes → Option ProcessStat
parse_proc_pid_stat text = stat_at text (index_byte text b'(') (last_index_byte text b')')

-- The line's value; the product wraps around at 2^64.
abbrev pub rss_of : Option ℕ → Option ℕ
rss_of none = none
rss_of (some kb) = some (kb * 1024 % 18446744073709551616)

-- The loop over the lines; 0 where none of them is the one.
unfoldable pub rss_from : List Bytes → Option ℕ
rss_from [] = some 0
rss_from (line ∷ lines) =
    let rest = rss_from lines in
    if has_prefix line (codes "VmRSS:") then rss_of (number_at (fields line) 1) else rest

unfoldable pub parse_proc_pid_status_rss : Bytes → Option ℕ
parse_proc_pid_status_rss text = rss_from (split 10 text)
