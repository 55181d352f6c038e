-- ===== src/Process/Comm.antt =====
-- internal/collector/process.go: the name of a process in /proc/<pid>/stat may contain anything.
use pi_monitor.Prelude.{
  ℕ, suc, ◌+◌, ◌-◌, ◌≡◌, refl, sym, ap, ◌∙◌, false, inl, inr, [], ◌∷◌, ◌++◌, none, some, length,
  take, drop, length-append, take-append, ltb, ltb-false, ◌==◌, ==_iff, if◌then◌else◌, Bool-cases,
  Option-cases, arith, append_assoc,
}
use pi_monitor.Prelude.Bytes.{Bytes}
use pi_monitor.Prelude.Text.{fields, index_byte, last_index_byte}
use pi_monitor.Process.Parse.{number_at, stat_of, stat_between, parse_proc_pid_stat}

index_byte-append :
    (pre s : Bytes) (c : ℕ)
    → index_byte pre c ≡ none
    → index_byte (pre ++ c ∷ s) c ≡ some (length pre)
unfolding index_byte
index_byte-append [] s c h = rw ((==_iff c c).1 refl) refl
index_byte-append (d ∷ pre) s c h = elim (Bool-cases (d == c)) [
  | inl e ↦ absurd (cc (rw (index_byte, e) at h))
  | inr e ↦ elim (Option-cases (index_byte pre c)) [
    | inl n ↦ rw (index_byte, e) (rw (index_byte-append pre s c n) refl)
    | inr (i, n) ↦ absurd (cc (rw (index_byte, e, n) at h))
  ]
]

last_index_byte-append :
    (s tail : Bytes) (c : ℕ)
    → last_index_byte tail c ≡ none
    → last_index_byte (s ++ c ∷ tail) c ≡ some (length s)
unfolding last_index_byte
last_index_byte-append [] tail c h = rw h (rw ((==_iff c c).1 refl) refl)
last_index_byte-append (d ∷ s) tail c h = rw (last_index_byte-append s tail c h) refl

-- What stands after a byte, and what stands between two.
drop-after : (s tail : Bytes) (c : ℕ) → drop (suc (length s)) (s ++ c ∷ tail) ≡ tail
drop-after [] tail c = refl
drop-after (d ∷ s) tail c = drop-after s tail c

-- Whatever bytes the name of a process has, parentheses and white space included, parseProcPidStat
-- finds the name, and the numbers among the fields behind it; an error only where there are fewer than
-- 20 fields, or one of the three is no number. Before the name there is no opening parenthesis, and
-- behind it no closing one.
pub parse_proc_pid_stat_lem :
    (pid comm tail : Bytes)
    → index_byte pid b'(' ≡ none
    → last_index_byte tail b')' ≡ none
    → parse_proc_pid_stat (pid ++ b'(' ∷ (comm ++ b')' ∷ tail)) ≡ (
        if ltb (length (fields tail)) 20
        then none
        else stat_of comm
            (number_at (fields tail) 11)
            (number_at (fields tail) 12)
            (number_at (fields tail) 19))
unfolding parse_proc_pid_stat stat_between
parse_proc_pid_stat_lem pid comm tail h k =
    let before : Bytes = pid ++ b'(' ∷ comm in
    let text_eq : pid ++ b'(' ∷ (comm ++ b')' ∷ tail) ≡ before ++ b')' ∷ tail =
      sym (append_assoc pid (b'(' ∷ comm) (b')' ∷ tail)) in
    let first = index_byte-append pid (comm ++ b')' ∷ tail) b'(' h in
    let last =
      ap (λ t. last_index_byte t b')') text_eq ∙ last_index_byte-append before tail b')' k in
    let behind = ap (drop (suc (length before))) text_eq ∙ drop-after before tail b')' in
    let size : length before ≡ length pid + suc (length comm) = length-append pid (b'(' ∷ comm) in
    let in_order : ltb (length before) (length pid) ≡ false =
      ltb-false (length before) (length pid) (omega (arith, size)) in
    let wide : length before - suc (length pid) ≡ length comm = omega (arith, size) in
    let name =
      ap (take (length comm)) (drop-after pid (comm ++ b')' ∷ tail) b'(')
      ∙ take-append comm (b')' ∷ tail) in
    rw (first, last) (rw (stat_between, behind, in_order, wide, name) refl)
