-- ===== src/Process/Entries.antt =====
-- internal/collector/process.go: which processes a listing of /proc gives, with what its files say.
use pi_monitor.Prelude.{
  ◌≡◌, refl, ap, ◌∙◌, Bool, true, false, inl, inr, List, [], ◌∷◌, Option, none, some, if◌then◌else◌,
  Bool-cases, Option-cases, arith,
}
use pi_monitor.Prelude.Int.{ℤ, eq_of_parts}
use pi_monitor.Prelude.Text.{parse_int}
use pi_monitor.Process.Collect.{
  ProcEntry, Sampled, PidMap, eq_pid, lookup_pid, insert_pid, parse_entry, add_entry, read_entries,
}

-- Whether an entry is the directory of a process.
abbrev pub is_of : ℤ → ProcEntry → Bool
is_of pid e = elim (parse_int e.entry_name) [ none ↦ false | some p ↦ eq_pid p pid ]

-- What the last entry of a process says whose files can be read and parsed.
abbrev pub last_read : ℤ → List ProcEntry → Option Sampled
last_read pid [] = none
last_read pid (e ∷ es) = elim (last_read pid es) [
  | some later ↦ some later
  | none ↦ if is_of pid e then parse_entry e.stat_text e.status_text else none
]

module _ {A : Type 0} where
  lookup_pid-insert_pid :
      (k j : ℤ) (x : A) (m : PidMap A)
      → lookup_pid j (insert_pid k x m) ≡ (if eq_pid k j then some x else lookup_pid j m)
  unfolding lookup_pid insert_pid
  lookup_pid-insert_pid k j x [] = refl
  lookup_pid-insert_pid k j x ((i, y) ∷ m) = ground (arith, lookup_pid-insert_pid k j x m)

  -- No number stands twice.
  abbrev pub DistinctPids : PidMap A → Type 0
  DistinctPids [] = Unit
  DistinctPids ((p, x) ∷ m) = (lookup_pid p m ≡ none) × DistinctPids m

  insert_pid-DistinctPids :
      (k : ℤ) (x : A) (m : PidMap A) → DistinctPids m → DistinctPids (insert_pid k x m)
  unfolding insert_pid
  insert_pid-DistinctPids k x [] d = (unfold lookup_pid in refl, tt)
  insert_pid-DistinctPids k x ((j, y) ∷ m) d = elim (Bool-cases (eq_pid j k)) [
    | inl e ↦ rw e (ap (λ p. lookup_pid p m) (same_pid k j e) ∙ d.0, d.1)
    | inr e ↦ rw e (
      lookup_pid-insert_pid k j x m
          ∙ ap (λ (b : Bool). if b then some x else lookup_pid j m) (other_pid k j e)
          ∙ d.0,
      insert_pid-DistinctPids k x m d.1,
    )
  ]
    where
      same_pid : (p q : ℤ) → eq_pid q p ≡ true → p ≡ q
      same_pid p q h = eq_of_parts p q (ground arith)

      other_pid : (p q : ℤ) → eq_pid q p ≡ false → eq_pid p q ≡ false
      other_pid p q h = ground arith

add_entry-DistinctPids :
    (pid : Option ℤ) (s : Option Sampled) (m : PidMap Sampled)
    → DistinctPids m
    → DistinctPids (add_entry pid s m)
add_entry-DistinctPids (some pid) (some s) m d = insert_pid-DistinctPids pid s m d
add_entry-DistinctPids (some pid) none m d = d
add_entry-DistinctPids none s m d = d

read_entries-DistinctPids :
    (es : List ProcEntry) (m : PidMap Sampled) → DistinctPids m → DistinctPids (read_entries es m)
unfolding read_entries
read_entries-DistinctPids [] m d = d
read_entries-DistinctPids (e ∷ es) m d =
    read_entries-DistinctPids es _ (add_entry-DistinctPids (parse_int e.entry_name) _ m d)

abbrev or_else : Option Sampled → Option Sampled → Option Sampled
or_else (some s) old = some s
or_else none old = old

lookup_pid-add_entry :
    (pid : ℤ) (name : Option ℤ) (s : Option Sampled) (m : PidMap Sampled)
    → lookup_pid pid (add_entry name s m)
      ≡ or_else
          (if elim name [ none ↦ false | some p ↦ eq_pid p pid ] then s else none)
          (lookup_pid pid m)
lookup_pid-add_entry pid none s m = refl
lookup_pid-add_entry pid (some p) none m = elim (Bool-cases (eq_pid p pid)) [
  | inl e ↦ rw e refl
  | inr e ↦ rw e refl
]
lookup_pid-add_entry pid (some p) (some s) m = elim (Bool-cases (eq_pid p pid)) [
  | inl e ↦ rw (lookup_pid-insert_pid p pid s m, e) refl
  | inr e ↦ rw (lookup_pid-insert_pid p pid s m, e) refl
]

lookup_pid-read_entries :
    (pid : ℤ) (es : List ProcEntry) (m : PidMap Sampled)
    → lookup_pid pid (read_entries es m) ≡ or_else (last_read pid es) (lookup_pid pid m)
unfolding read_entries
lookup_pid-read_entries pid [] m = refl
lookup_pid-read_entries pid (e ∷ es) m =
    lookup_pid-read_entries pid es _ ∙ elim (Option-cases (last_read pid es)) [
      | inl l ↦ rw l (lookup_pid-add_entry pid (parse_int e.entry_name) _ m)
      | inr (later, l) ↦ rw l refl
    ]

-- A process is there with what its last readable entry says.
read_entries_lem :
    (pid : ℤ) (es : List ProcEntry) → lookup_pid pid (read_entries es []) ≡ last_read pid es
unfolding lookup_pid
read_entries_lem pid es = lookup_pid-read_entries pid es [] ∙ whole (last_read pid es)
  where
    whole : (o : Option Sampled) → or_else o none ≡ o
    whole none = refl
    whole (some s) = refl

-- What a listing of /proc gives: each process with an entry whose files can be read and parsed, once,
-- with what the last such entry says.
abbrev pub ReadFrom : List ProcEntry → PidMap Sampled → Type 0
ReadFrom entries cur = DistinctPids cur × ((pid : ℤ) → lookup_pid pid cur ≡ last_read pid entries)

pub read_entries-ReadFrom : (entries : List ProcEntry) → ReadFrom entries (read_entries entries [])
read_entries-ReadFrom entries =
    (read_entries-DistinctPids entries [] tt, λ pid. read_entries_lem pid entries)
