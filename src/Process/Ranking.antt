-- ===== src/Process/Ranking.antt =====
-- internal/collector/process.go: which processes a ranking has.
use mathlib.Core.List.{Perm}
use pi_monitor.Prelude.{
  ℕ, zero, suc, ◌<◌, ◌≡◌, refl, ap, Bool, true, false, ◌&&◌, ◌⊎◌, inl, inr, List, [], ◌∷◌, ◌++◌,
  some, length, take, drop, length-take, min, if◌then◌else◌, Bool-cases, arith,
}
use pi_monitor.Prelude.Int.{ℤ, pos_part, ltb_ℤ, ◌≤ℤ◌}
use pi_monitor.Prelude.Arith.{Arith}
use pi_monitor.Prelude.Sort.{sort, IsSorted, sort-perm, sort-IsSorted}
use pi_monitor.Process.Entries.{ReadFrom, read_entries-ReadFrom}
use pi_monitor.Process.Collect.{
  Process, Processes, ProcEntry, Sampled, PidMap, ProcessHistory, at_least_one, top_processes,
  mem_lt, cpu_lt, read_entries, cpu_percent_of, all_processes, collect_processes,
}

take-drop : {A : Type 0} (n : ℕ) (xs : List A) → take n xs ++ drop n xs ≡ xs
take-drop zero xs = refl
take-drop (suc n) [] = refl
take-drop (suc n) (x ∷ xs) = ap (◌∷◌ x) (take-drop n xs)

module _ {V : Type 0} where
  -- Each entry may stand before the next.
  abbrev pub Chain : (Process V → Process V → Type 0) → List (Process V) → Type 0
  Chain R [] = Unit
  Chain R (p ∷ []) = Unit
  Chain R (p ∷ q ∷ ps) = R p q × Chain R (q ∷ ps)

  -- More memory first, and of as much memory the smaller number first.
  abbrev pub ByMemory : Process V → Process V → Type 0
  ByMemory p q = (q.rss_bytes < p.rss_bytes) ⊎ ((q.rss_bytes ≡ p.rss_bytes) × (p.pid ≤ℤ q.pid))

  -- A ranking of `all`: with the others behind it, it is all of them in order, and it is as long as
  -- asked for where there are as many.
  abbrev pub IsTop :
      (Process V → Process V → Type 0) → List (Process V) → ℤ → List (Process V) → Type 0
  IsTop R all n top =
      (others : List (Process V)) × Perm (top ++ others) all
      × Chain R (top ++ others)
      × (length top ≡ min (pos_part n) (length (top ++ others)))

  IsSorted-Chain :
      (lt : Process V → Process V → Bool) (R : Process V → Process V → Type 0)
      (ps : List (Process V))
      → ((p q : Process V) → lt q p ≡ false → R p q)
      → IsSorted lt ps
      → Chain R ps
  IsSorted-Chain lt R [] h s = tt
  IsSorted-Chain lt R (p ∷ []) h s = tt
  IsSorted-Chain lt R (p ∷ q ∷ ps) h s = (h p q s.0, IsSorted-Chain lt R (q ∷ ps) h s.1)

  top_processes-IsTop :
      (lt : Process V → Process V → Bool) (R : Process V → Process V → Type 0)
      (all : List (Process V)) (n : ℤ)
      → ((p q : Process V) → lt p q ≡ true → lt q p ≡ false)
      → ((p q : Process V) → lt q p ≡ false → R p q)
      → IsTop R all n (top_processes (sort lt all) n)
  unfolding top_processes
  top_processes-IsTop lt R all n asym h =
      let k = pos_part n in
      let whole = take-drop k (sort lt all) in
      (
        drop k (sort lt all),
        rw whole (sort-perm lt all),
        rw whole (IsSorted-Chain lt R (sort lt all) h (sort-IsSorted lt asym all)),
        rw whole (length-take k (sort lt all)),
      )

  mem_lt-ByMemory : (p q : Process V) → mem_lt q p ≡ false → ByMemory p q
  mem_lt-ByMemory p q h = ground arith

  mem_lt_asym : (p q : Process V) → mem_lt p q ≡ true → mem_lt q p ≡ false
  mem_lt_asym p q h = ground arith

either_asym :
    (x y m n l k : Bool)
    → (m ≡ true → n ≡ false)
    → (l ≡ true → k ≡ false)
    → (if x && y then m else l) ≡ true
    → (if y && x then n else k) ≡ false
either_asym true true m n l k hm hl h = hm h
either_asym true false m n l k hm hl h = hl h
either_asym false true m n l k hm hl h = hl h
either_asym false false m n l k hm hl h = hl h

pid_asym : (p q : ℤ) → ltb_ℤ p q ≡ true → ltb_ℤ q p ≡ false
pid_asym p q h = ground arith

cpu_lt_asym : {V : Type 0} ⦃a : Arith V⦄ (p q : Process V) → cpu_lt p q ≡ true → cpu_lt q p ≡ false
cpu_lt_asym ⦃a⦄ p q h =
    either_asym (a.le p.cpu_percent q.cpu_percent) (a.le q.cpu_percent p.cpu_percent) _ _ _ _
      (pid_asym p.pid q.pid) (a.lt_asym q.cpu_percent p.cpu_percent) h

pid_order : (p q : ℤ) → ltb_ℤ q p ≡ false → p ≤ℤ q
pid_order p q h = ground arith

both : (x y : Bool) → (x && y) ≡ true → (x ≡ true) × (y ≡ true)
both true y h = (refl, h)
both false y h = absurd (cc h)

module _ {V : Type 0} ⦃a : Arith V⦄ where
  -- More use of the CPU first, and of as much use the smaller number first.
  abbrev pub ByCpu : Process V → Process V → Type 0
  ByCpu p q =
      ((a.le p.cpu_percent q.cpu_percent ≡ true)
        × (a.le q.cpu_percent p.cpu_percent ≡ true)
        × (p.pid ≤ℤ q.pid))
      ⊎ (((a.le q.cpu_percent p.cpu_percent && a.le p.cpu_percent q.cpu_percent) ≡ false)
          × (a.lt p.cpu_percent q.cpu_percent ≡ false))

  cpu_lt-ByCpu : (p q : Process V) → cpu_lt q p ≡ false → ByCpu p q
  cpu_lt-ByCpu p q h =
      elim (Bool-cases (a.le q.cpu_percent p.cpu_percent && a.le p.cpu_percent q.cpu_percent)) [
        | inl e ↦
            let (below, above) = both _ _ e in inl (above, below, pid_order p.pid q.pid (rw e at h))
        | inr e ↦ inr (e, rw e at h)
      ]

module _ {V : Type 0} ⦃a : Arith V⦄ (seconds : ℤ → V) (cores : ℤ → V)
    (iteration : PidMap Sampled → PidMap Sampled) where
  -- What is shown of each process that could be read: its number, the name and the memory that its
  -- files say, and its use of the CPU since the sample before.
  abbrev pub ShowsAll : ProcessHistory → ℤ → ℤ → List (Process V) → PidMap Sampled → Type 0
  ShowsAll h core_count now [] [] = Unit
  ShowsAll h core_count now (p ∷ ps) ((pid, s) ∷ cur) =
      (p.pid ≡ pid)
      × (p.name ≡ s.stat.comm)
      × (p.rss_bytes ≡ s.rss)
      × (p.cpu_percent ≡ cpu_percent_of seconds cores h (at_least_one core_count) now pid s.stat)
      × ShowsAll h core_count now ps cur
  ShowsAll h core_count now [] (e ∷ cur) = ⊥
  ShowsAll h core_count now (p ∷ ps) [] = ⊥

  all_processes-ShowsAll :
      (h : ProcessHistory) (core_count now : ℤ) (cur : PidMap Sampled)
      → ShowsAll h core_count now
          (all_processes seconds cores h (at_least_one core_count) now cur)
          cur
  unfolding all_processes
  all_processes-ShowsAll h core_count now [] = tt
  all_processes-ShowsAll h core_count now ((pid, s) ∷ cur) =
      (refl, refl, refl, refl, all_processes-ShowsAll h core_count now cur)

  -- Of the processes of a listing of /proc whose files can be read and parsed, each with what its last
  -- such entry says, in whatever order the map of these is walked, both rankings have those that come
  -- first: by use of the CPU, more first, and by memory, more first, equal ones by their numbers. With
  -- all the others behind it each ranking is in order and has every process once; and it has as many
  -- as asked for, or all of them.
  pub collect_processes-IsTop :
      (h : ProcessHistory) (top_n core_count now : ℤ) (entries : List ProcEntry)
      → (p : Processes V) × (cur : PidMap Sampled) × (all : List (Process V)) × ((collect_processes
            seconds cores iteration h top_n core_count now
            (some entries)).1
          ≡ some p)
        × ReadFrom entries cur
        × ShowsAll h core_count now all (iteration cur)
        × IsTop ByCpu all top_n p.by_cpu
        × IsTop ByMemory all top_n p.by_memory
  unfolding collect_processes
  collect_processes-IsTop h top_n core_count now entries = (
    _,
    read_entries entries [],
    all_processes seconds cores h (at_least_one core_count) now
        (iteration (read_entries entries [])),
    refl,
    read_entries-ReadFrom entries,
    all_processes-ShowsAll h core_count now (iteration (read_entries entries [])),
    top_processes-IsTop cpu_lt ByCpu _ top_n cpu_lt_asym cpu_lt-ByCpu,
    top_processes-IsTop mem_lt ByMemory _ top_n mem_lt_asym mem_lt-ByMemory,
  )
