-- ===== src/Collector/Since.antt =====
-- internal/collector/collector.go: what `dropPrefix` and `Since` keep of a series.
use pi_monitor.Prelude.{
  ℕ, zero, suc, ◌+◌, ◌/◌, ◌≤◌, ◌<◌, ◌≡◌, refl, sym, ap, Bool, true, false, inl, inr, List, [], ◌∷◌,
  All, length, drop, ltb, if◌then◌else◌, Bool-cases, ltb→lt, ltb-false→le, arith,
}
use pi_monitor.Prelude.Int.{ℤ, ◌≤ℤ◌}
use pi_monitor.Persist.Types.{HistoryPoint, Series, History}
use pi_monitor.Collector.Search.{search_from, search, kept_at, drop_prefix}
use pi_monitor.Collector.Import.{newer, not_before, is_zero, since, trim}

-- Once it holds, it holds from there on.
abbrev pub Monotone : (ℕ → Bool) → Type 0
Monotone f = (k m : ℕ) → k ≤ m → f k ≡ true → f m ≡ true

-- Where `f` turns true.
abbrev pub Boundary : (ℕ → Bool) → ℕ → Type 0
Boundary f r = ((k : ℕ) → k < r → f k ≡ false) × ((k : ℕ) → r ≤ k → f k ≡ true)

not-true : (b : Bool) → (b ≡ true → ⊥) → b ≡ false
not-true true h = absurd (h refl)
not-true false h = refl

search_from-Boundary :
    (f : ℕ → Bool) (fuel i j : ℕ)
    → i ≤ j
    → j ≤ i + fuel
    → Monotone f
    → ((k : ℕ) → k < i → f k ≡ false)
    → ((k : ℕ) → j ≤ k → f k ≡ true)
    → Boundary f (search_from f fuel i j)
unfolding search_from
search_from-Boundary f zero i j h enough mono below above = (below, λ k l. above k (omega arith))
search_from-Boundary f (suc fuel) i j h enough mono below above = elim (Bool-cases (ltb i j)) [
  | inr e ↦ rw (search_from, e) (below, λ k l. above k (omega (arith, ltb-false→le i j e)))
  | inl e ↦
      let lt = ltb→lt i j e in
      elim (Bool-cases (f ((i + j) / 2))) [
        | inl t ↦
            rw (search_from, e, t)
              (search_from-Boundary f fuel i ((i + j) / 2) (omega arith) (omega arith) mono below
                (λ k l. mono ((i + j) / 2) k l t))
        | inr t ↦
            rw (search_from, e, t)
              (search_from-Boundary f fuel (suc ((i + j) / 2)) j (omega arith) (omega arith) mono
                (λ k l. not-true (f k) (λ q. cc (mono k ((i + j) / 2) (omega arith) q))) above)
      ]
]

module _ {A : Type 0} where
  abbrev pub filter : (A → Bool) → List A → List A
  filter keep [] = []
  filter keep (p ∷ ps) = if keep p then p ∷ filter keep ps else filter keep ps

  -- Tests that agree keep the same entries.
  pub filter-same :
      (f g : A → Bool) (xs : List A) → ((x : A) → f x ≡ g x) → filter f xs ≡ filter g xs
  filter-same f g [] h = refl
  filter-same f g (x ∷ xs) h =
      rw (h x) (ap (λ rest. if g x then x ∷ rest else rest) (filter-same f g xs h))

  kept_at-all :
      (points : List A) (keep : A → Bool)
      → ((k : ℕ) → kept_at points keep k ≡ true)
      → filter keep points ≡ points
  unfolding kept_at
  kept_at-all [] keep h = refl
  kept_at-all (p ∷ ps) keep h = rw (h 0) (ap (◌∷◌ p) (kept_at-all ps keep (λ k. h (suc k))))

  drop-Boundary :
      (points : List A) (keep : A → Bool) (r : ℕ)
      → Boundary (kept_at points keep) r
      → drop r points ≡ filter keep points
  unfolding kept_at
  drop-Boundary points keep zero h = sym (kept_at-all points keep (λ k. h.1 k (omega arith)))
  drop-Boundary [] keep (suc r) h = refl
  drop-Boundary (p ∷ ps) keep (suc r) h =
      rw (h.0 0 (omega arith)) (
        drop-Boundary ps keep r
          (λ k l. h.0 (suc k) (omega arith), λ k l. h.1 (suc k) (omega arith)))

  out_of_range :
      (points : List A) (keep : A → Bool) (k : ℕ) → length points ≤ k → kept_at points keep k ≡ true
  unfolding kept_at
  out_of_range [] keep k h = refl
  out_of_range (p ∷ ps) keep zero h = absurd (omega arith)
  out_of_range (p ∷ ps) keep (suc k) h = out_of_range ps keep k (omega arith)

  -- The binary search of `dropPrefix` keeps exactly the points that a walk over the whole series
  -- would keep, for a test that stays true once it is.
  pub drop_prefix-filter :
      (points : List A) (keep : A → Bool)
      → Monotone (kept_at points keep)
      → drop_prefix points keep ≡ filter keep points
  unfolding drop_prefix search
  drop_prefix-filter points keep mono =
      drop-Boundary points keep
        (search_from (kept_at points keep) (length points) 0 (length points))
        (search_from-Boundary (kept_at points keep) (length points) 0 (length points) (omega arith)
          (omega arith) mono (λ k l. absurd (omega arith)) (out_of_range points keep))

module _ {V : Type 0} where
  -- Oldest first.
  abbrev pub Chronological : Series V → Type 0
  Chronological [] = Unit
  Chronological (p ∷ ps) = All (λ q. p.timestamp ≤ℤ q.timestamp) ps × Chronological ps

  -- A test that a later point passes where an earlier one does.
  abbrev Lasting : (HistoryPoint V → Bool) → Type 0
  Lasting keep = (p q : HistoryPoint V) → p.timestamp ≤ℤ q.timestamp → keep p ≡ true → keep q ≡ true

  later :
      (keep : HistoryPoint V → Bool) (p : HistoryPoint V) (ps : Series V) (k : ℕ)
      → Lasting keep
      → All (λ q. p.timestamp ≤ℤ q.timestamp) ps
      → keep p ≡ true
      → kept_at ps keep k ≡ true
  unfolding kept_at
  later keep p [] k l h t = refl
  later keep p (q ∷ ps) zero l h t = l p q (h.0) t
  later keep p (q ∷ ps) (suc k) l h t = later keep p ps k l (h.1) t

  Chronological-Monotone :
      (keep : HistoryPoint V → Bool) (points : Series V)
      → Lasting keep
      → Chronological points
      → Monotone (kept_at points keep)
  unfolding kept_at
  Chronological-Monotone keep [] l h k m le t = refl
  Chronological-Monotone keep (p ∷ ps) l h zero zero le t = t
  Chronological-Monotone keep (p ∷ ps) l h zero (suc m) le t = later keep p ps m l (h.0) t
  Chronological-Monotone keep (p ∷ ps) l h (suc k) zero le t = absurd (omega arith)
  Chronological-Monotone keep (p ∷ ps) l h (suc k) (suc m) le t =
      Chronological-Monotone keep ps l (h.1) k m (omega arith) t

  newer-Lasting : (t : ℤ) → Lasting (newer t)
  newer-Lasting t p q h k = ground arith

  not_before-Lasting : (t : ℤ) → Lasting (not_before t)
  not_before-Lasting t p q h k = ground arith

  -- The trim of a restored series keeps exactly the points that are not older than the cutoff, where
  -- the series is in order of time.
  pub trim_lem :
      (cutoff : ℤ) (points : Series V)
      → Chronological points
      → trim cutoff points ≡ filter (not_before cutoff) points
  unfolding trim
  trim_lem cutoff points h =
      drop_prefix-filter points (not_before cutoff)
        (Chronological-Monotone (not_before cutoff) points (not_before-Lasting cutoff) h)

  newer_lem :
      (t : ℤ) (points : Series V)
      → Chronological points
      → drop_prefix points (newer t) ≡ filter (newer t) points
  newer_lem t points h =
      drop_prefix-filter points (newer t)
        (Chronological-Monotone (newer t) points (newer-Lasting t) h)

  abbrev pub ScalarsChronological : History V → Type 0
  ScalarsChronological h =
      Chronological h.cpu_percent
      × Chronological h.load1
      × Chronological h.load5
      × Chronological h.load15
      × Chronological h.temperature
      × Chronological h.memory_used_percent
      × Chronological h.swap_used_percent

  -- From an instant that is not the zero time, `Since` keeps in each series of the whole host exactly
  -- the points newer than it, where these series are in order of time.
  pub since_lem :
      (h : History V) (t : ℤ)
      → is_zero t ≡ false
      → ScalarsChronological h
      → ((since h t).cpu_percent ≡ filter (newer t) h.cpu_percent)
        × ((since h t).load1 ≡ filter (newer t) h.load1)
        × ((since h t).load5 ≡ filter (newer t) h.load5)
        × ((since h t).load15 ≡ filter (newer t) h.load15)
        × ((since h t).temperature ≡ filter (newer t) h.temperature)
        × ((since h t).memory_used_percent ≡ filter (newer t) h.memory_used_percent)
        × ((since h t).swap_used_percent ≡ filter (newer t) h.swap_used_percent)
  unfolding since
  since_lem h t z c =
      rw (since, z)
        (
          newer_lem t h.cpu_percent (c.0),
          newer_lem t h.load1 (c.1),
          newer_lem t h.load5 (c.2),
          newer_lem t h.load15 (c.3),
          newer_lem t h.temperature (c.4),
          newer_lem t h.memory_used_percent (c.5),
          newer_lem t h.swap_used_percent (c.6),
        )
