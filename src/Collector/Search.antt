-- ===== src/Collector/Search.antt =====
-- internal/collector/collector.go: `dropPrefix`, with the binary search of `sort.Search`.
use pi_monitor.Prelude.{
  ℕ, zero, suc, ◌+◌, ◌/◌, Bool, true, List, none, some, length, get_elem?, drop, ltb, if◌then◌else◌,
}

-- The loop `for i < j`: each round halves the range, so `j - i` rounds are enough.
unfoldable pub search_from : (ℕ → Bool) → ℕ → ℕ → ℕ → ℕ
search_from f zero i j = i
search_from f (suc fuel) i j =
    let h = (i + j) / 2 in
    let rest = search_from f fuel (if f h then i else suc h) (if f h then h else j) in
    if ltb i j then rest else i

-- The smallest index of `0, …, n - 1` at which `f` holds, or `n`; for a monotone `f`.
unfoldable pub search : ℕ → (ℕ → Bool) → ℕ
search n f = search_from f n 0 n

module _ {A : Type 0} where
  -- `keep(points[i])`; the search never asks out of range.
  unfoldable pub kept_at : List A → (A → Bool) → ℕ → Bool
  kept_at points keep i = elim (get_elem? points i) [ none ↦ true | some p ↦ keep p ]

  unfoldable pub drop_prefix : List A → (A → Bool) → List A
  drop_prefix points keep = drop (search (length points) (kept_at points keep)) points
