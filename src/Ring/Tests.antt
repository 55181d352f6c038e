-- ===== src/Ring/Tests.antt =====
-- Runs of the ring buffer, and its theorems at concrete buffers.
use pi_monitor.Prelude.{ℕ, [], ◌∷◌, ◌++◌, ◌≡◌, refl, arith, last_n}
use pi_monitor.Prelude.Int.{negsuc}
use pi_monitor.Ring.{RingBuffer, new_ring_buffer, add, fill, snapshot}
use pi_monitor.Ring.Inv.{IsValid}
use pi_monitor.Ring.Refine.{add_all, snapshot-add_all}

-- Capacity 3, holding 7, 8 and 9, the oldest at index 1.
abbrev wrapped : RingBuffer ℕ
wrapped = record { buf = 9 ∷ 7 ∷ 8 ∷ []; capacity = 3; next = 1; size = 3 }

wrapped-IsValid : IsValid wrapped
wrapped-IsValid = omega arith

snapshot_runs : snapshot 0 (add wrapped 5) ≡ 8 ∷ 9 ∷ 5 ∷ []
unfolding snapshot add
snapshot_runs = refl

negative_capacity : (new_ring_buffer {A = ℕ} 0 (negsuc 4)).capacity ≡ 1
unfolding new_ring_buffer
negative_capacity = refl

two_after_fill : snapshot 0 (fill 0 wrapped (1 ∷ 2 ∷ [])) ≡ 1 ∷ 2 ∷ []
unfolding snapshot fill
two_after_fill = refl

snapshot-add_all_example :
    snapshot 0 (add_all wrapped (1 ∷ 2 ∷ [])) ≡ last_n 3 (snapshot 0 wrapped ++ 1 ∷ 2 ∷ [])
snapshot-add_all_example = snapshot-add_all 0 (1 ∷ 2 ∷ []) wrapped-IsValid
