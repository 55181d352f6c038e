-- ===== src/Ring/Newest.antt =====
-- What `newest` returns of a valid `RingBuffer`, as a value of its contents.
use native.Mathlib.Nat.{mod-eq_of_lt, mod-eq-sub-mod}
use pi_monitor.Prelude.{
  get_last?-append_take, lt→ltb, ltb-false, ℕ, ◌+◌, ◌-◌, ◌%◌, ◌<◌, ◌≡◌, ◌∙◌, sym, ◌⊎◌, [], ap,
  arith, take-all, append-nil, get_last?, ltb, Bool-cases, true, inl, inr, drop, ◌==◌,
}
use pi_monitor.Ring.{RingBuffer, snapshot, newest}
use pi_monitor.Ring.Inv.{IsValid}
use pi_monitor.Ring.Contents.{contents, snapshot-contents}

-- Where the source's index of the newest entry stands.
last_index :
    (i cap : ℕ)
    → i < cap
    → ((i ≡ 0) × ((i + cap - 1) % cap ≡ cap - 1)) ⊎ ((0 < i) × ((i + cap - 1) % cap ≡ i - 1))
last_index i cap h = elim (Bool-cases (i == 0)) [
  | inl e ↦
      let start : i ≡ 0 = ground arith in
      let low : i + cap - 1 < cap = omega arith in inl (start, mod-eq_of_lt low ∙ omega arith)
  | inr e ↦
      let inside : 0 < i = ground arith in
      let low : i - 1 < cap = omega arith in
      inr (
        inside,
        mod-eq-sub-mod {n = i + cap - 1} {m = cap} (omega arith)
            ∙ ap (λ k. k % cap) (omega arith)
            ∙ mod-eq_of_lt low,
      )
]

module _ {ℓ} {A : Type ℓ} where
  newest-contents : {r : RingBuffer A} → IsValid r → newest r ≡ get_last? (contents r)
  unfolding newest
  newest-contents {r} h = elim (Bool-cases (r.size == 0)) [
    | inl e ↦
        let empty : r.size ≡ 0 = ground arith in rw (e, empty, lt→ltb 0 r.capacity (omega arith))
    | inr e ↦ rw e (elim (last_index r.next r.capacity h.next_in) [
      | inl (start, idx) ↦
          rw (idx, ltb-false r.size r.capacity (ground arith), start)
            (sym (get_last?-append_take [] r.buf r.capacity (omega arith) (omega arith))
              ∙ ap get_last? (take-all r.capacity r.buf (omega arith) ∙ sym (append-nil r.buf)))
      | inr (inside, idx) ↦ rw idx (elim (Bool-cases (ltb r.size r.capacity)) [
        | inl room ↦
            rw room (
              rw (← filled room) (sym (get_last?-append_take [] r.buf r.next inside (omega arith))))
        | inr full ↦
            rw full
              (sym (get_last?-append_take (drop r.next r.buf) r.buf r.next inside (omega arith)))
      ])
    ])
  ]
    where
      filled : ltb r.size r.capacity ≡ true → r.next ≡ r.size
      filled room = ground arith

  -- `newest` returns the last value of the snapshot, and nothing exactly where that is empty.
  pub newest-snapshot : (z : A) {r : RingBuffer A} → IsValid r → newest r ≡ get_last? (snapshot z r)
  newest-snapshot z {r} h = rw (snapshot-contents z h) (newest-contents h)
