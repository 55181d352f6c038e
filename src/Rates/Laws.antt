-- ===== src/Rates/Laws.antt =====
-- internal/collector/network.go and diskio.go: which rates there are.
use pi_monitor.Prelude.{
  ℕ, ◌-◌, ◌≡◌, refl, sym, ap, ◌∙◌, Bool, true, false, ◌||◌, ◌↔◌, inl, inr, List, [], ◌∷◌, some,
  Among, ltb, ltb-false, ltb-false→le, ◌≤◌, Bool-cases, Option-cases, some_inj,
}
use pi_monitor.Prelude.Int.{ℤ, pos, ltb_ℤ, ◌-ℤ◌}
use pi_monitor.Prelude.Bytes.{Bytes}
use pi_monitor.Prelude.Maps.{lookup}
use pi_monitor.Rates.Defs.{Counters, Previous, Rate, rate_of, rates_from, rates}

or-false : (b d : Bool) → (b || d) ≡ false → (b ≡ false) × (d ≡ false)
or-false true d h = absurd cc
or-false false d h = (refl, h)

module _ {V : Type 0} (rate : ℕ → ℤ → V) (excluded : Bytes → Bool) where
  -- The rate of a device that is not excluded, from its reading before to `cur`, where neither counter
  -- went back; the differences are then exact.
  abbrev pub FromReadings : List (Bytes × Counters) → ℤ → Counters → Rate V → Type 0
  FromReadings prev elapsed cur r =
      (p : Counters) × (lookup r.name prev ≡ some p)
      × (excluded r.name ≡ false)
      × (p.first ≤ cur.first)
      × (p.second ≤ cur.second)
      × (r.first_per_sec ≡ rate (cur.first - p.first) elapsed)
      × (r.second_per_sec ≡ rate (cur.second - p.second) elapsed)

  -- The same, of a device of this reading, with an earlier reading at hand.
  abbrev pub IsRate : Previous → ℤ → List (Bytes × Counters) → Rate V → Type 0
  IsRate p now cur r =
      (prev : List (Bytes × Counters)) × (c : Counters) × (p.prev ≡ some prev)
      × (ltb_ℤ (pos 0) (now -ℤ p.prev_time) ≡ true)
      × Among (r.name, c) cur
      × FromReadings prev (now -ℤ p.prev_time) c r

  rate_of-FromReadings :
      (prev : List (Bytes × Counters)) (elapsed : ℤ) (name : Bytes) (cur : Counters) (r : Rate V)
      → rate_of rate excluded prev elapsed name cur ≡ some r
      → (r.name ≡ name) × FromReadings prev elapsed cur r
  unfolding rate_of
  rate_of-FromReadings prev elapsed name cur r h = elim (Bool-cases (excluded name)) [
    | inl e ↦ absurd (cc (rw (rate_of, e) at h))
    | inr e ↦ elim (Option-cases (lookup name prev)) [
      | inl l ↦ absurd (cc (rw (rate_of, e, l) at h))
      | inr (p, l) ↦ elim (Bool-cases (ltb cur.first p.first || ltb cur.second p.second)) [
        | inl b ↦ absurd (cc (rw (rate_of, e, l, b) at h))
        | inr b ↦
            let same = some_inj (rw (rate_of, e, l, b) at h) in
            let (f, g) = or-false (ltb cur.first p.first) (ltb cur.second p.second) b in
            rw (← same) (
              refl,
              (
                p,
                l,
                e,
                ltb-false→le cur.first p.first f,
                ltb-false→le cur.second p.second g,
                refl,
                refl,
              ),
            )
      ]
    ]
  ]

  FromReadings-rate_of :
      (prev : List (Bytes × Counters)) (elapsed : ℤ) (cur : Counters) (r : Rate V)
      → FromReadings prev elapsed cur r
      → rate_of rate excluded prev elapsed r.name cur ≡ some r
  unfolding rate_of
  FromReadings-rate_of prev elapsed cur r (p, l, e, f, g, d1, d2) =
      rw (rate_of, e, l, ltb-false cur.first p.first f, ltb-false cur.second p.second g)
        (λ i.
          some (record { name = r.name; first_per_sec = (sym d1) i; second_per_sec = (sym d2) i }))

  rates_from-FromReadings :
      (prev : List (Bytes × Counters)) (elapsed : ℤ) (cur : List (Bytes × Counters)) (r : Rate V)
      → Among r (rates_from rate excluded prev elapsed cur)
      → (c : Counters) × Among (r.name, c) cur × FromReadings prev elapsed c r
  unfolding rates_from
  rates_from-FromReadings prev elapsed [] r m = absurd m
  rates_from-FromReadings prev elapsed ((name, c) ∷ rest) r m =
      elim (Option-cases (rate_of rate excluded prev elapsed name c)) [
        | inl e ↦
            let (d, there, h) =
              rates_from-FromReadings prev elapsed rest r (rw (rates_from, e) at m) in
            (d, inr there, h)
        | inr (q, e) ↦ elim (rw (rates_from, e) at m) [
          | inl same ↦
              let (n, h) = rate_of-FromReadings prev elapsed name c r (e ∙ ap some (sym same)) in
              (c, inl (ap (λ k. (k, c)) n), h)
          | inr later ↦
              let (d, there, h) = rates_from-FromReadings prev elapsed rest r later in
              (d, inr there, h)
        ]
      ]

  FromReadings-rates_from :
      (prev : List (Bytes × Counters)) (elapsed : ℤ) (cur : List (Bytes × Counters)) (c : Counters)
      (r : Rate V)
      → FromReadings prev elapsed c r
      → Among (r.name, c) cur
      → Among r (rates_from rate excluded prev elapsed cur)
  unfolding rates_from
  FromReadings-rates_from prev elapsed [] c r h m = absurd m
  FromReadings-rates_from prev elapsed ((name, d) ∷ rest) c r h (inl same) =
      let here =
        ap (λ q. rate_of rate excluded prev elapsed q.0 q.1) (sym same)
        ∙ FromReadings-rate_of prev elapsed c r h in
      rw (rates_from, here) (inl refl)
  FromReadings-rates_from prev elapsed ((name, d) ∷ rest) c r h (inr later) =
      let there = FromReadings-rates_from prev elapsed rest c r h later in
      elim (Option-cases (rate_of rate excluded prev elapsed name d)) [
        | inl e ↦ rw (rates_from, e) there
        | inr (q, e) ↦ rw (rates_from, e) (inr there)
      ]

  -- A rate is reported exactly if it is that of a device of this reading which is not excluded, from
  -- an earlier reading of the same device, with the time between the two, neither counter having gone
  -- back: each counter's difference, which then does not wrap around, over that time.
  pub rates-FromReadings :
      (p : Previous) (now : ℤ) (cur : List (Bytes × Counters)) (r : Rate V)
      → Among r (rates rate excluded p now cur) ↔ IsRate p now cur r
  unfolding rates
  rates-FromReadings p now cur r = elim (Option-cases p.prev) [
    | inl e ↦ (λ m. absurd (rw (rates, e) at m), λ h. absurd (cc (sym e ∙ h.2)))
    | inr (prev, e) ↦ elim (Bool-cases (ltb_ℤ (pos 0) (now -ℤ p.prev_time))) [
      | inr t ↦ (λ m. absurd (rw (rates, e, t) at m), λ h. absurd (cc (sym t ∙ h.3)))
      | inl t ↦ (
        λ m.
            let (c, there, h) =
              rates_from-FromReadings prev (now -ℤ p.prev_time) cur r (rw (rates, e, t) at m) in
            (prev, c, e, t, there, h),
        λ h.
            let held = rw (some_inj (sym h.2 ∙ e)) at h.5 in
            rw (rates, e, t) (FromReadings-rates_from prev (now -ℤ p.prev_time) cur h.1 r held h.4),
      )
    ]
  ]
