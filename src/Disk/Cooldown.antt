-- ===== src/Disk/Cooldown.antt =====
-- internal/collector/disk.go: a mount that is on cooldown is not asked again.
use pi_monitor.Prelude.{
  ℕ, ◌≡◌, refl, sym, ap, ◌∙◌, true, false, inl, inr, List, [], ◌∷◌, Option, none, some, Bool-cases,
  Option-cases,
}
use pi_monitor.Prelude.Int.{ℤ, ltb_ℤ, ◌+ℤ◌}
use pi_monitor.Prelude.Bytes.{Bytes, str_eq, str_eq_sound, str_eq_refl}
use pi_monitor.Prelude.Maps.{lookup, delete, lookup-insert, lookup-delete}
use pi_monitor.Prelude.Float.{Float}
use pi_monitor.Disk.Mounts.{MountEntry, parse_mounts, dedupe_mounts, excluded_types, is_member}
use pi_monitor.Disk.Collect.{
  StatResult, stats, failed, timed_out, BadUntil, mark_bad, stat_disk, collect_disk, collect_entry,
  collect_order, collect,
}

-- The calls agree on every path but `mp`.
abbrev pub SameElsewhere : Bytes → (Bytes → StatResult) → (Bytes → StatResult) → Type 0
SameElsewhere mp s t = (p : Bytes) → str_eq p mp ≡ false → s p ≡ t p

-- A mount point is on cooldown until a time after `now`.
abbrev pub Held : Bytes → ℤ → ℤ → BadUntil → Type 0
Held mp now until bad = (lookup mp bad ≡ some until) × (ltb_ℤ now until ≡ true)

str_eq-Held :
    (a b : Bytes) (now until : ℤ) (bad : BadUntil)
    → str_eq a b ≡ true
    → Held b now until bad
    → Held a now until bad
str_eq-Held a b now until bad q h = rw (str_eq_sound a b q) h

module _ {V : Type 0} ⦃f : Float V⦄ (percent : ℕ → ℕ → V) (cooldown : ℤ) where
  pub stat_disk-other :
      (e : MountEntry) (now : ℤ) (mp : Bytes) (bad : BadUntil) (r : StatResult)
      → str_eq e.mountpoint mp ≡ false
      → lookup mp (stat_disk percent cooldown e now bad r).0 ≡ lookup mp bad
  unfolding stat_disk mark_bad
  stat_disk-other e now mp bad (stats buf) h = refl
  stat_disk-other e now mp bad failed h = refl
  stat_disk-other e now mp bad timed_out h = rw (lookup-insert, h) refl

  pub collect_disk-other :
      (s : Bytes → StatResult) (e : MountEntry) (now : ℤ) (mp : Bytes) (bad : BadUntil)
      → str_eq e.mountpoint mp ≡ false
      → lookup mp (collect_disk percent cooldown s e now bad).0 ≡ lookup mp bad
  unfolding collect_disk
  collect_disk-other s e now mp bad h = elim (Option-cases (lookup e.mountpoint bad)) [
    | inl n ↦ rw (collect_disk, n) (stat_disk-other e now mp bad (s e.mountpoint) h)
    | inr (until, l) ↦ elim (Bool-cases (ltb_ℤ now until)) [
      | inl b ↦ rw (collect_disk, l, b) refl
      | inr b ↦
          rw (collect_disk, l, b)
            (stat_disk-other e now mp (delete e.mountpoint bad) (s e.mountpoint) h
              ∙ rw (lookup-delete, h) refl)
    ]
  ]

  -- A mount on cooldown is skipped.
  collect_disk-Held :
      (s : Bytes → StatResult) (e : MountEntry) (now until : ℤ) (bad : BadUntil)
      → Held e.mountpoint now until bad
      → collect_disk percent cooldown s e now bad ≡ (bad, none)
  unfolding collect_disk
  collect_disk-Held s e now until bad h = rw (collect_disk, h.0, h.1) refl

  collect_disk_same :
      (s t : Bytes → StatResult) (e : MountEntry) (now : ℤ) (bad : BadUntil)
      → s e.mountpoint ≡ t e.mountpoint
      → collect_disk percent cooldown s e now bad ≡ collect_disk percent cooldown t e now bad
  unfolding collect_disk
  collect_disk_same s t e now bad h = ap (λ r. collect_disk percent cooldown (λ p. r) e now bad) h

  collect_disk-SameElsewhere :
      (s t : Bytes → StatResult) (e : MountEntry) (mp : Bytes) (now until : ℤ) (bad : BadUntil)
      → SameElsewhere mp s t
      → Held mp now until bad
      → (collect_disk percent cooldown s e now bad ≡ collect_disk percent cooldown t e now bad)
        × (lookup mp (collect_disk percent cooldown s e now bad).0 ≡ some until)
  collect_disk-SameElsewhere s t e mp now until bad same h =
      elim (Bool-cases (str_eq e.mountpoint mp)) [
        | inl q ↦
            let held = str_eq-Held e.mountpoint mp now until bad q h in
            (
              collect_disk-Held s e now until bad held
                  ∙ sym (collect_disk-Held t e now until bad held),
              ap (λ p. lookup mp p.0) (collect_disk-Held s e now until bad held) ∙ h.0,
            )
        | inr q ↦ (
          collect_disk_same s t e now bad (same e.mountpoint q),
          collect_disk-other s e now mp bad q ∙ h.0,
        )
      ]

  pub collect_entry-SameElsewhere :
      (s t : Bytes → StatResult) (o : Option MountEntry) (mp : Bytes) (now until : ℤ)
      (bad : BadUntil)
      → SameElsewhere mp s t
      → Held mp now until bad
      → (collect_entry percent cooldown s o now bad ≡ collect_entry percent cooldown t o now bad)
        × (lookup mp (collect_entry percent cooldown s o now bad).0 ≡ some until)
  unfolding collect_entry
  collect_entry-SameElsewhere s t none mp now until bad same h = (refl, h.0)
  collect_entry-SameElsewhere s t (some e) mp now until bad same h =
      elim (Bool-cases (is_member excluded_types e.fstype)) [
        | inl x ↦ rw x (refl, h.0)
        | inr x ↦ rw x (collect_disk-SameElsewhere s t e mp now until bad same h)
      ]

  pub collect_order-SameElsewhere :
      (s t : Bytes → StatResult) (by_mountpoint : List (Bytes × MountEntry)) (mp : Bytes)
      (now until : ℤ) (order : List Bytes) (bad : BadUntil)
      → SameElsewhere mp s t
      → Held mp now until bad
      → collect_order percent cooldown s by_mountpoint now order bad
        ≡ collect_order percent cooldown t by_mountpoint now order bad
  unfolding collect_order
  collect_order-SameElsewhere s t by_mountpoint mp now until [] bad same h = refl
  collect_order-SameElsewhere s t by_mountpoint mp now until (p ∷ order) bad same h =
      let here = collect_entry-SameElsewhere s t (lookup p by_mountpoint) mp now until bad same h in
      let there = collect_entry percent cooldown t (lookup p by_mountpoint) now bad in
      let held = ap (λ r. lookup mp r.0) (sym (here.0)) ∙ here.1 in
      rw (here.0) (
        rw
          (collect_order-SameElsewhere s t by_mountpoint mp now until order there.0 same
            (held, h.1))
          refl)

  -- While a mount point is on cooldown, `Collect` does not depend on what statfs answers for it, even
  -- when it hangs.
  pub collect-SameElsewhere :
      (s t : Bytes → StatResult) (text : Option Bytes) (mp : Bytes) (now until : ℤ) (bad : BadUntil)
      → SameElsewhere mp s t
      → Held mp now until bad
      → collect percent cooldown s text now bad ≡ collect percent cooldown t text now bad
  unfolding collect
  collect-SameElsewhere s t none mp now until bad same h = refl
  collect-SameElsewhere s t (some text) mp now until bad same h =
      elim (Option-cases (parse_mounts text)) [
        | inl e ↦ rw (collect, e) refl
        | inr (entries, e) ↦
            rw (collect, e)
              (rw
                (collect_order-SameElsewhere s t (dedupe_mounts entries).1 mp now until
                  (dedupe_mounts entries).0 bad same h)
                refl)
      ]

  pub mark_lem :
      (s : Bytes → StatResult) (e : MountEntry) (now : ℤ) (bad : BadUntil)
      → s e.mountpoint ≡ timed_out
      → lookup e.mountpoint bad ≡ none
      → lookup e.mountpoint (collect_disk percent cooldown s e now bad).0 ≡ some (now +ℤ cooldown)
  unfolding collect_disk stat_disk mark_bad
  mark_lem s e now bad h n = rw (collect_disk, n, h) (rw (lookup-insert, str_eq_refl) refl)
