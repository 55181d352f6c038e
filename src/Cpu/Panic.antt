-- ===== src/Cpu/Panic.antt =====
-- internal/collector/cpu.go: `parseProcStat` asks for eight fields and reads nine.
use pi_monitor.Prelude.{
  ℕ, zero, suc, ◌≡◌, ◌<◌, ◌≤◌, ◌↔◌, ◌⊎◌, ap, sym, ◌∙◌, refl, Bool, true, false, not, ◌||◌, inl, inr,
  List, [], ◌∷◌, Option, none, some, length, ltb, All, Bool-cases, Option-cases, arith,
}
use pi_monitor.Prelude.Bytes.{Bytes, codes}
use pi_monitor.Prelude.Text.{has_prefix, fields, split, parse_uint}
use pi_monitor.Cpu.Stat.{
  CpuStatLine, Parsed, done, wrong, panics, prepend, values, line_of, line_of_fields, stat_line,
  stat_lines, add_line, not_empty, parse_proc_stat,
}

abbrev pub is_number : Bytes → Bool
is_number s = elim (parse_uint s) [ none ↦ false | some v ↦ true ]

-- Only numbers.
abbrev pub Numbers : List Bytes → Type 0
Numbers fs = All (λ s. is_number s ≡ true) fs

prepend-panics : {A : Type 0} (x : A) (p : Parsed (List A)) → prepend x p ≡ panics → p ≡ panics
prepend-panics x (done xs) h = cc
prepend-panics x wrong h = cc
prepend-panics x panics h = refl

values-panics : (n : ℕ) (fs : List Bytes) → values n fs ≡ panics → (length fs < n) × Numbers fs
unfolding values
values-panics zero fs h = absurd (cc h)
values-panics (suc n) [] h = (omega arith, tt)
values-panics (suc n) (s ∷ fs) h = elim (Option-cases (parse_uint s)) [
  | inl e ↦ absurd (cc (rw (values, e) at h))
  | inr (v, e) ↦
      let rest = values-panics n fs (prepend-panics v (values n fs) (rw (values, e) at h)) in
      (omega (arith, rest.0), (rw (is_number, e) refl, rest.1))
]

panics-values : (n : ℕ) (fs : List Bytes) → length fs < n → Numbers fs → values n fs ≡ panics
unfolding values
panics-values zero fs l h = absurd (omega (arith, l))
panics-values (suc n) [] l h = refl
panics-values (suc n) (s ∷ fs) l h = elim (Option-cases (parse_uint s)) [
  | inl e ↦ absurd (cc (rw (is_number, e) at h.0))
  | inr (v, e) ↦ rw (values, e) (rw (panics-values n fs (omega (arith, l)) h.1) refl)
]

-- A line of exactly eight fields: a name that begins with cpu, and seven numbers.
abbrev pub EightFields : Bytes → Type 0
EightFields raw =
    (name : Bytes) × (rest : List Bytes) × (fields raw ≡ name ∷ rest)
    × (length rest ≡ 7)
    × (has_prefix name (codes "cpu") ≡ true)
    × Numbers rest

line_of-panics : (name : Bytes) (p : Parsed (List ℕ)) → line_of name p ≡ panics → p ≡ panics
line_of-panics name (done vals) h = cc
line_of-panics name wrong h = cc
line_of-panics name panics h = refl

-- What `line_of_fields` looks at, with its two tests taken as they turn out.
too_short : (n : ℕ) (p : Bool) → (ltb (suc n) 8 || not p) ≡ false → (7 ≤ n) × (p ≡ true)
too_short n true h = ground arith
too_short n false h = ground arith

long_enough : (n : ℕ) (p : Bool) → n ≡ 7 → p ≡ true → (ltb (suc n) 8 || not p) ≡ false
long_enough n p e h = rw (e, h) refl

line-EightFields :
    (raw : Bytes) (fs : List Bytes) → fields raw ≡ fs → line_of_fields fs ≡ panics → EightFields raw
line-EightFields raw [] e h = absurd (cc h)
line-EightFields raw (name ∷ rest) e h =
    elim (Bool-cases (ltb (length (name ∷ rest)) 8 || not (has_prefix name (codes "cpu")))) [
      | inl t ↦ absurd (cc (rw (line_of_fields, t) at h))
      | inr t ↦
          let (many, prefix) = too_short (length rest) _ t in
          let (few, numbers) =
            values-panics 8 rest
              (line_of-panics name (values 8 rest) (rw (line_of_fields, t) at h)) in
          (name, rest, e, omega (arith, few, many), prefix, numbers)
    ]

EightFields-line : (raw : Bytes) → EightFields raw → stat_line raw ≡ panics
unfolding stat_line
EightFields-line raw (name, rest, e, seven, prefix, numbers) =
    ap line_of_fields e
    ∙ rw (line_of_fields, long_enough (length rest) _ seven prefix)
        (rw (panics-values 8 rest (omega (arith, seven)) numbers) refl)

-- The parser reaches a line of eight fields: every line before it is skipped or read.
abbrev pub Crashes : List Bytes → Type 0
Crashes [] = ⊥
Crashes (raw ∷ raws) =
    EightFields raw ⊎ ((line : Option CpuStatLine) × (stat_line raw ≡ done line) × Crashes raws)

add_line-panics :
    (line : Option CpuStatLine) (p : Parsed (List CpuStatLine))
    → (add_line line p ≡ panics) ↔ (p ≡ panics)
add_line-panics none p = (λ h. h, λ h. h)
add_line-panics (some l) p = (prepend-panics l p, λ h. rw h refl)

Parsed-cases : {A : Type 0} (p : Parsed A) → ((x : A) × (p ≡ done x)) ⊎ ((p ≡ wrong) ⊎ (p ≡ panics))
Parsed-cases (done x) = inl (x, refl)
Parsed-cases wrong = inr (inl refl)
Parsed-cases panics = inr (inr refl)

not_empty-panics : (p : Parsed (List CpuStatLine)) → not_empty p ≡ panics → p ≡ panics
not_empty-panics (done []) h = cc
not_empty-panics (done (l ∷ ls)) h = cc
not_empty-panics wrong h = cc
not_empty-panics panics h = refl

done_panics : {A : Type 0} {x : A} → done x ≡ panics → ⊥
done_panics h = cc

stat_lines-panics : (raws : List Bytes) → (stat_lines raws ≡ panics) ↔ Crashes raws
unfolding stat_lines
stat_lines-panics [] = (λ h. absurd (cc h), λ h. absurd h)
stat_lines-panics (raw ∷ raws) = elim (Parsed-cases (stat_line raw)) [
  | inl (line, e) ↦
      let after = add_line-panics line (stat_lines raws) in
      let rest = stat_lines-panics raws in
      (
        λ h. inr (line, e, rest.0 (after.0 (rw (stat_lines, e) at h))),
        λ c.
            rw (stat_lines, e)
              (after.1 (elim c [
                | inl eight ↦ absurd (done_panics (sym e ∙ EightFields-line raw eight))
                | inr (l, d, crash) ↦ rest.1 crash
              ])),
      )
  | inr (inl e) ↦ (
    λ h. absurd (cc (rw (stat_lines, e) at h)),
    λ c. elim c [
      | inl eight ↦ absurd (cc (sym e ∙ EightFields-line raw eight))
      | inr (l, d, crash) ↦ absurd (cc (sym e ∙ d))
    ],
  )
  | inr (inr e) ↦ (
    λ h. inl (line-EightFields raw (fields raw) refl (unfold stat_line in e)),
    λ c. rw (stat_lines, e) refl,
  )
]

-- parseProcStat panics exactly where it reaches a line of eight fields whose first begins with cpu and
-- whose other seven are numbers, all lines before it being skipped or read; on any other text it returns.
pub parse_proc_stat_iff : (text : Bytes) → (parse_proc_stat text ≡ panics) ↔ Crashes (split 10 text)
unfolding parse_proc_stat
parse_proc_stat_iff text = (
  λ h. (stat_lines-panics (split 10 text)).0 (not_empty-panics (stat_lines (split 10 text)) h),
  λ c. ap not_empty ((stat_lines-panics (split 10 text)).1 c),
)
