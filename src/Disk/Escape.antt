-- ===== src/Disk/Escape.antt =====
-- internal/collector/disk.go: `unescapeMountField` undoes the escapes of proc(5).
use pi_monitor.Prelude.{
  ℕ, ◌≡◌, refl, sym, ap, ◌∙◌, false, inl, inr, [], ◌∷◌, ◌++◌, none, ◌==◌, if◌then◌else◌, Bool-cases,
  ==_iff,
}
use pi_monitor.Prelude.Bytes.{Bytes, codes}
use pi_monitor.Disk.Mounts.{
  escape_at, mount_field_escape, unescape_from, has_backslash, unescape_mount_field,
}

-- What the kernel writes for one byte: space, tab, newline and backslash as three octal digits.
abbrev pub escape_byte : ℕ → Bytes
escape_byte c =
    if c == 32
    then codes "\\040"
    else if c == 9
    then codes "\\011"
    else if c == 10
    then codes "\\012"
    else if c == 92
    then codes "\\134"
    else c ∷ []

abbrev pub escape : Bytes → Bytes
escape [] = []
escape (c ∷ s) = escape_byte c ++ escape s

plain_byte : (c d e f : ℕ) → (c == 92) ≡ false → escape_at c d e f ≡ none
unfolding escape_at
plain_byte c d e f h = rw h refl

unescape_plain :
    (c : ℕ) (s : Bytes) → (c == 92) ≡ false → unescape_from (c ∷ s) ≡ c ∷ unescape_from s
unfolding unescape_from
unescape_plain c [] h = refl
unescape_plain c (d ∷ []) h = refl
unescape_plain c (d ∷ e ∷ []) h = refl
unescape_plain c (d ∷ e ∷ f ∷ s) h = rw (unescape_from, plain_byte c d e f h) refl

no_backslash : (s : Bytes) → has_backslash s ≡ false → unescape_from s ≡ s
unfolding unescape_from
no_backslash [] h = refl
no_backslash (c ∷ s) h = elim (Bool-cases (c == 92)) [
  | inl e ↦ absurd (cc (rw e at h))
  | inr e ↦ unescape_plain c s e ∙ ap (◌∷◌ c) (no_backslash s (rw e at h))
]

-- The text without a backslash is no special case.
unescape_from_lem : (s : Bytes) → unescape_mount_field s ≡ unescape_from s
unfolding unescape_mount_field
unescape_from_lem s = elim (Bool-cases (has_backslash s)) [
  | inl e ↦ rw e
  | inr e ↦ rw e (sym (no_backslash s e))
]

escaped_space : (s : Bytes) → unescape_from (codes "\\040" ++ s) ≡ 32 ∷ unescape_from s
unfolding unescape_from escape_at mount_field_escape
escaped_space s = refl

escaped_tab : (s : Bytes) → unescape_from (codes "\\011" ++ s) ≡ 9 ∷ unescape_from s
unfolding unescape_from escape_at mount_field_escape
escaped_tab s = refl

escaped_newline : (s : Bytes) → unescape_from (codes "\\012" ++ s) ≡ 10 ∷ unescape_from s
unfolding unescape_from escape_at mount_field_escape
escaped_newline s = refl

escaped_backslash : (s : Bytes) → unescape_from (codes "\\134" ++ s) ≡ 92 ∷ unescape_from s
unfolding unescape_from escape_at mount_field_escape
escaped_backslash s = refl

unescape_step : (c : ℕ) (s : Bytes) → unescape_from (escape_byte c ++ s) ≡ c ∷ unescape_from s
unescape_step c s = elim (Bool-cases (c == 32)) [
  | inl e ↦ rw ((==_iff c 32).0 e) (escaped_space s)
  | inr e ↦ rw e (elim (Bool-cases (c == 9)) [
    | inl e ↦ rw ((==_iff c 9).0 e) (escaped_tab s)
    | inr e ↦ rw e (elim (Bool-cases (c == 10)) [
      | inl e ↦ rw ((==_iff c 10).0 e) (escaped_newline s)
      | inr e ↦ rw e (elim (Bool-cases (c == 92)) [
        | inl e ↦ rw ((==_iff c 92).0 e) (escaped_backslash s)
        | inr e ↦ rw e (unescape_plain c s e)
      ])
    ])
  ])
]

escape_from : (s : Bytes) → unescape_from (escape s) ≡ s
unfolding unescape_from
escape_from [] = refl
escape_from (c ∷ s) = unescape_step c (escape s) ∙ ap (◌∷◌ c) (escape_from s)

-- Whatever bytes a device, a mount point or a type has, `unescapeMountField` of what the kernel writes
-- for it, with space, tab, newline and backslash escaped, is the name itself.
pub unescape_mount_field-escape : (s : Bytes) → unescape_mount_field (escape s) ≡ s
unescape_mount_field-escape s = unescape_from_lem (escape s) ∙ escape_from s
