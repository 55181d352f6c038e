-- ===== src/Http/Prometheus.antt =====
-- internal/httpapi/prometheus.go: `writeMetric` and `escapeLabelValue`. strconv's FormatFloat is the
-- parameter `format_float`.
use pi_monitor.Prelude.{
  ℕ, ◌≡◌, refl, ap, ◌∙◌, Bool, false, ◌||◌, inl, inr, [], ◌∷◌, ◌++◌, append_assoc, Option, none,
  some, ◌==◌, ==_iff, if◌then◌else◌, Bool-cases,
}
use pi_monitor.Prelude.Bytes.{Bytes, codes, str_eq}

-- `labelValueReplacer` on one byte: 92 is the backslash, 34 the quotation mark.
abbrev pub escape_label_byte : ℕ → Bytes
escape_label_byte c =
    if c == 92
    then 92 ∷ 92 ∷ []
    else if c == 34
    then 92 ∷ 34 ∷ []
    else if c == 10
    then 92 ∷ b'n' ∷ []
    else c ∷ []

unfoldable pub escape_label_value : Bytes → Bytes
escape_label_value [] = []
escape_label_value (c ∷ s) = escape_label_byte c ++ escape_label_value s

unfoldable pub write_metric : {V : Type 0} → (V → Bytes) → Bytes → Bytes → Bytes → V → Bytes
write_metric format_float name label_name label_value value =
    if str_eq label_name []
    then name ++ codes " " ++ format_float value ++ 10 ∷ []
    else name
      ++ codes "{"
      ++ label_name
      ++ codes "=\""
      ++ escape_label_value label_value
      ++ codes "\"} "
      ++ format_float value
      ++ 10 ∷ []

abbrev before : ℕ → Option (Bytes × Bytes) → Option (Bytes × Bytes)
before c none = none
before c (some (value, rest)) = some (c ∷ value, rest)

-- The three escapes of the text format.
abbrev unescaped : ℕ → Option ℕ
unescaped d =
    if d == 92 then some 92 else if d == 34 then some 34 else if d == b'n' then some 10 else none

abbrev before_escape : Option ℕ → Option (Bytes × Bytes) → Option (Bytes × Bytes)
before_escape none r = none
before_escape (some c) r = before c r

-- How the text format is read behind the opening quotation mark: the value, up to the first quotation
-- mark that is not escaped, and what follows. A line that ends inside the quotation is malformed, and
-- so is a backslash before any byte but a backslash, a quotation mark or an n.
unfoldable pub read_label_value : Bytes → Option (Bytes × Bytes)
read_label_value [] = none
read_label_value (c ∷ []) = if c == 34 then some ([], []) else none
read_label_value (c ∷ d ∷ s) =
    let skipped = read_label_value s in
    let next = read_label_value (d ∷ s) in
    if c == 34
    then some ([], d ∷ s)
    else if c == 92
    then before_escape (unescaped d) skipped
    else if c == 10
    then none
    else before c next

read_plain :
    (c : ℕ) (s value rest : Bytes)
    → (c == 34) ≡ false
    → (c == 92) ≡ false
    → (c == 10) ≡ false
    → read_label_value s ≡ some (value, rest)
    → read_label_value (c ∷ s) ≡ some (c ∷ value, rest)
unfolding read_label_value
read_plain c [] value rest q b n h = absurd (cc h)
read_plain c (d ∷ s) value rest q b n h = rw (read_label_value, q, b, n) (ap (before c) h)

read_escaped :
    (d c : ℕ) (s value rest : Bytes)
    → unescaped d ≡ some c
    → read_label_value s ≡ some (value, rest)
    → read_label_value (92 ∷ d ∷ s) ≡ some (c ∷ value, rest)
unfolding read_label_value
read_escaped d c s value rest e h =
    ap (λ o. before_escape o (read_label_value s)) e ∙ ap (before c) h

read_step :
    (c : ℕ) (s value rest : Bytes)
    → read_label_value s ≡ some (value, rest)
    → read_label_value (escape_label_byte c ++ s) ≡ some (c ∷ value, rest)
read_step c s value rest h = elim (Bool-cases (c == 92)) [
  | inl e ↦ rw ((==_iff c 92).0 e) (read_escaped 92 92 s value rest refl h)
  | inr b ↦ rw b (elim (Bool-cases (c == 34)) [
    | inl e ↦ rw ((==_iff c 34).0 e) (read_escaped 34 34 s value rest refl h)
    | inr q ↦ rw q (elim (Bool-cases (c == 10)) [
      | inl e ↦ rw ((==_iff c 10).0 e) (read_escaped b'n' 10 s value rest refl h)
      | inr n ↦ rw n (read_plain c s value rest q b n h)
    ])
  ])
]

-- A byte that stands in a text.
abbrev pub has_byte : ℕ → Bytes → Bool
has_byte b [] = false
has_byte b (c ∷ s) = c == b || has_byte b s

read_all : (s rest : Bytes) → read_label_value (escape_label_value s ++ 34 ∷ rest) ≡ some (s, rest)
unfolding escape_label_value
read_all [] rest = closing rest
  where
    closing : (t : Bytes) → read_label_value (34 ∷ t) ≡ some ([], t)
    closing [] = unfold read_label_value in refl
    closing (d ∷ t) = unfold read_label_value in refl
read_all (c ∷ s) rest =
    ap read_label_value (append_assoc (escape_label_byte c) (escape_label_value s) (34 ∷ rest))
    ∙ read_step c _ s rest (read_all s rest)

one_line_byte :
    (c : ℕ) (s : Bytes) → has_byte 10 s ≡ false → has_byte 10 (escape_label_byte c ++ s) ≡ false
one_line_byte c s h = elim (Bool-cases (c == 92)) [
  | inl e ↦ rw e h
  | inr b ↦ rw b (elim (Bool-cases (c == 34)) [
    | inl e ↦ rw e h
    | inr q ↦ rw q (elim (Bool-cases (c == 10)) [ inl e ↦ rw e h | inr n ↦ rw (n, n) h ])
  ])
]

one_line : (s : Bytes) → has_byte 10 (escape_label_value s) ≡ false
unfolding escape_label_value
one_line [] = refl
one_line (c ∷ s) = one_line_byte c (escape_label_value s) (one_line s)

-- Whatever bytes a label value has, what is written for it between quotation marks reads back as that
-- value, by the escapes of the text format, and ends at the closing mark; and it holds no newline.
pub read_label_value-escape_label_value :
    (s rest : Bytes)
    → (read_label_value (escape_label_value s ++ 34 ∷ rest) ≡ some (s, rest))
      × (has_byte 10 (escape_label_value s) ≡ false)
read_label_value-escape_label_value s rest = (read_all s rest, one_line s)
