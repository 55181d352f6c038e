-- ===== src/Http/Encoding.antt =====
-- internal/httpapi/middleware.go: which responses `withGzip` compresses. strconv's ParseFloat is the
-- parameter `parse_float`, and `is_zero` the comparison with 0; letters are those of ASCII.
use pi_monitor.Prelude.{
  ℕ, ◌+◌, ◌≡◌, refl, Bool, false, not, ◌&&◌, inl, inr, List, [], ◌∷◌, map, Option, none, some, leb,
  if◌then◌else◌, Bool-cases,
}
use pi_monitor.Prelude.Bytes.{Bytes, codes, str_eq}
use pi_monitor.Prelude.Text.{trim_space, split, cut}

-- `strings.ToLower`.
abbrev pub to_lower : Bytes → Bytes
to_lower s = map (λ c. if leb 65 c && leb c 90 then c + 32 else c) s

-- What stands before a separator and what follows; without the separator nothing follows.
abbrev pub cut_or_all : ℕ → Bytes → Bytes × Bytes
cut_or_all sep s = elim (cut sep s) [ none ↦ (s, []) | some parts ↦ parts ]

unfoldable pub coding_of : Bytes → Bytes
coding_of part = to_lower (trim_space (cut_or_all b';' (trim_space part)).0)

abbrev pub params_of : Bytes → Bytes
params_of part = (cut_or_all b';' (trim_space part)).1

abbrev pub is_gzip : Bytes → Bool
is_gzip part = str_eq (coding_of part) (codes "gzip")

abbrev pub is_wildcard : Bytes → Bool
is_wildcard part = str_eq (coding_of part) (codes "*")

-- The first of some answers and the last, where there is one.
unfoldable pub first_or : Bool → List Bool → Bool
first_or d [] = d
first_or d (x ∷ xs) = x

unfoldable pub last_or : Bool → List Bool → Bool
last_or d [] = d
last_or d (x ∷ xs) = last_or x xs

module _ {F : Type 0} (parse_float : Bytes → Option F) (is_zero : F → Bool) where
  unfoldable pub quality_from : List Bytes → Bool
  quality_from [] = false
  quality_from (p ∷ ps) =
      let rest = quality_from ps in
      elim (cut b'=' p) [
        | none ↦ rest
        | some (k, v) ↦
            if str_eq (to_lower (trim_space k)) (codes "q")
            then elim (parse_float (trim_space v)) [ none ↦ false | some q ↦ is_zero q ]
            else rest
      ]

  unfoldable pub quality_is_zero : Bytes → Bool
  unfolding quality_from
  quality_is_zero params = quality_from (split b';' params)

  abbrev pub accepted : Bytes → Bool
  accepted part = not (quality_is_zero (params_of part))

  unfoldable pub accept_parts : List Bytes → Bool → Bool
  accept_parts [] wildcard = wildcard
  accept_parts (part ∷ parts) wildcard =
      let starred = accept_parts parts (accepted part) in
      let rest = accept_parts parts wildcard in
      if is_gzip part then accepted part else if is_wildcard part then starred else rest

  unfoldable pub accepts_gzip : Bytes → Bool
  unfolding accept_parts
  accepts_gzip header = accept_parts (split b',' header) false

  -- Of the entries that a test selects, whether each accepts its coding.
  unfoldable pub answers : (Bytes → Bool) → List Bytes → List Bool
  answers test [] = []
  answers test (part ∷ parts) =
      let rest = answers test parts in if test part then accepted part ∷ rest else rest

  accept_parts_lem :
      (parts : List Bytes) (wildcard : Bool)
      → accept_parts parts wildcard
        ≡ first_or (last_or wildcard (answers is_wildcard parts)) (answers is_gzip parts)
  unfolding accept_parts answers first_or last_or
  accept_parts_lem [] wildcard = refl
  accept_parts_lem (part ∷ parts) wildcard = elim (Bool-cases (is_gzip part)) [
    | inl g ↦ rw g refl
    | inr g ↦ rw g (elim (Bool-cases (is_wildcard part)) [
      | inl w ↦ rw w (accept_parts_lem parts (accepted part))
      | inr w ↦ rw w (accept_parts_lem parts wildcard)
    ])
  ]

  -- For every Accept-Encoding header, the first entry for gzip decides whether the response is
  -- compressed, wherever it stands; only without one does the last entry for any coding decide; and
  -- with neither the response is not compressed.
  pub accepts_gzip_lem :
      (header : Bytes)
      → let parts = split b',' header in
        accepts_gzip header
        ≡ first_or (last_or false (answers is_wildcard parts)) (answers is_gzip parts)
  unfolding accepts_gzip
  accepts_gzip_lem header = accept_parts_lem (split b',' header) false
