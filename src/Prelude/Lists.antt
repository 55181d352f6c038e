-- ===== src/Prelude/Lists.antt =====
-- Lists measured and indexed by native numbers, under the library's names: Go's slices.
use Prim.Native.Nat.{ℕ, zero, suc, ◌+◌, ◌-◌, ◌≤◌, ◌<◌, min}
use mathlib.Core.Path.{◌≡◌, refl, sym, ◌∙◌, ap}
use mathlib.Core.List.{List, [], ◌∷◌, ◌++◌}
use mathlib.Core.Option.{Option, none, some}
use mathlib.Core.Logic.{◌⊎◌, inl, inr}
use native.Mathlib.Omega.{arith}
use pi_monitor.Prelude.Tests.{ltb, if◌then◌else◌, Bool-cases}
use native.Mathlib.Nat.{add-zero, suc-add}

module _ {ℓ} {A : Type ℓ} where
  abbrev pub length : List A → ℕ
  length [] = 0
  length (x ∷ xs) = suc (length xs)

  abbrev pub get_elem? : List A → ℕ → Option A
  get_elem? [] i = none
  get_elem? (x ∷ xs) zero = some x
  get_elem? (x ∷ xs) (suc i) = get_elem? xs i

  -- A write out of bounds changes nothing.
  abbrev pub set : List A → ℕ → A → List A
  set [] i v = []
  set (x ∷ xs) zero v = v ∷ xs
  set (x ∷ xs) (suc i) v = x ∷ set xs i v

  abbrev pub take : ℕ → List A → List A
  take zero xs = []
  take (suc n) [] = []
  take (suc n) (x ∷ xs) = x ∷ take n xs

  abbrev pub drop : ℕ → List A → List A
  drop zero xs = xs
  drop (suc n) [] = []
  drop (suc n) (x ∷ xs) = drop n xs

  abbrev pub replicate : ℕ → A → List A
  replicate zero a = []
  replicate (suc n) a = a ∷ replicate n a

  abbrev pub get_last? : List A → Option A
  get_last? [] = none
  get_last? (x ∷ []) = some x
  get_last? (x ∷ y ∷ xs) = get_last? (y ∷ xs)

  -- A predicate of every entry.
  abbrev pub All {κ} : (A → Type κ) → List A → Type κ
  All P [] = Unit
  All P (x ∷ xs) = P x × All P xs

-- An entry of the list.
abbrev pub Among : {A : Type 0} → A → List A → Type 0
Among x [] = ⊥
Among x (y ∷ ys) = (x ≡ y) ⊎ Among x ys

module _ {ℓ} {A : Type ℓ} where
  pub length-append : (xs ys : List A) → length (xs ++ ys) ≡ length xs + length ys
  length-append [] ys = omega arith
  length-append (x ∷ xs) ys = omega (arith, length-append xs ys)

  pub length-set : (xs : List A) (i : ℕ) (v : A) → length (set xs i v) ≡ length xs
  length-set [] i v = refl
  length-set (x ∷ xs) zero v = refl
  length-set (x ∷ xs) (suc i) v = ap suc (length-set xs i v)

  pub length-take : (n : ℕ) (xs : List A) → length (take n xs) ≡ min n (length xs)
  length-take zero xs = omega arith
  length-take (suc n) [] = omega arith
  length-take (suc n) (x ∷ xs) = omega (arith, length-take n xs)

  pub length-drop : (n : ℕ) (xs : List A) → length (drop n xs) ≡ length xs - n
  length-drop zero xs = omega arith
  length-drop (suc n) [] = omega arith
  length-drop (suc n) (x ∷ xs) = omega (arith, length-drop n xs)

  pub length-replicate : (n : ℕ) (a : A) → length (replicate n a) ≡ n
  length-replicate zero a = refl
  length-replicate (suc n) a = ap suc (length-replicate n a)

  -- The entry written is the last of the prefix that ends with it.
  pub take-set :
      (xs : List A) (i : ℕ) (v : A)
      → i < length xs
      → take (suc i) (set xs i v) ≡ take i xs ++ v ∷ []
  take-set [] i v h = absurd (omega arith)
  take-set (x ∷ xs) zero v h = refl
  take-set (x ∷ xs) (suc i) v h = ap (◌∷◌ x) (take-set xs i v (omega arith))

  pub drop-set : (xs : List A) (i : ℕ) (v : A) → drop (suc i) (set xs i v) ≡ drop (suc i) xs
  drop-set [] i v = refl
  drop-set (x ∷ xs) zero v = refl
  drop-set (x ∷ xs) (suc i) v = drop-set xs i v

  pub take-all : (n : ℕ) (xs : List A) → length xs ≤ n → take n xs ≡ xs
  take-all zero [] h = refl
  take-all zero (x ∷ xs) h = absurd (omega arith)
  take-all (suc n) [] h = refl
  take-all (suc n) (x ∷ xs) h = ap (◌∷◌ x) (take-all n xs (omega arith))

  pub drop-all : (n : ℕ) (xs : List A) → length xs ≤ n → drop n xs ≡ []
  drop-all zero [] h = refl
  drop-all zero (x ∷ xs) h = absurd (omega arith)
  drop-all (suc n) [] h = refl
  drop-all (suc n) (x ∷ xs) h = drop-all n xs (omega arith)

  -- Dropping one more where something is left.
  pub drop_one-append :
      (i : ℕ) (xs ys : List A) → i < length xs → drop 1 (drop i xs ++ ys) ≡ drop (suc i) xs ++ ys
  drop_one-append i [] ys h = absurd (omega arith)
  drop_one-append zero (x ∷ xs) ys h = refl
  drop_one-append (suc i) (x ∷ xs) ys h = drop_one-append i xs ys (omega arith)

  pub take-append : (xs ys : List A) → take (length xs) (xs ++ ys) ≡ xs
  take-append [] ys = refl
  take-append (x ∷ xs) ys = ap (◌∷◌ x) (take-append xs ys)

  pub drop-append : (xs ys : List A) → drop (length xs) (xs ++ ys) ≡ ys
  drop-append [] ys = refl
  drop-append (x ∷ xs) ys = drop-append xs ys

  pub get_last?-append_one : (xs : List A) (v : A) → get_last? (xs ++ v ∷ []) ≡ some v
  get_last?-append_one [] v = refl
  get_last?-append_one (x ∷ []) v = refl
  get_last?-append_one (x ∷ y ∷ xs) v = get_last?-append_one (y ∷ xs) v

  pub All-append {κ} : (P : A → Type κ) (xs ys : List A) → All P xs → All P ys → All P (xs ++ ys)
  All-append P [] ys hx hy = hy
  All-append P (x ∷ xs) ys hx hy = (hx.0, All-append P xs ys hx.1 hy)

  pub drop-drop : (j k : ℕ) (xs : List A) → drop j (drop k xs) ≡ drop (k + j) xs
  drop-drop j zero xs = ap (λ i. drop i xs) (omega arith)
  drop-drop zero (suc k) [] = rw add-zero
  drop-drop (suc j) (suc k) [] = rw suc-add
  drop-drop j (suc k) (x ∷ xs) = rw suc-add (drop-drop j k xs)

  pub drop-append_le :
      (k : ℕ) (xs ys : List A) → k ≤ length xs → drop k (xs ++ ys) ≡ drop k xs ++ ys
  drop-append_le zero xs ys h = refl
  drop-append_le (suc k) [] ys h = absurd (omega arith)
  drop-append_le (suc k) (x ∷ xs) ys h = drop-append_le k xs ys (omega arith)

  -- The newest `n` entries of a list.
  abbrev pub last_n : ℕ → List A → List A
  last_n n xs = drop (length xs - n) xs

  -- Forgetting early what is forgotten later makes no difference.
  pub last_n-append : (n : ℕ) (xs ys : List A) → last_n n (last_n n xs ++ ys) ≡ last_n n (xs ++ ys)
  last_n-append n xs ys =
      rw (← drop-append_le (length xs - n) xs ys (omega arith), drop-drop)
        (ap (λ k. drop k (xs ++ ys)) count)
    where
      count : length xs - n + (length (drop (length xs - n) (xs ++ ys)) - n) ≡ length (xs ++ ys) - n
      count = omega (arith, length-drop (length xs - n) (xs ++ ys), length-append xs ys)

  pub get_elem?-lt : (xs : List A) (i : ℕ) → i < length xs → (v : A) × (get_elem? xs i ≡ some v)
  get_elem?-lt [] i h = absurd (omega arith)
  get_elem?-lt (x ∷ xs) zero h = (x, refl)
  get_elem?-lt (x ∷ xs) (suc i) h = get_elem?-lt xs i (omega arith)

  pub get_last?-take :
      (xs : List A) (i : ℕ) → i < length xs → get_last? (take (suc i) xs) ≡ get_elem? xs i
  get_last?-take [] i h = absurd (omega arith)
  get_last?-take (x ∷ xs) zero h = refl
  get_last?-take (x ∷ []) (suc i) h = absurd (omega arith)
  get_last?-take (x ∷ y ∷ xs) (suc i) h = get_last?-take (y ∷ xs) i (omega arith)

  pub get_last?-append :
      (xs ys : List A) {v : A} → get_last? ys ≡ some v → get_last? (xs ++ ys) ≡ some v
  get_last?-append [] ys e = e
  get_last?-append (x ∷ []) [] e = cc
  get_last?-append (x ∷ []) (y ∷ ys) e = e
  get_last?-append (x ∷ z ∷ xs) ys e = get_last?-append (z ∷ xs) ys e

  pub drop_none : (k : ℕ) (xs : List A) → k ≡ 0 → drop k xs ≡ xs
  drop_none k xs e = ap (λ i. drop i xs) e

  -- The last entry of what ends with a prefix of `ys`.
  pub get_last?-append_take :
      (xs ys : List A) (n : ℕ)
      → 0 < n
      → n ≤ length ys
      → get_last? (xs ++ take n ys) ≡ get_elem? ys (n - 1)
  get_last?-append_take xs ys zero p h = absurd (omega arith)
  get_last?-append_take xs ys (suc m) p h =
      let (v, e) = get_elem?-lt ys m h in
      let at : suc m - 1 ≡ m = omega arith in
      get_last?-append xs (take (suc m) ys) (get_last?-take ys m h ∙ e)
      ∙ sym (ap (get_elem? ys) at ∙ e)

  -- The code's guarded slice keeps the newest `n` entries.
  pub trim_lem :
      (n : ℕ) (xs : List A)
      → (if ltb n (length xs) then drop (length xs - n) xs else xs) ≡ last_n n xs
  trim_lem n xs = elim (Bool-cases (ltb n (length xs))) [
    | inl e ↦ rw e
    | inr e ↦ rw e (sym (drop_none (length xs - n) xs (ground arith)))
  ]

  pub length-last_n : (n : ℕ) (xs : List A) → length (last_n n xs) ≤ n
  length-last_n n xs = omega (arith, length-drop (length xs - n) xs)
