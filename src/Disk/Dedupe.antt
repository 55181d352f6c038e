-- ===== src/Disk/Dedupe.antt =====
-- internal/collector/disk.go: `dedupeMounts` has each mount point once, in the order of its first
-- entry, and keeps its last entry.
use pi_monitor.Prelude.{
  ◌≡◌, refl, sym, ap, ◌∙◌, Bool, true, false, inl, inr, List, [], ◌∷◌, ◌++◌, append-nil,
  append_assoc, Option, none, some, if◌then◌else◌, Bool-cases, Option-cases, arith,
}
use pi_monitor.Prelude.Bytes.{Bytes, str_eq, str_eq_iff}
use pi_monitor.Prelude.Maps.{lookup, insert, lookup-insert}
use pi_monitor.Alert.Evaluate.{contains}
use pi_monitor.Disk.Mounts.{MountEntry, dedupe_from, dedupe_mounts}

-- The list less every occurrence of a text.
abbrev pub remove : Bytes → List Bytes → List Bytes
remove k [] = []
remove k (x ∷ xs) = if str_eq k x then remove k xs else x ∷ remove k xs

-- Each element once, where it stands first.
abbrev pub distinct : List Bytes → List Bytes
distinct [] = []
distinct (x ∷ xs) = x ∷ remove x (distinct xs)

abbrev pub mountpoints : List MountEntry → List Bytes
mountpoints [] = []
mountpoints (e ∷ entries) = e.mountpoint ∷ mountpoints entries

abbrev pub last_entry : Bytes → List MountEntry → Option MountEntry
last_entry k [] = none
last_entry k (e ∷ entries) = elim (last_entry k entries) [
  | some later ↦ some later
  | none ↦ if str_eq e.mountpoint k then some e else none
]

-- The elements that are no key of a map.
abbrev without : List (Bytes × MountEntry) → List Bytes → List Bytes
without m [] = []
without m (x ∷ xs) = elim (lookup x m) [ none ↦ x ∷ without m xs | some e ↦ without m xs ]

without_empty : (xs : List Bytes) → without [] xs ≡ xs
unfolding lookup
without_empty [] = refl
without_empty (x ∷ xs) = ap (◌∷◌ x) (without_empty xs)

without-insert :
    (k : Bytes) (e : MountEntry) (m : List (Bytes × MountEntry)) (xs : List Bytes)
    → without (insert k e m) xs ≡ without m (remove k xs)
without-insert k e m [] = refl
without-insert k e m (x ∷ xs) = elim (Bool-cases (str_eq k x)) [
  | inl h ↦ rw (without, lookup-insert, h) (without-insert k e m xs)
  | inr h ↦
      rw (without, lookup-insert, h)
        (ap (λ rest. elim (lookup x m) [ none ↦ x ∷ rest | some old ↦ rest ])
          (without-insert k e m xs))
]

dedupe_from-order :
    (entries : List MountEntry) (order : List Bytes) (m : List (Bytes × MountEntry))
    → ((dedupe_from entries (order, m)).0 ≡ order ++ without m (distinct (mountpoints entries)))
unfolding dedupe_from
dedupe_from-order [] order m = sym (append-nil order)
dedupe_from-order (e ∷ entries) order m =
    dedupe_from-order entries _ _
    ∙ rw (without-insert) (elim (Option-cases (lookup e.mountpoint m)) [
      | inl h ↦ rw (without, h) (append_assoc order _ _)
      | inr (old, h) ↦ rw (without, h) refl
    ])

by_test :
    (b : Bool) (e : MountEntry) (old : Option MountEntry)
    → (if b then some e else old)
      ≡ elim (if b then some e else none) [ some x ↦ some x | none ↦ old ]
by_test true e old = refl
by_test false e old = refl

or_none : (o : Option MountEntry) → elim o [ some x ↦ some x | none ↦ none ] ≡ o
or_none none = refl
or_none (some e) = refl

dedupe_from-lookup :
    (k : Bytes) (entries : List MountEntry) (order : List Bytes) (m : List (Bytes × MountEntry))
    → lookup k (dedupe_from entries (order, m)).1
      ≡ elim (last_entry k entries) [ some e ↦ some e | none ↦ lookup k m ]
unfolding dedupe_from
dedupe_from-lookup k [] order m = refl
dedupe_from-lookup k (e ∷ entries) order m =
    dedupe_from-lookup k entries _ _ ∙ elim (Option-cases (last_entry k entries)) [
      | inl h ↦ rw h (rw (lookup-insert) (by_test (str_eq e.mountpoint k) e (lookup k m)))
      | inr (later, h) ↦ rw h refl
    ]

-- `dedupeMounts` lists each mount point exactly once, in the order of the first entries, and gives
-- for every mount point the last entry that names it, and nothing for any other text.
pub dedupe_mounts_lem :
    (entries : List MountEntry)
    → ((dedupe_mounts entries).0 ≡ distinct (mountpoints entries))
      × ((k : Bytes) → lookup k (dedupe_mounts entries).1 ≡ last_entry k entries)
unfolding dedupe_mounts lookup
dedupe_mounts_lem entries = (
  dedupe_from-order entries [] [] ∙ without_empty _,
  λ k. dedupe_from-lookup k entries [] [] ∙ or_none (last_entry k entries),
)

contains-remove :
    (k x : Bytes) (xs : List Bytes)
    → str_eq k x ≡ false
    → contains xs x ≡ true
    → contains (remove k xs) x ≡ true
unfolding contains
contains-remove k x [] h c = c
contains-remove k x (y ∷ ys) h c = ground (
  arith,
  str_eq_iff k y,
  str_eq_iff y x,
  str_eq_iff k x,
  λ (d : contains ys x ≡ true). contains-remove k x ys h d,
)

-- The last entry of a mount point names it.
pub last_entry-mountpoint :
    (mp : Bytes) (entries : List MountEntry) (e : MountEntry)
    → last_entry mp entries ≡ some e
    → str_eq e.mountpoint mp ≡ true
last_entry-mountpoint mp [] e h = cc
last_entry-mountpoint mp (x ∷ entries) e h = elim (Option-cases (last_entry mp entries)) [
  | inr (later, l) ↦ last_entry-mountpoint mp entries e (l ∙ (rw l at h))
  | inl l ↦ elim (Bool-cases (str_eq x.mountpoint mp)) [
    | inl q ↦
        let same : x ≡ e = cc (rw (l, q) at h) in ap (λ y. str_eq y.mountpoint mp) (sym same) ∙ q
    | inr q ↦ absurd (cc (rw (l, q) at h))
  ]
]

-- A mount point with an entry is listed.
pub distinct-contains :
    (mp : Bytes) (entries : List MountEntry) (e : MountEntry)
    → last_entry mp entries ≡ some e
    → contains (distinct (mountpoints entries)) mp ≡ true
unfolding contains
distinct-contains mp [] e h = cc
distinct-contains mp (x ∷ entries) e h = elim (Bool-cases (str_eq x.mountpoint mp)) [
  | inl q ↦ rw q refl
  | inr q ↦ elim (Option-cases (last_entry mp entries)) [
    | inr (later, l) ↦
        rw q (contains-remove x.mountpoint mp _ q (distinct-contains mp entries later l))
    | inl l ↦ absurd (cc (rw (l, q) at h))
  ]
]
