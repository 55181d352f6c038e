-- ===== src/Config/Precedence.antt =====
-- internal/config/config.go: which source of a configuration wins in `load`.
use pi_monitor.Prelude.{
  ◌≡◌, refl, sym, ap, ◌∙◌, true, [], ◌∷◌, Option, none, some, ◌⊎◌, inl, inr, Bool-cases,
  Option-cases,
}
use pi_monitor.Prelude.Bytes.{Bytes, str_eq}
use pi_monitor.Prelude.Arith.{Arith}
use pi_monitor.Config.Types.{Config}
use pi_monitor.Config.Validate.{validate}
use pi_monitor.Config.Load.{
  Flags, Result, is_set, override, apply_env, apply_flags, conclude, load_file, load,
}

inr_inj : {A B : Type 0} (x y : B) → Path (A ⊎ B) (inr x) (inr y) → x ≡ y
inr_inj x y h = cc

-- The key by precedence: the flag, the environment, the file.
abbrev pub key_of : Bytes → Option Bytes → Bytes → Bytes
key_of (c ∷ cs) env file = c ∷ cs
key_of [] (some (c ∷ cs)) file = c ∷ cs
key_of [] (some []) file = file
key_of [] none file = file

module _ {V : Type 0} ⦃a : Arith V⦄ where
  conclude-result :
      (f : Flags) (c : Config V) (r : Result V)
      → conclude f c ≡ inr r
      → (r.config ≡ c)
        × (r.version_requested ≡ f.version)
        × ((r.version_requested ≡ true) ⊎ (validate r.config ≡ none))
  unfolding conclude
  conclude-result f c r h = elim (Bool-cases f.version) [
    | inl v ↦
        let e = inr_inj _ _ (rw (conclude, v) at h) in
        (
          ap (λ q. q.config) (sym e),
          ap (λ q. q.version_requested) (sym e) ∙ sym v,
          inl (ap (λ q. q.version_requested) (sym e)),
        )
    | inr v ↦ elim (Option-cases (validate c)) [
      | inl n ↦
          let e = inr_inj _ _ (rw (conclude, v, n) at h) in
          (
            ap (λ q. q.config) (sym e),
            ap (λ q. q.version_requested) (sym e) ∙ sym v,
            inr (ap (λ q. validate q.config) (sym e) ∙ n),
          )
      | inr (x, n) ↦ absurd (cc (rw (conclude, v, n) at h))
    ]
  ]

  key_of_lem :
      (f : Flags) (env : Option Bytes) (c : Config V)
      → (apply_flags f (apply_env env c)).api_key ≡ key_of f.api_key env c.api_key
  unfolding apply_flags apply_env str_eq
  key_of_lem f env c = by_key f.api_key env
    where
      by_key :
          (k : Bytes) (v : Option Bytes) → override k (apply_env v c).api_key ≡ key_of k v c.api_key
      by_key (x ∷ xs) v = refl
      by_key [] none = refl
      by_key [] (some []) = refl
      by_key [] (some (x ∷ xs)) = refl

  -- The outcome of `load` with flags that parse: a file that cannot be read is an error; otherwise the
  -- API key is the flag's, where that is not empty, or else the environment's, where that is not
  -- empty, or else the file's; and a configuration is returned to run with only if it is valid.
  -- The variable is taken out of the environment exactly where it is set and the file was read.
  pub load-precedence :
      (load_yaml : Bytes → Config V → Option (Config V)) (f : Flags) (env : Option Bytes)
      (r : Result V)
      → (load load_yaml (some f) env).outcome ≡ inr r
      → (c : Config V) × (load_file load_yaml f ≡ some c)
        × (r.config ≡ apply_flags f (apply_env env c))
        × (r.config.api_key ≡ key_of f.api_key env c.api_key)
        × (r.version_requested ≡ f.version)
        × ((r.version_requested ≡ true) ⊎ (validate r.config ≡ none))
        × ((load load_yaml (some f) env).unset_env ≡ is_set env)
  unfolding load conclude
  load-precedence load_yaml f env r h = elim (Option-cases (load_file load_yaml f)) [
    | inl e ↦ absurd (cc (rw (load, e) at h))
    | inr (c, e) ↦
        let q = conclude-result f (apply_flags f (apply_env env c)) r (rw (load, e) at h) in
        (c, e, q.0, ap (λ d. d.api_key) (q.0) ∙ key_of_lem f env c, q.1, q.2, rw (load, e))
  ]
