-- ===== src/Config/Load.antt =====
-- internal/config/config.go: `load`. Flag parsing and the YAML file are the caller's parameters.
use pi_monitor.Prelude.{Bool, true, false, ◌⊎◌, inl, inr, Option, none, some, if◌then◌else◌}
use pi_monitor.Prelude.Bytes.{Bytes}
use pi_monitor.Prelude.Arith.{Arith}
use pi_monitor.Config.Types.{Config, default_config}
use pi_monitor.Config.Validate.{ConfigError, validate, is_empty}

-- What `flag.FlagSet` makes of the arguments; a flag not given is empty.
pub record Flags : Type 0 where
  pub config_path : Bytes
  pub listen : Bytes
  pub log_level : Bytes
  pub api_key : Bytes
  pub version : Bool

pub record Result (V : Type 0) : Type 0 where
  pub config : Config V
  pub version_requested : Bool

pub data LoadError : Type 0 where
  bad_flags bad_file : LoadError
  invalid : ConfigError → LoadError

-- The outcome, and whether `PIMONITOR_API_KEY` was taken out of the environment.
pub record Loaded (V : Type 0) : Type 0 where
  pub outcome : LoadError ⊎ Result V
  pub unset_env : Bool

-- A value that is not empty replaces another.
abbrev pub override : Bytes → Bytes → Bytes
override new old = if is_empty new then old else new

abbrev pub is_set : Option Bytes → Bool
is_set none = false
is_set (some v) = true

module _ {V : Type 0} where
  unfoldable pub apply_env : Option Bytes → Config V → Config V
  apply_env none c = c
  apply_env (some v) c = record c { api_key = override v c.api_key }

  unfoldable pub apply_flags : Flags → Config V → Config V
  apply_flags f c = record c {
    listen_addr = override f.listen c.listen_addr;
    log_level = override f.log_level c.log_level;
    api_key = override f.api_key c.api_key;
  }

module _ {V : Type 0} ⦃a : Arith V⦄ where
  -- After the flags have been applied.
  unfoldable pub conclude : Flags → Config V → LoadError ⊎ Result V
  conclude f c =
      if f.version
      then inr (record { config = c; version_requested = true })
      else elim (validate c) [
        | some e ↦ inl (invalid e)
        | none ↦ inr (record { config = c; version_requested = false })
      ]

  -- `load_yaml` reads and merges the file, `none` where that fails; `env` is the variable's value.
  unfoldable pub load_file : (Bytes → Config V → Option (Config V)) → Flags → Option (Config V)
  load_file load_yaml f =
      if is_empty f.config_path then some default_config else load_yaml f.config_path default_config

  unfoldable pub load :
      (Bytes → Config V → Option (Config V)) → Option Flags → Option Bytes → Loaded V
  load load_yaml none env = record { outcome = inl bad_flags; unset_env = false }
  load load_yaml (some f) env = elim (load_file load_yaml f) [
    | none ↦ record { outcome = inl bad_file; unset_env = false }
    | some c ↦ record {
      outcome = conclude f (apply_flags f (apply_env env c));
      unset_env = is_set env;
    }
  ]
