-- ===== src/Config/Nan.antt =====
-- internal/config/config.go: what `Validate` lets through.
use pi_monitor.Prelude.{◌≡◌, refl, Bool, true, false, ◌&&◌, Option, none}
use pi_monitor.Prelude.Arith.{Arith}
use pi_monitor.Config.Types.{Config, capacity_ratio}
use pi_monitor.Config.Validate.{
  ConfigError, ◌or_else◌, reject, validate_timing, validate_server, validate,
}
use pi_monitor.Config.Laws.{or_else-none}

none-or_else : (e f : Option ConfigError) → e ≡ none → f ≡ none → e or_else f ≡ none
unfolding ◌or_else◌
none-or_else e f h k = rw h k

not-reject : (b : Bool) (e : ConfigError) → b ≡ false → reject b e ≡ none
unfolding reject
not-reject b e h = rw h

and-false : (b : Bool) → (b && false) ≡ false
and-false true = refl
and-false false = refl

module _ {V : Type 0} ⦃a : Arith V⦄ where
  validate_timing-nan :
      (c : Config V)
      → validate_timing c ≡ none
      → validate_timing (record c { poll_interval_seconds = a.nan }) ≡ none
  unfolding validate_timing capacity_ratio
  validate_timing-nan c h =
      let (t1, g1) = or_else-none _ _ h in
      let (t2, g2) = or_else-none _ _ g1 in
      let (t3, g3) = or_else-none _ _ g2 in
      let (t4, t5) = or_else-none _ _ g3 in
      let m = a.times c.history_window_minutes (a.number 60) in
      none-or_else _ _ (not-reject _ _ (a.nan-le (a.number 0))) (
        none-or_else _ _ t2 (
          none-or_else _ _ t3 (
            none-or_else _ _ t4
              (not-reject _ _ (rw (a.over-nan m) (a.lt-nan (a.number 1000000)))))))

  validate_server-nan :
      (c : Config V)
      → validate_server c ≡ none
      → validate_server (record c { poll_interval_seconds = a.nan }) ≡ none
  unfolding validate_server
  validate_server-nan c h =
      let (s1, k1) = or_else-none _ _ h in
      let (s2, k2) = or_else-none _ _ k1 in
      let (s3, k3) = or_else-none _ _ k2 in
      let (s4, k4) = or_else-none _ _ k3 in
      let (s5, s6) = or_else-none _ _ k4 in
      let positive = a.lt (a.number 0) c.healthz_max_staleness_seconds in
      none-or_else _ _ s1 (
        none-or_else _ _ s2 (
          none-or_else _ _ s3 (
            none-or_else _ _ s4 (
              none-or_else _ _ s5 (
                not-reject _ _
                  (rw (a.lt-nan c.healthz_max_staleness_seconds) (and-false positive)))))))

  -- A poll interval that is not a number passes: where a configuration is valid, so is the same
  -- configuration with that poll interval.
  pub validate-nan :
      (c : Config V)
      → validate c ≡ none
      → validate (record c { poll_interval_seconds = a.nan }) ≡ none
  unfolding validate
  validate-nan c h =
      let (e1, h1) = or_else-none (validate_timing c) _ h in
      let (e2, h2) = or_else-none (validate_server c) _ h1 in
      none-or_else _ _ (validate_timing-nan c e1) (none-or_else _ _ (validate_server-nan c e2) h2)
