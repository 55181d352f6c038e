-- ===== src/Alert/Tests.antt =====
-- Runs of the alert engine, and its theorems at concrete readings.
use mathlib.Core.List.{Perm}
use pi_monitor.Prelude.{
  ℕ, ◌≡◌, refl, List, [], ◌∷◌, ◌++◌, some, none, true, false, arith, last_n, length, ◌≤◌,
}
use pi_monitor.Prelude.Int.{pos, ◌-ℤ◌}
use pi_monitor.Prelude.Bytes.{codes, str_eq}
use pi_monitor.Prelude.Maps.{lookup, insert, delete}
use pi_monitor.Prelude.Whole.{whole_float}
use pi_monitor.Alert.Types.{
  ok, crit, fired, cleared, Thresholds, Sample, State, Event, MetricState, Engine,
}
use pi_monitor.Alert.Defs.{state_key, cpu, disk, eval_metric, held, state_or_fresh}
use pi_monitor.Alert.Evaluate.{evaluate, prune_disks, report, mountpoints}
use pi_monitor.Alert.Reporting.{ShowsAll, InOrder, report_lem}
use pi_monitor.Alert.Clocks.{Justified, reaches}
use pi_monitor.Alert.Debounce.{run, event-Justified}
use pi_monitor.Alert.Sustained.{sustained-crit, sustained-ok}
use pi_monitor.Alert.Events.{events-evaluate}
use pi_monitor.Alert.Prune.{prune_disks_lem, keep_present, cleared_events, is_stale}
use pi_monitor.Alert.Keys.{evaluate-fresh}

abbrev cutoffs : Thresholds ℕ
cutoffs = record {
  temperature_warn_c = 60;
  temperature_crit_c = 75;
  cpu_warn_percent = 80;
  cpu_crit_percent = 95;
  disk_warn_percent = 80;
  disk_crit_percent = 95;
  swap_warn_percent = 50;
  swap_crit_percent = 90;
  memory_warn_percent = 80;
  memory_crit_percent = 95;
}

-- A debounce window of 30, and no metric seen yet.
abbrev started : Engine ℕ
started = record {
  thresholds = cutoffs;
  for_dur = pos 30;
  max_events = 100;
  states = [];
  events = [];
}

abbrev fired_event : Event ℕ
fired_event = record {
  metric = cpu;
  resource = [];
  kind = fired;
  from = ok;
  to = crit;
  value = 99;
  at = pos 40;
}

fires :
    (eval_metric (run cpu [] 80 95 started ((pos 5, 97) ∷ [])) cpu [] 99 80 95 (pos 40)).1
    ≡ some fired_event
unfolding eval_metric run state_key lookup insert str_eq ◌-ℤ◌
fires = refl

-- A dip below the cutoff within the window starts it anew.
spike :
    (eval_metric
      (run cpu [] 80 95 started ((pos 20, 10) ∷ (pos 5, 97) ∷ []))
      cpu
      []
      99
      80
      95
      (pos 40)).1
    ≡ none
unfolding eval_metric run state_key lookup insert str_eq ◌-ℤ◌
spike = refl

event-Justified_example :
    Justified
      (pos 30)
      (pos 40)
      (reaches {V = ℕ} 80)
      (reaches 95)
      ((pos 40, 99) ∷ (pos 5, 97) ∷ [])
      ok
      crit
unfolding lookup
event-Justified_example =
    event-Justified cpu [] 80 95 started (pos 40) 99 ((pos 5, 97) ∷ []) fired_event refl fires

sustained-crit_example :
    (st : MetricState ℕ) × (lookup
        (state_key cpu [])
        (run cpu [] 80 95 started ((pos 40, 99) ∷ (pos 5, 97) ∷ [])).states
      ≡ some st)
    × (st.active ≡ crit)
unfolding lookup held ◌-ℤ◌ state_or_fresh
sustained-crit_example =
    sustained-crit cpu [] 80 95 started (pos 40) 99 ((pos 5, 97) ∷ []) refl (refl, (refl, tt)) refl

abbrev hot : MetricState ℕ
hot = record {
  metric = disk;
  resource = codes "/usb";
  active = crit;
  active_since = pos 1;
  last_value = 99;
  warn_above = true;
  warn_since = pos 1;
  crit_above = true;
  crit_since = pos 1;
  initialized = true;
}

-- An engine with a critical filesystem.
abbrev alerting : Engine ℕ
alerting = record started { states = (codes "disk\0/usb", hot) ∷ [] }

sustained-ok_example :
    (st : MetricState ℕ) × (lookup
        (state_key disk (codes "/usb"))
        (run disk (codes "/usb") 80 95 alerting ((pos 90, 20) ∷ (pos 50, 30) ∷ [])).states
      ≡ some st)
    × (st.active ≡ ok)
unfolding lookup held ◌-ℤ◌ state_key str_eq state_or_fresh
sustained-ok_example =
    sustained-ok disk (codes "/usb") 80 95 alerting (pos 90) 20 ((pos 50, 30) ∷ []) refl refl refl
      (refl, (refl, tt)) refl

-- A sample without the filesystem.
abbrev unplugged : Sample ℕ
unplugged = record {
  timestamp = pos 60;
  cpu_percent = 10;
  cpu_valid = true;
  temperature_c = 50;
  temperature_valid = true;
  memory_percent = 20;
  memory_valid = true;
  swap_percent = 0;
  swap_valid = false;
  disks = [];
  disks_valid = true;
}

abbrev cleared_event : Event ℕ
cleared_event = record {
  metric = disk;
  resource = codes "/usb";
  kind = cleared;
  from = crit;
  to = ok;
  value = 99;
  at = pos 60;
}

clears : (evaluate alerting unplugged).1 ≡ cleared_event ∷ []
unfolding evaluate eval_metric state_key lookup insert str_eq ◌-ℤ◌ delete
clears = refl

events-evaluate_example :
    ((evaluate alerting unplugged).0.events ≡ last_n 100 ([] ++ (evaluate alerting unplugged).1))
    × ((evaluate alerting unplugged).0.max_events ≡ 100)
    × (length (evaluate alerting unplugged).0.events ≤ (evaluate alerting unplugged).0.max_events)
events-evaluate_example = events-evaluate alerting unplugged (omega arith)

prune_disks_lem_example :
    (lookup (codes "disk\0/usb") (prune_disks alerting [] (pos 60)).0.states
      ≡ keep_present [] (lookup (codes "disk\0/usb") alerting.states))
    × ((prune_disks alerting [] (pos 60)).1 ≡ cleared_events [] (pos 60) alerting.states)
unfolding lookup
prune_disks_lem_example = prune_disks_lem alerting [] (pos 60) (codes "disk\0/usb") (refl, tt)

abbrev plugged : Sample ℕ
plugged = record unplugged { disks = record { mountpoint = codes "/usb"; used_percent = 70 } ∷ [] }

abbrev cooling : MetricState ℕ
cooling = record hot {
  last_value = 70;
  warn_above = false;
  warn_since = pos 60;
  crit_above = false;
  crit_since = pos 60;
}

-- The filesystem that is present keeps its state.
evaluate-fresh_example : is_stale (mountpoints plugged.disks) cooling ≡ false
unfolding lookup evaluate eval_metric state_key insert str_eq ◌-ℤ◌ delete
evaluate-fresh_example =
    evaluate-fresh alerting plugged (codes "disk\0/usb") cooling (refl, tt) refl refl

report_lem_example :
    (shown : List (State ℕ)) × ShowsAll shown alerting.states
    × Perm (report alerting).states shown
    × InOrder (report alerting).states
    × ((report alerting).events ≡ [])
    × ((report alerting).enabled ≡ true)
report_lem_example = report_lem alerting
