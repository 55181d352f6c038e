-- ===== src/Run/Tests.antt =====
-- A run of the collector with a history file, and the theorems at it.
use pi_monitor.Prelude.{
  ℕ, ◌≤◌, ◌<◌, ◌≡◌, refl, Bool, true, false, [], ◌∷◌, none, some, All, length, ◌==◌, arith,
  if◌then◌else◌,
}
use pi_monitor.Prelude.Int.{pos}
use pi_monitor.Prelude.Bytes.{codes}
use pi_monitor.Prelude.Float.{Float}
use pi_monitor.Alert.Types.{warn, Thresholds, Engine}
use pi_monitor.Notify.Types.{Webhook, WebhookWorker}
use pi_monitor.Ring.Inv.{new_ring_buffer-IsValid}
use pi_monitor.Prelude.Sort.{sort}
use pi_monitor.Persist.Types.{
  History, empty_history, history_series_list, append_map, short_keys, points_at,
}
use pi_monitor.Persist.Encode.{FloatBits, encode_history}
use pi_monitor.Persist.Series.{SeriesFits}
use pi_monitor.Collector.Store.{new_collector, no_point, history}
use pi_monitor.Collector.Since.{ScalarsChronological}
use pi_monitor.Collector.Record.{TickSamples}
use pi_monitor.Run.Write.{
  Calls, Folder, write_file_atomic, write_temp, give_up, IsAtomic, write_file_atomic-IsAtomic,
}
use pi_monitor.Run.State.{FastTickSamples, Settings, Service}
use pi_monitor.Run.Ticks.{fast_tick, slow_tick, persist_history, end_write, load_history}
use pi_monitor.Run.Steps.{Steps, here, next, fast, slow, written}
use pi_monitor.Run.Sound.{IsSound, Steps-IsSound}
use pi_monitor.Run.Restore.{Reloaded, load_history-Reloaded}

-- A percentage is 0 or 100.
data Load : Type 0 where
  idle full : Load

abbrev bits_of : Load → ℕ
bits_of idle = 0
bits_of full = 4636737291354636288

abbrev load_of : ℕ → Load
load_of n = if n == 0 then idle else full

bits_of_lt : (r : Load) → bits_of r < 18446744073709551616
bits_of_lt idle = omega arith
bits_of_lt full = omega arith

load_of-bits_of : (r : Load) → load_of (bits_of r) ≡ r
load_of-bits_of idle = refl
load_of-bits_of full = refl

instance abbrev load_bits : FloatBits Load
load_bits = record {
  to_bits = bits_of;
  from_bits = load_of;
  to_bits_lt = bits_of_lt;
  from_bits-to_bits = load_of-bits_of;
}

abbrev reaches : Load → Load → Bool
reaches idle full = false
reaches idle idle = true
reaches full b = true

reaches_trans : (a b c : Load) → reaches a b ≡ true → reaches b c ≡ true → reaches a c ≡ true
reaches_trans full b c h k = refl
reaches_trans idle idle c h k = k
reaches_trans idle full c h k = absurd cc

instance abbrev load_float : Float Load
load_float = record { zero = idle; geb = reaches; geb_trans = reaches_trans }

-- The disk is full in the middle of the write.
abbrev no_space : Calls
no_space = record {
  mkdir = true;
  create = true;
  write = false;
  partial = 2;
  sync = true;
  close = true;
  rename = true;
  remove = true;
}

abbrev works : Calls
works = record no_space { write = true }

abbrev old_file : Folder
old_file = record { target = some (codes "old"); temp = none }

failed_write : write_file_atomic no_space (codes "new") old_file ≡ (
  record old_file { temp = some [] } ∷ record old_file { temp = some (codes "ne") } ∷ [],
  old_file,
  false,
)
unfolding write_file_atomic write_temp give_up
failed_write = refl

write_file_atomic-IsAtomic_example :
    IsAtomic (codes "new") old_file (write_file_atomic no_space (codes "new") old_file)
write_file_atomic-IsAtomic_example = write_file_atomic-IsAtomic no_space (codes "new") old_file

abbrev cutoffs : Thresholds Load
cutoffs = record {
  temperature_warn_c = full;
  temperature_crit_c = full;
  cpu_warn_percent = full;
  cpu_crit_percent = full;
  disk_warn_percent = full;
  disk_crit_percent = full;
  swap_warn_percent = full;
  swap_crit_percent = full;
  memory_warn_percent = full;
  memory_crit_percent = full;
}

abbrev engine : Engine Load
engine = record {
  thresholds = cutoffs;
  for_dur = pos 0;
  max_events = 100;
  states = [];
  events = [];
}

abbrev hook : Webhook ℕ
hook = record {
  url = codes "http://ha.local/hook";
  min_level = warn;
  tmpl = none;
  timeout = pos 1;
  content_type = [];
}

abbrev worker : WebhookWorker ℕ Load
worker = record { wh = hook; queue = []; last_sent = [] }

abbrev tick : TickSamples Load
tick = record {
  now = pos 1700000000000000000;
  overall_percent = full;
  load1 = idle;
  load5 = idle;
  load15 = idle;
  celsius = idle;
  mem_used_percent = idle;
  swap_used_percent = idle;
  disks = [];
  disk_io = [];
  net_ifaces = [];
}

abbrev reading : FastTickSamples Load ℕ
reading = record {
  samples = tick;
  cpu_failed = false;
  temp_failed = true;
  mem_failed = false;
  disk_failed = false;
  other = 9;
}

abbrev settings : Settings
settings = record { persists = true; history_window = pos 60000000000; processes_enabled = true }

abbrev started : Service ℕ Load ℕ ℕ ℕ
started = record {
  collector = new_collector (pos 2) (pos 5000000000);
  alerts = some engine;
  notifier = some (worker ∷ []);
  latest = record { samples = tick; temperature_valid = false; other = 0; updates = 0 };
  latest_processes = 0;
  folder = old_file;
  writing = none;
}

abbrev ticked : Service ℕ Load ℕ ℕ ℕ
ticked = fast_tick reading started

abbrev flushed : Service ℕ Load ℕ ℕ ℕ
flushed = persist_history settings (slow_tick settings none (some 3) ticked)

abbrev saved : Service ℕ Load ℕ ℕ ℕ
saved = end_write works flushed.writing flushed

saving : Steps settings started saved
saving =
    next (next (next here (fast started reading)) (slow ticked none (some 3)))
      (written flushed works)

started-IsSound : IsSound started
unfolding new_collector
started-IsSound =
    let valid = new_ring_buffer-IsValid no_point (pos 2) in
    (
      (valid, valid, valid, valid, valid, valid, valid),
      (tt, tt, tt, tt, tt),
      (omega arith, tt),
      (omega arith, tt),
    )

Steps-IsSound_example : IsSound saved
Steps-IsSound_example = Steps-IsSound started-IsSound saving

abbrev past : History Load
past = record empty_history {
  cpu_percent =
      record { timestamp = pos 1700000000123456789; value = idle }
      ∷ record { timestamp = pos 1700000065123456789; value = full }
      ∷ [];
}

past_few : length (history_series_list past) ≤ 4096
unfolding history_series_list append_map short_keys sort
past_few = omega arith

past_fits : All SeriesFits (history_series_list past)
unfolding history_series_list append_map short_keys points_at sort
past_fits = ground arith

abbrev restarted : Service ℕ Load ℕ ℕ ℕ
restarted = record started { folder = record { target = some (encode_history past); temp = none } }

past_Chronological : ScalarsChronological past
past_Chronological = ground arith

load_history-Reloaded_example :
    Reloaded
      (pos 60000000000)
      (pos 1700000070000000000)
      restarted.collector
      past
      (history (load_history settings true (pos 1700000070000000000) restarted).collector)
load_history-Reloaded_example =
    load_history-Reloaded settings (pos 1700000070000000000) restarted past refl refl past_few
      past_fits past_Chronological (started-IsSound.0)
