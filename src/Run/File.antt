-- ===== src/Run/File.antt =====
-- internal/collector/persist.go: what the history file holds, and what a restart restores from it.
use pi_monitor.Prelude.{◌≡◌, ◌⊎◌, Option, none, some}
use pi_monitor.Prelude.Bytes.{Bytes}
use pi_monitor.Prelude.Float.{Float}
use pi_monitor.Persist.Encode.{FloatBits, encode_history}
use pi_monitor.Collector.Store.{history}
use pi_monitor.Run.State.{Settings, Service}
use pi_monitor.Run.Steps.{Steps}

module _ {T V X U P : Type 0} ⦃f : Float V⦄ ⦃b : FloatBits V⦄ (settings : Settings)
    (start : Service T V X U P) where
  -- The encoding of the history that the service has at some moment of the run so far.
  abbrev pub IsPast : Option Bytes → Type 0
  IsPast content =
      (u : Service T V X U P) × Steps settings start u
      × (content ≡ some (encode_history (history u.collector)))

  abbrev pub FileSound : Service T V X U P → Type 0
  FileSound s =
      ((s.folder.target ≡ start.folder.target) ⊎ IsPast s.folder.target)
      × ((s.writing ≡ none) ⊎ IsPast s.writing)

  -- The two services agree in the file and in the write.
  abbrev SameFile : Service T V X U P → Service T V X U P → Type 0
  SameFile s u = (s.folder.target ≡ u.folder.target) × (s.writing ≡ u.writing)
