-- ===== src/Lib.antt =====
-- PiMonitor: a daemon that samples the host's metrics, keeps a rolling history of each, raises alerts
-- on thresholds, delivers these to webhooks, and serves all of it over HTTP.
--
-- The collector (internal/collector/collector.go) takes a sample of every metric on each tick. It adds
-- one point to each metric's ring buffer (internal/collector/ringbuffer.go), evicts the buffers of
-- devices that are gone, hands the sample to the alert engine (internal/alert/alert.go), and passes
-- the transition events that come back to the notifier (internal/alert/notify.go), which queues them
-- for one worker per webhook. Its history is written to a file now and then and restored from it at
-- startup (internal/collector/persist.go). The configuration (internal/config/config.go) sets the
-- cutoffs, capacities and intervals of all these.
--
-- The files, with the code that each models:
--   Ring, Ring/*            ringbuffer.go: `add`, `fill`, `snapshot`, `newest` on the state
--                           `RingBuffer`; Inv has its invariant, Contents, Refine and
--                           Newest relate it to a list.
--   Alert, Alert/*          alert.go: `update_threshold_state`, `next_level`, `eval_metric` and
--                           `record_event` in Defs, `evaluate`, `prune_disks` and `report` in
--                           Evaluate, on the state `Engine`; one file per property.
--   Notify, Notify/*        notify.go: `new_notifier` and the event view in Types, `deliver` with
--                           `post` and `retryable` in Deliver, `notify` and `dispatch` in Dispatch.
--   Persist, Persist/*      persist.go: `encode_history` in Encode, `decode_history` with its sticky
--                           decoder in Decode, and the series list and its inverse in Types.
--   Collector, Collector/*  collector.go: `drop_prefix` in Search, the state `Collector` in Store,
--                           `record_tick` and `evict_stale_series` in Record, `since` and the
--                           restoring `import_history` (persist.go) in Import.
--   Config, Config/*        config.go: the record and its durations in Types, `validate`, `load`.
--   Run, Run/*              collector.go and persist.go: `fast_tick`, `slow_tick`, `persist_history`,
--                           `end_write` and `load_history` in Ticks, on the state `Service` of State;
--                           `write_file_atomic` call by call in Write; `Run` and the goroutines beside
--                           it as the relation `Step` in Steps; Sound, File and Restore on its runs.
--   Http, Http/*            httpapi/middleware.go, serverstats.go and handlers.go: the guards and
--                           counters in Guard, the cached history in Cache; routes.go: the table
--                           of routes and `serve_all` in Routes, its counters over a run of
--                           requests in Counted, Tally and Tallied; prometheus.go:
--                           `escape_label_value` and `write_metric` in Prometheus; `accepts_gzip` in Encoding.
--   Rates, Rates/*          network.go, diskio.go, throttled.go: rates of counters, and flags.
--   Disk, Disk/*            disk.go: `parse_mounts` and `dedupe_mounts` in Mounts, `collect` with the
--                           cooldown of mounts that hang, and `disk_usage`, in Collect; Ticks
--                           follows a cooldown over a sequence of ticks.
--   Cpu, Cpu/*              cpu.go: `parse_proc_stat` in Stat, `collect_cpu` and `core_count` in Usage.
--   Memory, Memory/*        memory.go: `parse_meminfo` and `mem_and_swap_from_fields`.
--   Process, Process/*      process.go: the parsers in Parse, `collect_processes` in Collect; what a
--                           listing gives in Entries.
--   Sensors, Sensors/*      vcgencmd.go: `redetect` and `run` on `VcgencmdRunner` in Vcgencmd;
--                           temperature.go: `collect_temperature` in Temperature.
--   Prelude, Prelude/*      Go's slices, strings, maps, integers and `float64`, and sorting.
--
-- How the program's values are modelled. A time is the integer of nanoseconds from the Unix epoch and
-- a duration an integer of nanoseconds; neither wraps around, since the instants of the program lie
-- far inside 64 bits. The numbers of the file format are taken modulo their width, as the Go
-- conversions are. A string is the list of its bytes. A map is an association list: the order of a
-- `range` loop is the order of the list, so a statement for all lists covers every order, and a
-- statement that needs distinct keys says so. A `float64` is a value of an abstract type with the
-- operations that the code uses and the laws of IEEE 754 that the proofs need (Prelude/Float,
-- Prelude/Arith, `FloatBits` in Persist/Encode). A method that holds a mutex is one atomic step.
--
-- Loops are structural recursion over the slice or map that they range over. The binary search of
-- `sort.Search` runs on as many rounds as there are points, which is enough, as each round shrinks
-- the range. The retry loop of `deliver` recurses on the retries that are left, and the loop of
-- `decodeHistory` on the declared count of series. The wait between retries doubles each
-- time without a bound in the model: in 64 bits it would wrap around only after waits that add up to
-- centuries.
--
-- Parameters stand for what lies outside the repository: the responses of webhooks and the life of
-- the context, the templates and JSON of a webhook's body, the formatting of package fmt, the parsing
-- of flags and YAML, JSON encoding, SHA-256, and the regular expression of disk partitions; the
-- contents of the files under /proc and /sys, statfs, the lookup and the runs of vcgencmd, and
-- strconv.ParseFloat. strings.Fields and strings.TrimSpace are modelled on ASCII white space. The
-- order in which a map is walked is a parameter where the code builds the map itself. An index out of
-- range is an outcome of the function that reads there.
--
-- In a run of the service one tick, one flush, the end of one background write and one delivery of a
-- worker are each one step, and steps come in any order. The parts of a snapshot that a tick only
-- passes on are one abstract type.
--
-- Not modelled: the parsers of load average, uptime, wireless, hwmon and cpufreq, which read small
-- files; the runs of apt, and the description of the system; of the HTTP layer, the headers, the gzip stream and
-- most of the Prometheus text; the embedded dashboard (internal/web) and the entry point
-- (cmd/pimonitor), which wires the parts; logging throughout, which changes no state.
pub mod Prelude
pub mod Ring
pub mod Alert
pub mod Persist
pub mod Config
pub mod Notify
pub mod Collector
pub mod Http
pub mod Rates
pub mod Disk
pub mod Sensors
pub mod Run
pub mod Cpu
pub mod Process
pub mod Memory
