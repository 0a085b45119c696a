-- ===== src/Export/Tests/Processes.antt =====
-- The process metrics of a shell, and the theorems at them.
use e_bpf_lens.Prelude.{◌+◌, String, true, none, some, List, [], ◌∷◌, ◌≡◌, All, arith, split_once}
use e_bpf_lens.Int64.{ℤ, pos, parse_int, mul64, add64, bits, signed}
use e_bpf_lens.Harvester.Stat.{parse_fields, parse_proc_stat}
use e_bpf_lens.Harvester.Snapshot.{Answers, get_linux_process}
use e_bpf_lens.Harvester.Harvest.{Ratio, harvest, statuses}
use e_bpf_lens.Harvester.Harvest.Chain.{Uninterrupted, last_of}
use e_bpf_lens.Export.Labels.{Attrs}
use e_bpf_lens.Export.Process.{Observed, Floats}
use e_bpf_lens.Export.Process.Otel
use e_bpf_lens.Export.Process.Prom
use e_bpf_lens.Export.Process.Prom.{new_proc_reporter, collect_metrics}
use e_bpf_lens.Export.Process.Labelled.{
  MatchesSome, with_net, collect_metrics-MatchesSome, new_proc_reporter-with_net,
}
use e_bpf_lens.Export.Process.Totals.{total, sum_of, HasUint64, io_totals}
use e_bpf_lens.Export.Process.Memory.{of_service, gauge_after, memory_exports_agree}

-- Floating-point numbers stand here as integers, and a share of the processors as its ticks.
abbrev floats : Floats ℤ
floats = record {
  zero = pos 0;
  plus = add64;
  of_ticks = λ z. z;
  of_ratio = λ (r : Ratio). r.ticks;
  of_int = λ z. z;
  of_uint = pos;
}

abbrev answers_to : String → Answers
answers_to line = record {
  now = 5;
  num_cpu = 2;
  page_size = 4096;
  stat = some line;
  has_process = true;
  cmdline = none;
  username = some "root";
  uids = none;
  getent = λ uid. none;
  io_counters = none;
  num_fds = some 3;
  net_dev = some (pos 10, pos 20);
}

abbrev growing : List Answers
growing =
    answers_to "7 (sh) S 1 1 1 1 1 1 1 1 1 1 1 1 1 1 1 1 1 1 1 1 1 1"
    ∷ answers_to "7 (sh) S 1 1 1 1 1 1 1 1 1 1 1 1 1 1 1 1 1 1 1 1 7 5"
    ∷ []

abbrev shell : Attrs
shell = record {
  uid = record { name = "shell"; namespace = ""; instance_id = "node:7" };
  host_name = "node";
  job = "shell";
  sdk_language = "generic";
  metadata = [];
  env_vars = [];
}

-- The disk's direction is selected, and nothing else.
abbrev otel_selector : Otel.Selector
otel_selector = record {
  for_metric = λ m. "disk.io.direction" ∷ [];
  open_telemetry_getters = λ g names. [];
}

abbrev prom_selector : Prom.Selector
prom_selector = record {
  for_metric = λ m. "cpu.mode" ∷ "disk.io.direction" ∷ [];
  prometheus_getters =
      λ g names. record { exposed_name = "host_name"; getter = λ s. s.service.host_name } ∷ [];
  prom_name = λ n. n;
}

abbrev seen : List Observed
seen = of_service shell (statuses true 7 growing none)

growing-Uninterrupted : Uninterrupted true 7 growing none
unfolding harvest get_linux_process parse_proc_stat parse_fields split_once parse_int mul64 add64
    bits signed
growing-Uninterrupted = (tt, (tt, tt))

memory_exports_agree_example :
    let last = last_of (λ s. s.memory_rss_bytes) (pos 0) (statuses true 7 growing none) in
    (total "process.memory.usage"
        (Otel.observe_all floats (λ _. true) (Otel.new_proc_metrics_exporter otel_selector) seen)
      ≡ bits last)
    × (gauge_after "process_memory_usage_bytes"
          (pos 0)
          (collect_metrics floats (new_proc_reporter prom_selector (λ b. "")) seen)
        ≡ last)
memory_exports_agree_example =
    memory_exports_agree floats true 7 growing shell otel_selector prom_selector (λ b. "")
      growing-Uninterrupted

collect_metrics-MatchesSome_example :
    All
      (MatchesSome (new_proc_reporter prom_selector (λ b. "")))
      (collect_metrics floats (new_proc_reporter prom_selector (λ b. "")) seen)
collect_metrics-MatchesSome_example =
    collect_metrics-MatchesSome prom_selector (λ b. "") floats seen

new_proc_reporter-with_net_example :
    new_proc_reporter (with_net ("network.io.direction" ∷ []) prom_selector) (λ b. "")
    ≡ new_proc_reporter prom_selector (λ b. "")
new_proc_reporter-with_net_example =
    new_proc_reporter-with_net prom_selector (λ b. "") ("network.io.direction" ∷ [])

seen-HasUint64 : All HasUint64 seen
unfolding statuses harvest get_linux_process parse_proc_stat parse_fields split_once parse_int mul64
    add64 bits signed
seen-HasUint64 = ((omega arith, omega arith), ((omega arith, omega arith), tt))

io_totals_example :
    (total "process.disk.io"
        (Otel.observe_all floats (λ _. true) (Otel.new_proc_metrics_exporter otel_selector) seen)
      ≡ sum_of (λ _. true) (λ s. s.status.io_read_bytes_delta + s.status.io_write_bytes_delta) seen)
    × (total "process.network.io"
          (Otel.observe_all floats (λ _. true) (Otel.new_proc_metrics_exporter otel_selector) seen)
        ≡ sum_of
            (λ _. true)
            (λ s. bits s.status.net_tx_bytes_delta + bits s.status.net_rcv_bytes_delta)
            seen)
io_totals_example = io_totals otel_selector floats (λ _. true) seen seen-HasUint64
