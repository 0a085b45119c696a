-- ===== src/Export/Process/Otel.antt =====
-- The process metrics for OpenTelemetry: pkg/export/otel/metrics_proc.go.
use e_bpf_lens.Prelude.{
  ℕ, String, Bool, false, Option, none, some, List, [], ◌∷◌, ◌++◌, if◌then◌else◌, any, ◌==◌, map,
  ◌&&◌,
}
use Prim.Native.Nat.{◌+◌, ◌%◌, ◌^◌}
use e_bpf_lens.Int64.{ℤ, pos, add64, signed}
use e_bpf_lens.Export.Features.{has_features, feature_process}
use e_bpf_lens.Export.Process.{
  Observed, Field, Floats, ticks_of, share_of, MetricName, process_cpu_time,
  process_cpu_utilization, process_memory_usage, process_memory_virtual, process_disk_io,
  process_net_io, proc_cpu_mode, proc_disk_io_dir, proc_net_io_dir, proc_command, proc_owner,
  proc_parent_pid, proc_pid, proc_command_line, proc_command_args, proc_exec_name, proc_exec_path,
  otel_getters, itoa, status_uid,
}

-- `attribute.KeyValue`
pub record KeyValue : Type 0 where
  pub key : String
  pub values : List String

abbrev attribute : String → String → KeyValue
attribute key value = record { key = key; values = value ∷ [] }

-- What the exporter asks of go.opentelemetry.io/obi.
pub record Selector : Type 0 where
  pub for_metric : MetricName → List String
  pub open_telemetry_getters :
      (String → Option (Observed → KeyValue)) → List String → List (Field KeyValue)

-- `ProcMetricsConfig.Enabled`; `metrics` is none where the pointer is nil, and else says whether the
-- endpoint is enabled.
unfoldable enabled : Option Bool → ℕ → Bool
unfolding has_features
enabled none features = false
enabled (some endpoint_enabled) features = endpoint_enabled && has_features features feature_process

-- The fields of a metric, and whether its observer tells the explicit attribute apart.
pub record Instrument : Type 0 where
  pub metric : MetricName
  pub attrs : List (Field KeyValue)
  pub disaggregated : Bool

pub record Exporter : Type 0 where
  pub cpu_time : Instrument
  pub cpu_utilisation : Instrument
  pub memory : Instrument
  pub memory_virtual : Instrument
  pub disk : Instrument
  pub net : Instrument

module _ (selector : Selector) where
  instrument : MetricName → String → Instrument
  unfolding otel_getters
  instrument metric explicit =
      let names = selector.for_metric metric in
      record {
        metric = metric;
        attrs = selector.open_telemetry_getters otel_getters names;
        disaggregated = any (λ n. n == explicit) names;
      }

  plain_instrument : MetricName → Instrument
  unfolding otel_getters
  plain_instrument metric = record {
    metric = metric;
    attrs = selector.open_telemetry_getters otel_getters (selector.for_metric metric);
    disaggregated = false;
  }

  -- `newProcMetricsExporter`, as far as it chooses attributes and observers.
  unfoldable pub new_proc_metrics_exporter : Exporter
  unfolding instrument plain_instrument
  new_proc_metrics_exporter = record {
    cpu_time = instrument process_cpu_time proc_cpu_mode;
    cpu_utilisation = instrument process_cpu_utilization proc_cpu_mode;
    memory = plain_instrument process_memory_usage;
    memory_virtual = plain_instrument process_memory_virtual;
    disk = instrument process_disk_io proc_disk_io_dir;
    net = instrument process_net_io proc_net_io_dir;
  }

-- A call of an instrument: its metric, the attributes of `ForRecord`, and the value.
pub data Call (F : Type 0) : Type 0 where
  add_float record_float : MetricName → List KeyValue → F → Call F
  add_int : MetricName → List KeyValue → ℤ → Call F

-- `recordAttributes` of `ForRecord(record, extra...)`.
for_record : List (Field KeyValue) → Observed → List KeyValue → List KeyValue
for_record [] s extra = extra
for_record (f ∷ fields) s extra = f.getter s ∷ for_record fields s extra

abbrev mode : String → List KeyValue
mode value = attribute proc_cpu_mode value ∷ []

abbrev disk_direction : String → List KeyValue
disk_direction value = attribute proc_disk_io_dir value ∷ []

abbrev net_direction : String → List KeyValue
net_direction value = attribute proc_net_io_dir value ∷ []

module _ {F : Type 0} (floats : Floats F) where
  unfoldable pub cpu_time_aggregated_observer : Instrument → Observed → List (Call F)
  unfolding for_record
  cpu_time_aggregated_observer i s =
      let user = ticks_of floats (λ c. c.time_user_delta) s.status.cpu in
      let system = ticks_of floats (λ c. c.time_system_delta) s.status.cpu in
      let wait = ticks_of floats (λ c. c.time_wait_delta) s.status.cpu in
      add_float i.metric (for_record i.attrs s []) (floats.plus (floats.plus user system) wait) ∷ []

  unfoldable pub cpu_utilisation_aggregated_observer : Instrument → Observed → List (Call F)
  unfolding for_record
  cpu_utilisation_aggregated_observer i s =
      let user = share_of floats (λ c. c.utilisation_user) s.status.cpu in
      let system = share_of floats (λ c. c.utilisation_system) s.status.cpu in
      let wait = share_of floats (λ c. c.utilisation_wait) s.status.cpu in
      record_float i.metric (for_record i.attrs s []) (floats.plus (floats.plus user system) wait)
      ∷ []

  unfoldable pub cpu_time_disaggregated_observer : Instrument → Observed → List (Call F)
  unfolding for_record
  cpu_time_disaggregated_observer i s =
      add_float i.metric (for_record i.attrs s (mode "wait"))
        (ticks_of floats (λ c. c.time_wait_delta) s.status.cpu)
      ∷ add_float i.metric (for_record i.attrs s (mode "user"))
          (ticks_of floats (λ c. c.time_user_delta) s.status.cpu)
      ∷ add_float i.metric (for_record i.attrs s (mode "system"))
          (ticks_of floats (λ c. c.time_system_delta) s.status.cpu)
      ∷ []

  unfoldable pub cpu_utilisation_disaggregated_observer : Instrument → Observed → List (Call F)
  unfolding for_record
  cpu_utilisation_disaggregated_observer i s =
      record_float i.metric (for_record i.attrs s (mode "wait"))
        (share_of floats (λ c. c.utilisation_wait) s.status.cpu)
      ∷ record_float i.metric (for_record i.attrs s (mode "user"))
          (share_of floats (λ c. c.utilisation_user) s.status.cpu)
      ∷ record_float i.metric (for_record i.attrs s (mode "system"))
          (share_of floats (λ c. c.utilisation_system) s.status.cpu)
      ∷ []

module _ {F : Type 0} where
  -- `int64(record.IOReadBytesDelta + record.IOWriteBytesDelta)`
  unfoldable pub disk_aggregated_observer : Instrument → Observed → List (Call F)
  unfolding for_record
  disk_aggregated_observer i s =
      let sum = (s.status.io_read_bytes_delta + s.status.io_write_bytes_delta) % 2 ^ 64 in
      add_int i.metric (for_record i.attrs s []) (signed sum) ∷ []

  unfoldable pub disk_disaggregated_observer : Instrument → Observed → List (Call F)
  unfolding for_record
  disk_disaggregated_observer i s =
      add_int i.metric (for_record i.attrs s (disk_direction "read"))
        (signed s.status.io_read_bytes_delta)
      ∷ add_int i.metric (for_record i.attrs s (disk_direction "write"))
          (signed s.status.io_write_bytes_delta)
      ∷ []

  unfoldable pub net_aggregated_observer : Instrument → Observed → List (Call F)
  unfolding for_record
  net_aggregated_observer i s =
      add_int i.metric (for_record i.attrs s [])
        (add64 s.status.net_tx_bytes_delta s.status.net_rcv_bytes_delta)
      ∷ []

  unfoldable pub net_disaggregated_observer : Instrument → Observed → List (Call F)
  unfolding for_record
  net_disaggregated_observer i s =
      add_int i.metric (for_record i.attrs s (net_direction "transmit")) s.status.net_tx_bytes_delta
      ∷ add_int i.metric (for_record i.attrs s (net_direction "receive"))
          s.status.net_rcv_bytes_delta
      ∷ []

  unfoldable pub observe_memory : Exporter → Observed → List (Call F)
  unfolding for_record
  observe_memory me s =
      add_int me.memory.metric (for_record me.memory.attrs s []) s.status.memory_rss_bytes_delta
      ∷ add_int me.memory_virtual.metric (for_record me.memory_virtual.attrs s [])
          s.status.memory_vms_bytes_delta
      ∷ []

  unfoldable pub observe_disk : Exporter → Observed → List (Call F)
  unfolding disk_aggregated_observer disk_disaggregated_observer
  observe_disk me s =
      if me.disk.disaggregated
      then disk_disaggregated_observer me.disk s
      else disk_aggregated_observer me.disk s

  unfoldable pub observe_net : Exporter → Observed → List (Call F)
  unfolding net_aggregated_observer net_disaggregated_observer
  observe_net me s =
      if me.net.disaggregated
      then net_disaggregated_observer me.net s
      else net_aggregated_observer me.net s

module _ {F : Type 0} (floats : Floats F) where
  unfoldable pub observe_cpu : Exporter → Observed → List (Call F)
  unfolding cpu_time_aggregated_observer cpu_time_disaggregated_observer
      cpu_utilisation_aggregated_observer cpu_utilisation_disaggregated_observer
  observe_cpu me s =
      (if me.cpu_time.disaggregated
        then cpu_time_disaggregated_observer floats me.cpu_time s
        else cpu_time_aggregated_observer floats me.cpu_time s)
      ++ (if me.cpu_utilisation.disaggregated
          then cpu_utilisation_disaggregated_observer floats me.cpu_utilisation s
          else cpu_utilisation_aggregated_observer floats me.cpu_utilisation s)

  -- `observeMetric`
  unfoldable pub observe_metric : Exporter → Observed → List (Call F)
  unfolding observe_cpu observe_memory observe_disk observe_net
  observe_metric me s =
      observe_cpu me s ++ (observe_memory me s ++ (observe_disk me s ++ observe_net me s))

  -- The loop of `Do` over the statuses of one message; `reports` says whether the pool of reporters
  -- has one for the process.
  unfoldable pub observe_all : (Observed → Bool) → Exporter → List Observed → List (Call F)
  unfolding observe_metric
  observe_all reports me [] = []
  observe_all reports me (s ∷ statuses) =
      let rest = observe_all reports me statuses in
      if reports s then observe_metric me s ++ rest else rest

-- `getFilteredProcessResourceAttrs`: the attributes of the process that are handed to the filter of
-- go.opentelemetry.io/obi. `text` reads the bytes of a Go string.
unfoldable process_resource_attrs : (List ℕ → String) → Observed → List KeyValue
unfolding itoa status_uid
process_resource_attrs text s =
    attribute "service.instance.id" (status_uid s).instance_id
    ∷ attribute proc_command s.status.command
    ∷ attribute proc_owner s.status.user
    ∷ attribute proc_parent_pid (itoa s.status.parent_process_id)
    ∷ attribute proc_pid (itoa (pos s.status.process_id))
    ∷ attribute proc_command_line (text s.status.command_info.command_line)
    ∷ record { key = proc_command_args; values = map text s.status.command_info.command_args }
    ∷ attribute proc_exec_name (text s.status.command_info.exec_name)
    ∷ attribute proc_exec_path (text s.status.command_info.exec_path)
    ∷ []
