-- ===== src/Export/Process/Prom.antt =====
-- The process metrics for Prometheus: pkg/export/prom/prom_proc.go.
use e_bpf_lens.Prelude.{
  ℕ, String, Bool, false, List, [], ◌∷◌, ◌++◌, if◌then◌else◌, any, ◌==◌, Option,
}
use Prim.Native.Nat.{◌+◌, ◌%◌, ◌^◌}
use e_bpf_lens.Int64.{add64}
use e_bpf_lens.Export.Process.{
  Observed, Field, Floats, ticks_of, share_of, MetricName, process_cpu_time,
  process_cpu_utilization, process_memory_usage, process_memory_virtual, process_disk_io,
  process_net_io, proc_cpu_mode, proc_disk_io_dir, proc_net_io_dir, prom_getters,
}

-- What the exporter asks of go.opentelemetry.io/obi: the attributes that the configuration selects
-- for a metric, the fields that the getters give for names, and a name for Prometheus.
pub record Selector : Type 0 where
  pub for_metric : MetricName → List String
  pub prometheus_getters : (String → Option (Observed → String)) → List String → List (Field String)
  pub prom_name : String → String

-- `WithLabelValues(labels...).Metric.Add(v)` and `.Set(v)` on the vector of a metric.
pub data Update (F : Type 0) : Type 0 where
  add set_to : MetricName → List String → F → Update F

-- A vector of `procMetricsReporter`: its metric, label names and getters, and whether it has the
-- observer that tells the explicit attribute apart.
pub record Vector : Type 0 where
  pub metric : MetricName
  pub label_names : List String
  pub getters : List (Field String)
  pub disaggregated : Bool

pub record Reporter : Type 0 where
  pub cpu_time : Vector
  pub cpu_utilization : Vector
  pub memory : Vector
  pub memory_virtual : Vector
  pub disk : Vector
  pub net : Vector

-- `labelNames` and `labelValues`
unfoldable pub label_names : List (Field String) → List String
label_names [] = []
label_names (f ∷ fields) = f.exposed_name ∷ label_names fields

unfoldable pub label_values : Observed → List (Field String) → List String
label_values s [] = []
label_values s (f ∷ fields) = f.getter s ∷ label_values s fields

module _ (selector : Selector) (text : List ℕ → String) where
  -- `attributesWithExplicit`: the vector of the metric, with the attributes of the one asked for.
  unfoldable pub attributes_with_explicit : MetricName → MetricName → String → Vector
  unfolding label_names
  attributes_with_explicit metric asked explicit_attribute =
      let attr_names = selector.for_metric asked in
      let contains_explicit = any (λ n. n == explicit_attribute) attr_names in
      let getters = selector.prometheus_getters (prom_getters text) attr_names in
      record {
        metric = metric;
        label_names =
            if contains_explicit
            then selector.prom_name explicit_attribute ∷ label_names getters
            else label_names getters;
        getters = getters;
        disaggregated = contains_explicit;
      }

  -- The vector of a metric that has no explicit attribute.
  unfoldable pub plain_vector : MetricName → Vector
  unfolding label_names
  plain_vector metric =
      let getters = selector.prometheus_getters (prom_getters text) (selector.for_metric metric) in
      record {
        metric = metric;
        label_names = label_names getters;
        getters = getters;
        disaggregated = false;
      }

  -- `newProcReporter`
  unfoldable pub new_proc_reporter : Reporter
  unfolding attributes_with_explicit plain_vector
  new_proc_reporter = record {
    cpu_time = attributes_with_explicit process_cpu_time process_cpu_time proc_cpu_mode;
    cpu_utilization =
        attributes_with_explicit process_cpu_utilization process_cpu_utilization proc_cpu_mode;
    memory = plain_vector process_memory_usage;
    memory_virtual = plain_vector process_memory_virtual;
    disk = attributes_with_explicit process_disk_io process_disk_io proc_disk_io_dir;
    net = attributes_with_explicit process_net_io process_disk_io proc_net_io_dir;
  }

module _ {F : Type 0} (floats : Floats F) where
  unfoldable pub observe_aggregated_cpu_time : Vector → Observed → List (Update F)
  unfolding label_values
  observe_aggregated_cpu_time v proc =
      let user = ticks_of floats (λ c. c.time_user_delta) proc.status.cpu in
      let system = ticks_of floats (λ c. c.time_system_delta) proc.status.cpu in
      let wait = ticks_of floats (λ c. c.time_wait_delta) proc.status.cpu in
      add v.metric (label_values proc v.getters) (floats.plus (floats.plus user system) wait) ∷ []

  unfoldable pub observe_aggregated_cpu_utilization : Vector → Observed → List (Update F)
  unfolding label_values
  observe_aggregated_cpu_utilization v proc =
      let user = share_of floats (λ c. c.utilisation_user) proc.status.cpu in
      let system = share_of floats (λ c. c.utilisation_system) proc.status.cpu in
      let wait = share_of floats (λ c. c.utilisation_wait) proc.status.cpu in
      set_to v.metric (label_values proc v.getters) (floats.plus (floats.plus user system) wait)
      ∷ []

  unfoldable pub observe_disaggregated_cpu_time : Vector → Observed → List (Update F)
  unfolding label_values
  observe_disaggregated_cpu_time v proc =
      let common = label_values proc v.getters in
      add v.metric ("user" ∷ common) (ticks_of floats (λ c. c.time_user_delta) proc.status.cpu)
      ∷ add v.metric ("system" ∷ common)
          (ticks_of floats (λ c. c.time_system_delta) proc.status.cpu)
      ∷ add v.metric ("wait" ∷ common) (ticks_of floats (λ c. c.time_wait_delta) proc.status.cpu)
      ∷ []

  unfoldable pub observe_disaggregated_cpu_utilization : Vector → Observed → List (Update F)
  unfolding label_values
  observe_disaggregated_cpu_utilization v proc =
      let common = label_values proc v.getters in
      set_to v.metric ("user" ∷ common) (share_of floats (λ c. c.utilisation_user) proc.status.cpu)
      ∷ set_to v.metric ("system" ∷ common)
          (share_of floats (λ c. c.utilisation_system) proc.status.cpu)
      ∷ set_to v.metric ("wait" ∷ common)
          (share_of floats (λ c. c.utilisation_wait) proc.status.cpu)
      ∷ []

  unfoldable pub observe_aggregated_disk : Vector → Observed → List (Update F)
  unfolding label_values
  observe_aggregated_disk v proc =
      let sum = (proc.status.io_read_bytes_delta + proc.status.io_write_bytes_delta) % 2 ^ 64 in
      add v.metric (label_values proc v.getters) (floats.of_uint sum) ∷ []

  unfoldable pub observe_disaggregated_disk : Vector → Observed → List (Update F)
  unfolding label_values
  observe_disaggregated_disk v proc =
      let common = label_values proc v.getters in
      add v.metric ("read" ∷ common) (floats.of_uint proc.status.io_read_bytes_delta)
      ∷ add v.metric ("write" ∷ common) (floats.of_uint proc.status.io_write_bytes_delta)
      ∷ []

  unfoldable pub observe_aggregated_net : Vector → Observed → List (Update F)
  unfolding label_values
  observe_aggregated_net v proc =
      let sum = add64 proc.status.net_tx_bytes_delta proc.status.net_rcv_bytes_delta in
      add v.metric (label_values proc v.getters) (floats.of_int sum) ∷ []

  unfoldable pub observe_disaggregated_net : Vector → Observed → List (Update F)
  unfolding label_values
  observe_disaggregated_net v proc =
      let common = label_values proc v.getters in
      add v.metric ("transmit" ∷ common) (floats.of_int proc.status.net_tx_bytes_delta)
      ∷ add v.metric ("receive" ∷ common) (floats.of_int proc.status.net_rcv_bytes_delta)
      ∷ []

  -- `observeMetric`, with the observers that `newProcReporter` chose.
  unfoldable pub observe_metric : Reporter → Observed → List (Update F)
  unfolding label_values observe_aggregated_cpu_time observe_disaggregated_cpu_time
      observe_aggregated_cpu_utilization observe_disaggregated_cpu_utilization
      observe_aggregated_disk observe_disaggregated_disk observe_aggregated_net
      observe_disaggregated_net
  observe_metric r proc =
      (if r.cpu_time.disaggregated
        then observe_disaggregated_cpu_time r.cpu_time proc
        else observe_aggregated_cpu_time r.cpu_time proc)
      ++ ((if r.cpu_utilization.disaggregated
            then observe_disaggregated_cpu_utilization r.cpu_utilization proc
            else observe_aggregated_cpu_utilization r.cpu_utilization proc)
          ++ (set_to r.memory.metric (label_values proc r.memory.getters)
                (floats.of_int proc.status.memory_rss_bytes)
              ∷ set_to r.memory_virtual.metric (label_values proc r.memory_virtual.getters)
                  (floats.of_int proc.status.memory_vms_bytes)
              ∷ ((if r.disk.disaggregated
                    then observe_disaggregated_disk r.disk proc
                    else observe_aggregated_disk r.disk proc)
                  ++ (if r.net.disaggregated
                      then observe_disaggregated_net r.net proc
                      else observe_aggregated_net r.net proc))))

  -- The loop of `collectMetrics`, over the processes of one message.
  unfoldable pub collect_metrics : Reporter → List Observed → List (Update F)
  unfolding observe_metric
  collect_metrics r [] = []
  collect_metrics r (proc ∷ processes) = observe_metric r proc ++ collect_metrics r processes
