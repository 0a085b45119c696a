-- ===== src/Export/Process/Memory.antt =====
-- The memory of a process in the two exports: a counter that deltas are added to, and a gauge.
use e_bpf_lens.Prelude.{
  ℕ, ◌+◌, String, Bool, true, false, none, List, [], ◌∷◌, ◌++◌, ◌≡◌, refl, ap, ◌∙◌, if◌then◌else◌,
  ◌==◌,
}
use Prim.Native.Nat.{◌%◌, ◌^◌}
use e_bpf_lens.Int64.{ℤ, pos, bits}
use e_bpf_lens.Harvester.Snapshot.{Answers}
use e_bpf_lens.Harvester.Harvest.{Status, statuses}
use e_bpf_lens.Harvester.Harvest.Chain
use e_bpf_lens.Harvester.Harvest.Chain.{Uninterrupted, last_of, statuses-sum}
use e_bpf_lens.Export.Labels.{Attrs}
use e_bpf_lens.Export.Process.{Observed, Floats, process_memory_usage, process_memory_virtual}
use e_bpf_lens.Export.Process.Totals.{total, sum_of, memory_totals}
use e_bpf_lens.Export.Process.Otel
use e_bpf_lens.Export.Process.Prom
use e_bpf_lens.Export.Process.Prom.{
  Update, add, set_to, Reporter, new_proc_reporter, collect_metrics, observe_metric,
  observe_aggregated_cpu_time, observe_disaggregated_cpu_time, observe_aggregated_cpu_utilization,
  observe_disaggregated_cpu_utilization, observe_aggregated_disk, observe_disaggregated_disk,
  observe_aggregated_net, observe_disaggregated_net, attributes_with_explicit, plain_vector,
  label_values,
}

-- The statuses of a service's process.
abbrev pub of_service : Attrs → List Status → List Observed
of_service a [] = []
of_service a (s ∷ l) = record { status = s; service = a } ∷ of_service a l

module _ {F : Type 0} where
  -- The value that the updates leave in the gauge of this name, whatever its labels.
  abbrev pub gauge_after : String → F → List (Update F) → F
  gauge_after name z [] = z
  gauge_after name z (add m labels x ∷ updates) = gauge_after name z updates
  gauge_after name z (set_to m labels x ∷ updates) =
      gauge_after name (if m.prom == name then x else z) updates

  gauge_after-append :
      (name : String) (z : F) (xs ys : List (Update F))
      → gauge_after name z (xs ++ ys) ≡ gauge_after name (gauge_after name z xs) ys
  gauge_after-append name z [] ys = refl
  gauge_after-append name z (add m labels x ∷ xs) ys = gauge_after-append name z xs ys
  gauge_after-append name z (set_to m labels x ∷ xs) ys =
      gauge_after-append name (if m.prom == name then x else z) xs ys

  -- Either list of updates leaves the gauge alone.
  gauge_if :
      (name : String) (z : F) (b : Bool) (xs ys : List (Update F))
      → gauge_after name z xs ≡ z
      → gauge_after name z ys ≡ z
      → gauge_after name z (if b then xs else ys) ≡ z
  gauge_if name z true xs ys h k = h
  gauge_if name z false xs ys h k = k

module _ {F : Type 0} (floats : Floats F) (selector : Prom.Selector) (text : List ℕ → String) where
  abbrev r : Reporter
  r = new_proc_reporter selector text

  one_gauge :
      (s : Observed) (z : F)
      → gauge_after "process_memory_usage_bytes" z (observe_metric floats r s)
        ≡ floats.of_int s.status.memory_rss_bytes
  unfolding new_proc_reporter observe_metric observe_aggregated_cpu_time
      observe_disaggregated_cpu_time observe_aggregated_cpu_utilization
      observe_disaggregated_cpu_utilization observe_aggregated_disk observe_disaggregated_disk
      observe_aggregated_net observe_disaggregated_net attributes_with_explicit plain_vector
  one_gauge s z =
      let name : String = "process_memory_usage_bytes" in
      let cpu_time : List (Update F) =
        if r.cpu_time.disaggregated
        then observe_disaggregated_cpu_time floats r.cpu_time s
        else observe_aggregated_cpu_time floats r.cpu_time s in
      let utilization : List (Update F) =
        if r.cpu_utilization.disaggregated
        then observe_disaggregated_cpu_utilization floats r.cpu_utilization s
        else observe_aggregated_cpu_utilization floats r.cpu_utilization s in
      let disk : List (Update F) =
        if r.disk.disaggregated
        then observe_disaggregated_disk floats r.disk s
        else observe_aggregated_disk floats r.disk s in
      let net : List (Update F) =
        if r.net.disaggregated
        then observe_disaggregated_net floats r.net s
        else observe_aggregated_net floats r.net s in
      let rss = floats.of_int s.status.memory_rss_bytes in
      let memory : List (Update F) =
        set_to process_memory_usage (label_values s r.memory.getters) rss
        ∷ set_to process_memory_virtual (label_values s r.memory_virtual.getters)
            (floats.of_int s.status.memory_vms_bytes)
        ∷ (disk ++ net) in
      gauge_after-append name z cpu_time (utilization ++ memory)
      ∙ ap (λ y. gauge_after name y (utilization ++ memory))
          (gauge_if name z r.cpu_time.disaggregated
            (observe_disaggregated_cpu_time floats r.cpu_time s)
            (observe_aggregated_cpu_time floats r.cpu_time s) refl refl)
      ∙ gauge_after-append name z utilization memory
      ∙ ap (λ y. gauge_after name y memory)
          (gauge_if name z r.cpu_utilization.disaggregated
            (observe_disaggregated_cpu_utilization floats r.cpu_utilization s)
            (observe_aggregated_cpu_utilization floats r.cpu_utilization s) refl refl)
      ∙ gauge_after-append name rss disk net
      ∙ ap (λ y. gauge_after name y net)
          (gauge_if name rss r.disk.disaggregated (observe_disaggregated_disk floats r.disk s)
            (observe_aggregated_disk floats r.disk s) refl refl)
      ∙ gauge_if name rss r.net.disaggregated (observe_disaggregated_net floats r.net s)
          (observe_aggregated_net floats r.net s) refl refl

  all_gauges :
      (a : Attrs) (z : ℤ) (l : List Status)
      → gauge_after "process_memory_usage_bytes"
          (floats.of_int z)
          (collect_metrics floats r (of_service a l))
        ≡ floats.of_int (last_of (λ s. s.memory_rss_bytes) z l)
  unfolding collect_metrics
  all_gauges a z [] = refl
  all_gauges a z (s ∷ l) =
      gauge_after-append "process_memory_usage_bytes" (floats.of_int z)
        (observe_metric floats r (record { status = s; service = a })) _
      ∙ ap
          (λ y.
            gauge_after "process_memory_usage_bytes" y (collect_metrics floats r (of_service a l)))
          (one_gauge (record { status = s; service = a }) (floats.of_int z))
      ∙ all_gauges a s.memory_rss_bytes l

same_sum :
    (a : Attrs) (l : List Status)
    → sum_of (λ _. true) (λ s. bits s.status.memory_rss_bytes_delta) (of_service a l)
      ≡ Chain.sum_of (λ s. s.memory_rss_bytes_delta) l
same_sum a [] = refl
same_sum a (s ∷ l) = ap (λ n. (bits s.memory_rss_bytes_delta + n) % 2 ^ 64) (same_sum a l)

module _ {F : Type 0} (floats : Floats F) where
  -- From the first harvest of a process on, whatever the system answers, the sum of what the
  -- OpenTelemetry counter of the memory is told is the memory that the last harvest read, and that is
  -- what the Prometheus gauge shows: so the two exports agree, though one is told deltas and the
  -- other absolute values. No other process takes the id meanwhile.
  pub memory_exports_agree :
      (privileged : Bool) (pid : ℕ) (answers : List Answers) (a : Attrs)
      (otel_selector : Otel.Selector) (prom_selector : Prom.Selector) (text : List ℕ → String)
      → Uninterrupted privileged pid answers none
      → let observed = of_service a (statuses privileged pid answers none) in
        let last =
          last_of (λ s. s.memory_rss_bytes) (pos 0) (statuses privileged pid answers none) in
        (total "process.memory.usage" (
            Otel.observe_all floats
              (λ _. true)
              (Otel.new_proc_metrics_exporter otel_selector)
              observed)
          ≡ bits last)
        × (gauge_after "process_memory_usage_bytes"
              (floats.of_int (pos 0))
              (collect_metrics floats (new_proc_reporter prom_selector text) observed)
            ≡ floats.of_int last)
  memory_exports_agree privileged pid answers a otel_selector prom_selector text h =
      let l = statuses privileged pid answers none in
      (
        (memory_totals otel_selector floats (λ _. true) (of_service a l)).0
            ∙ same_sum a l
            ∙ statuses-sum privileged pid answers h,
        all_gauges floats prom_selector text a (pos 0) l,
      )
