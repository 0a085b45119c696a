-- ===== src/Export/Process/Totals.antt =====
-- The sums of the OpenTelemetry counters over the statuses that are observed.
use e_bpf_lens.Prelude.{
  ℕ, ◌+◌, ◌<◌, String, Bool, false, List, [], ◌∷◌, ◌++◌, ◌≡◌, refl, arith, if◌then◌else◌, ◌==◌, All,
  All-of, All-weaken, Bool-cases, inl, inr,
}
use Prim.Native.Nat.{◌%◌, ◌^◌}
use e_bpf_lens.Int64.{bits}
use e_bpf_lens.Int64.Bits.{bits-signed, bits-add64}
use e_bpf_lens.Export.Process.{Observed, Floats}
use e_bpf_lens.Export.Process.Otel.{
  Selector, Exporter, Call, add_float, record_float, add_int, new_proc_metrics_exporter,
  observe_all, observe_metric, observe_cpu, observe_memory, observe_disk, observe_net,
  disk_aggregated_observer, disk_disaggregated_observer, net_aggregated_observer,
  net_disaggregated_observer, cpu_time_aggregated_observer, cpu_time_disaggregated_observer,
  cpu_utilisation_aggregated_observer, cpu_utilisation_disaggregated_observer,
}

module _ {F : Type 0} where
  -- The sum of what the calls add to the integer metric of this name, over all its attributes, as the
  -- bits of an int64.
  abbrev pub total : String → List (Call F) → ℕ
  total name [] = 0
  total name (add_float m attrs x ∷ calls) = total name calls
  total name (record_float m attrs x ∷ calls) = total name calls
  total name (add_int m attrs z ∷ calls) =
      let rest = total name calls in if m.otel == name then (bits z + rest) % 2 ^ 64 else rest

  total-append :
      (name : String) (xs ys : List (Call F))
      → total name ys < 2 ^ 64
      → total name (xs ++ ys) ≡ (total name xs + total name ys) % 2 ^ 64
  total-append name [] ys h = omega arith
  total-append name (add_float m attrs x ∷ xs) ys h = total-append name xs ys h
  total-append name (record_float m attrs x ∷ xs) ys h = total-append name xs ys h
  total-append name (add_int m attrs z ∷ xs) ys h =
      let rest = total-append name xs ys h in
      elim (Bool-cases (m.otel == name)) [ inl e ↦ rw e (omega (arith, rest)) | inr e ↦ rw e rest ]

  total-lt : (name : String) (xs : List (Call F)) → total name xs < 2 ^ 64
  total-lt name [] = omega arith
  total-lt name (add_float m attrs x ∷ xs) = total-lt name xs
  total-lt name (record_float m attrs x ∷ xs) = total-lt name xs
  total-lt name (add_int m attrs z ∷ xs) = elim (Bool-cases (m.otel == name)) [
    | inl e ↦ rw e (omega arith)
    | inr e ↦ rw e (total-lt name xs)
  ]

-- What the statuses of the processes that have a reporter say, summed up in 64 bits.
abbrev pub sum_of : (Observed → Bool) → (Observed → ℕ) → List Observed → ℕ
sum_of reports amount [] = 0
sum_of reports amount (s ∷ statuses) =
    let rest = sum_of reports amount statuses in
    if reports s then (amount s + rest) % 2 ^ 64 else rest

-- The deltas of the I/O counters of a status are uint64.
abbrev pub HasUint64 : Observed → Type 0
HasUint64 s = (s.status.io_read_bytes_delta < 2 ^ 64) × (s.status.io_write_bytes_delta < 2 ^ 64)

module _ {F : Type 0} (selector : Selector) (floats : Floats F) where
  abbrev me : Exporter
  me = new_proc_metrics_exporter selector

  cpu_total : (name : String) (s : Observed) → total name (observe_cpu floats me s) ≡ 0
  unfolding new_proc_metrics_exporter observe_cpu cpu_time_aggregated_observer
      cpu_time_disaggregated_observer cpu_utilisation_aggregated_observer
      cpu_utilisation_disaggregated_observer
  cpu_total name s = elim (Bool-cases me.cpu_time.disaggregated) [
    | inl e ↦ elim (Bool-cases me.cpu_utilisation.disaggregated) [
      | inl u ↦ rw (e, u)
      | inr u ↦ rw (e, u)
    ]
    | inr e ↦ elim (Bool-cases me.cpu_utilisation.disaggregated) [
      | inl u ↦ rw (e, u)
      | inr u ↦ rw (e, u)
    ]
  ]

  parts_total :
      (name : String) (s : Observed)
      → total name (observe_metric floats me s)
        ≡ (total name (observe_memory {F = F} me s)
            + total name (observe_disk {F = F} me s)
            + total name (observe_net {F = F} me s))
          % 2 ^ 64
  unfolding observe_metric
  parts_total name s =
      let memory = observe_memory {F = F} me s in
      let disk = observe_disk {F = F} me s in
      let net = observe_net {F = F} me s in
      omega (
        arith,
        cpu_total name s,
        total-append name (observe_cpu floats me s) (memory ++ (disk ++ net))
            (total-lt name (memory ++ (disk ++ net))),
        total-append name memory (disk ++ net) (total-lt name (disk ++ net)),
        total-append name disk net (total-lt name net),
        total-lt name disk,
        total-lt name net,
        total-lt name memory,
      )

  -- The disk's metric gets the sum of the two counters, and no other metric gets anything of it.
  disk_total :
      (s : Observed)
      → HasUint64 s
      → total "process.disk.io" (observe_disk {F = F} me s)
        ≡ (s.status.io_read_bytes_delta + s.status.io_write_bytes_delta) % 2 ^ 64
  unfolding new_proc_metrics_exporter observe_disk disk_aggregated_observer
      disk_disaggregated_observer
  disk_total s h =
      let read = bits-signed s.status.io_read_bytes_delta h.0 in
      let write = bits-signed s.status.io_write_bytes_delta h.1 in
      let sum = (s.status.io_read_bytes_delta + s.status.io_write_bytes_delta) % 2 ^ 64 in
      let both = bits-signed sum (omega arith) in
      elim (Bool-cases me.disk.disaggregated) [
        | inl e ↦ rw e (omega (arith, read, write))
        | inr e ↦ rw e (omega (arith, both))
      ]

  net_total :
      (s : Observed)
      → total "process.network.io" (observe_net {F = F} me s)
        ≡ (bits s.status.net_tx_bytes_delta + bits s.status.net_rcv_bytes_delta) % 2 ^ 64
  unfolding new_proc_metrics_exporter observe_net net_aggregated_observer net_disaggregated_observer
  net_total s =
      let both = bits-add64 s.status.net_tx_bytes_delta s.status.net_rcv_bytes_delta in
      elim (Bool-cases me.net.disaggregated) [
        | inl e ↦ rw e (omega arith)
        | inr e ↦ rw e (omega (arith, both))
      ]

  no_disk :
      (name : String) (s : Observed)
      → ("process.disk.io" == name) ≡ false
      → total name (observe_disk {F = F} me s) ≡ 0
  unfolding new_proc_metrics_exporter observe_disk disk_aggregated_observer
      disk_disaggregated_observer
  no_disk name s other = elim (Bool-cases me.disk.disaggregated) [
    | inl e ↦ rw e (rw other refl)
    | inr e ↦ rw e (rw other refl)
  ]

  no_net :
      (name : String) (s : Observed)
      → ("process.network.io" == name) ≡ false
      → total name (observe_net {F = F} me s) ≡ 0
  unfolding new_proc_metrics_exporter observe_net net_aggregated_observer net_disaggregated_observer
  no_net name s other = elim (Bool-cases me.net.disaggregated) [
    | inl e ↦ rw e (rw other refl)
    | inr e ↦ rw e (rw other refl)
  ]

  -- What one status adds to the four integer metrics.
  memory_added :
      (s : Observed)
      → total "process.memory.usage" (observe_metric floats me s)
        ≡ bits s.status.memory_rss_bytes_delta % 2 ^ 64
  unfolding new_proc_metrics_exporter observe_memory
  memory_added s =
      let name : String = "process.memory.usage" in
      omega (arith, parts_total name s, no_disk name s refl, no_net name s refl)

  virtual_added :
      (s : Observed)
      → total "process.memory.virtual" (observe_metric floats me s)
        ≡ bits s.status.memory_vms_bytes_delta % 2 ^ 64
  unfolding new_proc_metrics_exporter observe_memory
  virtual_added s =
      let name : String = "process.memory.virtual" in
      omega (arith, parts_total name s, no_disk name s refl, no_net name s refl)

  disk_added :
      (s : Observed)
      → HasUint64 s
      → total "process.disk.io" (observe_metric floats me s)
        ≡ (s.status.io_read_bytes_delta + s.status.io_write_bytes_delta) % 2 ^ 64
  unfolding new_proc_metrics_exporter observe_memory
  disk_added s h =
      let name : String = "process.disk.io" in
      omega (arith, parts_total name s, disk_total s h, no_net name s refl)

  net_added :
      (s : Observed)
      → total "process.network.io" (observe_metric floats me s)
        ≡ (bits s.status.net_tx_bytes_delta + bits s.status.net_rcv_bytes_delta) % 2 ^ 64
  unfolding new_proc_metrics_exporter observe_memory
  net_added s =
      let name : String = "process.network.io" in
      omega (arith, parts_total name s, no_disk name s refl, net_total s)

  -- From one status to all.
  total-observe_all :
      (name : String) (reports : Observed → Bool) (amount : Observed → ℕ) (statuses : List Observed)
      → All (λ s. total name (observe_metric floats me s) ≡ amount s % 2 ^ 64) statuses
      → total name (observe_all floats reports me statuses) ≡ sum_of reports amount statuses
  unfolding observe_all
  total-observe_all name reports amount [] h = refl
  total-observe_all name reports amount (s ∷ statuses) (one, later) =
      let rest = total-observe_all name reports amount statuses later in
      let calls = observe_all floats reports me statuses in
      elim (Bool-cases (reports s)) [
        | inl e ↦
            rw (e, observe_all)
              (omega (
                arith,
                total-append name (observe_metric floats me s) calls (total-lt name calls),
                one,
                rest,
              ))
        | inr e ↦ rw (e, observe_all) rest
      ]

  pub memory_totals :
      (reports : Observed → Bool) (statuses : List Observed)
      → (total "process.memory.usage" (observe_all floats reports me statuses)
          ≡ sum_of reports (λ s. bits s.status.memory_rss_bytes_delta) statuses)
        × (total "process.memory.virtual" (observe_all floats reports me statuses)
            ≡ sum_of reports (λ s. bits s.status.memory_vms_bytes_delta) statuses)
  memory_totals reports statuses = (
    total-observe_all _ reports _ statuses (All-of memory_added statuses),
    total-observe_all _ reports _ statuses (All-of virtual_added statuses),
  )

  -- Whatever attributes the configuration selects, and so whether or not the directions are told
  -- apart, the disk counter grows in all by the bytes that were read and written, and the network
  -- counter by those that were sent and received, for each status of a process that has a reporter.
  -- Sums are in 64 bits, and the disk's deltas are uint64.
  pub io_totals :
      (reports : Observed → Bool) (statuses : List Observed)
      → All HasUint64 statuses
      → (total "process.disk.io"
            (observe_all floats reports (new_proc_metrics_exporter selector) statuses)
          ≡ sum_of reports
              (λ s. s.status.io_read_bytes_delta + s.status.io_write_bytes_delta)
              statuses)
        × (total "process.network.io"
              (observe_all floats reports (new_proc_metrics_exporter selector) statuses)
            ≡ sum_of reports
                (λ s. bits s.status.net_tx_bytes_delta + bits s.status.net_rcv_bytes_delta)
                statuses)
  io_totals reports statuses h = (
    total-observe_all _ reports _ statuses (All-weaken HasUint64 _ disk_added statuses h),
    total-observe_all _ reports _ statuses (All-of net_added statuses),
  )
