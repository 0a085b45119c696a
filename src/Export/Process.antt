-- ===== src/Export/Process.antt =====
-- What the two exporters of process metrics share: the names of pkg/export/extraattributes, and the
-- getters of pkg/internal/infraolly/process/status.go.
pub mod Otel
pub mod Prom
pub mod Totals
pub mod Memory
pub mod Labelled
use e_bpf_lens.Prelude.{
  ℕ, zero, suc, ◌+◌, String, Bool, Option, none, some, List, [], ◌∷◌, ◌≡◌, Map, value_at,
  if◌then◌else◌, map, Char, eqb, ◌==◌, ◌⧺◌, join,
}
use Prim.Native.Nat.{◌/◌, ◌%◌}
use e_bpf_lens.Int64.{ℤ, pos, negsuc}
use e_bpf_lens.Harvester.CommandLine.{CommandInfo}
use e_bpf_lens.Harvester.Harvest.{Status, CpuUse, Ratio}
use e_bpf_lens.Export.Labels.{ServiceUid, Attrs}

-- The attribute names of extraattributes/names, and three of go.opentelemetry.io/obi.
abbrev pub proc_command : String
proc_command = "process.command"

abbrev pub proc_command_line : String
proc_command_line = "process.command_line"

abbrev pub proc_cpu_mode : String
proc_cpu_mode = "cpu.mode"

abbrev pub proc_disk_io_dir : String
proc_disk_io_dir = "disk.io.direction"

abbrev pub proc_net_io_dir : String
proc_net_io_dir = "network.io.direction"

abbrev pub proc_owner : String
proc_owner = "process.owner"

abbrev pub proc_parent_pid : String
proc_parent_pid = "process.parent_pid"

abbrev pub proc_pid : String
proc_pid = "process.pid"

abbrev pub proc_command_args : String
proc_command_args = "process.command_args"

abbrev pub proc_exec_name : String
proc_exec_name = "process.executable.name"

abbrev pub proc_exec_path : String
proc_exec_path = "process.executable.path"

-- `attributes.Name`
pub record MetricName : Type 0 where
  pub section : String
  pub prom : String
  pub otel : String

abbrev pub process_cpu_time : MetricName
process_cpu_time = record {
  section = "process.cpu.time";
  prom = "process_cpu_time_seconds_total";
  otel = "process.cpu.time";
}

abbrev pub process_cpu_utilization : MetricName
process_cpu_utilization = record {
  section = "process.cpu.utilization";
  prom = "process_cpu_utilization_ratio";
  otel = "process.cpu.utilization";
}

abbrev pub process_memory_usage : MetricName
process_memory_usage = record {
  section = "process.memory.usage";
  prom = "process_memory_usage_bytes";
  otel = "process.memory.usage";
}

abbrev pub process_memory_virtual : MetricName
process_memory_virtual = record {
  section = "process.memory.virtual";
  prom = "process_memory_virtual_bytes";
  otel = "process.memory.virtual";
}

abbrev pub process_disk_io : MetricName
process_disk_io = record {
  section = "process.disk.io";
  prom = "process_disk_io_bytes_total";
  otel = "process.disk.io";
}

abbrev pub process_net_io : MetricName
process_net_io = record {
  section = "process.network.io";
  prom = "process_network_io_bytes_total";
  otel = "process.network.io";
}

-- A harvested status with the service that it belongs to.
pub record Observed : Type 0 where
  pub status : Status
  pub service : Attrs

abbrev digit : ℕ → Char
digit d =
    if eqb d 0
    then "0"
    else if eqb d 1
    then "1"
    else if eqb d 2
    then "2"
    else if eqb d 3
    then "3"
    else if eqb d 4
    then "4"
    else if eqb d 5
    then "5"
    else if eqb d 6
    then "6"
    else if eqb d 7
    then "7"
    else if eqb d 8
    then "8"
    else "9"

-- The decimal digits of a number below 10 to the power of the first argument, before a text.
unfoldable decimal : ℕ → ℕ → String → String
decimal zero n s = s
decimal (suc rounds) n s =
    let more = decimal rounds (n / 10) (String.◌∷◌ (digit (n % 10)) s) in
    if eqb (n / 10) 0 then String.◌∷◌ (digit (n % 10)) s else more

-- `strconv.Itoa` of an int64.
pub itoa : ℤ → String
unfolding decimal
itoa (pos n) = decimal 20 n ""
itoa (negsuc n) = "-" ⧺ decimal 20 (suc n) ""

-- The `UID` that `NewStatus` makes.
pub status_uid : Observed → ServiceUid
unfolding itoa
status_uid s = record {
  name = s.service.uid.name;
  namespace = s.service.uid.namespace;
  instance_id = s.service.uid.instance_id ⧺ ":" ⧺ itoa (pos s.status.process_id);
}

-- `OTELGetters`: no attribute of a process is one of the metric's.
pub otel_getters {ℓ} : {KeyValue : Type ℓ} → String → Option (Observed → KeyValue)
otel_getters name = none

-- `PromGetters`; `text` reads the bytes of a Go string.
unfoldable prom_getters : (List ℕ → String) → String → Option (Observed → String)
unfolding itoa status_uid
prom_getters text name =
    if name == "host.name"
    then some (λ s. s.service.host_name)
    else if name == proc_command
    then some (λ s. s.status.command)
    else if name == proc_command_line
    then some (λ s. text s.status.command_info.command_line)
    else if name == proc_exec_name
    then some (λ s. text s.status.command_info.exec_name)
    else if name == proc_exec_path
    then some (λ s. text s.status.command_info.exec_path)
    else if name == proc_command_args
    then some (λ s. join (map text s.status.command_info.command_args) ",")
    else if name == proc_owner
    then some (λ s. s.status.user)
    else if name == proc_parent_pid
    then some (λ s. itoa s.status.parent_process_id)
    else if name == proc_pid
    then some (λ s. itoa (pos s.status.process_id))
    else if name == proc_cpu_mode
    then none
    else if name == proc_disk_io_dir
    then none
    else if name == proc_net_io_dir
    then none
    else if name == "instance"
    then some (λ s. (status_uid s).instance_id)
    else if name == "job"
    then some (λ s. s.service.job)
    else some (λ s. value_at s.service.metadata name)

-- `attributes.Field`
pub record Field (O : Type 0) : Type 0 where
  pub exposed_name : String
  pub getter : Observed → O

-- The float64 values that the exporters add up: the seconds of a number of ticks, the share of the
-- processors, and an integer.
pub record Floats (F : Type 0) : Type 0 where
  pub zero : F
  pub plus : F → F → F
  pub of_ticks : ℤ → F
  pub of_ratio : Ratio → F
  pub of_int : ℤ → F
  pub of_uint : ℕ → F

module _ {F : Type 0} (floats : Floats F) where
  -- The CPU fields of a status, which are zero in the first one of a process.
  abbrev pub ticks_of : (CpuUse → ℤ) → Option CpuUse → F
  ticks_of field none = floats.zero
  ticks_of field (some use_of) = floats.of_ticks (field use_of)

  abbrev pub share_of : (CpuUse → Ratio) → Option CpuUse → F
  share_of field none = floats.zero
  share_of field (some use_of) = floats.of_ratio (field use_of)
