-- ===== src/Harvester/Harvest.antt =====
-- The harvest of a process: pkg/internal/infraolly/process/harvest.go. The cache is seen through the
-- slot that it has for one process id.
pub mod Stages
pub mod Slot
pub mod Deltas
pub mod Chain
use e_bpf_lens.Prelude.{
  ℕ, String, Bool, true, false, not, ◌&&◌, ◌||◌, Option, none, some, List, [], ◌∷◌, if◌then◌else◌,
  or_else,
}
use e_bpf_lens.Int64.{ℤ, pos, sub64, sub_u64, minus, leb_int, same_int, int32}
use e_bpf_lens.Harvester.Stat.{ProcStats, CpuInfo, no_stats}
use e_bpf_lens.Harvester.CommandLine.{CommandInfo, fetch_command_info}
use e_bpf_lens.Harvester.Snapshot.{
  Answers, LinuxProcess, IoCounters, Snapshot, reused, created, no_snapshot, snapshot_panic,
  get_linux_process, username, io_counters,
}

-- Ticks over the time that elapsed times the number of CPUs.
pub record Ratio : Type 0 where
  pub ticks : ℤ
  pub elapsed : ℤ
  pub cpus : ℕ

-- What `populateGauges` says of the CPU, from the second sample on.
pub record CpuUse : Type 0 where
  pub time_system_delta : ℤ
  pub time_user_delta : ℤ
  pub time_wait_delta : ℤ
  pub utilisation_system : Ratio
  pub utilisation_user : Ratio
  pub utilisation_wait : Ratio

-- `Status`, with the fields of its `ID` that the harvester sets. Without `cpu` the fields of the CPU
-- are zero.
pub record Status : Type 0 where
  pub process_id : ℕ
  pub parent_process_id : ℤ
  pub user : String
  pub command : String
  pub command_info : CommandInfo
  pub cpu : Option CpuUse
  pub memory_rss_bytes : ℤ
  pub memory_vms_bytes : ℤ
  pub memory_rss_bytes_delta : ℤ
  pub memory_vms_bytes_delta : ℤ
  pub status : String
  thread_count : ℤ
  fd_count : ℤ
  io_read_count : ℕ
  io_write_count : ℕ
  pub io_read_bytes_delta : ℕ
  pub io_write_bytes_delta : ℕ
  pub net_tx_bytes_delta : ℤ
  pub net_rcv_bytes_delta : ℤ

abbrev new_status : ℕ → Status
new_status pid = record {
  process_id = pid;
  parent_process_id = pos 0;
  user = "";
  command = "";
  command_info = fetch_command_info none;
  cpu = none;
  memory_rss_bytes = pos 0;
  memory_vms_bytes = pos 0;
  memory_rss_bytes_delta = pos 0;
  memory_vms_bytes_delta = pos 0;
  status = "";
  thread_count = pos 0;
  fd_count = pos 0;
  io_read_count = 0;
  io_write_count = 0;
  io_read_bytes_delta = 0;
  io_write_bytes_delta = 0;
  net_tx_bytes_delta = pos 0;
  net_rcv_bytes_delta = pos 0;
}

-- `fetchCommandInfo`, once for a process.
pub with_command_info : Answers → LinuxProcess → LinuxProcess
with_command_info sys p =
    if p.command_info_fetched
    then p
    else record p { command_info_fetched = true; command_info = fetch_command_info sys.cmdline }

pub populate_static_data : Answers → Status × LinuxProcess → Status × LinuxProcess
unfolding with_command_info username
populate_static_data sys (s, p) =
    let (p, e) = username sys (with_command_info sys p) in
    (
      record s {
        command = p.stats.command;
        command_info = p.command_info;
        process_id = p.pid;
        user = p.user;
        parent_process_id = p.stats.ppid;
      },
      p,
    )

is_zero : CpuInfo → Bool
is_zero c =
    same_int c.user_time (pos 0) && same_int c.system_time (pos 0) && same_int c.wait_time (pos 0)

cpu_use : Answers → LinuxProcess → CpuUse
cpu_use sys p =
    let now = p.stats.cpu in
    let before = p.prev_stats.cpu in
    let system = minus now.system_time before.system_time in
    let user = minus now.user_time before.user_time in
    let wait = minus now.wait_time before.wait_time in
    let elapsed = minus (pos p.measure_time) (pos p.previous_measure_time) in
    record {
      time_system_delta = system;
      time_user_delta = user;
      time_wait_delta = wait;
      utilisation_system = record { ticks = system; elapsed = elapsed; cpus = sys.num_cpu };
      utilisation_user = record { ticks = user; elapsed = elapsed; cpus = sys.num_cpu };
      utilisation_wait = record { ticks = wait; elapsed = elapsed; cpus = sys.num_cpu };
    }

abbrev fds : Option ℕ → ℤ
fds none = pos 0
fds (some n) = int32 n

pub populate_gauges : Bool → Answers → Status × LinuxProcess → Status × LinuxProcess
unfolding is_zero cpu_use
populate_gauges privileged sys (s, p) = (
  record s {
    cpu = if not (is_zero p.prev_stats.cpu) then some (cpu_use sys p) else s.cpu;
    fd_count = if privileged then fds sys.num_fds else s.fd_count;
    status = p.stats.state;
    thread_count = p.stats.num_threads;
    memory_vms_bytes = p.stats.vm_size;
    memory_vms_bytes_delta = sub64 p.stats.vm_size p.prev_stats.vm_size;
    memory_rss_bytes = p.stats.vm_rss;
    memory_rss_bytes_delta = sub64 p.stats.vm_rss p.prev_stats.vm_rss;
  },
  p,
)

abbrev no_io : IoCounters
no_io = record { read_count = 0; write_count = 0; read_bytes = 0; write_bytes = 0 }

pub populate_io_counters : Answers → Status × LinuxProcess → Status × LinuxProcess
unfolding io_counters
populate_io_counters sys (s, p) =
    let previous = or_else p.previous_io_counters no_io in
    elim (io_counters sys p) [
      | none ↦ (s, p)
      | some none ↦ (s, record p { previous_io_counters = none })
      | some (some c) ↦ (
        record s {
          io_read_count = c.read_count;
          io_write_count = c.write_count;
          io_read_bytes_delta = sub_u64 c.read_bytes previous.read_bytes;
          io_write_bytes_delta = sub_u64 c.write_bytes previous.write_bytes;
        },
        record p { previous_io_counters = some c },
      )
    ]

-- The deltas of the received and the transmitted bytes.
pub net_deltas : ℤ → ℤ → LinuxProcess → ℤ × ℤ
net_deltas rx tx p =
    if leb_int rx p.previous_net_rx || leb_int tx p.previous_net_tx
    then (pos 0, pos 0)
    else (sub64 rx p.previous_net_rx, sub64 tx p.previous_net_tx)

pub populate_network_info : Answers → Status × LinuxProcess → Status × LinuxProcess
unfolding net_deltas
populate_network_info sys (s, p) = elim sys.net_dev [
  | none ↦ (s, p)
  | some (rx, tx) ↦
      let (rcv, sent) = net_deltas rx tx p in
      (
        record s { net_rcv_bytes_delta = rcv; net_tx_bytes_delta = sent },
        record p { previous_net_rx = rx; previous_net_tx = tx },
      )
]

-- The status of a snapshot, and the process after it.
pub populate : Bool → Answers → ℕ → LinuxProcess → Status × LinuxProcess
unfolding populate_static_data populate_gauges populate_io_counters populate_network_info
populate privileged sys pid p =
    let first = populate_static_data sys (new_status pid, p) in
    let second = populate_gauges privileged sys first in
    let third = populate_io_counters sys second in
    let (s, q) = populate_network_info sys third in (s, record q { prev_stats = q.stats })

-- What `Harvest` returns.
pub data Harvested : Type 0 where
  harvested : Status → Harvested
  harvest_failed harvest_panic : Harvested

-- A new process is added where the slot is empty; a full slot keeps what it holds.
abbrev kept_or : Option LinuxProcess → LinuxProcess → Option LinuxProcess
kept_or none p = some p
kept_or (some cached) p = some cached

-- What `Harvest` makes of the snapshot. A reused process is the one that the slot holds, and so
-- changes with it.
pub settle : Bool → ℕ → Answers → Option LinuxProcess → Snapshot → Harvested × Option LinuxProcess
unfolding populate
settle privileged pid sys slot no_snapshot = (harvest_failed, slot)
settle privileged pid sys slot snapshot_panic = (harvest_panic, slot)
settle privileged pid sys slot (created p) =
    let (s, q) = populate privileged sys pid p in (harvested s, kept_or slot q)
settle privileged pid sys slot (reused p) =
    let (s, q) = populate privileged sys pid p in (harvested s, some q)

-- `Harvest`: its result, and the slot of the process id after it.
unfoldable pub harvest : Bool → ℕ → Answers → Option LinuxProcess → Harvested × Option LinuxProcess
unfolding settle
harvest privileged pid sys slot =
    settle privileged pid sys slot (get_linux_process sys privileged pid slot)

-- The slot after a harvest for each of the answers.
pub harvests : Bool → ℕ → List Answers → Option LinuxProcess → Option LinuxProcess
harvests privileged pid [] slot = slot
harvests privileged pid (sys ∷ later) slot =
    harvests privileged pid later (harvest privileged pid sys slot).1

-- The statuses of the harvests that succeed.
abbrev pub status_of : Harvested → List Status → List Status
status_of (harvested s) later = s ∷ later
status_of harvest_failed later = later
status_of harvest_panic later = later

unfoldable pub statuses : Bool → ℕ → List Answers → Option LinuxProcess → List Status
unfolding harvest
statuses privileged pid [] slot = []
statuses privileged pid (sys ∷ later) slot =
    let (result, slot') = harvest privileged pid sys slot in
    status_of result (statuses privileged pid later slot')
