-- ===== src/Harvester/Snapshot.antt =====
-- Snapshots of a process: `linuxProcess` of pkg/internal/infraolly/process/snapshot.go, with what the
-- system answers while one is taken.
pub mod User
pub mod Identity
use e_bpf_lens.Prelude.{
  ◌⊎◌, inl, inr, ℕ, String, Bool, not, ◌||◌, Option, none, some, List, [], ◌∷◌, if◌then◌else◌,
  is_empty, split_once, ◌==◌,
}
use e_bpf_lens.Int64.{ℤ, same_int}
use e_bpf_lens.Harvester.Stat.{
  ProcStats, no_stats, Parsed, parsed, failed, panicked, parse_proc_stat,
}
use e_bpf_lens.Harvester.CommandLine.{CommandInfo, no_command, fetch_command_info}

-- `process.IOCountersStat` of gopsutil.
pub record IoCounters : Type 0 where
  pub read_count : ℕ
  pub write_count : ℕ
  pub read_bytes : ℕ
  pub write_bytes : ℕ

-- What the system answers about one process during one harvest; `none` is an error. The file
-- descriptors are counted, and the network counters are those that `parseProcNetDev` sums up.
pub record Answers : Type 0 where
  pub now : ℕ
  pub num_cpu : ℕ
  pub page_size : ℕ
  pub stat : Option String
  pub has_process : Bool
  pub cmdline : Option (List ℕ)
  pub username : Option String
  pub uids : Option (List ℤ)
  pub getent : ℤ → Option String
  pub io_counters : Option IoCounters
  pub num_fds : Option ℕ
  pub net_dev : Option (ℤ × ℤ)

-- `linuxProcess`
pub record LinuxProcess : Type 0 where
  pub privileged : Bool
  pub pid : ℕ
  pub measure_time : ℕ
  pub previous_measure_time : ℕ
  pub stats : ProcStats
  pub prev_stats : ProcStats
  pub previous_io_counters : Option IoCounters
  pub previous_net_rx : ℤ
  pub previous_net_tx : ℤ
  pub user : String
  pub command_info_fetched : Bool
  pub command_info : CommandInfo

-- What `getLinuxProcess` returns: the cached process with new data, a new one, or an error; and the
-- panic of the parse.
pub data Snapshot : Type 0 where
  reused created : LinuxProcess → Snapshot
  no_snapshot snapshot_panic : Snapshot

-- The same command and parent.
unfoldable pub same_process : ProcStats → ProcStats → Bool
same_process a b = if a.command == b.command then same_int a.ppid b.ppid else Bool.false

pub new_process : Answers → Bool → ℕ → ProcStats → Snapshot
new_process sys privileged pid stats =
    if sys.has_process
    then created (record {
      privileged = privileged;
      pid = pid;
      measure_time = sys.now;
      previous_measure_time = sys.now;
      stats = stats;
      prev_stats = no_stats;
      previous_io_counters = none;
      previous_net_rx = ℤ.pos 0;
      previous_net_tx = ℤ.pos 0;
      user = "";
      command_info_fetched = Bool.false;
      command_info = no_command;
    })
    else no_snapshot

abbrev renewed : Answers → ProcStats → LinuxProcess → LinuxProcess
renewed sys stats p = record p {
  previous_measure_time = p.measure_time;
  stats = stats;
  measure_time = sys.now;
}

pub snapshot_of : Answers → Bool → ℕ → Option LinuxProcess → ProcStats → Snapshot
unfolding new_process same_process
snapshot_of sys privileged pid none stats = new_process sys privileged pid stats
snapshot_of sys privileged pid (some cached) stats =
    if not (same_process stats cached.stats)
    then new_process sys privileged pid stats
    else reused (renewed sys stats cached)

unfoldable pub get_linux_process : Answers → Bool → ℕ → Option LinuxProcess → Snapshot
unfolding snapshot_of
get_linux_process sys privileged pid cached = elim sys.stat [
  | none ↦ no_snapshot
  | some content ↦ elim (parse_proc_stat sys.page_size content) [
    | parsed stats ↦ snapshot_of sys privileged pid cached stats
    | failed e ↦ no_snapshot
    | panicked ↦ snapshot_panic
  ]
]

pub data UserError : Type 0 where
  uids_failed invalid_uids getent_failed malformed_entry : UserError

-- `usernameFromGetent`, given the output of the command: the text before the first colon.
pub username_from_getent : Option String → UserError ⊎ String
username_from_getent none = inl getent_failed
username_from_getent (some out) = elim (split_once b':' out) [
  | none ↦ inl malformed_entry
  | some (name, rest) ↦ if is_empty name then inl malformed_entry else inr name
]

-- `uid`
pub uid_of : Option (List ℤ) → UserError ⊎ ℤ
uid_of none = inl uids_failed
uid_of (some []) = inl invalid_uids
uid_of (some (uid ∷ uids)) = inr uid

abbrev unknown_user : String
unknown_user = "-"

-- An unknown user, with the error, or the name.
abbrev pub named : UserError ⊎ String → String × Option UserError
named (inl e) = (unknown_user, some e)
named (inr name) = (name, none)

abbrev pub from_uid : (ℤ → Option String) → UserError ⊎ ℤ → String × Option UserError
from_uid getent (inl e) = (unknown_user, some e)
from_uid getent (inr uid) = named (username_from_getent (getent uid))

-- The user that is looked up where gopsutil has none, and the error.
pub looked_up : Answers → String × Option UserError
unfolding username_from_getent uid_of
looked_up sys = from_uid sys.getent (uid_of sys.uids)

-- `Username`: the process with its user, which is the name that is returned, and the error.
unfoldable pub username : Answers → LinuxProcess → LinuxProcess × Option UserError
unfolding looked_up
username sys p = if not (is_empty p.user) then (p, none) else elim sys.username [
  | some name ↦ (record p { user = if is_empty name then unknown_user else name }, none)
  | none ↦ let (name, e) = looked_up sys in (record p { user = name }, e)
]

-- `IOCounters`: `none` for an error, and no counters without privileges.
unfoldable pub io_counters : Answers → LinuxProcess → Option (Option IoCounters)
io_counters sys p =
    if not p.privileged
    then some none
    else elim sys.io_counters [ none ↦ none | some c ↦ some (some c) ]
