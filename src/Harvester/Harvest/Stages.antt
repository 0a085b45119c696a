-- ===== src/Harvester/Harvest/Stages.antt =====
-- The populating functions leave the data of the snapshot as they are, and what they report.
use e_bpf_lens.Prelude.{
  ℕ, Bool, none, some, ◌≡◌, refl, ap, ◌∙◌, Bool-cases, Option-cases, inl, inr, is_empty,
}
use e_bpf_lens.Int64.{sub64}
use e_bpf_lens.Harvester.Snapshot.{Answers, LinuxProcess, username, io_counters}
use e_bpf_lens.Harvester.Harvest.{
  Status, populate, with_command_info, populate_static_data, populate_gauges, populate_io_counters,
  populate_network_info, new_status,
}

-- `q` has the data of `p`.
pub record Keeps (p q : LinuxProcess) : Type 0 where
  pub stats : q.stats ≡ p.stats
  pub prev_stats : q.prev_stats ≡ p.prev_stats

abbrev same : (p : LinuxProcess) → Keeps p p
same p = record { stats = refl; prev_stats = refl }

Keeps-trans : (p q r : LinuxProcess) → Keeps p q → Keeps q r → Keeps p r
Keeps-trans p q r h k = record {
  stats = k.stats ∙ h.stats;
  prev_stats = k.prev_stats ∙ h.prev_stats;
}

username-Keeps : (sys : Answers) (p : LinuxProcess) → Keeps p (username sys p).0
unfolding username
username-Keeps sys p = elim (Bool-cases (is_empty p.user)) [
  | inr h ↦ rw (h, username) (same p)
  | inl h ↦ elim (Option-cases sys.username) [
    | inl e ↦ rw (h, username) (rw e (record { stats = refl; prev_stats = refl }))
    | inr (name, e) ↦ rw (h, username) (rw e (record { stats = refl; prev_stats = refl }))
  ]
]

command-Keeps : (sys : Answers) (p : LinuxProcess) → Keeps p (with_command_info sys p)
unfolding with_command_info
command-Keeps sys p = elim (Bool-cases p.command_info_fetched) [
  | inl h ↦ rw (h, with_command_info) (record { stats = refl; prev_stats = refl })
  | inr h ↦ rw (h, with_command_info) (record { stats = refl; prev_stats = refl })
]

static-Keeps :
    (sys : Answers) (s : Status) (p : LinuxProcess) → Keeps p (populate_static_data sys (s, p)).1
unfolding populate_static_data
static-Keeps sys s p =
    Keeps-trans p (with_command_info sys p) (username sys (with_command_info sys p)).0
      (command-Keeps sys p) (username-Keeps sys (with_command_info sys p))

-- What the harvest says of the memory.
pub record HasMemory (s : Status) (p : LinuxProcess) : Type 0 where
  pub rss : s.memory_rss_bytes ≡ p.stats.vm_rss
  pub rss_delta : s.memory_rss_bytes_delta ≡ sub64 p.stats.vm_rss p.prev_stats.vm_rss
  pub vms : s.memory_vms_bytes ≡ p.stats.vm_size
  pub vms_delta : s.memory_vms_bytes_delta ≡ sub64 p.stats.vm_size p.prev_stats.vm_size

-- The data that a stage starts from, and what it has said, stay.
abbrev Says : Status × LinuxProcess → LinuxProcess → Type 0
Says (s, q) p = HasMemory s p × Keeps p q

gauges-Says :
    (privileged : Bool) (sys : Answers) (s : Status) (p : LinuxProcess)
    → Says (populate_gauges privileged sys (s, p)) p
unfolding populate_gauges
gauges-Says privileged sys s p =
    (record { rss = refl; rss_delta = refl; vms = refl; vms_delta = refl }, same p)

io-Says :
    (sys : Answers) (s : Status) (q p : LinuxProcess)
    → HasMemory s p
    → Keeps p q
    → Says (populate_io_counters sys (s, q)) p
unfolding populate_io_counters
io-Says sys s q p h k = elim (Option-cases (io_counters sys q)) [
  | inl e ↦ rw (e, populate_io_counters) (h, k)
  | inr (none, e) ↦
      rw (e, populate_io_counters) (h, record { stats = k.stats; prev_stats = k.prev_stats })
  | inr (some c, e) ↦
      rw (e, populate_io_counters)
        (
          record { rss = h.rss; rss_delta = h.rss_delta; vms = h.vms; vms_delta = h.vms_delta },
          record { stats = k.stats; prev_stats = k.prev_stats },
        )
]

net-Says :
    (sys : Answers) (s : Status) (q p : LinuxProcess)
    → HasMemory s p
    → Keeps p q
    → Says (populate_network_info sys (s, q)) p
unfolding populate_network_info
net-Says sys s q p h k = elim (Option-cases sys.net_dev) [
  | inl e ↦ rw (e, populate_network_info) (h, k)
  | inr ((rx, tx), e) ↦
      rw (e, populate_network_info)
        (
          record { rss = h.rss; rss_delta = h.rss_delta; vms = h.vms; vms_delta = h.vms_delta },
          record { stats = k.stats; prev_stats = k.prev_stats },
        )
]

moved : (s : Status) (p q : LinuxProcess) → Keeps p q → HasMemory s q → HasMemory s p
moved s p q k m = record {
  rss = m.rss ∙ ap (λ t. t.vm_rss) k.stats;
  rss_delta =
      m.rss_delta
      ∙ ap (λ t. sub64 t.vm_rss q.prev_stats.vm_rss) k.stats
      ∙ ap (λ t. sub64 p.stats.vm_rss t.vm_rss) k.prev_stats;
  vms = m.vms ∙ ap (λ t. t.vm_size) k.stats;
  vms_delta =
      m.vms_delta
      ∙ ap (λ t. sub64 t.vm_size q.prev_stats.vm_size) k.stats
      ∙ ap (λ t. sub64 p.stats.vm_size t.vm_size) k.prev_stats;
}

-- A snapshot that is populated: its memory is reported against the previous data, and its data
-- become the previous ones.
pub record IsPopulated (p : LinuxProcess) (s : Status) (q : LinuxProcess) : Type 0 where
  pub memory : HasMemory s p
  pub stats : q.stats ≡ p.stats
  pub prev_stats : q.prev_stats ≡ p.stats

pub populate-IsPopulated :
    (privileged : Bool) (sys : Answers) (pid : ℕ) (p : LinuxProcess)
    → IsPopulated p (populate privileged sys pid p).0 (populate privileged sys pid p).1
unfolding populate
populate-IsPopulated privileged sys pid p =
    let first = populate_static_data sys (new_status pid, p) in
    let second = populate_gauges privileged sys first in
    let third = populate_io_counters sys second in
    let last = populate_network_info sys third in
    let k = static-Keeps sys (new_status pid) p in
    let (m2, k2) = gauges-Says privileged sys first.0 first.1 in
    let (m3, k3) = io-Says sys second.0 second.1 first.1 m2 k2 in
    let (m4, k4) = net-Says sys third.0 third.1 first.1 m3 k3 in
    record {
      memory = moved last.0 p first.1 k m4;
      stats = k4.stats ∙ k.stats;
      prev_stats = k4.stats ∙ k.stats;
    }

-- `t` tells of the same process as `s`.
abbrev SameName : Status → Status → Type 0
SameName s t = (t.command ≡ s.command) × (t.parent_process_id ≡ s.parent_process_id)

io-SameName :
    (sys : Answers) (s : Status) (q : LinuxProcess) → SameName s (populate_io_counters sys (s, q)).0
unfolding populate_io_counters
io-SameName sys s q = elim (Option-cases (io_counters sys q)) [
  | inl e ↦ rw (e, populate_io_counters) (refl, refl)
  | inr (none, e) ↦ rw (e, populate_io_counters) (refl, refl)
  | inr (some c, e) ↦ rw (e, populate_io_counters) (refl, refl)
]

net-SameName :
    (sys : Answers) (s : Status) (q : LinuxProcess)
    → SameName s (populate_network_info sys (s, q)).0
unfolding populate_network_info
net-SameName sys s q = elim (Option-cases sys.net_dev) [
  | inl e ↦ rw (e, populate_network_info) (refl, refl)
  | inr ((rx, tx), e) ↦ rw (e, populate_network_info) (refl, refl)
]

-- The status tells the command and the parent of the snapshot.
pub populate_named :
    (privileged : Bool) (sys : Answers) (pid : ℕ) (p : LinuxProcess)
    → let s = (populate privileged sys pid p).0 in
      (s.command ≡ p.stats.command) × (s.parent_process_id ≡ p.stats.ppid)
unfolding populate populate_gauges populate_static_data
populate_named privileged sys pid p =
    let first = populate_static_data sys (new_status pid, p) in
    let second = populate_gauges privileged sys first in
    let third = populate_io_counters sys second in
    let k = static-Keeps sys (new_status pid) p in
    let io = io-SameName sys second.0 second.1 in
    let net = net-SameName sys third.0 third.1 in
    (net.0 ∙ io.0 ∙ ap (λ t. t.command) k.stats, net.1 ∙ io.1 ∙ ap (λ t. t.ppid) k.stats)
