-- ===== src/Harvester/Harvest/Deltas.antt =====
-- The deltas of the memory and of the network counters.
use e_bpf_lens.Prelude.{
  ℕ, ◌+◌, ◌-◌, ◌<◌, Bool, true, false, Option, none, some, ◌≡◌, refl, arith, sym, ap, subst, ◌∙◌,
  ◌⊎◌, inl, inr, if◌then◌else◌, ltb,
}
use Prim.Native.Nat.{◌%◌, ◌^◌}
use e_bpf_lens.Int64.{ℤ, pos, sub64, bits, leb_int, signed}
use e_bpf_lens.Int64.Bits.{bits-sub64}
use e_bpf_lens.Harvester.Stat.{ProcStats, no_stats}
use e_bpf_lens.Harvester.Snapshot.{
  Answers, LinuxProcess, Snapshot, reused, created, no_snapshot, snapshot_panic, get_linux_process,
  same_process,
}
use e_bpf_lens.Harvester.Harvest.{
  Status, Harvested, harvested, harvest_failed, harvest_panic, harvest, settle, populate,
  net_deltas,
}
use e_bpf_lens.Harvester.Harvest.Stages.{HasMemory, populate-IsPopulated, populate_named}
use e_bpf_lens.Harvester.Snapshot.Identity.{Fits, Fits-get_linux_process}

-- `current` is `before` plus `delta`, in 64 bits.
abbrev Adds : ℤ → ℤ → ℤ → Type 0
Adds before delta current = (bits delta + bits before) % 2 ^ 64 ≡ bits current

-- The memory of the status is that of the previous data plus the deltas.
pub record FollowsOn (before : ProcStats) (s : Status) : Type 0 where
  pub rss : Adds before.vm_rss s.memory_rss_bytes_delta s.memory_rss_bytes
  pub vms : Adds before.vm_size s.memory_vms_bytes_delta s.memory_vms_bytes

-- The command and the parent that the status tells are those of the process.
abbrev pub tells_of : LinuxProcess → Status → Bool
tells_of c s =
    same_process (record no_stats { command = s.command; ppid = s.parent_process_id }) c.stats

-- What a harvest with a full slot leaves and says. A status of the process in the slot is measured
-- against that process's previous data, and the reported data become the previous ones. A status of
-- another process is measured against nothing, and the slot stays. After a failure the slot stays.
abbrev pub Reports : LinuxProcess → Harvested × Option LinuxProcess → Type 0
Reports c (harvested s, none) = ⊥
Reports c (harvested s, some q) =
    (tells_of c s ≡ true)
      × (same_process q.stats c.stats ≡ true)
      × FollowsOn c.prev_stats s
      × (q.prev_stats.vm_rss ≡ s.memory_rss_bytes)
      × (q.prev_stats.vm_size ≡ s.memory_vms_bytes)
    ⊎ (tells_of c s ≡ false) × (q ≡ c) × FollowsOn no_stats s
Reports c (harvest_failed, slot) = slot ≡ some c
Reports c (harvest_panic, slot) = slot ≡ some c

tells_of_populated :
    (c : LinuxProcess) (privileged : Bool) (sys : Answers) (pid : ℕ) (p : LinuxProcess)
    → tells_of c (populate privileged sys pid p).0 ≡ same_process p.stats c.stats
unfolding same_process
tells_of_populated c privileged sys pid p =
    let (command, parent) = populate_named privileged sys pid p in rw (command, parent) refl

pub FollowsOn-memory : (s : Status) (p : LinuxProcess) → HasMemory s p → FollowsOn p.prev_stats s
FollowsOn-memory s p m = record {
  rss = rw m.rss (rw m.rss_delta (bits-sub64 p.stats.vm_rss p.prev_stats.vm_rss));
  vms = rw m.vms (rw m.vms_delta (bits-sub64 p.stats.vm_size p.prev_stats.vm_size));
}

settle-Reports :
    (privileged : Bool) (pid : ℕ) (sys : Answers) (c : LinuxProcess) (x : Snapshot)
    → Fits c x
    → Reports c (settle privileged pid sys (some c) x)
unfolding settle
settle-Reports privileged pid sys c no_snapshot f = refl
settle-Reports privileged pid sys c snapshot_panic f = refl
settle-Reports privileged pid sys c (created p) (other, before) =
    let m = (populate-IsPopulated privileged sys pid p).memory in
    inr (
      tells_of_populated c privileged sys pid p ∙ other,
      refl,
      subst (λ t. FollowsOn t (populate privileged sys pid p).0) before
          (FollowsOn-memory (populate privileged sys pid p).0 p m),
    )
settle-Reports privileged pid sys c (reused p) (same, before) =
    let r = populate-IsPopulated privileged sys pid p in
    inl (
      tells_of_populated c privileged sys pid p ∙ same,
      ap (λ t. same_process t c.stats) r.stats ∙ same,
      subst (λ t. FollowsOn t (populate privileged sys pid p).0) before
          (FollowsOn-memory (populate privileged sys pid p).0 p r.memory),
      ap (λ t. t.vm_rss) r.prev_stats ∙ sym r.memory.rss,
      ap (λ t. t.vm_size) r.prev_stats ∙ sym r.memory.vms,
    )

-- A harvest of a cached process. If the status tells the command and the parent of that process, the
-- reported memory is what was reported before plus the delta, in 64 bits, and is what the next
-- harvest goes on from. If it tells another command or parent, the process id has gone to another
-- process: the whole memory is the delta and the cache keeps the old process. After an error the
-- cache keeps what it held.
pub harvest-Reports :
    (privileged : Bool) (pid : ℕ) (sys : Answers) (c : LinuxProcess)
    → Reports c (harvest privileged pid sys (some c))
unfolding harvest
harvest-Reports privileged pid sys c =
    settle-Reports privileged pid sys c (get_linux_process sys privileged pid (some c))
      (Fits-get_linux_process c sys privileged pid)

-- For counters that are not negative, each network delta is zero or the growth of its counter, and
-- both are zero where either counter did not grow.
pub net_deltas-grown :
    (rx tx rx' tx' : ℕ) (p : LinuxProcess)
    → p.previous_net_rx ≡ pos rx
    → p.previous_net_tx ≡ pos tx
    → rx' < 2 ^ 63
    → tx' < 2 ^ 63
    → net_deltas (pos rx') (pos tx') p ≡ (
        if ltb rx rx'
        then (if ltb tx tx' then (pos (rx' - rx), pos (tx' - tx)) else (pos 0, pos 0))
        else (pos 0, pos 0))
unfolding net_deltas leb_int sub64 bits signed
net_deltas-grown rx tx rx' tx' p e e' h h' = rw (e, net_deltas) (rw e' (ground arith))
