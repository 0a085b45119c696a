-- ===== src/Harvester/Harvest/Chain.antt =====
-- The memory that the harvests of one process report, added up.
use e_bpf_lens.Prelude.{
  ℕ, ◌+◌, ◌<◌, Bool, Option, none, some, List, [], ◌∷◌, ◌≡◌, refl, arith, sym, ap, subst, ◌∙◌,
}
use Prim.Native.Nat.{◌%◌, ◌^◌}
use e_bpf_lens.Int64.{ℤ, pos, bits}
use e_bpf_lens.Int64.Bits.{bits-lt}
use e_bpf_lens.Harvester.Stat.{ProcStats, no_stats}
use e_bpf_lens.Harvester.Snapshot.{
  Answers, LinuxProcess, Snapshot, reused, created, no_snapshot, snapshot_panic, get_linux_process,
}
use e_bpf_lens.Harvester.Harvest.{
  Status, Harvested, harvested, harvest_failed, harvest_panic, harvest, settle, populate, statuses,
  status_of,
}
use e_bpf_lens.Harvester.Harvest.Stages.{populate-IsPopulated}
use e_bpf_lens.Harvester.Harvest.Deltas.{FollowsOn, FollowsOn-memory}
use e_bpf_lens.Harvester.Snapshot.Identity.{
  Fits, Fits-get_linux_process, IsNew, IsNew-get_linux_process,
}

-- The process of the slot was not replaced by another one with its id.
abbrev Continues : Option LinuxProcess → Snapshot → Type 0
Continues none x = Unit
Continues (some c) (created p) = ⊥
Continues (some c) (reused p) = Unit
Continues (some c) no_snapshot = Unit
Continues (some c) snapshot_panic = Unit

-- No other process takes the id during the harvests.
abbrev pub Uninterrupted : Bool → ℕ → List Answers → Option LinuxProcess → Type 0
Uninterrupted privileged pid [] slot = Unit
Uninterrupted privileged pid (sys ∷ later) slot =
    Continues slot (get_linux_process sys privileged pid slot)
    × Uninterrupted privileged pid later (harvest privileged pid sys slot).1

-- The data that the next harvest is measured against.
abbrev pub data_of : Option LinuxProcess → ProcStats
data_of none = no_stats
data_of (some c) = c.prev_stats

-- The status follows on from the slot before, and the slot after it has its memory.
abbrev Steps : Option LinuxProcess → Harvested × Option LinuxProcess → Type 0
Steps slot (harvested s, slot') =
    FollowsOn (data_of slot) s
    × ((data_of slot').vm_rss ≡ s.memory_rss_bytes)
    × ((data_of slot').vm_size ≡ s.memory_vms_bytes)
Steps slot (harvest_failed, slot') = slot' ≡ slot
Steps slot (harvest_panic, slot') = slot' ≡ slot

module _ (privileged : Bool) (pid : ℕ) where
  populated-Steps :
      (sys : Answers) (p : LinuxProcess) (slot : Option LinuxProcess)
      → p.prev_stats ≡ data_of slot
      → Steps slot
          (harvested (populate privileged sys pid p).0, some (populate privileged sys pid p).1)
  populated-Steps sys p slot before =
      let r = populate-IsPopulated privileged sys pid p in
      (
        subst (λ t. FollowsOn t (populate privileged sys pid p).0) before
            (FollowsOn-memory (populate privileged sys pid p).0 p r.memory),
        ap (λ t. t.vm_rss) r.prev_stats ∙ sym r.memory.rss,
        ap (λ t. t.vm_size) r.prev_stats ∙ sym r.memory.vms,
      )

  settle-Steps_new :
      (sys : Answers) (x : Snapshot) → IsNew x → Steps none (settle privileged pid sys none x)
  unfolding settle
  settle-Steps_new sys no_snapshot h = refl
  settle-Steps_new sys snapshot_panic h = refl
  settle-Steps_new sys (created p) h = populated-Steps sys p none h
  settle-Steps_new sys (reused p) h = absurd h

  settle-Steps :
      (sys : Answers) (c : LinuxProcess) (x : Snapshot)
      → Fits c x
      → Continues (some c) x
      → Steps (some c) (settle privileged pid sys (some c) x)
  unfolding settle
  settle-Steps sys c no_snapshot f h = refl
  settle-Steps sys c snapshot_panic f h = refl
  settle-Steps sys c (created p) f h = absurd h
  settle-Steps sys c (reused p) (same, before) h = populated-Steps sys p (some c) before

  harvest-Steps :
      (sys : Answers) (slot : Option LinuxProcess)
      → Continues slot (get_linux_process sys privileged pid slot)
      → Steps slot (harvest privileged pid sys slot)
  unfolding harvest
  harvest-Steps sys none h =
      settle-Steps_new sys (get_linux_process sys privileged pid none)
        (IsNew-get_linux_process sys privileged pid)
  harvest-Steps sys (some c) h =
      settle-Steps sys c (get_linux_process sys privileged pid (some c))
        (Fits-get_linux_process c sys privileged pid) h

-- The sum of a delta over the statuses, in 64 bits, and the last value.
abbrev pub sum_of : (Status → ℤ) → List Status → ℕ
sum_of delta [] = 0
sum_of delta (s ∷ later) = (bits (delta s) + sum_of delta later) % 2 ^ 64

abbrev pub last_of : (Status → ℤ) → ℤ → List Status → ℤ
last_of value z [] = z
last_of value z (s ∷ later) = last_of value (value s) later

-- The deltas of the statuses add up from the memory before to the last one.
abbrev AddsUp : ProcStats → List Status → Type 0
AddsUp before l =
    ((sum_of (λ s. s.memory_rss_bytes_delta) l + bits before.vm_rss) % 2 ^ 64
      ≡ bits (last_of (λ s. s.memory_rss_bytes) before.vm_rss l))
    × ((sum_of (λ s. s.memory_vms_bytes_delta) l + bits before.vm_size) % 2 ^ 64
        ≡ bits (last_of (λ s. s.memory_vms_bytes) before.vm_size l))

add_status :
    (slot : Option LinuxProcess) (r : Harvested × Option LinuxProcess) (later : List Status)
    → Steps slot r
    → AddsUp (data_of r.1) later
    → AddsUp (data_of slot) (status_of r.0 later)
add_status slot (harvested s, slot') later (follows, rss, vms) (sum_rss, sum_vms) = (
  let current = ap (λ z. bits (last_of (λ t. t.memory_rss_bytes) z later)) rss in
      omega (arith, follows.rss, ap bits rss, sum_rss, current),
  let current = ap (λ z. bits (last_of (λ t. t.memory_vms_bytes) z later)) vms in
      omega (arith, follows.vms, ap bits vms, sum_vms, current),
)
add_status slot (harvest_failed, slot') later same h = subst (λ o. AddsUp (data_of o) later) same h
add_status slot (harvest_panic, slot') later same h = subst (λ o. AddsUp (data_of o) later) same h

-- The memory deltas that the harvests of a process report add up to the memory that the last one
-- reports, from what was reported before the first one, as long as no other process takes the id.
statuses-AddsUp :
    (privileged : Bool) (pid : ℕ) (answers : List Answers) (slot : Option LinuxProcess)
    → Uninterrupted privileged pid answers slot
    → AddsUp (data_of slot) (statuses privileged pid answers slot)
unfolding statuses
statuses-AddsUp privileged pid [] slot h =
    (omega (arith, bits-lt (data_of slot).vm_rss), omega (arith, bits-lt (data_of slot).vm_size))
statuses-AddsUp privileged pid (sys ∷ later) slot (h, hs) =
    add_status slot (harvest privileged pid sys slot)
      (statuses privileged pid later (harvest privileged pid sys slot).1)
      (harvest-Steps privileged pid sys slot h)
      (statuses-AddsUp privileged pid later (harvest privileged pid sys slot).1 hs)

sum_of-lt : (delta : Status → ℤ) (l : List Status) → sum_of delta l < 2 ^ 64
sum_of-lt delta [] = omega arith
sum_of-lt delta (s ∷ l) = omega arith

-- From the first harvest on the resident memory adds up from nothing.
pub statuses-sum :
    (privileged : Bool) (pid : ℕ) (answers : List Answers)
    → Uninterrupted privileged pid answers none
    → sum_of (λ s. s.memory_rss_bytes_delta) (statuses privileged pid answers none)
      ≡ bits (last_of (λ s. s.memory_rss_bytes) (pos 0) (statuses privileged pid answers none))
unfolding bits
statuses-sum privileged pid answers h = omega (
  arith,
  (statuses-AddsUp privileged pid answers none h).0,
  sum_of-lt (λ s. s.memory_rss_bytes_delta) (statuses privileged pid answers none),
)
