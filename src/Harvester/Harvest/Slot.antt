-- ===== src/Harvester/Harvest/Slot.antt =====
-- What the cache's slot of a process id holds over many harvests.
use e_bpf_lens.Prelude.{ℕ, Bool, true, Option, none, some, List, [], ◌∷◌, ◌≡◌, refl, ap, ◌∙◌}
use e_bpf_lens.Harvester.Harvest.Stages.{populate-IsPopulated}
use e_bpf_lens.Harvester.Stat.{ProcStats}
use e_bpf_lens.Harvester.Snapshot.Identity.{same_process_trans, Fits, Fits-get_linux_process}
use e_bpf_lens.Harvester.Snapshot.{
  Answers, LinuxProcess, Snapshot, reused, created, no_snapshot, snapshot_panic, get_linux_process,
  same_process,
}
use e_bpf_lens.Harvester.Harvest.{Status, harvested, settle, harvest, harvests}

-- The slot holds a process with that command and that parent.
abbrev pub IsOf : ProcStats → Option LinuxProcess → Type 0
IsOf stats none = ⊥
IsOf stats (some p) = same_process p.stats stats ≡ true

IsOf-settle :
    (privileged : Bool) (pid : ℕ) (sys : Answers) (stats : ProcStats) (c : LinuxProcess)
    (x : Snapshot)
    → same_process c.stats stats ≡ true
    → Fits c x
    → IsOf stats (settle privileged pid sys (some c) x).1
unfolding settle
IsOf-settle privileged pid sys stats c no_snapshot h f = h
IsOf-settle privileged pid sys stats c snapshot_panic h f = h
IsOf-settle privileged pid sys stats c (created p) h f = h
IsOf-settle privileged pid sys stats c (reused p) h (f, _) =
    ap (λ t. same_process t stats) (populate-IsPopulated privileged sys pid p).stats
    ∙ same_process_trans p.stats c.stats stats f h

-- Once the slot holds a process, it holds one with the same command and the same parent for as long
-- as the process id is harvested, whatever the system answers: another process with that id never
-- takes the place.
pub IsOf-harvests :
    (privileged : Bool) (pid : ℕ) (answers : List Answers) (stats : ProcStats)
    (slot : Option LinuxProcess)
    → IsOf stats slot
    → IsOf stats (harvests privileged pid answers slot)
unfolding harvests harvest
IsOf-harvests privileged pid [] stats slot h = h
IsOf-harvests privileged pid (sys ∷ later) stats none h = absurd h
IsOf-harvests privileged pid (sys ∷ later) stats (some c) h =
    IsOf-harvests privileged pid later stats (harvest privileged pid sys (some c)).1 (
      IsOf-settle privileged pid sys stats c (get_linux_process sys privileged pid (some c)) h
        (Fits-get_linux_process c sys privileged pid))

settle_stores :
    (privileged : Bool) (pid : ℕ) (sys : Answers) (slot : Option LinuxProcess) (x : Snapshot)
    (s : Status)
    → (settle privileged pid sys slot x).0 ≡ harvested s
    → (p : LinuxProcess) × ((settle privileged pid sys slot x).1 ≡ some p)
unfolding settle
settle_stores privileged pid sys slot no_snapshot s e = cc
settle_stores privileged pid sys slot snapshot_panic s e = cc
settle_stores privileged pid sys none (created p) s e = (_, refl)
settle_stores privileged pid sys (some c) (created p) s e = (c, refl)
settle_stores privileged pid sys slot (reused p) s e = (_, refl)

-- A harvest that succeeds leaves a process in the slot.
pub harvest_stores :
    (privileged : Bool) (pid : ℕ) (sys : Answers) (slot : Option LinuxProcess) (s : Status)
    → (harvest privileged pid sys slot).0 ≡ harvested s
    → (p : LinuxProcess) × ((harvest privileged pid sys slot).1 ≡ some p)
unfolding harvest
harvest_stores privileged pid sys slot s e =
    settle_stores privileged pid sys slot (get_linux_process sys privileged pid slot) s e
