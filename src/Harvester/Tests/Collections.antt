-- ===== src/Harvester/Tests/Collections.antt =====
-- The collector with a cache that runs.
use e_bpf_lens.Prelude.{
  ℕ, true, Option, none, some, List, [], ◌∷◌, ◌≡◌, refl, ap, arith, if◌then◌else◌, eqb, or_else,
  Dict, get, put, delete, length, split_once,
}
use Prim.Native.Nat.{◌+◌, ◌^◌}
use e_bpf_lens.Int64.{parse_int, mul64, add64, bits, signed}
use e_bpf_lens.Harvester.Stat.{parse_fields, parse_proc_stat}
use e_bpf_lens.Harvester.Snapshot.{Answers, LinuxProcess, get_linux_process}
use e_bpf_lens.Harvester.Harvest.{Status, harvest}
use e_bpf_lens.Harvester.Collect.{
  Lru, Collector, SpanService, Turn, spans, collect, on_tick, run, pid_eq,
}
use e_bpf_lens.Harvester.Collect.Survivors.{
  IsLru, without, drop_last, IsCollected, collect-IsCollected,
}
use e_bpf_lens.Harvester.Collect.Follow.{HoldsFollowed, run-HoldsFollowed}
use e_bpf_lens.Harvester.Tests.{sh_answers, old_process}

abbrev Cache : Type 0
Cache = Dict ℕ LinuxProcess

pids : Cache → List ℕ
pids [] = []
pids ((k, p) ∷ c) = k ∷ pids c

touched : ℕ → Option LinuxProcess → Cache → Cache
unfolding put
touched k none c = c
touched k (some p) c = put k p c

write : ℕ → LinuxProcess → Cache → Cache
write k p [] = []
write k p ((j, q) ∷ c) = let rest = write k p c in if eqb j k then (j, p) ∷ c else (j, q) ∷ rest

remove_oldest : Cache → Cache
remove_oldest [] = []
remove_oldest (e ∷ []) = []
remove_oldest (e ∷ f ∷ c) = e ∷ remove_oldest (f ∷ c)

abbrev lru : Lru Cache
lru = record {
  get_touched = λ k c. (get k c, touched k (get k c) c);
  add = λ k p c. put k p c;
  write = write;
  remove = λ k c. delete k c;
  remove_oldest = remove_oldest;
  len = length;
}

pids-delete : (k : ℕ) (c : Cache) → pids (delete k c) ≡ without k (pids c)
unfolding pids delete
pids-delete k [] = refl
pids-delete k ((j, p) ∷ c) = let rest = pids-delete k c in ground arith

pids-miss : (k : ℕ) (c : Cache) → get k c ≡ none → pids c ≡ without k (pids c)
unfolding pids get
pids-miss k [] h = refl
pids-miss k ((j, p) ∷ c) h = let rest = pids-miss k c in ground arith

pids-write : (k : ℕ) (p : LinuxProcess) (c : Cache) → pids (write k p c) ≡ pids c
unfolding pids write
pids-write k p [] = refl
pids-write k p ((j, q) ∷ c) = let rest = pids-write k p c in ground arith

pids-touched :
    (k : ℕ) (c : Cache) (p : LinuxProcess)
    → get k c ≡ some p
    → pids (touched k (get k c) c) ≡ k ∷ without k (pids c)
unfolding pids touched
pids-touched k c p h = rw h (ap (◌∷◌ k) (pids-delete k c))

pids-untouched :
    (k : ℕ) (c : Cache) → get k c ≡ none → pids (touched k (get k c) c) ≡ without k (pids c)
unfolding touched
pids-untouched k c h = rw h (pids-miss k c h)

pids-remove_oldest : (c : Cache) → pids (remove_oldest c) ≡ drop_last (pids c)
unfolding pids remove_oldest
pids-remove_oldest [] = refl
pids-remove_oldest (e ∷ []) = refl
pids-remove_oldest (e ∷ f ∷ c) = ap (◌∷◌ e.0) (pids-remove_oldest (f ∷ c))

length-pids : (c : Cache) → length c ≡ length (pids c)
unfolding pids
length-pids [] = refl
length-pids (e ∷ c) = omega (arith, length-pids c)

lru-IsLru : IsLru lru
unfolding pids put
lru-IsLru = record {
  keys = pids;
  hit = pids-touched;
  miss = pids-untouched;
  keys-add = λ k p c. ap (◌∷◌ k) (pids-delete k c);
  keys-write = pids-write;
  keys-remove = pids-delete;
  keys-remove_oldest = pids-remove_oldest;
  len-keys = length-pids;
}

-- The shell answers under one id only.
abbrev only_seven : ℕ → Answers
only_seven pid = if eqb pid 7 then sh_answers else record sh_answers { stat = none }

collect-IsCollected_example :
    IsCollected lru lru-IsLru true only_seven
      (7 ∷ 8 ∷ [])
      (collect lru true only_seven (7 ∷ 8 ∷ []) ((8, old_process) ∷ (9, old_process) ∷ []))
collect-IsCollected_example =
    collect-IsCollected lru lru-IsLru true only_seven (7 ∷ 8 ∷ [])
      ((8, old_process) ∷ (9, old_process) ∷ []) ((refl, tt), (tt, tt))

abbrev shell : ℕ → SpanService
shell pid = record { pid = pid; features = 2 ^ 63 + 1 }

abbrev idle : Collector Cache
idle = record { pids = []; cache = (9, old_process) ∷ [] }

-- A service without process metrics is not followed.
abbrev arrived : List Turn
arrived = spans (shell 8 ∷ shell 7 ∷ record (shell 6) { features = 1 } ∷ []) ∷ []

abbrev followed : Collector Cache
followed = record idle { pids = (7, shell 7) ∷ (8, shell 8) ∷ [] }

first_turns : run lru true arrived idle ≡ some followed
unfolding run
first_turns = refl

abbrev ticked : List Status × Collector Cache
ticked = or_else (on_tick lru true only_seven followed) ([], idle)

tick_works : on_tick lru true only_seven followed ≡ some (ticked.0, ticked.1)
unfolding on_tick harvest get put delete touched write remove_oldest get_linux_process
    parse_proc_stat parse_fields split_once parse_int mul64 add64 bits signed
tick_works = refl

run-HoldsFollowed_example : HoldsFollowed lru lru-IsLru true ticked.1
run-HoldsFollowed_example =
    run-HoldsFollowed lru lru-IsLru true arrived only_seven idle followed ticked.1 ticked.0 tt
      first_turns tick_works
