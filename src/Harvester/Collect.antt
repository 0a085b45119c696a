-- ===== src/Harvester/Collect.antt =====
-- The collector around the harvester: pkg/internal/infraolly/process/collect.go. The cache is of
-- github.com/hashicorp/golang-lru, and as large as it needs to be.
pub mod Survivors
pub mod Follow
use e_bpf_lens.Prelude.{
  ℕ, zero, suc, ◌+◌, ◌≤◌, ◌<◌, Bool, true, false, not, Option, none, some, List, [], ◌∷◌, ◌≡◌,
  if◌then◌else◌, Eq, Dict, get, put, delete, eqb, ltb, length, map, ◌↔◌, arith,
}
use e_bpf_lens.Export.Features.{any_feature, feature_process}
use e_bpf_lens.Harvester.Snapshot.{Answers, LinuxProcess}
use e_bpf_lens.Harvester.Harvest.{
  Status, Harvested, harvested, harvest_failed, harvest_panic, harvest,
}

pub eqb_iff : (a b : ℕ) → (eqb a b ≡ true) ↔ (a ≡ b)
eqb_iff a b = ground arith

instance abbrev pub pid_eq : Eq ℕ
pid_eq = record { same = eqb; same_iff = eqb_iff }

-- `simplelru.LRU`; `write` is a write through a pointer that the cache handed out.
pub record Lru (L : Type 0) : Type 0 where
  pub get_touched : ℕ → L → Option LinuxProcess × L
  pub add : ℕ → LinuxProcess → L → L
  pub write : ℕ → LinuxProcess → L → L
  pub remove : ℕ → L → L
  pub remove_oldest : L → L
  pub len : L → ℕ

-- What `Collect` returns, and the cache after it.
pub record Collected (L : Type 0) : Type 0 where
  pub results : List Status
  pub removed : List ℕ
  pub cache : L

module _ {L : Type 0} (lru : Lru L) where
  -- How a harvest leaves the cache: its slot is the entry of the process id.
  pub store : ℕ → Option LinuxProcess → Option LinuxProcess → L → L
  store pid cached none cache = cache
  store pid none (some p) cache = lru.add pid p cache
  store pid (some q) (some p) cache = lru.write pid p cache

  -- `for ps.cache.Len() > len(results) { ps.cache.RemoveOldest() }`, for some rounds.
  pub trim : ℕ → ℕ → L → L
  trim zero size cache = cache
  trim (suc rounds) size cache =
      let rest = trim rounds size (lru.remove_oldest cache) in
      if ltb size (lru.len cache) then rest else cache

  module _ (privileged : Bool) (answers : ℕ → Answers) where
    -- `Harvest` with the cache.
    pub harvest_cached : ℕ → L → Harvested × L
    unfolding store
    harvest_cached pid cache =
        let (cached, touched) = lru.get_touched pid cache in
        let (result, slot) = harvest privileged pid (answers pid) cached in
        (result, store pid cached slot touched)

    pub keep_result : Status → Option (Collected L) → Option (Collected L)
    keep_result s none = none
    keep_result s (some c) = some (record c { results = s ∷ c.results })

    pub keep_removed : ℕ → Option (Collected L) → Option (Collected L)
    keep_removed pid none = none
    keep_removed pid (some c) = some (record c { removed = pid ∷ c.removed })

    -- The loop of `Collect` over the process ids, in the order of one iteration; `none` is a panic of a
    -- harvest.
    pub collect_loop : List ℕ → L → Option (Collected L)
    unfolding harvest_cached keep_result keep_removed
    collect_loop [] cache = some (record { results = []; removed = []; cache = cache })
    collect_loop (pid ∷ pids) cache =
        let (result, cache') = harvest_cached pid cache in
        elim result [
          | harvested s ↦ keep_result s (collect_loop pids cache')
          | harvest_failed ↦ keep_removed pid (collect_loop pids (lru.remove pid cache'))
          | harvest_panic ↦ none
        ]

    pub trimmed : Option (Collected L) → Option (Collected L)
    unfolding trim
    trimmed none = none
    trimmed (some c) = some (record c { cache = trim (lru.len c.cache) (length c.results) c.cache })

    -- `Collect`
    pub collect : List ℕ → L → Option (Collected L)
    unfolding collect_loop trimmed
    collect pids cache = trimmed (collect_loop pids cache)

-- What `Run` reads of a span's service.
pub record SpanService : Type 0 where
  pub pid : ℕ
  pub features : ℕ

-- A turn of the loop of `Run`: spans that arrived, or the ticker, with what the system then answers.
pub data Turn : Type 0 where
  spans : List SpanService → Turn
  tick : (ℕ → Answers) → Turn

-- The variables of `Run`: the services by process id, and the cache.
pub record Collector (L : Type 0) : Type 0 where
  pub pids : Dict ℕ SpanService
  pub cache : L

-- `pids[spans[i].Service.ProcPID] = &spans[i].Service`, for services that export process metrics.
pub on_spans : List SpanService → Dict ℕ SpanService → Dict ℕ SpanService
unfolding any_feature put
on_spans [] pids = pids
on_spans (s ∷ later) pids =
    on_spans later (if any_feature s.features feature_process then put s.pid s pids else pids)

-- `for _, rp := range removed { delete(pids, rp) }`
pub delete_all : List ℕ → Dict ℕ SpanService → Dict ℕ SpanService
unfolding delete
delete_all [] pids = pids
delete_all (pid ∷ removed) pids = delete_all removed (delete pid pids)

abbrev pub pids_of : Dict ℕ SpanService → List ℕ
pids_of = map (λ e. e.0)

module _ {L : Type 0} (lru : Lru L) (privileged : Bool) where
  pub after_collect : Dict ℕ SpanService → Option (Collected L) → Option (List Status × Collector L)
  unfolding delete_all
  after_collect pids none = none
  after_collect pids (some r) =
      some (r.results, record { pids = delete_all r.removed pids; cache = r.cache })

  -- The statuses that a tick sends, and the collector after it; `none` is a panic.
  unfoldable pub on_tick : (ℕ → Answers) → Collector L → Option (List Status × Collector L)
  unfolding collect after_collect
  on_tick answers c = after_collect c.pids (collect lru privileged answers (pids_of c.pids) c.cache)

  -- The collector after the turns, as long as no harvest panics.
  unfoldable pub run : List Turn → Collector L → Option (Collector L)
  unfolding on_spans on_tick
  run [] c = some c
  run (spans ss ∷ turns) c = run turns (record c { pids = on_spans ss c.pids })
  run (tick answers ∷ turns) c = elim (on_tick answers c) [
    | none ↦ none
    | some (sent, c') ↦ run turns c'
  ]
