-- ===== src/Harvester/Collect/Follow.antt =====
-- The processes that the collector follows, and those that its cache holds.
use e_bpf_lens.Prelude.{
  ℕ, Bool, true, false, Option, none, some, List, [], ◌∷◌, ◌≡◌, refl, ap, sym, ◌∙◌, All, eqb, arith,
  Dict, put, delete, inl, inr, Bool-cases, Option-cases, subst,
}
use e_bpf_lens.Harvester.Snapshot.{Answers}
use e_bpf_lens.Harvester.Harvest.{Status}
use e_bpf_lens.Export.Features.{any_feature, feature_process}
use e_bpf_lens.Harvester.Collect.{
  Lru, Collected, Collector, SpanService, Turn, spans, tick, collect, on_spans, delete_all, pids_of,
  after_collect, on_tick, run, pid_eq,
}
use e_bpf_lens.Harvester.Collect.Survivors.{
  IsLru, without, without_lacking, Distinct, Splits, nil, alive_first, gone_first, backwards,
  IsCollected, collect-IsCollected,
}

pids_of-delete : (k : ℕ) (m : Dict ℕ SpanService) → pids_of (delete k m) ≡ without k (pids_of m)
unfolding delete
pids_of-delete k [] = refl
pids_of-delete k ((j, s) ∷ m) = let rest = pids_of-delete k m in ground arith

abbrev without_all : List ℕ → List ℕ → List ℕ
without_all [] ks = ks
without_all (g ∷ gone) ks = without_all gone (without g ks)

pids_of-delete_all :
    (gone : List ℕ) (m : Dict ℕ SpanService)
    → pids_of (delete_all gone m) ≡ without_all gone (pids_of m)
unfolding delete_all
pids_of-delete_all [] m = refl
pids_of-delete_all (g ∷ gone) m =
    pids_of-delete_all gone (delete g m) ∙ ap (without_all gone) (pids_of-delete g m)

-- The ids that are gone are among those that were split.
gone_among :
    (P : ℕ → Type 0) {ks alive gone : List ℕ} → Splits ks alive gone → All P ks → All P gone
gone_among P nil h = tt
gone_among P (alive_first k s) (h, hs) = gone_among P s hs
gone_among P (gone_first k s) (h, hs) = (h, gone_among P s hs)

keeps_front :
    (k : ℕ) (gone ks : List ℕ)
    → All (λ j. eqb k j ≡ false) gone
    → without_all gone (k ∷ ks) ≡ k ∷ without_all gone ks
keeps_front k [] ks h = refl
keeps_front k (g ∷ gone) ks (h, hs) = rw h (keeps_front k gone (without g ks) hs)

turned : (k : ℕ) (ks : List ℕ) → All (λ j. eqb k j ≡ false) ks → All (λ j. eqb j k ≡ false) ks
turned k [] h = tt
turned k (j ∷ ks) (h, hs) = (ground arith, turned k ks hs)

without_all-Splits :
    {ks alive gone : List ℕ} → Splits ks alive gone → Distinct ks → without_all gone ks ≡ alive
without_all-Splits nil d = refl
without_all-Splits (alive_first k {ks} {alive} {gone} s) (d, ds) =
    keeps_front k gone ks (gone_among _ s d) ∙ ap (◌∷◌ k) (without_all-Splits s ds)
without_all-Splits (gone_first k {ks} {alive} {gone} s) (d, ds) =
    let self : eqb k k ≡ true = ground arith in
    ap (without_all gone) (rw self (without_lacking k ks (turned k ks d))) ∙ without_all-Splits s ds

lacks-without :
    (k j : ℕ) (ks : List ℕ)
    → All (λ i. eqb k i ≡ false) ks
    → All (λ i. eqb k i ≡ false) (without j ks)
lacks-without k j [] h = tt
lacks-without k j (i ∷ ks) (h, hs) = elim (Bool-cases (eqb i j)) [
  | inl e ↦ rw e (lacks-without k j ks hs)
  | inr e ↦ rw e (h, lacks-without k j ks hs)
]

Distinct-without : (k : ℕ) (ks : List ℕ) → Distinct ks → Distinct (without k ks)
Distinct-without k [] d = tt
Distinct-without k (j ∷ ks) (d, ds) = elim (Bool-cases (eqb j k)) [
  | inl e ↦ rw e (Distinct-without k ks ds)
  | inr e ↦ rw e (lacks-without j k ks d, Distinct-without k ks ds)
]

absent-without : (k : ℕ) (ks : List ℕ) → All (λ i. eqb k i ≡ false) (without k ks)
absent-without k [] = tt
absent-without k (j ∷ ks) = elim (Bool-cases (eqb j k)) [
  | inl e ↦ rw e (absent-without k ks)
  | inr e ↦ rw e (ground arith, absent-without k ks)
]

Distinct-delete_all :
    (gone : List ℕ) (m : Dict ℕ SpanService)
    → Distinct (pids_of m)
    → Distinct (pids_of (delete_all gone m))
unfolding delete_all
Distinct-delete_all [] m d = d
Distinct-delete_all (g ∷ gone) m d =
    Distinct-delete_all gone (delete g m) (rw pids_of-delete (Distinct-without g (pids_of m) d))

Distinct-put :
    (k : ℕ) (s : SpanService) (m : Dict ℕ SpanService)
    → Distinct (pids_of m)
    → Distinct (pids_of (put k s m))
unfolding put
Distinct-put k s m d =
    rw pids_of-delete (absent-without k (pids_of m), Distinct-without k (pids_of m) d)

Distinct-on_spans :
    (ss : List SpanService) (m : Dict ℕ SpanService)
    → Distinct (pids_of m)
    → Distinct (pids_of (on_spans ss m))
unfolding on_spans
Distinct-on_spans [] m d = d
Distinct-on_spans (s ∷ ss) m d =
    Distinct-on_spans ss _ (elim (Bool-cases (any_feature s.features feature_process)) [
      | inl e ↦ rw e (Distinct-put s.pid s m d)
      | inr e ↦ rw e d
    ])

module _ {L : Type 0} (lru : Lru L) (law : IsLru lru) (privileged : Bool) where
  -- The cache holds exactly the processes that are followed, the last one at the front.
  abbrev pub HoldsFollowed : Collector L → Type 0
  HoldsFollowed c = law.keys c.cache ≡ backwards (pids_of c.pids) []

  ticked :
      (answers : ℕ → Answers) (m : Dict ℕ SpanService) (o : Option (Collected L))
      → Distinct (pids_of m)
      → IsCollected lru law privileged answers (pids_of m) o
      → (sent : List Status) (c : Collector L) → after_collect lru privileged m o ≡ some (sent, c)
      → HoldsFollowed c × Distinct (pids_of c.pids)
  unfolding after_collect
  ticked answers m none d h sent c e = cc
  ticked answers m (some r) d (alive, split, count, held) sent c e =
      let c' : Collector L = record { pids = delete_all r.removed m; cache = r.cache } in
      let same : c' ≡ c = cc e in
      subst (λ x. HoldsFollowed x × Distinct (pids_of x.pids)) same
        (
          held
              ∙ ap (λ ks. backwards ks [])
                  (sym (pids_of-delete_all r.removed m ∙ without_all-Splits split d)),
          Distinct-delete_all r.removed m d,
        )

  on_tick-HoldsFollowed :
      (answers : ℕ → Answers) (c : Collector L)
      → Distinct (pids_of c.pids)
      → (sent : List Status) (c' : Collector L) → on_tick lru privileged answers c ≡ some (sent, c')
      → HoldsFollowed c' × Distinct (pids_of c'.pids)
  unfolding on_tick
  on_tick-HoldsFollowed answers c d =
      ticked answers c.pids (collect lru privileged answers (pids_of c.pids) c.cache) d
        (collect-IsCollected lru law privileged answers (pids_of c.pids) c.cache d)

  run-Distinct :
      (turns : List Turn) (c c' : Collector L)
      → Distinct (pids_of c.pids)
      → run lru privileged turns c ≡ some c'
      → Distinct (pids_of c'.pids)
  unfolding run
  run-Distinct [] c c' d e =
      let same : c ≡ c' = cc e in subst (λ (x : Collector L). Distinct (pids_of x.pids)) same d
  run-Distinct (spans ss ∷ turns) c c' d e =
      run-Distinct turns (record c { pids = on_spans ss c.pids }) c' (Distinct-on_spans ss c.pids d)
        e
  run-Distinct (tick answers ∷ turns) c c' d e =
      elim (Option-cases (on_tick lru privileged answers c)) [
        | inl p ↦ absurd (ground (arith, (rw (p, run) at e)))
        | inr ((sent, next), p) ↦
            run-Distinct turns next c' (on_tick-HoldsFollowed answers c d sent next p).1
              (rw (p, run) at e)
      ]

  -- Whatever spans and ticks came before, a tick that no harvest panics in leaves in the cache
  -- exactly the processes that the collector goes on following: nothing of a process that is gone
  -- stays behind, in the cache or in the map.
  pub run-HoldsFollowed :
      (turns : List Turn) (answers : ℕ → Answers) (c before after : Collector L)
      (sent : List Status)
      → Distinct (pids_of c.pids)
      → run lru privileged turns c ≡ some before
      → on_tick lru privileged answers before ≡ some (sent, after)
      → HoldsFollowed after
  run-HoldsFollowed turns answers c before after sent d e t =
      (on_tick-HoldsFollowed answers before (run-Distinct turns c before d e) sent after t).0
