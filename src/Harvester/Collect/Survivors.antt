-- ===== src/Harvester/Collect/Survivors.antt =====
-- What is left in the cache after a collection.
use e_bpf_lens.Prelude.{
  ℕ, zero, suc, ◌+◌, ◌≤◌, Bool, true, false, Option, none, some, List, [], ◌∷◌, ◌++◌, ◌≡◌, refl, ap,
  ◌∙◌, if◌then◌else◌, All, All-of, ◌⊎◌, eqb, ltb, length, length-append, inl, inr, arith,
}
use mathlib.Core.List.{append-nil}
use e_bpf_lens.Harvester.Snapshot.{Answers, LinuxProcess}
use e_bpf_lens.Harvester.Harvest.{
  Status, Harvested, harvested, harvest_failed, harvest_panic, harvest,
}
use e_bpf_lens.Harvester.Harvest.Slot.{harvest_stores}
use e_bpf_lens.Harvester.Collect.{
  Lru, Collected, store, harvest_cached, keep_result, keep_removed, collect_loop, trim, trimmed,
  collect,
}

Harvested-cases :
    (h : Harvested)
    → ((s : Status) × (h ≡ harvested s)) ⊎ (h ≡ harvest_failed) ⊎ (h ≡ harvest_panic)
Harvested-cases (harvested s) = inl (s, refl)
Harvested-cases harvest_failed = inr (inl refl)
Harvested-cases harvest_panic = inr (inr refl)

-- The list without the process id.
abbrev pub without : ℕ → List ℕ → List ℕ
without k [] = []
without k (j ∷ ks) = let rest = without k ks in if eqb j k then rest else j ∷ rest

abbrev pub drop_last : List ℕ → List ℕ
drop_last [] = []
drop_last (k ∷ []) = []
drop_last (k ∷ j ∷ ks) = k ∷ drop_last (j ∷ ks)

-- What the cache promises of its keys, the most recently used one first.
pub record IsLru {L : Type 0} (lru : Lru L) : Type 0 where
  pub keys : L → List ℕ
  pub hit :
      (k : ℕ) (c : L) (p : LinuxProcess)
      → (lru.get_touched k c).0 ≡ some p
      → keys (lru.get_touched k c).1 ≡ k ∷ without k (keys c)
  pub miss :
      (k : ℕ) (c : L)
      → (lru.get_touched k c).0 ≡ none
      → keys (lru.get_touched k c).1 ≡ without k (keys c)
  pub keys-add : (k : ℕ) (p : LinuxProcess) (c : L) → keys (lru.add k p c) ≡ k ∷ without k (keys c)
  pub keys-write : (k : ℕ) (p : LinuxProcess) (c : L) → keys (lru.write k p c) ≡ keys c
  pub keys-remove : (k : ℕ) (c : L) → keys (lru.remove k c) ≡ without k (keys c)
  pub keys-remove_oldest : (c : L) → keys (lru.remove_oldest c) ≡ drop_last (keys c)
  pub len-keys : (c : L) → lru.len c ≡ length (keys c)

-- The ids that are all different, and those that a list lacks.
abbrev pub Distinct : List ℕ → Type 0
Distinct [] = Unit
Distinct (k ∷ ks) = All (λ j. eqb k j ≡ false) ks × Distinct ks

abbrev Lacks : List ℕ → ℕ → Type 0
Lacks ks k = All (λ j. eqb j k ≡ false) ks

-- The process ids, each either alive or removed, in the order of the list.
pub data Splits : List ℕ → List ℕ → List ℕ → Type 0 where
  nil : Splits [] [] []
  alive_first :
      (k : ℕ) {ks alive gone : List ℕ} → Splits ks alive gone → Splits (k ∷ ks) (k ∷ alive) gone
  gone_first :
      (k : ℕ) {ks alive gone : List ℕ} → Splits ks alive gone → Splits (k ∷ ks) alive (k ∷ gone)

-- The first list, backwards, before the second.
abbrev pub backwards : List ℕ → List ℕ → List ℕ
backwards [] ks = ks
backwards (j ∷ js) ks = backwards js (j ∷ ks)

without-without : (k : ℕ) (ks : List ℕ) → without k (without k ks) ≡ without k ks
without-without k [] = refl
without-without k (j ∷ ks) = let rest = without-without k ks in ground arith

without-append : (k : ℕ) (xs ys : List ℕ) → without k (xs ++ ys) ≡ without k xs ++ without k ys
without-append k [] ys = refl
without-append k (j ∷ xs) ys = let rest = without-append k xs ys in ground arith

pub without_lacking : (k : ℕ) (ks : List ℕ) → All (λ j. eqb j k ≡ false) ks → without k ks ≡ ks
without_lacking k [] h = refl
without_lacking k (j ∷ ks) (h, hs) = rw h (ap (◌∷◌ j) (without_lacking k ks hs))

lack_more :
    (j : ℕ) (before ks : List ℕ)
    → All (λ k. eqb j k ≡ false) ks
    → All (Lacks before) ks
    → All (Lacks (j ∷ before)) ks
lack_more j before [] h a = tt
lack_more j before (k ∷ ks) (h, hs) (a, as_) = ((h, a), lack_more j before ks hs as_)

length-backwards : (js ks : List ℕ) → length (backwards js ks) ≡ length js + length ks
length-backwards [] ks = omega arith
length-backwards (j ∷ js) ks = omega (arith, length-backwards js (j ∷ ks))

drop_last-append : (xs ys : List ℕ) (y : ℕ) → drop_last (xs ++ y ∷ ys) ≡ xs ++ drop_last (y ∷ ys)
drop_last-append [] ys y = refl
drop_last-append (x ∷ []) ys y = refl
drop_last-append (x ∷ x' ∷ xs) ys y = ap (◌∷◌ x) (drop_last-append (x' ∷ xs) ys y)

length-drop_last : (y : ℕ) (ys : List ℕ) → length (drop_last (y ∷ ys)) ≡ length ys
length-drop_last y [] = refl
length-drop_last y (y' ∷ ys) = ap suc (length-drop_last y' ys)

module _ {L : Type 0} (lru : Lru L) (law : IsLru lru) where
  -- The loop ends within as many rounds as the cache has entries, and leaves the first ones.
  trim_keeps :
      (rounds : ℕ) (first rest : List ℕ) (c : L)
      → law.keys c ≡ first ++ rest
      → length rest ≤ rounds
      → law.keys (trim lru rounds (length first) c) ≡ first
  unfolding trim
  trim_keeps zero first [] c e h = e ∙ append-nil first
  trim_keeps zero first (y ∷ rest) c e h = absurd (omega arith)
  trim_keeps (suc rounds) first [] c e h =
      let full = e ∙ append-nil first in
      let size : lru.len c ≡ length first = law.len-keys c ∙ ap length full in
      let ends : ltb (length first) (lru.len c) ≡ false = ground arith in rw ends full
  trim_keeps (suc rounds) first (y ∷ rest) c e h =
      let size : lru.len c ≡ length first + suc (length rest) =
        law.len-keys c ∙ ap length e ∙ length-append first (y ∷ rest) in
      let goes_on : ltb (length first) (lru.len c) ≡ true = ground arith in
      rw goes_on (
        trim_keeps rounds first (drop_last (y ∷ rest)) (lru.remove_oldest c)
          (law.keys-remove_oldest c ∙ ap drop_last e ∙ drop_last-append first rest y)
          (omega (arith, length-drop_last y rest)))

  store_front :
      (pid : ℕ) (c : L) (o : Option LinuxProcess) (p : LinuxProcess)
      → (lru.get_touched pid c).0 ≡ o
      → law.keys (store lru pid o (some p) (lru.get_touched pid c).1)
        ≡ pid ∷ without pid (law.keys c)
  unfolding store
  store_front pid c none p e =
      law.keys-add pid p (lru.get_touched pid c).1
      ∙ ap (λ ks. pid ∷ without pid ks) (law.miss pid c e)
      ∙ ap (◌∷◌ pid) (without-without pid (law.keys c))
  store_front pid c (some q) p e =
      law.keys-write pid p (lru.get_touched pid c).1 ∙ law.hit pid c q e

  without_front : (k : ℕ) (ks : List ℕ) → without k (k ∷ without k ks) ≡ without k ks
  without_front k ks = let again = without-without k ks in ground arith

  store_others :
      (pid : ℕ) (c : L) (o slot : Option LinuxProcess)
      → (lru.get_touched pid c).0 ≡ o
      → without pid (law.keys (store lru pid o slot (lru.get_touched pid c).1))
        ≡ without pid (law.keys c)
  unfolding store
  store_others pid c o (some p) e =
      ap (without pid) (store_front pid c o p e) ∙ without_front pid (law.keys c)
  store_others pid c none none e =
      ap (without pid) (law.miss pid c e) ∙ without-without pid (law.keys c)
  store_others pid c (some q) none e =
      ap (without pid) (law.hit pid c q e) ∙ without_front pid (law.keys c)

  module _ (privileged : Bool) (answers : ℕ → Answers) where
    -- A harvest that succeeds brings its process to the front.
    front_after :
        (pid : ℕ) (c : L) (s : Status)
        → (harvest_cached lru privileged answers pid c).0 ≡ harvested s
        → law.keys (harvest_cached lru privileged answers pid c).1 ≡ pid ∷ without pid (law.keys c)
    unfolding harvest_cached
    front_after pid c s e =
        let (p, full) = harvest_stores privileged pid (answers pid) (lru.get_touched pid c).0 s e in
        ap
          (λ slot.
            law.keys (store lru pid (lru.get_touched pid c).0 slot (lru.get_touched pid c).1))
          full
        ∙ store_front pid c (lru.get_touched pid c).0 p refl

    -- Any harvest keeps the other processes, in their order.
    others_after :
        (pid : ℕ) (c : L)
        → without pid (law.keys (harvest_cached lru privileged answers pid c).1)
          ≡ without pid (law.keys c)
    unfolding harvest_cached
    others_after pid c =
        store_others pid c (lru.get_touched pid c).0
          (harvest privileged pid (answers pid) (lru.get_touched pid c).0).1 refl

    -- Some harvest panics.
    abbrev Panics : Type 0
    Panics = (pid : ℕ) × (c : L) × ((harvest_cached lru privileged answers pid c).0 ≡ harvest_panic)

    -- How the loop leaves the cache: the processes that are alive come first, the last one at the
    -- front.
    abbrev Leaves : List ℕ → List ℕ → Option (Collected L) → Type 0
    Leaves pids before none = Panics
    Leaves pids before (some r) =
        (alive : List ℕ) × (rest : List ℕ) × Splits pids alive r.removed
        × (length r.results ≡ length alive)
        × (law.keys r.cache ≡ backwards alive before ++ rest)

    Leaves-result :
        (pid : ℕ) (pids before : List ℕ) (s : Status) (o : Option (Collected L))
        → Leaves pids (pid ∷ before) o
        → Leaves (pid ∷ pids) before (keep_result lru privileged answers s o)
    unfolding keep_result
    Leaves-result pid pids before s none h = h
    Leaves-result pid pids before s (some r) (alive, rest, split, count, held) =
        (pid ∷ alive, rest, alive_first pid split, ap suc count, held)

    Leaves-removed :
        (pid : ℕ) (pids before : List ℕ) (o : Option (Collected L))
        → Leaves pids before o
        → Leaves (pid ∷ pids) before (keep_removed lru privileged answers pid o)
    unfolding keep_removed
    Leaves-removed pid pids before none h = h
    Leaves-removed pid pids before (some r) (alive, rest, split, count, held) =
        (alive, rest, gone_first pid split, count, held)

    collect_loop-Leaves :
        (pids before rest : List ℕ) (c : L)
        → law.keys c ≡ before ++ rest
        → Distinct pids
        → All (Lacks before) pids
        → Leaves pids before (collect_loop lru privileged answers pids c)
    unfolding collect_loop
    collect_loop-Leaves [] before rest c e d a = ([], rest, nil, refl, e)
    collect_loop-Leaves (pid ∷ pids) before rest c e (d, ds) (a, as_) =
        let next = harvest_cached lru privileged answers pid c in
        let apart =
          ap (without pid) e
          ∙ without-append pid before rest
          ∙ ap (λ ks. ks ++ without pid rest) (without_lacking pid before a) in
        elim (Harvested-cases next.0) [
          | inl (s, h) ↦
              rw (h, collect_loop)
                (Leaves-result pid pids before s _ (
                  collect_loop-Leaves pids (pid ∷ before) (without pid rest) next.1
                    (front_after pid c s h ∙ ap (◌∷◌ pid) apart) ds
                    (lack_more pid before pids d as_)))
          | inr (inl h) ↦
              rw (h, collect_loop)
                (Leaves-removed pid pids before _ (
                  collect_loop-Leaves pids before (without pid rest) (lru.remove pid next.1)
                    (law.keys-remove pid next.1 ∙ others_after pid c ∙ apart) ds as_))
          | inr (inr h) ↦ rw (h, collect_loop) (pid, c, h)
        ]

    -- A collection that is through: as many statuses as there are processes alive, and these make up
    -- the cache.
    abbrev pub IsCollected : List ℕ → Option (Collected L) → Type 0
    IsCollected pids none = Panics
    IsCollected pids (some r) =
        (alive : List ℕ) × Splits pids alive r.removed
        × (length r.results ≡ length alive)
        × (law.keys r.cache ≡ backwards alive [])

    trimmed-IsCollected :
        (pids : List ℕ) (o : Option (Collected L))
        → Leaves pids [] o
        → IsCollected pids (trimmed lru privileged answers o)
    unfolding trimmed
    trimmed-IsCollected pids none h = h
    trimmed-IsCollected pids (some r) (alive, rest, split, count, held) =
        let size =
          law.len-keys r.cache ∙ ap length held ∙ length-append (backwards alive []) rest in
        let same : length r.results ≡ length (backwards alive []) =
          omega (arith, count, length-backwards alive []) in
        (
          alive,
          split,
          count,
          rw same (
              trim_keeps (lru.len r.cache) (backwards alive []) rest r.cache held
                (omega (arith, size))),
        )

    -- A collection reports each process once, as alive or as removed, returns a status for each one
    -- that is alive, and leaves exactly those in the cache, whatever it held before: the loop that
    -- trims the cache ends, and drops neither more nor less. The only way out is a harvest that
    -- panics. The process ids are distinct.
    pub collect-IsCollected :
        (pids : List ℕ) (c : L)
        → Distinct pids
        → IsCollected pids (collect lru privileged answers pids c)
    unfolding collect
    collect-IsCollected pids c d =
        trimmed-IsCollected pids (collect_loop lru privileged answers pids c)
          (collect_loop-Leaves pids [] (law.keys c) c refl d (All-of (λ k. tt) pids))
