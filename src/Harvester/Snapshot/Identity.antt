-- ===== src/Harvester/Snapshot/Identity.antt =====
-- Which process a snapshot is of.
use e_bpf_lens.Prelude.{
  ℕ, Bool, true, false, none, some, ◌≡◌, refl, arith, inl, inr, Bool-cases, Option-cases, eq_iff,
}
use e_bpf_lens.Int64.{ℤ, same_int}
use e_bpf_lens.Harvester.Stat.{
  no_stats, ProcStats, Parsed, parsed, failed, panicked, parse_proc_stat,
}
use e_bpf_lens.Harvester.Snapshot.{
  Answers, LinuxProcess, Snapshot, reused, created, no_snapshot, snapshot_panic, get_linux_process,
  snapshot_of, same_process, new_process,
}

same_int_trans : (a b c : ℤ) → same_int a b ≡ true → same_int b c ≡ true → same_int a c ≡ true
same_int_trans a b c h k = ground arith

pub same_process_trans :
    (a b c : ProcStats)
    → same_process a b ≡ true
    → same_process b c ≡ true
    → same_process a c ≡ true
unfolding same_process
same_process_trans a b c h k =
    ground
      (arith, eq_iff a.command b.command, eq_iff b.command c.command, eq_iff a.command c.command)

module _ (c : LinuxProcess) where
  -- How a snapshot stands to the cached process.
  abbrev pub Fits : Snapshot → Type 0
  Fits (reused p) = (same_process p.stats c.stats ≡ true) × (p.prev_stats ≡ c.prev_stats)
  Fits (created p) = (same_process p.stats c.stats ≡ false) × (p.prev_stats ≡ no_stats)
  Fits no_snapshot = Unit
  Fits snapshot_panic = Unit

  Fits-snapshot_of :
      (sys : Answers) (privileged : Bool) (pid : ℕ) (stats : ProcStats)
      → Fits (snapshot_of sys privileged pid (some c) stats)
  unfolding snapshot_of new_process
  Fits-snapshot_of sys privileged pid stats = elim (Bool-cases (same_process stats c.stats)) [
    | inl e ↦ rw (e, snapshot_of) (e, refl)
    | inr e ↦ elim (Bool-cases sys.has_process) [
      | inl h ↦ rw (e, snapshot_of) (rw h (e, refl))
      | inr h ↦ rw (e, snapshot_of) (rw h tt)
    ]
  ]

  pub Fits-get_linux_process :
      (sys : Answers) (privileged : Bool) (pid : ℕ)
      → Fits (get_linux_process sys privileged pid (some c))
  unfolding get_linux_process
  Fits-get_linux_process sys privileged pid = elim (Option-cases sys.stat) [
    | inl e ↦ rw (e, get_linux_process) tt
    | inr (content, e) ↦
        rw (e, get_linux_process) (from_parse (parse_proc_stat sys.page_size content))
  ]
    where
      from_parse :
          (r : Parsed ProcStats)
          → Fits (elim r [
            | parsed stats ↦ snapshot_of sys privileged pid (some c) stats
            | failed e ↦ no_snapshot
            | panicked ↦ snapshot_panic
          ])
      from_parse (parsed stats) = Fits-snapshot_of sys privileged pid stats
      from_parse (failed e) = tt
      from_parse panicked = tt

-- Without a cached process there is only a new one.
abbrev pub IsNew : Snapshot → Type 0
IsNew (reused p) = ⊥
IsNew (created p) = p.prev_stats ≡ no_stats
IsNew no_snapshot = Unit
IsNew snapshot_panic = Unit

IsNew-new_process :
    (sys : Answers) (privileged : Bool) (pid : ℕ) (stats : ProcStats)
    → IsNew (new_process sys privileged pid stats)
unfolding new_process
IsNew-new_process sys privileged pid stats = elim (Bool-cases sys.has_process) [
  | inl h ↦ rw h refl
  | inr h ↦ rw h tt
]

pub IsNew-get_linux_process :
    (sys : Answers) (privileged : Bool) (pid : ℕ)
    → IsNew (get_linux_process sys privileged pid none)
unfolding get_linux_process snapshot_of
IsNew-get_linux_process sys privileged pid = elim (Option-cases sys.stat) [
  | inl e ↦ rw (e, get_linux_process) tt
  | inr (content, e) ↦
      rw (e, get_linux_process) (from_parse (parse_proc_stat sys.page_size content))
]
  where
    from_parse :
        (r : Parsed ProcStats)
        → IsNew (elim r [
          | parsed stats ↦ snapshot_of sys privileged pid none stats
          | failed e ↦ no_snapshot
          | panicked ↦ snapshot_panic
        ])
    from_parse (parsed stats) = IsNew-new_process sys privileged pid stats
    from_parse (failed e) = tt
    from_parse panicked = tt
