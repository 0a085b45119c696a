-- ===== src/Webhook/Scanner/Oldest.antt =====
-- The version that `FindExistingProcesses` keeps is no newer than the version of any process it saw.
use e_bpf_lens.Prelude.{
  String, true, false, ◌&&◌, some, List, [], ◌∷◌, ◌++◌, ◌≡◌, arith, Map, lookup, if◌then◌else◌,
  Bool-cases, Option-cases, inl, inr,
}
use e_bpf_lens.Webhook.Deps.{Semver, IsPreorder, is_less, is_greater, Sign}
use e_bpf_lens.Webhook.Process.{ProcessInfo}
use e_bpf_lens.Webhook.Scanner.{
  Scan, System, older, scan_process, scan_loop, env_strs_to_map, find_existing_processes,
  LocalProcessScanner,
}

-- `v` is not older than `w`.
abbrev pub AtLeast : Semver → String → String → Type 0
AtLeast semver v w = is_less (semver.compare v w) ≡ false

-- The process is alive, and its environment names the SDK version `ver`, a valid one.
pub record Uses (semver : Semver) (sys : System) (p : ProcessInfo) (ver : String) : Type 0 where
  pub strs : List String
  pub alive : sys.has_process p.pid ≡ true
  pub readable : sys.environ p.pid ≡ some strs
  pub names : lookup "BEYLA_INJECTOR_SDK_PKG_VERSION" (env_strs_to_map strs) ≡ some ver
  pub valid : semver.is_valid ver ≡ true

module _ (semver : Semver) (sys : System) (order : IsPreorder semver) where
  AtLeast-refl : (v : String) → AtLeast semver v v
  AtLeast-refl v = order.less_irrefl v

  pub AtLeast-trans :
      (u v w : String) → AtLeast semver w v → AtLeast semver v u → AtLeast semver w u
  AtLeast-trans u v w h k = order.less_trans u v w k h

  AtLeast-of_less : (v w : String) → is_less (semver.compare v w) ≡ true → AtLeast semver w v
  AtLeast-of_less v w h = less_not_greater (semver.compare v w) (order.swap v w) h
    where
      less_not_greater :
          (s : Sign)
          → is_greater s ≡ is_less (semver.compare w v)
          → is_less s ≡ true
          → is_less (semver.compare w v) ≡ false
      less_not_greater Sign.less e h = ground arith
      less_not_greater Sign.equal e h = ground arith
      less_not_greater Sign.greater e h = ground arith

  AtLeast-older :
      (env : Map String) (oldest : String) → AtLeast semver oldest (older semver env oldest)
  unfolding older
  AtLeast-older env oldest = elim (Option-cases (lookup "BEYLA_INJECTOR_SDK_PKG_VERSION" env)) [
    | inl e ↦ rw (e, older) (AtLeast-refl oldest)
    | inr (ver, e) ↦ rw (e, older) (kept ver)
  ]
    where
      kept :
          (ver : String)
          → AtLeast semver oldest
              (if semver.is_valid ver && is_less (semver.compare ver oldest) then ver else oldest)
      kept ver = ground (arith, AtLeast-refl oldest, AtLeast-of_less ver oldest)

  AtLeast-older_of_names :
      (env : Map String) (oldest ver : String)
      → lookup "BEYLA_INJECTOR_SDK_PKG_VERSION" env ≡ some ver
      → semver.is_valid ver ≡ true
      → AtLeast semver ver (older semver env oldest)
  unfolding older
  AtLeast-older_of_names env oldest ver e valid = ground (arith, AtLeast-refl ver)

  AtLeast-scan_process :
      (p : ProcessInfo) (scan : Scan)
      → AtLeast semver scan.oldest (scan_process semver sys p scan).oldest
  unfolding scan_process
  AtLeast-scan_process p scan = elim (Bool-cases (sys.has_process p.pid)) [
    | inl e ↦ elim (Option-cases (sys.environ p.pid)) [
      | inl n ↦ rw (e, scan_process) (rw n (AtLeast-refl scan.oldest))
      | inr (strs, n) ↦
          rw (e, scan_process) (rw n (AtLeast-older (env_strs_to_map strs) scan.oldest))
    ]
    | inr e ↦ rw (e, scan_process) (AtLeast-refl scan.oldest)
  ]

  scan_process_saw :
      (p : ProcessInfo) (scan : Scan) (ver : String)
      → Uses semver sys p ver
      → AtLeast semver ver (scan_process semver sys p scan).oldest
  unfolding scan_process
  scan_process_saw p scan ver u =
      rw (u.alive, scan_process)
        (rw u.readable
          (AtLeast-older_of_names (env_strs_to_map u.strs) scan.oldest ver u.names u.valid))

  AtLeast-scan_loop :
      (procs : List ProcessInfo) (scan : Scan)
      → AtLeast semver scan.oldest (scan_loop semver sys procs scan).oldest
  unfolding scan_loop
  AtLeast-scan_loop [] scan = AtLeast-refl scan.oldest
  AtLeast-scan_loop (p ∷ procs) scan =
      let after = scan_process semver sys p scan in
      AtLeast-trans (scan_loop semver sys procs after).oldest after.oldest scan.oldest
        (AtLeast-scan_process p scan) (AtLeast-scan_loop procs after)

  -- Wherever the process stands in the order in which the map is walked.
  scan_loop_saw :
      (before after : List ProcessInfo) (p : ProcessInfo) (ver : String)
      → Uses semver sys p ver
      → (scan : Scan) → AtLeast semver ver (scan_loop semver sys (before ++ p ∷ after) scan).oldest
  unfolding scan_loop
  scan_loop_saw [] after p ver u scan =
      let next = scan_process semver sys p scan in
      AtLeast-trans (scan_loop semver sys after next).oldest next.oldest ver
        (scan_process_saw p scan ver u) (AtLeast-scan_loop after next)
  scan_loop_saw (q ∷ before) after p ver u scan =
      scan_loop_saw before after p ver u (scan_process semver sys q scan)

  -- After a search, no live process that names a valid SDK version names one older than the version
  -- that the scanner keeps, in whatever order the processes are walked.
  pub find_existing_processes_saw :
      (before after : List ProcessInfo) (p : ProcessInfo) (ver : String)
      → Uses semver sys p ver
      → (s : LocalProcessScanner)
      → AtLeast semver ver
          (find_existing_processes semver sys (some (before ++ p ∷ after)) s).0.oldest_sdk_version
  unfolding find_existing_processes
  find_existing_processes_saw before after p ver u s =
      scan_loop_saw before after p ver u (record { oldest = s.oldest_sdk_version; containers = [] })
