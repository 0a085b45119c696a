-- ===== src/Webhook/Server/Versions.antt =====
-- The clean-up of old SDK versions removes none that is in use, and all that are stale.
use e_bpf_lens.Prelude.{
  String, Bool, true, false, ◌&&◌, Option, none, some, List, [], ◌∷◌, ◌++◌, ◌≡◌, refl, arith, any,
  if◌then◌else◌, Bool-cases, inl, inr, ◌==◌, eq_iff, keep, map, subst,
}
use e_bpf_lens.Webhook.Config.{SdkInject}
use e_bpf_lens.Webhook.Deps.{Semver, IsPreorder, is_less, is_greater, Sign}
use e_bpf_lens.Webhook.Process.{ProcessInfo}
use e_bpf_lens.Webhook.Scanner.{
  System, LocalProcessScanner, dummy_sdk_version, oldest_sdk, find_existing_processes,
}
use e_bpf_lens.Webhook.Scanner.Oldest.{AtLeast, Uses, AtLeast-trans, find_existing_processes_saw}
use e_bpf_lens.Webhook.Server.{
  Server, DirEntry, Cleanup, cleanup_loop, cleanup_old_instrumentation_versions, minimum_version,
  establish_initial_process_state,
}

-- The names of the removed directories, as far as a clean-up was made.
abbrev pub removals_of : Option Cleanup → List String
removals_of none = []
removals_of (some c) = c.removals

-- Whether the directory is a valid version that is older than the minimum.
abbrev is_stale : Semver → String → DirEntry → Bool
is_stale semver min e = e.is_dir && semver.is_valid e.name && is_less (semver.compare e.name min)

module _ (semver : Semver) where
  loop_keeps :
      (removed : String → Bool) (min ver : String) (entries : List DirEntry)
      → AtLeast semver ver min
      → any (λ n. n == ver) (cleanup_loop semver removed min entries).removals ≡ false
  unfolding cleanup_loop
  loop_keeps removed min ver [] h = refl
  loop_keeps removed min ver (e ∷ entries) h =
      ground (arith, loop_keeps removed min ver entries h, eq_iff e.name ver)

  cleanup_keeps :
      (removed : String → Bool) (min ver : String) (entries : Option (List DirEntry))
      → AtLeast semver ver min
      → any
          (λ n. n == ver)
          (cleanup_old_instrumentation_versions semver removed entries min).removals
        ≡ false
  unfolding cleanup_old_instrumentation_versions
  cleanup_keeps removed min ver none h = ground arith
  cleanup_keeps removed min ver (some es) h = ground (arith, loop_keeps removed min ver es h)

  loop_stale :
      (min : String) (entries : List DirEntry)
      → cleanup_loop semver (λ _. true) min entries
        ≡ record { removals = map (λ e. e.name) (keep (is_stale semver min) entries); error = none }
  unfolding cleanup_loop
  loop_stale min [] = refl
  loop_stale min (e ∷ entries) = ground (arith, loop_stale min entries)

  -- Where every removal succeeds, the clean-up with a valid minimum removes exactly the directories
  -- whose names are valid versions older than the minimum, in their order, and reports no error.
  cleanup_old_instrumentation_versions-stale :
      (min : String) (entries : List DirEntry)
      → semver.is_valid min ≡ true
      → cleanup_old_instrumentation_versions semver (λ _. true) (some entries) min
        ≡ record { removals = map (λ e. e.name) (keep (is_stale semver min) entries); error = none }
  unfolding cleanup_old_instrumentation_versions
  cleanup_old_instrumentation_versions-stale min entries valid = rw valid (loop_stale min entries)

  module _ (order : IsPreorder semver) (sys : System) where
    current-AtLeast :
        (injector : SdkInject) (scanner : LocalProcessScanner)
        → AtLeast semver injector.sdk_pkg_version (minimum_version semver injector scanner)
    unfolding minimum_version
    current-AtLeast injector scanner = ground (
      arith,
      order.less_irrefl injector.sdk_pkg_version,
      order.swap (oldest_sdk scanner) injector.sdk_pkg_version,
    )

    used-AtLeast_oldest :
        (scanner : LocalProcessScanner) (ver : String)
        → AtLeast semver ver scanner.oldest_sdk_version
        → AtLeast semver dummy_sdk_version scanner.current_sdk_version
        → AtLeast semver ver (oldest_sdk scanner)
    unfolding oldest_sdk
    used-AtLeast_oldest scanner ver h k =
        elim (Bool-cases (scanner.oldest_sdk_version == dummy_sdk_version)) [
          | inl e ↦
              rw (e, oldest_sdk)
                (AtLeast-trans semver sys order scanner.current_sdk_version dummy_sdk_version ver
                  (subst (AtLeast semver ver)
                    ((eq_iff scanner.oldest_sdk_version dummy_sdk_version).0 e) h)
                  k)
          | inr e ↦ rw (e, oldest_sdk) h
        ]

    used-AtLeast :
        (injector : SdkInject) (scanner : LocalProcessScanner) (ver : String)
        → AtLeast semver ver scanner.oldest_sdk_version
        → AtLeast semver dummy_sdk_version scanner.current_sdk_version
        → AtLeast semver ver (minimum_version semver injector scanner)
    unfolding minimum_version
    used-AtLeast injector scanner ver h k = elim (Bool-cases (is_greater (semver.compare m pkg))) [
      | inl e ↦
          rw (e, minimum_version)
            (AtLeast-trans semver sys order pkg m ver used (not_less (semver.compare m pkg) e))
      | inr e ↦ rw (e, minimum_version) used
    ]
      where
        m : String
        m = oldest_sdk scanner

        pkg : String
        pkg = injector.sdk_pkg_version

        used : AtLeast semver ver m
        used = used-AtLeast_oldest scanner ver h k

        not_less : (s : Sign) → is_greater s ≡ true → is_less s ≡ false
        not_less Sign.less e = ground arith
        not_less Sign.equal e = refl
        not_less Sign.greater e = refl

    optional_cleanup_keeps :
        (b : Bool) (c : Cleanup) (ver : String)
        → any (λ n. n == ver) c.removals ≡ false
        → any (λ n. n == ver) (removals_of (if b then some c else none)) ≡ false
    optional_cleanup_keeps true c ver h = h
    optional_cleanup_keeps false c ver h = refl

    -- The clean-up never removes the directory of the version that is configured now.
    current_version_survives :
        {Modes : Type 0} (s : Server Modes) (removed : String → Bool)
        (entries : Option (List DirEntry)) (procs : Option (List ProcessInfo))
        → any
            (λ n. n == s.mutator.injector.sdk_pkg_version)
            (removals_of (establish_initial_process_state semver sys removed entries procs s).1)
          ≡ false
    unfolding establish_initial_process_state
    current_version_survives s removed entries none = refl
    current_version_survives s removed entries (some procs) =
        let injector = s.mutator.injector in
        optional_cleanup_keeps _ _ injector.sdk_pkg_version (
          cleanup_keeps removed _ injector.sdk_pkg_version entries (
            current-AtLeast injector (find_existing_processes semver sys (some procs) s.scanner).0))

    -- The clean-up removes no version that a live process of the node uses, whatever the order in
    -- which the processes are walked, as long as the configured version is not above v999.999.999.
    pub version_in_use_survives :
        {Modes : Type 0} (s : Server Modes) (removed : String → Bool)
        (entries : Option (List DirEntry)) (before after : List ProcessInfo) (p : ProcessInfo)
        (ver : String)
        → Uses semver sys p ver
        → AtLeast semver dummy_sdk_version s.scanner.current_sdk_version
        → any
            (λ n. n == ver)
            (removals_of
              (establish_initial_process_state semver sys removed entries
                (some (before ++ p ∷ after))
                s).1)
          ≡ false
    unfolding establish_initial_process_state
    version_in_use_survives s removed entries before after p ver u k =
        let scanner =
          (find_existing_processes semver sys (some (before ++ p ∷ after)) s.scanner).0 in
        optional_cleanup_keeps _ _ ver (
          cleanup_keeps removed _ ver entries (
            used-AtLeast s.mutator.injector scanner ver
              (find_existing_processes_saw semver sys order before after p ver u s.scanner) k))
