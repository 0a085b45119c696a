-- ===== src/Webhook/Server.antt =====
-- pkg/webhook/server.go: the initial state, the clean-up of old SDK versions, and the reaction to
-- pod events. The HTTP server, its TLS files and the goroutines are left out.
pub mod Restarts
pub mod Settled
pub mod Versions
use e_bpf_lens.Prelude.{
  String, Bool, true, false, not, ◌&&◌, Option, none, some, List, [], ◌∷◌, ◌++◌, Map, lookup,
  insert, value_at, if◌then◌else◌, is_some, map,
}
use e_bpf_lens.Webhook.Config.{SdkInject, uses_image_volume, package_version, can_instrument}
use e_bpf_lens.Webhook.Deps.{Semver, is_less, is_greater}
use e_bpf_lens.Webhook.EnvVars.{PodMutator}
use e_bpf_lens.Webhook.Mutator.{preloads_something_else, already_instrumented_process}
use e_bpf_lens.Webhook.Matcher.{match_process_info}
use e_bpf_lens.Webhook.Owners.{Owner}
use e_bpf_lens.Webhook.Process.{ProcessInfo, attr_namespace, pod_metadata}
use e_bpf_lens.Webhook.Bouncer.{
  PodBouncer, KubeClient, Call, can_be_bounced, already_bounced, restart_deployment,
}
use e_bpf_lens.Webhook.Scanner.{LocalProcessScanner, System, find_existing_processes, oldest_sdk}

-- The parts of `Server` that its handlers read and write. Events arrive only where there are
-- selection criteria, and there `NewServer` has made a bouncer.
pub record Server (Modes : Type 0) : Type 0 where
  pub mutator : PodMutator Modes
  pub bouncer : PodBouncer
  pub scanner : LocalProcessScanner
  pub initial_state : Map (List ProcessInfo)

pub record DirEntry : Type 0 where
  pub name : String
  pub is_dir : Bool

pub data CleanupError : Type 0 where
  invalid_minimum read_failed : CleanupError
  remove_failed : String → CleanupError

-- The names of the directories that were handed to `os.RemoveAll`, and the error.
pub record Cleanup : Type 0 where
  pub removals : List String
  pub error : Option CleanupError

-- The loop over the entries; `removed` says whether `os.RemoveAll` of a directory succeeds.
pub cleanup_loop : Semver → (String → Bool) → String → List DirEntry → Cleanup
cleanup_loop semver removed min [] = record { removals = []; error = none }
cleanup_loop semver removed min (entry ∷ entries) =
    let rest = cleanup_loop semver removed min entries in
    if not entry.is_dir
    then rest
    else if not (semver.is_valid entry.name)
    then rest
    else if is_less (semver.compare entry.name min)
    then if removed entry.name
      then record rest { removals = entry.name ∷ rest.removals }
      else record { removals = entry.name ∷ []; error = some (remove_failed entry.name) }
    else rest

-- `none` for entries is an error of `os.ReadDir`.
pub cleanup_old_instrumentation_versions :
    Semver → (String → Bool) → Option (List DirEntry) → String → Cleanup
unfolding cleanup_loop
cleanup_old_instrumentation_versions semver removed entries min =
    if not (semver.is_valid min)
    then record { removals = []; error = some invalid_minimum }
    else elim entries [
      | none ↦ record { removals = []; error = some read_failed }
      | some es ↦ cleanup_loop semver removed min es
    ]

-- The minimum that `establishInitialProcessState` hands to the clean-up.
pub minimum_version : Semver → SdkInject → LocalProcessScanner → String
unfolding oldest_sdk
minimum_version semver injector scanner =
    let oldest = oldest_sdk scanner in
    if is_greater (semver.compare oldest injector.sdk_pkg_version)
    then injector.sdk_pkg_version
    else oldest

-- `informer.ObjectMeta` and `informer.Event`
pub record PodInfo : Type 0 where
  pub containers : List String
  pub owners : List Owner

pub record Resource : Type 0 where
  pub name : String
  pub namespace : String
  pub labels : Map String
  pub annotations : Map String
  pub pod : Option PodInfo

pub data EventType : Type 0 where
  created updated deleted sync_finished : EventType

abbrev pub reacts_to : EventType → Bool
reacts_to created = true
reacts_to updated = true
reacts_to _ = false

pub record Event : Type 0 where
  pub type : EventType
  pub resource : Option Resource

module _ {Modes : Type 0} where
  -- The server after the search, the clean-up that it made, and whether the search succeeded.
  pub establish_initial_process_state :
      Semver
      → System
      → (String → Bool)
      → Option (List DirEntry)
      → Option (List ProcessInfo)
      → Server Modes
      → Server Modes × Option Cleanup × Bool
  unfolding find_existing_processes minimum_version cleanup_old_instrumentation_versions
      uses_image_volume
  establish_initial_process_state semver sys removed entries procs s =
      let (scanner, found) = find_existing_processes semver sys procs s.scanner in
      let injector = s.mutator.injector in
      elim found [
        | none ↦ (record s { scanner = scanner }, none, false)
        | some containers ↦ (
          record s { scanner = scanner; initial_state = containers },
          if not (uses_image_volume injector) && injector.manage_sdk_versions
              then some (
                  cleanup_old_instrumentation_versions semver removed entries
                    (minimum_version semver injector scanner))
              else none,
          true,
        )
      ]

  -- `addMetadata`, for a resource that is a pod.
  add_metadata : Server Modes → Resource → PodInfo → ProcessInfo → ProcessInfo
  unfolding pod_metadata
  add_metadata s r pod p = record p {
    metadata = pod_metadata s.mutator.libraries.owner_label r.namespace r.name pod.owners;
    pod_labels = r.labels;
    pod_annotations = r.annotations;
  }

  -- The processes of the initial state are shared: what `addMetadata` writes stays in the state.
  pub enrich_loop :
      Resource → PodInfo → List String → Server Modes → Server Modes × List ProcessInfo
  unfolding add_metadata lookup insert
  enrich_loop r pod [] s = (s, [])
  enrich_loop r pod (id ∷ ids) s =
      let procs : Option (List ProcessInfo) = elim (lookup id s.initial_state) [
        | none ↦ none
        | some procs ↦ some (map (add_metadata s r pod) procs)
      ] in
      let next : Server Modes = elim procs [
        | none ↦ s
        | some ps ↦ record s { initial_state = insert id ps s.initial_state }
      ] in
      let (s', rest) = enrich_loop r pod ids next in
      (s', elim procs [ none ↦ rest | some ps ↦ ps ++ rest ])

  -- `restartDeployment` of the server.
  pub restart : KubeClient → ProcessInfo → Server Modes → Server Modes × List Call
  restart client a s =
      let namespace = value_at a.metadata attr_namespace in
      let deployment = value_at a.metadata "k8s_deployment_name" in
      if not (can_be_bounced namespace deployment)
      then (s, [])
      else if already_bounced s.bouncer namespace deployment
      then (s, [])
      else let r = restart_deployment client s.bouncer namespace deployment in
        (record s { bouncer = r.bouncer }, r.calls)

  -- Does the event handler ask for a restart of the process's deployment?
  pub wants_restart : Server Modes → ProcessInfo → Bool
  unfolding already_instrumented_process preloads_something_else match_process_info package_version
      can_instrument
  wants_restart s a =
      let pm = s.mutator in
      let matched = is_some (match_process_info (some a) pm.selectors) in
      if already_instrumented_process (package_version pm.libraries.sum224 pm.injector) a
      then not matched
      else can_instrument pm.injector a.kind && not (preloads_something_else a) && matched

  pub react : KubeClient → ProcessInfo → Server Modes → Server Modes × List Call
  react client a s = if wants_restart s a then restart client a s else (s, [])

  pub react_all : KubeClient → List ProcessInfo → Server Modes → Server Modes × List Call
  react_all client [] s = (s, [])
  react_all client (a ∷ rest) s =
      let (s', calls) = react client a s in
      let (s'', calls') = react_all client rest s' in (s'', calls ++ calls')

  -- `On` for a resource that is a pod.
  pub on_pod : KubeClient → EventType → Resource → PodInfo → Server Modes → Server Modes × List Call
  on_pod client type r pod s =
      let (s', attrs) = enrich_loop r pod pod.containers s in
      if reacts_to type then react_all client attrs s' else (s, [])

  -- `On`: the server after the event, and the calls to the API server.
  pub on : KubeClient → Event → Server Modes → Server Modes × List Call
  on client event s = elim event.resource [
    | none ↦ (s, [])
    | some r ↦ elim r.pod [ none ↦ (s, []) | some pod ↦ on_pod client event.type r pod s ]
  ]

  pub run : KubeClient → List Event → Server Modes → Server Modes × List Call
  run client [] s = (s, [])
  run client (e ∷ es) s =
      let (s', calls) = on client e s in let (s'', rest) = run client es s' in (s'', calls ++ rest)
