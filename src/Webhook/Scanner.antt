-- ===== src/Webhook/Scanner.antt =====
-- pkg/webhook/scanner.go: the processes that run on the node, and the oldest SDK that they load.
pub mod Oldest
use e_bpf_lens.Prelude.{
  ℕ, String, code, Bool, true, false, not, ◌&&◌, ◌||◌, Option, none, some, List, [], ◌∷◌, ◌++◌, Map,
  lookup, insert, ◌==◌, if◌then◌else◌, is_empty, trim_space, contains, has_suffix, drop_prefix,
  split_once, leb, eqb,
}
use e_bpf_lens.Webhook.Config.{
  InstrumentableType, java, dotnet, python, ruby, nodejs, generic, same_kind,
}
use e_bpf_lens.Webhook.Deps.{Semver, is_less}
use e_bpf_lens.Webhook.Process.{Info, ProcessInfo}

pub record LocalProcessScanner : Type 0 where
  pub oldest_sdk_version : String
  pub current_sdk_version : String

abbrev pub dummy_sdk_version : String
dummy_sdk_version = "v999.999.999"

abbrev pub new_initial_state_scanner : String → LocalProcessScanner
new_initial_state_scanner current = record {
  oldest_sdk_version = dummy_sdk_version;
  current_sdk_version = current;
}

unfoldable pub oldest_sdk : LocalProcessScanner → String
oldest_sdk s =
    if s.oldest_sdk_version == dummy_sdk_version
    then s.current_sdk_version
    else s.oldest_sdk_version

-- `[\d.]*$`
abbrev version_chars : String → Bool
version_chars String.[] = true
version_chars (String.◌∷◌ c s) =
    (leb b'0' (code c) && leb (code c) b'9' || eqb (code c) b'.') && version_chars s

abbrev versioned : String → String → Bool
versioned base s = elim (drop_prefix base s) [ none ↦ false | some rest ↦ version_chars rest ]

-- `.*/` and then `base[\d.]*$`; the dot stands for no newline.
abbrev below_slash : String → String → Bool
below_slash base String.[] = false
below_slash base (String.◌∷◌ c s) =
    not (eqb (code c) 10) && (eqb (code c) b'/' && versioned base s || below_slash base s)

-- The regular expression `^(.*/)?base[\d.]*$`.
is_module : String → String → Bool
unfolding drop_prefix
is_module base s = versioned base s || below_slash base s

unfoldable pub instrumentable_from_module_map : String → InstrumentableType
unfolding contains has_suffix is_module
instrumentable_from_module_map name =
    if contains name "libcoreclr.so"
    then dotnet
    else if contains name "libjvm.so"
    then java
    else if has_suffix name "/node" || name == "node"
    then nodejs
    else if is_module "ruby" name
    then ruby
    else if is_module "python" name
    then python
    else generic

instrumentable_from_environ : String → InstrumentableType
unfolding contains
instrumentable_from_environ environ =
    if contains environ "ASPNET" || contains environ "DOTNET" then dotnet else generic

-- What the scanner asks of the system for a process; `none` is an error. `container_info` is
-- `containerInfoForPID` on what the system has for the process (Webhook/Container).
pub record System : Type 0 where
  pub lib_maps : ℕ → Option (List String)
  pub environ_bytes : ℕ → Option String
  pub has_process : ℕ → Bool
  pub environ : ℕ → Option (List String)
  pub container_info : ℕ → Option Info

-- The first kind of a mapped module that is not generic.
kind_of_maps : List String → Option InstrumentableType
unfolding instrumentable_from_module_map
kind_of_maps [] = none
kind_of_maps (path ∷ paths) =
    let rest = kind_of_maps paths in
    let kind = instrumentable_from_module_map path in
    if not (same_kind kind generic) then some kind else rest

abbrev kind_of_environ : Option String → InstrumentableType
kind_of_environ none = generic
kind_of_environ (some environ) = instrumentable_from_environ environ

abbrev kind_or : Option InstrumentableType → InstrumentableType → InstrumentableType
kind_or none k = k
kind_or (some kind) k = kind

abbrev maps_kind : Option (List String) → Option InstrumentableType
maps_kind none = none
maps_kind (some paths) = kind_of_maps paths

find_proc_language_cheap : System → ℕ → InstrumentableType
unfolding kind_of_maps instrumentable_from_environ
find_proc_language_cheap sys pid =
    kind_or (maps_kind (sys.lib_maps pid)) (kind_of_environ (sys.environ_bytes pid))

-- One round of `envStrsToMap`.
abbrev add_assignment : Option (String × String) → Map String → Map String
add_assignment none vars = vars
add_assignment (some (k, v)) vars =
    let key = trim_space k in
    let val = trim_space v in
    if not (is_empty key) && not (is_empty val) then insert key val vars else vars

env_loop : List String → Map String → Map String
unfolding split_once trim_space insert
env_loop [] vars = vars
env_loop (s ∷ ss) vars = env_loop ss (add_assignment (split_once b'=' s) vars)

unfoldable pub env_strs_to_map : List String → Map String
unfolding env_loop
env_strs_to_map strs = env_loop strs []

-- The state of the loop of `FindExistingProcesses`.
pub record Scan : Type 0 where
  pub oldest : String
  pub containers : Map (List ProcessInfo)

-- The oldest version after a look at one process's environment.
pub older : Semver → Map String → String → String
older semver env oldest = elim (lookup "BEYLA_INJECTOR_SDK_PKG_VERSION" env) [
  | none ↦ oldest
  | some ver ↦ if semver.is_valid ver && is_less (semver.compare ver oldest) then ver else oldest
]

-- `containers[id] = append(existing, v)`
add_process : String → ProcessInfo → Map (List ProcessInfo) → Map (List ProcessInfo)
add_process id p containers = elim (lookup id containers) [
  | some existing ↦ insert id (existing ++ p ∷ []) containers
  | none ↦ insert id (p ∷ []) containers
]

abbrev add_to_container :
    Option Info → ProcessInfo → Map (List ProcessInfo) → Map (List ProcessInfo)
add_to_container none p containers = containers
add_to_container (some info) p containers =
    add_process info.container_id (record p { container_info = some info }) containers

abbrev read_environ : Semver → Option (List String) → ProcessInfo → Scan → Scan × ProcessInfo
read_environ semver none p scan = (scan, p)
read_environ semver (some strs) p scan =
    let env = env_strs_to_map strs in
    (record scan { oldest = older semver env scan.oldest }, record p { env = env })

-- The body of the loop, for one process of the map.
pub scan_process : Semver → System → ProcessInfo → Scan → Scan
unfolding find_proc_language_cheap env_strs_to_map older add_process lookup insert
scan_process semver sys v scan =
    let v = record v { kind = find_proc_language_cheap sys v.pid } in
    if not (sys.has_process v.pid)
    then scan
    else let (scan, v) = read_environ semver (sys.environ v.pid) v scan in
      record scan { containers = add_to_container (sys.container_info v.pid) v scan.containers }

pub scan_loop : Semver → System → List ProcessInfo → Scan → Scan
unfolding scan_process
scan_loop semver sys [] scan = scan
scan_loop semver sys (v ∷ vs) scan = scan_loop semver sys vs (scan_process semver sys v scan)

-- The scanner after the search, and the processes by container; `none` if the list of processes
-- could not be fetched.
unfoldable pub find_existing_processes :
    Semver
    → System
    → Option (List ProcessInfo)
    → LocalProcessScanner
    → LocalProcessScanner × Option (Map (List ProcessInfo))
unfolding scan_loop
find_existing_processes semver sys none s = (s, none)
find_existing_processes semver sys (some procs) s =
    let scan =
      scan_loop semver sys procs (record { oldest = s.oldest_sdk_version; containers = [] }) in
    (record s { oldest_sdk_version = scan.oldest }, some scan.containers)
