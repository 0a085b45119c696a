-- ===== src/Webhook/Mutator.antt =====
-- pkg/webhook/mutator.go: the mutation of a pod. The PodMutator record stands in Webhook/EnvVars.
pub mod Mounts
pub mod Containers
pub mod Pods
pub mod Labels
use e_bpf_lens.Prelude.{
  ◌≡◌, String, Bool, true, false, not, ◌||◌, Option, none, some, List, [], ◌∷◌, Map, lookup, insert,
  ◌==◌, if◌then◌else◌, is_empty, is_some, any, join, text_discrete,
}
use e_bpf_lens.Webhook.Kube.{
  Container, VolumeMount, Volume, image, host_path, PodSpec, ObjectMeta, Pod,
}
use e_bpf_lens.Webhook.Config.{SdkInject, Selector, uses_image_volume, package_version}
use e_bpf_lens.Webhook.Env.{find_env_var}
use e_bpf_lens.Webhook.EnvVars.{PodMutator, add_env_vars, ld_preload_value}
use e_bpf_lens.Webhook.Process.{ProcessInfo, process_metadata}
use e_bpf_lens.Webhook.Matcher.{match_process_info}

abbrev pub instrumented_label : String
instrumented_label = "com.grafana.beyla/instrumented"

abbrev pub inject_volume_name : String
inject_volume_name = "otel-inject-instrumentation"

abbrev pub internal_mount_path : String
internal_mount_path = "/__otel_sdk_auto_instrumentation__"

-- `PreloadsSomethingElse`
unfoldable pub preloads_something_else : ProcessInfo → Bool
preloads_something_else info = elim (lookup "LD_PRELOAD" info.env) [
  | none ↦ false
  | some injector ↦ not (injector == ld_preload_value)
]

-- A non-empty value at the key, `value, ok := m[key]; ok && value != ""`.
pub non_empty_at : String → Map String → Option String
non_empty_at key m = elim (lookup key m) [
  | none ↦ none
  | some v ↦ if is_empty v then none else some v
]

-- `AlreadyInstrumented` of a running process, for the package version of the settings.
unfoldable pub already_instrumented_process : String → ProcessInfo → Bool
unfolding non_empty_at
already_instrumented_process version info = elim (non_empty_at instrumented_label info.pod_labels) [
  | some label ↦ label == version
  | none ↦ elim (non_empty_at "BEYLA_INJECTOR_SDK_PKG_VERSION" info.env) [
    | some ver ↦ ver == version
    | none ↦ false
  ]
]

pub build_volume_definition : SdkInject → Volume
unfolding uses_image_volume
build_volume_definition injector =
    if uses_image_volume injector
    then record {
      name = inject_volume_name;
      source = image injector.image_volume_path "IfNotPresent";
    }
    else record {
      name = inject_volume_name;
      source =
          host_path (join (injector.host_path_volume_dir ∷ injector.sdk_pkg_version ∷ []) "/")
            "DirectoryOrCreate";
    }

-- The first volume of that name is replaced; without one the volume is appended.
pub place_volume : Volume → List Volume → List Volume
place_volume v [] = v ∷ []
place_volume v (w ∷ ws) =
    let rest = place_volume v ws in if w.name == inject_volume_name then v ∷ ws else w ∷ rest

pub mount_volume : SdkInject → PodSpec → PodSpec
unfolding place_volume build_volume_definition
mount_volume injector spec = record spec {
  volumes = place_volume (build_volume_definition injector) spec.volumes;
}

pub place_mount : VolumeMount → List VolumeMount → List VolumeMount
place_mount m [] = m ∷ []
place_mount m (n ∷ ns) =
    let rest = place_mount m ns in if n.name == inject_volume_name then m ∷ ns else n ∷ rest

pub add_mount : Container → Container
unfolding place_mount
add_mount c = record c {
  volume_mounts =
      place_mount
        (record { name = inject_volume_name; mount_path = internal_mount_path; read_only = true })
        c.volume_mounts;
}

unfoldable pub add_label : ObjectMeta → String → String → ObjectMeta
add_label meta key value = record meta { labels = insert key value meta.labels }

-- `alreadyInstrumented` of an admitted pod.
unfoldable pub already_instrumented : PodSpec → ObjectMeta → Bool
unfolding find_env_var non_empty_at
already_instrumented spec meta =
    any (λ c. is_some (find_env_var c "OTEL_INJECTOR_CONFIG_FILE")) spec.containers
    || is_some (non_empty_at instrumented_label meta.labels)

-- `reflect.DeepEqual` on the parts of the spec that are modelled.
unfoldable PodSpec-discrete : Discrete PodSpec
unfolding text_discrete
PodSpec-discrete = hlevel text_discrete

-- `!reflect.DeepEqual(…)`
abbrev pub differs : {p q : PodSpec} → Dec (p ≡ q) → Bool
differs (yes _) = false
differs (no _) = true

module _ {Modes : Type 0} (pm : PodMutator Modes) where
  pub instrument_container : ObjectMeta → Option (Selector Modes) → Container → Container
  unfolding add_env_vars add_mount
  instrument_container meta selector c = add_env_vars pm meta (add_mount c) selector

  -- The loop over the containers: one that sets LD_PRELOAD is left alone.
  pub instrument_all : ObjectMeta → Option (Selector Modes) → List Container → List Container
  unfolding instrument_container find_env_var
  instrument_all meta selector [] = []
  instrument_all meta selector (c ∷ cs) =
      let rest = instrument_all meta selector cs in
      (if is_some (find_env_var c "LD_PRELOAD") then c else instrument_container meta selector c)
      ∷ rest

  unfoldable pub matches_selection : ObjectMeta → Option (Selector Modes)
  matches_selection meta =
      match_process_info (some (process_metadata pm.libraries.owner_label meta)) pm.selectors

  -- The pod after the mutation of one that matched.
  pub mutated : Pod → Selector Modes → Pod
  unfolding mount_volume instrument_all add_label
  mutated pod selector =
      let spec = mount_volume pm.injector pod.spec in
      let containers = instrument_all pod.meta (some selector) spec.containers in
      record {
        meta =
            add_label pod.meta instrumented_label (package_version pm.libraries.sum224 pm.injector);
        spec = record spec { containers = containers };
      }

  -- The pod as `mutatePod` leaves it, and its result.
  pub mutate_pod : Pod → Pod × Bool
  mutate_pod pod =
      if already_instrumented pod.spec pod.meta
      then (pod, false)
      else elim (matches_selection pod.meta) [
        | none ↦ (pod, false)
        | some selector ↦
            let pod' = mutated pod selector in (pod', differs (PodSpec-discrete pod.spec pod'.spec))
      ]
