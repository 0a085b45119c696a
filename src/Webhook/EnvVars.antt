-- ===== src/Webhook/EnvVars.antt =====
-- The variables that the webhook injects into a container: pkg/webhook/env_vars.go, and `addEnvVars`
-- and the name constants of pkg/webhook/mutator.go.
pub mod Frame
pub mod Effect
pub mod Body
pub mod Switches
use e_bpf_lens.Prelude.{
  String, Bool, not, Option, none, some, List, [], ◌∷◌, Map, insert, insert_all, keys, value_at,
  ◌⧺◌, if◌then◌else◌, is_empty, join, sorted, has_prefix, trim_prefix,
}
use e_bpf_lens.Webhook.Kube.{ObjectMeta, Container}
use e_bpf_lens.Webhook.Deps.{ExportApi, Libraries}
use e_bpf_lens.Webhook.Config.{
  SamplerConfig, Selector, SdkResource, SdkInject, InstrumentableType, java, dotnet, nodejs, python,
  traces_enabled, metrics_enabled, logs_enabled, package_version, can_instrument,
}
use e_bpf_lens.Webhook.Env.{set_env_var, set_env_var_even_if_empty, set_env_var_from_field_path}
use e_bpf_lens.Webhook.Owners.{add_parent_resource_labels}
use e_bpf_lens.Webhook.Service.{
  resource_attribute_annotation_prefix, choose_service_name, choose_service_version,
  choose_service_namespace, create_service_instance_id,
}

-- `PodMutator`, with the configuration that it reads.
pub record PodMutator (Modes : Type 0) : Type 0 where
  pub libraries : Libraries Modes
  pub selectors : List (Option (Selector Modes))
  pub injector : SdkInject
  pub any_span_metrics : Bool
  pub endpoint : String
  pub proto : String
  pub export_headers : Map String

-- The last loop of `setResourceAttributes`: attributes from the pod's annotations.
add_annotations : Map String → Map String → Map String
add_annotations [] extra = extra
add_annotations ((k, v) ∷ annotations) extra = add_annotations annotations (
    if has_prefix k resource_attribute_annotation_prefix
    then insert (trim_prefix k resource_attribute_annotation_prefix) v extra
    else extra)

abbrev pub ld_preload_value : String
ld_preload_value = "/__otel_sdk_auto_instrumentation__/dist/injector/libotelinject.so"

abbrev pub config_file_value : String
config_file_value = "/__otel_sdk_auto_instrumentation__/dist/injector/otelinject.conf"

abbrev pub supported_sdk_langs : List InstrumentableType
supported_sdk_langs = dotnet ∷ java ∷ nodejs ∷ python ∷ []

pub exporter : Bool → String
exporter allowed = if allowed then "otlp" else "none"

module _ {Modes : Type 0} (pm : PodMutator Modes) where
  abbrev cfg : SdkResource
  cfg = pm.injector.resources

  abbrev version : String
  version = package_version pm.libraries.sum224 pm.injector

  pub set_resource_attributes : ObjectMeta → Container → Container × Map String
  unfolding add_annotations
  set_resource_attributes meta c =
      let extra = insert_all cfg.attributes [] in
      let c = set_env_var c "OTEL_INJECTOR_K8S_CONTAINER_NAME" c.name in
      let extra = add_parent_resource_labels meta extra cfg.add_k8s_uid_attributes in
      let (c, namespace) =
        set_env_var_from_field_path c "OTEL_INJECTOR_K8S_NAMESPACE_NAME" "metadata.namespace" in
      let (c, pod_name) =
        set_env_var_from_field_path c "OTEL_INJECTOR_K8S_POD_NAME" "metadata.name" in
      let (c, node_name) =
        set_env_var_from_field_path c "OTEL_RESOURCE_ATTRIBUTES_NODE_NAME" "spec.nodeName" in
      let extra = insert "k8s.node.name" node_name extra in
      let c =
        if cfg.add_k8s_uid_attributes
        then (set_env_var_from_field_path c "OTEL_INJECTOR_K8S_POD_UID" "metadata.uid").0
        else c in
      let use_labels = cfg.use_labels_for_resource_attributes in
      let c =
        set_env_var c "OTEL_INJECTOR_SERVICE_NAMESPACE"
          (choose_service_namespace meta use_labels namespace) in
      let c =
        set_env_var c "OTEL_INJECTOR_SERVICE_NAME"
          (choose_service_name meta use_labels pod_name extra) in
      let c =
        set_env_var c "OTEL_INJECTOR_SERVICE_VERSION"
          (choose_service_version pm.libraries.parse_reference meta use_labels c) in
      let id = create_service_instance_id meta namespace pod_name c.name in
      let extra = if not (is_empty id) then insert "service.instance.id" id extra else extra in
      (c, add_annotations meta.annotations extra)

  pub configure_sampler : Container → SamplerConfig → Container
  configure_sampler c sampler =
      let c = set_env_var c "OTEL_TRACES_SAMPLER" sampler.name in
      set_env_var c "OTEL_TRACES_SAMPLER_ARG" sampler.arg

  pub configure_propagators : Container → List String → Container
  configure_propagators c propagators = set_env_var c "OTEL_PROPAGATORS" (join propagators ",")

  pub configure_exporters : Container → Modes → Container
  configure_exporters c modes =
      let c = set_env_var c "OTEL_METRICS_EXPORTER" (exporter (api.can_export_metrics modes)) in
      let c = set_env_var c "OTEL_TRACES_EXPORTER" (exporter (api.can_export_traces modes)) in
      set_env_var c "OTEL_LOGS_EXPORTER" (exporter (api.can_export_logs modes))
    where
      api : ExportApi Modes
      api = pm.libraries.modes

  -- The sampler of the selector, or the default one.
  abbrev sampler_for : Option (Selector Modes) → Option SamplerConfig
  sampler_for none = pm.injector.default_sampler
  sampler_for (some s) = elim s.sampler_config [
    | none ↦ pm.injector.default_sampler
    | some sampler ↦ some sampler
  ]

  -- All blocked, then each signal of the settings allowed.
  pub settings_modes : Modes
  settings_modes =
      let export = pm.injector.sdk_export in
      let modes = api.new_export_modes in
      let modes = if traces_enabled export then api.allow_traces modes else modes in
      let modes = if metrics_enabled export then api.allow_metrics modes else modes in
      if logs_enabled export then api.allow_logs modes else modes
    where
      api : ExportApi Modes
      api = pm.libraries.modes

  -- Those of the selector override them where it sets some.
  pub export_modes_for : Option (Selector Modes) → Modes
  unfolding settings_modes
  export_modes_for none = settings_modes
  export_modes_for (some s) =
      if not (pm.libraries.modes.is_unset s.export_modes) then s.export_modes else settings_modes

  -- `key=value` for each of the keys.
  assignments : Map String → List String → List String
  assignments extra [] = []
  assignments extra (k ∷ ks) = (k ⧺ "=" ⧺ value_at extra k) ∷ assignments extra ks

  pub inject_env_vars : Map String → Container → Container
  unfolding assignments
  inject_env_vars [] c = c
  inject_env_vars ((k, v) ∷ rest) c =
      let extra = (k, v) ∷ rest in
      set_env_var c "OTEL_INJECTOR_RESOURCE_ATTRIBUTES"
        (join (assignments extra (sorted (keys extra))) ",")

  pub propagators_stage : Container → Container
  unfolding configure_propagators
  propagators_stage c = elim pm.injector.propagators [
    | [] ↦ c
    | p ∷ ps ↦ configure_propagators c (p ∷ ps)
  ]

  pub sampler_stage : Container → Option (Selector Modes) → Container
  unfolding configure_sampler
  sampler_stage c selector = elim (sampler_for selector) [
    | none ↦ c
    | some sampler ↦ configure_sampler c sampler
  ]

  pub configure_container_env_vars : ObjectMeta → Container → Option (Selector Modes) → Container
  unfolding set_resource_attributes propagators_stage sampler_stage configure_exporters
      export_modes_for inject_env_vars
  configure_container_env_vars meta c selector =
      let (c, extra) = set_resource_attributes meta c in
      let c = propagators_stage c in
      let c = sampler_stage c selector in
      let c = configure_exporters c (export_modes_for selector) in
      let extra = if pm.any_span_metrics then insert "span.metrics.skip" "true" extra else extra in
      inject_env_vars extra c

  -- The variable whose empty value turns a language's SDK off.
  pub disable_sdk : InstrumentableType → Container → Container
  disable_sdk dotnet c =
      set_env_var_even_if_empty c "DOTNET_AUTO_INSTRUMENTATION_AGENT_PATH_PREFIX" ""
  disable_sdk java c = set_env_var_even_if_empty c "JVM_AUTO_INSTRUMENTATION_AGENT_PATH" ""
  disable_sdk nodejs c = set_env_var_even_if_empty c "NODEJS_AUTO_INSTRUMENTATION_AGENT_PATH" ""
  disable_sdk python c =
      set_env_var_even_if_empty c "PYTHON_AUTO_INSTRUMENTATION_AGENT_PATH_PREFIX" ""
  disable_sdk kind c = c

  pub disable_loop : List InstrumentableType → Container → Container
  unfolding disable_sdk
  disable_loop [] c = c
  disable_loop (kind ∷ kinds) c =
      disable_loop kinds (if not (can_instrument pm.injector kind) then disable_sdk kind c else c)

  pub disable_undesired_sdks : Container → Container
  unfolding disable_loop
  disable_undesired_sdks = disable_loop supported_sdk_langs

  -- `for k, v := range pm.exportHeaders { setEnvVar(c, k, v) }`
  pub add_headers : Map String → Container → Container
  add_headers [] c = c
  add_headers ((k, v) ∷ headers) c = add_headers headers (set_env_var c k v)

  -- The first writes of `addEnvVars`.
  pub injector_stage : Container → Container
  injector_stage c =
      let c = set_env_var c "BEYLA_INJECTOR_SDK_PKG_VERSION" version in
      let c = set_env_var c "LD_PRELOAD" ld_preload_value in
      let c = set_env_var c "OTEL_INJECTOR_CONFIG_FILE" config_file_value in
      let c = set_env_var c "OTEL_EXPORTER_OTLP_ENDPOINT" pm.endpoint in
      let c = set_env_var c "OTEL_EXPORTER_OTLP_PROTOCOL" pm.proto in
      let c = set_env_var c "OTEL_SEMCONV_STABILITY_OPT_IN" "http" in
      if pm.injector.debug then set_env_var c "OTEL_INJECTOR_LOG_LEVEL" "debug" else c

  unfoldable pub add_env_vars : ObjectMeta → Container → Option (Selector Modes) → Container
  unfolding injector_stage configure_container_env_vars disable_undesired_sdks add_headers
  add_env_vars meta c selector =
      let c = injector_stage c in
      let c = configure_container_env_vars meta c selector in
      let c = disable_undesired_sdks c in add_headers pm.export_headers c
