-- ===== src/Startup.antt =====
-- The start of the agent: pkg/components/beyla.go, and the choice of the pipeline of discovery in
-- pkg/internal/discover/finder.go.
pub mod Parts
mod Tests
use e_bpf_lens.Prelude.{
  ℕ, String, Bool, true, false, not, ◌||◌, Option, none, some, List, [], ◌∷◌, ◌++◌, Map, lookup,
  insert, or_else, if◌then◌else◌, is_empty, ltb, eqb,
}
use e_bpf_lens.Int64.{ℤ, pos, negsuc}
use e_bpf_lens.Settings.Discovery.{app_discovery_enabled, survey_enabled}
use e_bpf_lens.Settings.Features.{
  Config, FeatureApi, net_o11y, app_o11y, stats_o11y, feature_enabled, webhook_enabled,
}

-- What `RunBeyla` starts.
pub data Part : Type 0 where
  application network statistics webhook : Part

abbrev start_if : Bool → Part → List Part
start_if true part = part ∷ []
start_if false part = []

module _ (api : FeatureApi) where
  -- The parts in the order in which `RunBeyla` starts them.
  pub run_beyla : Config → List Part
  unfolding feature_enabled webhook_enabled
  run_beyla c =
      start_if (feature_enabled api c app_o11y) application
      ++ start_if (feature_enabled api c net_o11y) network
      ++ start_if (feature_enabled api c stats_o11y) statistics
      ++ start_if (webhook_enabled c.webhook) webhook

-- `ProcessFinder.IsInstrumentationEnabled`
pub instrumentation_enabled : Config → Bool
unfolding app_discovery_enabled
instrumentation_enabled c =
    ltb 0 c.open_ports
    || c.auto_target_exe
    || c.auto_target_language
    || c.executable_name
    || c.executable_name
    || app_discovery_enabled c.discovery

-- The nodes of a pipeline of discovery, by their ids.
pub data Node : Type 0 where
  process_watcher watcher_kube_enricher obi_process_finder survey_criteria_matcher survey_exec_typer
        survey_container_store survey_event_generator survey_info_metrics
        survey_prometheus_endpoint :
      Node

-- `connectSurveySubPipeline`
pub connect_survey_sub_pipeline : Config → List Node
unfolding survey_enabled
connect_survey_sub_pipeline c =
    if not (survey_enabled c.discovery)
    then []
    else survey_criteria_matcher ∷ survey_exec_typer ∷ survey_container_store
      ∷ survey_event_generator ∷ survey_info_metrics ∷ survey_prometheus_endpoint ∷ []

-- `ProcessFinder.Start`: the nodes of the pipeline, in the order in which they are added.
pub start_finder : Config → List Node
unfolding instrumentation_enabled connect_survey_sub_pipeline
start_finder c =
    if instrumentation_enabled c
    then connect_survey_sub_pipeline c ++ obi_process_finder ∷ []
    else process_watcher ∷ watcher_kube_enricher ∷ connect_survey_sub_pipeline c

-- The reporter of internal metrics.
pub data InternalReporter : Type 0 where
  otel_reporter prometheus_reporter registry_reporter no_reporter : InternalReporter

abbrev is_nonzero : ℤ → Bool
is_nonzero (pos n) = not (eqb n 0)
is_nonzero (negsuc n) = true

-- `internalMetrics`, with whether Prometheus is the configured exporter and whether there is a
-- registry.
pub internal_metrics : Bool → Bool → Config → InternalReporter
internal_metrics exporter_prometheus has_registry c =
    if c.internal_otel
    then otel_reporter
    else if exporter_prometheus || is_nonzero c.internal_prometheus_port
    then prometheus_reporter
    else if has_registry
    then registry_reporter
    else no_reporter

-- The labels of resources, with the deprecated ones in front, in `buildCommonContextInfo`; `none` is
-- a nil map.
merged : String → String → Map (List String) → Map (List String)
unfolding lookup insert
merged name label labels =
    if not (is_empty label)
    then insert name (label ∷ or_else (lookup name labels) []) labels
    else labels

pub resource_labels : String → String → Option (Map (List String)) → Map (List String)
unfolding merged
resource_labels service_name service_namespace labels =
    merged "service.namespace" service_namespace
      (merged "service.name" service_name (or_else labels []))
