-- ===== src/Startup/Parts.antt =====
-- What a configuration that `Validate` accepts starts.
use e_bpf_lens.Prelude.{
  ℕ, Bool, true, false, ◌||◌, none, List, [], ◌∷◌, ◌++◌, any, eqb, if◌then◌else◌, ◌≡◌, refl, sym,
  ◌∙◌, arith, Bool-cases, inl, inr,
}
use e_bpf_lens.Webhook.Deps.{Semver}
use e_bpf_lens.Webhook.Config.{validate}
use e_bpf_lens.Settings.Discovery.{survey_enabled}
use e_bpf_lens.Settings.Features.{
  Config, FeatureApi, app_o11y, feature_enabled, app_o11y_enabled, grafana_metrics,
}
use e_bpf_lens.Settings.Validate.{Answers, validate_config}
use e_bpf_lens.Settings.Validate.Usable.{validate_config-IsUsable}
use e_bpf_lens.Startup.{
  Part, application, network, statistics, webhook, run_beyla, start_if, Node, process_watcher,
  watcher_kube_enricher, obi_process_finder, survey_criteria_matcher, survey_exec_typer,
  survey_container_store, survey_event_generator, survey_info_metrics, survey_prometheus_endpoint,
  start_finder, connect_survey_sub_pipeline, instrumentation_enabled, internal_metrics,
  otel_reporter, prometheus_reporter, registry_reporter, no_reporter,
}

abbrev part_ordinal : Part → ℕ
part_ordinal application = 0
part_ordinal network = 1
part_ordinal statistics = 2
part_ordinal webhook = 3

abbrev node_ordinal : Node → ℕ
node_ordinal process_watcher = 0
node_ordinal watcher_kube_enricher = 1
node_ordinal obi_process_finder = 2
node_ordinal survey_criteria_matcher = 3
node_ordinal survey_exec_typer = 4
node_ordinal survey_container_store = 5
node_ordinal survey_event_generator = 6
node_ordinal survey_info_metrics = 7
node_ordinal survey_prometheus_endpoint = 8

abbrev starts : Part → List Part → Bool
starts p l = any (λ q. eqb (part_ordinal q) (part_ordinal p)) l

abbrev has_node : Node → List Node → Bool
has_node n l = any (λ m. eqb (node_ordinal m) (node_ordinal n)) l

-- The parts under their conditions.
abbrev parts_of : Bool → Bool → Bool → Bool → List Part
parts_of a n s w =
    start_if a application ++ start_if n network ++ start_if s statistics ++ start_if w webhook

starts_webhook : (a n s w : Bool) → starts webhook (parts_of a n s w) ≡ w
starts_webhook a n s w = ground arith

starts_application : (a n s w : Bool) → starts application (parts_of a n s w) ≡ a
starts_application a n s w = ground arith

starts_some :
    (a n s w : Bool) → (n || a || s || w) ≡ true → any (λ p. true) (parts_of a n s w) ≡ true
starts_some a n s w h = ground arith

-- The nodes that a survey adds.
survey_nodes :
    (c : Config)
    → has_node survey_info_metrics (connect_survey_sub_pipeline c) ≡ survey_enabled c.discovery
unfolding connect_survey_sub_pipeline
survey_nodes c = elim (Bool-cases (survey_enabled c.discovery)) [
  | inl on ↦ rw on refl
  | inr off ↦ rw off refl
]

any_last :
    (n : Node) (l : List Node) (m : Node)
    → has_node n (l ++ m ∷ []) ≡ (has_node n l || eqb (node_ordinal m) (node_ordinal n))
any_last n [] m = ground arith
any_last n (k ∷ l) m = let further = any_last n l m in ground (arith, further)

finder_surveys :
    (c : Config) → has_node survey_info_metrics (start_finder c) ≡ survey_enabled c.discovery
unfolding start_finder
finder_surveys c = elim (Bool-cases (instrumentation_enabled c)) [
  | inl on ↦ rw on (
      ground (
        arith,
        any_last survey_info_metrics (connect_survey_sub_pipeline c) obi_process_finder,
        survey_nodes c,
      ))
  | inr off ↦ rw off (survey_nodes c)
]

finder_instruments :
    (c : Config)
    → instrumentation_enabled c ≡ true
    → has_node obi_process_finder (start_finder c) ≡ true
unfolding start_finder
finder_instruments c on =
    rw on (
      ground
        (arith, any_last obi_process_finder (connect_survey_sub_pipeline c) obi_process_finder))

-- Which reporter is taken.
chosen_otel :
    (o a b : Bool)
    → (if o
        then otel_reporter
        else if a
        then prometheus_reporter
        else if b
        then registry_reporter
        else no_reporter)
      ≡ otel_reporter
    → o ≡ true
chosen_otel true a b h = refl
chosen_otel false true b h = cc
chosen_otel false false true h = cc
chosen_otel false false false h = cc

module _ (api : FeatureApi) (semver : Semver) (answers : Answers) where
  -- Application metrics are on for the processes that are instrumented and for those surveyed.
  app_needs :
      (c : Config)
      → feature_enabled api c app_o11y ≡ true
      → (instrumentation_enabled c || survey_enabled c.discovery) ≡ true
  unfolding feature_enabled app_o11y_enabled instrumentation_enabled
  app_needs c h = h

  -- What is started, and what the parts that are started can rely on.
  pub record IsStarted (c : Config) : Type 0 where
    something : any (λ p. true) (run_beyla api c) ≡ true
    discovers :
        starts application (run_beyla api c) ≡ true
        → (has_node obi_process_finder (start_finder c)
            || has_node survey_info_metrics (start_finder c))
          ≡ true
    surveys : has_node survey_info_metrics (start_finder c) ≡ survey_enabled c.discovery
    pub injects :
        starts webhook (run_beyla api c) ≡ true
        → (c.traces ≡ true) × (validate semver c.injector ≡ none)
    pub reports_itself :
        (exporter_prometheus has_registry : Bool)
        → internal_metrics exporter_prometheus has_registry c ≡ otel_reporter
        → (c.otel_metrics || grafana_metrics c) ≡ true

  application_discovers :
      (c : Config)
      → feature_enabled api c app_o11y ≡ true
      → (has_node obi_process_finder (start_finder c)
          || has_node survey_info_metrics (start_finder c))
        ≡ true
  application_discovers c on =
      let finder = finder_instruments c in
      let survey = finder_surveys c in ground (arith, finder, survey, app_needs c on)

  otel_internal :
      (p r : Bool) (c : Config) → internal_metrics p r c ≡ otel_reporter → c.internal_otel ≡ true
  unfolding internal_metrics
  otel_internal p r c h = chosen_otel c.internal_otel _ r h

  -- A configuration that Validate accepts starts at least one part. The application part has the
  -- finder of processes or the survey among the nodes of its discovery, and the survey exactly if
  -- one is configured; the webhook starts with traces and valid settings of the injector only; and
  -- internal metrics go to OpenTelemetry only where its metrics have an endpoint.
  pub validated-IsStarted : (c : Config) → validate_config api semver answers c ≡ none → IsStarted c
  unfolding run_beyla
  validated-IsStarted c h =
      let usable = validate_config-IsUsable api semver answers c h in
      record {
        something = starts_some _ _ _ _ usable.runs;
        discovers = λ on. application_discovers c (sym (starts_application _ _ _ _) ∙ on);
        surveys = finder_surveys c;
        injects = λ on. usable.injects (sym (starts_webhook _ _ _ _) ∙ on);
        reports_itself = λ p r e. usable.reports_itself (otel_internal p r c e);
      }
