-- ===== src/Settings/Discovery.antt =====
-- The criteria of discovery in pkg/services/criteria.go.
use e_bpf_lens.Prelude.{String, Bool, true, false, ◌&&◌, ◌||◌, List, [], ◌∷◌, if◌then◌else◌, ◌⧺◌}

-- Selectors of go.opentelemetry.io/obi: those that name a pattern for the path of the executable or
-- for an entry of the metadata, and `reflect.DeepEqual` of two lists.
pub record SelectorApi (S : Type 0) : Type 0 where
  pub by_path : String → S
  pub by_metadata : String → String → S
  pub same : List S → List S → Bool

-- `BeylaDiscoveryConfig`, over regular expressions and globs.
pub record DiscoveryConfig (R G : Type 0) : Type 0 where
  pub services : List R
  pub survey : List G
  pub exclude_services : List R
  pub default_exclude_services : List R
  pub instrument : List G
  pub exclude_instrument : List G
  pub default_exclude_instrument : List G

abbrev gke_regex : String
gke_regex =
    "|^gke-connect$|^gke-gmp-system$|^gke-managed-cim$|^gke-managed-filestorecsi$|^gke-managed-metrics-server$|^gke-managed-system$|^gke-system$|^gke-managed-volumepopulator$"

abbrev gke_glob : String
gke_glob =
    ",gke-connect,gke-gmp-system,gke-managed-cim,gke-managed-filestorecsi,gke-managed-metrics-server,gke-managed-system,gke-system,gke-managed-volumepopulator"

abbrev aks_regex : String
aks_regex = "|^gatekeeper-system"

abbrev aks_glob : String
aks_glob = ",gatekeeper-system"

-- The namespaces that are left out, and those that are with a survey.
abbrev namespaces_regex : String
namespaces_regex =
    "^kube-system$|^kube-node-lease$|^local-path-storage$|^grafana-alloy$|^cert-manager$|^monitoring$"
    ⧺ gke_regex ⧺ aks_regex

abbrev namespaces_glob : String
namespaces_glob =
    "{kube-system,kube-node-lease,local-path-storage,grafana-alloy,cert-manager,monitoring"
    ⧺ gke_glob ⧺ aks_glob ⧺ "}"

abbrev pub survey_namespaces_regex : String
survey_namespaces_regex =
    "^kube-system$|^kube-node-lease$|^local-path-storage$|^cert-manager$" ⧺ gke_regex ⧺ aks_regex

abbrev survey_namespaces_glob : String
survey_namespaces_glob =
    "{kube-system,kube-node-lease,local-path-storage,cert-manager" ⧺ gke_glob ⧺ aks_glob ⧺ "}"

abbrev container_names_glob : String
container_names_glob =
    "{beyla,ebpf-instrument,obi,alloy,prometheus-config-reloader,otelcol,otelcol-contrib}"

abbrev path_regex : String
path_regex = "(?:^|/)(beyla$|alloy$|prometheus-config-reloader$|otelcol[^/]*$)"

abbrev path_glob : String
path_glob =
    "{*beyla,*alloy,*prometheus-config-reloader,*ebpf-instrument,*obi,*otelcol,*otelcol-contrib,*otelcol-contrib[!/]*}"

module _ {R : Type 0} (regexes : SelectorApi R) where
  -- `DefaultExcludeServices` and `DefaultExcludeServicesWithSurvey`
  pub exclude_services_of : String → List R
  exclude_services_of namespaces =
      regexes.by_path path_regex ∷ regexes.by_metadata "k8s_namespace" namespaces ∷ []

module _ {G : Type 0} (globs : SelectorApi G) where
  -- `DefaultExcludeInstrument` and `DefaultExcludeInstrumentWithSurvey`
  exclude_instrument_of : String → List G
  exclude_instrument_of namespaces =
      globs.by_path path_glob
      ∷ globs.by_metadata "k8s_namespace" namespaces
      ∷ globs.by_metadata "k8s_container_name" container_names_glob
      ∷ []

abbrev pub is_set {ℓ} : {A : Type ℓ} → List A → Bool
is_set [] = false
is_set (x ∷ l) = true

module _ {R G : Type 0} where
  -- `SurveyEnabled` and `AppDiscoveryEnabled`
  unfoldable pub survey_enabled : DiscoveryConfig R G → Bool
  survey_enabled d = is_set d.survey

  unfoldable pub app_discovery_enabled : DiscoveryConfig R G → Bool
  app_discovery_enabled d = is_set d.services || is_set d.instrument

  module _ (regexes : SelectorApi R) (globs : SelectorApi G) where
    -- Both default lists are as the defaults have them.
    has_default_excludes : DiscoveryConfig R G → Bool
    unfolding exclude_services_of exclude_instrument_of
    has_default_excludes d =
        regexes.same d.default_exclude_services (exclude_services_of regexes namespaces_regex)
        && globs.same d.default_exclude_instrument (exclude_instrument_of globs namespaces_glob)

    -- `OverrideDefaultExcludeForSurvey`
    override_default_exclude_for_survey : DiscoveryConfig R G → DiscoveryConfig R G
    unfolding has_default_excludes
    override_default_exclude_for_survey d =
        if has_default_excludes d
        then record d {
          default_exclude_services = exclude_services_of regexes survey_namespaces_regex;
          default_exclude_instrument = exclude_instrument_of globs survey_namespaces_glob;
        }
        else d

    -- `if c.Discovery.SurveyEnabled() { … }` of `normalizeConfig`.
    unfoldable pub normalize_discovery : DiscoveryConfig R G → DiscoveryConfig R G
    unfolding survey_enabled override_default_exclude_for_survey
    normalize_discovery d = if survey_enabled d then override_default_exclude_for_survey d else d
