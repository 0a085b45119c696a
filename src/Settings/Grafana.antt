-- ===== src/Settings/Grafana.antt =====
-- pkg/export/otel/grafana.go, and the resolution of an endpoint in pkg/export/otel/common.go.
use e_bpf_lens.Prelude.{
  String, Bool, true, false, not, ◌&&◌, ◌||◌, Option, none, some, List, any, Map, insert,
  if◌then◌else◌, is_empty, trim_space, lower_eq, ◌⧺◌,
}

pub record GrafanaOtlp : Type 0 where
  pub submit : List String
  pub cloud_zone : String
  pub instance_id : String
  pub api_key : String

-- `endpointEnabled` and `submits` of a `*GrafanaOTLP`; `none` is a nil pointer.
pub endpoint_enabled : Option GrafanaOtlp → Bool
endpoint_enabled none = false
endpoint_enabled (some g) =
    not (is_empty g.instance_id) || not (is_empty g.api_key) || not (is_empty g.cloud_zone)

submits : Option GrafanaOtlp → String → Bool
unfolding trim_space lower_eq
submits none s = false
submits (some g) s = any (λ sb. lower_eq (trim_space sb) s) g.submit

unfoldable pub grafana_metrics_enabled : Option GrafanaOtlp → Bool
unfolding endpoint_enabled submits
grafana_metrics_enabled g = endpoint_enabled g && submits g "metrics"

unfoldable pub grafana_traces_enabled : Option GrafanaOtlp → Bool
unfolding endpoint_enabled submits
grafana_traces_enabled g = endpoint_enabled g && submits g "traces"

unfoldable pub endpoint : GrafanaOtlp → String
endpoint g = "https://otlp-gateway-" ⧺ g.cloud_zone ⧺ ".grafana.net/otlp"

unfoldable pub has_auth : GrafanaOtlp → Bool
has_auth g = not (is_empty g.instance_id) && not (is_empty g.api_key)

module _ (base64 : String → String) where
  unfoldable pub auth_header : GrafanaOtlp → String
  auth_header g = "Basic " ⧺ base64 (g.instance_id ⧺ ":" ⧺ g.api_key)

  unfoldable pub override_headers : Option GrafanaOtlp → Map String → Map String
  unfolding has_auth auth_header insert
  override_headers none dst = dst
  override_headers (some g) dst =
      if has_auth g then insert "Authorization" (auth_header g) dst else dst

-- `ResolveOTLPEndpoint`: the endpoint, and whether it is common to traces and metrics.
unfoldable pub grafana_endpoint : Option GrafanaOtlp → String × Bool
unfolding endpoint
grafana_endpoint none = ("", false)
grafana_endpoint (some g) =
    if not (is_empty g.cloud_zone) && not (is_empty (endpoint g))
    then (endpoint g, true)
    else ("", false)

unfoldable pub resolve_otlp_endpoint : String → String → Option GrafanaOtlp → String × Bool
unfolding grafana_endpoint
resolve_otlp_endpoint specific common grafana =
    if not (is_empty specific)
    then (specific, false)
    else if not (is_empty common)
    then (common, true)
    else grafana_endpoint grafana
