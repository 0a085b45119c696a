-- ===== src/Settings/Obi/Routes.antt =====
-- Where the exporters send to, and with which credentials.
use e_bpf_lens.Prelude.{
  String, Bool, true, false, not, ◌&&◌, Option, none, some, Map, insert, lookup, lookup-insert,
  eq_iff, if◌then◌else◌, is_empty, ◌==◌, ◌≡◌, refl, arith, ◌⧺◌,
}
use e_bpf_lens.Settings.Grafana.{
  GrafanaOtlp, grafana_metrics_enabled, grafana_traces_enabled, endpoint, override_headers,
  resolve_otlp_endpoint, grafana_endpoint, has_auth, auth_header,
}
use e_bpf_lens.Settings.Obi.{Endpoints, Otlp, ObiConfig, routed, override_obi}

-- The headers that an exporter sends, given those that it would send.
abbrev sent_with : Option (Map String → Map String) → Map String → Map String
sent_with none headers = headers
sent_with (some inject) headers = inject headers

-- The map with one entry written, on a condition.
lookup-insert_if :
    (p q : Bool) (name key v : String) (headers : Map String)
    → lookup key (if p && q then insert name v headers else headers)
      ≡ (if key == name && p && q then some v else lookup key headers)
lookup-insert_if true true name key v headers =
    ground (arith, lookup-insert name key v headers, eq_iff name key, eq_iff key name)
lookup-insert_if true false name key v headers = ground arith
lookup-insert_if false q name key v headers = ground arith

module _ (base64 : String → String) where
  -- An exporter after the settings for Grafana have been applied, where these are enabled for it or
  -- not.
  pub record IsRouted (enabled : Bool) (specific common : String) (g : GrafanaOtlp)
      (before after : Otlp) : Type 0 where
    untouched : enabled ≡ false → after ≡ before
    to_specific :
        enabled ≡ true
        → is_empty specific ≡ false
        → after.endpoint_provider ≡ some (specific, false)
    to_common :
        enabled ≡ true
        → is_empty specific ≡ true
        → is_empty common ≡ false
        → after.endpoint_provider ≡ some (common, true)
    to_cloud :
        enabled ≡ true
        → is_empty specific ≡ true
        → is_empty common ≡ true
        → is_empty g.cloud_zone ≡ false
        → after.endpoint_provider
          ≡ some ("https://otlp-gateway-" ⧺ g.cloud_zone ⧺ ".grafana.net/otlp", true)
    to_none :
        enabled ≡ true
        → is_empty specific ≡ true
        → is_empty common ≡ true
        → is_empty g.cloud_zone ≡ true
        → after.endpoint_provider ≡ some ("", false)
    authorized :
        enabled ≡ true
        → (key : String) (headers : Map String)
        → lookup key (sent_with after.inject_headers headers) ≡ (
            if key == "Authorization" && not (is_empty g.instance_id) && not (is_empty g.api_key)
            then some ("Basic " ⧺ base64 (g.instance_id ⧺ ":" ⧺ g.api_key))
            else lookup key headers)

  lookup-override_headers :
      (g : GrafanaOtlp) (key : String) (headers : Map String)
      → lookup key (override_headers base64 (some g) headers) ≡ (
          if key == "Authorization" && not (is_empty g.instance_id) && not (is_empty g.api_key)
          then some ("Basic " ⧺ base64 (g.instance_id ⧺ ":" ⧺ g.api_key))
          else lookup key headers)
  unfolding override_headers has_auth auth_header
  lookup-override_headers g key headers =
      lookup-insert_if (not (is_empty g.instance_id)) (not (is_empty g.api_key)) "Authorization" key
        _ headers

  routed-IsRouted :
      (enabled : Bool) (specific common : String) (g : GrafanaOtlp) (dst : Otlp)
      → IsRouted enabled specific common g dst (routed base64 enabled specific common g dst)
  unfolding routed resolve_otlp_endpoint grafana_endpoint endpoint
  routed-IsRouted false specific common g dst = record {
    untouched = λ e. refl;
    to_specific = λ e. absurd (ground (arith, e));
    to_common = λ e. absurd (ground (arith, e));
    to_cloud = λ e. absurd (ground (arith, e));
    to_none = λ e. absurd (ground (arith, e));
    authorized = λ e. absurd (ground (arith, e));
  }
  routed-IsRouted true specific common g dst = record {
    untouched = λ e. absurd (ground (arith, e));
    to_specific = λ e s. rw s refl;
    to_common = λ e s c. rw s (rw c refl);
    to_cloud = λ e s c z. rw s (rw c (rw z refl));
    to_none = λ e s c z. rw s (rw c (rw z refl));
    authorized = λ e key headers. lookup-override_headers g key headers;
  }

  -- Where the settings for Grafana Cloud are enabled for the metrics or for the traces, these go to
  -- the endpoint that is named for them, or else to the common one, or else to the gateway of the
  -- cloud zone, and carry the credentials if both the instance and the key are given, other headers
  -- being kept; where they are not enabled nothing changes.
  pub override_obi-IsRouted :
      (src : Endpoints) (dst : ObiConfig)
      → IsRouted
          (grafana_metrics_enabled (some src.grafana))
          src.metrics_endpoint
          src.metrics_common
          src.grafana
          dst.otel_metrics
          (override_obi base64 src dst).otel_metrics
        × IsRouted
            (grafana_traces_enabled (some src.grafana))
            src.traces_endpoint
            src.traces_common
            src.grafana
            dst.traces
            (override_obi base64 src dst).traces
  unfolding override_obi
  override_obi-IsRouted src dst = (
    routed-IsRouted _ _ _ src.grafana dst.otel_metrics,
    routed-IsRouted _ _ _ src.grafana dst.traces,
  )
