-- ===== src/Webhook/Tests/Variables.antt =====
-- Runs of the writes to a container's environment.
use e_bpf_lens.Prelude.{some, ◌≡◌, refl, if◌then◌else◌}
use e_bpf_lens.Webhook.Kube.{Container}
use e_bpf_lens.Webhook.Config.{metrics_enabled, traces_enabled, logs_enabled}
use e_bpf_lens.Webhook.Env.{literal}
use e_bpf_lens.Webhook.Env.Frame.{var}
use e_bpf_lens.Webhook.EnvVars.{add_env_vars, exporter, supported_sdk_langs}
use e_bpf_lens.Webhook.EnvVars.Frame.{
  IsNone-of_any, attribute_names, setting_names, sdk_switch_names, injector_names, var-add_env_vars,
}
use e_bpf_lens.Webhook.EnvVars.Effect.{exporters-add_env_vars}
use e_bpf_lens.Webhook.EnvVars.Switches.{turns_off, switches-add_env_vars}
use e_bpf_lens.Webhook.Tests.{shop, shop_mutator, cart, cart_meta, signals-IsBlocking}

-- The container as the mutator leaves it.
abbrev injected : Container
injected = add_env_vars shop_mutator cart_meta cart (some shop)

var-add_env_vars_example : var injected "PORT" ≡ var cart "PORT"
var-add_env_vars_example =
    var-add_env_vars shop_mutator "PORT" (IsNone-of_any "PORT" injector_names refl)
      (IsNone-of_any "PORT" attribute_names refl) (IsNone-of_any "PORT" setting_names refl)
      (IsNone-of_any "PORT" sdk_switch_names refl) (refl, tt) cart_meta cart (some shop)

exporters-add_env_vars_example :
    (var injected "OTEL_METRICS_EXPORTER"
      ≡ some (
          literal "OTEL_METRICS_EXPORTER"
            (exporter (metrics_enabled shop_mutator.injector.sdk_export))))
    × (var injected "OTEL_TRACES_EXPORTER"
        ≡ some (
            literal "OTEL_TRACES_EXPORTER"
              (exporter (traces_enabled shop_mutator.injector.sdk_export))))
    × (var injected "OTEL_LOGS_EXPORTER"
        ≡ some (
            literal "OTEL_LOGS_EXPORTER"
              (exporter (logs_enabled shop_mutator.injector.sdk_export))))
exporters-add_env_vars_example =
    exporters-add_env_vars shop_mutator signals-IsBlocking (refl, tt) (refl, tt) (refl, tt)
      cart_meta cart (some shop) refl

switches-add_env_vars_example : var injected "NODEJS_AUTO_INSTRUMENTATION_AGENT_PATH" ≡ (
    if turns_off shop_mutator "NODEJS_AUTO_INSTRUMENTATION_AGENT_PATH" supported_sdk_langs
    then some (literal "NODEJS_AUTO_INSTRUMENTATION_AGENT_PATH" "")
    else var cart "NODEJS_AUTO_INSTRUMENTATION_AGENT_PATH")
switches-add_env_vars_example =
    switches-add_env_vars shop_mutator "NODEJS_AUTO_INSTRUMENTATION_AGENT_PATH"
      (IsNone-of_any "NODEJS_AUTO_INSTRUMENTATION_AGENT_PATH" injector_names refl)
      (IsNone-of_any "NODEJS_AUTO_INSTRUMENTATION_AGENT_PATH" attribute_names refl)
      (IsNone-of_any "NODEJS_AUTO_INSTRUMENTATION_AGENT_PATH" setting_names refl) (refl, tt)
      cart_meta cart (some shop)
