-- ===== src/Webhook/Config.antt =====
-- The injector's settings: `SDKInject`, `SDKExport` and `SDKResource` of pkg/beyla/config.go, the
-- instrumentable kinds, and what a selector of go.opentelemetry.io/obi hands out.
pub mod Valid
use e_bpf_lens.Prelude.{
  ℕ, String, Bool, true, false, not, ◌&&◌, Option, none, some, List, Map, if◌then◌else◌, is_empty,
  eqb, any,
}
use e_bpf_lens.Webhook.Deps.{Semver}

-- `svc.InstrumentableType`
pub data InstrumentableType : Type 0 where
  unknown golang java java_native dotnet python ruby nodejs rust generic php cpp :
      InstrumentableType

abbrev ordinal : InstrumentableType → ℕ
ordinal unknown = 0
ordinal golang = 1
ordinal java = 2
ordinal java_native = 3
ordinal dotnet = 4
ordinal python = 5
ordinal ruby = 6
ordinal nodejs = 7
ordinal rust = 8
ordinal generic = 9
ordinal php = 10
ordinal cpp = 11

-- `==` of two kinds, which are numbers in Go.
abbrev pub same_kind : InstrumentableType → InstrumentableType → Bool
same_kind a b = eqb (ordinal a) (ordinal b)

pub record SamplerConfig : Type 0 where
  pub name : String
  pub arg : String

-- What the webhook reads of a `services.Selector`; each `Range…` is a map of matchers.
pub record Selector (Modes : Type 0) : Type 0 where
  pub metadata : Map (String → Bool)
  pub pod_labels : Map (String → Bool)
  pub pod_annotations : Map (String → Bool)
  pub export_modes : Modes
  pub sampler_config : Option SamplerConfig

pub record SdkExport : Type 0 where
  pub traces : Option Bool
  pub metrics : Option Bool
  pub logs : Option Bool

abbrev enabled_or : Bool → Option Bool → Bool
enabled_or default none = default
enabled_or default (some b) = b

unfoldable pub traces_enabled : SdkExport → Bool
traces_enabled e = enabled_or true e.traces

unfoldable pub metrics_enabled : SdkExport → Bool
metrics_enabled e = enabled_or true e.metrics

unfoldable pub logs_enabled : SdkExport → Bool
logs_enabled e = enabled_or false e.logs

pub record SdkResource : Type 0 where
  pub attributes : Map String
  pub add_k8s_uid_attributes : Bool
  pub use_labels_for_resource_attributes : Bool

pub record SdkInject : Type 0 where
  pub no_auto_restart : Bool
  pub image_volume_path : String
  pub host_path_volume_dir : String
  pub sdk_pkg_version : String
  pub host_mount_path : String
  pub manage_sdk_versions : Bool
  pub default_sampler : Option SamplerConfig
  pub propagators : List String
  pub sdk_export : SdkExport
  pub resources : SdkResource
  pub enabled_sdks : List InstrumentableType
  pub debug : Bool

unfoldable pub uses_image_volume : SdkInject → Bool
uses_image_volume s = not (is_empty s.image_volume_path)

pub data ConfigError : Type 0 where
  image_and_host_mount image_and_version no_version invalid_version no_host_mount : ConfigError

-- `SDKInject.Validate`; `none` is the nil error.
unfoldable pub validate : Semver → SdkInject → Option ConfigError
validate semver s =
    if not (is_empty s.image_volume_path)
    then if not (is_empty s.host_mount_path)
      then some image_and_host_mount
      else if not (is_empty s.sdk_pkg_version)
      then some image_and_version
      else none
    else if is_empty s.sdk_pkg_version
    then some no_version
    else if not (semver.is_valid s.sdk_pkg_version)
    then some invalid_version
    else if s.manage_sdk_versions && is_empty s.host_mount_path
    then some no_host_mount
    else none

-- `hash` stands for the hexadecimal print of `sha256.Sum224`.
unfoldable pub package_version : (String → String) → SdkInject → String
package_version hash s =
    if not (is_empty s.image_volume_path) then hash s.image_volume_path else s.sdk_pkg_version

-- `PodMutator.CanInstrument`
unfoldable pub can_instrument : SdkInject → InstrumentableType → Bool
can_instrument s kind = any (λ k. same_kind k kind) s.enabled_sdks
