-- ===== src/Webhook/Tests.antt =====
-- Concrete inputs for pkg/webhook: stand-ins for the libraries, a mutator's settings, pods, processes
-- and a server. The children run the code and its theorems on them.
mod Containers
mod Pods
mod Variables
mod Services
mod Servers
use e_bpf_lens.Prelude.{
  ℕ, String, Bool, true, false, not, Option, none, some, List, [], ◌∷◌, ◌≡◌, refl, arith, ◌⧺◌,
  if◌then◌else◌, ltb, eqb, ◌==◌,
}
use e_bpf_lens.Webhook.Kube.{EnvVar, Container, ObjectMeta, OwnerReference, Pod}
use e_bpf_lens.Webhook.Deps.{Semver, Sign, IsPreorder, ExportApi, IsBlocking, Libraries}
use e_bpf_lens.Webhook.Config.{SdkInject, Selector, java, python}
use e_bpf_lens.Webhook.Env.{literal}
use e_bpf_lens.Webhook.EnvVars.{PodMutator}
use e_bpf_lens.Webhook.Bouncer.{KubeClient}
use e_bpf_lens.Webhook.Process.{ProcessInfo, new_process_info}
use e_bpf_lens.Webhook.Scanner.{System, new_initial_state_scanner}
use e_bpf_lens.Webhook.Server.{Server}

-- Export modes that say whether they are set and which signals they let through.
pub record Signals : Type 0 where
  pub is_set : Bool
  pub traces : Bool
  pub metrics : Bool
  pub logs : Bool

abbrev signals_api : ExportApi Signals
signals_api = record {
  is_unset = λ m. not m.is_set;
  new_export_modes = record { is_set = true; traces = false; metrics = false; logs = false };
  allow_traces = λ m. record m { traces = true };
  allow_metrics = λ m. record m { metrics = true };
  allow_logs = λ m. record m { logs = true };
  can_export_traces = λ m. m.traces;
  can_export_metrics = λ m. m.metrics;
  can_export_logs = λ m. m.logs;
}

pub signals-IsBlocking : IsBlocking signals_api
signals-IsBlocking = record {
  new_traces = refl;
  new_metrics = refl;
  new_logs = refl;
  traces_traces = λ m h. refl;
  traces_metrics = λ m. refl;
  traces_logs = λ m. refl;
  metrics_metrics = λ m h. refl;
  metrics_traces = λ m. refl;
  metrics_logs = λ m. refl;
  logs_logs = λ m h. refl;
  logs_traces = λ m. refl;
  logs_metrics = λ m. refl;
}

-- Three versions in their order; any other text is invalid and below them.
abbrev rank : String → ℕ
rank v =
    if v == "v1.0.0" then 1 else if v == "v2.0.0" then 2 else if v == "v999.999.999" then 3 else 0

abbrev sign : ℕ → ℕ → Sign
sign a b = if ltb a b then Sign.less else if ltb b a then Sign.greater else Sign.equal

abbrev pub three_versions : Semver
three_versions = record {
  is_valid = λ v. not (eqb (rank v) 0);
  compare = λ v w. sign (rank v) (rank w);
}

pub three_versions-IsPreorder : IsPreorder three_versions
three_versions-IsPreorder = record {
  swap = λ v w. ground arith;
  less_trans = λ u v w h k. ground arith;
  less_irrefl = λ v. ground arith;
}

abbrev pub test_libraries : Libraries Signals
test_libraries = record {
  modes = signals_api;
  parse_reference = λ image. some (record { is_named = true; tag = some "1.4"; digest = none });
  sum224 = λ text. "sum-" ⧺ text;
  owner_label = λ kind. "k8s_" ⧺ (if kind == "Deployment" then "deployment_name" else "owner");
}

-- Java and Python are enabled, and the settings leave the signals to their defaults.
abbrev pub host_injector : SdkInject
host_injector = record {
  no_auto_restart = false;
  image_volume_path = "";
  host_path_volume_dir = "/var/lib/beyla";
  sdk_pkg_version = "v2.0.0";
  host_mount_path = "/host";
  manage_sdk_versions = true;
  default_sampler = some (record { name = "parentbased_always_on"; arg = "" });
  propagators = "tracecontext" ∷ "baggage" ∷ [];
  sdk_export = record { traces = none; metrics = none; logs = none };
  resources = record {
    attributes = ("team", "payments") ∷ [];
    add_k8s_uid_attributes = true;
    use_labels_for_resource_attributes = true;
  };
  enabled_sdks = java ∷ python ∷ [];
  debug = false;
}

-- What lives in the namespace `shop`, with no modes and no sampler of its own.
abbrev pub shop : Selector Signals
shop = record {
  metadata = ("k8s_namespace", λ v. v == "shop") ∷ [];
  pod_labels = [];
  pod_annotations = [];
  export_modes = record { is_set = false; traces = false; metrics = false; logs = false };
  sampler_config = none;
}

abbrev pub shop_mutator : PodMutator Signals
shop_mutator = record {
  libraries = test_libraries;
  selectors = none ∷ some shop ∷ [];
  injector = host_injector;
  any_span_metrics = true;
  endpoint = "http://collector:4318";
  proto = "http/protobuf";
  export_headers = ("X-Scope-OrgID", "7") ∷ [];
}

abbrev pub cart : Container
cart = record {
  name = "cart";
  image = "registry/cart:1.4";
  env = literal "PORT" "80" ∷ literal "OTEL_TRACES_EXPORTER" "console" ∷ [];
  volume_mounts = [];
}

abbrev sidecar : Container
sidecar = record {
  name = "sidecar";
  image = "registry/proxy";
  env = literal "LD_PRELOAD" "/lib/other.so" ∷ [];
  volume_mounts = [];
}

abbrev pub cart_meta : ObjectMeta
cart_meta = record {
  name = "cart-7d9f-x2";
  namespace = "shop";
  labels = ("app", "cart") ∷ [];
  annotations = [];
  owner_references =
      record { api_version = "apps/v1"; kind = "ReplicaSet"; name = "cart-7d9f"; uid = "u-1" } ∷ [];
}

abbrev pub cart_pod : Pod
cart_pod = record {
  meta = cart_meta;
  spec = record { containers = cart ∷ sidecar ∷ []; volumes = [] };
}

abbrev pub willing_client : KubeClient
willing_client = record {
  has_deployment = λ ns d. true;
  accepts_patch = λ ns d. true;
  now = "2026-01-01T00:00:00Z";
}

-- Process 7 runs Java with the SDK v1.0.0 in container `c1`.
abbrev pub java_process : ProcessInfo
java_process = new_process_info 7

abbrev pub java_environ : List String
java_environ = "PATH=/bin" ∷ "BEYLA_INJECTOR_SDK_PKG_VERSION=v1.0.0" ∷ []

abbrev pub one_process : System
one_process = record {
  lib_maps = λ pid. some ("/usr/lib/libjvm.so" ∷ []);
  environ_bytes = λ pid. none;
  has_process = λ pid. eqb pid 7;
  environ = λ pid. some java_environ;
  container_info = λ pid. some (record { container_id = "c1"; pid_namespace = 1 });
}

abbrev pub new_server : Server Signals
new_server = record {
  mutator = shop_mutator;
  bouncer = record { bounced_deployments = [] };
  scanner = new_initial_state_scanner "v2.0.0";
  initial_state = [];
}
