-- ===== src/Webhook/Handler.antt =====
-- `NewPodMutator` and the HTTP handler of the webhook: `HandleMutate`, `mutateResponse` and
-- `errorResponse` of pkg/webhook/mutator.go. Logging is left out.
pub mod Replies
use e_bpf_lens.Prelude.{
  ℕ, String, Bool, true, false, not, Option, none, some, List, [], ◌∷◌, Map, ◌==◌, ◌||◌, ◌⧺◌,
  if◌then◌else◌, is_empty,
}
use e_bpf_lens.Webhook.Kube.{Pod}
use e_bpf_lens.Webhook.Deps.{Libraries}
use e_bpf_lens.Webhook.Config.{SdkInject, Selector, package_version}
use e_bpf_lens.Webhook.EnvVars.{PodMutator}
use e_bpf_lens.Webhook.Mutator.{mutate_pod}

-- `otelcfg.OTLPOptions`, and what `cfg.Traces` answers; `none` is an error of the library.
pub record OtlpOptions : Type 0 where
  pub scheme : String
  pub endpoint : String
  pub base_url_path : String
  pub headers : Map String

pub record TracesSettings : Type 0 where
  pub protocol : String
  pub get_protocol : String
  pub http_options : Option OtlpOptions
  pub grpc_options : Option OtlpOptions

-- The switch on the protocol; `none` is an error.
endpoint_options : TracesSettings → Option OtlpOptions
endpoint_options traces =
    if traces.get_protocol == "http/json"
      || traces.get_protocol == "http/protobuf"
      || traces.get_protocol == ""
    then traces.http_options
    else if traces.get_protocol == "grpc"
    then traces.grpc_options
    else none

module _ {Modes : Type 0} where
  unfoldable new_pod_mutator :
      Libraries Modes
      → SdkInject
      → Bool
      → TracesSettings
      → List (Option (Selector Modes))
      → Option (PodMutator Modes)
  unfolding endpoint_options
  new_pod_mutator libraries injector any_span_metrics traces selectors =
      elim (endpoint_options traces) [
        | none ↦ none
        | some opts ↦ some (record {
          libraries = libraries;
          selectors = selectors;
          injector = injector;
          any_span_metrics = any_span_metrics;
          endpoint = opts.scheme ⧺ "://" ⧺ opts.endpoint ⧺ opts.base_url_path;
          proto = if is_empty traces.protocol then "http/protobuf" else traces.protocol;
          export_headers = opts.headers;
        })
      ]

pub record AdmissionRequest : Type 0 where
  pub uid : String
  pub kind : String
  pub raw : String

-- The texts of the errors, without the library errors that they quote.
pub data Message : Type 0 where
  no_version unmarshal_failed marshal_failed patches_failed no_changes : Message

pub record AdmissionResponse : Type 0 where
  pub uid : String
  pub allowed : Bool
  pub result : Option Message
  pub patch : Option String

-- The decoders and encoders of the Kubernetes types, and `admission.PatchResponseFromRaw`, each with
-- `none` for an error. A decoded review may hold no request.
pub record Codec : Type 0 where
  pub decode_review : String → Option (Option AdmissionRequest)
  pub unmarshal_pod : String → Option Pod
  pub marshal_pod : Pod → Option String
  pub patches : String → String → List String
  pub marshal_patches : List String → Option String
  pub marshal_response : AdmissionResponse → Option String

-- A body that could not be read is `none`.
pub record HttpRequest : Type 0 where
  pub body : Option String
  pub content_type : String

-- `http.Error`, or status 200 with the response and its bytes.
pub data Reply : Type 0 where
  http_error : ℕ → Reply
  reviewed : AdmissionResponse → String → Reply

pub error_response : AdmissionResponse → Message → AdmissionResponse
error_response r m = record r { allowed = false; result = some m }

mutate_response : Codec → AdmissionResponse → Reply
mutate_response codec r = elim (codec.marshal_response r) [
  | none ↦ http_error 500
  | some bytes ↦ reviewed r bytes
]

-- The response with the patch from the raw pod to the marshalled one.
pub patch_response : Codec → String → String → AdmissionResponse → AdmissionResponse
unfolding error_response
patch_response codec raw marshalled r = elim (codec.patches raw marshalled) [
  | [] ↦ error_response r no_changes
  | p ∷ ps ↦ elim (codec.marshal_patches (p ∷ ps)) [
    | none ↦ error_response r patches_failed
    | some bytes ↦ record r { patch = some bytes }
  ]
]

module _ {Modes : Type 0} (pm : PodMutator Modes) (codec : Codec) where
  -- `modified := pm.mutatePod(&pod)`, and what follows it.
  pub respond_to_mutation : String → Pod × Bool → AdmissionResponse → AdmissionResponse
  unfolding patch_response
  respond_to_mutation raw (pod, false) r = r
  respond_to_mutation raw (pod, true) r = elim (codec.marshal_pod pod) [
    | none ↦ error_response r marshal_failed
    | some marshalled ↦ patch_response codec raw marshalled r
  ]

  pub respond_to_pod : String → AdmissionResponse → AdmissionResponse
  unfolding respond_to_mutation
  respond_to_pod raw r = elim (codec.unmarshal_pod raw) [
    | none ↦ error_response r unmarshal_failed
    | some pod ↦ respond_to_mutation raw (mutate_pod pm pod) r
  ]

  pub respond : AdmissionRequest → AdmissionResponse
  unfolding respond_to_pod
  respond request =
      let r : AdmissionResponse = record {
        uid = request.uid;
        allowed = true;
        result = none;
        patch = none;
      } in
      if is_empty (package_version pm.libraries.sum224 pm.injector)
      then error_response r no_version
      else if request.kind == "Pod"
      then respond_to_pod request.raw r
      else r

  handle_body : String → Reply
  unfolding respond mutate_response
  handle_body body = elim (codec.decode_review body) [
    | none ↦ http_error 400
    | some none ↦ http_error 400
    | some (some request) ↦ mutate_response codec (respond request)
  ]

  unfoldable handle_mutate : HttpRequest → Reply
  unfolding handle_body
  handle_mutate r = elim r.body [
    | none ↦ http_error 400
    | some body ↦
        if not (r.content_type == "application/json") then http_error 415 else handle_body body
  ]
