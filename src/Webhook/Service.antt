-- ===== src/Webhook/Service.antt =====
-- The service attributes of a container: the `choose…` functions of pkg/webhook/env_vars.go, with
-- `parseServiceVersionFromImage` and `createServiceInstanceId`.
pub mod Instances
pub mod Names
use e_bpf_lens.Prelude.{
  String, Bool, not, ◌&&◌, Option, none, some, List, [], ◌∷◌, Map, value_at, ◌⧺◌, if◌then◌else◌,
  is_empty, join, or_else,
}
use e_bpf_lens.Webhook.Kube.{ObjectMeta, Container}
use e_bpf_lens.Webhook.Deps.{Reference}
use e_bpf_lens.Webhook.Owners.{
  deployment_name_key, replica_set_name_key, stateful_set_name_key, daemon_set_name_key,
  cron_job_name_key, job_name_key,
}

abbrev pub resource_attribute_annotation_prefix : String
resource_attribute_annotation_prefix = "resource.opentelemetry.io/"

abbrev pub label_app_name : List String
label_app_name = "app.kubernetes.io/instance" ∷ "app.kubernetes.io/name" ∷ []

abbrev label_app_version : List String
label_app_version = "app.kubernetes.io/version" ∷ []

-- The first of the keys at which the map holds a non-empty value; `""` if there is none.
pub first_value : Map String → List String → String
first_value m [] = ""
first_value m (k ∷ ks) =
    let rest = first_value m ks in let v = value_at m k in if not (is_empty v) then v else rest

pub choose_label_or_annotation : ObjectMeta → Bool → String → List String → String
unfolding first_value
choose_label_or_annotation meta use_labels resource label_keys =
    let v = value_at meta.annotations (resource_attribute_annotation_prefix ⧺ resource) in
    if not (is_empty v) then v else if use_labels then first_value meta.labels label_keys else ""

-- The attributes of the owners that can name a service, in the order in which they are tried.
abbrev pub owner_keys : List String
owner_keys =
    deployment_name_key ∷ replica_set_name_key ∷ stateful_set_name_key ∷ daemon_set_name_key
    ∷ cron_job_name_key ∷ job_name_key ∷ []

pub choose_service_name : ObjectMeta → Bool → String → Map String → String
unfolding choose_label_or_annotation first_value
choose_service_name meta use_labels pod_name resources =
    let name = choose_label_or_annotation meta use_labels "service.name" label_app_name in
    let owner = first_value resources owner_keys in
    if not (is_empty name) then name else if not (is_empty owner) then owner else pod_name

abbrev text_or_empty : Option String → String
text_or_empty o = or_else o ""

-- `parseServiceVersionFromImage`, given what `reference.Parse` says of the image; `none` is an error.
parse_service_version : Option Reference → Option String
parse_service_version none = none
parse_service_version (some ref) =
    let tag = text_or_empty ref.tag in
    let digest = text_or_empty ref.digest in
    if not ref.is_named
    then none
    else if not (is_empty digest)
    then if not (is_empty tag) then some (tag ⧺ "@" ⧺ digest) else some digest
    else if not (is_empty tag)
    then some tag
    else none

unfoldable pub choose_service_version :
    (String → Option Reference) → ObjectMeta → Bool → Container → String
unfolding choose_label_or_annotation parse_service_version
choose_service_version parse meta use_labels c =
    let v = choose_label_or_annotation meta use_labels "service.version" label_app_version in
    if not (is_empty v) then v else or_else (parse_service_version (parse c.image)) ""

unfoldable pub choose_service_namespace : ObjectMeta → Bool → String → String
unfolding choose_label_or_annotation
choose_service_namespace meta use_labels namespace_name =
    let namespace = choose_label_or_annotation meta use_labels "service.namespace" [] in
    if not (is_empty namespace) then namespace else namespace_name

pub create_service_instance_id : ObjectMeta → String → String → String → String
create_service_instance_id meta namespace_name pod_name container_name =
    let id = choose_label_or_annotation meta Bool.false "service.instance.id" [] in
    if not (is_empty id)
    then id
    else if not (is_empty namespace_name)
        && not (is_empty pod_name)
        && not (is_empty container_name)
    then join (namespace_name ∷ pod_name ∷ container_name ∷ []) "."
    else ""
