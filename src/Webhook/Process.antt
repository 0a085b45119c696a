-- ===== src/Webhook/Process.antt =====
-- `ProcessInfo` of pkg/webhook/scanner.go, `Info` of container.go, and how the mutator fills one in
-- for a pod (`processMetadata`).
use e_bpf_lens.Prelude.{ℕ, String, Option, none, some, List, [], ◌∷◌, Map, insert}
use e_bpf_lens.Webhook.Config.{InstrumentableType, unknown}
use e_bpf_lens.Webhook.Kube.{ObjectMeta}
use e_bpf_lens.Webhook.Owners.{Owner, owners_from, top_owner}

pub record Info : Type 0 where
  pub container_id : String
  pub pid_namespace : ℕ

pub record ProcessInfo : Type 0 where
  pub pid : ℕ
  pub metadata : Map String
  pub pod_labels : Map String
  pub pod_annotations : Map String
  pub env : Map String
  pub kind : InstrumentableType
  pub container_info : Option Info

-- `&ProcessInfo{pid: pid}`
abbrev pub new_process_info : ℕ → ProcessInfo
new_process_info pid = record {
  pid = pid;
  metadata = [];
  pod_labels = [];
  pod_annotations = [];
  env = [];
  kind = unknown;
  container_info = none;
}

abbrev pub attr_namespace : String
attr_namespace = "k8s_namespace"

abbrev attr_pod_name : String
attr_pod_name = "k8s_pod_name"

abbrev attr_owner_name : String
attr_owner_name = "k8s_owner_name"

-- `for _, owner := range owners { metadata[label(owner.Kind)] = owner.Name }`
add_owners : (String → String) → List Owner → Map String → Map String
add_owners label [] metadata = metadata
add_owners label (o ∷ os) metadata = add_owners label os (insert (label o.kind) o.name metadata)

abbrev name_or : String → Option Owner → String
name_or name none = name
name_or name (some o) = o.name

-- The metadata of a pod with these names and owners.
unfoldable pub pod_metadata : (String → String) → String → String → List Owner → Map String
unfolding add_owners top_owner insert
pod_metadata label namespace name owners = add_owners label owners (
    (attr_namespace, namespace)
    ∷ (attr_pod_name, name)
    ∷ (attr_owner_name, name_or name (top_owner owners))
    ∷ [])

unfoldable pub process_metadata : (String → String) → ObjectMeta → ProcessInfo
unfolding pod_metadata owners_from
process_metadata label meta = record (new_process_info 0) {
  metadata = pod_metadata label meta.namespace meta.name (owners_from meta);
  pod_labels = meta.labels;
  pod_annotations = meta.annotations;
}
