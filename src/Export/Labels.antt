-- ===== src/Export/Labels.antt =====
-- The labels of the Prometheus exporters: pkg/export/prom/prom.go.
use e_bpf_lens.Prelude.{
  String, Bool, List, [], ◌∷◌, ◌++◌, Map, value_at, if◌then◌else◌, map, eqb, code,
}

-- `svc.UID`
pub record ServiceUid : Type 0 where
  pub name : String
  pub namespace : String
  pub instance_id : String

-- `svc.Attrs`, with what its methods `Job` and `SDKLanguage.String` answer.
pub record Attrs : Type 0 where
  pub uid : ServiceUid
  pub host_name : String
  pub job : String
  pub sdk_language : String
  pub metadata : Map String
  pub env_vars : Map String

-- The keys of go.opentelemetry.io/obi, in the order in which the labels follow one another.
abbrev k8s_attributes : List String
k8s_attributes =
    "k8s.namespace.name" ∷ "k8s.pod.name" ∷ "k8s.container.name" ∷ "k8s.node.name" ∷ "k8s.pod.uid"
    ∷ "k8s.pod.start_time" ∷ "k8s.deployment.name" ∷ "k8s.replicaset.name" ∷ "k8s.statefulset.name"
    ∷ "k8s.job.name" ∷ "k8s.cronjob.name" ∷ "k8s.daemonset.name" ∷ "k8s.cluster.name" ∷ "k8s.kind"
    ∷ "k8s.owner.name" ∷ []

abbrev docker_attributes : List String
docker_attributes = "container.id" ∷ "container.name" ∷ []

append_k8s_label_names : List String → List String
append_k8s_label_names names =
    names
    ++ "k8s_namespace_name" ∷ "k8s_pod_name" ∷ "k8s_container_name" ∷ "k8s_node_name"
      ∷ "k8s_pod_uid" ∷ "k8s_pod_start_time" ∷ "k8s_deployment_name" ∷ "k8s_replicaset_name"
      ∷ "k8s_statefulset_name" ∷ "k8s_job_name" ∷ "k8s_cronjob_name" ∷ "k8s_daemonset_name"
      ∷ "k8s_cluster_name" ∷ "k8s_kind" ∷ "k8s_owner_name" ∷ []

-- `service.Metadata[key]` for each of the keys.
unfoldable pub metadata_of : List String → Attrs → List String
metadata_of [] service = []
metadata_of (key ∷ keys) service = value_at service.metadata key ∷ metadata_of keys service

unfoldable pub append_k8s_label_values_service : List String → Attrs → List String
unfolding metadata_of
append_k8s_label_values_service values service = values ++ metadata_of k8s_attributes service

unfoldable pub append_docker_label_values : List String → Attrs → List String
unfolding metadata_of
append_docker_label_values values service = values ++ metadata_of docker_attributes service

module _ (prom_name : String → String) where
  -- `prom_name` stands for the method `Prom` of an attribute's name.
  append_docker_label_names : List String → List String
  append_docker_label_names names = names ++ map prom_name docker_attributes

  -- `labelNamesTargetInfo`
  unfoldable pub label_names_target_info : Bool → Bool → List String → List String
  unfolding append_k8s_label_names append_docker_label_names
  label_names_target_info kube_enabled docker_enabled extra =
      let names =
        "host_id" ∷ "host_name" ∷ "service_name" ∷ "service_namespace" ∷ "instance" ∷ "job"
        ∷ "telemetry_sdk_language" ∷ "telemetry_sdk_name" ∷ "source" ∷ "os_type" ∷ [] in
      let with_kube = if kube_enabled then append_k8s_label_names names else names in
      let with_docker = if docker_enabled then append_docker_label_names with_kube else with_kube in
      with_docker ++ map prom_name extra

-- `strings.ReplaceAll(label, "_", ".")`
dotted : String → String
dotted String.[] = ""
dotted (String.◌∷◌ c label) =
    if eqb (code c) b'_' then String.◌∷◌ "." (dotted label) else String.◌∷◌ c (dotted label)

-- `parseExtraMetadata`
unfoldable pub parse_extra_metadata : List String → List String
unfolding dotted
parse_extra_metadata labels = map dotted labels
