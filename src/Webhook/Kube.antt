-- ===== src/Webhook/Kube.antt =====
-- The fields of the Kubernetes objects (k8s.io/api/core/v1, apimachinery/pkg/apis/meta/v1) that
-- pkg/webhook reads or writes. A slice is a list; Go tells a nil slice from an empty one, and
-- `mutatePod` compares pods only after each slice that it touches has an element.
use e_bpf_lens.Prelude.{String, Bool, List, Option, Map}

-- `corev1.EnvVarSource`: one of its references is set.
pub data EnvVarSource : Type 0 where
  field_ref : String → EnvVarSource
  resource_field_ref : String → EnvVarSource
  config_map_key_ref : String → String → EnvVarSource
  secret_key_ref : String → String → EnvVarSource

pub record EnvVar : Type 0 where
  pub name : String
  pub value : String
  pub value_from : Option EnvVarSource

pub record VolumeMount : Type 0 where
  pub name : String
  pub mount_path : String
  pub read_only : Bool

pub record Container : Type 0 where
  pub name : String
  pub image : String
  pub env : List EnvVar
  pub volume_mounts : List VolumeMount

pub data VolumeSource : Type 0 where
  image : String → String → VolumeSource
  host_path : String → String → VolumeSource
  other : String → VolumeSource

pub record Volume : Type 0 where
  pub name : String
  pub source : VolumeSource

pub record PodSpec : Type 0 where
  pub containers : List Container
  pub volumes : List Volume

pub record OwnerReference : Type 0 where
  pub api_version : String
  pub kind : String
  pub name : String
  pub uid : String

pub record ObjectMeta : Type 0 where
  pub name : String
  pub namespace : String
  pub labels : Map String
  pub annotations : Map String
  pub owner_references : List OwnerReference

pub record Pod : Type 0 where
  pub meta : ObjectMeta
  pub spec : PodSpec
