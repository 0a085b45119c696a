-- ===== src/Webhook/Owners.antt =====
-- The owners of a pod: `ownersFrom`, `topOwner`, `getResourceAttribute` and
-- `addParentResourceLabels` of pkg/webhook.
pub mod Attributes
use e_bpf_lens.Prelude.{
  ℕ, ◌+◌, String, code, Bool, true, false, ◌&&◌, Option, none, some, List, [], ◌∷◌, Map, insert,
  ◌==◌, lower_eq, if◌then◌else◌, is_empty, before_last, leb, eqb,
}
use e_bpf_lens.Webhook.Kube.{ObjectMeta, OwnerReference}

-- `informer.Owner`
pub record Owner : Type 0 where
  pub kind : String
  pub name : String

-- The owner that the code guesses from the name of a ReplicaSet or a Job.
guess : OwnerReference → String → String → String → Option Owner
guess or version kind owner_kind =
    if or.api_version == version && or.kind == kind
    then elim (before_last b'-' or.name) [
      | none ↦ none
      | some prefix ↦
          if is_empty prefix then none else some (record { kind = owner_kind; name = prefix })
    ]
    else none

abbrev or_guess : Option Owner → Option Owner → Option Owner
or_guess none b = b
or_guess (some a) b = some a

guess_owner : OwnerReference → Option Owner
unfolding guess
guess_owner or =
    or_guess (guess or "apps/v1" "ReplicaSet" "Deployment") (guess or "batch/v1" "Job" "CronJob")

owners_loop : List OwnerReference → List Owner
unfolding guess_owner
owners_loop [] = []
owners_loop (or ∷ ors) =
    let rest = owners_loop ors in
    record { kind = or.kind; name = or.name }
    ∷ (elim (guess_owner or) [ none ↦ rest | some top ↦ top ∷ [] ])

unfoldable pub owners_from : ObjectMeta → List Owner
unfolding owners_loop
owners_from meta = elim meta.owner_references [
  | [] ↦ record { kind = "Pod"; name = meta.name } ∷ []
  | or ∷ ors ↦ owners_loop (or ∷ ors)
]

-- The last owner of the list.
unfoldable pub top_owner : List Owner → Option Owner
top_owner [] = none
top_owner (o ∷ []) = some o
top_owner (o ∷ p ∷ ps) = top_owner (p ∷ ps)

abbrev pub deployment_name_key : String
deployment_name_key = "k8s.deployment.name"

abbrev pub replica_set_name_key : String
replica_set_name_key = "k8s.replicaset.name"

abbrev pub stateful_set_name_key : String
stateful_set_name_key = "k8s.statefulset.name"

abbrev pub daemon_set_name_key : String
daemon_set_name_key = "k8s.daemonset.name"

abbrev pub cron_job_name_key : String
cron_job_name_key = "k8s.cronjob.name"

abbrev pub job_name_key : String
job_name_key = "k8s.job.name"

unfoldable pub get_resource_attribute : String → String
unfolding lower_eq
get_resource_attribute kind =
    if lower_eq kind "replicaset"
    then replica_set_name_key
    else if lower_eq kind "deployment"
    then deployment_name_key
    else if lower_eq kind "statefulset"
    then stateful_set_name_key
    else if lower_eq kind "daemonset"
    then daemon_set_name_key
    else if lower_eq kind "job"
    then job_name_key
    else if lower_eq kind "cronjob"
    then cron_job_name_key
    else ""

-- `if resourceAttribute != "" { resources[resourceAttribute] = value }`
pub set_attribute : String → String → Map String → Map String
set_attribute key value resources = if is_empty key then resources else insert key value resources

pub add_names : List Owner → Map String → Map String
unfolding get_resource_attribute set_attribute
add_names [] resources = resources
add_names (o ∷ os) resources =
    add_names os (set_attribute (get_resource_attribute o.kind) o.name resources)

pub add_uids : List OwnerReference → Map String → Map String
unfolding get_resource_attribute set_attribute
add_uids [] resources = resources
add_uids (or ∷ ors) resources =
    add_uids ors (set_attribute (get_resource_attribute or.kind) or.uid resources)

pub add_parent_resource_labels : ObjectMeta → Map String → Bool → Map String
unfolding add_names add_uids owners_from
add_parent_resource_labels meta resources include_uid =
    let named = add_names (owners_from meta) resources in
    if include_uid then add_uids meta.owner_references named else named
