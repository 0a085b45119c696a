-- ===== src/Webhook/Bouncer.antt =====
-- pkg/webhook/bouncer.go: restarts of deployments through the Kubernetes API.
pub mod Once
use e_bpf_lens.Prelude.{
  String, Bool, true, not, ◌&&◌, Option, none, some, List, [], ◌∷◌, Map, lookup, insert, is_some,
  ◌⧺◌, if◌then◌else◌, is_empty, trim_space,
}

-- The calls that the bouncer makes to the API server: namespace, deployment, and the patch.
pub data Call : Type 0 where
  get : String → String → Call
  patch : String → String → String → Call

-- Whether the API server answers a call without an error, and the time that a patch carries.
pub record KubeClient : Type 0 where
  pub has_deployment : String → String → Bool
  pub accepts_patch : String → String → Bool
  pub now : String

pub data RestartError : Type 0 where
  missing_name get_failed patch_failed : RestartError

pub record PodBouncer : Type 0 where
  pub bounced_deployments : Map Bool

pub mutation_key : String → String → String
unfolding trim_space
mutation_key namespace deployment = trim_space namespace ⧺ ":" ⧺ trim_space deployment

unfoldable pub can_be_bounced : String → String → Bool
unfolding trim_space
can_be_bounced namespace deployment =
    not (is_empty (trim_space namespace)) && not (is_empty (trim_space deployment))

unfoldable pub already_bounced : PodBouncer → String → String → Bool
already_bounced b namespace deployment =
    is_some (lookup (mutation_key namespace deployment) b.bounced_deployments)

abbrev restart_patch : String → String
restart_patch time =
    "{\"spec\":{\"template\":{\"metadata\":{\"annotations\":{\"beyla.grafana.com/restartedAt\":\""
    ⧺ time ⧺ "\"}}}}}"

-- What `RestartDeployment` leaves and makes.
pub record Restart : Type 0 where
  pub bouncer : PodBouncer
  pub calls : List Call
  pub error : Option RestartError

pub restart_deployment : KubeClient → PodBouncer → String → String → Restart
restart_deployment client b namespace deployment =
    if not (can_be_bounced namespace deployment)
    then record { bouncer = b; calls = []; error = some missing_name }
    else let marked : PodBouncer = record {
      bounced_deployments = insert (mutation_key namespace deployment) true b.bounced_deployments;
    } in
      if not (client.has_deployment namespace deployment)
      then record {
        bouncer = marked;
        calls = get namespace deployment ∷ [];
        error = some get_failed;
      }
      else record {
        bouncer = marked;
        calls =
            get namespace deployment ∷ patch namespace deployment (restart_patch client.now) ∷ [];
        error = if client.accepts_patch namespace deployment then none else some patch_failed;
      }
