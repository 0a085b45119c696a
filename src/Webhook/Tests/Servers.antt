-- ===== src/Webhook/Tests/Servers.antt =====
-- Runs of the scanner, the bouncer and the server.
use e_bpf_lens.Prelude.{
  ◌+◌, ◌≤◌, true, false, none, some, List, [], ◌∷◌, ◌++◌, ◌≡◌, refl, lookup, any, ◌==◌, trim_space,
  insert, split_once,
}
use e_bpf_lens.Webhook.Bouncer.{can_be_bounced, PodBouncer, already_bounced}
use e_bpf_lens.Webhook.Bouncer.Once.{gets, patches, mark}
use e_bpf_lens.Webhook.Process.{new_process_info}
use e_bpf_lens.Webhook.Scanner.{env_strs_to_map, instrumentable_from_module_map}
use e_bpf_lens.Webhook.Config.{python}
use e_bpf_lens.Webhook.Scanner.Oldest.{Uses}
use e_bpf_lens.Webhook.Server.{
  Server, DirEntry, Event, created, Resource, PodInfo, run, establish_initial_process_state,
}
use e_bpf_lens.Webhook.Server.Versions.{removals_of, version_in_use_survives}
use e_bpf_lens.Webhook.Server.Restarts.{restarts_once}
use e_bpf_lens.Webhook.Tests.{
  Signals, three_versions, three_versions-IsPreorder, java_process, java_environ, one_process,
  new_server, willing_client,
}

abbrev no_marks : PodBouncer
no_marks = record { bounced_deployments = [] }

fresh : already_bounced no_marks "shop" "cart" ≡ false
unfolding already_bounced lookup
fresh = refl

python_module : instrumentable_from_module_map "/usr/bin/python3.11" ≡ python
unfolding instrumentable_from_module_map
python_module = refl

-- The Java process uses the version v1.0.0.
java-Uses : Uses three_versions one_process java_process "v1.0.0"
unfolding env_strs_to_map split_once trim_space insert lookup
java-Uses = record {
  strs = java_environ;
  alive = refl;
  readable = refl;
  names = refl;
  valid = refl;
}

abbrev directories : List DirEntry
directories =
    record { name = "v1.0.0"; is_dir = true }
    ∷ record { name = "v2.0.0"; is_dir = true }
    ∷ record { name = "notes"; is_dir = true }
    ∷ []

version_in_use_survives_example :
    any
      (λ n. n == "v1.0.0")
      (removals_of
        (establish_initial_process_state three_versions one_process
          (λ _. true)
          (some directories)
          (some ((new_process_info 8 ∷ []) ++ java_process ∷ []))
          new_server).1)
    ≡ false
version_in_use_survives_example =
    version_in_use_survives three_versions three_versions-IsPreorder one_process new_server
      (λ _. true) (some directories) (new_process_info 8 ∷ []) [] java_process "v1.0.0" java-Uses
      refl

abbrev cart_pod_info : PodInfo
cart_pod_info = record {
  containers = "c1" ∷ [];
  owners = record { kind = "Deployment"; name = "cart" } ∷ [];
}

abbrev cart_resource : Resource
cart_resource = record {
  name = "cart-7d9f-x2";
  namespace = "shop";
  labels = [];
  annotations = [];
  pod = some cart_pod_info;
}

abbrev cart_created : Event
cart_created = record { type = created; resource = some cart_resource }

-- The Java process runs in the pod's container.
abbrev busy_server : Server Signals
busy_server = record new_server { initial_state = ("c1", java_process ∷ []) ∷ [] }

restarts_once_example :
    (mark busy_server.bouncer "shop:cart"
        + gets "shop:cart" (run willing_client (cart_created ∷ cart_created ∷ []) busy_server).1
      ≤ 1)
    × (mark
          (run willing_client (cart_created ∷ cart_created ∷ []) busy_server).0.bouncer
          "shop:cart"
        ≡ mark busy_server.bouncer "shop:cart"
          + gets "shop:cart" (run willing_client (cart_created ∷ cart_created ∷ []) busy_server).1)
    × (patches "shop:cart" (run willing_client (cart_created ∷ cart_created ∷ []) busy_server).1
        ≤ gets "shop:cart" (run willing_client (cart_created ∷ cart_created ∷ []) busy_server).1)
restarts_once_example =
    restarts_once willing_client "shop:cart" (cart_created ∷ cart_created ∷ []) busy_server

no_container : lookup "c1" new_server.initial_state ≡ none
unfolding lookup
no_container = refl

-- A name of white space cannot be bounced.
blank_name : can_be_bounced "shop" " " ≡ false
unfolding can_be_bounced trim_space
blank_name = refl
