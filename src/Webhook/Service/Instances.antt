-- ===== src/Webhook/Service/Instances.antt =====
-- Instance identifiers of containers, and the service name of a pod with an owner's UID.
use e_bpf_lens.Prelude.{
  String, true, false, [], ◌∷◌, ◌≡◌, ◌≢◌, refl, sym, ◌∙◌, arith, is_empty, if◌then◌else◌, value_at,
  lookup, ◌⧺◌, join, ◌==◌,
}
use e_bpf_lens.Webhook.Kube.{ObjectMeta}
use e_bpf_lens.Webhook.Owners.{add_parent_resource_labels, owners_from, get_resource_attribute}
use e_bpf_lens.Webhook.Owners.Attributes.{lookup-add_parent_resource_labels}
use e_bpf_lens.Webhook.Service.{
  choose_label_or_annotation, choose_service_name, create_service_instance_id,
  resource_attribute_annotation_prefix,
}
use e_bpf_lens.Webhook.Service.Names.{choose_service_name-first_non_empty}

append_cancel : (s t u : String) → s ⧺ t ≡ s ⧺ u → t ≡ u
append_cancel String.[] t u e = e
append_cancel (String.◌∷◌ c s) t u e = append_cancel s t u (cc)

abbrev pub annotation_of : ObjectMeta → String → String
annotation_of meta resource =
    value_at meta.annotations (resource_attribute_annotation_prefix ⧺ resource)

no_label :
    (meta : ObjectMeta) (r : String)
    → annotation_of meta r ≡ ""
    → choose_label_or_annotation meta false r [] ≡ ""
unfolding choose_label_or_annotation
no_label meta r a = rw a

id_spelled :
    (meta : ObjectMeta) (namespace pod c : String)
    → annotation_of meta "service.instance.id" ≡ ""
    → is_empty namespace ≡ false
    → is_empty pod ≡ false
    → is_empty c ≡ false
    → create_service_instance_id meta namespace pod c ≡ namespace ⧺ "." ⧺ pod ⧺ "." ⧺ c
unfolding create_service_instance_id join
id_spelled meta namespace pod c a hn hp hc =
    rw (no_label meta "service.instance.id" a, create_service_instance_id) (rw hn (rw hp (rw hc)))

-- Two containers of one pod with different names get different service instance identifiers, unless
-- the pod's annotation sets the identifier for both.
pub instance_ids_differ :
    (meta : ObjectMeta) (namespace pod c d : String)
    → annotation_of meta "service.instance.id" ≡ ""
    → is_empty namespace ≡ false
    → is_empty pod ≡ false
    → is_empty c ≡ false
    → is_empty d ≡ false
    → c ≢ d
    → create_service_instance_id meta namespace pod c
      ≢ create_service_instance_id meta namespace pod d
instance_ids_differ meta namespace pod c d a hn hp hc hd differ same = differ (
    append_cancel "." c d (
      append_cancel pod ("." ⧺ c) ("." ⧺ d) (
        append_cancel "." (pod ⧺ "." ⧺ c) (pod ⧺ "." ⧺ d) (
          append_cancel namespace ("." ⧺ pod ⧺ "." ⧺ c) ("." ⧺ pod ⧺ "." ⧺ d) (
            sym (id_spelled meta namespace pod c a hn hp hc)
            ∙ same
            ∙ id_spelled meta namespace pod d a hn hp hd)))))

owners_of_stateful_set :
    (meta : ObjectMeta) (version name uid : String)
    → meta.owner_references
      ≡ record { api_version = version; kind = "StatefulSet"; name = name; uid = uid } ∷ []
    → owners_from meta ≡ record { kind = "StatefulSet"; name = name } ∷ []
unfolding owners_from
owners_of_stateful_set meta version name uid e = rw (e, owners_from) (ground arith)

-- The value of an owner attribute of such a pod, with UIDs.
attribute :
    (meta : ObjectMeta) (version name uid key : String)
    → meta.owner_references
      ≡ record { api_version = version; kind = "StatefulSet"; name = name; uid = uid } ∷ []
    → is_empty key ≡ false
    → value_at (add_parent_resource_labels meta [] true) key
      ≡ (if "k8s.statefulset.name" == key then uid else "")
unfolding value_at lookup get_resource_attribute
attribute meta version name uid key e named =
    rw (lookup-add_parent_resource_labels key named meta [] true, value_at)
      (rw (owners_of_stateful_set meta version name uid e) (rw e (ground arith)))

-- A pod of a stateful set, with UID attributes asked for and no name in its annotations, is given
-- the UID of the stateful set as its service name.
service_name_is_uid :
    (meta : ObjectMeta) (version name uid pod_name : String)
    → meta.owner_references
      ≡ record { api_version = version; kind = "StatefulSet"; name = name; uid = uid } ∷ []
    → annotation_of meta "service.name" ≡ ""
    → is_empty uid ≡ false
    → choose_service_name meta false pod_name (add_parent_resource_labels meta [] true) ≡ uid
service_name_is_uid meta version name uid pod_name e a h =
    choose_service_name-first_non_empty meta false pod_name
      (add_parent_resource_labels meta [] true)
    ∙ simp (
      a,
      attribute meta version name uid "k8s.deployment.name" e refl,
      attribute meta version name uid "k8s.replicaset.name" e refl,
      attribute meta version name uid "k8s.statefulset.name" e refl,
      h,
    )
