-- ===== src/Webhook/Service/Names.antt =====
-- The precedence of the sources of a service's name, and the identifiers of its instances.
use e_bpf_lens.Prelude.{
  String, Bool, true, false, List, [], ◌∷◌, ◌++◌, ◌≡◌, refl, arith, is_empty, if◌then◌else◌, Map,
  value_at, map, ◌⧺◌,
}
use e_bpf_lens.Webhook.Kube.{ObjectMeta}
use e_bpf_lens.Webhook.Service.{
  first_value, choose_label_or_annotation, choose_service_name, owner_keys, label_app_name,
  resource_attribute_annotation_prefix,
}

-- The first text of the list that is not empty; the empty text if there is none.
abbrev first_non_empty : List String → String
first_non_empty [] = ""
first_non_empty (s ∷ ss) = let rest = first_non_empty ss in if is_empty s then rest else s

empty_eq : (s : String) → is_empty s ≡ true → s ≡ ""
empty_eq String.[] h = refl
empty_eq (String.◌∷◌ c s) h = cc

first_non_empty-append :
    (xs ys : List String)
    → first_non_empty (xs ++ ys)
      ≡ (if is_empty (first_non_empty xs) then first_non_empty ys else first_non_empty xs)
first_non_empty-append [] ys = refl
first_non_empty-append (x ∷ xs) ys = ground (arith, first_non_empty-append xs ys)

first_value-map :
    (m : Map String) (ks : List String) → first_value m ks ≡ first_non_empty (map (value_at m) ks)
unfolding first_value
first_value-map m [] = refl
first_value-map m (k ∷ ks) = ground (arith, first_value-map m ks)

-- The sources of the service name, the strongest first.
abbrev name_sources : ObjectMeta → Bool → String → Map String → List String
name_sources meta use_labels pod_name resources =
    value_at meta.annotations (resource_attribute_annotation_prefix ⧺ "service.name")
      ∷ (if use_labels then map (value_at meta.labels) label_app_name else [])
    ++ map (value_at resources) owner_keys
    ++ pod_name ∷ []

-- The service name is the first non-empty of: the pod's annotation; where labels are used, the two
-- application labels; the names of the owning deployment, replica set, stateful set, daemon set,
-- cron job and job; the pod's name.
pub choose_service_name-first_non_empty :
    (meta : ObjectMeta) (use_labels : Bool) (pod_name : String) (resources : Map String)
    → choose_service_name meta use_labels pod_name resources
      ≡ first_non_empty (name_sources meta use_labels pod_name resources)
unfolding choose_service_name choose_label_or_annotation
choose_service_name-first_non_empty meta true pod_name resources = ground (
  arith,
  first_value-map meta.labels label_app_name,
  first_value-map resources owner_keys,
  first_non_empty-append (map (value_at meta.labels) label_app_name)
      (map (value_at resources) owner_keys ++ pod_name ∷ []),
  first_non_empty-append (map (value_at resources) owner_keys) (pod_name ∷ []),
  empty_eq pod_name,
)
choose_service_name-first_non_empty meta false pod_name resources = ground (
  arith,
  first_value-map resources owner_keys,
  first_non_empty-append (map (value_at resources) owner_keys) (pod_name ∷ []),
  empty_eq pod_name,
)
