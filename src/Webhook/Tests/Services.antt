-- ===== src/Webhook/Tests/Services.antt =====
-- Runs of the owner and service attributes and of the settings' validation.
use e_bpf_lens.Prelude.{
  String, true, false, none, [], ◌∷◌, ◌≡◌, ◌≢◌, refl, lookup, if◌then◌else◌, value_at,
}
use e_bpf_lens.Webhook.Kube.{ObjectMeta}
use e_bpf_lens.Webhook.Config.{traces_enabled, metrics_enabled, logs_enabled, validate}
use e_bpf_lens.Webhook.Owners.{add_parent_resource_labels, owners_from}
use e_bpf_lens.Webhook.Owners.Attributes.{
  or_value, last_name, last_uid, lookup-add_parent_resource_labels,
}
use e_bpf_lens.Webhook.Service.Instances.{annotation_of}
use e_bpf_lens.Webhook.Tests.{cart_meta, host_injector, three_versions}

lookup-add_parent_resource_labels_example :
    lookup "k8s.replicaset.name" (add_parent_resource_labels cart_meta [] true)
    ≡ or_value (if true then last_uid "k8s.replicaset.name" cart_meta.owner_references else none) (
        or_value
          (last_name "k8s.replicaset.name" (owners_from cart_meta))
          (lookup "k8s.replicaset.name" []))
lookup-add_parent_resource_labels_example =
    lookup-add_parent_resource_labels "k8s.replicaset.name" refl cart_meta [] true

no_instance_annotation : annotation_of cart_meta "service.instance.id" ≡ ""
unfolding value_at lookup
no_instance_annotation = refl

cart_is_no_proxy : ◌≢◌ {A = String} "cart" "proxy"
cart_is_no_proxy = λ e. cc

abbrev db_meta : ObjectMeta
db_meta = record cart_meta {
  owner_references =
      record { api_version = "apps/v1"; kind = "StatefulSet"; name = "db"; uid = "u-9" } ∷ [];
}

no_name_annotation : annotation_of db_meta "service.name" ≡ ""
unfolding value_at lookup
no_name_annotation = refl

host_injector_valid : validate three_versions host_injector ≡ none
unfolding validate
host_injector_valid = refl

-- Without settings, traces and metrics are exported and logs are not.
default_signals :
    (traces_enabled host_injector.sdk_export ≡ true)
    × (metrics_enabled host_injector.sdk_export ≡ true)
    × (logs_enabled host_injector.sdk_export ≡ false)
unfolding traces_enabled metrics_enabled logs_enabled
default_signals = (refl, refl, refl)
