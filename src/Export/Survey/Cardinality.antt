-- ===== src/Export/Survey/Cardinality.antt =====
-- As many label values as label names: the Prometheus client panics where they differ.
use e_bpf_lens.Prelude.{
  String, Bool, List, [], ◌∷◌, ◌≡◌, refl, arith, length, length-map, Bool-cases, inl, inr, sym,
}
use e_bpf_lens.Export.Labels.{
  Attrs, metadata_of, append_k8s_label_values_service, append_docker_label_values,
  label_names_target_info,
}
use e_bpf_lens.Export.Survey.{Labelling, Reporter, label_values, new_survey_reporter}

length-metadata_of : (keys : List String) (a : Attrs) → length (metadata_of keys a) ≡ length keys
unfolding metadata_of
length-metadata_of [] a = refl
length-metadata_of (k ∷ keys) a = omega (arith, length-metadata_of keys a)

module _ (prom_name : String → String) (a : Attrs) where
  same_count :
      (s : Labelling)
      → length (
          label_names_target_info prom_name s.kube_enabled s.docker_enabled s.extra_metadata_labels)
        ≡ length (label_values s a)
  unfolding label_names_target_info label_values append_k8s_label_values_service
      append_docker_label_values
  same_count s =
      let names = length-map prom_name s.extra_metadata_labels in
      let values = length-metadata_of s.extra_metadata_labels a in
      elim (Bool-cases s.kube_enabled) [
        | inl k ↦ elim (Bool-cases s.docker_enabled) [
          | inl d ↦ rw (k, d) (omega (arith, names, values))
          | inr d ↦ rw (k, d) (omega (arith, names, values))
        ]
        | inr k ↦ elim (Bool-cases s.docker_enabled) [
          | inl d ↦ rw (k, d) (omega (arith, names, values))
          | inr d ↦ rw (k, d) (omega (arith, names, values))
        ]
      ]

  -- The reporter gives its vector of gauges as many values for any service as the vector has label
  -- names, whether or not Kubernetes and Docker are there and whatever extra labels are asked for: so
  -- the client never panics on the count.
  length-label_values_new :
      {T G : Type 0} (no_pids : T) (new_vec : List String → G) (host_id : String)
      (kube_enabled docker_enabled : Bool) (extra : List String)
      → let made : List String × Reporter T G =
          new_survey_reporter prom_name no_pids new_vec host_id kube_enabled docker_enabled extra in
        length (label_values made.1.labelling a) ≡ length made.0
  unfolding new_survey_reporter
  length-label_values_new no_pids new_vec host_id kube_enabled docker_enabled extra =
      sym (same_count _)
