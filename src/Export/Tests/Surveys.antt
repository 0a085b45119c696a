-- ===== src/Export/Tests/Surveys.antt =====
-- Two services of the survey, their processes, and the theorems at them.
use e_bpf_lens.Prelude.{
  ℕ, String, true, false, some, List, [], ◌∷◌, ◌≡◌, ◌≢◌, refl, arith, get, put, value_at, ap,
  eq_iff,
}
use e_bpf_lens.Export.Labels.{ServiceUid, Attrs}
use e_bpf_lens.Export.Survey.{
  uid_eq, Reporter, ProcessEvent, created, label_values, handle_process_event,
  watch_for_process_events,
}
use e_bpf_lens.Export.Survey.Exported.{KeepApart, IsInSync, watch_for_process_events-IsInSync}
use e_bpf_lens.Export.Survey.Series.{IsSourced}
use e_bpf_lens.Export.Survey.Leaks.{watch_for_process_events-IsSourced, handle_process_event-leaks}
use e_bpf_lens.Export.Tests.{pids, pids-IsTracker, gauges, gauges-IsGaugeVec, Pids}

abbrev service : String → String → Attrs
service name host = record {
  uid = record { name = name; namespace = "shop"; instance_id = "node:1" };
  host_name = host;
  job = "shop";
  sdk_language = "go";
  metadata = ("k8s.pod.name", "cart-0") ∷ [];
  env_vars = [];
}

abbrev event : ℕ → Attrs → ProcessEvent
event pid s = record { event_type = created; pid = pid; service = s }

abbrev empty_reporter : Reporter Pids (List (List String))
empty_reporter = record {
  survey_info = [];
  service_map = [];
  pids_tracker = [];
  labelling = record {
    host_id = "host";
    kube_enabled = true;
    docker_enabled = false;
    extra_metadata_labels = [];
  };
}

empty-IsInSync : IsInSync pids gauges empty_reporter
unfolding get
empty-IsInSync = record {
  exported = λ uid a e. absurd (ground arith);
  tracked = λ p uid e. absurd (ground arith);
}

abbrev two_services : List ProcessEvent
two_services = event 1 (service "cart" "a") ∷ event 2 (service "till" "a") ∷ []

two_services-KeepApart : KeepApart pids gauges two_services empty_reporter
unfolding KeepApart handle_process_event get put
two_services-KeepApart = ((λ h. h), ((λ h. h), tt))

watch_for_process_events-IsInSync_example :
    IsInSync pids gauges (watch_for_process_events pids gauges two_services empty_reporter)
watch_for_process_events-IsInSync_example =
    watch_for_process_events-IsInSync pids gauges (λ t. Unit) pids-IsTracker gauges-IsGaugeVec
      two_services empty_reporter empty-IsInSync tt two_services-KeepApart

abbrev running : Reporter Pids (List (List String))
running = watch_for_process_events pids gauges two_services empty_reporter

both_exported :
    running.survey_info
    ≡ label_values empty_reporter.labelling (service "till" "a")
      ∷ label_values empty_reporter.labelling (service "cart" "a")
      ∷ []
unfolding watch_for_process_events handle_process_event get put
both_exported = refl

empty-IsSourced : IsSourced gauges empty_reporter.labelling [] []
empty-IsSourced = λ l e. absurd (ground arith)

running-IsInSync : IsInSync pids gauges running
running-IsInSync =
    watch_for_process_events-IsInSync pids gauges (λ t. Unit) pids-IsTracker gauges-IsGaugeVec
      two_services empty_reporter empty-IsInSync tt two_services-KeepApart

till_exported :
    gauges.has running.survey_info (label_values running.labelling (service "till" "a")) ≡ true
unfolding watch_for_process_events handle_process_event get put label_values value_at
till_exported = refl

watch_for_process_events-IsSourced_example :
    (uid : ServiceUid) × (a : Attrs) × (get uid running.service_map ≡ some a)
    × (label_values running.labelling a ≡ label_values running.labelling (service "till" "a"))
watch_for_process_events-IsSourced_example =
    watch_for_process_events-IsSourced pids gauges (λ t. Unit) pids-IsTracker gauges-IsGaugeVec
      two_services empty_reporter empty-IsInSync tt empty-IsSourced two_services-KeepApart
      (label_values running.labelling (service "till" "a")) till_exported

tracked_cart : pids.tracks_pid running.pids_tracker 1 ≡ some (service "cart" "a").uid
unfolding watch_for_process_events handle_process_event get put
tracked_cart = refl

known_till : get (service "till" "b").uid running.service_map ≡ some (service "till" "a")
unfolding watch_for_process_events handle_process_event get put
known_till = refl

second : List String → String
second [] = ""
second (x ∷ []) = ""
second (x ∷ y ∷ l) = y

other_host :
    label_values running.labelling (service "till" "a")
    ≢ label_values running.labelling (service "till" "b")
unfolding label_values second
other_host = λ h. absurd (ground (arith, eq_iff "a" "b", ap second h))

-- Process 1 leaves the cart for the till, which is known from another host.
handle_process_event-leaks_example :
    let r' = handle_process_event pids gauges (event 1 (service "till" "b")) running in
    (gauges.has r'.survey_info (label_values running.labelling (service "till" "a")) ≡ true)
    × ((uid : ServiceUid) (a : Attrs)
        → get uid r'.service_map ≡ some a
        → label_values running.labelling a ≢ label_values running.labelling (service "till" "a"))
handle_process_event-leaks_example =
    handle_process_event-leaks pids gauges (λ t. Unit) pids-IsTracker gauges-IsGaugeVec
      (event 1 (service "till" "b")) running (service "cart" "a").uid (service "till" "a")
      running-IsInSync refl tracked_cart refl known_till other_host
