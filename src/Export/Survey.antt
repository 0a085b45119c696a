-- ===== src/Export/Survey.antt =====
-- The survey metrics: pkg/export/prom/prom_survey.go, and pkg/export/otel/metrics_survey.go in
-- Survey/Otel. The tracker of process ids and the gauges are calls of other projects.
pub mod Series
pub mod Exported
pub mod Leaks
pub mod Cardinality
pub mod Otel
use e_bpf_lens.Prelude.{
  ℕ, String, Bool, true, false, not, ◌&&◌, ◌||◌, Option, none, some, List, [], ◌∷◌, ◌++◌, ◌≡◌, ◌↔◌,
  Map, value_at, if◌then◌else◌, or_else, eqb, ◌==◌, eq_iff, arith, Eq, Dict, get, put, delete,
  is_some,
}
use e_bpf_lens.Export.Labels.{
  ServiceUid, Attrs, append_k8s_label_values_service, append_docker_label_values, metadata_of,
  label_names_target_info, parse_extra_metadata,
}

-- `UID.Equals`
abbrev pub same_uid : ServiceUid → ServiceUid → Bool
same_uid a b = a.name == b.name && a.namespace == b.namespace && a.instance_id == b.instance_id

pub same_uid_iff : (a b : ServiceUid) → (same_uid a b ≡ true) ↔ (a ≡ b)
same_uid_iff a b = ground (
  arith,
  eq_iff a.name b.name,
  eq_iff a.namespace b.namespace,
  eq_iff a.instance_id b.instance_id,
)

instance abbrev pub uid_eq : Eq ServiceUid
uid_eq = record { same = same_uid; same_iff = same_uid_iff }

-- `otel.PidServiceTracker`: the service of a process id; `remove_pid` answers with a service that has
-- no process left.
pub record Tracker (T : Type 0) : Type 0 where
  pub tracks_pid : T → ℕ → Option ServiceUid
  pub add_pid : ℕ → ServiceUid → T → T
  pub remove_pid : ℕ → T → Option ServiceUid × T
  pub replace_uid : ServiceUid → ServiceUid → T → T

-- `prometheus.GaugeVec`: the label values that are exported with a 1.
pub record GaugeVec (G : Type 0) : Type 0 where
  pub has : G → List String → Bool
  pub set_one : List String → G → G
  pub delete_label_values : List String → G → G

pub data EventType : Type 0 where
  created terminated : EventType

-- `exec.ProcessEvent`
pub record ProcessEvent : Type 0 where
  pub event_type : EventType
  pub pid : ℕ
  pub service : Attrs

-- The fields of `surveyMetricsReporter` that no event changes.
pub record Labelling : Type 0 where
  pub host_id : String
  pub kube_enabled : Bool
  pub docker_enabled : Bool
  pub extra_metadata_labels : List String

-- `surveyMetricsReporter`
pub record Reporter (T G : Type 0) : Type 0 where
  pub survey_info : G
  pub service_map : Dict ServiceUid Attrs
  pub pids_tracker : T
  pub labelling : Labelling

unfoldable pub label_values : Labelling → Attrs → List String
unfolding append_k8s_label_values_service append_docker_label_values metadata_of
label_values r service =
    let values =
      r.host_id ∷ service.host_name ∷ service.uid.name ∷ service.uid.namespace
      ∷ service.uid.instance_id ∷ service.job ∷ service.sdk_language ∷ "beyla" ∷ "beyla" ∷ "linux"
      ∷ [] in
    let with_kube =
      if r.kube_enabled then append_k8s_label_values_service values service else values in
    let with_docker =
      if r.docker_enabled then append_docker_label_values with_kube service else with_kube in
    with_docker ++ metadata_of r.extra_metadata_labels service

-- The service that a process had before, if it has another one now.
abbrev pub stale_uid : Option ServiceUid → ServiceUid → Option ServiceUid
stale_uid none uid = none
stale_uid (some stale) uid = if not (same_uid stale uid) then some stale else none

-- `newSurveyReporter`: the names that the vector is created with, and the reporter. `no_pids` is
-- `NewPidServiceTracker()`, and `new_vec` is `prometheus.NewGaugeVec`.
pub new_survey_reporter :
    {T G : Type 0}
    → (String → String)
    → T
    → (List String → G)
    → String
    → Bool
    → Bool
    → List String
    → List String × Reporter T G
unfolding label_names_target_info parse_extra_metadata
new_survey_reporter prom_name no_pids new_vec host_id kube_enabled docker_enabled extra =
    let labels = parse_extra_metadata extra in
    let names = label_names_target_info prom_name kube_enabled docker_enabled labels in
    (
      names,
      record {
        survey_info = new_vec names;
        service_map = [];
        pids_tracker = no_pids;
        labelling = record {
          host_id = host_id;
          kube_enabled = kube_enabled;
          docker_enabled = docker_enabled;
          extra_metadata_labels = labels;
        };
      },
    )

module _ {T G : Type 0} where
  pub orig_service : Reporter T G → ServiceUid → Attrs → Attrs
  orig_service r uid service = or_else (get uid r.service_map) service

  module _ (trackers : Tracker T) (gauges : GaugeVec G) where
    -- `createEventMetrics` and `deleteEventMetrics`
    pub create_survey_info : Attrs → Reporter T G → Reporter T G
    create_survey_info service r = record r {
      survey_info = gauges.set_one (label_values r.labelling service) r.survey_info;
    }

    pub delete_survey_info : ServiceUid → Attrs → Reporter T G → Reporter T G
    unfolding orig_service
    delete_survey_info uid service r = record r {
      survey_info =
          gauges.delete_label_values (label_values r.labelling (orig_service r uid service))
            r.survey_info;
    }

    -- `delete(r.serviceMap, uid)` and `r.serviceMap[uid] = service`
    abbrev forget : ServiceUid → Reporter T G → Reporter T G
    forget uid r = record r { service_map = delete uid r.service_map }

    abbrev remember : ServiceUid → Attrs → Reporter T G → Reporter T G
    remember uid service r = record r { service_map = put uid service r.service_map }

    -- The case of a process that terminated, and what `RemovePID` answered.
    pub disassociated : Option ServiceUid → Attrs → Reporter T G → Reporter T G
    unfolding delete_survey_info
    disassociated none service r = r
    disassociated (some orig_uid) service r =
        forget orig_uid (delete_survey_info orig_uid service r)

    pub on_terminated : ℕ → Attrs → Reporter T G → Reporter T G
    unfolding disassociated
    on_terminated pid service r =
        disassociated (trackers.remove_pid pid r.pids_tracker).0 service
          (record r { pids_tracker = (trackers.remove_pid pid r.pids_tracker).1 })

    -- A tracked process whose service got another identity, and what the map held of the old one.
    pub moved : Option Attrs → ServiceUid → Attrs → Reporter T G → Reporter T G
    unfolding delete_survey_info create_survey_info
    moved none stale service r = r
    moved (some orig) stale service r =
        create_survey_info service
          (remember service.uid service (forget stale (delete_survey_info stale orig r)))

    pub on_moved : ServiceUid → Attrs → Reporter T G → Reporter T G
    unfolding moved
    on_moved stale service r =
        moved (get stale r.service_map) stale service
          (record r { pids_tracker = trackers.replace_uid stale service.uid r.pids_tracker })

    -- A new process, or a known one whose service has new labels, and what the map held of it.
    pub cleared : Option Attrs → ServiceUid → Reporter T G → Reporter T G
    unfolding delete_survey_info
    cleared none uid r = r
    cleared (some orig) uid r = delete_survey_info uid orig r

    abbrev track : ℕ → ServiceUid → Reporter T G → Reporter T G
    track pid uid r = record r { pids_tracker = trackers.add_pid pid uid r.pids_tracker }

    pub announced : Option Attrs → ℕ → Attrs → Reporter T G → Reporter T G
    unfolding cleared create_survey_info
    announced held pid service r =
        track pid service.uid
          (remember service.uid service (create_survey_info service (cleared held service.uid r)))

    pub on_announced : ℕ → Attrs → Reporter T G → Reporter T G
    unfolding announced
    on_announced pid service r = announced (get service.uid r.service_map) pid service r

    pub on_created : Option ServiceUid → ℕ → Attrs → Reporter T G → Reporter T G
    unfolding on_moved on_announced
    on_created (some stale) pid service r = on_moved stale service r
    on_created none pid service r = on_announced pid service r

    pub dispatch : EventType → ProcessEvent → Reporter T G → Reporter T G
    unfolding on_terminated on_created
    dispatch terminated pe r = on_terminated pe.pid pe.service r
    dispatch created pe r =
        on_created (stale_uid (trackers.tracks_pid r.pids_tracker pe.pid) pe.service.uid) pe.pid
          pe.service r

    -- `handleProcessEvent`
    unfoldable pub handle_process_event : ProcessEvent → Reporter T G → Reporter T G
    unfolding dispatch
    handle_process_event pe r = dispatch pe.event_type pe r

    -- The loop of `watchForProcessEvents`.
    unfoldable pub watch_for_process_events : List ProcessEvent → Reporter T G → Reporter T G
    watch_for_process_events [] r = r
    watch_for_process_events (pe ∷ events) r =
        watch_for_process_events events (handle_process_event pe r)
