-- ===== src/Export/Survey/Otel.antt =====
-- The survey metrics for OpenTelemetry: pkg/export/otel/metrics_survey.go. The attributes that
-- are joined to a service's and the counter are calls of other projects.
pub mod Counted
pub mod Once
use e_bpf_lens.Prelude.{
  ℕ, ◌+◌, Bool, Option, none, some, List, [], ◌∷◌, ◌≡◌, ◌++◌, String, if◌then◌else◌, Dict, get, put,
  delete,
}
use e_bpf_lens.Export.Labels.{ServiceUid, Attrs}
use e_bpf_lens.Export.Survey.{
  uid_eq, Tracker, ProcessEvent, EventType, created, terminated, stale_uid,
}

-- The `Int64UpDownCounter` named survey_info, by attribute set: its value there, `Add(ctx, 1, set)`
-- and `Remove(ctx, set)`.
pub record UpDownCounter (C S : Type 0) : Type 0 where
  pub value : C → S → ℕ
  pub add_one : S → C → C
  pub remove : S → C → C

-- `SurveyMetricsReporter`
pub record SurveyReporter (T C S : Type 0) : Type 0 where
  pub survey_info : C
  pub service_map : Dict ServiceUid S
  pub pid_tracker : T

-- The calls of other projects that make the attributes of a service: `otelcfg.GetAppResourceAttrs`,
-- `otelcfg.ResourceAttrsFromEnv`, which reads OTEL_RESOURCE_ATTRIBUTES of the service's environment,
-- and `attribute.NewSet`.
pub record ResourceApi (S : Type 0) : Type 0 where
  pub app_resource_attrs : Attrs → List (String × String)
  pub resource_attrs_from_env : Attrs → List (String × String)
  pub new_set : List (String × String) → S

module _ {S : Type 0} (resource : ResourceApi S) where
  -- `attrsFromService`
  attrs_from_service : Attrs → List (String × String)
  attrs_from_service service =
      resource.app_resource_attrs service ++ resource.resource_attrs_from_env service

  -- The set of these attributes. The map holds it where the code holds the list that it is made of.
  unfoldable pub attribute_set : Attrs → S
  unfolding attrs_from_service
  attribute_set service = resource.new_set (attrs_from_service service)

module _ {T C S : Type 0} (trackers : Tracker T) (counters : UpDownCounter C S)
    (resource : ResourceApi S) where
  -- `createSurveyInfo`
  unfoldable pub create_survey_info : Attrs → SurveyReporter T C S → SurveyReporter T C S
  unfolding attribute_set
  create_survey_info service smr = record smr {
    survey_info = counters.add_one (attribute_set resource service) smr.survey_info;
    service_map = put service.uid (attribute_set resource service) smr.service_map;
  }

  -- `deleteSurveyInfo`, and what the map held.
  pub delete_held : Option S → ServiceUid → SurveyReporter T C S → SurveyReporter T C S
  delete_held none uid smr = smr
  delete_held (some attrs) uid smr = record smr {
    survey_info = counters.remove attrs smr.survey_info;
    service_map = delete uid smr.service_map;
  }

  unfoldable pub delete_survey_info : ServiceUid → SurveyReporter T C S → SurveyReporter T C S
  unfolding delete_held
  delete_survey_info uid smr = delete_held (get uid smr.service_map) uid smr

  unfoldable pub disassociated : Option ServiceUid → SurveyReporter T C S → SurveyReporter T C S
  unfolding delete_survey_info
  disassociated none smr = smr
  disassociated (some orig_uid) smr = delete_survey_info orig_uid smr

  unfoldable pub on_terminated : ℕ → SurveyReporter T C S → SurveyReporter T C S
  unfolding disassociated
  on_terminated pid smr =
      disassociated (trackers.remove_pid pid smr.pid_tracker).0
        (record smr { pid_tracker = (trackers.remove_pid pid smr.pid_tracker).1 })

  -- The service that a process had before, if it has another one now.
  unfoldable pub on_created :
      Option ServiceUid → ℕ → Attrs → SurveyReporter T C S → SurveyReporter T C S
  unfolding create_survey_info delete_survey_info
  on_created (some stale) pid service smr = create_survey_info service (
      delete_survey_info stale
        (record smr { pid_tracker = trackers.replace_uid stale service.uid smr.pid_tracker }))
  on_created none pid service smr =
      let smr' = create_survey_info service (delete_survey_info service.uid smr) in
      record smr' { pid_tracker = trackers.add_pid pid service.uid smr'.pid_tracker }

  unfoldable pub dispatch : EventType → ProcessEvent → SurveyReporter T C S → SurveyReporter T C S
  unfolding on_terminated on_created
  dispatch terminated pe smr = on_terminated pe.pid smr
  dispatch created pe smr =
      on_created (stale_uid (trackers.tracks_pid smr.pid_tracker pe.pid) pe.service.uid) pe.pid
        pe.service smr

  unfoldable pub on_process_event : ProcessEvent → SurveyReporter T C S → SurveyReporter T C S
  unfolding dispatch
  on_process_event pe smr = dispatch pe.event_type pe smr

  -- The loop of `watchForProcessEvents`.
  unfoldable pub on_process_events : List ProcessEvent → SurveyReporter T C S → SurveyReporter T C S
  on_process_events [] smr = smr
  on_process_events (pe ∷ events) smr = on_process_events events (on_process_event pe smr)
