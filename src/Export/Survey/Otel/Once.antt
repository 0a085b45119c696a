-- ===== src/Export/Survey/Otel/Once.antt =====
-- When the survey counter counts each service exactly once, and when it counts too much.
use e_bpf_lens.Prelude.{
  false, Option, none, some, ◌≡◌, refl, inl, inr, arith, if◌then◌else◌, get, get-put, get-delete,
  Bool-cases, Option-cases,
}
use e_bpf_lens.Export.Labels.{ServiceUid, Attrs}
use e_bpf_lens.Export.Survey.{
  same_uid, same_uid_iff, uid_eq, Tracker, ProcessEvent, EventType, created, terminated, stale_uid,
}
use e_bpf_lens.Export.Survey.Otel.{
  UpDownCounter, SurveyReporter, ResourceApi, attribute_set, create_survey_info, delete_held,
  delete_survey_info, disassociated, on_terminated, on_created, dispatch, on_process_event,
}
use e_bpf_lens.Export.Survey.Otel.Counted.{
  IsCounter, TellsApart, IsCounted, IsOnce, IsOnce-delete, IsOnce-put, delete_survey_info-IsCounted,
}

module _ {T C S : Type 0} (trackers : Tracker T) (counters : UpDownCounter C S)
    (resource : ResourceApi S) where
  -- The event moves a process to a service that the map knows already.
  abbrev Joins : Option ServiceUid → ProcessEvent → SurveyReporter T C S → Type 0
  Joins none pe smr = ⊥
  Joins (some stale) pe smr =
      (pe.event_type ≡ created)
      × (same_uid stale pe.service.uid ≡ false)
      × ((s : S) × (get pe.service.uid smr.service_map ≡ some s))

  module _ (law : IsCounter counters) (Known : Attrs → Type 0)
      (apart : TellsApart resource Known) where
    deleted-IsOnce :
        (uid : ServiceUid) (held : Option S) (smr : SurveyReporter T C S)
        → IsOnce trackers counters resource smr.service_map smr.survey_info
        → get uid smr.service_map ≡ held
        → let smr' = delete_held trackers counters resource held uid smr in
          IsOnce trackers counters resource smr'.service_map smr'.survey_info
          × (get uid smr'.service_map ≡ none)
    unfolding delete_held
    deleted-IsOnce uid none smr h e = (h, e)
    deleted-IsOnce uid (some s) smr h e = (
      IsOnce-delete trackers counters resource law Known apart smr.service_map smr.survey_info uid s
          h e,
      ground (arith, get-delete uid uid smr.service_map, same_uid_iff uid uid),
    )

    -- A service that the map lacks stays absent.
    absent_after :
        (uid q : ServiceUid) (held : Option S) (smr : SurveyReporter T C S)
        → get q smr.service_map ≡ none
        → get q (delete_held trackers counters resource held uid smr).service_map ≡ none
    unfolding delete_held
    absent_after uid q none smr e = e
    absent_after uid q (some s) smr e = ground (arith, get-delete uid q smr.service_map)

    replaced-IsOnce :
        (uid : ServiceUid) (a : Attrs) (smr : SurveyReporter T C S)
        → Known a
        → IsCounted trackers counters resource Known smr.service_map smr.survey_info
        → IsOnce trackers counters resource smr.service_map smr.survey_info
        → get a.uid (delete_survey_info trackers counters resource uid smr).service_map ≡ none
        → let smr' =
            create_survey_info trackers counters resource a
              (delete_survey_info trackers counters resource uid smr) in
          IsOnce trackers counters resource smr'.service_map smr'.survey_info
    unfolding create_survey_info delete_survey_info
    replaced-IsOnce uid a smr ka k h fresh =
        IsOnce-put trackers counters resource law Known apart _ _ a ka
          (delete_survey_info-IsCounted trackers counters resource law Known apart uid _ smr k refl)
          (deleted-IsOnce uid _ smr h refl).0 fresh

    announced-IsOnce :
        (a : Attrs) (smr : SurveyReporter T C S)
        → Known a
        → IsCounted trackers counters resource Known smr.service_map smr.survey_info
        → IsOnce trackers counters resource smr.service_map smr.survey_info
        → let smr' =
            create_survey_info trackers counters resource a
              (delete_survey_info trackers counters resource a.uid smr) in
          IsOnce trackers counters resource smr'.service_map smr'.survey_info
    unfolding delete_survey_info
    announced-IsOnce a smr ka k h =
        replaced-IsOnce a.uid a smr ka k h (deleted-IsOnce a.uid _ smr h refl).1

    created-IsOnce :
        (before : Option ServiceUid) (pe : ProcessEvent) (smr : SurveyReporter T C S)
        → Known pe.service
        → IsCounted trackers counters resource Known smr.service_map smr.survey_info
        → IsOnce trackers counters resource smr.service_map smr.survey_info
        → pe.event_type ≡ created
        → ¬ Joins before pe smr
        → let smr' =
            on_created trackers counters resource
              (stale_uid before pe.service.uid)
              pe.pid
              pe.service
              smr in
          IsOnce trackers counters resource smr'.service_map smr'.survey_info
    unfolding on_created create_survey_info delete_survey_info
    created-IsOnce none pe smr kp k h is_created unjoined = announced-IsOnce pe.service smr kp k h
    created-IsOnce (some stale) pe smr kp k h is_created unjoined =
        elim (Bool-cases (same_uid stale pe.service.uid)) [
          | inl same ↦ rw same (announced-IsOnce pe.service smr kp k h)
          | inr other ↦ rw other (
              replaced-IsOnce stale pe.service
                (record smr {
                  pid_tracker = trackers.replace_uid stale pe.service.uid smr.pid_tracker;
                })
                kp k h
                (absent_after stale pe.service.uid _ _
                  (elim (Option-cases (get pe.service.uid smr.service_map)) [
                    | inl fresh ↦ fresh
                    | inr known ↦ absurd (unjoined (is_created, other, known))
                  ])))
        ]

    disassociated-IsOnce :
        (deleted : Option ServiceUid) (smr : SurveyReporter T C S)
        → IsOnce trackers counters resource smr.service_map smr.survey_info
        → let smr' = disassociated trackers counters resource deleted smr in
          IsOnce trackers counters resource smr'.service_map smr'.survey_info
    unfolding disassociated delete_survey_info
    disassociated-IsOnce none smr h = h
    disassociated-IsOnce (some uid) smr h = (deleted-IsOnce uid _ smr h refl).0

    dispatch-IsOnce :
        (kind : EventType) (pe : ProcessEvent) (smr : SurveyReporter T C S)
        → Known pe.service
        → IsCounted trackers counters resource Known smr.service_map smr.survey_info
        → IsOnce trackers counters resource smr.service_map smr.survey_info
        → pe.event_type ≡ kind
        → ¬ Joins (trackers.tracks_pid smr.pid_tracker pe.pid) pe smr
        → let smr' = dispatch trackers counters resource kind pe smr in
          IsOnce trackers counters resource smr'.service_map smr'.survey_info
    unfolding dispatch on_terminated
    dispatch-IsOnce terminated pe smr kp k h e unjoined =
        disassociated-IsOnce _
          (record smr { pid_tracker = (trackers.remove_pid pe.pid smr.pid_tracker).1 }) h
    dispatch-IsOnce created pe smr kp k h e unjoined = created-IsOnce _ pe smr kp k h e unjoined

    -- An event that does not move a process to a service that the map knows already keeps every
    -- attribute set either uncounted or counted exactly once, for a service of the map, if that was
    -- so before and the services of the map were counted. The services of the event and of the map
    -- are of a class in which two with the same attribute set have the same identity.
    pub on_process_event-IsOnce :
        (pe : ProcessEvent) (smr : SurveyReporter T C S)
        → Known pe.service
        → IsCounted trackers counters resource Known smr.service_map smr.survey_info
        → IsOnce trackers counters resource smr.service_map smr.survey_info
        → ¬ Joins (trackers.tracks_pid smr.pid_tracker pe.pid) pe smr
        → let smr' = on_process_event trackers counters resource pe smr in
          IsOnce trackers counters resource smr'.service_map smr'.survey_info
    unfolding on_process_event
    on_process_event-IsOnce pe smr kp k h unjoined =
        dispatch-IsOnce pe.event_type pe smr kp k h refl unjoined

    -- The removal of another service keeps the value of this one.
    value_after :
        (stale uid : ServiceUid) (held : Option S) (s : S) (smr : SurveyReporter T C S)
        → IsCounted trackers counters resource Known smr.service_map smr.survey_info
        → get stale smr.service_map ≡ held
        → get uid smr.service_map ≡ some s
        → same_uid stale uid ≡ false
        → counters.value (delete_held trackers counters resource held stale smr).survey_info s
          ≡ counters.value smr.survey_info s
    unfolding delete_held
    value_after stale uid none s smr k e found other = refl
    value_after stale uid (some t) s smr k e found other =
        let ((a, ka, owner, of_a), shown) = k stale t e in
        let ((b, kb, owner', of_b), shown') = k uid s found in
        ground (
          arith,
          law.value-remove smr.survey_info t s,
          law.same_set_iff t s,
          apart a b ka kb,
          same_uid_iff stale uid,
        )

    -- A process that moves to a service of the map spoils the count: where the service's attributes
    -- are the same they are counted twice, and where they are not the old ones stay counted though
    -- the map has forgotten them. The process was tracked with another identity, the service's
    -- attributes were counted once, and the services of the map are of a class in which two with the
    -- same attribute set have the same identity.
    pub on_process_event-miscounts :
        (pe : ProcessEvent) (smr : SurveyReporter T C S) (stale : ServiceUid) (known : S)
        → IsCounted trackers counters resource Known smr.service_map smr.survey_info
        → pe.event_type ≡ created
        → trackers.tracks_pid smr.pid_tracker pe.pid ≡ some stale
        → same_uid stale pe.service.uid ≡ false
        → get pe.service.uid smr.service_map ≡ some known
        → counters.value smr.survey_info known ≡ 1
        → let smr' = on_process_event trackers counters resource pe smr in
          (counters.value smr'.survey_info known
            ≡ (if law.same_set (attribute_set resource pe.service) known then 2 else 1))
          × (get pe.service.uid smr'.service_map ≡ some (attribute_set resource pe.service))
    unfolding on_process_event on_created create_survey_info delete_survey_info
    on_process_event-miscounts pe smr stale known k e t other found one =
        let smr' : SurveyReporter T C S = record smr {
          pid_tracker = trackers.replace_uid stale pe.service.uid smr.pid_tracker;
        } in
        let kept = value_after stale pe.service.uid _ known smr' k refl found other in
        let cleared =
          (delete_held trackers counters resource (get stale smr.service_map) stale smr') in
        rw (e, dispatch)
          (rw (t, on_created)
            (rw other (
              ground (
                arith,
                law.value-add_one cleared.survey_info (attribute_set resource pe.service) known,
                kept,
                one,
              ),
              ground (
                arith,
                get-put pe.service.uid pe.service.uid (attribute_set resource pe.service)
                    cleared.service_map,
                same_uid_iff pe.service.uid pe.service.uid,
              ),
            )))
