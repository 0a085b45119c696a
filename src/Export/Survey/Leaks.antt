-- ===== src/Export/Survey/Leaks.antt =====
-- When the survey exports labels of no service: a process that moves to a service that the map knows
-- with other labels.
use e_bpf_lens.Prelude.{
  ℕ, List, [], ◌∷◌, true, false, Option, none, some, ◌≡◌, ◌≢◌, refl, inl, inr, arith, ap, sym,
  subst, get, delete, get-put, get-delete, put-delete, entry_of, Option-cases, Bool-cases,
}
use e_bpf_lens.Export.Labels.{ServiceUid, Attrs}
use e_bpf_lens.Export.Survey.{
  same_uid, same_uid_iff, uid_eq, GaugeVec, label_values, Tracker, Reporter, ProcessEvent,
  EventType, created, terminated, handle_process_event, watch_for_process_events, on_terminated,
  on_moved, on_announced, disassociated, moved, announced, cleared, on_created, dispatch,
  create_survey_info, delete_survey_info, orig_service, stale_uid,
}
use e_bpf_lens.Export.Survey.Series.{
  IsGaugeVec, IsSourced, IsSourced-delete, IsSourced-put, label_values_inj, labels_differ,
}
use e_bpf_lens.Export.Survey.Exported.{
  IsTracker, IsInSync, MovesOnto, KeepApart, dispatch-IsInSync, dispatch-IsSound,
}

module _ {T G : Type 0} (trackers : Tracker T) (gauges : GaugeVec G) where
  module _ (IsSound : T → Type 0) (tracker_law : IsTracker trackers IsSound)
      (gauge_law : IsGaugeVec gauges) where
    disassociated-IsSourced :
        (deleted : Option ServiceUid) (pid : ℕ) (a : Attrs) (r : Reporter T G)
        → IsInSync trackers gauges r
        → IsSourced gauges r.labelling r.service_map r.survey_info
        → (trackers.remove_pid pid r.pids_tracker).0 ≡ deleted
        → let r' : Reporter T G =
            disassociated trackers gauges deleted a
              (record r { pids_tracker = (trackers.remove_pid pid r.pids_tracker).1 }) in
          IsSourced gauges r'.labelling r'.service_map r'.survey_info
    unfolding disassociated delete_survey_info orig_service
    disassociated-IsSourced none pid a r v h e = h
    disassociated-IsSourced (some uid) pid a r v h e =
        let was = tracker_law.removed_was r.pids_tracker pid uid e in
        let (orig, found) = entry_of (get uid r.service_map) (v.tracked pid uid was) in
        rw found (
          IsSourced-delete gauges r.labelling gauge_law r.service_map r.survey_info uid orig h
            found)

    moved-IsSourced :
        (held : Option Attrs) (pid : ℕ) (stale : ServiceUid) (a : Attrs) (r : Reporter T G)
        → IsSourced gauges r.labelling r.service_map r.survey_info
        → get stale r.service_map ≡ held
        → get a.uid r.service_map ≡ none
        → let r' : Reporter T G =
            moved trackers gauges held stale a
              (record r { pids_tracker = trackers.replace_uid stale a.uid r.pids_tracker }) in
          IsSourced gauges r'.labelling r'.service_map r'.survey_info
    unfolding moved delete_survey_info create_survey_info orig_service
    moved-IsSourced none pid stale a r h e fresh = h
    moved-IsSourced (some orig) pid stale a r h e fresh = rw e (
        IsSourced-put gauges r.labelling gauge_law (delete stale r.service_map) _ a
          (IsSourced-delete gauges r.labelling gauge_law r.service_map r.survey_info stale orig h e)
          (ground (arith, get-delete stale a.uid r.service_map)))

    announced-IsSourced :
        (held : Option Attrs) (pid : ℕ) (a : Attrs) (r : Reporter T G)
        → IsSourced gauges r.labelling r.service_map r.survey_info
        → get a.uid r.service_map ≡ held
        → let r' : Reporter T G = announced trackers gauges held pid a r in
          IsSourced gauges r'.labelling r'.service_map r'.survey_info
    unfolding announced cleared delete_survey_info create_survey_info orig_service
    announced-IsSourced none pid a r h e =
        IsSourced-put gauges r.labelling gauge_law r.service_map r.survey_info a h e
    announced-IsSourced (some orig) pid a r h e = rw e (
        subst
          (λ m. IsSourced gauges r.labelling m (
            gauges.set_one (label_values r.labelling a)
              (gauges.delete_label_values (label_values r.labelling orig) r.survey_info)))
          (put-delete a.uid a r.service_map)
          (IsSourced-put gauges r.labelling gauge_law (delete a.uid r.service_map) _ a
            (IsSourced-delete gauges r.labelling gauge_law r.service_map r.survey_info a.uid orig h
              e)
            (ground (arith, get-delete a.uid a.uid r.service_map, same_uid_iff a.uid a.uid))))

    created-IsSourced :
        (before : Option ServiceUid) (pe : ProcessEvent) (r : Reporter T G)
        → IsSourced gauges r.labelling r.service_map r.survey_info
        → pe.event_type ≡ created
        → ¬ MovesOnto trackers gauges before pe r
        → let r' : Reporter T G =
            on_created trackers gauges (stale_uid before pe.service.uid) pe.pid pe.service r in
          IsSourced gauges r'.labelling r'.service_map r'.survey_info
    unfolding on_created on_moved on_announced
    created-IsSourced none pe r h k not_moving = announced-IsSourced _ pe.pid pe.service r h refl
    created-IsSourced (some stale) pe r h k not_moving =
        elim (Bool-cases (same_uid stale pe.service.uid)) [
          | inl same ↦ rw same (announced-IsSourced _ pe.pid pe.service r h refl)
          | inr other ↦ rw other (
              moved-IsSourced _ pe.pid stale pe.service r h refl
                (elim (Option-cases (get pe.service.uid r.service_map)) [
                  | inl fresh ↦ fresh
                  | inr known ↦ absurd (not_moving (k, other, known))
                ]))
        ]

    dispatch-IsSourced :
        (kind : EventType) (pe : ProcessEvent) (r : Reporter T G)
        → IsInSync trackers gauges r
        → IsSourced gauges r.labelling r.service_map r.survey_info
        → pe.event_type ≡ kind
        → ¬ MovesOnto trackers gauges (trackers.tracks_pid r.pids_tracker pe.pid) pe r
        → let r' : Reporter T G = dispatch trackers gauges kind pe r in
          IsSourced gauges r'.labelling r'.service_map r'.survey_info
    unfolding dispatch on_terminated
    dispatch-IsSourced terminated pe r v h k not_moving =
        disassociated-IsSourced _ pe.pid pe.service r v h refl
    dispatch-IsSourced created pe r v h k not_moving = created-IsSourced _ pe r h k not_moving

    -- An event that does not move a process onto a service that the map knows leaves nothing exported
    -- but the services of the map.
    handle_process_event-IsSourced :
        (pe : ProcessEvent) (r : Reporter T G)
        → IsInSync trackers gauges r
        → IsSourced gauges r.labelling r.service_map r.survey_info
        → ¬ MovesOnto trackers gauges (trackers.tracks_pid r.pids_tracker pe.pid) pe r
        → IsSourced gauges
            (handle_process_event trackers gauges pe r).labelling
            (handle_process_event trackers gauges pe r).service_map
            (handle_process_event trackers gauges pe r).survey_info
    unfolding handle_process_event
    handle_process_event-IsSourced pe r v h not_moving =
        dispatch-IsSourced pe.event_type pe r v h refl not_moving

    -- As long as no event moves a process onto a service that the map knows, nothing is exported but
    -- the services of the map, if that was so before and the reporter was in sync.
    pub watch_for_process_events-IsSourced :
        (events : List ProcessEvent) (r : Reporter T G)
        → IsInSync trackers gauges r
        → IsSound r.pids_tracker
        → IsSourced gauges r.labelling r.service_map r.survey_info
        → KeepApart trackers gauges events r
        → IsSourced gauges
            (watch_for_process_events trackers gauges events r).labelling
            (watch_for_process_events trackers gauges events r).service_map
            (watch_for_process_events trackers gauges events r).survey_info
    unfolding watch_for_process_events KeepApart handle_process_event
    watch_for_process_events-IsSourced [] r v sound h apart = h
    watch_for_process_events-IsSourced (pe ∷ events) r v sound h (apart, further) =
        watch_for_process_events-IsSourced events (handle_process_event trackers gauges pe r)
          (dispatch-IsInSync trackers gauges IsSound tracker_law gauge_law pe.event_type pe r v
            sound)
          (dispatch-IsSound trackers gauges IsSound tracker_law gauge_law pe.event_type pe r v sound
            refl apart)
          (handle_process_event-IsSourced pe r v h apart) further

    moved_keeps :
        (a : Attrs) (r : Reporter T G) (stale : ServiceUid) (orig known : Attrs)
        → IsInSync trackers gauges r
        → same_uid stale a.uid ≡ false
        → get a.uid r.service_map ≡ some known
        → get stale r.service_map ≡ some orig
        → label_values r.labelling known ≢ label_values r.labelling a
        → let r' : Reporter T G = on_moved trackers gauges stale a r in
          (gauges.has r'.survey_info (label_values r.labelling known) ≡ true)
          × ((uid : ServiceUid) (b : Attrs)
              → get uid r'.service_map ≡ some b
              → label_values r.labelling b ≢ label_values r.labelling known)
    unfolding on_moved moved delete_survey_info create_survey_info orig_service
    moved_keeps a r stale orig known v other found held differ =
        let known_shown = v.exported a.uid known found in
        let orig_shown = v.exported stale orig held in
        let apart : same_uid orig.uid known.uid ≡ false =
          ground (arith, same_uid_iff orig.uid known.uid, same_uid_iff stale a.uid) in
        let deleted = gauges.delete_label_values (label_values r.labelling orig) r.survey_info in
        rw held (
          rw held (
            ground (
              arith,
              labels_differ r.labelling orig known apart,
              gauge_law.has-delete_label_values r.survey_info (label_values r.labelling orig)
                  (label_values r.labelling known),
              gauge_law.has-set_one deleted (label_values r.labelling a)
                  (label_values r.labelling known),
            ),
            λ uid b e same. ground (
              arith,
              get-put a.uid uid a (delete stale r.service_map),
              get-delete stale uid r.service_map,
              same_uid_iff a.uid uid,
              v.exported uid b,
              label_values_inj r.labelling b known same,
              differ,
              sym same,
              ap (label_values r.labelling) {x = b} {y = a},
            ),
          ))

    -- A process that moves to a service that the map knows with other labels leaves those labels
    -- exported, though no service of the map has them any more. The process was tracked with another
    -- identity, and the reporter was in sync.
    pub handle_process_event-leaks :
        (pe : ProcessEvent) (r : Reporter T G) (stale : ServiceUid) (known : Attrs)
        → IsInSync trackers gauges r
        → pe.event_type ≡ created
        → trackers.tracks_pid r.pids_tracker pe.pid ≡ some stale
        → same_uid stale pe.service.uid ≡ false
        → get pe.service.uid r.service_map ≡ some known
        → label_values r.labelling known ≢ label_values r.labelling pe.service
        → let r' : Reporter T G = handle_process_event trackers gauges pe r in
          (gauges.has r'.survey_info (label_values r.labelling known) ≡ true)
          × ((uid : ServiceUid) (a : Attrs)
              → get uid r'.service_map ≡ some a
              → label_values r.labelling a ≢ label_values r.labelling known)
    unfolding handle_process_event
    handle_process_event-leaks pe r stale known v k t other found differ =
        let (orig, held) = entry_of (get stale r.service_map) (v.tracked pe.pid stale t) in
        let kept = moved_keeps pe.service r stale orig known v other found held differ in
        rw (k, dispatch) (rw (t, on_created) (rw other kept))
