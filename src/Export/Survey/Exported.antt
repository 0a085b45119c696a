-- ===== src/Export/Survey/Exported.antt =====
-- What the survey exports after an event: the services of its map, and where something else.
use e_bpf_lens.Prelude.{
  ℕ, true, Option, none, some, List, [], ◌∷◌, ◌≡◌, refl, inl, inr, if◌then◌else◌, arith, ap, subst,
  sym, ◌≢◌, false, get, put, delete, get-put, get-delete, put-delete, entry_of, is_some, Bool-cases,
  Option-cases, eqb,
}
use e_bpf_lens.Export.Labels.{ServiceUid, Attrs}
use e_bpf_lens.Export.Survey.{
  same_uid, same_uid_iff, uid_eq, GaugeVec, label_values, Tracker, Reporter, ProcessEvent, created,
  terminated, handle_process_event, watch_for_process_events, on_terminated, on_moved, on_announced,
  disassociated, announced, EventType, dispatch, on_created, moved, cleared, create_survey_info,
  delete_survey_info, orig_service, stale_uid,
}
use e_bpf_lens.Export.Survey.Series.{IsGaugeVec, IsExported, IsExported-delete, IsExported-put}

abbrev pub replaced : ServiceUid → ServiceUid → Option ServiceUid → Option ServiceUid
replaced stale new none = none
replaced stale new (some uid) = if same_uid uid stale then some new else some uid

-- What the tracker promises: it answers with the last identity that a process was given. While its
-- records of processes and of services agree (`IsSound`), it renames a service for all its processes,
-- and a process that is removed names the service exactly when it was the last one of it; they agree
-- as long as no process is given an identity while it has another, and no service is renamed to one
-- that has processes.
pub record IsTracker {T : Type 0} (trackers : Tracker T) (IsSound : T → Type 0) : Type 0 where
  pub tracks-add :
      (t : T) (p q : ℕ) (uid : ServiceUid)
      → trackers.tracks_pid (trackers.add_pid p uid t) q
        ≡ (if eqb p q then some uid else trackers.tracks_pid t q)
  pub tracks-remove :
      (t : T) (p q : ℕ)
      → trackers.tracks_pid (trackers.remove_pid p t).1 q
        ≡ (if eqb p q then none else trackers.tracks_pid t q)
  pub tracks-replace :
      (t : T) (a b : ServiceUid) (q : ℕ)
      → IsSound t
      → trackers.tracks_pid (trackers.replace_uid a b t) q ≡ replaced a b (trackers.tracks_pid t q)
  pub removed_was :
      (t : T) (p : ℕ) (uid : ServiceUid)
      → (trackers.remove_pid p t).0 ≡ some uid
      → trackers.tracks_pid t p ≡ some uid
  pub removed_last :
      (t : T) (p q : ℕ) (uid : ServiceUid)
      → IsSound t
      → (trackers.remove_pid p t).0 ≡ some uid
      → trackers.tracks_pid t q ≡ some uid
      → eqb p q ≡ true
  pub sound-add :
      (t : T) (p : ℕ) (uid : ServiceUid)
      → IsSound t
      → stale_uid (trackers.tracks_pid t p) uid ≡ none
      → IsSound (trackers.add_pid p uid t)
  pub sound-remove : (t : T) (p : ℕ) → IsSound t → IsSound (trackers.remove_pid p t).1
  pub sound-replace :
      (t : T) (a b : ServiceUid)
      → IsSound t
      → ((q : ℕ) → trackers.tracks_pid t q ≢ some b)
      → IsSound (trackers.replace_uid a b t)

module _ {T G : Type 0} (trackers : Tracker T) (gauges : GaugeVec G) where
  -- Each service of the map is exported with its labels, and the map has the service of each process
  -- that is tracked.
  pub record IsInSync (r : Reporter T G) : Type 0 where
    pub exported : IsExported gauges r.labelling r.service_map r.survey_info
    pub tracked :
        (p : ℕ) (uid : ServiceUid)
        → trackers.tracks_pid r.pids_tracker p ≡ some uid
        → is_some (get uid r.service_map) ≡ true

  -- The event moves a process to a service that the map knows already.
  abbrev pub MovesOnto : Option ServiceUid → ProcessEvent → Reporter T G → Type 0
  MovesOnto none pe r = ⊥
  MovesOnto (some stale) pe r =
      (pe.event_type ≡ created)
      × (same_uid stale pe.service.uid ≡ false)
      × ((a : Attrs) × (get pe.service.uid r.service_map ≡ some a))

  -- No event of the sequence moves a process onto a service that the map knows when it arrives.
  unfoldable pub KeepApart : List ProcessEvent → Reporter T G → Type 0
  KeepApart [] r = Unit
  KeepApart (pe ∷ events) r =
      (¬ MovesOnto (trackers.tracks_pid r.pids_tracker pe.pid) pe r)
      × KeepApart events (handle_process_event trackers gauges pe r)

  module _ (IsSound : T → Type 0) (tracker_law : IsTracker trackers IsSound)
      (gauge_law : IsGaugeVec gauges) where
    disassociated-IsInSync :
        (deleted : Option ServiceUid) (pid : ℕ) (a : Attrs) (r : Reporter T G)
        → IsInSync r
        → IsSound r.pids_tracker
        → (trackers.remove_pid pid r.pids_tracker).0 ≡ deleted
        → IsInSync (
            disassociated trackers gauges deleted a
              (record r { pids_tracker = (trackers.remove_pid pid r.pids_tracker).1 }))
    unfolding disassociated delete_survey_info orig_service
    disassociated-IsInSync none pid a r v sound e = record {
      exported = v.exported;
      tracked = λ p uid t.
          v.tracked p uid (ground (arith, tracker_law.tracks-remove r.pids_tracker pid p));
    }
    disassociated-IsInSync (some uid) pid a r v sound e =
        let was = tracker_law.removed_was r.pids_tracker pid uid e in
        let (orig, found) = entry_of (get uid r.service_map) (v.tracked pid uid was) in
        record {
          exported = rw found (
              IsExported-delete gauges r.labelling gauge_law r.service_map r.survey_info uid orig
                v.exported (v.exported uid orig found).0);
          tracked = λ p q t. ground (
            arith,
            tracker_law.tracks-remove r.pids_tracker pid p,
            tracker_law.removed_last r.pids_tracker pid p uid sound e,
            v.tracked p q,
            get-delete uid q r.service_map,
            same_uid_iff uid q,
          );
        }

    moved-IsInSync :
        (held : Option Attrs) (pid : ℕ) (stale : ServiceUid) (a : Attrs) (r : Reporter T G)
        → IsInSync r
        → IsSound r.pids_tracker
        → get stale r.service_map ≡ held
        → trackers.tracks_pid r.pids_tracker pid ≡ some stale
        → IsInSync (
            moved trackers gauges held stale a
              (record r { pids_tracker = trackers.replace_uid stale a.uid r.pids_tracker }))
    unfolding moved delete_survey_info create_survey_info orig_service
    moved-IsInSync none pid stale a r v sound e t = absurd (ground (arith, v.tracked pid stale t))
    moved-IsInSync (some orig) pid stale a r v sound e t = record {
      exported = rw e (
          IsExported-put gauges r.labelling gauge_law (delete stale r.service_map) _ a (
            IsExported-delete gauges r.labelling gauge_law r.service_map r.survey_info stale orig
              v.exported (v.exported stale orig e).0));
      tracked = λ p q t'. elim (Option-cases (trackers.tracks_pid r.pids_tracker p)) [
        | inl n ↦
            absurd
              (ground (arith, tracker_law.tracks-replace r.pids_tracker stale a.uid p sound, n))
        | inr (u, now) ↦ ground (
          arith,
          ap (replaced stale a.uid) now,
          tracker_law.tracks-replace r.pids_tracker stale a.uid p sound,
          v.tracked p u,
          get-put a.uid q a (delete stale r.service_map),
          get-delete stale q r.service_map,
          same_uid_iff u stale,
          same_uid_iff stale q,
          same_uid_iff a.uid q,
        )
      ];
    }

    announced_tracked :
        (pid : ℕ) (a : Attrs) (r : Reporter T G) (p : ℕ) (q : ServiceUid)
        → IsInSync r
        → trackers.tracks_pid (trackers.add_pid pid a.uid r.pids_tracker) p ≡ some q
        → is_some (get q (put a.uid a r.service_map)) ≡ true
    announced_tracked pid a r p q v t = ground (
      arith,
      tracker_law.tracks-add r.pids_tracker pid p a.uid,
      v.tracked p q,
      get-put a.uid q a r.service_map,
      same_uid_iff a.uid q,
    )

    announced-IsInSync :
        (held : Option Attrs) (pid : ℕ) (a : Attrs) (r : Reporter T G)
        → IsInSync r
        → get a.uid r.service_map ≡ held
        → IsInSync (announced trackers gauges held pid a r)
    unfolding announced cleared delete_survey_info create_survey_info orig_service
    announced-IsInSync none pid a r v e = record {
      exported =
          IsExported-put gauges r.labelling gauge_law r.service_map r.survey_info a v.exported;
      tracked = λ p q t. announced_tracked pid a r p q v t;
    }
    announced-IsInSync (some orig) pid a r v e = record {
      exported = rw e (
          subst
            (λ m. IsExported gauges r.labelling m (
              gauges.set_one (label_values r.labelling a)
                (gauges.delete_label_values (label_values r.labelling orig) r.survey_info)))
            (put-delete a.uid a r.service_map)
            (IsExported-put gauges r.labelling gauge_law (delete a.uid r.service_map) _ a (
              IsExported-delete gauges r.labelling gauge_law r.service_map r.survey_info a.uid orig
                v.exported (v.exported a.uid orig e).0)));
      tracked = λ p q t. announced_tracked pid a r p q v t;
    }

    created-IsInSync :
        (before : Option ServiceUid) (pid : ℕ) (a : Attrs) (r : Reporter T G)
        → IsInSync r
        → IsSound r.pids_tracker
        → trackers.tracks_pid r.pids_tracker pid ≡ before
        → IsInSync (on_created trackers gauges (stale_uid before a.uid) pid a r)
    unfolding on_created on_moved on_announced
    created-IsInSync none pid a r v sound e = announced-IsInSync _ pid a r v refl
    created-IsInSync (some stale) pid a r v sound e = elim (Bool-cases (same_uid stale a.uid)) [
      | inl same ↦ rw same (announced-IsInSync _ pid a r v refl)
      | inr other ↦ rw other (moved-IsInSync _ pid stale a r v sound refl e)
    ]

    pub dispatch-IsInSync :
        (kind : EventType) (pe : ProcessEvent) (r : Reporter T G)
        → IsInSync r
        → IsSound r.pids_tracker
        → IsInSync (dispatch trackers gauges kind pe r)
    unfolding dispatch on_terminated
    dispatch-IsInSync terminated pe r v sound =
        disassociated-IsInSync _ pe.pid pe.service r v sound refl
    dispatch-IsInSync created pe r v sound = created-IsInSync _ pe.pid pe.service r v sound refl

    -- What the cases of an event do to the tracker.
    disassociated_tracker :
        (deleted : Option ServiceUid) (a : Attrs) (r : Reporter T G)
        → (disassociated trackers gauges deleted a r).pids_tracker ≡ r.pids_tracker
    unfolding disassociated delete_survey_info
    disassociated_tracker none a r = refl
    disassociated_tracker (some uid) a r = refl

    moved_tracker :
        (held : Option Attrs) (stale : ServiceUid) (a : Attrs) (r : Reporter T G)
        → (moved trackers gauges held stale a r).pids_tracker ≡ r.pids_tracker
    unfolding moved delete_survey_info create_survey_info
    moved_tracker none stale a r = refl
    moved_tracker (some orig) stale a r = refl

    announced_tracker :
        (held : Option Attrs) (pid : ℕ) (a : Attrs) (r : Reporter T G)
        → (announced trackers gauges held pid a r).pids_tracker
          ≡ trackers.add_pid pid a.uid r.pids_tracker
    unfolding announced cleared delete_survey_info create_survey_info
    announced_tracker none pid a r = refl
    announced_tracker (some orig) pid a r = refl

    announced-IsSound :
        (pid : ℕ) (a : Attrs) (r : Reporter T G)
        → IsSound r.pids_tracker
        → stale_uid (trackers.tracks_pid r.pids_tracker pid) a.uid ≡ none
        → IsSound (on_announced trackers gauges pid a r).pids_tracker
    unfolding on_announced
    announced-IsSound pid a r sound unmoved =
        subst IsSound (sym (announced_tracker _ pid a r))
          (tracker_law.sound-add r.pids_tracker pid a.uid sound unmoved)

    created-IsSound :
        (before : Option ServiceUid) (pe : ProcessEvent) (r : Reporter T G)
        → IsInSync r
        → IsSound r.pids_tracker
        → trackers.tracks_pid r.pids_tracker pe.pid ≡ before
        → pe.event_type ≡ created
        → ¬ MovesOnto before pe r
        → IsSound
            (on_created trackers gauges
              (stale_uid before pe.service.uid)
              pe.pid
              pe.service
              r).pids_tracker
    unfolding on_created on_moved
    created-IsSound none pe r v sound e k apart =
        announced-IsSound pe.pid pe.service r sound (rw e refl)
    created-IsSound (some stale) pe r v sound e k apart =
        elim (Bool-cases (same_uid stale pe.service.uid)) [
          | inl same ↦ rw same (announced-IsSound pe.pid pe.service r sound (rw e (rw same refl)))
          | inr other ↦ rw other (
              subst IsSound (sym (moved_tracker _ stale pe.service _)) (
                tracker_law.sound-replace r.pids_tracker stale pe.service.uid sound
                  (λ q t. apart (k, other, entry_of _ (v.tracked q pe.service.uid t)))))
        ]

    pub dispatch-IsSound :
        (kind : EventType) (pe : ProcessEvent) (r : Reporter T G)
        → IsInSync r
        → IsSound r.pids_tracker
        → pe.event_type ≡ kind
        → ¬ MovesOnto (trackers.tracks_pid r.pids_tracker pe.pid) pe r
        → IsSound (dispatch trackers gauges kind pe r).pids_tracker
    unfolding dispatch on_terminated
    dispatch-IsSound terminated pe r v sound k apart =
        subst IsSound (sym (disassociated_tracker _ pe.service _))
          (tracker_law.sound-remove r.pids_tracker pe.pid sound)
    dispatch-IsSound created pe r v sound k apart = created-IsSound _ pe r v sound refl k apart

    -- As long as no event moves a process onto a service that the map knows, each service of the map
    -- stays exported, with the labels of its attributes in the map, and the service of each tracked
    -- process stays in the map: no service of a tracked process goes missing from the survey.
    pub watch_for_process_events-IsInSync :
        (events : List ProcessEvent) (r : Reporter T G)
        → IsInSync r
        → IsSound r.pids_tracker
        → KeepApart events r
        → IsInSync (watch_for_process_events trackers gauges events r)
    unfolding watch_for_process_events handle_process_event KeepApart
    watch_for_process_events-IsInSync [] r v sound apart = v
    watch_for_process_events-IsInSync (pe ∷ events) r v sound (apart, further) =
        watch_for_process_events-IsInSync events (handle_process_event trackers gauges pe r)
          (dispatch-IsInSync pe.event_type pe r v sound)
          (dispatch-IsSound pe.event_type pe r v sound refl apart) further
