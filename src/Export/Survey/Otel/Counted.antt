-- ===== src/Export/Survey/Otel/Counted.antt =====
-- The values of the survey counter: one for each service of the map, and where more is counted.
use e_bpf_lens.Prelude.{
  ℕ, ◌+◌, ◌<◌, Bool, true, Option, none, some, List, [], ◌∷◌, ◌≡◌, ◌↔◌, inl, inr, refl, arith, ap,
  if◌then◌else◌, All, Dict, get, put, delete, get-put, get-delete, Bool-cases,
}
use native.Mathlib.Decide.{dec_lt}
use e_bpf_lens.Export.Labels.{ServiceUid, Attrs}
use e_bpf_lens.Export.Survey.{
  same_uid, same_uid_iff, uid_eq, Tracker, ProcessEvent, EventType, created, terminated,
}
use e_bpf_lens.Export.Survey.Otel.{
  UpDownCounter, SurveyReporter, ResourceApi, attribute_set, create_survey_info, delete_held,
  delete_survey_info, disassociated, on_terminated, on_created, dispatch, on_process_event,
  on_process_events,
}

-- What the counter promises.
pub record IsCounter {C S : Type 0} (counters : UpDownCounter C S) : Type 0 where
  pub same_set : S → S → Bool
  pub same_set_iff : (s t : S) → (same_set s t ≡ true) ↔ (s ≡ t)
  pub value-add_one :
      (c : C) (s t : S)
      → counters.value (counters.add_one s c) t
        ≡ (if same_set s t then counters.value c t + 1 else counters.value c t)
  pub value-remove :
      (c : C) (s t : S)
      → counters.value (counters.remove s c) t ≡ (if same_set s t then 0 else counters.value c t)

-- Two services of the class with the same attribute set have the same identity. It is a condition on
-- the class: the environment of a service can override the attributes of its identity.
module _ {S : Type 0} (resource : ResourceApi S) where
  abbrev pub TellsApart : (Attrs → Type 0) → Type 0
  TellsApart Known =
      (a b : Attrs)
      → Known a
      → Known b
      → attribute_set resource a ≡ attribute_set resource b
      → a.uid ≡ b.uid

module _ {T C S : Type 0} (trackers : Tracker T) (counters : UpDownCounter C S)
    (resource : ResourceApi S) where
  -- The attributes are those of a service with the identity, of the class, and are counted at
  -- least once.
  abbrev pub IsCounted : (Attrs → Type 0) → Dict ServiceUid S → C → Type 0
  IsCounted Known m c =
      (uid : ServiceUid) (s : S)
      → get uid m ≡ some s
      → ((a : Attrs) × Known a × (a.uid ≡ uid) × (attribute_set resource a ≡ s))
        × (0 < counters.value c s)

  -- What is counted is counted once, and stands in the map.
  abbrev pub IsOnce : Dict ServiceUid S → C → Type 0
  IsOnce m c =
      (s : S)
      → 0 < counters.value c s
      → (counters.value c s ≡ 1) × ((uid : ServiceUid) × (get uid m ≡ some s))

  module _ (law : IsCounter counters) (Known : Attrs → Type 0)
      (apart : TellsApart resource Known) where
    IsCounted-delete :
        (m : Dict ServiceUid S) (c : C) (uid : ServiceUid) (s : S)
        → IsCounted Known m c
        → get uid m ≡ some s
        → IsCounted Known (delete uid m) (counters.remove s c)
    IsCounted-delete m c uid s h held = λ q t found.
        let x = get-delete uid q m in
        let ((b, kb, owned, of_b), counted) = h q t (ground (arith, x)) in
        let ((a, ka, owner, of_a), shown) = h uid s held in
        (
          (b, kb, owned, of_b),
          ground (
            arith,
            x,
            law.value-remove c s t,
            law.same_set_iff s t,
            apart a b ka kb,
            same_uid_iff uid q,
          ),
        )

    IsCounted-put :
        (m : Dict ServiceUid S) (c : C) (a : Attrs)
        → Known a
        → IsCounted Known m c
        → IsCounted Known
            (put a.uid (attribute_set resource a) m)
            (counters.add_one (attribute_set resource a) c)
    IsCounted-put m c a ka h = λ q t found.
        let s = attribute_set resource a in
        let x = get-put a.uid q s m in
        elim (Bool-cases (same_uid a.uid q)) [
          | inl same ↦
              let e : s ≡ t = ground (arith, x) in
              (
                (a, ka, (same_uid_iff a.uid q).0 same, e),
                ground (arith, law.value-add_one c s t, law.same_set_iff s t),
              )
          | inr other ↦
              let held = h q t (ground (arith, x)) in
              (held.0, ground (arith, law.value-add_one c s t, held.1))
        ]

    pub IsOnce-delete :
        (m : Dict ServiceUid S) (c : C) (uid : ServiceUid) (s : S)
        → IsOnce m c
        → get uid m ≡ some s
        → IsOnce (delete uid m) (counters.remove s c)
    IsOnce-delete m c uid s h held = λ t counted.
        let law' = law.value-remove c s t in
        let (one, (q, found)) = h t (ground (arith, law')) in
        (
          ground (arith, law'),
          (q, ground (arith, law', get-delete uid q m, same_uid_iff uid q, law.same_set_iff s t)),
        )

    -- A service that the map lacks is not counted.
    uncounted :
        (m : Dict ServiceUid S) (c : C) (a : Attrs)
        → Known a
        → IsCounted Known m c
        → IsOnce m c
        → get a.uid m ≡ none
        → counters.value c (attribute_set resource a) ≡ 0
    uncounted m c a ka k h fresh = elim (dec_lt 0 (counters.value c (attribute_set resource a))) [
      | yes counted ↦
          let (one, (q, found)) = h (attribute_set resource a) counted in
          let ((b, kb, owned, of_b), shown) = k q (attribute_set resource a) found in
          absurd (ground (arith, apart b a kb ka of_b))
      | no none_counted ↦ omega arith
    ]

    pub IsOnce-put :
        (m : Dict ServiceUid S) (c : C) (a : Attrs)
        → Known a
        → IsCounted Known m c
        → IsOnce m c
        → get a.uid m ≡ none
        → IsOnce
            (put a.uid (attribute_set resource a) m)
            (counters.add_one (attribute_set resource a) c)
    IsOnce-put m c a ka k h fresh = λ t counted.
        let s = attribute_set resource a in
        let law' = law.value-add_one c s t in
        let zero_before = uncounted m c a ka k h fresh in
        elim (Bool-cases (law.same_set s t)) [
          | inl same ↦
              let e = (law.same_set_iff s t).0 same in
              (
                ground (arith, law', ap (counters.value c) e, zero_before),
                (a.uid, ground (arith, get-put a.uid a.uid s m, same_uid_iff a.uid a.uid, e)),
              )
          | inr other ↦
              let (one, (q, found)) = h t (ground (arith, law')) in
              (ground (arith, law'), (q, ground (arith, get-put a.uid q s m, same_uid_iff a.uid q)))
        ]

    pub delete_survey_info-IsCounted :
        (uid : ServiceUid) (held : Option S) (smr : SurveyReporter T C S)
        → IsCounted Known smr.service_map smr.survey_info
        → get uid smr.service_map ≡ held
        → let smr' = delete_held trackers counters resource held uid smr in
          IsCounted Known smr'.service_map smr'.survey_info
    unfolding delete_held
    delete_survey_info-IsCounted uid none smr k e = k
    delete_survey_info-IsCounted uid (some s) smr k e =
        IsCounted-delete smr.service_map smr.survey_info uid s k e

    disassociated-IsCounted :
        (deleted : Option ServiceUid) (smr : SurveyReporter T C S)
        → IsCounted Known smr.service_map smr.survey_info
        → let smr' = disassociated trackers counters resource deleted smr in
          IsCounted Known smr'.service_map smr'.survey_info
    unfolding disassociated delete_survey_info
    disassociated-IsCounted none smr k = k
    disassociated-IsCounted (some uid) smr k = delete_survey_info-IsCounted uid _ smr k refl

    created-IsCounted :
        (stale : Option ServiceUid) (pid : ℕ) (a : Attrs) (smr : SurveyReporter T C S)
        → Known a
        → IsCounted Known smr.service_map smr.survey_info
        → let smr' = on_created trackers counters resource stale pid a smr in
          IsCounted Known smr'.service_map smr'.survey_info
    unfolding on_created create_survey_info delete_survey_info
    created-IsCounted (some stale) pid a smr ka k = IsCounted-put _ _ a ka (
        delete_survey_info-IsCounted stale _
          (record smr { pid_tracker = trackers.replace_uid stale a.uid smr.pid_tracker }) k refl)
    created-IsCounted none pid a smr ka k =
        IsCounted-put _ _ a ka (delete_survey_info-IsCounted a.uid _ smr k refl)

    dispatch-IsCounted :
        (kind : EventType) (pe : ProcessEvent) (smr : SurveyReporter T C S)
        → Known pe.service
        → IsCounted Known smr.service_map smr.survey_info
        → let smr' = dispatch trackers counters resource kind pe smr in
          IsCounted Known smr'.service_map smr'.survey_info
    unfolding dispatch on_terminated
    dispatch-IsCounted terminated pe smr known k = disassociated-IsCounted _ _ k
    dispatch-IsCounted created pe smr known k = created-IsCounted _ pe.pid pe.service smr known k

    -- Whatever process events arrive, of services of a class in which two with the same attribute set
    -- have the same identity, and whatever the tracker of process ids answers: each service of the
    -- map is counted at least once, with attributes of its own, if that was so before.
    pub on_process_events-IsCounted :
        (events : List ProcessEvent) (smr : SurveyReporter T C S)
        → All (λ pe. Known pe.service) events
        → IsCounted Known smr.service_map smr.survey_info
        → let smr' = on_process_events trackers counters resource events smr in
          IsCounted Known smr'.service_map smr'.survey_info
    unfolding on_process_events on_process_event
    on_process_events-IsCounted [] smr known k = k
    on_process_events-IsCounted (pe ∷ events) smr (now, later) k =
        on_process_events-IsCounted events (on_process_event trackers counters resource pe smr)
          later (dispatch-IsCounted pe.event_type pe smr now k)
