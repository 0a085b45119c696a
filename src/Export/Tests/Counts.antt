-- ===== src/Export/Tests/Counts.antt =====
-- The survey counter on the events of two services, and the theorems at them.
use e_bpf_lens.Prelude.{ℕ, ◌<◌, String, some, List, [], ◌∷◌, ◌≡◌, refl, arith, get, put, delete}
use e_bpf_lens.Export.Labels.{Attrs, ServiceUid}
use e_bpf_lens.Export.Survey.{ProcessEvent, created, terminated, uid_eq}
use e_bpf_lens.Export.Survey.Otel.{
  attribute_set, SurveyReporter, on_process_event, on_process_events,
}
use e_bpf_lens.Export.Survey.Otel.Counted.{IsCounted, IsOnce, on_process_events-IsCounted}
use e_bpf_lens.Export.Survey.Otel.Once.{on_process_event-IsOnce, on_process_event-miscounts}
use e_bpf_lens.Export.Tests.{
  pids, counters, counters-IsCounter, resource, Plain, Plain-TellsApart, Set, Pids, last_of,
}

abbrev service : String → Attrs
service name = record {
  uid = record { name = name; namespace = "shop"; instance_id = "node:1" };
  host_name = "a";
  job = "shop";
  sdk_language = "go";
  metadata = [];
  env_vars = [];
}

abbrev event : ℕ → String → ProcessEvent
event pid name = record { event_type = created; pid = pid; service = service name }

abbrev idle : SurveyReporter Pids (Set → ℕ) Set
idle = record { survey_info = λ s. 0; service_map = []; pid_tracker = [] }

abbrev Counts : SurveyReporter Pids (Set → ℕ) Set → Type 0
Counts smr = IsCounted pids counters resource Plain smr.service_map smr.survey_info

idle-IsCounted : Counts idle
unfolding get
idle-IsCounted = λ uid s e. absurd (ground arith)

idle-IsOnce : IsOnce pids counters resource [] (λ s. 0)
idle-IsOnce = λ s h. absurd (omega arith)

abbrev two_events : List ProcessEvent
two_events = event 1 "cart" ∷ event 2 "till" ∷ []

abbrev busy : SurveyReporter Pids (Set → ℕ) Set
busy = on_process_events pids counters resource two_events idle

busy-IsCounted : Counts busy
busy-IsCounted =
    on_process_events-IsCounted pids counters resource counters-IsCounter Plain Plain-TellsApart
      two_events idle (refl, (refl, tt)) idle-IsCounted

abbrev cart : Set
cart = attribute_set resource (service "cart")

abbrev till : Set
till = attribute_set resource (service "till")

cart_tracked : pids.tracks_pid busy.pid_tracker 1 ≡ some (service "cart").uid
unfolding on_process_events on_process_event get put
cart_tracked = refl

till_known : get (service "till").uid busy.service_map ≡ some till
unfolding on_process_events on_process_event get put
till_known = refl

till_once : counters.value busy.survey_info till ≡ 1
unfolding on_process_events on_process_event get put
till_once = refl

cart_known : get (service "cart").uid busy.service_map ≡ some cart
unfolding on_process_events on_process_event get put
cart_known = refl

on_process_events-IsCounted_example :
    ((a : Attrs) × Plain a × (a.uid ≡ (service "cart").uid) × (attribute_set resource a ≡ cart))
    × (0 < counters.value busy.survey_info cart)
on_process_events-IsCounted_example =
    on_process_events-IsCounted pids counters resource counters-IsCounter Plain Plain-TellsApart
      two_events idle (refl, (refl, tt)) idle-IsCounted (service "cart").uid cart cart_known

abbrev started : SurveyReporter Pids (Set → ℕ) Set
started = on_process_event pids counters resource (event 1 "cart") idle

cart_counted : 0 < counters.value started.survey_info cart
unfolding on_process_event get put
cart_counted = omega arith

on_process_event-IsOnce_example :
    (counters.value started.survey_info cart ≡ 1)
    × ((uid : ServiceUid) × (get uid started.service_map ≡ some cart))
unfolding get
on_process_event-IsOnce_example =
    on_process_event-IsOnce pids counters resource counters-IsCounter Plain Plain-TellsApart
      (event 1 "cart") idle refl idle-IsCounted idle-IsOnce (λ h. h) cart cart_counted

-- The cart's process becomes a second one of the till.
on_process_event-miscounts_example :
    let smr' = on_process_event pids counters resource (event 1 "till") busy in
    (counters.value smr'.survey_info till ≡ 2)
    × (get (service "till").uid smr'.service_map ≡ some till)
unfolding attribute_set
on_process_event-miscounts_example =
    on_process_event-miscounts pids counters resource counters-IsCounter Plain Plain-TellsApart
      (event 1 "till") busy (service "cart").uid till busy-IsCounted refl cart_tracked refl
      till_known till_once

-- Two services whose environments set the same attributes share a set: the end of the one removes
-- the count of the other, which is still in the map.
abbrev renamed : String → Attrs
renamed name = record (service name) { env_vars = ("name", "app") ∷ ("instance", "1") ∷ [] }

abbrev sharing : List ProcessEvent
sharing =
    record { event_type = created; pid = 1; service = renamed "cart" }
    ∷ record { event_type = created; pid = 2; service = renamed "till" }
    ∷ record { event_type = terminated; pid = 1; service = renamed "cart" }
    ∷ []

shared_set_uncounted :
    let smr = on_process_events pids counters resource sharing idle in
    (get (service "till").uid smr.service_map ≡ some (attribute_set resource (renamed "till")))
    × (counters.value smr.survey_info (attribute_set resource (renamed "till")) ≡ 0)
unfolding on_process_events on_process_event get put delete attribute_set last_of
shared_set_uncounted = (refl, refl)
