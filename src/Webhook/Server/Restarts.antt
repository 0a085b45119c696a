-- ===== src/Webhook/Server/Restarts.antt =====
-- Over any sequence of events the server looks up and restarts each deployment at most once.
use e_bpf_lens.Prelude.{
  ◌+◌, ◌≤◌, String, none, some, List, [], ◌∷◌, ◌++◌, ◌≡◌, refl, arith, lookup, All, value_at,
  Bool-cases, Option-cases, inl, inr, ap, ◌∙◌,
}
use e_bpf_lens.Webhook.Bouncer.{PodBouncer, KubeClient, Call, can_be_bounced, already_bounced}
use e_bpf_lens.Webhook.Bouncer.Once.{
  gets, patches, mark, mark-restart_deployment, patches-le-gets_restart, gets-append,
  patches-append,
}
use e_bpf_lens.Webhook.Process.{ProcessInfo, attr_namespace}
use e_bpf_lens.Webhook.Server.{
  Server, Event, EventType, Resource, PodInfo, enrich_loop, restart, wants_restart, react,
  react_all, on, run, on_pod, reacts_to,
}

mark-le-one : (b : PodBouncer) (k : String) → mark b k ≤ 1
mark-le-one b k = ground arith

module _ {Modes : Type 0} (client : KubeClient) (k : String) where
  -- What a step of the server did: the mark grew by the look-ups, and no patch came without one.
  abbrev Counts : Server Modes → Server Modes × List Call → Type 0
  Counts s (s', calls) =
      (mark s'.bouncer k ≡ mark s.bouncer k + gets k calls) × (patches k calls ≤ gets k calls)

  Counts-nothing : (s : Server Modes) → Counts s (s, [])
  Counts-nothing s = (omega arith, omega arith)

  Counts-then :
      (s : Server Modes) (first : Server Modes × List Call) (second : Server Modes × List Call)
      → Counts s first
      → Counts first.0 second
      → Counts s (second.0, first.1 ++ second.1)
  Counts-then s first second h h' = (
    omega (arith, gets-append k first.1 second.1),
    omega (arith, gets-append k first.1 second.1, patches-append k first.1 second.1),
  )

  restart-Counts : (a : ProcessInfo) (s : Server Modes) → Counts s (restart client a s)
  unfolding restart
  restart-Counts a s = elim (Bool-cases (can_be_bounced ns d)) [
    | inl can ↦ elim (Bool-cases (already_bounced s.bouncer ns d)) [
      | inl already ↦ rw (can, restart) (rw already (Counts-nothing s))
      | inr fresh ↦
          rw (can, restart)
            (rw fresh (
              mark-restart_deployment client s.bouncer ns d k fresh,
              patches-le-gets_restart client s.bouncer ns d k,
            ))
    ]
    | inr cannot ↦ rw (cannot, restart) (Counts-nothing s)
  ]
    where
      ns : String
      ns = value_at a.metadata attr_namespace

      d : String
      d = value_at a.metadata "k8s_deployment_name"

  react-Counts : (a : ProcessInfo) (s : Server Modes) → Counts s (react client a s)
  unfolding react
  react-Counts a s = elim (Bool-cases (wants_restart s a)) [
    | inl e ↦ rw (e, react) (restart-Counts a s)
    | inr e ↦ rw (e, react) (Counts-nothing s)
  ]

  react_all-Counts : (as' : List ProcessInfo) (s : Server Modes) → Counts s (react_all client as' s)
  unfolding react_all
  react_all-Counts [] s = Counts-nothing s
  react_all-Counts (a ∷ as') s =
      let first = react client a s in
      Counts-then s first (react_all client as' first.0) (react-Counts a s)
        (react_all-Counts as' first.0)

  bouncer-enrich_loop :
      (r : Resource) (pod : PodInfo) (ids : List String) (s : Server Modes)
      → (enrich_loop r pod ids s).0.bouncer ≡ s.bouncer
  unfolding enrich_loop
  bouncer-enrich_loop r pod [] s = refl
  bouncer-enrich_loop r pod (id ∷ ids) s = elim (Option-cases (lookup id s.initial_state)) [
    | inl e ↦ rw (e, enrich_loop) (bouncer-enrich_loop r pod ids s)
    | inr (ps, e) ↦ rw (e, enrich_loop) (bouncer-enrich_loop r pod ids _)
  ]

  pod-Counts :
      (event : EventType) (r : Resource) (pod : PodInfo) (s : Server Modes)
      → Counts s (on_pod client event r pod s)
  unfolding on_pod
  pod-Counts event r pod s = elim (Bool-cases (reacts_to event)) [
    | inl e ↦
        rw (e, on_pod)
          (let (s', attrs) = enrich_loop r pod pod.containers s in
            let (grown, fewer) = react_all-Counts attrs s' in
            (
              grown
                  ∙ ap (λ b. mark b k + gets k (react_all client attrs s').1)
                      (bouncer-enrich_loop r pod pod.containers s),
              fewer,
            ))
    | inr e ↦ rw (e, on_pod) (Counts-nothing s)
  ]

  on-Counts : (event : Event) (s : Server Modes) → Counts s (on client event s)
  unfolding on
  on-Counts event s = elim (Option-cases event.resource) [
    | inl e ↦ rw (e, on) (Counts-nothing s)
    | inr (r, e) ↦ elim (Option-cases r.pod) [
      | inl e' ↦ rw (e, on) (rw e' (Counts-nothing s))
      | inr (pod, e') ↦ rw (e, on) (rw e' (pod-Counts event.type r pod s))
    ]
  ]

  run-Counts : (events : List Event) (s : Server Modes) → Counts s (run client events s)
  unfolding run
  run-Counts [] s = Counts-nothing s
  run-Counts (e ∷ es) s =
      let first = on client e s in
      Counts-then s first (run client es first.0) (on-Counts e s) (run-Counts es first.0)

  -- Whatever events arrive, the server looks up each deployment at most once and not at all if it
  -- was marked before, marks exactly the deployments that it looked up, besides those marked
  -- before, and restarts none without a look-up: so no deployment is restarted twice.
  pub restarts_once :
      (events : List Event) (s : Server Modes)
      → (mark s.bouncer k + gets k (run client events s).1 ≤ 1)
        × (mark (run client events s).0.bouncer k
            ≡ mark s.bouncer k + gets k (run client events s).1)
        × (patches k (run client events s).1 ≤ gets k (run client events s).1)
  restarts_once events s =
      let (grown, fewer) = run-Counts events s in
      (omega (arith, mark-le-one (run client events s).0.bouncer k, grown), grown, fewer)

module _ {Modes : Type 0} (client : KubeClient) where
  enrich_foreign :
      (r : Resource) (pod : PodInfo) (ids : List String) (s : Server Modes)
      → All (λ id. lookup id s.initial_state ≡ none) ids
      → enrich_loop r pod ids s ≡ (s, [])
  unfolding enrich_loop
  enrich_foreign r pod [] s h = refl
  enrich_foreign r pod (id ∷ ids) s (e, h) = ground (arith, enrich_foreign r pod ids s h)

  -- An event on a pod none of whose containers was found on this node changes nothing and calls
  -- nobody.
  on_foreign_pod :
      (type : EventType) (r : Resource) (pod : PodInfo) (s : Server Modes)
      → r.pod ≡ some pod
      → All (λ id. lookup id s.initial_state ≡ none) pod.containers
      → on client (record { type = type; resource = some r }) s ≡ (s, [])
  unfolding on on_pod react_all
  on_foreign_pod type r pod s e h =
      rw (e, on) (rw (enrich_foreign r pod pod.containers s h, on_pod) (ground arith))
