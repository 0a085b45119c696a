-- ===== src/Export/Process/Labelled.antt =====
-- The label values of the Prometheus process metrics.
use e_bpf_lens.Prelude.{
  ℕ, suc, ◌⊎◌, String, true, false, List, [], ◌∷◌, ◌≡◌, refl, ap, if◌then◌else◌, ◌==◌, All, length,
  Bool-cases, inl, inr, All-append, All-weaken, map, ◌∙◌,
}
use e_bpf_lens.Export.Process.{Observed, Field, Floats, MetricName}
use e_bpf_lens.Export.Process.Prom.{
  Selector, Update, add, set_to, Vector, Reporter, label_names, label_values,
  attributes_with_explicit, plain_vector, new_proc_reporter, observe_metric, collect_metrics,
  observe_aggregated_cpu_time, observe_disaggregated_cpu_time, observe_aggregated_cpu_utilization,
  observe_disaggregated_cpu_utilization, observe_aggregated_disk, observe_disaggregated_disk,
  observe_aggregated_net, observe_disaggregated_net,
}

-- The selector with other attributes for the metric of the network.
abbrev pub with_net : List String → Selector → Selector
with_net names selector = record selector {
  for_metric = λ metric.
      if metric.section == "process.network.io" then names else selector.for_metric metric;
}

-- The attributes that the configuration selects for process.network.io have no effect at all on
-- what the Prometheus exporter reports: those of process.disk.io are taken in their place.
pub new_proc_reporter-with_net :
    (selector : Selector) (text : List ℕ → String) (names : List String)
    → new_proc_reporter (with_net names selector) text ≡ new_proc_reporter selector text
unfolding new_proc_reporter
new_proc_reporter-with_net selector text names = refl

length-label_values :
    (s : Observed) (fields : List (Field String))
    → length (label_values s fields) ≡ length (label_names fields)
unfolding label_values label_names
length-label_values s [] = refl
length-label_values s (f ∷ fields) = ap suc (length-label_values s fields)

-- A vector whose observers give a value for each label name.
record IsConsistent (v : Vector) : Type 0 where
  aggregated : v.disaggregated ≡ false → length (label_names v.getters) ≡ length v.label_names
  explicit : v.disaggregated ≡ true → suc (length (label_names v.getters)) ≡ length v.label_names

module _ (selector : Selector) (text : List ℕ → String) where
  attributes_with_explicit-IsConsistent :
      (metric asked : MetricName) (attribute : String)
      → IsConsistent (attributes_with_explicit selector text metric asked attribute)
  unfolding attributes_with_explicit
  attributes_with_explicit-IsConsistent metric asked attribute = record {
    aggregated = λ h. rw h refl;
    explicit = λ h. rw h refl;
  }

  plain_vector-IsConsistent :
      (metric : MetricName) → IsConsistent (plain_vector selector text metric)
  unfolding plain_vector
  plain_vector-IsConsistent metric = record { aggregated = λ h. refl; explicit = λ h. cc }

module _ {F : Type 0} where
  -- The update is of the vector's metric, and has a value for each of its label names.
  abbrev Matches : Vector → Update F → Type 0
  Matches v (add metric labels value) = (metric ≡ v.metric) × (length labels ≡ length v.label_names)
  Matches v (set_to metric labels value) =
      (metric ≡ v.metric) × (length labels ≡ length v.label_names)

  -- An update of one of the six vectors.
  abbrev pub MatchesSome : Reporter → Update F → Type 0
  MatchesSome r u =
      Matches r.cpu_time u
      ⊎ Matches r.cpu_utilization u
      ⊎ Matches r.memory u
      ⊎ Matches r.memory_virtual u
      ⊎ Matches r.disk u
      ⊎ Matches r.net u

  module _ (v : Vector) (s : Observed) (ok : IsConsistent v) where
    -- The aggregated observers write one update, and the others one for each value.
    one-Matches :
        (u : List String → Update F)
        → ((labels : List String) → length labels ≡ length v.label_names → Matches v (u labels))
        → v.disaggregated ≡ false
        → All (Matches v) (u (label_values s v.getters) ∷ [])
    one-Matches u of_length h =
        (of_length _ (length-label_values s v.getters ∙ ok.aggregated h), tt)

    each-Matches :
        (values : List (String × F)) (u : List String → F → Update F)
        → ((labels : List String) (x : F)
            → length labels ≡ length v.label_names
            → Matches v (u labels x))
        → v.disaggregated ≡ true
        → All (Matches v) (map (λ (p : String × F). u (p.0 ∷ label_values s v.getters) p.1) values)
    each-Matches [] u of_length h = tt
    each-Matches ((value, x) ∷ values) u of_length h = (
      of_length _ x (ap suc (length-label_values s v.getters) ∙ ok.explicit h),
      each-Matches values u of_length h,
    )

    -- One of the two observers, by the test that chose it.
    chosen-Matches :
        (explicit plain : List (Update F))
        → (v.disaggregated ≡ true → All (Matches v) explicit)
        → (v.disaggregated ≡ false → All (Matches v) plain)
        → All (Matches v) (if v.disaggregated then explicit else plain)
    chosen-Matches explicit plain h k = elim (Bool-cases v.disaggregated) [
      | inl e ↦ rw e (h e)
      | inr e ↦ rw e (k e)
    ]

    added-Matches :
        (values : List (String × F)) (x : F)
        → All (Matches v) (
            if v.disaggregated
            then map (λ (p : String × F). add v.metric (p.0 ∷ label_values s v.getters) p.1) values
            else add v.metric (label_values s v.getters) x ∷ [])
    added-Matches values x =
        chosen-Matches _ _ (each-Matches values (λ l y. add v.metric l y) (λ l y e. (refl, e)))
          (one-Matches (λ l. add v.metric l x) (λ l e. (refl, e)))

    set-Matches :
        (values : List (String × F)) (x : F)
        → All (Matches v) (
            if v.disaggregated
            then map
                (λ (p : String × F). set_to v.metric (p.0 ∷ label_values s v.getters) p.1)
                values
            else set_to v.metric (label_values s v.getters) x ∷ [])
    set-Matches values x =
        chosen-Matches _ _ (each-Matches values (λ l y. set_to v.metric l y) (λ l y e. (refl, e)))
          (one-Matches (λ l. set_to v.metric l x) (λ l e. (refl, e)))

module _ {F : Type 0} (floats : Floats F) where
  module _ (r : Reporter) (s : Observed) (cpu_ok : IsConsistent r.cpu_time)
      (utilization_ok : IsConsistent r.cpu_utilization) (disk_ok : IsConsistent r.disk)
      (net_ok : IsConsistent r.net)
      (memory_ok : length (label_names r.memory.getters) ≡ length r.memory.label_names)
      (virtual_ok : length (label_names r.memory_virtual.getters)
        ≡ length r.memory_virtual.label_names) where
    observe_metric-MatchesSome : All (MatchesSome r) (observe_metric floats r s)
    unfolding observe_metric observe_aggregated_cpu_time observe_disaggregated_cpu_time
        observe_aggregated_cpu_utilization observe_disaggregated_cpu_utilization
        observe_aggregated_disk observe_disaggregated_disk observe_aggregated_net
        observe_disaggregated_net
    observe_metric-MatchesSome =
        All-append (MatchesSome r) _ _
          (All-weaken (Matches r.cpu_time) (MatchesSome r) (λ u h. inl h) _
            (added-Matches r.cpu_time s cpu_ok (_ ∷ _ ∷ _ ∷ []) _))
          (All-append (MatchesSome r) _ _
            (All-weaken (Matches r.cpu_utilization) (MatchesSome r) (λ u h. inr (inl h)) _
              (set-Matches r.cpu_utilization s utilization_ok (_ ∷ _ ∷ _ ∷ []) _))
            (
              inr (inr (inl (refl, length-label_values s r.memory.getters ∙ memory_ok))),
              (
                inr (
                    inr (
                      inr
                        (inl (refl, length-label_values s r.memory_virtual.getters ∙ virtual_ok)))),
                All-append (MatchesSome r) _ _
                    (All-weaken (Matches r.disk) (MatchesSome r)
                      (λ u h. inr (inr (inr (inr (inl h))))) _
                      (added-Matches r.disk s disk_ok (_ ∷ _ ∷ []) _))
                    (All-weaken (Matches r.net) (MatchesSome r)
                      (λ u h. inr (inr (inr (inr (inr h))))) _
                      (added-Matches r.net s net_ok (_ ∷ _ ∷ []) _)),
              ),
            ))

module _ {F : Type 0} (selector : Selector) (text : List ℕ → String) (floats : Floats F) where
  -- Every value of a process is written to a vector of the reporter with as many label values as the
  -- vector has label names, whatever attributes the configuration selects: the client never panics
  -- on the count.
  pub collect_metrics-MatchesSome :
      (processes : List Observed)
      → All
          (MatchesSome (new_proc_reporter selector text))
          (collect_metrics floats (new_proc_reporter selector text) processes)
  unfolding collect_metrics new_proc_reporter
  collect_metrics-MatchesSome [] = tt
  collect_metrics-MatchesSome (s ∷ processes) =
      let consistent = attributes_with_explicit-IsConsistent selector text in
      All-append (MatchesSome (new_proc_reporter selector text)) _ _
        (observe_metric-MatchesSome floats (new_proc_reporter selector text) s (consistent _ _ _)
          (consistent _ _ _) (consistent _ _ _) (consistent _ _ _) refl refl)
        (collect_metrics-MatchesSome processes)
