-- ===== src/Schema/Nodes/Visits.antt =====
-- A visitor reaches every schema, and as many rounds are enough as the schemas are deep.
use e_bpf_lens.Prelude.{
  ℕ, zero, suc, ◌≤◌, String, Option, some, List, [], ◌∷◌, ◌≡◌, refl, sym, ap, subst, arith,
}
use e_bpf_lens.Schema.Nodes.{
  property_names, content_schema, is_visited, Node, Schema, schema, Properties, nil_properties,
  properties, Pairs, no_pairs, pair, Subschemas, no_subschemas, subschema, depth, depth_properties,
  depth_pairs, depth_subschemas, each_pair, each_property, each_subschema, each_nested,
  visit_nested_schemas,
}

abbrev pub pair_names : Pairs → List String
pair_names no_pairs = []
pair_names (pair key value pairs) = key ∷ pair_names pairs

abbrev names_of : Properties → List String
names_of nil_properties = []
names_of (properties pairs) = pair_names pairs

-- What is its own of a schema: its fields, and the names of its properties in their order.
abbrev pub Own : (Node → List String → Type 0) → Schema → Type 0
Own P (schema node ps subs) = P node (names_of ps)

module _ (P : Node → List String → Type 0) where
  -- `P` holds of a schema and of all the schemas in it, those in its `PropertyNames` and in its
  -- `ContentSchema` left out.
  mutual
    pub Everywhere : Schema → Type 0
    Everywhere (schema node ps subs) = P node (names_of ps) × EveryProperty ps × EverySubschema subs

    pub EveryProperty : Properties → Type 0
    EveryProperty nil_properties = Unit
    EveryProperty (properties pairs) = EveryPair pairs

    pub EveryPair : Pairs → Type 0
    EveryPair no_pairs = Unit
    EveryPair (pair key value pairs) = Everywhere value × EveryPair pairs

    pub EverySubschema : Subschemas → Type 0
    EverySubschema no_subschemas = Unit
    EverySubschema (subschema property_names value subs) = EverySubschema subs
    EverySubschema (subschema content_schema value subs) = EverySubschema subs
    EverySubschema (subschema slot value subs) = Everywhere value × EverySubschema subs

  -- The step ends and leaves only schemas with `P`.
  abbrev pub Reaches : (Schema → Option Schema) → Schema → Type 0
  Reaches f s = (t : Schema) × (f s ≡ some t) × Everywhere t

  module _ (f : Schema → Option Schema) (n : ℕ)
      (goes : (s : Schema) → depth s ≤ n → Reaches f s) where
    each_pair-Reaches :
        (ps : Pairs)
        → depth_pairs ps ≤ n
        → (qs : Pairs) × (each_pair f ps ≡ some qs) × (pair_names qs ≡ pair_names ps) × EveryPair qs
    unfolding depth each_pair Everywhere
    each_pair-Reaches no_pairs h = (no_pairs, refl, refl, tt)
    each_pair-Reaches (pair key value pairs) h =
        let (v, ran, good) = goes value (omega arith) in
        let (qs, runs, names, all) = each_pair-Reaches pairs (omega arith) in
        (pair key v qs, rw (ran, runs, each_pair) refl, ap (λ ns. key ∷ ns) names, (good, all))

    each_property-Reaches :
        (ps : Properties)
        → depth_properties ps ≤ n
        → (qs : Properties) × (each_property f ps ≡ some qs)
          × (names_of qs ≡ names_of ps)
          × EveryProperty qs
    unfolding depth each_property Everywhere
    each_property-Reaches nil_properties h = (nil_properties, refl, refl, tt)
    each_property-Reaches (properties pairs) h =
        let (qs, runs, names, all) = each_pair-Reaches pairs h in
        (properties qs, rw (runs, each_property) refl, names, all)

    each_subschema-Reaches :
        (subs : Subschemas)
        → depth_subschemas subs ≤ n
        → (ts : Subschemas) × (each_subschema f subs ≡ some ts) × EverySubschema ts
    unfolding depth each_subschema is_visited Everywhere
    each_subschema-Reaches no_subschemas h = (no_subschemas, refl, tt)
    each_subschema-Reaches (subschema property_names value subs) h =
        let (ts, runs, all) = each_subschema-Reaches subs (omega arith) in
        (subschema property_names value ts, rw (runs, each_subschema) refl, all)
    each_subschema-Reaches (subschema content_schema value subs) h =
        let (ts, runs, all) = each_subschema-Reaches subs (omega arith) in
        (subschema content_schema value ts, rw (runs, each_subschema) refl, all)
    each_subschema-Reaches (subschema slot value subs) h =
        let (v, ran, good) = goes value (omega arith) in
        let (ts, runs, all) = each_subschema-Reaches subs (omega arith) in
        (subschema slot v ts, rw (ran, runs, each_subschema) refl, (good, all))

    each_nested-Reaches : (s : Schema) → depth s ≤ suc n → Own P s → Reaches (each_nested f) s
    unfolding depth each_nested Everywhere
    each_nested-Reaches (schema node ps subs) h own =
        let (qs, runs, names, all) = each_property-Reaches ps (omega arith) in
        let (ts, runs', all') = each_subschema-Reaches subs (omega arith) in
        (
          schema node qs ts,
          rw (runs, runs', each_nested) refl,
          (subst (λ ns. P node ns) (sym names) own, all, all'),
        )

  -- A visitor that does not nest schemas deeper and establishes `P` of each schema by itself
  -- establishes `P` everywhere, and the walk ends.
  pub visit_nested_schemas-Reaches :
      (visitor : Schema → Schema)
      → ((s : Schema) → depth (visitor s) ≤ depth s)
      → ((s : Schema) → Own P (visitor s))
      → (n : ℕ) (s : Schema) → depth s ≤ n
      → Reaches (visit_nested_schemas n visitor) s
  unfolding visit_nested_schemas depth
  visit_nested_schemas-Reaches visitor flat own zero (schema node ps subs) h = absurd (omega arith)
  visit_nested_schemas-Reaches visitor flat own (suc n) s h =
      each_nested-Reaches (visit_nested_schemas n visitor) n
        (visit_nested_schemas-Reaches visitor flat own n) (visitor s) (omega (arith, flat s))
        (own s)
