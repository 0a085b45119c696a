-- ===== src/Schema/Passes/Sorting.antt =====
-- What `sortSchemaProperties` makes of the properties and the enumerations.
use Prim.Native.Nat.{max}
use e_bpf_lens.Prelude.{
  ℕ, String, true, false, ◌||◌, Option, none, some, List, [], ◌∷◌, All, All-weaken, any, ◌≤◌, ◌≡◌,
  refl, sym, ◌∙◌, arith, ◌==◌, eq_iff, Bool-cases, Option-cases, inl, inr, text_leb, sorted, subst,
  IsSorted, sorted-IsSorted, any-sorted, if◌then◌else◌,
}
use e_bpf_lens.Schema.Nodes.{
  Node, Schema, schema, nil_properties, properties, Pairs, no_pairs, pair, depth, depth_pairs,
}
use e_bpf_lens.Schema.Nodes.Visits.{Own, Reaches, pair_names, visit_nested_schemas-Reaches}
use e_bpf_lens.Schema.Passes.{
  get_pair, set_pair, rebuilt, sorted_properties, sort_schema_node, sort_schema_properties,
}

module _ (key : String) (new : Schema) where
  -- What holds of the key and of the names holds of the names with the key.
  set_pair-All :
      (P : String → Type 0) (acc : Pairs)
      → P key
      → All P (pair_names acc)
      → All P (pair_names (set_pair key new acc))
  unfolding set_pair
  set_pair-All P no_pairs h hs = (h, tt)
  set_pair-All P (pair name value pairs) h (hn, hs) = elim (Bool-cases (name == key)) [
    | inl same ↦ rw same (hn, hs)
    | inr other ↦ rw other (hn, set_pair-All P pairs h hs)
  ]

  set_pair-IsSorted :
      (acc : Pairs)
      → IsSorted (pair_names acc)
      → All (λ n. text_leb n key ≡ true) (pair_names acc)
      → IsSorted (pair_names (set_pair key new acc))
  unfolding set_pair
  set_pair-IsSorted no_pairs h below = (tt, tt)
  set_pair-IsSorted (pair name value pairs) (hn, hs) (bn, bs) = elim (Bool-cases (name == key)) [
    | inl same ↦ rw same (hn, hs)
    | inr other ↦
        rw other
          (set_pair-All (λ t. text_leb name t ≡ true) pairs bn hn, set_pair-IsSorted pairs hs bs)
  ]

  depth-set_pair :
      (acc : Pairs) → depth_pairs (set_pair key new acc) ≤ max (depth new) (depth_pairs acc)
  unfolding set_pair depth
  depth-set_pair no_pairs = omega arith
  depth-set_pair (pair name value pairs) = elim (Bool-cases (name == key)) [
    | inl same ↦ rw same (omega arith)
    | inr other ↦ rw other (omega (arith, depth-set_pair pairs))
  ]

  pub get_pair-set_pair :
      (asked : String) (acc : Pairs)
      → get_pair asked (set_pair key new acc)
        ≡ (if key == asked then some new else get_pair asked acc)
  unfolding get_pair set_pair
  get_pair-set_pair asked no_pairs = refl
  get_pair-set_pair asked (pair name value pairs) =
      let further = get_pair-set_pair asked pairs in
      ground (arith, further, eq_iff name key, eq_iff key asked, eq_iff name asked)

depth-get_pair :
    (key : String) (ps : Pairs) (v : Schema) → get_pair key ps ≡ some v → depth v ≤ depth_pairs ps
unfolding get_pair depth
depth-get_pair key no_pairs v h = cc
depth-get_pair key (pair name value pairs) v h = ground (arith, depth-get_pair key pairs v)

-- A name is at most as great as all keys; all names are.
abbrev IsBelow : List String → String → Type 0
IsBelow keys n = All (λ k. text_leb n k ≡ true) keys

abbrev Below : List String → List String → Type 0
Below keys names = All (IsBelow keys) names

rebuilt-IsSorted :
    (keys : List String) (ps acc : Pairs)
    → IsSorted keys
    → IsSorted (pair_names acc)
    → Below keys (pair_names acc)
    → IsSorted (pair_names (rebuilt keys ps acc))
unfolding rebuilt
rebuilt-IsSorted [] ps acc hk ha below = ha
rebuilt-IsSorted (key ∷ keys) ps acc hk ha below = elim (Option-cases (get_pair key ps)) [
  | inl absent ↦ rw absent (rebuilt-IsSorted keys ps acc hk.1 ha below_keys)
  | inr (value, found) ↦ rw found (
      rebuilt-IsSorted keys ps (set_pair key value acc) hk.1
        (set_pair-IsSorted key value acc ha (
          All-weaken (λ n. IsBelow (key ∷ keys) n) (λ n. text_leb n key ≡ true) (λ n h. h.0)
            (pair_names acc) below))
        (set_pair-All key value (IsBelow keys) acc hk.0 below_keys))
]
  where
    below_keys : Below keys (pair_names acc)
    below_keys =
        All-weaken (IsBelow (key ∷ keys)) (IsBelow keys) (λ n h. h.1) (pair_names acc) below

depth-rebuilt :
    (keys : List String) (ps acc : Pairs)
    → depth_pairs (rebuilt keys ps acc) ≤ max (depth_pairs ps) (depth_pairs acc)
unfolding rebuilt
depth-rebuilt [] ps acc = omega arith
depth-rebuilt (key ∷ keys) ps acc = elim (Option-cases (get_pair key ps)) [
  | inl absent ↦ rw absent (depth-rebuilt keys ps acc)
  | inr (value, found) ↦ rw found (
      omega (
        arith,
        depth-rebuilt keys ps (set_pair key value acc),
        depth-set_pair key value acc,
        depth-get_pair key ps value found,
      ))
]

-- The values of the enumeration and the names of the properties are in order.
abbrev pub InOrder : Node → List String → Type 0
InOrder node names = IsSorted node.enum × IsSorted names

sort_schema_node-flat : (s : Schema) → depth (sort_schema_node s) ≤ depth s
unfolding sort_schema_node sorted_properties depth
sort_schema_node-flat (schema node nil_properties subs) = omega arith
sort_schema_node-flat (schema node (properties ps) subs) =
    omega (arith, depth-rebuilt (sorted (pair_names ps)) ps no_pairs)

sort_schema_node-InOrder : (s : Schema) → Own InOrder (sort_schema_node s)
unfolding sort_schema_node sorted_properties
sort_schema_node-InOrder (schema node nil_properties subs) = (sorted-IsSorted node.enum, tt)
sort_schema_node-InOrder (schema node (properties ps) subs) = (
  sorted-IsSorted node.enum,
  rebuilt-IsSorted (sorted (pair_names ps)) ps no_pairs (sorted-IsSorted (pair_names ps)) tt tt,
)

-- sortSchemaProperties ends within as many rounds as the schema is deep; then the enumeration and the
-- properties are in order in the schema and, at any depth, in the schemas of its properties and in
-- those of its other fields but PropertyNames and ContentSchema.
pub sort_schema_properties-InOrder :
    (n : ℕ) (s : Schema) → depth s ≤ n → Reaches InOrder (sort_schema_properties n) s
unfolding sort_schema_properties
sort_schema_properties-InOrder n s h =
    visit_nested_schemas-Reaches InOrder sort_schema_node sort_schema_node-flat
      sort_schema_node-InOrder n s h

set_pair-keeps :
    (q key : String) (value : Schema) (ps acc : Pairs)
    → get_pair key ps ≡ some value
    → ((key == q) ≡ false → get_pair q acc ≡ get_pair q ps)
    → get_pair q (set_pair key value acc) ≡ get_pair q ps
set_pair-keeps q key value ps acc found h =
    rw (get_pair-set_pair key value q acc) (elim (Bool-cases (key == q)) [
      | inl same ↦
          rw same (sym (subst (λ k. get_pair k ps ≡ some value) ((eq_iff key q).0 same) found))
      | inr other ↦ rw other (h other)
    ])

rebuilt-keeps :
    (q : String) (keys : List String) (ps acc : Pairs)
    → get_pair q acc ≡ get_pair q ps
    → get_pair q (rebuilt keys ps acc) ≡ get_pair q ps
unfolding rebuilt
rebuilt-keeps q [] ps acc h = h
rebuilt-keeps q (key ∷ keys) ps acc h = elim (Option-cases (get_pair key ps)) [
  | inl absent ↦ rw absent (rebuilt-keeps q keys ps acc h)
  | inr (value, found) ↦ rw found (
      rebuilt-keeps q keys ps (set_pair key value acc)
        (set_pair-keeps q key value ps acc found (λ other. h)))
]

rebuilt-enters :
    (q : String) (keys : List String) (ps acc : Pairs)
    → any (λ k. k == q) keys ≡ true
    → (v : Schema) → get_pair q ps ≡ some v
    → get_pair q (rebuilt keys ps acc) ≡ get_pair q ps
unfolding rebuilt
rebuilt-enters q [] ps acc h v found = cc
rebuilt-enters q (key ∷ keys) ps acc h v found = elim (Bool-cases (key == q)) [
  | inl same ↦
      let here = subst (λ k. get_pair k ps ≡ some v) (sym ((eq_iff key q).0 same)) found in
      rw here (
        rebuilt-keeps q keys ps (set_pair key v acc)
          (set_pair-keeps q key v ps acc here (λ other. absurd (ground arith))))
  | inr other ↦
      rebuilt-enters q keys ps
        (elim (get_pair key ps) [ none ↦ acc | some value ↦ set_pair key value acc ])
        (subst (λ b. (b || any (λ k. k == q) keys) ≡ true) other h) v found
]

any-get_pair :
    (q : String) (ps : Pairs) (v : Schema)
    → get_pair q ps ≡ some v
    → any (λ k. k == q) (pair_names ps) ≡ true
unfolding get_pair
any-get_pair q no_pairs v h = cc
any-get_pair q (pair name value pairs) v h = ground (arith, any-get_pair q pairs v)

-- `schema.Properties.Get`, where the properties are not nil.
abbrev pub property_at : String → Schema → Option Schema
property_at key (schema node nil_properties subs) = none
property_at key (schema node (properties ps) subs) = get_pair key ps

-- sortSchemaNode keeps every property of a schema, with its own schema, and adds none.
pub property_at-sort_schema_node :
    (key : String) (s : Schema) → property_at key (sort_schema_node s) ≡ property_at key s
unfolding sort_schema_node sorted_properties get_pair
property_at-sort_schema_node key (schema node nil_properties subs) = refl
property_at-sort_schema_node key (schema node (properties ps) subs) =
    elim (Option-cases (get_pair key ps)) [
      | inl absent ↦ rebuilt-keeps key (sorted (pair_names ps)) ps no_pairs (sym absent)
      | inr (v, found) ↦
          rebuilt-enters key (sorted (pair_names ps)) ps no_pairs
            (any-sorted (λ k. k == key) (pair_names ps) ∙ any-get_pair key ps v found) v found
    ]
