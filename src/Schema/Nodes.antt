-- ===== src/Schema/Nodes.antt =====
-- `jsonschema.Schema`, with the fields that cmd/beyla-schema/main.go uses, and `visitNestedSchemas`.
-- A schema is a tree here. In the program two properties may share one schema, after
-- `processInlineFields`: it is then visited once for each of them.
pub mod Visits
use Prim.Native.Nat.{max}
use e_bpf_lens.Prelude.{
  ℕ, zero, suc, String, Bool, true, false, Option, none, some, List, Map, ◌==◌, if◌then◌else◌,
}

-- The fields that hold no schema. A value of an enumeration stands as `fmt.Sprint` writes it.
pub record Node : Type 0 where
  pub type_ : String
  pub title : String
  pub description : String
  pub pattern_ : String
  pub examples : List String
  pub enum : List String
  pub deprecated : Bool
  pub extras : Map String

-- The field that holds a schema within another, with its key where that field is a map.
pub data Slot : Type 0 where
  definition pattern_property dependent_schema : String → Slot
  not_schema if_schema then_schema else_schema items contains_schema additional_properties : Slot
  all_of any_of one_of prefix_items : Slot
  property_names content_schema : Slot

-- `Properties`, an ordered map, may be nil.
mutual
  pub data Schema : Type 0 where
    schema : Node → Properties → Subschemas → Schema

  pub data Properties : Type 0 where
    nil_properties : Properties
    properties : Pairs → Properties

  pub data Pairs : Type 0 where
    no_pairs : Pairs
    pair : String → Schema → Pairs → Pairs

  pub data Subschemas : Type 0 where
    no_subschemas : Subschemas
    subschema : Slot → Schema → Subschemas → Subschemas

-- `schema.Definitions[name]`
unfoldable pub definition_in : String → Subschemas → Option Schema
definition_in name no_subschemas = none
definition_in name (subschema (definition type_name) value subs) =
    let further = definition_in name subs in if type_name == name then some value else further
definition_in name (subschema slot value subs) = definition_in name subs

unfoldable pub definition_at : String → Schema → Option Schema
unfolding definition_in
definition_at name (schema node ps subs) = definition_in name subs

-- How deep the schemas are nested.
unfoldable mutual
  pub depth : Schema → ℕ
  depth (schema node ps subs) = suc (max (depth_properties ps) (depth_subschemas subs))

  pub depth_properties : Properties → ℕ
  depth_properties nil_properties = 0
  depth_properties (properties pairs) = depth_pairs pairs

  pub depth_pairs : Pairs → ℕ
  depth_pairs no_pairs = 0
  depth_pairs (pair key value pairs) = max (depth value) (depth_pairs pairs)

  pub depth_subschemas : Subschemas → ℕ
  depth_subschemas no_subschemas = 0
  depth_subschemas (subschema slot value subs) = max (depth value) (depth_subschemas subs)

-- The fields over which `visitNestedSchemas` goes, beside the properties.
is_visited : Slot → Bool
is_visited (definition _) = true
is_visited not_schema = true
is_visited if_schema = true
is_visited then_schema = true
is_visited else_schema = true
is_visited items = true
is_visited contains_schema = true
is_visited additional_properties = true
is_visited all_of = true
is_visited any_of = true
is_visited one_of = true
is_visited prefix_items = true
is_visited (pattern_property _) = true
is_visited (dependent_schema _) = true
is_visited _ = false

-- One step inward: every schema in a field of this one that is visited, or `none` if one of them fails.
module _ (f : Schema → Option Schema) where
  pub each_pair : Pairs → Option Pairs
  each_pair no_pairs = some no_pairs
  each_pair (pair key value pairs) = elim (f value) [
    | none ↦ none
    | some v ↦ elim (each_pair pairs) [ none ↦ none | some rest ↦ some (pair key v rest) ]
  ]

  pub each_property : Properties → Option Properties
  unfolding each_pair
  each_property nil_properties = some nil_properties
  each_property (properties pairs) = elim (each_pair pairs) [
    | none ↦ none
    | some rest ↦ some (properties rest)
  ]

  pub each_subschema : Subschemas → Option Subschemas
  unfolding is_visited
  each_subschema no_subschemas = some no_subschemas
  each_subschema (subschema slot value subs) =
      elim (if is_visited slot then f value else some value) [
        | none ↦ none
        | some v ↦ elim (each_subschema subs) [
          | none ↦ none
          | some rest ↦ some (subschema slot v rest)
        ]
      ]

  pub each_nested : Schema → Option Schema
  unfolding each_property each_subschema
  each_nested (schema node ps subs) = elim (each_property ps) [
    | none ↦ none
    | some ps' ↦ elim (each_subschema subs) [
      | none ↦ none
      | some subs' ↦ some (schema node ps' subs')
    ]
  ]

-- `visitNestedSchemas`, with a visitor that returns the schema as it leaves it, on fuel: the visitor
-- comes first, and its outcome is walked. `none` where the fuel runs out.
unfoldable pub visit_nested_schemas : ℕ → (Schema → Schema) → Schema → Option Schema
unfolding each_nested
visit_nested_schemas zero visitor s = none
visit_nested_schemas (suc n) visitor s = each_nested (visit_nested_schemas n visitor) (visitor s)
