-- ===== src/Schema/Inline.antt =====
-- `processInlineFields` of cmd/beyla-schema/main.go: the properties of an inlined type enter the
-- schema of the type that holds it.
pub mod Arrival
pub mod Merged
use e_bpf_lens.Prelude.{String, Option, none, some, List, [], ◌∷◌, Map, ◌==◌, if◌then◌else◌}
use e_bpf_lens.Schema.Nodes.{
  Slot, definition, Schema, schema, Properties, nil_properties, properties, Pairs, no_pairs, pair,
  Subschemas, no_subschemas, subschema, definition_at,
}
use e_bpf_lens.Schema.Passes.{get_pair, set_pair}

-- The properties of the inlined type that the definition does not have.
pub merge_pairs : Pairs → Pairs → Pairs
unfolding get_pair set_pair
merge_pairs no_pairs into = into
merge_pairs (pair key value pairs) into =
    merge_pairs pairs (elim (get_pair key into) [ none ↦ set_pair key value into | some v ↦ into ])

pub merge : Schema → Schema → Schema
unfolding merge_pairs
merge (schema _ (properties from) _) (schema node (properties into) subs) =
    schema node (properties (merge_pairs from into)) subs
merge inline_schema def_schema = def_schema

-- A definition changed in place.
pub update_in : String → (Schema → Schema) → Subschemas → Subschemas
update_in name f no_subschemas = no_subschemas
update_in name f (subschema (definition type_name) value subs) =
    let rest = update_in name f subs in
    if type_name == name
    then subschema (definition type_name) (f value) subs
    else subschema (definition type_name) value rest
update_in name f (subschema slot value subs) = subschema slot value (update_in name f subs)

pub update_definition : String → (Schema → Schema) → Schema → Schema
unfolding update_in
update_definition name f (schema node ps subs) = schema node ps (update_in name f subs)

-- With the schemas of the inlined types that have a `JSONSchema` method, as `buildInlineTypeSchemas`
-- finds them by reflection; `none` for another type, and for one whose method returns nil.
module _ (inline_type_schemas : String → Option Schema) where
  -- `inlineSchema`
  pub inline_schema : String → Schema → Option Schema
  unfolding definition_at
  inline_schema name s = elim (definition_at name s) [
    | none ↦ inline_type_schemas name
    | some d ↦ some d
  ]

  pub inline_one : String → String → Schema → Schema
  unfolding inline_schema update_definition merge
  inline_one type_name inline_name s = elim (inline_schema inline_name s) [
    | none ↦ s
    | some d ↦ update_definition type_name (merge d) s
  ]

  pub inline_all : String → List String → Schema → Schema
  unfolding inline_one
  inline_all type_name [] s = s
  inline_all type_name (inline_name ∷ names) s =
      inline_all type_name names (inline_one type_name inline_name s)

  -- `processInlineFields`, with the table of the generator in the order of one iteration.
  unfoldable pub process_inline_fields : Map (List String) → Schema → Schema
  unfolding definition_at inline_all
  process_inline_fields [] s = s
  process_inline_fields ((type_name, inline_types) ∷ fields) s =
      process_inline_fields fields (elim (definition_at type_name s) [
        | none ↦ s
        | some d ↦ inline_all type_name inline_types s
      ])
