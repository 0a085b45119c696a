-- ===== src/Schema/EnvVars.antt =====
-- `processEnvVars` of cmd/beyla-schema/main.go: the names of environment variables enter the schema.
pub mod Config
use e_bpf_lens.Prelude.{String, Option, none, some, Map, lookup, insert, ◌==◌, if◌then◌else◌}
use e_bpf_lens.Schema.Nodes.{
  Node, Slot, definition, Schema, schema, Properties, nil_properties, properties, Pairs, no_pairs,
  pair, Subschemas, no_subschemas, subschema,
}

with_env_var : String → Schema → Schema
unfolding insert
with_env_var env_var (schema node ps subs) =
    schema (record node { extras = insert "x-env-var" env_var node.extras }) ps subs

-- `addEnvVarsToProperties`
pub add_to_pairs : Map String → Pairs → Pairs
unfolding lookup with_env_var
add_to_pairs env_vars no_pairs = no_pairs
add_to_pairs env_vars (pair name value pairs) = elim (lookup name env_vars) [
  | none ↦ pair name value (add_to_pairs env_vars pairs)
  | some env_var ↦ pair name (with_env_var env_var value) (add_to_pairs env_vars pairs)
]

pub add_env_vars_to_properties : Option (Map String) → Properties → Properties
unfolding add_to_pairs
add_env_vars_to_properties none ps = ps
add_env_vars_to_properties (some env_vars) nil_properties = nil_properties
add_env_vars_to_properties (some env_vars) (properties pairs) =
    properties (add_to_pairs env_vars pairs)

-- With the table of a generator, `g.envVars`.
module _ (env_vars : Map (Map String)) where
  -- `processEnvVars`. `own` is what the caller has added before: the variables of the schema's type,
  -- which the loop over the definitions adds, and none for the schema at the root.
  unfoldable mutual
    unfolding add_env_vars_to_properties lookup

    pub process_env_vars : Option (Map String) → Schema → Schema
    process_env_vars own (schema node ps subs) =
        schema node
          (add_env_vars_to_properties (lookup "Config" env_vars)
            (add_env_vars_to_properties own ps))
          (process_definitions subs)

    pub process_definitions : Subschemas → Subschemas
    process_definitions no_subschemas = no_subschemas
    process_definitions (subschema (definition type_name) value subs) =
        subschema (definition type_name) (process_env_vars (lookup type_name env_vars) value)
          (process_definitions subs)
    process_definitions (subschema slot value subs) =
        subschema slot value (process_definitions subs)
