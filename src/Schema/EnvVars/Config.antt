-- ===== src/Schema/EnvVars/Config.antt =====
-- Which variable a property of a definition gets.
use e_bpf_lens.Prelude.{
  String, true, Option, none, some, Map, lookup, insert, lookup-insert, ◌≡◌, refl, sym, ap, ◌∙◌,
  ◌==◌, eq_iff, subst, Bool-cases, inl, inr, Option-cases, arith,
}
use e_bpf_lens.Schema.Nodes.{
  definition_in, definition_at, Node, definition, Schema, schema, Properties, nil_properties,
  properties, Pairs, no_pairs, pair, Subschemas, no_subschemas, subschema,
}
use e_bpf_lens.Schema.Passes.{get_pair}
use e_bpf_lens.Schema.Passes.Sorting.{property_at}
use e_bpf_lens.Schema.EnvVars.{
  with_env_var, add_to_pairs, add_env_vars_to_properties, process_env_vars, process_definitions,
}

-- The `x-env-var` of a schema, if there is a schema with one.
abbrev pub env_var_of : Option Schema → Option String
env_var_of none = none
env_var_of (some (schema node ps subs)) = lookup "x-env-var" node.extras

-- The variable for `name` in a table, if there is a table.
abbrev variable : String → Option (Map String) → Option String
variable name none = none
variable name (some env_vars) = lookup name env_vars

-- The first choice, and where there is none the second.
abbrev or_next : Option String → Option String → Option String
or_next none other = other
or_next (some s) other = some s

-- The schema of a property, with the variable that it is given.
abbrev given : Option Schema → Option String → Option Schema
given none v = none
given (some s) none = some s
given (some s) (some v) = some (with_env_var v s)

given-none : (o : Option Schema) → o ≡ given o none
given-none none = refl
given-none (some s) = refl

add_to_pairs-given :
    (env_vars : Map String) (name : String) (pairs : Pairs)
    → get_pair name (add_to_pairs env_vars pairs)
      ≡ given (get_pair name pairs) (lookup name env_vars)
unfolding add_to_pairs get_pair
add_to_pairs-given env_vars name no_pairs = refl
add_to_pairs-given env_vars name (pair key value pairs) =
    elim (Option-cases (lookup key env_vars)) [
      | inl absent ↦
          rw (absent, get_pair)
            (elim (Bool-cases (key == name)) [
              | inl same ↦ rw same (rw (at_same none same absent) refl)
              | inr other ↦ rw other (add_to_pairs-given env_vars name pairs)
            ])
      | inr (v, found) ↦
          rw (found, get_pair)
            (elim (Bool-cases (key == name)) [
              | inl same ↦ rw same (rw (at_same (some v) same found) refl)
              | inr other ↦ rw other (add_to_pairs-given env_vars name pairs)
            ])
    ]
  where
    at_same :
        (o : Option String)
        → (key == name) ≡ true
        → lookup key env_vars ≡ o
        → lookup name env_vars ≡ o
    at_same o same = subst (λ k. lookup k env_vars ≡ o) ((eq_iff key name).0 same)

-- The properties of a schema, by name.
abbrev at_name : String → Properties → Option Schema
at_name name nil_properties = none
at_name name (properties pairs) = get_pair name pairs

property_at-schema :
    (name : String) (node : Node) (ps : Properties) (subs : Subschemas)
    → property_at name (schema node ps subs) ≡ at_name name ps
property_at-schema name node nil_properties subs = refl
property_at-schema name node (properties pairs) subs = refl

add_env_vars_to_properties-given :
    (env_vars : Option (Map String)) (name : String) (ps : Properties)
    → at_name name (add_env_vars_to_properties env_vars ps)
      ≡ given (at_name name ps) (variable name env_vars)
unfolding add_env_vars_to_properties
add_env_vars_to_properties-given none name ps = given-none (at_name name ps)
add_env_vars_to_properties-given (some env_vars) name nil_properties = refl
add_env_vars_to_properties-given (some env_vars) name (properties pairs) =
    add_to_pairs-given env_vars name pairs

-- The variable of a property in a definition: that which the type `Config` has for a property of the
-- name, else that of the definition's own type, else what the property had.
abbrev pub expected : Map (Map String) → String → String → Option Schema → Option String
expected env_vars type_name name none = none
expected env_vars type_name name (some s) =
    or_next (variable name (lookup "Config" env_vars))
      (or_next (variable name (lookup type_name env_vars)) (env_var_of (some s)))

given-expected :
    (env_vars : Map (Map String)) (type_name name : String) (o : Option Schema)
    → env_var_of (
        given
          (given o (variable name (lookup type_name env_vars)))
          (variable name (lookup "Config" env_vars)))
      ≡ expected env_vars type_name name o
unfolding with_env_var
given-expected env_vars type_name name none = refl
given-expected env_vars type_name name (some (schema node ps subs)) =
    go (variable name (lookup "Config" env_vars)) (variable name (lookup type_name env_vars))
  where
    go :
        (c t : Option String)
        → env_var_of (given (given (some (schema node ps subs)) t) c)
          ≡ or_next c (or_next t (env_var_of (some (schema node ps subs))))
    go none none = refl
    go none (some v) = lookup-insert "x-env-var" "x-env-var" v node.extras
    go (some v) none = lookup-insert "x-env-var" "x-env-var" v node.extras
    go (some v) (some w) =
        lookup-insert "x-env-var" "x-env-var" v (insert "x-env-var" w node.extras)

process_env_vars-expected :
    (env_vars : Map (Map String)) (type_name name : String) (d : Schema)
    → env_var_of (property_at name (process_env_vars env_vars (lookup type_name env_vars) d))
      ≡ expected env_vars type_name name (property_at name d)
unfolding process_env_vars
process_env_vars-expected env_vars type_name name (schema node ps subs) =
    ap env_var_of (
      property_at-schema name node
        (add_env_vars_to_properties (lookup "Config" env_vars)
          (add_env_vars_to_properties (lookup type_name env_vars) ps))
        (process_definitions env_vars subs)
      ∙ add_env_vars_to_properties-given (lookup "Config" env_vars) name
          (add_env_vars_to_properties (lookup type_name env_vars) ps)
      ∙ ap (λ o. given o (variable name (lookup "Config" env_vars)))
          (add_env_vars_to_properties-given (lookup type_name env_vars) name ps))
    ∙ given-expected env_vars type_name name (at_name name ps)
    ∙ ap (expected env_vars type_name name) (sym (property_at-schema name node ps subs))

definition_in-process_definitions :
    (env_vars : Map (Map String)) (type_name : String) (d : Schema) (subs : Subschemas)
    → definition_in type_name subs ≡ some d
    → definition_in type_name (process_definitions env_vars subs)
      ≡ some (process_env_vars env_vars (lookup type_name env_vars) d)
unfolding definition_in process_env_vars
definition_in-process_definitions env_vars type_name d no_subschemas h = cc
definition_in-process_definitions env_vars type_name d (subschema (definition n) value subs) h =
    let further = definition_in-process_definitions env_vars type_name d subs in
    ground (arith, further, eq_iff n type_name)
definition_in-process_definitions env_vars type_name d (subschema slot value subs) h =
    definition_in-process_definitions env_vars type_name d subs h

-- processEnvVars keeps a definition of the schema, and each of its properties has then the variable
-- that the type Config has for a property of that name, if there is one, else the variable of the
-- definition's own type, if there is one, else the one that it had.
pub process_env_vars-definition :
    (env_vars : Map (Map String)) (own : Option (Map String)) (s d : Schema)
    (type_name name : String)
    → definition_at type_name s ≡ some d
    → (e : Schema) × (definition_at type_name (process_env_vars env_vars own s) ≡ some e)
      × (env_var_of (property_at name e) ≡ expected env_vars type_name name (property_at name d))
unfolding definition_at process_env_vars
process_env_vars-definition env_vars own (schema node ps subs) d type_name name h = (
  process_env_vars env_vars (lookup type_name env_vars) d,
  definition_in-process_definitions env_vars type_name d subs h,
  process_env_vars-expected env_vars type_name name d,
)
