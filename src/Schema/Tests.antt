-- ===== src/Schema/Tests.antt =====
-- Runs of the parts of the schema generator, and the theorems at concrete inputs.
use e_bpf_lens.Prelude.{
  ◌==◌, if◌then◌else◌, sorted, ℕ, String, Bool, true, false, Option, none, some, List, [], ◌∷◌, Map,
  ◌≤◌, ◌≡◌, refl, arith, lookup, or_else, leb, ◌&&◌, not, eqb, code, LacksCode, All, has_suffix,
}
use e_bpf_lens.Schema.Nodes.{
  property_names, visit_nested_schemas, Node, Schema, schema, nil_properties, properties, no_pairs,
  pair, no_subschemas, subschema, definition, items, depth, definition_at,
}
use e_bpf_lens.Schema.Nodes.Visits.{Reaches}
use e_bpf_lens.Schema.Passes.{
  sort_schema_properties, sort_schema_node, process_deprecated, get_pair,
}
use e_bpf_lens.Schema.Passes.Sorting.{
  InOrder, sort_schema_properties-InOrder, property_at, property_at-sort_schema_node,
}
use e_bpf_lens.Schema.EnvVars.{process_env_vars}
use e_bpf_lens.Schema.EnvVars.Config.{env_var_of, expected, process_env_vars-definition}
use e_bpf_lens.Schema.Inline.{process_inline_fields}
use e_bpf_lens.Schema.Inline.Merged.{HasProperty, process_inline_fields-Keeps}
use e_bpf_lens.Schema.Inline.Arrival.{HasProperties, property_at-process_inline_fields}
use e_bpf_lens.Schema.Tags.{extract_tag_value}
use e_bpf_lens.Schema.Tags.Printed.{printed, IsClear, extract_tag_value-printed}
use e_bpf_lens.Schema.Scan.{
  type_tok, const_tok, ident, selector, basic_lit, string_lit, call_expr, no_args, arg, struct_type,
  value_spec, type_spec, gen_decl, func_decl, new_schema_generator, extract_file_metadata,
  scan_packages,
}
use e_bpf_lens.Schema.Roots.{find_module_root, find_obi_module_root}

abbrev tags : Map String
tags = ("yaml", "service_name") ∷ ("env", "OTEL_SERVICE_NAME,expand") ∷ []

lacks : ℕ → String → Bool
lacks n String.[] = true
lacks n (String.◌∷◌ c s) = not (eqb (code c) n) && lacks n s

lacks-LacksCode : (n : ℕ) (s : String) → lacks n s ≡ true → LacksCode n s
unfolding lacks
lacks-LacksCode n String.[] h = tt
lacks-LacksCode n (String.◌∷◌ c s) h = (ground arith, lacks-LacksCode n s (ground arith))

tags-IsClear : All (IsClear "env") tags
unfolding lacks has_suffix
tags-IsClear = (
  (lacks-LacksCode b'"' "yaml" refl, lacks-LacksCode b'"' "service_name" refl, λ h. cc, refl),
  (
    (
      lacks-LacksCode b'"' "env" refl,
      lacks-LacksCode b'"' "OTEL_SERVICE_NAME,expand" refl,
      λ h. refl,
      refl,
    ),
    tt,
  ),
)

extract_tag_value-printed_example :
    extract_tag_value (printed tags) "env" ≡ or_else (lookup "env" tags) ""
extract_tag_value-printed_example =
    extract_tag_value-printed tags "env" (refl, (refl, (refl, tt))) (refl, (refl, (refl, tt)))
      tags-IsClear

-- A value that ends with the key and a colon is taken for the key.
extract_tag_value_other :
    extract_tag_value "doc:\"see env:\" yaml:\"port\" env:\"PORT\"" "env" ≡ " yaml:"
unfolding extract_tag_value
extract_tag_value_other = refl

abbrev is_upper : ℕ → Bool
is_upper c = leb b'A' c && leb c b'Z'

-- A file with an enumeration, and with a struct that inlines another.
scanned :
    extract_file_metadata is_upper
      (func_decl
        ∷ gen_decl const_tok (
            value_spec (some (ident "Mode")) ("ModeOn" ∷ []) (basic_lit string_lit "\"on\"" ∷ [])
            ∷ value_spec none ("ModeOff" ∷ []) (basic_lit string_lit "\"off\"" ∷ [])
            ∷ value_spec none ("hidden" ∷ []) (basic_lit string_lit "\"no\"" ∷ [])
            ∷ value_spec none
                ("Red" ∷ [])
                (call_expr (selector "Color") (arg (basic_lit string_lit "\"red\"") no_args) ∷ [])
            ∷ [])
        ∷ gen_decl type_tok (
            type_spec "Config" (
              struct_type (
                record {
                  type_ = ident "string";
                  tag = some "`yaml:\"port,omitempty\" env:\"PORT,expand\"`";
                }
                ∷ record { type_ = selector "Common"; tag = some "`yaml:\",inline\"`" }
                ∷ record { type_ = ident "int"; tag = some "`yaml:\"limit\" env:\"${LIMIT}\"`" }
                ∷ record { type_ = ident "int"; tag = none }
                ∷ []))
            ∷ [])
        ∷ [])
      new_schema_generator
    ≡ record {
      enums = ("Mode", "on" ∷ "off" ∷ []) ∷ ("Color", "red" ∷ []) ∷ [];
      env_vars = ("Config", ("port", "PORT") ∷ []) ∷ [];
      inline_fields = ("Config", "Common" ∷ []) ∷ [];
    }
unfolding extract_file_metadata
scanned = refl

scan_fails : scan_packages is_upper (none ∷ []) new_schema_generator ≡ none
unfolding scan_packages
scan_fails = refl

abbrev node_of : String → Node
node_of text = record {
  type_ = "object";
  title = "";
  description = text;
  pattern_ = "";
  examples = [];
  enum = "b" ∷ "a" ∷ [];
  deprecated = false;
  extras = [];
}

abbrev leaf : String → Schema
leaf text = schema (node_of text) nil_properties no_subschemas

-- A schema with two properties, and with two definitions of which the first inlines the second.
abbrev tree : Schema
tree =
    schema (node_of "a\nb")
      (properties (pair "port" (leaf "p") (pair "host" (leaf "h\n") no_pairs)))
      (subschema (definition "Labels")
        (schema (node_of "l") (properties (pair "service_name" (leaf "s") no_pairs)) no_subschemas)
        (subschema (definition "Common")
          (schema (node_of "c") (properties (pair "limit" (leaf "Deprecated: use x") no_pairs))
            no_subschemas)
          (subschema items (leaf "i\n") no_subschemas)))

depth-tree : depth tree ≤ 3
unfolding depth
depth-tree = omega arith

sort_schema_properties-InOrder_example : Reaches InOrder (sort_schema_properties 3) tree
sort_schema_properties-InOrder_example = sort_schema_properties-InOrder 3 tree depth-tree

property_at-sort_schema_node_example :
    property_at "host" (sort_schema_node tree) ≡ property_at "host" tree
property_at-sort_schema_node_example = property_at-sort_schema_node "host" tree

deprecated_leaf :
    process_deprecated 1 (leaf "Limit.\n deprecated: use x")
    ≡ some (
        schema
          (record (node_of "Limit.\nuse x") { deprecated = true })
          nil_properties
          no_subschemas)
unfolding process_deprecated
deprecated_leaf = refl

-- `Labels` has a variable of its own for the name, and Config's comes out.
abbrev env_table : Map (Map String)
env_table =
    ("Config", ("service_name", "OTEL_SERVICE_NAME") ∷ [])
    ∷ ("Labels", ("service_name", "LABEL_SERVICE_NAME") ∷ [])
    ∷ []

abbrev labels : Schema
labels = schema (node_of "l") (properties (pair "service_name" (leaf "s") no_pairs)) no_subschemas

labels_found : definition_at "Labels" tree ≡ some labels
unfolding definition_at
labels_found = refl

process_env_vars-definition_example :
    (e : Schema) × (definition_at "Labels" (process_env_vars env_table none tree) ≡ some e)
    × (env_var_of (property_at "service_name" e)
        ≡ expected env_table "Labels" "service_name" (property_at "service_name" labels))
process_env_vars-definition_example =
    process_env_vars-definition env_table none tree labels "Labels" "service_name" labels_found

configs_variable :
    expected env_table "Labels" "service_name" (some (leaf "s")) ≡ some "OTEL_SERVICE_NAME"
unfolding lookup
configs_variable = refl

abbrev no_schemas : String → Option Schema
no_schemas name = none

labels_HasProperty : HasProperty tree "Labels" "service_name" (leaf "s")
unfolding definition_at get_pair
labels_HasProperty = (labels, refl, refl)

abbrev inlined : Map (List String)
inlined = ("Labels", "Common" ∷ []) ∷ []

process_inline_fields-Keeps_example :
    HasProperty (process_inline_fields no_schemas inlined tree) "Labels" "service_name" (leaf "s")
process_inline_fields-Keeps_example =
    process_inline_fields-Keeps no_schemas inlined tree "Labels" "service_name" (leaf "s")
      labels_HasProperty

-- The second inlined type has no definition, only a method.
abbrev method_schemas : String → Option Schema
method_schemas name =
    if name == "MetadataGlobMap"
    then some
        (schema (node_of "m") (properties (pair "pod_name" (leaf "g") no_pairs)) no_subschemas)
    else none

abbrev two_inlined : Map (List String)
two_inlined = ("Labels", "Common" ∷ "MetadataGlobMap" ∷ []) ∷ []

two_inlined_found : lookup "Labels" two_inlined ≡ some ("Common" ∷ "MetadataGlobMap" ∷ [])
unfolding lookup
two_inlined_found = refl

property_at-process_inline_fields_example :
    (e : Schema) × (definition_at "Labels" (process_inline_fields method_schemas two_inlined tree)
      ≡ some e)
    × HasProperties e
    × (property_at "pod_name" e ≡ some (leaf "g"))
unfolding definition_at get_pair
property_at-process_inline_fields_example =
    property_at-process_inline_fields method_schemas "pod_name" "Labels" two_inlined
      ("Common" ∷ "MetadataGlobMap" ∷ []) tree labels (tt, tt) two_inlined_found
      ((refl, tt), ((refl, tt), tt)) labels_found tt

-- The enumeration of the property names is not sorted.
unvisited :
    sort_schema_properties 2
      (schema (node_of "r") nil_properties (subschema property_names (leaf "n") no_subschemas))
    ≡ some (
        schema
          (record (node_of "r") { enum = "a" ∷ "b" ∷ [] })
          nil_properties
          (subschema property_names (leaf "n") no_subschemas))
unfolding sort_schema_properties visit_nested_schemas sort_schema_node sorted
unvisited = refl

-- The order of the table counts where an inlined type inlines another.
abbrev chain : List (String × List String) → Option Schema
chain order = definition_at "A" (
    process_inline_fields no_schemas order (
      schema (node_of "r") nil_properties (
        subschema (definition "A") (one "a") (
          subschema (definition "B") (one "b")
            (subschema (definition "C") (one "c") no_subschemas)))))
  where
    one : String → Schema
    one name = schema (node_of name) (properties (pair name (leaf name) no_pairs)) no_subschemas

chain_outer_first :
    (d : Schema) × (chain (("A", "B" ∷ []) ∷ ("B", "C" ∷ []) ∷ []) ≡ some d)
    × (property_at "c" d ≡ none)
unfolding process_inline_fields definition_at get_pair
chain_outer_first = (_, refl, refl)

chain_inner_first :
    (d : Schema) × (chain (("B", "C" ∷ []) ∷ ("A", "B" ∷ []) ∷ []) ≡ some d)
    × (property_at "c" d ≡ some (leaf "c"))
unfolding process_inline_fields definition_at get_pair
chain_inner_first = (_, refl, refl)

found_nowhere : find_module_root 3 (λ d. false) "/a/b" ≡ some ""
unfolding find_module_root
found_nowhere = refl

replaced :
    find_obi_module_root (some "module x\nreplace go.opentelemetry.io/obi => ./.obi-src v1\n")
    ≡ some "./.obi-src"
unfolding find_obi_module_root
replaced = refl
