-- ===== src/Schema/Passes.antt =====
-- The passes of cmd/beyla-schema/main.go that change one schema at a time, and the walks that apply
-- them to all.
pub mod Newlines
pub mod Sorting
use Prim.Native.Char.{Char}
use e_bpf_lens.Prelude.{
  ℕ, String, code, Bool, true, false, not, ◌&&◌, ◌||◌, Option, none, some, List, [], ◌∷◌, Map,
  lookup, if◌then◌else◌, eqb, is_empty, trim_space, join, sorted, lower_eq, lower, ◌==◌,
}
use e_bpf_lens.Schema.Nodes.{
  Node, Schema, schema, Properties, nil_properties, properties, Pairs, no_pairs, pair, depth,
  visit_nested_schemas,
}
use e_bpf_lens.Schema.Nodes.Visits.{pair_names}

-- `Properties.Get`
unfoldable pub get_pair : String → Pairs → Option Schema
get_pair key no_pairs = none
get_pair key (pair name value pairs) =
    let further = get_pair key pairs in if name == key then some value else further

-- `Properties.Set`: in place where the key is there, else behind the others.
unfoldable pub set_pair : String → Schema → Pairs → Pairs
set_pair key new no_pairs = pair key new no_pairs
set_pair key new (pair name value pairs) =
    let further = set_pair key new pairs in
    if name == key then pair name new pairs else pair name value further

-- The pairs of `ps` for the keys, in the order of the keys, behind those of `acc`.
pub rebuilt : List String → Pairs → Pairs → Pairs
unfolding get_pair set_pair
rebuilt [] ps acc = acc
rebuilt (key ∷ keys) ps acc =
    rebuilt keys ps (elim (get_pair key ps) [ none ↦ acc | some value ↦ set_pair key value acc ])

pub sorted_properties : Properties → Properties
unfolding rebuilt sorted
sorted_properties nil_properties = nil_properties
sorted_properties (properties ps) = properties (rebuilt (sorted (pair_names ps)) ps no_pairs)

-- `sortSchemaNode`
unfoldable pub sort_schema_node : Schema → Schema
unfolding sorted sorted_properties
sort_schema_node (schema node ps subs) =
    schema (record node { enum = sorted node.enum }) (sorted_properties ps) subs

-- `sortSchemaProperties`
unfoldable pub sort_schema_properties : ℕ → Schema → Option Schema
unfolding visit_nested_schemas sort_schema_node
sort_schema_properties n s = visit_nested_schemas n sort_schema_node s

-- `strings.Split(s, "\n")`
unfoldable pub lines_of : String → List String
lines_of String.[] = "" ∷ []
lines_of (String.◌∷◌ c s) = elim (lines_of s) [
  | [] ↦ []
  | line ∷ lines ↦ if eqb (code c) b'\n' then "" ∷ line ∷ lines else String.◌∷◌ c line ∷ lines
]

-- `s[len(p):]` where `strings.HasPrefix(strings.ToLower(s), p)`, for a text `p` in ASCII that has no
-- letter with a capital outside ASCII.
drop_lower_prefix : String → String → Option String
unfolding lower
drop_lower_prefix String.[] s = some s
drop_lower_prefix (String.◌∷◌ c p) String.[] = none
drop_lower_prefix (String.◌∷◌ c p) (String.◌∷◌ d s) =
    let rest = drop_lower_prefix p s in if eqb (lower (code d)) (code c) then rest else none

-- The lines without the mark of the first line that has one, or `none` if none has.
unmarked : List String → Option (List String)
unfolding drop_lower_prefix trim_space lower_eq
unmarked [] = none
unmarked (line ∷ lines) =
    let further : Option (List String) = elim (unmarked lines) [
      | none ↦ none
      | some rest ↦ some (line ∷ rest)
    ] in
    elim (drop_lower_prefix "deprecated:" (trim_space line)) [
      | some msg ↦ some (trim_space msg ∷ lines)
      | none ↦ if lower_eq (trim_space line) "deprecated" then some lines else further
    ]

-- `processSchemaDeprecation`
process_schema_deprecation : Schema → Schema
unfolding lines_of unmarked trim_space join
process_schema_deprecation (schema node ps subs) =
    if is_empty node.description
    then schema node ps subs
    else elim (unmarked (lines_of node.description)) [
      | none ↦ schema node ps subs
      | some lines ↦
          schema (record node { deprecated = true; description = trim_space (join lines "\n") }) ps
            subs
    ]

-- `processDeprecated`
unfoldable pub process_deprecated : ℕ → Schema → Option Schema
unfolding visit_nested_schemas process_schema_deprecation
process_deprecated n s = visit_nested_schemas n process_schema_deprecation s

-- `strings.ReplaceAll(s, "\n", " ")`
pub newlines_replaced : String → String
newlines_replaced String.[] = ""
newlines_replaced (String.◌∷◌ c s) =
    String.◌∷◌ (if eqb (code c) b'\n' then " " else c) (newlines_replaced s)

normalize_description : Schema → Schema
unfolding newlines_replaced
normalize_description (schema node ps subs) =
    if is_empty node.description
    then schema node ps subs
    else schema (record node { description = newlines_replaced node.description }) ps subs

-- `normalizeDescriptions`
pub normalize_descriptions : ℕ → Schema → Option Schema
unfolding visit_nested_schemas normalize_description
normalize_descriptions n s = visit_nested_schemas n normalize_description s
