-- ===== src/Schema/Mapper.antt =====
-- `customMapper` of cmd/beyla-schema/main.go: the schemas of the types that the reflector of
-- invopop/jsonschema does not handle.
use e_bpf_lens.Prelude.{
  ◌≡◌, refl, String, Bool, false, Option, none, some, [], ◌∷◌, lookup, if◌then◌else◌,
}
use e_bpf_lens.Schema.Scan.{SchemaGenerator}
use e_bpf_lens.Schema.Nodes.{Node}

-- What `reflect` tells of a type: whether it or a pointer to it has a `JSONSchema` method, whether it
-- is a function or `time.Duration`, and its name.
record TypeInfo : Type 0 where
  has_json_schema : Bool
  is_func : Bool
  is_duration : Bool
  name : String

abbrev plain : String → String → Node
plain type_ description = record {
  type_ = type_;
  title = "";
  description = description;
  pattern_ = "";
  examples = [];
  enum = [];
  deprecated = false;
  extras = [];
}

-- `none` leaves the type to the reflector.
custom_mapper : SchemaGenerator → TypeInfo → Option Node
unfolding lookup
custom_mapper g t =
    if t.has_json_schema
    then none
    else if t.is_func
    then some (plain "null" "Function type (not serializable)")
    else if t.is_duration
    then some (record (plain "string" "Duration in Go format (e.g., '30s', '5m', '1ms')") {
      pattern_ = "^[0-9]+(ms|s|m)$";
      examples = "30s" ∷ "5m" ∷ "1ms" ∷ [];
    })
    else elim (lookup t.name g.enums) [
      | none ↦ none
      | some [] ↦ none
      | some (value ∷ values) ↦ some (record (plain "string" "") { enum = value ∷ values })
    ]

-- A type with a method of its own is never overridden, and an enumeration allows what was scanned.
mapped_mode :
    custom_mapper
      (record { enums = ("Mode", "on" ∷ []) ∷ []; env_vars = []; inline_fields = [] })
      (record { has_json_schema = false; is_func = false; is_duration = false; name = "Mode" })
    ≡ some (record (plain "string" "") { enum = "on" ∷ [] })
unfolding custom_mapper
mapped_mode = refl
