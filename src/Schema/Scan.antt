-- ===== src/Schema/Scan.antt =====
-- What cmd/beyla-schema/main.go reads off the Go sources of the configuration: the values of its
-- enumerations, the environment variables of its fields, and the fields that are inlined.
-- A source file is go/parser's tree, with what the code looks at.
use e_bpf_lens.Prelude.{
  ℕ, String, code, Bool, false, not, ◌&&◌, ◌||◌, Option, none, some, List, [], ◌∷◌, ◌++◌, Map,
  lookup, insert, or_else, ◌==◌, if◌then◌else◌, eqb, is_empty, has_prefix, has_suffix, contains,
  split_once,
}
use e_bpf_lens.Schema.Tags.{extract_tag_value}

pub data Tok : Type 0 where
  const_tok type_tok other_tok : Tok

pub data LitKind : Type 0 where
  string_lit other_lit : LitKind

-- `ast.Expr`: an identifier, a selector with its last name, a literal with its text, a call.
mutual
  pub data Expr : Type 0 where
    ident selector : String → Expr
    basic_lit : LitKind → String → Expr
    call_expr : Expr → Args → Expr
    other_expr : Expr

  pub data Args : Type 0 where
    no_args : Args
    arg : Expr → Args → Args

pub record Field : Type 0 where
  pub type_ : Expr
  pub tag : Option String

pub data TypeExpr : Type 0 where
  struct_type : List Field → TypeExpr
  other_type : TypeExpr

pub data Spec : Type 0 where
  value_spec : Option Expr → List String → List Expr → Spec
  type_spec : String → TypeExpr → Spec
  import_spec : Spec

pub data Decl : Type 0 where
  gen_decl : Tok → List Spec → Decl
  func_decl : Decl

-- The tables of a `SchemaGenerator`, by the names of types.
pub record SchemaGenerator : Type 0 where
  pub enums : Map (List String)
  pub env_vars : Map (Map String)
  pub inline_fields : Map (List String)

abbrev pub new_schema_generator : SchemaGenerator
new_schema_generator = record { enums = []; env_vars = []; inline_fields = [] }

-- `strings.Trim(s, cutset)`, for a cutset of one character.
trim_left_code : ℕ → String → String
trim_left_code n String.[] = ""
trim_left_code n (String.◌∷◌ c s) =
    let rest = trim_left_code n s in if eqb (code c) n then rest else String.◌∷◌ c s

trim_right_code : ℕ → String → String
trim_right_code n String.[] = ""
trim_right_code n (String.◌∷◌ c s) =
    let rest = trim_right_code n s in
    if eqb (code c) n && is_empty rest then "" else String.◌∷◌ c rest

trim_code : ℕ → String → String
unfolding trim_left_code trim_right_code
trim_code n s = trim_right_code n (trim_left_code n s)

expr_to_type_name : Expr → String
expr_to_type_name (ident name) = name
expr_to_type_name (selector name) = name
expr_to_type_name _ = ""

-- `extractConstValueAndType`; `none` is the nil value.
extract_const_value_and_type : Expr → String → String × Option String
unfolding trim_code expr_to_type_name
extract_const_value_and_type (basic_lit string_lit text) inherited_type =
    (inherited_type, some (trim_code b'"' text))
extract_const_value_and_type (call_expr fun (arg (basic_lit string_lit text) no_args))
      inherited_type =
    if not (is_empty (expr_to_type_name fun))
    then (expr_to_type_name fun, some (trim_code b'"' text))
    else ("", none)
extract_const_value_and_type _ inherited_type = ("", none)

-- `m[name] = append(m[name], value)`
append_at : String → String → Map (List String) → Map (List String)
unfolding lookup insert
append_at name value m = insert name (or_else (lookup name m) [] ++ value ∷ []) m

add_enum : String × Option String → Map (List String) → Map (List String)
unfolding append_at
add_enum (type_name, none) enums = enums
add_enum (type_name, some value) enums =
    if not (is_empty type_name) then append_at type_name value enums else enums

-- With `unicode.IsUpper`, of a code point.
module _ (is_upper : ℕ → Bool) where
  -- `name.IsExported()`
  is_exported : String → Bool
  is_exported String.[] = false
  is_exported (String.◌∷◌ c s) = is_upper (code c)

  -- The names of one specification, each with the value at its place, if there is one.
  names_loop : String → List String → List Expr → Map (List String) → Map (List String)
  unfolding is_exported extract_const_value_and_type add_enum
  names_loop current_type (name ∷ names) (value ∷ values) enums =
      names_loop current_type names values (
        if name == "_" || not (is_exported name)
        then enums
        else add_enum (extract_const_value_and_type value current_type) enums)
  names_loop current_type _ _ enums = enums

  enums_loop : String → List Spec → Map (List String) → Map (List String)
  unfolding names_loop expr_to_type_name
  enums_loop current_type [] enums = enums
  enums_loop current_type (value_spec none names values ∷ specs) enums =
      enums_loop current_type specs (names_loop current_type names values enums)
  enums_loop current_type (value_spec (some type_) names values ∷ specs) enums =
      enums_loop (expr_to_type_name type_) specs
        (names_loop (expr_to_type_name type_) names values enums)
  enums_loop current_type (_ ∷ specs) enums = enums_loop current_type specs enums

  -- `extractEnumsFromDecl`
  extract_enums_from_decl : List Spec → SchemaGenerator → SchemaGenerator
  unfolding enums_loop
  extract_enums_from_decl specs g = record g { enums = enums_loop "" specs g.enums }

-- `extractInlineField`
extract_inline_field : String → Field → SchemaGenerator → SchemaGenerator
unfolding expr_to_type_name append_at
extract_inline_field parent_type field g =
    if not (is_empty (expr_to_type_name field.type_))
    then record g {
      inline_fields = append_at parent_type (expr_to_type_name field.type_) g.inline_fields;
    }
    else g

-- What stands in front of the first comma.
without_options : String → String
unfolding split_once
without_options name = elim (split_once b',' name) [ none ↦ name | some (start, _) ↦ start ]

-- `extractEnvVar`, with the values of the two tags.
pub record_env_var : String → String → String → SchemaGenerator → SchemaGenerator
unfolding without_options has_prefix lookup insert
record_env_var type_name yaml_name env_var g =
    if is_empty yaml_name || is_empty env_var
    then g
    else if not (has_prefix (without_options env_var) "${")
    then record g {
      env_vars =
          insert type_name
            (insert (without_options yaml_name) (without_options env_var)
              (or_else (lookup type_name g.env_vars) []))
            g.env_vars;
    }
    else g

extract_env_var : String → String → String → SchemaGenerator → SchemaGenerator
unfolding extract_tag_value record_env_var
extract_env_var type_name tag yaml_name g =
    record_env_var type_name yaml_name (extract_tag_value tag "env") g

-- One field of a struct.
extract_field : String → Field → SchemaGenerator → SchemaGenerator
unfolding trim_code extract_tag_value contains extract_inline_field extract_env_var
extract_field type_name field g = elim field.tag [
  | none ↦ g
  | some text ↦
      let tag = trim_code 0x60 text in
      let yaml_name = extract_tag_value tag "yaml" in
      if contains yaml_name "inline" || yaml_name == ",inline"
      then extract_inline_field type_name field g
      else extract_env_var type_name tag yaml_name g
]

fields_loop : String → List Field → SchemaGenerator → SchemaGenerator
unfolding extract_field
fields_loop type_name [] g = g
fields_loop type_name (field ∷ fields) g =
    fields_loop type_name fields (extract_field type_name field g)

-- `if g.envVars[typeName] == nil { g.envVars[typeName] = make(...) }`
with_table : String → SchemaGenerator → SchemaGenerator
unfolding lookup insert
with_table type_name g = record g {
  env_vars = insert type_name (or_else (lookup type_name g.env_vars) []) g.env_vars;
}

-- `extractStructMetadataFromDecl`
extract_struct_metadata_from_decl : List Spec → SchemaGenerator → SchemaGenerator
unfolding with_table fields_loop
extract_struct_metadata_from_decl [] g = g
extract_struct_metadata_from_decl (type_spec type_name (struct_type fields) ∷ specs) g =
    extract_struct_metadata_from_decl specs (fields_loop type_name fields (with_table type_name g))
extract_struct_metadata_from_decl (_ ∷ specs) g = extract_struct_metadata_from_decl specs g

-- `extractFileMetadata`
unfoldable pub extract_file_metadata : (ℕ → Bool) → List Decl → SchemaGenerator → SchemaGenerator
unfolding extract_enums_from_decl extract_struct_metadata_from_decl
extract_file_metadata is_upper [] g = g
extract_file_metadata is_upper (gen_decl const_tok specs ∷ decls) g =
    extract_file_metadata is_upper decls (extract_enums_from_decl is_upper specs g)
extract_file_metadata is_upper (gen_decl type_tok specs ∷ decls) g =
    extract_file_metadata is_upper decls (extract_struct_metadata_from_decl specs g)
extract_file_metadata is_upper (_ ∷ decls) g = extract_file_metadata is_upper decls g

-- The file names of a package that are read.
is_scanned : String → Bool
unfolding has_suffix
is_scanned name = has_suffix name ".go" && not (has_suffix name "_test.go")

-- An entry of a directory, with what `parser.ParseFile` makes of the file.
pub record DirEntry : Type 0 where
  pub name : String
  pub is_dir : Bool
  pub parsed : Option (List Decl)

entries_loop : (ℕ → Bool) → List DirEntry → SchemaGenerator → Option SchemaGenerator
unfolding is_scanned extract_file_metadata
entries_loop is_upper [] g = some g
entries_loop is_upper (entry ∷ entries) g =
    let skipped = entries_loop is_upper entries g in
    if entry.is_dir || not (is_scanned entry.name) then skipped else elim entry.parsed [
      | none ↦ none
      | some decls ↦ entries_loop is_upper entries (extract_file_metadata is_upper decls g)
    ]

-- `scanPackages`, with what `os.ReadDir` answers for each package; `none` where the program exits.
unfoldable pub scan_packages :
    (ℕ → Bool) → List (Option (List DirEntry)) → SchemaGenerator → Option SchemaGenerator
unfolding entries_loop
scan_packages is_upper [] g = some g
scan_packages is_upper (none ∷ packages) g = none
scan_packages is_upper (some entries ∷ packages) g = elim (entries_loop is_upper entries g) [
  | none ↦ none
  | some scanned ↦ scan_packages is_upper packages scanned
]
