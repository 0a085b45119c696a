-- ===== src/Schema/Inline/Merged.antt =====
-- Inlining keeps what a definition has, and brings what the inlined types have.
use e_bpf_lens.Prelude.{
  String, Bool, true, false, Option, none, some, List, [], ◌∷◌, Map, ◌≡◌, refl, subst, ◌∙◌, arith,
  ◌==◌, eq_iff, Bool-cases, Option-cases, inl, inr, if◌then◌else◌,
}
use e_bpf_lens.Schema.Nodes.{
  definition, Schema, schema, nil_properties, properties, Pairs, no_pairs, pair, Subschemas,
  no_subschemas, subschema, definition_in, definition_at,
}
use e_bpf_lens.Schema.Passes.{get_pair, set_pair}
use e_bpf_lens.Schema.Passes.Sorting.{property_at, get_pair-set_pair}
use e_bpf_lens.Schema.Inline.{
  merge_pairs, merge, update_in, update_definition, inline_schema, inline_one, inline_all,
  process_inline_fields,
}

-- The first that is there.
abbrev pub first_of : Option Schema → Option Schema → Option Schema
first_of none other = other
first_of (some s) other = some s

pub first_of-none : (o : Option Schema) → o ≡ first_of o none
first_of-none none = refl
first_of-none (some s) = refl

first_of-if :
    (o c : Option Schema) (b : Bool) (value : Schema)
    → first_of (first_of o (if b then some value else none)) c
      ≡ first_of o (if b then some value else c)
first_of-if none c true value = refl
first_of-if none c false value = refl
first_of-if (some s) c b value = refl

set_absent :
    (q key : String) (value : Schema) (into : Pairs)
    → get_pair key into ≡ none
    → get_pair q (set_pair key value into)
      ≡ first_of (get_pair q into) (if key == q then some value else none)
set_absent q key value into absent =
    rw (get_pair-set_pair key value q into) (elim (Bool-cases (key == q)) [
      | inl same ↦
          rw (same, subst (λ k. get_pair k into ≡ none) ((eq_iff key q).0 same) absent) refl
      | inr other ↦ rw other (first_of-none (get_pair q into))
    ])

pub get_pair-merge_pairs :
    (q : String) (from into : Pairs)
    → get_pair q (merge_pairs from into) ≡ first_of (get_pair q into) (get_pair q from)
unfolding merge_pairs get_pair
get_pair-merge_pairs q no_pairs into = first_of-none (get_pair q into)
get_pair-merge_pairs q (pair key value pairs) into = elim (Option-cases (get_pair key into)) [
  | inl absent ↦ rw absent (
      get_pair-merge_pairs q pairs (set_pair key value into)
      ∙ rw (set_absent q key value into absent)
          (first_of-if (get_pair q into) (get_pair q pairs) (key == q) value))
  | inr (v, found) ↦ rw found (
      get_pair-merge_pairs q pairs into ∙ elim (Bool-cases (key == q)) [
        | inl same ↦ rw (subst (λ k. get_pair k into ≡ some v) ((eq_iff key q).0 same) found) refl
        | inr other ↦ rw other refl
      ])
]

-- The definition of the type has the property, with that schema.
abbrev pub HasProperty : Schema → String → String → Schema → Type 0
HasProperty s type_name key v =
    (d : Schema) × (definition_at type_name s ≡ some d) × (property_at key d ≡ some v)

-- No property of a definition is lost or changed.
abbrev pub Keeps : Schema → Schema → Type 0
Keeps s t =
    (type_name key : String) (v : Schema)
    → HasProperty s type_name key v
    → HasProperty t type_name key v

property_at-merge :
    (key : String) (i d v : Schema)
    → property_at key d ≡ some v
    → property_at key (merge i d) ≡ some v
unfolding merge
property_at-merge key (schema n nil_properties x) (schema node ps subs) v h = h
property_at-merge key (schema n (properties from) x) (schema node nil_properties subs) v h = cc
property_at-merge key (schema n (properties from) x) (schema node (properties into) subs) v h =
    rw (get_pair-merge_pairs key from into) (rw h refl)

pub definition_in-update_in :
    (asked name : String) (f : Schema → Schema) (subs : Subschemas) (d : Schema)
    → definition_in asked subs ≡ some d
    → definition_in asked (update_in name f subs) ≡ some (if name == asked then f d else d)
unfolding definition_in update_in
definition_in-update_in asked name f no_subschemas d h = cc
definition_in-update_in asked name f (subschema (definition n) value subs) d h =
    let further = definition_in-update_in asked name f subs d in
    elim (Bool-cases (n == name)) [
      | inl same ↦ rw same (ground (arith, eq_iff n name, eq_iff n asked, eq_iff name asked))
      | inr other ↦
          rw other (ground (arith, further, eq_iff n name, eq_iff n asked, eq_iff name asked))
    ]
definition_in-update_in asked name f (subschema slot value subs) d h =
    definition_in-update_in asked name f subs d h

merge-Keeps :
    (type_name : String) (i s : Schema) → Keeps s (update_definition type_name (merge i) s)
unfolding update_definition definition_at
merge-Keeps type_name i (schema node ps subs) asked key v (d, found, has) = (
  (if type_name == asked then merge i d else d),
  definition_in-update_in asked type_name (merge i) subs d found,
  kept (type_name == asked),
)
  where
    kept : (b : Bool) → property_at key (if b then merge i d else d) ≡ some v
    kept true = property_at-merge key i d v has
    kept false = has

module _ (external : String → Option Schema) where
  inline_one-Keeps :
      (type_name inline_name : String) (s : Schema)
      → Keeps s (inline_one external type_name inline_name s)
  unfolding inline_one
  inline_one-Keeps type_name inline_name s = go (inline_schema external inline_name s)
    where
      go :
          (o : Option Schema)
          → Keeps s (elim o [ none ↦ s | some d ↦ update_definition type_name (merge d) s ])
      go none = λ asked key v h. h
      go (some d) = merge-Keeps type_name d s

  inline_all-Keeps :
      (type_name : String) (names : List String) (s : Schema)
      → Keeps s (inline_all external type_name names s)
  unfolding inline_all
  inline_all-Keeps type_name [] s asked key v h = h
  inline_all-Keeps type_name (name ∷ names) s asked key v h =
      inline_all-Keeps type_name names (inline_one external type_name name s) asked key v
        (inline_one-Keeps type_name name s asked key v h)

  -- processInlineFields loses no property of a definition and changes none, in whatever order the
  -- table is read.
  pub process_inline_fields-Keeps :
      (fields : Map (List String)) (s : Schema) → Keeps s (process_inline_fields external fields s)
  unfolding process_inline_fields
  process_inline_fields-Keeps [] s asked key v h = h
  process_inline_fields-Keeps ((type_name, inline_types) ∷ fields) s asked key v h =
      process_inline_fields-Keeps fields (step (definition_at type_name s)) asked key v
        (go (definition_at type_name s))
    where
      step : Option Schema → Schema
      step o = elim o [ none ↦ s | some d ↦ inline_all external type_name inline_types s ]

      go : (o : Option Schema) → HasProperty (step o) asked key v
      go none = h
      go (some d) = inline_all-Keeps type_name inline_types s asked key v h
