-- ===== src/Schema/Inline/Arrival.antt =====
-- What the properties of a type are once the types that it inlines are merged into it.
use e_bpf_lens.Prelude.{
  String, false, Option, none, some, List, [], ◌∷◌, Map, lookup, Absent, All, All-weaken, ◌≡◌, refl,
  sym, ap, subst, ◌∙◌, arith, ◌==◌, eq_iff, eq_refl, Bool-cases, inl, inr,
}
use e_bpf_lens.Schema.Nodes.{
  Schema, schema, nil_properties, properties, Subschemas, no_subschemas, subschema, definition,
  definition_in, definition_at,
}
use e_bpf_lens.Schema.Passes.{get_pair}
use e_bpf_lens.Schema.Passes.Sorting.{property_at}
use e_bpf_lens.Schema.Inline.{
  merge, update_in, update_definition, inline_schema, inline_one, inline_all, process_inline_fields,
}
use e_bpf_lens.Schema.Inline.Merged.{
  first_of, first_of-none, get_pair-merge_pairs, definition_in-update_in,
}

-- `schema.Properties != nil`
abbrev pub HasProperties : Schema → Type 0
HasProperties (schema node nil_properties subs) = ⊥
HasProperties (schema node (properties ps) subs) = Unit

-- The property of a schema, if there is a schema.
abbrev property_of : String → Option Schema → Option Schema
property_of p none = none
property_of p (some i) = property_at p i

module _ (external : String → Option Schema) (p : String) where
  -- The property of an inlined type: of its definition, or where it has none of the schema that its
  -- own method gives.
  abbrev source_of : Option Schema → String → Option Schema
  source_of (some i) name = property_at p i
  source_of none name = property_of p (external name)

  -- The property of the first of the types that has it.
  abbrev first_inlined : List String → Schema → Option Schema
  first_inlined [] s = none
  first_inlined (name ∷ names) s =
      first_of (source_of (definition_at name s) name) (first_inlined names s)

  property_of-inline_schema :
      (name : String) (s : Schema)
      → property_of p (inline_schema external name s) ≡ source_of (definition_at name s) name
  unfolding inline_schema
  property_of-inline_schema name s = go (definition_at name s)
    where
      go :
          (o : Option Schema)
          → property_of p (elim o [ none ↦ external name | some d ↦ some d ]) ≡ source_of o name
      go none = refl
      go (some d) = refl

  property_at-merge_first :
      (i d : Schema)
      → HasProperties d
      → (property_at p (merge i d) ≡ first_of (property_at p d) (property_at p i))
        × HasProperties (merge i d)
  unfolding merge
  property_at-merge_first i (schema node nil_properties subs) h = absurd h
  property_at-merge_first (schema n nil_properties x) (schema node (properties into) subs) h =
      (first_of-none (get_pair p into), tt)
  property_at-merge_first (schema n (properties from) x) (schema node (properties into) subs) h =
      (get_pair-merge_pairs p from into, tt)

  -- The type has a definition with properties, and `p` is among them if `o` says so.
  abbrev Gets : Schema → String → Option Schema → Type 0
  Gets s type_name o =
      (d : Schema) × (definition_at type_name s ≡ some d) × HasProperties d × (property_at p d ≡ o)

  merge-Gets :
      (type_name : String) (i : Option Schema) (s : Schema) (o : Option Schema)
      → Gets s type_name o
      → Gets
          (elim i [ none ↦ s | some d ↦ update_definition type_name (merge d) s ])
          type_name
          (first_of o (property_of p i))
  unfolding update_definition definition_at
  merge-Gets type_name none s o (d, found, has, at) = (d, found, has, at ∙ first_of-none o)
  merge-Gets type_name (some i) (schema node ps subs) o (d, found, has, at) =
      let (merged, has') = property_at-merge_first i d has in
      (
        merge i d,
        definition_in-update_in type_name type_name (merge i) subs d found
            ∙ rw (eq_refl type_name) refl,
        has',
        merged ∙ rw at refl,
      )

  inline_one-Gets :
      (type_name name : String) (s : Schema) (o : Option Schema)
      → Gets s type_name o
      → Gets
          (inline_one external type_name name s)
          type_name
          (first_of o (source_of (definition_at name s) name))
  unfolding inline_one
  inline_one-Gets type_name name s o h =
      subst (λ x. Gets (inline_one external type_name name s) type_name (first_of o x))
        (property_of-inline_schema name s)
        (merge-Gets type_name (inline_schema external name s) s o h)

  -- The definition of another type stays.
  definition_in-other :
      (asked name : String) (f : Schema → Schema) (subs : Subschemas)
      → (name == asked) ≡ false
      → definition_in asked (update_in name f subs) ≡ definition_in asked subs
  unfolding definition_in update_in
  definition_in-other asked name f no_subschemas h = refl
  definition_in-other asked name f (subschema (definition n) value subs) h =
      let further = definition_in-other asked name f subs h in
      elim (Bool-cases (n == name)) [
        | inl same ↦ rw same (ground (arith, eq_iff n name, eq_iff n asked, eq_iff name asked))
        | inr other ↦ rw other (ground (arith, further))
      ]
  definition_in-other asked name f (subschema slot value subs) h =
      definition_in-other asked name f subs h

  inline_one-other :
      (asked type_name name : String) (s : Schema)
      → (type_name == asked) ≡ false
      → definition_at asked (inline_one external type_name name s) ≡ definition_at asked s
  unfolding inline_one update_definition definition_at
  inline_one-other asked type_name name (schema node ps subs) h =
      go (inline_schema external name (schema node ps subs))
    where
      go :
          (o : Option Schema)
          → definition_at asked (elim o [
            | none ↦ schema node ps subs
            | some d ↦ update_definition type_name (merge d) (schema node ps subs)
          ])
            ≡ definition_in asked subs
      go none = refl
      go (some d) = definition_in-other asked type_name (merge d) subs h

  inline_all-other :
      (asked type_name : String) (names : List String) (s : Schema)
      → (type_name == asked) ≡ false
      → definition_at asked (inline_all external type_name names s) ≡ definition_at asked s
  unfolding inline_all
  inline_all-other asked type_name [] s h = refl
  inline_all-other asked type_name (name ∷ names) s h =
      inline_all-other asked type_name names (inline_one external type_name name s) h
      ∙ inline_one-other asked type_name name s h

  -- One entry of the table.
  abbrev entry_step : String → List String → Option Schema → Schema → Schema
  entry_step type_name names o s = elim o [
    | none ↦ s
    | some d ↦ inline_all external type_name names s
  ]

  entry_step-other :
      (asked type_name : String) (names : List String) (o : Option Schema) (s : Schema)
      → (type_name == asked) ≡ false
      → definition_at asked (entry_step type_name names o s) ≡ definition_at asked s
  entry_step-other asked type_name names none s h = refl
  entry_step-other asked type_name names (some d) s h = inline_all-other asked type_name names s h

  process_inline_fields-other :
      (asked : String) (fields : Map (List String)) (s : Schema)
      → Absent asked fields
      → definition_at asked (process_inline_fields external fields s) ≡ definition_at asked s
  unfolding process_inline_fields
  process_inline_fields-other asked [] s h = refl
  process_inline_fields-other asked ((t, types) ∷ fields) s (ht, h) =
      process_inline_fields-other asked fields (entry_step t types (definition_at t s) s) h
      ∙ entry_step-other asked t types (definition_at t s) s ht

  -- The types are not the one whose definition changes.
  abbrev Others : String → List String → Type 0
  Others t names = All (λ n. (t == n) ≡ false) names

  -- Where the definitions of the types are the same, so is what they bring.
  first_inlined-same :
      (names : List String) (s s' : Schema)
      → All (λ n. definition_at n s' ≡ definition_at n s) names
      → first_inlined names s' ≡ first_inlined names s
  first_inlined-same [] s s' h = refl
  first_inlined-same (name ∷ names) s s' (e, h) = rw (e, first_inlined-same names s s' h) refl

  first_of_assoc : (a b c : Option Schema) → first_of (first_of a b) c ≡ first_of a (first_of b c)
  first_of_assoc none b c = refl
  first_of_assoc (some a) b c = refl

  inline_all-Gets :
      (type_name : String) (names : List String) (s : Schema) (o : Option Schema)
      → Others type_name names
      → Gets s type_name o
      → Gets (inline_all external type_name names s) type_name (first_of o (first_inlined names s))
  unfolding inline_all
  inline_all-Gets type_name [] s o others h = subst (Gets s type_name) (first_of-none o) h
  inline_all-Gets type_name (name ∷ names) s o (ne, others) h =
      let s' = inline_one external type_name name s in
      subst (Gets (inline_all external type_name names s') type_name)
        (first_of_assoc o (source_of (definition_at name s) name) (first_inlined names s')
          ∙ ap (λ x. first_of o (first_of (source_of (definition_at name s) name) x))
              (first_inlined-same names s s' (
                All-weaken (λ n. (type_name == n) ≡ false)
                  (λ n. definition_at n s' ≡ definition_at n s)
                  (λ n h. inline_one-other n type_name name s h) names others)))
        (inline_all-Gets type_name names s' (first_of o (source_of (definition_at name s) name))
          others (inline_one-Gets type_name name s o h))

  Gets-same :
      (type_name : String) (s s' : Schema) (o : Option Schema)
      → definition_at type_name s' ≡ definition_at type_name s
      → Gets s type_name o
      → Gets s' type_name o
  Gets-same type_name s s' o e (d, found, has, at) = (d, e ∙ found, has, at)

  entry-Gets :
      (type_name : String) (names : List String) (fields : Map (List String)) (s : Schema)
      (o : Option Schema)
      → Absent type_name fields
      → Others type_name names
      → Gets s type_name o
      → Gets
          (process_inline_fields external ((type_name, names) ∷ fields) s)
          type_name
          (first_of o (first_inlined names s))
  unfolding process_inline_fields
  entry-Gets type_name names fields s o absent others h = rw h.1 (
      Gets-same type_name (inline_all external type_name names s)
        (process_inline_fields external fields (inline_all external type_name names s))
        (first_of o (first_inlined names s))
        (process_inline_fields-other type_name fields (inline_all external type_name names s)
          absent)
        (inline_all-Gets type_name names s o others h))

  -- The table of a Go map: no type has two entries.
  abbrev IsTable : Map (List String) → Type 0
  IsTable [] = Unit
  IsTable ((t, types) ∷ fields) = Absent t fields × IsTable fields

  process_inline_fields-Gets :
      (type_name : String) (fields : Map (List String)) (names : List String) (s : Schema)
      (o : Option Schema)
      → IsTable fields
      → lookup type_name fields ≡ some names
      → All (λ n. Absent n fields) names
      → Gets s type_name o
      → Gets
          (process_inline_fields external fields s)
          type_name
          (first_of o (first_inlined names s))
  unfolding process_inline_fields lookup
  process_inline_fields-Gets type_name [] names s o table entry flat h = cc
  process_inline_fields-Gets type_name ((t, types) ∷ fields) names s o (absent, table) entry flat
        h =
      elim (Bool-cases (t == type_name)) [
        | inl same ↦
            let e : t ≡ type_name = (eq_iff t type_name).0 same in
            subst
              (λ m.
                Gets (process_inline_fields external ((m, types) ∷ fields) s) type_name
                  (first_of o (first_inlined names s)))
              (sym e)
              (subst
                (λ ns.
                  Gets (process_inline_fields external ((type_name, ns) ∷ fields) s) type_name
                    (first_of o (first_inlined names s)))
                (let x : names ≡ types = ground (arith, entry, same) in x)
                (entry-Gets type_name names fields s o (subst (λ m. Absent m fields) e absent)
                  (subst (λ m. Others m names) e (others names flat)) h))
        | inr other ↦
            let s' = entry_step t types (definition_at t s) s in
            subst (λ x. Gets (process_inline_fields external fields s') type_name (first_of o x))
              (first_inlined-same names s s' (
                All-weaken (λ n. (t == n) ≡ false) (λ n. definition_at n s' ≡ definition_at n s)
                  (λ n ne. entry_step-other n t types (definition_at t s) s ne) names
                  (others names flat)))
              (process_inline_fields-Gets type_name fields names s' o table
                (ground (arith, entry, other))
                (All-weaken (λ n. Absent n ((t, types) ∷ fields)) (λ n. Absent n fields)
                  (λ n a. a.1) names flat)
                (Gets-same type_name s s' o
                  (entry_step-other type_name t types (definition_at t s) s other) h))
      ]
    where
      others :
          (names : List String) → All (λ n. Absent n ((t, types) ∷ fields)) names → Others t names
      others names flat =
          All-weaken (λ n. Absent n ((t, types) ∷ fields)) (λ n. (t == n) ≡ false) (λ n a. a.0)
            names flat

  -- After processInlineFields, in whatever order the table is read: a type that has a definition with
  -- properties still has one, in which each property is what the type had itself, else what the first
  -- of the types that it inlines has that has it, be it in its definition or, where it has none, in
  -- the schema of its own method. The table has one entry for a type, and the inlined types inline
  -- none themselves.
  pub property_at-process_inline_fields :
      (type_name : String) (fields : Map (List String)) (names : List String) (s d : Schema)
      → IsTable fields
      → lookup type_name fields ≡ some names
      → All (λ n. Absent n fields) names
      → definition_at type_name s ≡ some d
      → HasProperties d
      → (e : Schema) × (definition_at type_name (process_inline_fields external fields s) ≡ some e)
        × HasProperties e
        × (property_at p e ≡ first_of (property_at p d) (first_inlined names s))
  property_at-process_inline_fields type_name fields names s d table entry flat found has =
      process_inline_fields-Gets type_name fields names s (property_at p d) table entry flat
        (d, found, has, refl)
