-- ===== src/Webhook/Owners/Attributes.antt =====
-- Which owner attributes a pod gets.
use e_bpf_lens.Prelude.{
  String, Bool, false, Option, none, some, List, [], ◌∷◌, ◌≡◌, refl, arith, is_empty, if◌then◌else◌,
  Map, lookup, lookup-insert, ◌==◌, eq_iff, Bool-cases, inl, inr,
}
use e_bpf_lens.Webhook.Kube.{ObjectMeta, OwnerReference}
use e_bpf_lens.Webhook.Owners.{
  Owner, owners_from, get_resource_attribute, set_attribute, add_names, add_uids,
  add_parent_resource_labels,
}

abbrev pub or_value : Option String → Option String → Option String
or_value none b = b
or_value (some a) b = some a

-- The name of the last owner whose kind has the attribute.
abbrev pub last_name : String → List Owner → Option String
last_name key [] = none
last_name key (o ∷ os) =
    or_value (last_name key os) (if get_resource_attribute o.kind == key then some o.name else none)

-- The UID of the last owner reference whose kind has the attribute.
abbrev pub last_uid : String → List OwnerReference → Option String
last_uid key [] = none
last_uid key (or ∷ ors) =
    or_value (last_uid key ors)
      (if get_resource_attribute or.kind == key then some or.uid else none)

module _ (key : String) (named : is_empty key ≡ false) where
  lookup-set_attribute :
      (k v : String) (m : Map String)
      → lookup key (set_attribute k v m) ≡ (if k == key then some v else lookup key m)
  unfolding set_attribute
  lookup-set_attribute k v m = elim (Bool-cases (is_empty k)) [
    | inl e ↦ rw (e, set_attribute) (ground (arith, eq_iff k key))
    | inr e ↦ rw (e, set_attribute) (lookup-insert k key v m)
  ]

  lookup-add_names :
      (os : List Owner) (m : Map String)
      → lookup key (add_names os m) ≡ or_value (last_name key os) (lookup key m)
  unfolding add_names
  lookup-add_names [] m = refl
  lookup-add_names (o ∷ os) m = ground (
    arith,
    lookup-add_names os (set_attribute (get_resource_attribute o.kind) o.name m),
    lookup-set_attribute (get_resource_attribute o.kind) o.name m,
  )

  lookup-add_uids :
      (ors : List OwnerReference) (m : Map String)
      → lookup key (add_uids ors m) ≡ or_value (last_uid key ors) (lookup key m)
  unfolding add_uids
  lookup-add_uids [] m = refl
  lookup-add_uids (or ∷ ors) m = ground (
    arith,
    lookup-add_uids ors (set_attribute (get_resource_attribute or.kind) or.uid m),
    lookup-set_attribute (get_resource_attribute or.kind) or.uid m,
  )

  -- Where UIDs are asked for, an attribute holds the UID of the last owner reference whose kind has
  -- the attribute. Otherwise, and for an attribute that no reference's kind has, it holds the name
  -- of the last owner whose kind has it, and where there is no such owner what it held before. The
  -- attribute's name is not empty.
  pub lookup-add_parent_resource_labels :
      (meta : ObjectMeta) (m : Map String) (include_uid : Bool)
      → lookup key (add_parent_resource_labels meta m include_uid)
        ≡ or_value
            (if include_uid then last_uid key meta.owner_references else none)
            (or_value (last_name key (owners_from meta)) (lookup key m))
  unfolding add_parent_resource_labels
  lookup-add_parent_resource_labels meta m include_uid = ground (
    arith,
    lookup-add_names (owners_from meta) m,
    lookup-add_uids meta.owner_references (add_names (owners_from meta) m),
  )
