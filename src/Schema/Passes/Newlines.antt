-- ===== src/Schema/Passes/Newlines.antt =====
-- No description keeps a newline.
use e_bpf_lens.Prelude.{
  ℕ, String, code, true, List, ◌≤◌, ◌≡◌, refl, arith, Bool-cases, inl, inr, eqb, is_empty,
  LacksCode,
}
use e_bpf_lens.Schema.Nodes.{Node, Schema, schema, depth}
use e_bpf_lens.Schema.Nodes.Visits.{Own, Reaches, visit_nested_schemas-Reaches}
use e_bpf_lens.Schema.Passes.{newlines_replaced, normalize_description, normalize_descriptions}

newlines_replaced-LacksCode : (s : String) → LacksCode b'\n' (newlines_replaced s)
unfolding newlines_replaced
newlines_replaced-LacksCode String.[] = tt
newlines_replaced-LacksCode (String.◌∷◌ c s) = (
  elim (Bool-cases (eqb (code c) b'\n')) [
    | inl newline ↦ rw newline refl
    | inr other ↦ rw other other
  ],
  newlines_replaced-LacksCode s,
)

-- The description is one line.
abbrev IsOneLine : Node → List String → Type 0
IsOneLine node names = LacksCode b'\n' node.description

is_empty-LacksCode : (n : ℕ) (s : String) → is_empty s ≡ true → LacksCode n s
is_empty-LacksCode n String.[] h = tt
is_empty-LacksCode n (String.◌∷◌ c s) h = cc

normalize_description-flat : (s : Schema) → depth (normalize_description s) ≤ depth s
unfolding normalize_description depth
normalize_description-flat (schema node ps subs) = elim (Bool-cases (is_empty node.description)) [
  | inl empty ↦ rw empty (omega arith)
  | inr other ↦ rw other (omega arith)
]

normalize_description-IsOneLine : (s : Schema) → Own IsOneLine (normalize_description s)
unfolding normalize_description
normalize_description-IsOneLine (schema node ps subs) =
    elim (Bool-cases (is_empty node.description)) [
      | inl empty ↦ rw empty (is_empty-LacksCode b'\n' node.description empty)
      | inr other ↦ rw other (newlines_replaced-LacksCode node.description)
    ]

-- normalizeDescriptions ends within as many rounds as the schema is deep, and leaves no newline in a
-- description: neither of the schema nor, at any depth, of those in its properties and in its other
-- fields but PropertyNames and ContentSchema.
normalize_descriptions-IsOneLine :
    (n : ℕ) (s : Schema) → depth s ≤ n → Reaches IsOneLine (normalize_descriptions n) s
unfolding normalize_descriptions
normalize_descriptions-IsOneLine n s h =
    visit_nested_schemas-Reaches IsOneLine normalize_description normalize_description-flat
      normalize_description-IsOneLine n s h
