-- ===== src/Schema/Tags.antt =====
-- `extractTagValue` of cmd/beyla-schema/main.go: the value under a key of a struct tag.
pub mod Printed
use e_bpf_lens.Prelude.{String, Option, none, some, ◌⧺◌, drop_prefix, split_once}

-- What stands behind the first place where `needle` occurs: `s[idx+len(needle):]`, with `idx` from
-- `strings.Index(s, needle)`, or `none` where that index is -1.
pub after_first : String → String → Option String
unfolding drop_prefix
after_first needle String.[] = drop_prefix needle ""
after_first needle (String.◌∷◌ c s) =
    let further = after_first needle s in
    elim (drop_prefix needle (String.◌∷◌ c s)) [ none ↦ further | some rest ↦ some rest ]

-- `tag[start:]` up to its first quote.
pub quoted : Option String → String
unfolding split_once
quoted none = ""
quoted (some rest) = elim (split_once b'"' rest) [ none ↦ "" | some (value, _) ↦ value ]

-- `extractTagValue`
unfoldable pub extract_tag_value : String → String → String
unfolding after_first quoted
extract_tag_value tag key = quoted (after_first (key ⧺ ":\"") tag)
