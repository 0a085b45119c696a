-- ===== src/Schema/Tags/Printed.antt =====
-- `extractTagValue` on the tags that Go's compiler and its `reflect` package take as well formed.
use e_bpf_lens.Prelude.{
  ℕ, String, Char, code, Bool, true, false, none, some, [], ◌∷◌, All, Map, lookup, or_else, ◌≡◌,
  refl, sym, ap, ◌∙◌, subst, ◌==◌, eq_iff, eq_refl, arith, eqb, if◌then◌else◌, ◌⧺◌, drop_prefix,
  has_suffix, split_once, LacksCode, append_assoc,
}
use Prim.Native.Nat.{Ordering, compare as compare_ℕ}
use Prim.Native.String.compare
use Prim.Native.String.{compare, then}
use text.Mathlib.Text.{is_eq}
use e_bpf_lens.Schema.Tags.{after_first, quoted, extract_tag_value}

is_eq-then : (o r : Ordering) → is_eq ((then) o r) ≡ (if is_eq o then is_eq r else false)
is_eq-then Ordering.lt r = refl
is_eq-then Ordering.eq r = refl
is_eq-then Ordering.gt r = refl

-- `==` on texts, character by character.
cons-eq :
    (c d : Char) (s t : String)
    → (String.◌∷◌ c s == String.◌∷◌ d t) ≡ (if eqb (code c) (code d) then s == t else false)
cons-eq c d s t =
    rw (compare.cons-cons c d s t) (is_eq-then (compare_ℕ (code c) (code d)) (compare s t))

nil-eq : (d : Char) (t : String) → ("" == String.◌∷◌ d t) ≡ false
nil-eq d t = rw (compare.nil-cons d t)

eq-nil : (d : Char) (t : String) → (String.◌∷◌ d t == "") ≡ false
eq-nil d t = rw (compare.cons-nil d t)

-- Two texts that hold no quote, each with a quote behind it: the one begins the other only if they
-- are the same.
drop_prefix-quoted :
    (a b t : String)
    → LacksCode b'"' a
    → LacksCode b'"' b
    → drop_prefix (a ⧺ "\"") (b ⧺ "\"" ⧺ t) ≡ (if b == a then some t else none)
unfolding drop_prefix
drop_prefix-quoted String.[] String.[] t ha hb = refl
drop_prefix-quoted String.[] (String.◌∷◌ d b) t ha hb = ground (arith, eq-nil d b, hb.0)
drop_prefix-quoted (String.◌∷◌ c a) String.[] t ha hb = ground (arith, nil-eq c a, ha.0)
drop_prefix-quoted (String.◌∷◌ c a) (String.◌∷◌ d b) t ha hb =
    rw (drop_prefix-quoted a b t ha.1 hb.1) (ground (arith, cons-eq d c b a))

after_first_step :
    (needle t : String) (c : Char) (s : String) (p : Bool)
    → drop_prefix needle (String.◌∷◌ c s) ≡ (if p then some t else none)
    → after_first needle (String.◌∷◌ c s) ≡ (if p then some t else after_first needle s)
unfolding after_first
after_first_step needle t c s true h = rw (h, after_first) refl
after_first_step needle t c s false h = rw (h, after_first) refl

-- The first place where a text with a quote behind it occurs: at the end of what stands in front of
-- a quote.
after_first-quoted :
    (a b t : String)
    → LacksCode b'"' a
    → LacksCode b'"' b
    → after_first (a ⧺ "\"") (b ⧺ "\"" ⧺ t)
      ≡ (if has_suffix b a then some t else after_first (a ⧺ "\"") t)
unfolding after_first has_suffix
after_first-quoted String.[] String.[] t ha hb = refl
after_first-quoted (String.◌∷◌ c a) String.[] t ha hb =
    rw (drop_prefix-quoted (String.◌∷◌ c a) "" t ha hb, nil-eq c a, after_first) refl
after_first-quoted a (String.◌∷◌ d b) t ha hb =
    after_first_step (a ⧺ "\"") t d (b ⧺ "\"" ⧺ t) (String.◌∷◌ d b == a)
      (drop_prefix-quoted a (String.◌∷◌ d b) t ha hb)
    ∙ ground (arith, after_first-quoted a b t ha hb.1)

LacksCode-append : (n : ℕ) (s t : String) → LacksCode n s → LacksCode n t → LacksCode n (s ⧺ t)
LacksCode-append n String.[] t hs ht = ht
LacksCode-append n (String.◌∷◌ c s) t hs ht = (hs.0, LacksCode-append n s t hs.1 ht)

split_once-quoted : (v t : String) → LacksCode b'"' v → split_once b'"' (v ⧺ "\"" ⧺ t) ≡ some (v, t)
unfolding split_once
split_once-quoted String.[] t h = refl
split_once-quoted (String.◌∷◌ c v) t h = rw (h.0) (rw (split_once-quoted v t h.1) refl)

-- What stands in front of a quote is read.
quoted_append : (v t : String) → LacksCode b'"' v → quoted (some (v ⧺ "\"" ⧺ t)) ≡ v
unfolding quoted
quoted_append v t h = rw (split_once-quoted v t h, quoted) refl

append_colon-nil : (b : String) → ((b ⧺ ":") == "") ≡ false
append_colon-nil String.[] = refl
append_colon-nil (String.◌∷◌ d b) = eq-nil d (b ⧺ ":")

nil-append_colon : (b : String) → ("" == (b ⧺ ":")) ≡ false
nil-append_colon String.[] = refl
nil-append_colon (String.◌∷◌ d b) = nil-eq d (b ⧺ ":")

append_colon-eq : (a b : String) → ((b ⧺ ":") == (a ⧺ ":")) ≡ (b == a)
append_colon-eq String.[] String.[] = refl
append_colon-eq String.[] (String.◌∷◌ d b) =
    ground (arith, cons-eq d ":" (b ⧺ ":") "", append_colon-nil b, eq-nil d b)
append_colon-eq (String.◌∷◌ c a) String.[] =
    ground (arith, cons-eq ":" c "" (a ⧺ ":"), nil-append_colon a, nil-eq c a)
append_colon-eq (String.◌∷◌ c a) (String.◌∷◌ d b) =
    rw (cons-eq d c (b ⧺ ":") (a ⧺ ":"), cons-eq d c b a) (rw (append_colon-eq a b) refl)

has_suffix-colon : (b a : String) → has_suffix (b ⧺ ":") (a ⧺ ":") ≡ has_suffix b a
unfolding has_suffix
has_suffix-colon String.[] String.[] = refl
has_suffix-colon String.[] (String.◌∷◌ c a) =
    ground (arith, cons-eq ":" c "" (a ⧺ ":"), nil-append_colon a)
has_suffix-colon (String.◌∷◌ d b) a =
    ground (arith, append_colon-eq a (String.◌∷◌ d b), has_suffix-colon b a)

has_suffix_refl : (s : String) → has_suffix s s ≡ true
unfolding has_suffix
has_suffix_refl String.[] = refl
has_suffix_refl (String.◌∷◌ c s) = ground (arith, eq_refl (String.◌∷◌ c s))

-- Entries `key:"value"`, one space between them and `sep` in front.
abbrev printed_from : String → Map String → String
printed_from sep [] = ""
printed_from sep ((k, v) ∷ tags) = (sep ⧺ k ⧺ ":") ⧺ "\"" ⧺ v ⧺ "\"" ⧺ printed_from " " tags

-- The text of a struct tag.
abbrev pub printed : Map String → String
printed tags = printed_from "" tags

-- An entry holds no quote, and `key` is found in it only as its own key: no longer key ends with
-- `key`, and no value with `key:`.
abbrev pub IsClear : String → String × String → Type 0
IsClear key (k, v) =
    LacksCode b'"' k
    × LacksCode b'"' v
    × (has_suffix k key ≡ true → k ≡ key)
    × (has_suffix v (key ⧺ ":") ≡ false)

has_suffix-key :
    (k key : String) → (has_suffix k key ≡ true → k ≡ key) → has_suffix k key ≡ (k == key)
has_suffix-key k key only = ground (
  arith,
  only,
  eq_iff k key,
  λ (e : k ≡ key). subst (λ x. has_suffix k x ≡ true) e (has_suffix_refl k),
)

has_suffix-nil : (s : String) → has_suffix s "" ≡ true
unfolding has_suffix
has_suffix-nil String.[] = refl
has_suffix-nil (String.◌∷◌ c s) = ground (arith, has_suffix-nil s)

-- What is asked of the text in front of a key: it is no part of it.
abbrev Separates : String → String → Type 0
Separates sep key = (k : String) → has_suffix (sep ⧺ k) key ≡ has_suffix k key

space-Separates : (key : String) → LacksCode 32 key → Separates " " key
unfolding has_suffix
space-Separates String.[] h k = ground (arith, has_suffix-nil k)
space-Separates (String.◌∷◌ c key) h k = ground (arith, cons-eq " " c k key)

after_first-printed_from :
    (key sep k v : String) (tags : Map String)
    → LacksCode b'"' key
    → LacksCode b'"' sep
    → Separates sep key
    → IsClear key (k, v)
    → after_first ((key ⧺ ":") ⧺ "\"") (printed_from sep ((k, v) ∷ tags)) ≡ (
        if k == key
        then some (v ⧺ "\"" ⧺ printed_from " " tags)
        else after_first ((key ⧺ ":") ⧺ "\"") (printed_from " " tags))
after_first-printed_from key sep k v tags hkey hsep separates (hk, hv, only, clear) =
    after_first-quoted (key ⧺ ":") (sep ⧺ k ⧺ ":") (v ⧺ "\"" ⧺ printed_from " " tags)
      (LacksCode-append b'"' key ":" hkey (refl, tt))
      (LacksCode-append b'"' sep (k ⧺ ":") hsep (LacksCode-append b'"' k ":" hk (refl, tt)))
    ∙ rw
        (
          found,
          after_first-quoted (key ⧺ ":") v (printed_from " " tags)
              (LacksCode-append b'"' key ":" hkey (refl, tt)) hv,
          clear,
        )
        refl
  where
    found : has_suffix (sep ⧺ k ⧺ ":") (key ⧺ ":") ≡ (k == key)
    found =
        sym (ap (λ s. has_suffix s (key ⧺ ":")) (append_assoc sep k ":"))
        ∙ has_suffix-colon (sep ⧺ k) key
        ∙ separates k
        ∙ has_suffix-key k key only

quoted-nil : (key : String) → quoted (after_first ((key ⧺ ":") ⧺ "\"") "") ≡ ""
unfolding after_first quoted drop_prefix
quoted-nil String.[] = refl
quoted-nil (String.◌∷◌ c key) = refl

quoted-printed_from :
    (key sep : String) (tags : Map String)
    → LacksCode b'"' key
    → LacksCode 32 key
    → LacksCode b'"' sep
    → Separates sep key
    → All (IsClear key) tags
    → quoted (after_first ((key ⧺ ":") ⧺ "\"") (printed_from sep tags))
      ≡ or_else (lookup key tags) ""
unfolding lookup
quoted-printed_from key sep [] hkey hspace hsep separates clear = quoted-nil key
quoted-printed_from key sep ((k, v) ∷ tags) hkey hspace hsep separates (c, clear) =
    rw (after_first-printed_from key sep k v tags hkey hsep separates c) (
      ground (
        arith,
        quoted_append v (printed_from " " tags) c.1,
        quoted-printed_from key " " tags hkey hspace (refl, tt) (space-Separates key hspace) clear,
      ))

-- On the text of a tag, extractTagValue finds the value that stands under the key, or the empty text
-- where there is none, if no longer key of the tag ends with that key and no value ends with the key
-- and a colon.
pub extract_tag_value-printed :
    (tags : Map String) (key : String)
    → LacksCode b'"' key
    → LacksCode 32 key
    → All (IsClear key) tags
    → extract_tag_value (printed tags) key ≡ or_else (lookup key tags) ""
unfolding extract_tag_value
extract_tag_value-printed tags key hkey hspace clear =
    subst (λ n. quoted (after_first n (printed tags)) ≡ or_else (lookup key tags) "")
      (append_assoc key ":" "\"") (quoted-printed_from key "" tags hkey hspace tt (λ k. refl) clear)
