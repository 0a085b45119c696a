-- ===== src/Webhook/Container/Namespace.antt =====
-- The namespace that is read from a link.
use e_bpf_lens.Prelude.{
  Char, ℕ, suc, ◌+◌, ◌-◌, String, code, true, none, some, ◌≡◌, refl, ap, sym, ◌∙◌, arith, ltb, eqb,
  ◌⧺◌, LacksCode, append_assoc,
}
use e_bpf_lens.Int64.{parse_uint}
use e_bpf_lens.Webhook.Container.{
  last_index, drop_chars, take_chars, slice, number_or_error, find_namespace,
}

abbrev size : String → ℕ
size String.[] = 0
size (String.◌∷◌ c s) = suc (size s)

last_index-LacksCode : (c : ℕ) (s : String) → LacksCode c s → last_index c s ≡ none
unfolding last_index
last_index-LacksCode c String.[] h = refl
last_index-LacksCode c (String.◌∷◌ d s) (h, hs) =
    let further = last_index-LacksCode c s hs in rw further (rw h refl)

-- An occurrence at the front of `s` that is its last one is the last one of `p ⧺ s` too.
last_index-append :
    (c : ℕ) (p s : String) → last_index c s ≡ some 0 → last_index c (p ⧺ s) ≡ some (size p)
unfolding last_index
last_index-append c String.[] s h = h
last_index-append c (String.◌∷◌ d p) s h =
    let further = last_index-append c p s h in rw further refl

drop_chars-append : (p s : String) → drop_chars (size p) (p ⧺ s) ≡ s
unfolding drop_chars
drop_chars-append String.[] s = refl
drop_chars-append (String.◌∷◌ c p) s = drop_chars-append p s

take_chars-append : (p s : String) → take_chars (size p) (p ⧺ s) ≡ p
unfolding take_chars
take_chars-append String.[] s = refl
take_chars-append (String.◌∷◌ c p) s = ap (String.◌∷◌ c) (take_chars-append p s)

size-append : (p s : String) → size (p ⧺ s) ≡ size p + size s
size-append String.[] s = omega arith
size-append (String.◌∷◌ c p) s = omega (arith, size-append p s)

LacksCode-append : (c : ℕ) (s t : String) → LacksCode c s → LacksCode c t → LacksCode c (s ⧺ t)
LacksCode-append c String.[] t h k = k
LacksCode-append c (String.◌∷◌ d s) t (h, hs) k = (h, LacksCode-append c s t hs k)

last_index_here :
    (c : ℕ) (d : Char) (s : String)
    → eqb (code d) c ≡ true
    → LacksCode c s
    → last_index c (String.◌∷◌ d s) ≡ some 0
unfolding last_index
last_index_here c d s e h = rw (last_index-LacksCode c s h) (rw e refl)

slice-brackets : (p b t : String) → slice (size p + 1) (size p + suc (size b)) (p ⧺ "[" ⧺ b ⧺ t) ≡ b
slice-brackets p b t =
    let front : size (p ⧺ "[") ≡ size p + 1 = size-append p "[" in
    let behind : drop_chars (size p + 1) (p ⧺ "[" ⧺ b ⧺ t) ≡ b ⧺ t =
      rw (← front) (rw (← append_assoc p "[" (b ⧺ t)) (drop_chars-append (p ⧺ "[") (b ⧺ t))) in
    let inside : (size p + suc (size b)) - (size p + 1) ≡ size b = omega arith in
    rw behind (rw inside (take_chars-append b t))

-- The link of a namespace, as the kernel writes it: the number that findNamespace returns is the
-- one between the brackets, whatever stands before them, as long as no bracket stands between or
-- behind them; a text that is no number below 2^32 is an error.
pub find_namespace-brackets :
    (p b q : String)
    → LacksCode b'[' b
    → LacksCode b']' b
    → LacksCode b'[' q
    → LacksCode b']' q
    → find_namespace true (some (p ⧺ "[" ⧺ b ⧺ "]" ⧺ q)) ≡ number_or_error (parse_uint 32 b)
unfolding find_namespace
find_namespace-brackets p b q open_b close_b open_q close_q =
    let rest = b ⧺ "]" ⧺ q in
    let first : last_index b'[' (p ⧺ "[" ⧺ rest) ≡ some (size p) =
      last_index-append b'[' p ("[" ⧺ rest) (
        last_index_here b'[' "[" rest refl
          (LacksCode-append b'[' b ("]" ⧺ q) open_b (refl, open_q))) in
    let last : last_index b']' ((p ⧺ "[" ⧺ b) ⧺ "]" ⧺ q) ≡ some (size (p ⧺ "[" ⧺ b)) =
      last_index-append b']' (p ⧺ "[" ⧺ b) ("]" ⧺ q) (last_index_here b']' "]" q refl close_q) in
    let last' : last_index b']' (p ⧺ "[" ⧺ rest) ≡ some (size p + suc (size b)) =
      ap (last_index b']') (sym (append_assoc p ("[" ⧺ b) ("]" ⧺ q)))
      ∙ last
      ∙ ap some (size-append p ("[" ⧺ b)) in
    let ordered : ltb (size p) (size p + suc (size b)) ≡ true = ground arith in
    rw first (
      rw last'
        (rw ordered (ap (λ t. number_or_error (parse_uint 32 t)) (slice-brackets p b ("]" ⧺ q)))))
