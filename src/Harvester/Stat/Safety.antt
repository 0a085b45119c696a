-- ===== src/Harvester/Stat/Safety.antt =====
-- When the parse of /proc/<pid>/stat does not panic, and which commands it can name.
use e_bpf_lens.Prelude.{
  append_assoc, LacksCode, ℕ, zero, suc, ◌≤◌, ◌<◌, String, code, some, List, [], ◌∷◌, ◌≡◌, ◌≢◌,
  refl, sym, subst, arith, length, All, split_once, ◌⧺◌, eqb, Option-cases, inl, inr, Bool-cases,
}
use e_bpf_lens.Harvester.Stat.{
  ◌>>=◌, ProcStats, Parsed, parsed, failed, panicked, words_of, fields, field, number, parse_fields,
  parse_proc_stat,
}
use e_bpf_lens.Int64.{parse_int}
use e_bpf_lens.Harvester.Stat.Format.{IsWord, spaced, stat_line, words_of-spaced, split_once-append}

split_once-LacksCode : (n : ℕ) (s u t : String) → split_once n s ≡ some (u, t) → LacksCode n u
unfolding split_once
split_once-LacksCode n String.[] u t e = absurd (ground arith)
split_once-LacksCode n (String.◌∷◌ c s) u t e = elim (Bool-cases (eqb (code c) n)) [
  | inl h ↦ subst (LacksCode n) {x = ""} {y = u} (ground arith) tt
  | inr h ↦ elim (Option-cases (split_once n s)) [
    | inl k ↦ absurd (ground arith)
    | inr ((v, w), k) ↦
        subst (LacksCode n) {x = String.◌∷◌ c v} {y = u} (ground arith)
          (h, split_once-LacksCode n s v w k)
  ]
]

field-is : (ws : List String) (i : ℕ) → i < length ws → (w : String) × (field ws i ≡ parsed w)
unfolding field
field-is [] i h = absurd (omega arith)
field-is (w ∷ ws) zero h = (w, refl)
field-is (w ∷ ws) (suc i) h = field-is ws i (omega arith)

number-is : (bits : ℕ) (ws : List String) (i : ℕ) → i < length ws → number bits ws i ≢ panicked
unfolding number
number-is bits ws i h e =
    let (w, f) = field-is ws i h in
    elim (Option-cases (parse_int bits w)) [
      | inl k ↦ absurd (ground arith)
      | inr (n, k) ↦ absurd (ground arith)
    ]

bind-ne {ℓ κ} :
    {A : Type ℓ} {B : Type κ} (x : Parsed A) (f : A → Parsed B)
    → x ≢ panicked
    → ((a : A) → f a ≢ panicked)
    → (x >>= f) ≢ panicked
bind-ne (parsed a) f h k = k a
bind-ne (failed e) f h k = λ e'. ground arith
bind-ne panicked f h k = absurd (h refl)

field-ne : (ws : List String) (i : ℕ) → i < length ws → field ws i ≢ panicked
field-ne ws i h e = let (w, f) = field-is ws i h in ground arith

-- The parse of the fields does not panic if there are at least 22 of them.
parse_fields-ne :
    (page_size : ℕ) (command : String) (ws : List String)
    → 22 ≤ length ws
    → parse_fields page_size command ws ≢ panicked
unfolding parse_fields
parse_fields-ne page_size command ws h =
    bind-ne (field ws 0) _ (field-ne ws 0 (omega arith)) (λ state.
      bind-ne (number 32 ws 1) _ (number-is 32 ws 1 (omega arith)) (λ ppid.
        bind-ne (number 64 ws 11) _ (number-is 64 ws 11 (omega arith)) (λ utime.
          bind-ne (number 64 ws 12) _ (number-is 64 ws 12 (omega arith)) (λ stime.
            bind-ne (number 64 ws 13) _ (number-is 64 ws 13 (omega arith)) (λ cutime.
              bind-ne (number 64 ws 14) _ (number-is 64 ws 14 (omega arith)) (λ cstime.
                bind-ne (number 32 ws 17) _ (number-is 32 ws 17 (omega arith)) (λ nthreads.
                  bind-ne (number 64 ws 20) _ (number-is 64 ws 20 (omega arith)) (λ vsize.
                    bind-ne (number 64 ws 21) _ (number-is 64 ws 21 (omega arith))
                      (λ rss. λ e. ground arith)))))))))

-- However long a text stands before them, the words are all found.
words_of-le :
    (x : String) (ws : List String)
    → All IsWord ws
    → length ws ≤ length (words_of (x ⧺ spaced ws)).1
unfolding words_of
words_of-le String.[] ws h = rw (words_of-spaced ws h) (omega arith)
words_of-le (String.◌∷◌ c x) ws h = let below = words_of-le x ws h in ground arith

fields-le :
    (x : String) (ws : List String) → All IsWord ws → length ws ≤ length (fields (x ⧺ spaced ws))
unfolding fields
fields-le x ws h = let below = words_of-le x ws h in ground arith

-- The text behind the first closing parenthesis ends in the fields, whatever the command is.
split_once-stat :
    (command : String) (ws : List String)
    → (u : String) × (x : String) × (split_once b')' (command ⧺ ")" ⧺ spaced ws)
        ≡ some (u, x ⧺ spaced ws))
unfolding split_once
split_once-stat String.[] ws = ("", "", refl)
split_once-stat (String.◌∷◌ c command) ws = elim (Bool-cases (eqb (code c) b')')) [
  | inl h ↦ ("", command ⧺ ")", rw (h, split_once) (rw (append_assoc command ")" (spaced ws))))
  | inr h ↦
      let (u, x, e) = split_once-stat command ws in (String.◌∷◌ c u, x, rw (h, split_once) (rw e))
]

-- A line in the kernel's format with at least 22 fields is read or refused with an error: whatever
-- the command is, the parse does not panic.
pub parse_proc_stat-ne :
    (page_size : ℕ) (pid command : String) (ws : List String)
    → LacksCode b'(' pid
    → All IsWord ws
    → 22 ≤ length ws
    → parse_proc_stat page_size (stat_line pid command ws) ≢ panicked
unfolding parse_proc_stat split_once
parse_proc_stat-ne page_size pid command ws hp hw h =
    let (u, x, e) = split_once-stat command ws in
    let long = fields-le x ws hw in
    rw
      (
        split_once-append b'(' pid (" (" ⧺ command ⧺ ")" ⧺ spaced ws) " "
            (command ⧺ ")" ⧺ spaced ws) hp refl,
        parse_proc_stat,
      )
      (rw e (parse_fields-ne page_size u (fields (x ⧺ spaced ws)) (omega arith)))

-- What is parsed, if something is, has the property.
abbrev Holds {ℓ κ} : {A : Type ℓ} → (A → Type κ) → Parsed A → Type κ
Holds P (parsed a) = P a
Holds P (failed e) = Unit
Holds P panicked = Unit

bind-Holds {ℓ κ μ} :
    {A : Type ℓ} {B : Type κ} (P : B → Type μ) (x : Parsed A) (f : A → Parsed B)
    → ((a : A) → Holds P (f a))
    → Holds P (x >>= f)
bind-Holds P (parsed a) f h = h a
bind-Holds P (failed e) f h = tt
bind-Holds P panicked f h = tt

module _ (P : ProcStats → Type 0) where
  parse_fields-Holds :
      (page_size : ℕ) (command : String) (ws : List String)
      → ((stats : ProcStats) → stats.command ≡ command → P stats)
      → Holds P (parse_fields page_size command ws)
  unfolding parse_fields
  parse_fields-Holds page_size command ws h = bind-Holds P (field ws 0) _ (λ state.
      bind-Holds P (number 32 ws 1) _ (λ ppid. bind-Holds P (number 64 ws 11) _ (λ utime.
        bind-Holds P (number 64 ws 12) _ (λ stime. bind-Holds P (number 64 ws 13) _ (λ cutime.
          bind-Holds P (number 64 ws 14) _ (λ cstime. bind-Holds P (number 32 ws 17) _ (λ nthreads.
            bind-Holds P (number 64 ws 20) _
              (λ vsize. bind-Holds P (number 64 ws 21) _ (λ rss. h _ refl)))))))))

parse_proc_stat-Holds :
    (page_size : ℕ) (content : String)
    → Holds (λ stats. LacksCode b')' stats.command) (parse_proc_stat page_size content)
unfolding parse_proc_stat
parse_proc_stat-Holds page_size content = elim (Option-cases (split_once b'(' content)) [
  | inl e ↦ rw (e, parse_proc_stat) tt
  | inr ((pid, rest), e) ↦ elim (Option-cases (split_once b')' rest)) [
    | inl k ↦ rw (e, parse_proc_stat) (rw k tt)
    | inr ((command, r), k) ↦
        rw (e, parse_proc_stat)
          (rw k (
            parse_fields-Holds (λ stats. LacksCode b')' stats.command) page_size command (fields r)
              (λ stats same.
                subst (LacksCode b')') (sym same) (split_once-LacksCode b')' rest command r k))))
  ]
]

-- No process is ever read as one whose command holds a closing parenthesis, though the kernel lets a
-- command hold one.
pub parse_proc_stat-LacksCode :
    (page_size : ℕ) (content : String) (stats : ProcStats)
    → parse_proc_stat page_size content ≡ parsed stats
    → LacksCode b')' stats.command
parse_proc_stat-LacksCode page_size content stats e =
    subst (Holds (λ s. LacksCode b')' s.command)) e (parse_proc_stat-Holds page_size content)
