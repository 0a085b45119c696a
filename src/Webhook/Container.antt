-- ===== src/Webhook/Container.antt =====
-- pkg/webhook/container.go: the container and the namespace of a process. The formats of the cgroup
-- entries, which are regular expressions, are parameters: each answers with its submatches.
pub mod Namespace
use e_bpf_lens.Prelude.{
  ℕ, zero, suc, ◌+◌, ◌-◌, String, code, Bool, true, false, not, ◌&&◌, Option, none, some, List, [],
  ◌∷◌, if◌then◌else◌, ltb, eqb,
}
use e_bpf_lens.Int64.{parse_uint}
use e_bpf_lens.Webhook.Process.{Info}

pub data ContainerError : Type 0 where
  not_opened link_unread namespace_invalid no_brackets cgroup_unread no_container : ContainerError

pub data Result {ℓ} (A : Type ℓ) : Type ℓ where
  ok : A → Result A
  error : ContainerError → Result A

-- `strings.LastIndex` of a character, by its code.
pub last_index : ℕ → String → Option ℕ
last_index c String.[] = none
last_index c (String.◌∷◌ d s) = elim (last_index c s) [
  | some n ↦ some (suc n)
  | none ↦ if eqb (code d) c then some 0 else none
]

pub drop_chars : ℕ → String → String
drop_chars zero s = s
drop_chars (suc n) String.[] = ""
drop_chars (suc n) (String.◌∷◌ c s) = drop_chars n s

pub take_chars : ℕ → String → String
take_chars zero s = ""
take_chars (suc n) String.[] = ""
take_chars (suc n) (String.◌∷◌ c s) = String.◌∷◌ c (take_chars n s)

-- `s[from:to]`
abbrev pub slice : ℕ → ℕ → String → String
slice from to s = take_chars (to - from) (drop_chars from s)

abbrev pub number_or_error : Option ℕ → Result ℕ
number_or_error none = error namespace_invalid
number_or_error (some n) = ok n

-- The number between the brackets of the link.
abbrev between : Option ℕ → Option ℕ → String → Result ℕ
between none end link = error no_brackets
between (some start) none link = error no_brackets
between (some start) (some end) link =
    if ltb start end
    then number_or_error (parse_uint 32 (slice (start + 1) end link))
    else error no_brackets

-- `findNamespace`: whether the link of the namespace could be opened, and what it reads.
pub find_namespace : Bool → Option String → Result ℕ
unfolding last_index drop_chars take_chars parse_uint
find_namespace false link = error not_opened
find_namespace true none = error link_unread
find_namespace true (some link) = between (last_index b'[' link) (last_index b']' link) link

-- `submatches[1]`, if there are two submatches or more.
abbrev second_match : List String → Option String
second_match [] = none
second_match (whole ∷ []) = none
second_match (whole ∷ id ∷ rest) = some id

-- `findCgroup`
find_cgroup : List (String → List String) → String → Option String
find_cgroup [] entry = none
find_cgroup (format ∷ formats) entry = elim (second_match (format entry)) [
  | some id ↦ some id
  | none ↦ find_cgroup formats entry
]

-- `containerInfoForPID`, with what `findNamespace` answers and the lines of the cgroup file.
first_container : List (String → List String) → ℕ → List String → Result Info
unfolding find_cgroup
first_container formats ns [] = error no_container
first_container formats ns (entry ∷ entries) = elim (find_cgroup formats entry) [
  | some id ↦ ok (record { container_id = id; pid_namespace = ns })
  | none ↦ first_container formats ns entries
]

abbrev with_cgroup : List (String → List String) → ℕ → Option (List String) → Result Info
with_cgroup formats ns none = error cgroup_unread
with_cgroup formats ns (some entries) = first_container formats ns entries

unfoldable pub container_info_for_pid :
    List (String → List String) → Result ℕ → Option (List String) → Result Info
unfolding first_container
container_info_for_pid formats (error e) cgroup = error e
container_info_for_pid formats (ok ns) cgroup = with_cgroup formats ns cgroup
