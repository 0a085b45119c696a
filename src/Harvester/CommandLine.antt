-- ===== src/Harvester/CommandLine.antt =====
-- The parse of /proc/<pid>/cmdline: `fetchCommandInfo`, `getNextArg` and `sanitizeCommandLine` of
-- pkg/internal/infraolly/process/snapshot.go. A text is the list of its bytes.
pub mod Arguments
use e_bpf_lens.Prelude.{
  ℕ, zero, suc, Bool, ◌&&◌, Option, none, some, List, [], ◌∷◌, ◌++◌, if◌then◌else◌, eqb, any,
  length,
}

-- What `fetchCommandInfo` fills in.
pub record CommandInfo : Type 0 where
  pub command_args : List (List ℕ)
  pub command_line : List ℕ
  pub exec_path : List ℕ
  pub exec_name : List ℕ

abbrev pub no_command : CommandInfo
no_command = record { command_args = []; command_line = []; exec_path = []; exec_name = [] }

-- The loop of `getNextArg`: the bytes before the first zero byte, and those behind it.
pub split_arg : List ℕ → List ℕ × List ℕ
split_arg [] = ([], [])
split_arg (b ∷ bs) = let (arg, rest) = split_arg bs in if eqb b 0 then ([], bs) else (b ∷ arg, rest)

-- The argument and the bytes that are left, or `none` at the end.
pub get_next_arg : List ℕ → Option (List ℕ × List ℕ)
unfolding split_arg
get_next_arg [] = none
get_next_arg (b ∷ bs) = some (split_arg (b ∷ bs))

-- The loop of `fetchCommandInfo`, with a bound on its rounds.
pub read_args : ℕ → List ℕ → List (List ℕ)
unfolding get_next_arg
read_args zero bs = []
read_args (suc n) bs = elim (get_next_arg bs) [
  | none ↦ []
  | some (arg, rest) ↦ arg ∷ read_args n rest
]

-- The cut set of `bytes.Trim`: white space and quotes.
abbrev pub is_wrapper : ℕ → Bool
is_wrapper b = any (eqb b) (32 ∷ 9 ∷ 10 ∷ 11 ∷ 12 ∷ 13 ∷ 34 ∷ 39 ∷ 96 ∷ [])

pub trim_start : (ℕ → Bool) → List ℕ → List ℕ
trim_start cut [] = []
trim_start cut (b ∷ bs) = let rest = trim_start cut bs in if cut b then rest else b ∷ bs

abbrev cons_unless : Bool → ℕ → List ℕ → List ℕ
cons_unless cut b [] = if cut then [] else b ∷ []
cons_unless cut b (c ∷ cs) = b ∷ c ∷ cs

pub trim_end : (ℕ → Bool) → List ℕ → List ℕ
trim_end cut [] = []
trim_end cut (b ∷ bs) = cons_unless (cut b) b (trim_end cut bs)

pub sanitize_command_line : List ℕ → List ℕ
unfolding trim_start trim_end
sanitize_command_line cmd = trim_end is_wrapper (trim_start is_wrapper cmd)

-- The bytes behind the last slash.
abbrev or_bytes : Option (List ℕ) → List ℕ → List ℕ
or_bytes none bs = bs
or_bytes (some cs) bs = cs

behind_slash : List ℕ → Option (List ℕ)
behind_slash [] = none
behind_slash (b ∷ bs) = elim (behind_slash bs) [
  | some cs ↦ some cs
  | none ↦ if eqb b b'/' then some bs else none
]

-- `path.Base`
pub base : List ℕ → List ℕ
unfolding behind_slash trim_end
base [] = b'.' ∷ []
base (b ∷ bs) = elim (trim_end (λ c. eqb c b'/') (b ∷ bs)) [
  | [] ↦ b'/' ∷ []
  | c ∷ cs ↦ or_bytes (behind_slash (c ∷ cs)) (c ∷ cs)
]

pub spaced_args : List (List ℕ) → List ℕ
spaced_args [] = []
spaced_args (arg ∷ args) = (b' ' ∷ arg) ++ spaced_args args

abbrev info : List ℕ → List (List ℕ) → CommandInfo
info path args = record {
  command_args = args;
  command_line = path ++ spaced_args args;
  exec_path = path;
  exec_name = base path;
}

-- The command of a sanitized command line.
pub command_of : List ℕ → CommandInfo
unfolding read_args base spaced_args
command_of cmd = elim (get_next_arg cmd) [
  | none ↦ info [] []
  | some (path, rest) ↦ info path (read_args (length rest) rest)
]

-- `fetchCommandInfo`; `none` is an error of the read.
pub fetch_command_info : Option (List ℕ) → CommandInfo
unfolding command_of sanitize_command_line
fetch_command_info none = no_command
fetch_command_info (some []) = no_command
fetch_command_info (some (b ∷ bs)) =
    command_of (sanitize_command_line (if eqb b b'-' then bs else b ∷ bs))
