-- ===== src/Harvester/Stat.antt =====
-- The parse of /proc/<pid>/stat: `parseProcStat` of pkg/internal/infraolly/process/snapshot.go.
pub mod Format
pub mod Safety
use e_bpf_lens.Prelude.{
  ℕ, zero, suc, ◌+◌, String, code, Bool, Option, none, some, List, [], ◌∷◌, if◌then◌else◌, is_empty,
  is_space, split_once,
}
use e_bpf_lens.Int64.{ℤ, pos, add64, mul64, parse_int}

-- `CPUInfo`, in clock ticks: the source divides each time by `clocksPerSec`.
pub record CpuInfo : Type 0 where
  pub user_time : ℤ
  pub system_time : ℤ
  pub wait_time : ℤ

-- `procStats`
pub record ProcStats : Type 0 where
  pub command : String
  pub ppid : ℤ
  pub num_threads : ℤ
  pub state : String
  pub vm_rss : ℤ
  pub vm_size : ℤ
  pub cpu : CpuInfo

-- The zero value.
abbrev pub no_stats : ProcStats
no_stats = record {
  command = "";
  ppid = pos 0;
  num_threads = pos 0;
  state = "";
  vm_rss = pos 0;
  vm_size = pos 0;
  cpu = record { user_time = pos 0; system_time = pos 0; wait_time = pos 0 };
}

pub data StatError : Type 0 where
  no_start_symbol no_end_symbol malformed_number : StatError

-- A result, an error, or the panic of an index out of range.
pub data Parsed {ℓ} (A : Type ℓ) : Type ℓ where
  parsed : A → Parsed A
  failed : StatError → Parsed A
  panicked : Parsed A

infixl 5 ◌>>=◌
abbrev pub ◌>>=◌ {ℓ κ} : {A : Type ℓ} {B : Type κ} → Parsed A → (A → Parsed B) → Parsed B
parsed a >>= f = f a
failed e >>= f = failed e
panicked >>= f = panicked

abbrev push : String → List String → List String
push word words = if is_empty word then words else word ∷ words

-- The text up to the first white space, and the words behind it.
pub words_of : String → String × List String
words_of String.[] = ("", [])
words_of (String.◌∷◌ c s) =
    let (word, words) = words_of s in
    if is_space (code c) then ("", push word words) else (String.◌∷◌ c word, words)

-- `strings.Fields`
unfoldable pub fields : String → List String
unfolding words_of
fields s = let (word, words) = words_of s in push word words

-- `fields[i]`
pub field : List String → ℕ → Parsed String
field [] i = panicked
field (w ∷ ws) zero = parsed w
field (w ∷ ws) (suc i) = field ws i

-- `strconv.ParseInt(fields[i], 10, bits)`
pub number : ℕ → List String → ℕ → Parsed ℤ
unfolding field
number bits ws i = do
  word ← field ws i
  elim (parse_int bits word) [ none ↦ failed malformed_number | some n ↦ parsed n ]

-- What follows the command; `page_size` is that of the system.
unfoldable pub parse_fields : ℕ → String → List String → Parsed ProcStats
unfolding number
parse_fields page_size command ws = do
  state ← field ws 0
  ppid ← number 32 ws 1
  utime ← number 64 ws 11
  stime ← number 64 ws 12
  cutime ← number 64 ws 13
  cstime ← number 64 ws 14
  nthreads ← number 32 ws 17
  vsize ← number 64 ws 20
  rss ← number 64 ws 21
  parsed (record {
    command = command;
    ppid = ppid;
    num_threads = nthreads;
    state = state;
    vm_rss = mul64 rss (pos page_size);
    vm_size = vsize;
    cpu = record { user_time = utime; system_time = stime; wait_time = add64 cutime cstime };
  })

unfoldable pub parse_proc_stat : ℕ → String → Parsed ProcStats
unfolding parse_fields fields
parse_proc_stat page_size content = elim (split_once b'(' content) [
  | none ↦ failed no_start_symbol
  | some (pid, content) ↦ elim (split_once b')' content) [
    | none ↦ failed no_end_symbol
    | some (command, rest) ↦ parse_fields page_size command (fields rest)
  ]
]
