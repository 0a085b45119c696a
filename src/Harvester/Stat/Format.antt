-- ===== src/Harvester/Stat/Format.antt =====
-- What the parse makes of a line in the kernel's format, and when it does not panic.
use e_bpf_lens.Prelude.{
  LacksCode, ℕ, String, code, false, Option, none, some, List, [], ◌∷◌, ◌≡◌, refl, ap, ◌∙◌, All,
  is_empty, is_space, split_once, ◌⧺◌,
}
use e_bpf_lens.Int64.{ℤ, pos, parse_int, mul64, add64}
use e_bpf_lens.Harvester.Stat.{
  Parsed, failed, malformed_number, ◌>>=◌, parsed, number, field, words_of, fields, parse_fields,
  parse_proc_stat,
}

-- No character of the text is white space.
abbrev IsSolid : String → Type 0
IsSolid String.[] = Unit
IsSolid (String.◌∷◌ c s) = (is_space (code c) ≡ false) × IsSolid s

abbrev pub IsWord : String → Type 0
IsWord w = (is_empty w ≡ false) × IsSolid w

-- Each word behind a space, and a newline at the end.
abbrev pub spaced : List String → String
spaced [] = "\n"
spaced (w ∷ ws) = " " ⧺ w ⧺ spaced ws

-- A line of /proc/<pid>/stat: the process id, the command in parentheses, and the fields.
abbrev pub stat_line : String → String → List String → String
stat_line pid command ws = pid ⧺ " (" ⧺ command ⧺ ")" ⧺ spaced ws

pub split_once-append :
    (n : ℕ) (s sep u t : String)
    → LacksCode n s
    → split_once n sep ≡ some (u, t)
    → split_once n (s ⧺ sep) ≡ some (s ⧺ u, t)
unfolding split_once
split_once-append n String.[] sep u t h e = e
split_once-append n (String.◌∷◌ c s) sep u t (hc, hs) e =
    rw (split_once-append n s sep u t hs e, split_once) (rw hc)

append_empty : (s : String) → s ⧺ "" ≡ s
append_empty String.[] = refl
append_empty (String.◌∷◌ c s) = ap (String.◌∷◌ c) (append_empty s)

words_of-append :
    (w s : String) → IsSolid w → words_of (w ⧺ s) ≡ (w ⧺ (words_of s).0, (words_of s).1)
unfolding words_of
words_of-append String.[] s h = refl
words_of-append (String.◌∷◌ c w) s (hc, hw) = rw (words_of-append w s hw, words_of) (rw hc)

pub words_of-spaced : (ws : List String) → All IsWord ws → words_of (spaced ws) ≡ ("", ws)
unfolding words_of
words_of-spaced [] h = refl
words_of-spaced (w ∷ ws) ((hw, solid), h) =
    rw (words_of-append w (spaced ws) solid, words_of)
      (rw (words_of-spaced ws h) (rw (append_empty w) (rw hw)))

-- The line is split into its command and the words behind it.
parse_proc_stat-words :
    (page_size : ℕ) (pid command : String) (ws : List String)
    → LacksCode b'(' pid
    → LacksCode b')' command
    → All IsWord ws
    → parse_proc_stat page_size (stat_line pid command ws) ≡ parse_fields page_size command ws
unfolding parse_proc_stat fields split_once
parse_proc_stat-words page_size pid command ws hp hc hw =
    rw
      (
        split_once-append b'(' pid (" (" ⧺ command ⧺ ")" ⧺ spaced ws) " "
            (command ⧺ ")" ⧺ spaced ws) hp refl,
        parse_proc_stat,
      )
      (rw (split_once-append b')' command (")" ⧺ spaced ws) "" (spaced ws) hc refl)
        (rw (append_empty command) (rw (words_of-spaced ws hw))))

-- The fields of /proc/<pid>/stat behind the command, by the names of proc(5) and in its order.
pub record StatFields : Type 0 where
  pub state : String
  pub ppid : String
  pub pgrp : String
  pub session : String
  pub tty_nr : String
  pub tpgid : String
  pub flags : String
  pub minflt : String
  pub cminflt : String
  pub majflt : String
  pub cmajflt : String
  pub utime : String
  pub stime : String
  pub cutime : String
  pub cstime : String
  pub priority : String
  pub nice : String
  pub num_threads : String
  pub itrealvalue : String
  pub starttime : String
  pub vsize : String
  pub rss : String
  pub later : List String

abbrev pub stat_words : StatFields → List String
stat_words f =
    f.state ∷ f.ppid ∷ f.pgrp ∷ f.session ∷ f.tty_nr ∷ f.tpgid ∷ f.flags ∷ f.minflt ∷ f.cminflt
    ∷ f.majflt ∷ f.cmajflt ∷ f.utime ∷ f.stime ∷ f.cutime ∷ f.cstime ∷ f.priority ∷ f.nice
    ∷ f.num_threads ∷ f.itrealvalue ∷ f.starttime ∷ f.vsize ∷ f.rss ∷ f.later

-- The numbers that the harvester takes from them.
pub record StatNumbers : Type 0 where
  pub ppid : ℤ
  pub utime : ℤ
  pub stime : ℤ
  pub cutime : ℤ
  pub cstime : ℤ
  pub num_threads : ℤ
  pub vsize : ℤ
  pub rss : ℤ

-- The fields spell the numbers, the parent and the number of threads in 32 bits.
pub record Spells (f : StatFields) (n : StatNumbers) : Type 0 where
  pub ppid : parse_int 32 f.ppid ≡ some n.ppid
  pub utime : parse_int 64 f.utime ≡ some n.utime
  pub stime : parse_int 64 f.stime ≡ some n.stime
  pub cutime : parse_int 64 f.cutime ≡ some n.cutime
  pub cstime : parse_int 64 f.cstime ≡ some n.cstime
  pub num_threads : parse_int 32 f.num_threads ≡ some n.num_threads
  pub vsize : parse_int 64 f.vsize ≡ some n.vsize
  pub rss : parse_int 64 f.rss ≡ some n.rss

number-read :
    (bits : ℕ) (ws : List String) (i : ℕ) (word : String) (m : ℤ)
    → field ws i ≡ parsed word
    → parse_int bits word ≡ some m
    → number bits ws i ≡ parsed m
unfolding number
number-read bits ws i word m h k =
    ap (λ r. r >>= λ w. of_option (parse_int bits w)) h ∙ ap of_option k
  where
    of_option : Option ℤ → Parsed ℤ
    of_option o = elim o [ none ↦ failed malformed_number | some x ↦ parsed x ]

parse_fields-stat_words :
    (page_size : ℕ) (command : String) (f : StatFields) (n : StatNumbers)
    → Spells f n
    → parse_fields page_size command (stat_words f)
      ≡ parsed (record {
        command = command;
        ppid = n.ppid;
        num_threads = n.num_threads;
        state = f.state;
        vm_rss = mul64 n.rss (pos page_size);
        vm_size = n.vsize;
        cpu = record {
          user_time = n.utime;
          system_time = n.stime;
          wait_time = add64 n.cutime n.cstime;
        };
      })
unfolding parse_fields field
parse_fields-stat_words page_size command f n h =
    rw (reads 32 1 f.ppid n.ppid refl h.ppid, parse_fields)
      (rw (reads 64 11 f.utime n.utime refl h.utime) (
        rw (reads 64 12 f.stime n.stime refl h.stime) (
          rw (reads 64 13 f.cutime n.cutime refl h.cutime) (
            rw (reads 64 14 f.cstime n.cstime refl h.cstime) (
              rw (reads 32 17 f.num_threads n.num_threads refl h.num_threads) (
                rw (reads 64 20 f.vsize n.vsize refl h.vsize)
                  (rw (reads 64 21 f.rss n.rss refl h.rss) refl)))))))
  where
    reads :
        (bits i : ℕ) (word : String) (m : ℤ)
        → field (stat_words f) i ≡ parsed word
        → parse_int bits word ≡ some m
        → number bits (stat_words f) i ≡ parsed m
    reads bits i word m = number-read bits (stat_words f) i word m

-- A line in the kernel's format, with the fields of proc(5) in their order, of a process whose command
-- holds no closing parenthesis, is read as that command, the state and the parent, the times in user
-- and in kernel mode, as the wait the sum of the children's times, the number of threads, the virtual
-- size, and the resident pages times the page size, sum and product in 64 bits. The process id holds
-- no parenthesis, and the fields are not empty, hold no white space, and spell numbers.
pub parse_proc_stat-stat_line :
    (page_size : ℕ) (pid command : String) (f : StatFields) (n : StatNumbers)
    → LacksCode b'(' pid
    → LacksCode b')' command
    → All IsWord (stat_words f)
    → Spells f n
    → parse_proc_stat page_size (stat_line pid command (stat_words f))
      ≡ parsed (record {
        command = command;
        ppid = n.ppid;
        num_threads = n.num_threads;
        state = f.state;
        vm_rss = mul64 n.rss (pos page_size);
        vm_size = n.vsize;
        cpu = record {
          user_time = n.utime;
          system_time = n.stime;
          wait_time = add64 n.cutime n.cstime;
        };
      })
parse_proc_stat-stat_line page_size pid command f n hp hc hw h =
    parse_proc_stat-words page_size pid command (stat_words f) hp hc hw
    ∙ parse_fields-stat_words page_size command f n h
