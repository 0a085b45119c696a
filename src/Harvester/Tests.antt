-- ===== src/Harvester/Tests.antt =====
-- Runs of the parses and of the harvest on a concrete process.
mod Collections
use e_bpf_lens.Prelude.{
  ℕ, zero, suc, ◌-◌, String, true, false, none, some, List, [], ◌∷◌, ◌++◌, ◌≡◌, ◌≢◌, refl, All,
  arith, is_empty, LacksCode, if◌then◌else◌, ltb, split_once,
}
use Prim.Native.Nat.{◌^◌}
use e_bpf_lens.Int64.{int32, minus, ℤ, pos, parse_int, mul64, add64, bits, signed}
use e_bpf_lens.Harvester.Stat.{ProcStats, parsed, panicked, parse_fields, parse_proc_stat, fields}
use e_bpf_lens.Harvester.Stat.Format.{
  IsWord, stat_line, StatFields, StatNumbers, Spells, stat_words, parse_proc_stat-stat_line,
}
use e_bpf_lens.Harvester.Stat.Safety.{parse_proc_stat-ne, parse_proc_stat-LacksCode}
use e_bpf_lens.Harvester.CommandLine.{fetch_command_info, spaced_args, base, no_command}
use e_bpf_lens.Harvester.CommandLine.Arguments.{terminated, fetch_command_info-terminated}
use e_bpf_lens.Harvester.Snapshot.{Answers, LinuxProcess, username, same_process}
use e_bpf_lens.Harvester.Snapshot.User.{username_once}
use e_bpf_lens.Harvester.Harvest.{harvest, harvests, net_deltas}
use e_bpf_lens.Harvester.Harvest.Slot.{IsOf, IsOf-harvests}
use e_bpf_lens.Harvester.Harvest.Deltas.{Reports, harvest-Reports, net_deltas-grown}

abbrev ones : ℕ → List String
ones zero = []
ones (suc n) = "1" ∷ ones n

ones-IsWord : (n : ℕ) → All IsWord (ones n)
ones-IsWord zero = tt
ones-IsWord (suc n) = ((refl, (refl, tt)), ones-IsWord n)

-- The fields of a sleeping process.
abbrev words : List String
words = "S" ∷ ones 21

words-IsWord : All IsWord words
words-IsWord = ((refl, (refl, tt)), ones-IsWord 21)

-- The fields of another one, with a number of its own for each that is read.
abbrev sleeper : StatFields
sleeper = record {
  state = "S";
  ppid = "1";
  pgrp = "7";
  session = "7";
  tty_nr = "0";
  tpgid = "7";
  flags = "4";
  minflt = "8";
  cminflt = "0";
  majflt = "0";
  cmajflt = "0";
  utime = "31";
  stime = "12";
  cutime = "5";
  cstime = "6";
  priority = "9";
  nice = "0";
  num_threads = "3";
  itrealvalue = "0";
  starttime = "8";
  vsize = "90";
  rss = "2";
  later = [];
}

abbrev sleeper_numbers : StatNumbers
sleeper_numbers = record {
  ppid = pos 1;
  utime = pos 31;
  stime = pos 12;
  cutime = pos 5;
  cstime = pos 6;
  num_threads = pos 3;
  vsize = pos 90;
  rss = pos 2;
}

sleeper-IsWord : All IsWord (stat_words sleeper)
sleeper-IsWord = (
  (refl, (refl, tt)),
  (
    (refl, (refl, tt)),
    (
      (refl, (refl, tt)),
      (
        (refl, (refl, tt)),
        (
          (refl, (refl, tt)),
          (
            (refl, (refl, tt)),
            (
              (refl, (refl, tt)),
              (
                (refl, (refl, tt)),
                (
                  (refl, (refl, tt)),
                  (
                    (refl, (refl, tt)),
                    (
                      (refl, (refl, tt)),
                      (
                        (refl, (refl, (refl, tt))),
                        (
                          (refl, (refl, (refl, tt))),
                          (
                            (refl, (refl, tt)),
                            (
                              (refl, (refl, tt)),
                              (
                                (refl, (refl, tt)),
                                (
                                  (refl, (refl, tt)),
                                  (
                                    (refl, (refl, tt)),
                                    (
                                      (refl, (refl, tt)),
                                      (
                                        (refl, (refl, tt)),
                                        ((refl, (refl, (refl, tt))), ((refl, (refl, tt)), tt)),
                                      ),
                                    ),
                                  ),
                                ),
                              ),
                            ),
                          ),
                        ),
                      ),
                    ),
                  ),
                ),
              ),
            ),
          ),
        ),
      ),
    ),
  ),
)

sleeper-Spells : Spells sleeper sleeper_numbers
unfolding parse_int
sleeper-Spells = record {
  ppid = refl;
  utime = refl;
  stime = refl;
  cutime = refl;
  cstime = refl;
  num_threads = refl;
  vsize = refl;
  rss = refl;
}

parse_proc_stat-stat_line_example :
    parse_proc_stat 4096 (stat_line "7" "sh" (stat_words sleeper))
    ≡ parsed (record {
      command = "sh";
      ppid = pos 1;
      num_threads = pos 3;
      state = "S";
      vm_rss = mul64 (pos 2) (pos 4096);
      vm_size = pos 90;
      cpu = record { user_time = pos 31; system_time = pos 12; wait_time = add64 (pos 5) (pos 6) };
    })
parse_proc_stat-stat_line_example =
    parse_proc_stat-stat_line 4096 "7" "sh" sleeper sleeper_numbers (refl, tt) (refl, (refl, tt))
      sleeper-IsWord sleeper-Spells

-- A command with parentheses.
parse_proc_stat-ne_example : parse_proc_stat 4096 (stat_line "7" "a) (b" words) ≢ panicked
parse_proc_stat-ne_example =
    parse_proc_stat-ne 4096 "7" "a) (b" words (refl, tt) words-IsWord (omega arith)

abbrev sh_stats : ProcStats
sh_stats = record {
  command = "sh";
  ppid = pos 1;
  num_threads = pos 1;
  state = "S";
  vm_rss = pos 4096;
  vm_size = pos 1;
  cpu = record { user_time = pos 1; system_time = pos 1; wait_time = pos 2 };
}

sh_parsed : parse_proc_stat 4096 (stat_line "7" "sh" words) ≡ parsed sh_stats
unfolding parse_proc_stat parse_fields fields split_once parse_int mul64 add64 bits signed
sh_parsed = refl

abbrev sh_path : List ℕ
sh_path = b'b' ∷ b'/' ∷ b's' ∷ []

fetch_command_info-terminated_example :
    fetch_command_info (some (terminated ((b'/' ∷ sh_path) ∷ (b'x' ∷ []) ∷ []))) ≡ record {
      command_args = (b'x' ∷ []) ∷ [];
      command_line = (b'/' ∷ sh_path) ++ spaced_args ((b'x' ∷ []) ∷ []);
      exec_path = b'/' ∷ sh_path;
      exec_name = base (b'/' ∷ sh_path);
    }
fetch_command_info-terminated_example =
    fetch_command_info-terminated b'/' sh_path ((b'x' ∷ []) ∷ []) refl refl
      ((refl, (refl, (refl, (refl, tt)))), ((refl, tt), tt))

abbrev pub sh_answers : Answers
sh_answers = record {
  now = 5;
  num_cpu = 2;
  page_size = 4096;
  stat = some (stat_line "7" "sh" words);
  has_process = true;
  cmdline = none;
  username = none;
  uids = some (pos 0 ∷ []);
  getent = λ uid. none;
  io_counters = none;
  num_fds = some 3;
  net_dev = some (pos 10, pos 20);
}

-- A cached process with another command.
abbrev pub old_process : LinuxProcess
old_process = record {
  privileged = true;
  pid = 7;
  measure_time = 1;
  previous_measure_time = 1;
  stats = record sh_stats { command = "bash" };
  prev_stats = record sh_stats { command = "bash" };
  previous_io_counters = none;
  previous_net_rx = pos 4;
  previous_net_tx = pos 20;
  user = "";
  command_info_fetched = false;
  command_info = no_command;
}

same_stats : IsOf old_process.stats (some old_process)
unfolding same_process
same_stats = refl

IsOf-harvests_example :
    IsOf old_process.stats (harvests true 7 (sh_answers ∷ sh_answers ∷ []) (some old_process))
IsOf-harvests_example =
    IsOf-harvests true 7 (sh_answers ∷ sh_answers ∷ []) old_process.stats (some old_process)
      same_stats

harvest-Reports_example : Reports old_process (harvest true 7 sh_answers (some old_process))
harvest-Reports_example = harvest-Reports true 7 sh_answers old_process

-- The conversion to an int32 wraps around, and a difference has a sign.
int32_wraps : int32 (2 ^ 31) ≡ ℤ.negsuc (2 ^ 31 - 1)
unfolding int32
int32_wraps = refl

minus_below : minus (pos 3) (pos 5) ≡ ℤ.negsuc 1
unfolding minus
minus_below = refl
