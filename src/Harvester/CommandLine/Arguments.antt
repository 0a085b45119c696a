-- ===== src/Harvester/CommandLine/Arguments.antt =====
-- The arguments of a command line are read back.
use e_bpf_lens.Prelude.{
  ℕ, zero, suc, ◌+◌, ◌≤◌, false, some, List, [], ◌∷◌, ◌++◌, ◌≡◌, refl, ap, sym, ◌∙◌, arith, eqb,
  length, All,
}
use e_bpf_lens.Harvester.CommandLine.{
  split_arg, get_next_arg, read_args, is_wrapper, trim_start, trim_end, sanitize_command_line,
  spaced_args, command_of, base, fetch_command_info,
}

-- No byte is zero.
abbrev HasNoZero : List ℕ → Type 0
HasNoZero [] = Unit
HasNoZero (b ∷ bs) = (eqb b 0 ≡ false) × HasNoZero bs

-- Each argument with a zero byte behind it.
abbrev pub terminated : List (List ℕ) → List ℕ
terminated [] = []
terminated (arg ∷ args) = arg ++ 0 ∷ terminated args

split_arg-append : (arg rest : List ℕ) → HasNoZero arg → split_arg (arg ++ 0 ∷ rest) ≡ (arg, rest)
unfolding split_arg
split_arg-append [] rest h = refl
split_arg-append (b ∷ arg) rest (hb, h) = rw (split_arg-append arg rest h, split_arg) (rw hb)

get_next_arg-append :
    (arg rest : List ℕ) → HasNoZero arg → get_next_arg (arg ++ 0 ∷ rest) ≡ some (arg, rest)
unfolding get_next_arg
get_next_arg-append [] rest h = ap some (split_arg-append [] rest h)
get_next_arg-append (b ∷ arg) rest h = ap some (split_arg-append (b ∷ arg) rest h)

-- Enough rounds: as many as there are arguments.
read_args-terminated :
    (args : List (List ℕ)) (n : ℕ)
    → All HasNoZero args
    → length args ≤ n
    → read_args n (terminated args) ≡ args
unfolding read_args get_next_arg
read_args-terminated [] zero h k = refl
read_args-terminated [] (suc n) h k = refl
read_args-terminated (arg ∷ args) zero h k = absurd (omega arith)
read_args-terminated (arg ∷ args) (suc n) (ha, h) k =
    rw (get_next_arg-append arg (terminated args) ha, read_args)
      (rw (read_args-terminated args n h (omega arith)))

length-append : (xs ys : List ℕ) → length (xs ++ ys) ≡ length xs + length ys
length-append [] ys = omega arith
length-append (x ∷ xs) ys = omega (arith, length-append xs ys)

length-terminated : (args : List (List ℕ)) → length args ≤ length (terminated args)
length-terminated [] = omega arith
length-terminated (arg ∷ args) =
    omega (arith, length-terminated args, length-append arg (0 ∷ terminated args))

-- The bound that the code's loop is run with is enough: the arguments are all read.
command_of-terminated :
    (path : List ℕ) (args : List (List ℕ))
    → All HasNoZero (path ∷ args)
    → command_of (terminated (path ∷ args)) ≡ record {
      command_args = args;
      command_line = path ++ spaced_args args;
      exec_path = path;
      exec_name = base path;
    }
unfolding command_of
command_of-terminated path args (hp, h) =
    rw (get_next_arg-append path (terminated args) hp, command_of)
      (rw (read_args-terminated args (length (terminated args)) h (length-terminated args)))

trim_end-zero : (bs : List ℕ) → trim_end is_wrapper (bs ++ 0 ∷ []) ≡ bs ++ 0 ∷ []
unfolding trim_end
trim_end-zero [] = refl
trim_end-zero (b ∷ []) = refl
trim_end-zero (b ∷ c ∷ bs) = rw (trim_end-zero (c ∷ bs))

behind_zero :
    (xs before tail : List ℕ)
    → tail ≡ before ++ 0 ∷ []
    → xs ++ 0 ∷ tail ≡ (xs ++ 0 ∷ before) ++ 0 ∷ []
behind_zero [] before tail e = ap (λ l. 0 ∷ l) e
behind_zero (x ∷ xs) before tail e = ap (λ l. x ∷ l) (behind_zero xs before tail e)

last_zero :
    (arg : List ℕ) (args : List (List ℕ))
    → (before : List ℕ) × (terminated (arg ∷ args) ≡ before ++ 0 ∷ [])
last_zero arg [] = (arg, refl)
last_zero arg (next ∷ args) =
    let (before, e) = last_zero next args in
    (arg ++ 0 ∷ before, behind_zero arg before (terminated (next ∷ args)) e)

sanitize-terminated :
    (b : ℕ) (path : List ℕ) (args : List (List ℕ))
    → is_wrapper b ≡ false
    → sanitize_command_line (terminated ((b ∷ path) ∷ args)) ≡ terminated ((b ∷ path) ∷ args)
unfolding sanitize_command_line trim_start
sanitize-terminated b path args h =
    let (before, e) = last_zero (b ∷ path) args in
    rw (h, sanitize_command_line) (ap (trim_end is_wrapper) e ∙ trim_end-zero before ∙ sym e)

-- A command line in the kernel's format, the path and the arguments each ended by a zero byte, is
-- read back: the path, all the arguments in their order, and the line with spaces between them. The
-- path starts with no dash, white space or quote, and no text holds a zero byte.
pub fetch_command_info-terminated :
    (b : ℕ) (path : List ℕ) (args : List (List ℕ))
    → eqb b b'-' ≡ false
    → is_wrapper b ≡ false
    → All HasNoZero ((b ∷ path) ∷ args)
    → fetch_command_info (some (terminated ((b ∷ path) ∷ args))) ≡ record {
      command_args = args;
      command_line = (b ∷ path) ++ spaced_args args;
      exec_path = b ∷ path;
      exec_name = base (b ∷ path);
    }
unfolding fetch_command_info
fetch_command_info-terminated b path args dash plain h =
    rw (dash, fetch_command_info)
      (rw (sanitize-terminated b path args plain) (command_of-terminated (b ∷ path) args h))
