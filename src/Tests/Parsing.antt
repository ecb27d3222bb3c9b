-- ===== src/Tests/Parsing.antt =====
-- The theorems of the parser and the factory at sample programs: the tasks and the doubles are numbers, and
-- no file can be opened.
use sys_rt.Common.{
  ℕ, ◌≡◌, refl, Bool, false, ◌||◌, none, some, List, [], ◌∷◌, ok, throw, hang, arith, if◌then◌else◌,
  parse_error, out_of_range, ◌==◌,
}
use sys_rt.StrToken.{remove_spaces, semicolon}
use sys_rt.StrToken.Find.{Lacks}
use sys_rt.StrToken.Nested.{plain, nested}
use sys_rt.StrToken.Split.{split, split_from-empty, split-joined, parse_double}
use sys_rt.Factory.{codes, create, same_text, find_fn}
use sys_rt.Factory.Numbers.{read_digits}
use sys_rt.Factory.Variables.{Outside, uniform_var, comma, open_par, close_par, parsevar}
use sys_rt.Factory.Instructions.{
  exec_instr, fixed_instr, suspend_instr, wait_instr, signal_instr, instr_registry,
}
use sys_rt.Factory.Code.{insert_code}
use sys_rt.Factory.Schedulers.{sched_registry}
use sys_rt.Factory.Written.{Written, IsWritten, insert_code-written, insert_code-unknown}

abbrev outside : Outside ℕ ℕ
outside = record {
  find_task = λ s. if same_text s (codes "T") then some 7 else none;
  atof = read_digits 10 0;
  read_file = λ s. none;
}

abbrev has : (ℕ → Bool) → List ℕ → Bool
has is [] = false
has is (c ∷ cs) = is c || has is cs

has-Lacks : (is : ℕ → Bool) (s : List ℕ) → has is s ≡ false → Lacks is s
has-Lacks is [] h = tt
has-Lacks is (c ∷ cs) h = (ground arith, has-Lacks is cs (ground arith))

abbrev delay_unif : Written
delay_unif = record {
  first = 100;
  others = codes "elay";
  params = [];
  last = nested (codes "unif") (codes "10, 20");
}

abbrev wait_r : Written
wait_r = record { first = 119; others = codes "ait"; params = []; last = plain (codes " R") }

abbrev wat_r : Written
wat_r = record { first = 119; others = codes "at"; params = []; last = plain (codes "R") }

delay_unif-IsWritten : IsWritten delay_unif
delay_unif-IsWritten = record {
  visible = refl;
  is_name = has-Lacks (λ c. c == open_par) (codes "delay") refl;
  are_params = tt;
  is_last = (
    has-Lacks (λ c. (c == comma) || (c == open_par)) (codes "unif") refl,
    has-Lacks (λ c. c == close_par) (codes "(10, 20") refl,
  );
  one_instr = has-Lacks (λ c. c == semicolon) (codes "delay(unif(10, 20))") refl;
}

wait_r-IsWritten : IsWritten wait_r
wait_r-IsWritten = record {
  visible = refl;
  is_name = has-Lacks (λ c. c == open_par) (codes "wait") refl;
  are_params = tt;
  is_last = has-Lacks (λ c. (c == comma) || (c == open_par)) (codes " R") refl;
  one_instr = has-Lacks (λ c. c == semicolon) (codes "wait( R)") refl;
}

wat_r-IsWritten : IsWritten wat_r
wat_r-IsWritten = record {
  visible = refl;
  is_name = has-Lacks (λ c. c == open_par) (codes "wat") refl;
  are_params = tt;
  is_last = has-Lacks (λ c. (c == comma) || (c == open_par)) (codes "R") refl;
  one_instr = has-Lacks (λ c. c == semicolon) (codes "wat(R)") refl;
}

insert_code-written_example :
    insert_code outside (codes "T") [] (codes "delay(unif(10, 20));wait( R);") ≡ (
      some (exec_instr (some 7) (some (uniform_var 10 20)))
          ∷ some (wait_instr (some 7) (codes "R") 1)
          ∷ [],
      ok tt,
    )
unfolding create instr_registry remove_spaces
insert_code-written_example =
    insert_code-written outside (codes "T") [] (delay_unif ∷ wait_r ∷ []) []
      (delay_unif-IsWritten, (wait_r-IsWritten, tt)) tt

insert_code-unknown_example :
    insert_code outside (codes "T") [] (codes "wat(R);wait( R);")
    ≡ insert_code outside (codes "T") (none ∷ []) (codes "wait( R);")
unfolding find_fn instr_registry
insert_code-unknown_example =
    insert_code-unknown outside (codes "T") [] wat_r (wait_r ∷ []) [] refl wat_r-IsWritten
      (wait_r-IsWritten, tt) tt

-- Numbers of each kind, and what each goes on to.
insert_code_numbers :
    insert_code outside
      (codes "T")
      []
      (codes " fixed(0x1F);delay(010); suspend(-1);signal(R);fixed(99999999999999999999);")
    ≡ (
      some (fixed_instr (some 7) 31)
          ∷ some (fixed_instr (some 7) 8)
          ∷ some (suspend_instr (some 7) 18446744073709551615)
          ∷ some (signal_instr (some 7) (codes "R") 1)
          ∷ some (fixed_instr (some 7) 18446744073709551615)
          ∷ [],
      ok tt,
    )
unfolding insert_code
insert_code_numbers = refl

-- A variable that is not known leaves the instruction without a cost.
insert_code_unknown_var :
    insert_code outside (codes "T") [] (codes "delay(unfi(10,20));")
    ≡ (some (exec_instr (some 7) none) ∷ [], ok tt)
unfolding insert_code
insert_code_unknown_var = refl

insert_code_blank :
    insert_code outside (codes "T") [] (codes "wait(R); ;wait(S);")
    ≡ (some (wait_instr (some 7) (codes "R") 1) ∷ [], throw out_of_range)
unfolding insert_code
insert_code_blank = refl

insert_code_unclosed : insert_code outside (codes "T") [] (codes "delay(unif(10,20);") ≡ ([], hang)
unfolding insert_code
insert_code_unclosed = refl

parsevar_unknown : parsevar outside (codes "unfi(10,20)") ≡ throw parse_error
unfolding parsevar
parsevar_unknown = refl

parsevar_count : parsevar outside (codes "unif(10)") ≡ throw parse_error
unfolding parsevar remove_spaces
parsevar_count = refl

no_round_robin :
    create (sched_registry {S = ℕ} (λ p. ok 1) (λ p. ok 2) (λ p. ok 3)) (codes "RRSched") []
    ≡ ok none
unfolding create sched_registry
no_round_robin = refl

split_arrow :
    split (codes "a -> b ->c") (codes "->") ≡ some (codes "a" ∷ codes "b" ∷ codes "c" ∷ [])
unfolding remove_spaces
split_arrow =
    split-joined 45 (codes ">") (codes "a " ∷ codes " b " ∷ []) (codes "c")
      (
        has-Lacks (λ c. 45 == c) (codes "a ") refl,
        (has-Lacks (λ c. 45 == c) (codes " b ") refl, tt),
      )
      (has-Lacks (λ c. 45 == c) (codes "c") refl)

split_nothing : split (codes "a b") [] ≡ none
unfolding split
split_nothing = split_from-empty 4 (codes "a b")

parse_unit : parse_double (read_digits 10 0) (codes " 250us") ≡ (250, codes "us")
unfolding parse_double remove_spaces
parse_unit = refl
