-- ===== src/Factory/Instructions.antt =====
-- src/reginstr.cpp and the createInstance functions of src/exeinstr.cpp, src/waitinstr.cpp, src/threinstr.cpp,
-- src/schedinstr.cpp and src/suspend_instr.cpp: the instructions that the factory makes.
use sys_rt.Common.{
  ℕ, Bool, false, Option, List, [], ◌∷◌, Run, ok, throw, fault, ◌>>=◌, parse_error, if◌then◌else◌,
}
use sys_rt.Factory.{CreateFn, FnRegistry, codes, reg_create_fn}
use sys_rt.Factory.Numbers.{is_digit, strtoul, atoi}
use sys_rt.Factory.Variables.{Outside, RandomVar, make_var}

-- The classes, with the arguments of their constructors; every pointer may be NULL. SchedInstr
-- ignores its string.
pub data Instr (T D : Type 0) : Type 0 where
  exec_instr : Option T → Option (RandomVar D) → Instr T D
  fixed_instr suspend_instr : Option T → ℕ → Instr T D
  wait_instr signal_instr : Option T → List ℕ → ℕ → Instr T D
  thre_instr : Option T → List ℕ → Instr T D
  sched_instr : Option T → Instr T D

-- isdigit of the first character of the C string
abbrev pub starts_with_digit : List ℕ → Bool
starts_with_digit [] = false
starts_with_digit (c ∷ cs) = is_digit c

module _ {T D : Type 0} (o : Outside T D) where
  -- Parameters 0 and 1; a vector that is too short is read out of range.
  abbrev pub two_parameters : (List ℕ → List ℕ → Run (Instr T D)) → CreateFn (Instr T D)
  two_parameters make (a ∷ b ∷ par) = make a b
  two_parameters make par = fault

  unfoldable pub create_exec : CreateFn (Instr T D)
  unfolding strtoul make_var
  create_exec = two_parameters (λ a b.
      if starts_with_digit a
      then ok (fixed_instr (o.find_task b) (strtoul a))
      else make_var o a >>= λ var. ok (exec_instr (o.find_task b) var))

  unfoldable pub create_fixed : CreateFn (Instr T D)
  unfolding strtoul
  create_fixed = two_parameters (λ a b. ok (fixed_instr (o.find_task b) (strtoul a)))

  -- _numberOfRes is 1, the default of the constructor.
  unfoldable pub create_wait : CreateFn (Instr T D)
  create_wait = two_parameters (λ a b. ok (wait_instr (o.find_task b) a 1))

  unfoldable pub create_signal : CreateFn (Instr T D)
  create_signal = two_parameters (λ a b. ok (signal_instr (o.find_task b) a 1))

  unfoldable pub create_thre : CreateFn (Instr T D)
  create_thre = two_parameters (λ a b. ok (thre_instr (o.find_task b) a))

  unfoldable pub create_sched : CreateFn (Instr T D)
  create_sched = two_parameters (λ a b. ok (sched_instr (o.find_task b)))

  unfoldable pub create_suspend : CreateFn (Instr T D)
  unfolding atoi
  create_suspend (a ∷ b ∷ []) = atoi a >>= λ d. ok (suspend_instr (o.find_task b) d)
  create_suspend par = throw parse_error

  -- __reginstr_init
  unfoldable pub instr_registry : FnRegistry (Instr T D)
  unfolding reg_create_fn create_exec create_fixed create_wait create_signal create_thre
      create_sched create_suspend
  instr_registry = reg_create_fn (codes "suspend") create_suspend (
      reg_create_fn (codes "schedule") create_sched (
        reg_create_fn (codes "threshold") create_thre (
          reg_create_fn (codes "unlock") create_signal (
            reg_create_fn (codes "signal") create_signal (
              reg_create_fn (codes "lock") create_wait (
                reg_create_fn (codes "wait") create_wait (
                  reg_create_fn (codes "fixed") create_fixed
                    (reg_create_fn (codes "delay") create_exec []))))))))
