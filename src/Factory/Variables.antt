-- ===== src/Factory/Variables.antt =====
-- src/randomvar.cpp, src/regvar.hpp, src/regvar.cpp: the random variables that the factory makes, their
-- createInstance functions and parsevar.
use sys_rt.Common.{
  ℕ, Option, none, some, List, [], ◌∷◌, Run, ok, throw, hang, ◌>>=◌, or_throw, parse_error,
  file_not_open, out_of_range,
}
use sys_rt.StrToken.{get_token, get_param, split_param}
use sys_rt.Factory.{CreateFn, FnRegistry, codes, reg_create_fn, create}

-- What is outside: sc_find_object with the cast to a Task, atof, and the values that reading a
-- file to its end gives, if it can be opened. T is a task and D a double.
pub record Outside (T D : Type 0) : Type 0 where
  pub find_task : List ℕ → Option T
  pub atof : List ℕ → D
  pub read_file : List ℕ → Option (List D)

-- The classes, with the arguments of their constructors.
pub data RandomVar (D : Type 0) : Type 0 where
  delta_var exponential_var poisson_var : D → RandomVar D
  uniform_var pareto_var normal_var : D → D → RandomVar D
  det_var : List D → RandomVar D

-- ( and ) and the comma, the default arguments of the helpers
abbrev pub open_par : ℕ
open_par = 40

abbrev pub close_par : ℕ
close_par = 41

abbrev pub comma : ℕ
comma = 44

-- The loop of split_param goes round for ever if a parenthesis stays open.
unfoldable pub split : List ℕ → Run (List (List ℕ))
unfolding split_param
split p = elim (split_param comma open_par close_par p) [ none ↦ hang | some parms ↦ ok parms ]

module _ {T D : Type 0} (o : Outside T D) where
  -- createInstance of each class; atof reads every text.
  unfoldable pub create_delta : CreateFn (RandomVar D)
  create_delta (a ∷ []) = ok (delta_var (o.atof a))
  create_delta par = throw parse_error

  unfoldable pub create_uniform : CreateFn (RandomVar D)
  create_uniform (a ∷ b ∷ []) = ok (uniform_var (o.atof a) (o.atof b))
  create_uniform par = throw parse_error

  unfoldable pub create_exponential : CreateFn (RandomVar D)
  create_exponential (a ∷ []) = ok (exponential_var (o.atof a))
  create_exponential par = throw parse_error

  unfoldable pub create_pareto : CreateFn (RandomVar D)
  create_pareto (a ∷ b ∷ []) = ok (pareto_var (o.atof a) (o.atof b))
  create_pareto par = throw parse_error

  unfoldable pub create_normal : CreateFn (RandomVar D)
  create_normal (a ∷ b ∷ []) = ok (normal_var (o.atof a) (o.atof b))
  create_normal par = throw parse_error

  unfoldable pub create_poisson : CreateFn (RandomVar D)
  create_poisson (a ∷ []) = ok (poisson_var (o.atof a))
  create_poisson par = throw parse_error

  unfoldable pub create_det : CreateFn (RandomVar D)
  create_det (a ∷ []) = or_throw (o.read_file a) file_not_open >>= λ v. ok (det_var v)
  create_det par = throw parse_error

  -- The objects of __var_stub register the classes in this order.
  unfoldable pub var_registry : FnRegistry (RandomVar D)
  unfolding reg_create_fn create_delta create_uniform create_exponential create_pareto create_normal
      create_poisson create_det
  var_registry = reg_create_fn (codes "trace") create_det (
      reg_create_fn (codes "poisson") create_poisson (
        reg_create_fn (codes "pareto") create_pareto (
          reg_create_fn (codes "exponential") create_exponential (
            reg_create_fn (codes "exp") create_exponential (
              reg_create_fn (codes "gauss") create_normal (
                reg_create_fn (codes "normal") create_normal (
                  reg_create_fn (codes "uniform") create_uniform (
                    reg_create_fn (codes "unif") create_uniform
                      (reg_create_fn (codes "delta") create_delta [])))))))))

  -- The variable that a text describes, NULL for an unknown name.
  unfoldable pub make_var : List ℕ → Run (Option (RandomVar D))
  unfolding get_token get_param split create var_registry
  make_var str = do
    token ← or_throw (get_token open_par str) out_of_range
    parms ← split (get_param open_par close_par str)
    create var_registry token parms

  unfoldable pub parsevar : List ℕ → Run (RandomVar D)
  unfolding make_var
  parsevar str = do var ← make_var str; or_throw var parse_error
