-- ===== src/Factory.antt =====
-- src/factory.hpp: genericFactory, which makes objects by the name of their class. A std::string is the list
-- of its characters' codes, and the std::map of a factory an association list.
pub mod Registry
pub mod Written
pub mod Numbers
pub mod Variables
pub mod Instructions
pub mod Schedulers
pub mod Code
use Prim.Native.Char.{code}
use Prim.Native.String.{String}
use sys_rt.Common.{
  ℕ, Bool, true, false, ◌&&◌, Option, none, some, List, [], ◌∷◌, Run, ok, ◌>>=◌, ◌==◌,
  if◌then◌else◌,
}

abbrev pub codes : String → List ℕ
codes String.[] = []
codes (String.◌∷◌ c s) = code c ∷ codes s

abbrev pub same_text : List ℕ → List ℕ → Bool
same_text [] [] = true
same_text [] (c ∷ s) = false
same_text (b ∷ r) [] = false
same_text (b ∷ r) (c ∷ s) = (b == c) && same_text r s

-- BASE_CREATE_FN
abbrev pub CreateFn : Type 0 → Type 0
CreateFn X = List (List ℕ) → Run X

-- FN_REGISTRY
abbrev pub FnRegistry : Type 0 → Type 0
FnRegistry X = List (List ℕ × CreateFn X)

unfoldable pub reg_create_fn : {X : Type 0} → List ℕ → CreateFn X → FnRegistry X → FnRegistry X
reg_create_fn cl_name func [] = (cl_name, func) ∷ []
reg_create_fn cl_name func ((k, f) ∷ r) =
    let rest = reg_create_fn cl_name func r in
    if same_text cl_name k then (k, func) ∷ r else (k, f) ∷ rest

unfoldable pub find_fn : {X : Type 0} → FnRegistry X → List ℕ → Option (CreateFn X)
find_fn [] class_name = none
find_fn ((k, f) ∷ r) class_name =
    let rest = find_fn r class_name in if same_text class_name k then some f else rest

-- An auto_ptr that holds NULL is `none`.
unfoldable pub create : {X : Type 0} → FnRegistry X → List ℕ → List (List ℕ) → Run (Option X)
unfolding find_fn
create r class_name parms = elim (find_fn r class_name) [
  | none ↦ ok none
  | some f ↦ f parms >>= λ x. ok (some x)
]
