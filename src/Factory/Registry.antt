-- ===== src/Factory/Registry.antt =====
-- src/factory.hpp: what a factory makes after a registration.
use sys_rt.Common.{
  ℕ, ◌≡◌, refl, sym, ◌∙◌, subst, inl, inr, true, false, none, some, List, [], ◌∷◌, ok, ◌>>=◌,
  ==_refl, arith, Bool-cases, if◌then◌else◌,
}
use sys_rt.Factory.{same_text, CreateFn, FnRegistry, reg_create_fn, find_fn, create}

pub same_text_refl : (s : List ℕ) → same_text s s ≡ true
same_text_refl [] = refl
same_text_refl (c ∷ s) = rw (==_refl c, same_text_refl s) refl

same_text-eq : (r s : List ℕ) → same_text r s ≡ true → r ≡ s
same_text-eq [] [] h = refl
same_text-eq [] (c ∷ s) h = absurd (ground arith)
same_text-eq (b ∷ r) [] h = absurd (ground arith)
same_text-eq (b ∷ r) (c ∷ s) h =
    let same : b ≡ c = ground arith in
    let rest : same_text r s ≡ true = ground arith in cc (same, same_text-eq r s rest)

-- A name that is one text is not another.
same_text-differs :
    (r s t : List ℕ) → same_text r s ≡ true → same_text t s ≡ false → same_text r t ≡ false
same_text-differs r s t h k = elim (Bool-cases (same_text r t)) [
  | inl same ↦
      let equal : t ≡ s = sym (same_text-eq r t same) ∙ same_text-eq r s h in
      let self : same_text s s ≡ true = same_text_refl s in
      let bad : same_text s s ≡ false = subst (λ x. same_text x s ≡ false) equal k in
      absurd (ground arith)
  | inr other ↦ other
]

find_fn-replaced :
    {X : Type 0} (cl_name class_name k : List ℕ) (func f : CreateFn X) (r : FnRegistry X)
    → same_text cl_name k ≡ true
    → find_fn (reg_create_fn cl_name func ((k, f) ∷ r)) class_name
      ≡ (if same_text class_name cl_name then some func else find_fn ((k, f) ∷ r) class_name)
unfolding find_fn reg_create_fn
find_fn-replaced cl_name class_name k func f r same =
    rw (same, same_text-eq cl_name k same)
      (elim (Bool-cases (same_text class_name k)) [
        | inl here ↦ rw here refl
        | inr there ↦ rw there refl
      ])

find_fn-reg_create_fn :
    {X : Type 0} (cl_name class_name : List ℕ) (func : CreateFn X) (r : FnRegistry X)
    → find_fn (reg_create_fn cl_name func r) class_name
      ≡ (if same_text class_name cl_name then some func else find_fn r class_name)
unfolding find_fn reg_create_fn
find_fn-reg_create_fn cl_name class_name func [] = refl
find_fn-reg_create_fn cl_name class_name func ((k, f) ∷ r) =
    let rest = find_fn-reg_create_fn cl_name class_name func r in
    elim (Bool-cases (same_text cl_name k)) [
      | inl same ↦ find_fn-replaced cl_name class_name k func f r same
      | inr other ↦ rw other (elim (Bool-cases (same_text class_name k)) [
        | inl here ↦ rw (here, same_text-differs class_name k cl_name here other) refl
        | inr there ↦ rw there rest
      ])
    ]

-- After the registration of a function under a name, create with that name calls the function,
-- also if there was one under it before, and with any other name does as it did.
pub create-reg_create_fn :
    {X : Type 0} (cl_name class_name : List ℕ) (func : CreateFn X) (r : FnRegistry X)
    (parms : List (List ℕ))
    → create (reg_create_fn cl_name func r) class_name parms ≡ (
        if same_text class_name cl_name
        then func parms >>= (λ x. ok (some x))
        else create r class_name parms)
unfolding create
create-reg_create_fn cl_name class_name func r parms =
    rw (create, find_fn-reg_create_fn cl_name class_name func r)
      (elim (Bool-cases (same_text class_name cl_name)) [
        | inl same ↦ rw same refl
        | inr other ↦ rw other refl
      ])

-- For a name that is not registered the result is NULL.
pub create-none :
    {X : Type 0} (r : FnRegistry X) (class_name : List ℕ) (parms : List (List ℕ))
    → find_fn r class_name ≡ none
    → create r class_name parms ≡ ok none
unfolding create
create-none r class_name parms h = rw (create, h) refl
