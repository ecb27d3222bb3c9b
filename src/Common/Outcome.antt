-- ===== src/Common/Outcome.antt =====
-- How a call ends: normally, by an exception of the program, by undefined behaviour of C++, or never.
use mathlib.Core.Path.{◌≡◌, refl, subst}
use mathlib.Core.Option.{Option, none, some}

pub data Exc : Type 0 where
  res_manager_not_set no_task_model no_owner_model task_not_found element_present : Exc
  cannot_change_priority wrong_number_of_parameters empty_task task_not_active : Exc
  task_not_executing kernel_not_found parse_error out_of_range file_not_open : Exc

-- `fault` is undefined behaviour (a NULL pointer followed, the end iterator erased), `hang` a loop
-- that never ends.
pub data Run {ℓ} (X : Type ℓ) : Type ℓ where
  ok : X → Run X
  throw : Exc → Run X
  fault hang : Run X

infixl 5 ◌>>=◌
abbrev pub ◌>>=◌ {ℓ κ} : {X : Type ℓ} {Y : Type κ} → Run X → (X → Run Y) → Run Y
ok x >>= f = f x
throw e >>= f = throw e
fault >>= f = fault
hang >>= f = hang

-- A pointer that the code follows without a test.
abbrev pub deref {ℓ} : {A : Type ℓ} → Option A → Run A
deref none = fault
deref (some a) = ok a

abbrev pub or_throw {ℓ} : {A : Type ℓ} → Option A → Exc → Run A
or_throw none e = throw e
or_throw (some a) e = ok a

pub >>=-eq-ok {ℓ κ} :
    {X : Type ℓ} {Y : Type κ} (m : Run X) (f : X → Run Y) {y : Y}
    → (m >>= f) ≡ ok y
    → (x : X) × (m ≡ ok x) × (f x ≡ ok y)
>>=-eq-ok (ok x) f h = (x, refl, h)
>>=-eq-ok (throw e) f h = cc
>>=-eq-ok fault f h = cc
>>=-eq-ok hang f h = cc

-- The call returns normally, with a value that has the property.
abbrev pub Returns {ℓ} : {A : Type ℓ} → (A → Type 0) → Run A → Type 0
Returns P (ok a) = P a
Returns P (throw e) = ⊥
Returns P fault = ⊥
Returns P hang = ⊥

pub Returns-bind {ℓ κ} :
    {A : Type ℓ} {B : Type κ} (P : A → Type 0) (Q : B → Type 0) (m : Run A) (f : A → Run B)
    → Returns P m
    → ((a : A) → P a → Returns Q (f a))
    → Returns Q (m >>= f)
Returns-bind P Q (ok a) f h k = k a h
Returns-bind P Q (throw e) f h k = absurd h
Returns-bind P Q fault f h k = absurd h
Returns-bind P Q hang f h k = absurd h

pub Returns-inv {ℓ} :
    {A : Type ℓ} (P : A → Type 0) (m : Run A) → Returns P m → (a : A) × (m ≡ ok a) × P a
Returns-inv P (ok a) h = (a, refl, h)
Returns-inv P (throw e) h = absurd h
Returns-inv P fault h = absurd h
Returns-inv P hang h = absurd h

pub Returns-map {ℓ} :
    {A : Type ℓ} (P Q : A → Type 0) (m : Run A) → Returns P m → ((a : A) → P a → Q a) → Returns Q m
Returns-map P Q (ok a) h k = k a h
Returns-map P Q (throw e) h k = absurd h
Returns-map P Q fault h k = absurd h
Returns-map P Q hang h k = absurd h

-- Two properties of the result make a third.
pub Returns-both {ℓ} :
    {A : Type ℓ} (P Q R : A → Type 0) (m : Run A)
    → Returns P m
    → Returns Q m
    → ((a : A) → P a → Q a → R a)
    → Returns R m
Returns-both P Q R (ok a) h g k = k a h g
Returns-both P Q R (throw e) h g k = absurd h
Returns-both P Q R fault h g k = absurd h
Returns-both P Q R hang h g k = absurd h

-- A property of the first two steps serves the third.
pub Returns-bind₂ {ℓ κ ℓ'} :
    {A : Type ℓ} {B : Type κ} {C : Type ℓ'} (P : B → Type 0) (Q : C → Type 0) (m : Run A)
    (f : A → Run B) (k : B → Run C)
    → Returns P (m >>= f)
    → ((b : B) → P b → Returns Q (k b))
    → Returns Q (m >>= λ a. f a >>= k)
Returns-bind₂ P Q (ok a) f k h g = Returns-bind P Q (f a) k h g
Returns-bind₂ P Q (throw e) f k h g = absurd h
Returns-bind₂ P Q fault f k h g = absurd h
Returns-bind₂ P Q hang f k h g = absurd h

-- A pointer that is not NULL is followed.
pub deref-bind {ℓ κ} :
    {A : Type ℓ} {B : Type κ} (o : Option A) (a : A) (f : A → Run B)
    → o ≡ some a
    → (deref o >>= f) ≡ f a
deref-bind o a f e = rw e refl

pub Returns_ok {ℓ} :
    {A : Type ℓ} (P : A → Type 0) (m : Run A) {a : A} → Returns P m → m ≡ ok a → P a
Returns_ok P m h e = subst (Returns P) e h

pub Returns-unbind {ℓ κ} :
    {A : Type ℓ} {B : Type κ} (P : B → Type 0) (m : Run A) (f : A → Run B)
    → Returns P (m >>= f)
    → Returns (λ a. Returns P (f a)) m
Returns-unbind P (ok a) f h = h
Returns-unbind P (throw x) f h = h
Returns-unbind P fault f h = h
Returns-unbind P hang f h = h

-- What faults on each result that a call can give faults behind the call.
pub bind-fault {ℓ κ} :
    {A : Type ℓ} {B : Type κ} (P : A → Type 0) (m : Run A) (f : A → Run B)
    → Returns P m
    → ((a : A) → P a → f a ≡ fault)
    → (m >>= f) ≡ fault
bind-fault P (ok a) f h e = e a h
bind-fault P (throw x) f h e = absurd h
bind-fault P fault f h e = absurd h
bind-fault P hang f h e = absurd h

-- If the call returns normally, its value has the property.
abbrev pub IfReturns {ℓ} : {A : Type ℓ} → (A → Type 0) → Run A → Type 0
IfReturns P (ok a) = P a
IfReturns P (throw e) = Unit
IfReturns P fault = Unit
IfReturns P hang = Unit

pub IfReturns-bind {ℓ κ} :
    {A : Type ℓ} {B : Type κ} (Q : B → Type 0) (m : Run A) (f : A → Run B)
    → ((a : A) → m ≡ ok a → IfReturns Q (f a))
    → IfReturns Q (m >>= f)
IfReturns-bind Q (ok a) f h = h a refl
IfReturns-bind Q (throw e) f h = tt
IfReturns-bind Q fault f h = tt
IfReturns-bind Q hang f h = tt

pub IfReturns_ok {ℓ} :
    {A : Type ℓ} (P : A → Type 0) (m : Run A) {a : A} → IfReturns P m → m ≡ ok a → P a
IfReturns_ok P m h e = subst (IfReturns P) e h

pub IfReturns-map {ℓ} :
    {A : Type ℓ} (P Q : A → Type 0) (m : Run A)
    → IfReturns P m
    → ((a : A) → P a → Q a)
    → IfReturns Q m
IfReturns-map P Q (ok a) h k = k a h
IfReturns-map P Q (throw e) h k = tt
IfReturns-map P Q fault h k = tt
IfReturns-map P Q hang h k = tt

pub Returns-bind_ok {ℓ κ} :
    {A : Type ℓ} {B : Type κ} (P : B → Type 0) (m : Run A) (f : A → Run B) (a : A)
    → m ≡ ok a
    → Returns P (f a)
    → Returns P (m >>= f)
Returns-bind_ok P m f a e h = rw e h
