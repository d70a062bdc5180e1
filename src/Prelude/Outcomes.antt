-- ===== src/Prelude/Outcomes.antt =====
-- `Result<T, Box<dyn Error>>`, and code that may panic.
pub data Result {ℓ} (A : Type ℓ) : Type ℓ where
  ok : A → Result A
  err : Result A

-- A panic ends the whole process: the panic hook calls `process::exit(1)`.
pub data Outcome {ℓ} (A : Type ℓ) : Type ℓ where
  done : A → Outcome A
  panic : Outcome A

infixl 5 ◌>>=◌
abbrev pub ◌>>=◌ {ℓ κ} : {A : Type ℓ} {B : Type κ} → Outcome A → (A → Outcome B) → Outcome B
done a >>= f = f a
panic >>= f = panic

-- The code does not panic, and what it returns satisfies `P`.
abbrev pub Returns {ℓ} : {A : Type ℓ} → (A → Type 0) → Outcome A → Type 0
Returns P (done a) = P a
Returns P panic = ⊥

pub Returns-bind {ℓ κ} :
    {A : Type ℓ} {B : Type κ} (Q : A → Type 0) (P : B → Type 0) (m : Outcome A) (f : A → Outcome B)
    → Returns Q m
    → ((a : A) → Q a → Returns P (f a))
    → Returns P (m >>= f)
Returns-bind Q P (done a) f h k = k a h
Returns-bind Q P panic f h k = absurd h

pub Returns-imp {ℓ} :
    {A : Type ℓ} (Q P : A → Type 0)
    → ((a : A) → Q a → P a)
    → (m : Outcome A) → Returns Q m
    → Returns P m
Returns-imp Q P f (done a) h = f a h
Returns-imp Q P f panic h = h

-- If the code does not panic, what it returns satisfies `P`.
abbrev pub Ends {ℓ} : {A : Type ℓ} → (A → Type 0) → Outcome A → Type 0
Ends P (done a) = P a
Ends P panic = Unit

pub Ends-bind {ℓ κ} :
    {A : Type ℓ} {B : Type κ} (Q : A → Type 0) (P : B → Type 0) (m : Outcome A) (f : A → Outcome B)
    → Ends Q m
    → ((a : A) → Q a → Ends P (f a))
    → Ends P (m >>= f)
Ends-bind Q P (done a) f h k = k a h
Ends-bind Q P panic f h k = tt

pub Ends-all {ℓ} : {A : Type ℓ} (P : A → Type 0) → ((a : A) → P a) → (m : Outcome A) → Ends P m
Ends-all P h (done a) = h a
Ends-all P h panic = tt

pub Ends-imp {ℓ} :
    {A : Type ℓ} (Q P : A → Type 0) → ((a : A) → Q a → P a) → (m : Outcome A) → Ends Q m → Ends P m
Ends-imp Q P f (done a) h = f a h
Ends-imp Q P f panic h = tt
