-- ===== src/Prelude/Outcomes.antt =====
-- How a call of the C code ends: it returns, it ends the process by the macro `Error` of
-- ioriot/src/macros.h, or it does what C leaves undefined.

pub data Outcome {ℓ} (A : Type ℓ) : Type ℓ where
  ok : A → Outcome A
  exit : Outcome A
  fault : Outcome A

infixl 5 ◌>>=◌
unfoldable pub ◌>>=◌ {ℓ κ} : {A : Type ℓ} {B : Type κ} → Outcome A → (A → Outcome B) → Outcome B
ok a >>= f = f a
exit >>= f = exit
fault >>= f = fault

-- What a call leaves, if it returns, has the property.
abbrev pub Holds {ℓ} : {A : Type ℓ} → (A → Type 0) → Outcome A → Type 0
Holds P (ok a) = P a
Holds P exit = Unit
Holds P fault = Unit

pub Holds-bind {ℓ κ} :
    {A : Type ℓ} {B : Type κ} (P : A → Type 0) (Q : B → Type 0) (m : Outcome A) (f : A → Outcome B)
    → Holds P m
    → ((a : A) → P a → Holds Q (f a))
    → Holds Q (m >>= f)
unfolding ◌>>=◌
Holds-bind P Q (ok a) f h k = k a h
Holds-bind P Q exit f h k = tt
Holds-bind P Q fault f h k = tt

pub Holds-any {ℓ} : {A : Type ℓ} (m : Outcome A) → Holds (λ _. Unit) m
Holds-any (ok a) = tt
Holds-any exit = tt
Holds-any fault = tt

pub Holds-weaken {ℓ} :
    {A : Type ℓ} (P Q : A → Type 0) (m : Outcome A) → ((a : A) → P a → Q a) → Holds P m → Holds Q m
Holds-weaken P Q (ok a) k h = k a h
Holds-weaken P Q exit k h = tt
Holds-weaken P Q fault k h = tt
