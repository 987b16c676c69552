-- ===== src/Prelude/Results.antt =====
-- Python's exceptions as values: a call raises `e`, or returns.
use mathlib.Core.Path.{◌≡◌, refl, ap, subst}
use mathlib.Core.Option.{Option, none, some}

pub data Result {ℓ} (E : Type 0) (A : Type ℓ) : Type ℓ where
  err : E → Result E A
  ok : A → Result E A

-- a test that raises
abbrev pub from_option {ℓ} : {A : Type ℓ} {E : Type 0} → E → Option A → Result E A
from_option e none = err e
from_option e (some a) = ok a

module _ {E : Type 0} where
  infixl 5 ◌>>=◌
  abbrev pub ◌>>=◌ {ℓ κ} : {A : Type ℓ} {B : Type κ} → Result E A → (A → Result E B) → Result E B
  err e >>= k = err e
  ok a >>= k = k a

  pub ok_inj {ℓ} : {A : Type ℓ} {a b : A} → ◌≡◌ {A = Result E A} (ok a) (ok b) → a ≡ b
  ok_inj {b = b} e = ap (λ r. elim r [ err _ ↦ b | ok x ↦ x ]) e

  pub >>=-ok {ℓ κ} :
      {A : Type ℓ} {B : Type κ} {b : B} (m : Result E A) (k : A → Result E B)
      → (m >>= k) ≡ ok b
      → (a : A) × (m ≡ ok a) × (k a ≡ ok b)
  >>=-ok (err e) k h = cc
  >>=-ok (ok a) k h = (a, refl, h)

  pub >>=-assoc {ℓ κ μ} :
      {A : Type ℓ} {B : Type κ} {C : Type μ} (m : Result E A) (f : A → Result E B)
      (g : B → Result E C)
      → ((m >>= f) >>= g) ≡ (m >>= λ a. f a >>= g)
  >>=-assoc (err e) f g = refl
  >>=-assoc (ok a) f g = refl

-- what holds of the value, if there is one
abbrev pub Ensures {ℓ κ} : {A : Type ℓ} {E : Type 0} → (A → Type κ) → Result E A → Type κ
Ensures P (err e) = Unit
Ensures P (ok a) = P a

module _ {E : Type 0} where
  pub Ensures-any : {A : Type 0} (m : Result E A) → Ensures (λ _. Unit {0}) m
  Ensures-any (err e) = tt
  Ensures-any (ok a) = tt

  pub bind-Ensures :
      {A B : Type 0} (P : A → Type 0) (Q : B → Type 0) (m : Result E A) (k : A → Result E B)
      → Ensures P m
      → ((a : A) → P a → Ensures Q (k a))
      → Ensures Q (m >>= k)
  bind-Ensures P Q (err e) k h f = tt
  bind-Ensures P Q (ok a) k h f = f a h

  pub Ensures-map :
      {A : Type 0} (P Q : A → Type 0) (m : Result E A)
      → ((a : A) → P a → Q a)
      → Ensures P m
      → Ensures Q m
  Ensures-map P Q (err e) f h = tt
  Ensures-map P Q (ok a) f h = f a h

  -- the value of a call that returned
  pub ensured :
      {A : Type 0} (P : A → Type 0) (m : Result E A) {a : A} → m ≡ ok a → Ensures P m → P a
  ensured P (err e) h p = absurd (err_ne h)
    where
      err_ne : {A : Type 0} {e : E} {a : A} → ◌≡◌ {A = Result E A} (err e) (ok a) → ⊥
      err_ne h = cc
  ensured P (ok b) h p = subst P (ok_inj h) p
