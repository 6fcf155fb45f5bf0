-- ===== src/Prelude/Errors.antt =====
-- Code that may raise: the exception is a value of the component's own error type.
use mathlib.Core.Path.{◌≡◌, refl}
use mathlib.Core.Bool.{Bool, true, false}

pub data Result {ℓ κ} (E : Type ℓ) (A : Type κ) : Type (ℓ ⊔ κ) where
  ok : A → Result E A
  err : E → Result E A

infixl 5 ◌>>=◌ ◌>>◌
abbrev pub ◌>>=◌ {ℓ κ μ} :
    {E : Type ℓ} {A : Type κ} {B : Type μ} → Result E A → (A → Result E B) → Result E B
ok a >>= f = f a
err e >>= f = err e

abbrev pub ◌>>◌ {ℓ κ} : {E : Type ℓ} {B : Type κ} → Result E (Unit {0}) → Result E B → Result E B
m >> k = m >>= λ _. k

-- `if test: raise e`
abbrev pub refuse {ℓ} : {E : Type ℓ} → Bool → E → Result E (Unit {0})
refuse true e = err e
refuse false e = ok tt

-- Inversion of a successful bind, for proofs where the parts stay shut.
pub >>=-eq-ok {ℓ κ μ} :
    {E : Type ℓ} {A : Type κ} {B : Type μ} (first : Result E A) (next : A → Result E B) {out : B}
    → (first >>= next) ≡ ok out
    → (mid : A) × (first ≡ ok mid) × (next mid ≡ ok out)
>>=-eq-ok (ok mid) next returned = (mid, refl, returned)
>>=-eq-ok (err raised) next returned = cc

pub Result-cases {ℓ κ} :
    {E : Type ℓ} {A : Type κ} (r : Result E A) (P : Result E A → Type κ)
    → ((a : A) → r ≡ ok a → P (ok a))
    → ((e : E) → r ≡ err e → P (err e))
    → P r
Result-cases (ok a) P f g = f a refl
Result-cases (err e) P f g = g e refl

pub ok-inj {ℓ κ} : {E : Type ℓ} {A : Type κ} {a b : A} → ◌≡◌ {A = Result E A} (ok a) (ok b) → a ≡ b
ok-inj e = cc

-- A test that was passed was false.
pub refuse-eq-ok {ℓ κ} :
    {E : Type ℓ} {A : Type κ} (test : Bool) (e : E) (m : Result E A) {a : A}
    → (refuse test e >> m) ≡ ok a
    → (test ≡ false) × (m ≡ ok a)
refuse-eq-ok true e m h = (cc, cc)
refuse-eq-ok false e m h = (refl, h)

-- The same inversions with the parts as variables, for a chain of steps.
pub bind_elim {ℓ κ μ ν} :
    {E : Type ℓ} {A : Type κ} {B : Type μ} {P : Type ν} (m : Result E A) (f : A → Result E B)
    {b : B}
    → (m >>= f) ≡ ok b
    → ((a : A) → m ≡ ok a → f a ≡ ok b → P)
    → P
bind_elim (ok a) f h k = k a refl h
bind_elim (err e) f h k = cc

-- A chain raises what one of its steps raises.
pub bind_ne {ℓ κ μ} :
    {E : Type ℓ} {A : Type κ} {B : Type μ} (x : E) (m : Result E A) (f : A → Result E B)
    → ¬ (m ≡ err x)
    → ((a : A) → ¬ (f a ≡ err x))
    → ¬ ((m >>= f) ≡ err x)
bind_ne x (ok a) f h k = k a
bind_ne x (err e) f h k = λ p. h (cc)

-- A chain that succeeds passed its first check.
pub after-eq-ok {ℓ κ} :
    {E : Type ℓ} {A : Type κ} (m : Result E (Unit {0})) (k : Result E A) {a : A}
    → (m >> k) ≡ ok a
    → k ≡ ok a
after-eq-ok (ok x) k h = h
after-eq-ok (err e) k h = cc
