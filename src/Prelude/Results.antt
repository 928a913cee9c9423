-- ===== src/Prelude/Results.antt =====
-- A Go pair `(value, error)`: either a value or an error.
use mathlib.Core.Path.{◌≡◌, refl}
use mathlib.Core.Logic.{◌⊎◌, inl, inr}
use mathlib.Core.Bool.{Bool, true, false}

pub data Result {ℓ κ} (Failure : Type ℓ) (Value : Type κ) : Type (ℓ ⊔ κ) where
  err : Failure → Result Failure Value
  ok : Value → Result Failure Value

-- `if bad { return failure }`
abbrev pub reject_if {ℓ} : {Failure : Type ℓ} → Bool → Failure → Result Failure (Unit {0})
reject_if bad failure = elim bad [ false ↦ ok tt | true ↦ err failure ]

-- The statements after a check run only where it did not return.
infixl 5 ◌>>=◌ ◌>>◌
abbrev pub ◌>>=◌ {ℓ κ μ} :
    {Failure : Type ℓ} {V : Type κ} {W : Type μ}
    → Result Failure V
    → (V → Result Failure W)
    → Result Failure W
err failure >>= rest = err failure
ok value >>= rest = rest value

abbrev pub ◌>>◌ {ℓ κ} :
    {Failure : Type ℓ} {W : Type κ}
    → Result Failure (Unit {0})
    → Result Failure W
    → Result Failure W
err failure >> rest = err failure
ok _ >> rest = rest

-- Inversion of a successful bind.
pub bind_inversion {ℓ κ μ} :
    {Failure : Type ℓ} {V : Type κ} {W : Type μ} (first : Result Failure V)
    (rest : V → Result Failure W) {out : W}
    → (first >>= rest) ≡ ok out
    → (value : V) × (first ≡ ok value) × (rest value ≡ ok out)
bind_inversion (err failure) rest done = cc
bind_inversion (ok value) rest done = (value, refl, done)

pub reject_if-eq-ok {ℓ κ} :
    {E : Type ℓ} {B : Type κ} (b : Bool) (e : E) (m : Result E B) {x : B}
    → (reject_if b e >> m) ≡ ok x
    → (b ≡ false) × (m ≡ ok x)
reject_if-eq-ok true e m h = cc
reject_if-eq-ok false e m h = (refl, h)

abbrev or_value {ℓ κ} : {E : Type ℓ} {A : Type κ} → A → Result E A → A
or_value d (ok a) = a
or_value d (err e) = d

pub ok-injective {ℓ κ} :
    {E : Type ℓ} {A : Type κ} {a b : A} → ◌≡◌ {A = Result E A} (ok a) (ok b) → a ≡ b
ok-injective {a} p = λ i. or_value a (p i)

pub Result-cases {ℓ κ} :
    {Failure : Type ℓ} {Value : Type κ} (r : Result Failure Value)
    → ((failure : Failure) × (r ≡ err failure)) ⊎ ((value : Value) × (r ≡ ok value))
Result-cases (err failure) = inl (failure, refl)
Result-cases (ok value) = inr (value, refl)
