-- ===== src/Prelude/Outcomes.antt =====
-- What a call returns: a value, or the error that stands for why there is none.
use mathlib.Core.Bool.{Bool, true, false}
use mathlib.Core.Path.{◌≡◌, refl}
use mathlib.Core.Logic.{◌⊎◌, inl, inr}

pub data Outcome {ℓ κ} (E : Type ℓ) (V : Type κ) : Type (ℓ ⊔ κ) where
  err : E → Outcome E V
  ok : V → Outcome E V

infixl 5 ◌>>=◌ ◌>>◌
abbrev pub ◌>>=◌ {ℓ κ μ} :
    {E : Type ℓ} {V : Type κ} {W : Type μ} → Outcome E V → (V → Outcome E W) → Outcome E W
m >>= next = elim m [ err e ↦ err e | ok v ↦ next v ]

abbrev pub ◌>>◌ {ℓ κ} : {E : Type ℓ} {W : Type κ} → Outcome E (Unit {0}) → Outcome E W → Outcome E W
m >> next = elim m [ err e ↦ err e | ok _ ↦ next ]

-- A failure that the caller replaces by its own error.
abbrev pub or_fail {ℓ κ} : {E : Type ℓ} {V : Type κ} → Outcome E V → E → Outcome E V
or_fail m e = elim m [ err _ ↦ err e | ok v ↦ ok v ]

-- A guard: the error when the condition does not hold.
abbrev pub check {ℓ} : {E : Type ℓ} → Bool → E → Outcome E (Unit {0})
check b e = elim b [ false ↦ err e | true ↦ ok tt ]

pub Outcome-cases {ℓ κ} :
    {E : Type ℓ} {V : Type κ} (m : Outcome E V) → ((e : E) × (m ≡ err e)) ⊎ ((v : V) × (m ≡ ok v))
Outcome-cases (err e) = inl (e, refl)
Outcome-cases (ok v) = inr (v, refl)

abbrev pub is_ok {ℓ κ} : {E : Type ℓ} {V : Type κ} → Outcome E V → Bool
is_ok (err e) = false
is_ok (ok v) = true
