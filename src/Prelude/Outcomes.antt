-- ===== src/Prelude/Outcomes.antt =====
-- What a fallible Go call gives: its value, an error, or a panic on its way up the stack.
use Prim.Native.String.{String}
use mathlib.Core.Path.{◌≡◌, refl, subst}

pub data Outcome {ℓ} (V : Type ℓ) : Type ℓ where
  panic : Outcome V
  fail : (message : String) → Outcome V
  ok : (value : V) → Outcome V

-- The early return of Go: what follows runs on a value only.
infixl 5 ◌>>=◌
abbrev pub ◌>>=◌ {ℓ κ} : {V : Type ℓ} {W : Type κ} → Outcome V → (V → Outcome W) → Outcome W
panic >>= next = panic
fail message >>= next = fail message
ok value >>= next = next value

pub >>=-eq-ok {ℓ κ} :
    {V : Type ℓ} {W : Type κ} (call : Outcome V) (next : V → Outcome W) {result : W}
    → (call >>= next) ≡ ok result
    → (value : V) × (call ≡ ok value) × (next value ≡ ok result)
>>=-eq-ok panic next e = cc
>>=-eq-ok (fail message) next e = cc
>>=-eq-ok (ok value) next e = (value, refl, e)

-- A property of the value, if the call gives one.
abbrev pub IfOk {ℓ κ} : {A : Type ℓ} → (A → Type κ) → Outcome A → Type κ
IfOk P (ok a) = P a
IfOk P (fail e) = Unit
IfOk P panic = Unit

pub IfOk->>= {ℓ κ μ ν} :
    {A : Type ℓ} {B : Type κ} (P : A → Type μ) (Q : B → Type ν) (m : Outcome A) (f : A → Outcome B)
    → IfOk P m
    → ((a : A) → P a → IfOk Q (f a))
    → IfOk Q (m >>= f)
IfOk->>= P Q (ok a) f h k = k a h
IfOk->>= P Q (fail e) f h k = tt
IfOk->>= P Q panic f h k = tt

pub IfOk-use {ℓ κ} :
    {A : Type ℓ} (P : A → Type κ) {m : Outcome A} {a : A} → IfOk P m → m ≡ ok a → P a
IfOk-use P h e = subst (IfOk P) e h

pub IfOk_true {ℓ} : {A : Type ℓ} (m : Outcome A) → IfOk (λ a. Unit {0}) m
IfOk_true (ok a) = tt
IfOk_true (fail e) = tt
IfOk_true panic = tt

pub IfOk-of {ℓ κ} :
    {A : Type ℓ} (P : A → Type κ) (m : Outcome A) → ((a : A) → m ≡ ok a → P a) → IfOk P m
IfOk-of P (ok a) h = h a refl
IfOk-of P (fail e) h = tt
IfOk-of P panic h = tt
