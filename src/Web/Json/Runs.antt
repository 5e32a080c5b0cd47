-- ===== src/Web/Json/Runs.antt =====
-- The outcome of a JSON reader, and postconditions on it.
use Prim.Native.String.{String}
use mathlib.Core.Path.{subst}
use memory_tools.Prelude.{ℕ, ◌≤◌, ◌≡◌, ◌≢◌, refl, Bool, true, false, Bytes, if◌then◌else◌, length}

-- `failed` has what the error records; `out_of_fuel` has no counterpart in the program.
pub data Outcome {ℓ κ} (E : Type ℓ) (A : Type κ) : Type (ℓ ⊔ κ) where
  ok : A → Outcome E A
  failed : E → Outcome E A
  out_of_fuel : Outcome E A

abbrev pub bind {ℓ κ μ} :
    {E : Type ℓ} {A : Type κ} {B : Type μ} → Outcome E A → (A → Outcome E B) → Outcome E B
bind (ok a) f = f a
bind (failed e) f = failed e
bind out_of_fuel f = out_of_fuel

-- The message and the bytes from the error's position on.
abbrev pub Failure : Type 0
Failure = String × Bytes

abbrev pub Reading {ℓ} : Type ℓ → Type ℓ
Reading A = Outcome Failure (A × Bytes)

-- The run kept within its fuel, `P` holds of its value and `Q` of its failure.
pub data Ensures {ℓ κ μ ν} {E : Type ℓ} {A : Type κ} (Q : E → Type μ) (P : A → Type ν)
    : Outcome E A → Type (ℓ ⊔ κ ⊔ μ ⊔ ν) where
  holds : {a : A} → P a → Ensures Q P (ok a)
  rejected : {e : E} → Q e → Ensures Q P (failed e)

-- An error's position is at most `n` bytes before the end.
abbrev pub AtMost : ℕ → Failure → Type 0
AtMost n e = length e.1 ≤ n

module _ {ℓ κ μ ν} {E : Type ℓ} {A : Type κ} {Q : E → Type μ} {P : A → Type ν} where
  pub Ensures-ok : {r : Outcome E A} {a : A} → Ensures Q P r → r ≡ ok a → P a
  Ensures-ok (holds h) e = subst P (cc) h
  Ensures-ok (rejected h) e = cc

  pub Ensures-failed : {r : Outcome E A} {x : E} → Ensures Q P r → r ≡ failed x → Q x
  Ensures-failed (holds h) e = cc
  Ensures-failed (rejected h) e = subst Q (cc) h

  pub Ensures-out_of_fuel : {r : Outcome E A} → Ensures Q P r → r ≢ out_of_fuel
  Ensures-out_of_fuel (holds h) = cc
  Ensures-out_of_fuel (rejected h) = cc

  pub Ensures-if :
      (b : Bool) {x y : Outcome E A}
      → (b ≡ true → Ensures Q P x)
      → (b ≡ false → Ensures Q P y)
      → Ensures Q P (if b then x else y)
  Ensures-if true hx hy = hx refl
  Ensures-if false hx hy = hy refl

  pub Ensures-bind {κ' ν'} :
      {B : Type κ'} {R : B → Type ν'} {r : Outcome E A} {f : A → Outcome E B}
      → Ensures Q P r
      → ((a : A) → P a → Ensures Q R (f a))
      → Ensures Q R (bind r f)
  Ensures-bind (holds {a} h) k = k a h
  Ensures-bind (rejected h) k = rejected h

module _ {ℓ κ μ ν ν'} {E : Type ℓ} {A : Type κ} {Q : E → Type μ} {P : A → Type ν}
    {R : A → Type ν'} where
  pub Ensures-weaken : {r : Outcome E A} → Ensures Q P r → ((a : A) → P a → R a) → Ensures Q R r
  Ensures-weaken (holds {a} h) k = holds (k a h)
  Ensures-weaken (rejected h) k = rejected h
