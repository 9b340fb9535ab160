-- ===== src/Base/Exit.antt =====
-- Code that may leave the program: `failed` keeps the exit status and the state at the exit, and
-- `out_of_fuel` is the mark of a loop that was cut off.
use Prim.Native.Nat.{ℕ}
use mathlib.Core.Path.{◌≡◌, refl}
use mathlib.Core.Bool.{Bool, true, false}
use longan_chkout.Base.Tests.{if◌then◌else◌}

pub data Outcome {ℓ} (A : Type ℓ) : Type ℓ where
  ok : A → Outcome A
  failed : ℕ → A → Outcome A
  out_of_fuel : Outcome A

infixl 5 ◌>>=◌
abbrev pub ◌>>=◌ {ℓ} : {A : Type ℓ} → Outcome A → (A → Outcome A) → Outcome A
ok a >>= f = f a
failed e a >>= f = failed e a
out_of_fuel >>= f = out_of_fuel

-- `if (!done) exit(code)`
abbrev pub expect {ℓ} : {A : Type ℓ} → Bool → ℕ → A → Outcome A
expect true code a = ok a
expect false code a = failed code a

-- The code ends and does not exit, in a state with the property.
abbrev pub Holds {ℓ} : {A : Type ℓ} → (A → Type 0) → Outcome A → Type 0
Holds P (ok a) = P a
Holds P (failed e a) = ⊥
Holds P out_of_fuel = ⊥

pub Holds-bind {ℓ} :
    {A : Type ℓ} (P Q : A → Type 0) (m : Outcome A) (f : A → Outcome A)
    → Holds P m
    → ((a : A) → P a → Holds Q (f a))
    → Holds Q (m >>= f)
Holds-bind P Q (ok a) f h k = k a h
Holds-bind P Q (failed e a) f h k = absurd h
Holds-bind P Q out_of_fuel f h k = absurd h

-- The rule for a test: each branch on its outcome.
pub Holds-if {ℓ} :
    {A : Type ℓ} (P : A → Type 0) (b : Bool) (x y : Outcome A)
    → (b ≡ true → Holds P x)
    → (b ≡ false → Holds P y)
    → Holds P (if b then x else y)
Holds-if P true x y h k = h refl
Holds-if P false x y h k = k refl

pub Holds-map {ℓ} :
    {A : Type ℓ} (P Q : A → Type 0) (m : Outcome A) → Holds P m → ((a : A) → P a → Q a) → Holds Q m
Holds-map P Q (ok a) h k = k a h
Holds-map P Q (failed e a) h k = absurd h
Holds-map P Q out_of_fuel h k = absurd h

-- The code does not exit, and if it ends, it ends in a state with the property.
abbrev pub Passes {ℓ} : {A : Type ℓ} → (A → Type 0) → Outcome A → Type 0
Passes P (ok a) = P a
Passes P (failed e a) = ⊥
Passes P out_of_fuel = Unit {0}

pub Passes-bind {ℓ} :
    {A : Type ℓ} (P Q : A → Type 0) (m : Outcome A) (f : A → Outcome A)
    → Passes P m
    → ((a : A) → P a → Passes Q (f a))
    → Passes Q (m >>= f)
Passes-bind P Q (ok a) f h k = k a h
Passes-bind P Q (failed e a) f h k = absurd h
Passes-bind P Q out_of_fuel f h k = tt

pub Holds-Passes {ℓ} : {A : Type ℓ} (P : A → Type 0) (m : Outcome A) → Holds P m → Passes P m
Holds-Passes P (ok a) h = h
Holds-Passes P (failed e a) h = h
Holds-Passes P out_of_fuel h = tt

-- If the code ends and does not exit, it ends in a state with the property.
abbrev pub Returns {ℓ} : {A : Type ℓ} → (A → Type 0) → Outcome A → Type 0
Returns P (ok a) = P a
Returns P (failed e a) = Unit {0}
Returns P out_of_fuel = Unit {0}

pub Returns-bind {ℓ} :
    {A : Type ℓ} (P Q : A → Type 0) (m : Outcome A) (f : A → Outcome A)
    → Returns P m
    → ((a : A) → P a → Returns Q (f a))
    → Returns Q (m >>= f)
Returns-bind P Q (ok a) f h k = k a h
Returns-bind P Q (failed e a) f h k = tt
Returns-bind P Q out_of_fuel f h k = tt

-- What passes a test has the test's outcome to show for it.
pub Returns-expect {ℓ} :
    {A : Type ℓ} (P : A → Type 0) (b : Bool) (code : ℕ) (a : A)
    → (b ≡ true → P a)
    → Returns P (expect b code a)
Returns-expect P true code a h = h refl
Returns-expect P false code a h = tt
