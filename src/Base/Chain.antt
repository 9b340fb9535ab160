-- ===== src/Base/Chain.antt =====
-- Results of chains of optional results.
use longan_chkout.Base.{
  ◌≡◌, ◌∙◌, refl, ap, subst, Bool, true, false, if◌then◌else◌, Option, none, some, arith,
}
use longan_chkout.Base.Maybe.{◌>>=◌}
use mathlib.Core.Option.{some-injective}

-- A result of a chain comes from a result of its first part.
pub some_of_bind {ℓ κ} :
    {A : Type ℓ} {B : Type κ} (m : Option A) (f : A → Option B) (b : B)
    → (m >>= f) ≡ some b
    → (a : A) × (m ≡ some a) × (f a ≡ some b)
some_of_bind none f b e = absurd (none_not_some e)
  where
    none_not_some : none ≡ some b → ⊥
    none_not_some h = ground (arith, h)
some_of_bind (some a) f b e = (a, refl, e)

-- A result of a chain of two parts comes from a result of each.
pub some_of_chain {ℓ κ μ} :
    {A : Type ℓ} {B : Type κ} {C : Type μ} (m : Option A) (n : A → Option B) (h : A → B → C) (c : C)
    → (m >>= λ a. n a >>= λ b. some (h a b)) ≡ some c
    → (a : A) × (b : B) × (m ≡ some a) × (n a ≡ some b) × (h a b ≡ c)
some_of_chain m n h c e =
    let (a, found, e1) = some_of_bind m (λ a. n a >>= λ b. some (h a b)) c e in
    let (b, next, e2) = some_of_bind (n a) (λ b. some (h a b)) c e1 in
    (a, b, found, next, some-injective (h a b) c e2)

-- What holds of every result of the second part holds of every result of the chain.
pub every_of_bind {ℓ κ μ} :
    {A : Type ℓ} {B : Type κ} (m : Option A) {f : A → Option B} (P : B → Type μ) (b : B)
    → (m >>= f) ≡ some b
    → ((a : A) → m ≡ some a → f a ≡ some b → P b)
    → P b
every_of_bind m {f} P b e every = let (a, found, next) = some_of_bind m f b e in every a found next

pub every_of_some {ℓ μ} :
    {A : Type ℓ} {a : A} (P : A → Type μ) → P a → (b : A) → some a ≡ some b → P b
every_of_some {a = a} P at b e = subst P (some-injective a b e) at

-- A chain goes on from the result of its first part.
pub bind_some {ℓ κ} :
    {A : Type ℓ} {B : Type κ} {m : Option A} {a : A} {c : Option B} (f : A → Option B)
    → m ≡ some a
    → f a ≡ c
    → (m >>= f) ≡ c
bind_some f e next = ap (λ m. m >>= f) e ∙ next

-- A result behind a test that refuses.
pub behind_test {ℓ} :
    {A : Type ℓ} (b : Bool) (m : Option A) (x : A)
    → (if b then none else m) ≡ some x
    → (b ≡ false) × (m ≡ some x)
behind_test true m x e = absurd (ground (arith, e))
behind_test false m x e = (refl, e)

pub under_test {ℓ} :
    {A : Type ℓ} (b : Bool) (m : Option A) (x : A)
    → (if b then m else none) ≡ some x
    → (b ≡ true) × (m ≡ some x)
under_test true m x e = (refl, e)
under_test false m x e = absurd (ground (arith, e))

-- What holds of the results of both branches.
pub every_of_if {ℓ μ} :
    {A : Type ℓ} (P : A → Type μ) (b : Bool) (x : A) (m : Option A) (y : A)
    → (b ≡ true → P x)
    → (m ≡ some y → P y)
    → (if b then some x else m) ≡ some y
    → P y
every_of_if P true x m y here later e = every_of_some P (here refl) y e
every_of_if P false x m y here later e = later e
