-- ===== src/Base/Lists.antt =====
-- Lists with lengths and indices in the native numbers.
use Prim.Native.Nat.{ℕ, zero, suc, ◌+◌, ◌<◌}
use mathlib.Core.Path.{◌≡◌, refl, ap}
use mathlib.Core.Option.{Option, none, some}
use mathlib.Core.List.{List, [], ◌∷◌, ◌++◌}
use native.Mathlib.Omega.{arith}

unfoldable pub length {ℓ} : {A : Type ℓ} → List A → ℕ
length [] = 0
length (x ∷ l) = suc (length l)

unfoldable pub get_elem? {ℓ} : {A : Type ℓ} → List A → ℕ → Option A
get_elem? [] i = none
get_elem? (x ∷ l) zero = some x
get_elem? (x ∷ l) (suc i) = get_elem? l i

pub length-append {ℓ} : {A : Type ℓ} (l : List A) (x : A) → length (l ++ (x ∷ [])) ≡ suc (length l)
unfolding length
length-append [] x = refl
length-append (y ∷ l) x = ap suc (length-append l x)

pub get_elem?-inside {ℓ} :
    {A : Type ℓ} (l : List A) (i : ℕ) → i < length l → (x : A) × (get_elem? l i ≡ some x)
unfolding get_elem? length
get_elem?-inside [] i h = absurd (omega (arith, h))
get_elem?-inside (x ∷ l) zero h = (x, refl)
get_elem?-inside (x ∷ l) (suc i) h = get_elem?-inside l i (omega (arith, h))

-- The list with another entry at an index that it has.
unfoldable pub set_elem {ℓ} : {A : Type ℓ} → List A → ℕ → A → List A
set_elem [] i y = []
set_elem (x ∷ l) zero y = y ∷ l
set_elem (x ∷ l) (suc i) y = x ∷ set_elem l i y

-- What holds of every entry.
unfoldable pub Every {ℓ μ} : {A : Type ℓ} → (A → Type μ) → List A → Type μ
Every P [] = Unit
Every P (x ∷ l) = P x × Every P l

pub Every-append {ℓ μ} :
    {A : Type ℓ} (P : A → Type μ) (l r : List A) → Every P l → Every P r → Every P (l ++ r)
unfolding Every
Every-append P [] r all_l all_r = all_r
Every-append P (x ∷ l) r all_l all_r = (all_l.0, Every-append P l r all_l.1 all_r)

pub Every-map {ℓ μ κ} :
    {A : Type ℓ} (P : A → Type μ) (Q : A → Type κ) (l : List A)
    → ((x : A) → P x → Q x)
    → Every P l
    → Every Q l
unfolding Every
Every-map P Q [] step all = tt
Every-map P Q (x ∷ l) step all = (step x all.0, Every-map P Q l step all.1)

pub length-set_elem {ℓ} :
    {A : Type ℓ} (l : List A) (i : ℕ) (y : A) → length (set_elem l i y) ≡ length l
unfolding length set_elem
length-set_elem [] i y = refl
length-set_elem (x ∷ l) zero y = refl
length-set_elem (x ∷ l) (suc i) y = ap suc (length-set_elem l i y)

pub length-append_all {ℓ} : {A : Type ℓ} (l r : List A) → length (l ++ r) ≡ length l + length r
unfolding length
length-append_all [] r = omega arith
length-append_all (x ∷ l) r = omega (arith, length-append_all l r)
