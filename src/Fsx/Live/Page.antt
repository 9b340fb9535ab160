-- ===== src/Fsx/Live/Page.antt =====
-- The page arithmetic of `check_eofpage`, for any page size.
use native.Mathlib.Nat.{mod-add-mod, div-add-mod, mod-lt, mod-le, mul-mod_right}
use longan_chkout.Base.{ℕ, ◌+◌, ◌-◌, ◌*◌, ◌/◌, ◌%◌, ◌≤◌, ◌<◌, ◌≡◌, ◌∙◌, ap, arith}

pub mod_of_split : (p q r : ℕ) → r < p → (p * q + r) % p ≡ r
mod_of_split p q r h = grind arith

pub align_down-mod : (n p : ℕ) → (n - n % p) % p ≡ 0
align_down-mod n p = ap (λ x. x % p) back ∙ mul-mod_right p (n / p)
  where
    back : n - n % p ≡ p * (n / p)
    back = omega (arith, div-add-mod n p)

-- A number between a multiple of the page size and its page's end has that page.
pub mod_same_page : (p n m : ℕ) → 0 < p → n ≤ m → m - m % p ≤ n → n % p + (m - n) ≡ m % p
mod_same_page p n m h l g = omega (
  arith,
  split,
  mod-lt m h,
  mod_of_split p (m / p) (n - p * (m / p)) (omega (arith, div-add-mod m p, mod-lt m h)),
)
  where
    split : n % p ≡ (p * (m / p) + (n - p * (m / p))) % p
    split = ap (λ x. x % p) (omega (arith, div-add-mod m p))

-- The last page that ends the read is the last page of the file.
pub last_page_lem :
    (p off size fs : ℕ)
    → 0 < p
    → off + size ≤ fs
    → fs - fs % p < off + size
    → (off - off % p) + ((off % p + size) - (off % p + size) % p) ≡ fs - fs % p
last_page_lem p off size fs h l g = omega (
  arith,
  mod-add-mod off p size,
  mod_same_page p (off + size) fs h l (omega arith),
  mod-le off p,
  mod-le (off % p + size) p,
  mod-le fs p,
)
