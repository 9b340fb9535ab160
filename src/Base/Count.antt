-- ===== src/Base/Count.antt =====
-- How often a number is in a list.
use longan_chkout.Base.{ℕ, ◌+◌, ◌≡◌, List, [], ◌∷◌, ◌++◌, ◌==◌, if◌then◌else◌, arith}

unfoldable pub count : ℕ → List ℕ → ℕ
count x [] = 0
count x (y ∷ l) = (if y == x then 1 else 0) + count x l

pub count-append : (x : ℕ) (l r : List ℕ) → count x (l ++ r) ≡ count x l + count x r
unfolding count
count-append x [] r = omega arith
count-append x (y ∷ l) r = omega (arith, count-append x l r)
