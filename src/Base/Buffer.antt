-- ===== src/Base/Buffer.antt =====
-- A C buffer as the map from indices to bytes, with the calls of string.h that the programs make.
use Prim.Native.Nat.{ℕ, zero, suc, ◌+◌, ◌-◌, ◌<◌}
use mathlib.Core.Path.{◌≡◌, refl}
use mathlib.Core.Bool.{Bool, true, ◌&&◌}
use native.Mathlib.Omega.{arith}
use longan_chkout.Base.Tests.{ltb, leb, ◌==◌, if◌then◌else◌}

abbrev pub Buf : Type 0
Buf = ℕ → ℕ

-- `from ≤ j < from + n`
abbrev pub in_range : ℕ → ℕ → ℕ → Bool
in_range from n j = leb from j && ltb j (from + n)

-- `memset(b + from, v, n)`
abbrev pub memset : Buf → ℕ → ℕ → ℕ → Buf
memset b from v n j = if in_range from n j then v else b j

-- `memcpy(b + from, src + at, n)`; reading `src` whole first, it is `memmove` too.
abbrev pub memcpy : Buf → ℕ → Buf → ℕ → ℕ → Buf
memcpy b from src at n j = if in_range from n j then src (at + (j - from)) else b j

-- `memcmp(a + from, b + at, n) == 0`
unfoldable pub memcmp_eq : Buf → ℕ → Buf → ℕ → ℕ → Bool
memcmp_eq a from b at zero = true
memcmp_eq a from b at (suc n) = a from == b at && memcmp_eq a (from + 1) b (at + 1) n

pub memcmp_eq_complete :
    (a : Buf) (from : ℕ) (b : Buf) (at n : ℕ)
    → ((i : ℕ) → i < n → a (from + i) ≡ b (at + i))
    → memcmp_eq a from b at n ≡ true
unfolding memcmp_eq
memcmp_eq_complete a from b at zero h = refl
memcmp_eq_complete a from b at (suc n) h = ground (
  arith,
  first,
  memcmp_eq_complete a (from + 1) b (at + 1) n
      (λ i l. rw (sh from i, sh at i) (h (suc i) (omega arith))),
)
  where
    z : (x : ℕ) → x + 0 ≡ x
    z x = omega arith

    first : a from ≡ b at
    first = rw (z from) at (rw (z at) at (h 0 (omega arith)))

    sh : (x i : ℕ) → x + 1 + i ≡ x + suc i
    sh x i = omega arith

pub memcmp_eq_sound :
    (a : Buf) (from : ℕ) (b : Buf) (at n i : ℕ)
    → memcmp_eq a from b at n ≡ true
    → i < n
    → a (from + i) ≡ b (at + i)
unfolding memcmp_eq
memcmp_eq_sound a from b at zero i h l = absurd (omega arith)
memcmp_eq_sound a from b at (suc n) zero h l = rw (z from, z at) (ground arith)
  where
    z : (x : ℕ) → x + 0 ≡ x
    z x = omega arith
memcmp_eq_sound a from b at (suc n) (suc i) h l =
    rw (sh from, sh at) (memcmp_eq_sound a (from + 1) b (at + 1) n i (ground arith) (omega arith))
  where
    sh : (x : ℕ) → x + suc i ≡ x + 1 + i
    sh x = omega arith
