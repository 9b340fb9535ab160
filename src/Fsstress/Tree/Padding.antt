-- ===== src/Fsstress/Tree/Padding.antt =====
-- The padded name of a file fits the buffer that it is written to.
use longan_chkout.Base.{
  ℕ, zero, suc, ◌+◌, ◌-◌, ◌/◌, ◌%◌, ◌≤◌, ◌<◌, ◌≡◌, ◌≢◌, refl, Bool, true, arith, leb, ◌&&◌, List,
  [], ◌∷◌,
}
use Prim.Native.Nat.{bit_xor}
use native.Mathlib.Nat.{mod-lt}
use longan_chkout.Fsstress.Tree.{name_max, hex_digits, buckets, nth, namerandpad}

none_above : List ℕ → Bool
none_above [] = true
none_above (x ∷ l) = leb x name_max && none_above l

nth_bound : (l : List ℕ) (i : ℕ) → none_above l ≡ true → nth l i ≤ name_max
unfolding nth none_above
nth_bound [] i h = omega arith
nth_bound (x ∷ l) zero h = ground (arith, h)
nth_bound (x ∷ l) (suc i) h = ground (arith, h, nth_bound l i)

buckets_bound : (i : ℕ) → nth buckets i ≤ name_max
unfolding none_above
buckets_bound i = nth_bound buckets i refl

hex_digits_bound : (n id : ℕ) → hex_digits n id ≤ n
unfolding hex_digits
hex_digits_bound zero id = omega arith
hex_digits_bound (suc n) id = ground (arith, hex_digits_bound n (id / 16))

rem_bound : (a m : ℕ) → m ≢ 0 → a % m < m
rem_bound a m l = mod-lt a (omega (arith, l))

-- A name of at most `NAME_MAX` bytes has at most `NAME_MAX` with its padding.
pub namerandpad-fits : (namerand id i : ℕ) → i ≤ name_max → i + namerandpad namerand id i ≤ name_max
unfolding namerandpad
namerandpad-fits namerand id i l = ground (
  arith,
  l,
  buckets_bound (bit_xor id namerand % 8),
  rem_bound (bit_xor id namerand) (nth buckets (bit_xor id namerand % 8) + 1 - i),
)
