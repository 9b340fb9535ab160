-- ===== src/Iogen/Within.antt =====
-- Where a request is placed: inside the file, in multiples of the unit, and of a length between
-- the limits.
use longan_chkout.Base.{
  ℕ, suc, ◌+◌, ◌-◌, ◌*◌, ◌/◌, ◌%◌, ◌≤◌, ◌<◌, ◌≡◌, ◌∙◌, ap, Option, some, arith,
}
use native.Mathlib.Nat.{mod-lt, zero-mod, div-add-mod, mul-add-mod_self_left, mul-suc}
use longan_chkout.Iogen.{
  Options, FileInfo, round_up, round_down, lesser, minlength_of, sequential_offset,
}

-- What the library documents of `random_range`: a number between the limits, and a multiple.
pub record IsRandomRange (random_range : ℕ → ℕ → ℕ → ℕ → Option ℕ) : Type 0 where
  pub drawn :
      (d low high mult x : ℕ)
      → 0 < mult
      → random_range d low high mult ≡ some x
      → (low ≤ x) × (x ≤ high) × (x % mult ≡ 0)
  pub draws :
      (d low high mult k : ℕ)
      → 0 < mult
      → low ≤ k * mult
      → k * mult ≤ high
      → (x : ℕ) × (random_range d low high mult ≡ some x)

-- A file that `parse_cmdline` admits, with its last io inside it.
pub record IsReady (o : Options) (fptr : FileInfo) : Type 0 where
  pub wide : o.maxtrans ≤ fptr.f_length
  pub unit : 0 < fptr.f_iou
  pub raw_unit : 0 < fptr.f_riou
  pub last : fptr.f_lastoffset + fptr.f_lastlength ≤ fptr.f_length

pub record IsWithin (o : Options) (fptr : FileInfo) (mult offset len : ℕ) : Type 0 where
  pub inside : offset + len ≤ fptr.f_length
  pub offset_unit : offset % mult ≡ 0
  pub length_unit : len % mult ≡ 0
  pub least : o.mintrans ≤ len
  pub most : len ≤ o.maxtrans

-- Rounding ends at a multiple.
down_mod : (x m : ℕ) → (x - x % m) % m ≡ 0
down_mod x m = ap (λ y. y % m) whole ∙ multiple_mod
  where
    whole : x - x % m ≡ m * (x / m) + 0
    whole = omega (arith, div-add-mod x m)

    multiple_mod : (m * (x / m) + 0) % m ≡ 0
    multiple_mod = mul-add-mod_self_left m (x / m) 0 ∙ zero-mod m

pub round_down-mod : (x m : ℕ) → round_down x m % m ≡ 0
unfolding round_down
round_down-mod x m = ground (arith, down_mod x m, zero-mod m)

pub round_down_le : (x m : ℕ) → round_down x m ≤ x
unfolding round_down
round_down_le x m = ground arith

pub up_mod : (x m : ℕ) → 0 < m → (x + (m - x % m)) % m ≡ 0
up_mod x m p = ap (λ y. y % m) whole ∙ (mul-add-mod_self_left m (x / m + 1) 0 ∙ zero-mod m)
  where
    whole : x + (m - x % m) ≡ m * (x / m + 1) + 0
    whole = omega (arith, div-add-mod x m, mod-lt x p, mul-suc m (x / m), next)
      where
        next : m * (x / m + 1) ≡ m * suc (x / m)
        next = ap (λ y. m * y) (omega arith)

pub round_up-mod : (x m : ℕ) → 0 < m → round_up x m % m ≡ 0
unfolding round_up
round_up-mod x m p = ground (arith, up_mod x m p, zero-mod m)

pub sequential_offset-mod :
    (o : Options) (fptr : FileInfo) (m start : ℕ) → 0 < m → sequential_offset o fptr m start % m ≡ 0
unfolding sequential_offset
sequential_offset-mod o fptr m start p = ground (arith, round_up-mod start m p, zero-mod m)

pub sequential_offset_le :
    (o : Options) (fptr : FileInfo) (m start : ℕ) → sequential_offset o fptr m start ≤ fptr.f_length
unfolding sequential_offset
sequential_offset_le o fptr m start = ground arith

pub lesser_le : (a b : ℕ) → (lesser a b ≤ a) × (lesser a b ≤ b)
unfolding lesser
lesser_le a b = (ground arith, ground arith)

pub minlength_ge : (o : Options) (m : ℕ) → o.mintrans ≤ minlength_of o m
unfolding minlength_of
minlength_ge o m = ground arith
