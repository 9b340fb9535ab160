-- ===== src/Fsx/File/Congruence.antt =====
-- Each operation of the specification takes equal files to equal files.
use longan_chkout.Base.{ℕ, ◌+◌, ◌-◌, ◌≤◌, ◌<◌, ◌≡◌, ◌⊎◌, ap, Buf, arith}
use longan_chkout.Fsx.File.{
  File, Same, write, resize, allocate, punch, zero_range, collapse, insert, copy,
}

pub write-Same :
    {f g : File} (off : ℕ) (a b : Buf) (at n : ℕ)
    → Same f g
    → ((i : ℕ) → i < n → a (at + i) ≡ b (at + i))
    → Same (write f off a at n) (write g off b at n)
write-Same off a b at n p h = record {
  same_size = ground (arith, p.same_size);
  same_byte = λ j l. ground (arith, p.same_byte j, p.same_size, h (j - off));
}

pub resize-Same : {f g : File} (n : ℕ) → Same f g → Same (resize f n) (resize g n)
resize-Same n p = record {
  same_size = omega arith;
  same_byte = λ j l. ground (arith, p.same_byte j, p.same_size);
}

pub allocate-Same : {f g : File} (off n : ℕ) → Same f g → Same (allocate f off n) (allocate g off n)
allocate-Same off n p = record {
  same_size = omega arith;
  same_byte = λ j l. ground (arith, p.same_byte j, p.same_size);
}

pub punch-Same : {f g : File} (off n : ℕ) → Same f g → Same (punch f off n) (punch g off n)
punch-Same off n p = record {
  same_size = p.same_size;
  same_byte = λ j l. ground (arith, p.same_byte j);
}

pub zero_range-Same :
    {f g : File} (off n : ℕ) → Same f g → Same (zero_range f off n) (zero_range g off n)
zero_range-Same off n p = record {
  same_size = omega arith;
  same_byte = λ j l. ground (arith, p.same_byte j, p.same_size);
}

pub collapse-Same :
    {f g : File} (off n : ℕ)
    → off + n ≤ f.size
    → Same f g
    → Same (collapse f off n) (collapse g off n)
collapse-Same off n h p = record {
  same_size = omega arith;
  same_byte = λ j l. ground (arith, p.same_byte j, p.same_byte (j + n));
}

pub insert-Same :
    {f g : File} (off n : ℕ) → off ≤ f.size → Same f g → Same (insert f off n) (insert g off n)
insert-Same off n h p = record {
  same_size = omega arith;
  same_byte = λ j l. ground (arith, p.same_byte j, p.same_byte (j - n));
}

pub copy-Same :
    {f g : File} (off n dest : ℕ)
    → off + n ≤ f.size
    → Same f g
    → Same (copy f off n dest) (copy g off n dest)
copy-Same {f} {g} off n dest h p =
    write-Same dest f.byte g.byte off n p (λ i l. p.same_byte (off + i) (omega arith))

-- Two copies of adjoining ranges are one copy of both.
pub copy-copy :
    (f : File) (off m n dest : ℕ)
    → 0 < n
    → off + m + n ≤ f.size
    → (off + (m + n) ≤ dest) ⊎ (dest + (m + n) ≤ off)
    → Same (copy (copy f off m dest) (off + m) n (dest + m)) (copy f off (m + n) dest)
copy-copy f off m n dest p h a = record {
  same_size = ground arith;
  same_byte = λ j l. ground (arith, shift j);
}
  where
    shift : (j : ℕ) → dest + m ≤ j → f.byte (off + m + (j - (dest + m))) ≡ f.byte (off + (j - dest))
    shift j h = ap f.byte (omega arith)
