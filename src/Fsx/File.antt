-- ===== src/Fsx/File.antt =====
-- What the calls of fsx.c on its test file are documented to do to the file: the abstract
-- specification, on a size and the bytes below it.
pub mod Congruence
use longan_chkout.Base.{
  ℕ, ◌+◌, ◌-◌, ◌<◌, max, ◌≡◌, refl, sym, ◌∙◌, Buf, in_range, ltb, leb, ◌==◌, if◌then◌else◌, arith,
  ◌&&◌,
}

pub record File : Type 0 where
  pub size : ℕ
  pub byte : Buf

-- Two files of one size, with the same bytes.
pub record Same (f g : File) : Type 0 where
  pub same_size : f.size ≡ g.size
  pub same_byte : (j : ℕ) → j < f.size → f.byte j ≡ g.byte j

pub Same-refl : (f : File) → Same f f
Same-refl f = record { same_size = refl; same_byte = λ j h. refl }

pub Same-trans : {f g h : File} → Same f g → Same g h → Same f h
Same-trans p q = record {
  same_size = p.same_size ∙ q.same_size;
  same_byte = λ j l. p.same_byte j l ∙ q.same_byte j (omega arith);
}

pub Same-sym : {f g : File} → Same f g → Same g f
Same-sym p = record {
  same_size = sym p.same_size;
  same_byte = λ j l. sym (p.same_byte j (omega arith));
}

-- The byte at `j`, with the zeros that a read past the end would see.
abbrev pub or_zero : File → ℕ → ℕ
or_zero f j = if ltb j f.size then f.byte j else 0

-- `write` of `src[at..at+n)` at `off`; one of no bytes does nothing.
abbrev pub write : File → ℕ → Buf → ℕ → ℕ → File
write f off src at n = record {
  size = if n == 0 then f.size else max f.size (off + n);
  byte = λ j. if in_range off n j then src (at + (j - off)) else or_zero f j;
}

-- `ftruncate`
abbrev pub resize : File → ℕ → File
resize f n = record { size = n; byte = or_zero f }

-- `fallocate` with no flags
abbrev pub allocate : File → ℕ → ℕ → File
allocate f off n = resize f (max f.size (off + n))

-- `FALLOC_FL_PUNCH_HOLE | FALLOC_FL_KEEP_SIZE`
abbrev pub punch : File → ℕ → ℕ → File
punch f off n = record { size = f.size; byte = λ j. if in_range off n j then 0 else f.byte j }

-- `FALLOC_FL_ZERO_RANGE`
abbrev pub zero_range : File → ℕ → ℕ → File
zero_range f off n = record {
  size = max f.size (off + n);
  byte = λ j. if in_range off n j then 0 else or_zero f j;
}

-- `FALLOC_FL_COLLAPSE_RANGE`
abbrev pub collapse : File → ℕ → ℕ → File
collapse f off n = record {
  size = f.size - n;
  byte = λ j. if ltb j off then f.byte j else f.byte (j + n);
}

-- `FALLOC_FL_INSERT_RANGE`
abbrev pub insert : File → ℕ → ℕ → File
insert f off n = record {
  size = f.size + n;
  byte = λ j. if ltb j off then f.byte j else if ltb j (off + n) then 0 else f.byte (j - n);
}

-- `FICLONERANGE`, and a `copy_file_range` within the file
abbrev pub copy : File → ℕ → ℕ → ℕ → File
copy f off n dest = write f dest f.byte off n
