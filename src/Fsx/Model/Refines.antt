-- ===== src/Fsx/Model/Refines.antt =====
-- fsx.c keeps in `good_buf` and `file_size` what the documented operations make of the file.
use longan_chkout.Base.{
  ℕ, zero, suc, ◌+◌, ◌-◌, ◌^◌, ◌≤◌, ◌<◌, ◌≡◌, refl, ap, Buf, in_range, ◌==◌, if◌then◌else◌, arith,
}
use longan_chkout.Fsx.File
use longan_chkout.Fsx.File.{File, Same}
use longan_chkout.Fsx.State.{Config, Fsx}
use longan_chkout.Fsx.Model.{
  gen_byte, gendata, put_data, resize_model, punch_model, zero_model, collapse_model, insert_model,
  prealloc_model, copy_model,
}

-- The file as fsx expects it.
abbrev pub model : {S : Type 0} → Fsx S → File
model s = record { size = s.file_size; byte = s.good_buf }

-- `gendata` writes the bytes of its range, each by its own offset, and no other.
pub gendata_lem :
    (c : Config) (t : ℕ) (good : Buf) (offset size j : ℕ)
    → gendata c t good offset size j ≡ (if in_range offset size j then gen_byte c t j else good j)
unfolding gendata
gendata_lem c t good offset zero j = ground arith
gendata_lem c t good offset (suc size) j = ground (
  arith,
  gendata_lem c t (λ i. if i == offset then gen_byte c t offset else good i) (offset + 1) size j,
)

module _ {S : Type 0} where
  -- For a range of at least one byte that ends below 2 ^ 32, what a write makes of `good_buf` and
  -- `file_size` is the documented write of the generated bytes, with zeros between the old end of
  -- the file and the range.
  pub put_data_refines :
      (c : Config) (offset size : ℕ) (s : Fsx S)
      → offset + size < 2 ^ 32
      → 0 < size
      → Same
          (model (put_data c offset size s))
          (File.write (model s) offset (gen_byte c s.testcalls) offset size)
  unfolding put_data
  put_data_refines c offset size s h p = record {
    same_size = ground arith;
    same_byte = λ j l. ground (arith, gendata_lem c s.testcalls s.good_buf offset size j);
  }

  -- What a truncation makes of `good_buf` and `file_size` is the documented resizing, with zeros
  -- behind the old end of the file.
  pub resize_model_refines :
      (size : ℕ) (s : Fsx S) → Same (model (resize_model size s)) (File.resize (model s) size)
  unfolding resize_model
  resize_model_refines size s = record { same_size = ground arith; same_byte = λ j l. ground arith }

  -- For a range that ends below 2 ^ 32, what a punched hole makes of `good_buf` is the documented
  -- hole: zeros in the range within the file, and the same size.
  pub punch_model_refines :
      (offset length : ℕ) (s : Fsx S)
      → offset + length < 2 ^ 32
      → Same (model (punch_model offset length s)) (File.punch (model s) offset length)
  unfolding punch_model
  punch_model_refines offset length s h = record {
    same_size = ground arith;
    same_byte = λ j l. ground arith;
  }

  -- For a range that ends within the file, what a zeroed range makes of `good_buf` is the
  -- documented one.
  pub zero_model_refines :
      (offset length : ℕ) (s : Fsx S)
      → offset + length ≤ s.file_size
      → Same (model (zero_model offset length s)) (File.zero_range (model s) offset length)
  unfolding zero_model
  zero_model_refines offset length s h = record {
    same_size = ground arith;
    same_byte = λ j l. ground arith;
  }

  -- For a range that ends before the end of a file smaller than 2 ^ 32 bytes, what a collapsed
  -- range makes of `good_buf` and `file_size` is the documented removal of the range.
  pub collapse_model_refines :
      (offset length : ℕ) (s : Fsx S)
      → offset + length < s.file_size
      → s.file_size < 2 ^ 32
      → Same (model (collapse_model offset length s)) (File.collapse (model s) offset length)
  unfolding collapse_model
  collapse_model_refines offset length s h w = record {
    same_size = refl;
    same_byte = λ j l. ground (arith, index j);
  }
    where
      index :
          (j : ℕ)
          → offset ≤ j
          → s.good_buf ((offset + length) + (j - offset)) ≡ s.good_buf (j + length)
      index j h = ap s.good_buf (omega arith)

  -- For an offset inside the file, and a new size below 2 ^ 32, what an inserted range makes of
  -- `good_buf` and `file_size` is the documented insertion of zeros.
  pub insert_model_refines :
      (offset length : ℕ) (s : Fsx S)
      → offset < s.file_size
      → s.file_size + length < 2 ^ 32
      → Same (model (insert_model offset length s)) (File.insert (model s) offset length)
  unfolding insert_model
  insert_model_refines offset length s h w = record {
    same_size = refl;
    same_byte = λ j l. ground arith;
  }

  -- For a range that ends below 2 ^ 32, what a preallocation makes of `good_buf` and `file_size` is
  -- the documented growth with zeros.
  pub prealloc_model_refines :
      (offset length : ℕ) (s : Fsx S)
      → offset + length < 2 ^ 32
      → Same (model (prealloc_model (offset + length) s)) (File.allocate (model s) offset length)
  unfolding prealloc_model
  prealloc_model_refines offset length s h = record {
    same_size = ground arith;
    same_byte = λ j l. ground arith;
  }

  -- For a length of at least one byte and a destination that ends below 2 ^ 32, what a clone or a
  -- copy makes of `good_buf` and `file_size` is the documented copy.
  pub copy_model_refines :
      (offset length dest : ℕ) (s : Fsx S)
      → 0 < length
      → dest + length < 2 ^ 32
      → Same (model (copy_model offset length dest s)) (File.copy (model s) offset length dest)
  unfolding copy_model
  copy_model_refines offset length dest s p h = record {
    same_size = ground arith;
    same_byte = λ j l. ground arith;
  }
