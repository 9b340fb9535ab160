-- ===== src/Fsx/Model.antt =====
-- What the operations of fsx.c do to `good_buf`, `file_size` and `biggest`: fsx's own model of
-- the file.
pub mod Refines
use longan_chkout.Base.{
  ℕ, zero, suc, ◌+◌, ◌-◌, ◌%◌, Buf, memset, memcpy, ltb, leb, ◌==◌, if◌then◌else◌, add32,
}
use longan_chkout.Fsx.State.{Config, Fsx}

-- The byte that `gendata` puts at `offset`.
unfoldable pub gen_byte : Config → ℕ → ℕ → ℕ
gen_byte c testcalls offset =
    if c.filldata == 0
    then (if offset % 2 == 0
        then testcalls % 256
        else (testcalls % 256 + c.original_buf offset) % 256)
    else c.filldata

unfoldable pub gendata : Config → ℕ → Buf → ℕ → ℕ → Buf
gendata c testcalls good offset zero = good
gendata c testcalls good offset (suc size) =
    gendata c testcalls (λ j. if j == offset then gen_byte c testcalls offset else good j)
      (offset + 1) size

module _ {S : Type 0} where
  -- What a write does to `good_buf` and `file_size`.
  unfoldable pub put_data : Config → ℕ → ℕ → Fsx S → Fsx S
  unfolding gendata
  put_data c offset size s =
      let good = gendata c s.testcalls s.good_buf offset size in
      if ltb s.file_size (add32 offset size)
      then record s {
        good_buf =
            if ltb s.file_size offset
            then memset good s.file_size 0 (offset - s.file_size)
            else good;
        file_size = add32 offset size;
      }
      else record s { good_buf = good }

  unfoldable pub resize_model : ℕ → Fsx S → Fsx S
  resize_model size s = record s {
    good_buf =
        if ltb s.file_size size
        then memset s.good_buf s.file_size 0 (size - s.file_size)
        else s.good_buf;
    file_size = size;
  }

  -- `if (n > biggest) biggest = n`
  unfoldable pub note_biggest : ℕ → Fsx S → Fsx S
  note_biggest n s = record s { biggest = if ltb s.biggest n then n else s.biggest }

  unfoldable pub punch_model : ℕ → ℕ → Fsx S → Fsx S
  punch_model offset length s =
      let max_offset = if ltb offset s.file_size then offset else s.file_size in
      let max_len =
        if leb (add32 max_offset length) s.file_size then length else s.file_size - max_offset in
      record s { good_buf = memset s.good_buf max_offset 0 max_len }

  unfoldable pub zero_model : ℕ → ℕ → Fsx S → Fsx S
  zero_model offset length s = record s { good_buf = memset s.good_buf offset 0 length }

  unfoldable pub collapse_model : ℕ → ℕ → Fsx S → Fsx S
  collapse_model offset length s = record s {
    good_buf =
        memcpy s.good_buf offset s.good_buf (add32 offset length)
          (s.file_size - add32 offset length);
    file_size = s.file_size - length;
  }

  unfoldable pub insert_model : ℕ → ℕ → Fsx S → Fsx S
  insert_model offset length s = record s {
    good_buf =
        memset (memcpy s.good_buf (add32 offset length) s.good_buf offset (s.file_size - offset))
          offset 0 length;
    file_size = s.file_size + length;
  }

  unfoldable pub prealloc_model : ℕ → Fsx S → Fsx S
  prealloc_model end_offset s =
      if ltb s.file_size end_offset
      then record s {
        good_buf = memset s.good_buf s.file_size 0 (end_offset - s.file_size);
        file_size = end_offset;
      }
      else s

  -- The end of `do_clone_range` and `do_copy_range`.
  unfoldable pub copy_model : ℕ → ℕ → ℕ → Fsx S → Fsx S
  copy_model offset length dest s =
      let good = memcpy s.good_buf dest s.good_buf offset length in
      record s {
        good_buf =
            if ltb s.file_size dest then memset good s.file_size 0 (dest - s.file_size) else good;
        file_size = if ltb s.file_size (add32 dest length) then add32 dest length else s.file_size;
      }
