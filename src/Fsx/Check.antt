-- ===== src/Fsx/Check.antt =====
-- The checks of fsx.c: what is read against `good_buf`, the size, and the zeros past the end of
-- the file in its last page.
pub mod Sound
use longan_chkout.Base.{
  ℕ, zero, suc, ◌+◌, ◌-◌, ◌^◌, ◌%◌, Bool, true, false, ◌&&◌, Option, none, some, Buf, memcmp_eq,
  Outcome, ok, failed, ◌>>=◌, expect, leb, ◌==◌, if◌then◌else◌, u32, add32, sub32, align_down,
  align_rest,
}
use longan_chkout.Fsx.Kernel.{Kernel}
use longan_chkout.Fsx.State.{Config, Fsx}

-- A signed result of a system call in an `unsigned` variable.
unfoldable pub unsigned_of : Option ℕ → ℕ
unsigned_of none = 2 ^ 32 - 1
unsigned_of (some n) = u32 n

-- `iret == size`
unfoldable pub is_whole : Option ℕ → ℕ → Bool
unfolding unsigned_of
is_whole ret size = unsigned_of ret == size

-- The bytes that a read stores.
unfoldable pub count_of : Option ℕ → ℕ
count_of none = 0
count_of (some n) = n

-- `file_size == statbuf.st_size`, and the same of the offset that `lseek` gives.
unfoldable pub is_size : ℕ → Option ℕ → Bool
is_size n none = false
is_size n (some m) = n == m

-- `*(char *)should_be_zero` for `n` bytes of a mapping from `i` on: are they all zero?
unfoldable pub all_zero : Buf → ℕ → ℕ → Bool
all_zero map i zero = true
all_zero map i (suc n) = map i == 0 && all_zero map (i + 1) n

-- The loop of `check_buffers`: the last offset at which the buffers differ goes to `badoff`.
unfoldable pub scan_bad : Buf → Buf → ℕ → ℕ → ℕ → Option ℕ → Option ℕ
scan_bad good buf offset i zero bad = bad
scan_bad good buf offset i (suc size) bad =
    scan_bad good buf (offset + 1) (i + 1) size (if good offset == buf i then bad else some offset)

-- Where `check_contents` maps the last page of `size` bytes.
unfoldable pub eof_map_offset : ℕ → ℕ → ℕ
eof_map_offset page_size size =
    if align_down size page_size == size
    then sub32 (align_down size page_size) page_size
    else align_down size page_size

module _ (k : Kernel) (c : Config) where
  unfoldable pub check_buffers : Buf → ℕ → ℕ → Fsx k.State → Outcome (Fsx k.State)
  check_buffers buf offset size s =
      if memcmp_eq s.good_buf offset buf 0 size
      then ok s
      else failed 110 (record s { badoff = scan_bad s.good_buf buf offset 0 size s.badoff })

  -- `fstat` failing leaves -1, which differs from every size, and so does `lseek` failing.
  unfoldable pub check_size : Fsx k.State → Outcome (Fsx k.State)
  check_size s = do
    let (by_seek, k1) = k.seek_end s.kernel
    let st_size = k.fstat s.kernel
    expect (is_size s.file_size st_size && is_size s.file_size by_seek) 120
        (record s { kernel = k1 })

  unfoldable pub doflush : ℕ → ℕ → Fsx k.State → Outcome (Fsx k.State)
  doflush offset size s = if c.o_direct then ok s else do
    let pg_offset = align_rest offset c.page_size
    let map_size = add32 pg_offset size
    let (mapped, k1) = k.mmap s.kernel (sub32 offset pg_offset) map_size
    s1 ← expect mapped 202 (record s { kernel = k1 })
    let (synced, k2) = k.msync s1.kernel
    s2 ← expect synced 203 (record s1 { kernel = k2 })
    let (unmapped, k3) = k.munmap s2.kernel
    expect unmapped 204 (record s2 { kernel = k3 })

  -- `p` is the mapping from file offset `base` on, and `last_page` an index in it.
  unfoldable pub check_eofpage : ℕ → ℕ → ℕ → Fsx k.State → Outcome (Fsx k.State)
  check_eofpage offset base size s =
      if leb (add32 offset size) (align_down s.file_size c.page_size) then ok s else do
        let last_page = align_down (align_rest offset c.page_size + size) c.page_size
        let rest = align_rest s.file_size c.page_size
        expect (all_zero (k.map_byte s.kernel base) (last_page + rest) (c.page_size - rest)) 205 s

  -- `check_contents` for the `size` bytes that it looks at, which are some.
  unfoldable pub check_whole : ℕ → Fsx k.State → Outcome (Fsx k.State)
  check_whole size s = do
    let (sought, k1) = k.lseek s.kernel 0
    s1 ← expect sought 140 (record s { kernel = k1 })
    let (ret, got, k2) = k.sys_read s1.kernel size
    s2 ← expect (is_whole ret size) 141 (record s1 { kernel = k2 })
    s3 ← check_buffers got 0 size s2
    let map_offset = eof_map_offset c.page_size size
    let map_size = sub32 size map_offset
    let (mapped, k3) = k.mmap s3.kernel map_offset map_size
    s4 ← expect mapped 190 (record s3 { kernel = k3 })
    s5 ← check_eofpage map_offset map_offset map_size s4
    let (unmapped, k4) = k.munmap s5.kernel
    expect unmapped 191 (record s5 { kernel = k4 })

  unfoldable pub check_contents : Fsx k.State → Outcome (Fsx k.State)
  check_contents s =
      let all = u32 s.file_size in
      let size = if c.o_direct then all - all % c.readbdy else all in
      if size == 0 then ok s else check_whole size s
