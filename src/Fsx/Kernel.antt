-- ===== src/Fsx/Kernel.antt =====
-- The system calls that fsx.c makes on its test file. The kernel is not code of the repository:
-- it is a parameter, with what the manual pages say of a correct file system as `IsCorrect`.
pub mod Reference
use longan_chkout.Base.{ℕ, ◌+◌, ◌%◌, ◌≤◌, ◌<◌, ◌≡◌, ◌⊎◌, Bool, true, Buf, Option, some}
use longan_chkout.Fsx.File.{
  File, Same, write, resize, allocate, punch, zero_range, collapse, insert, copy,
}

-- The modes that are given to `fallocate`.
pub data FallocMode : Type 0 where
  plain keep_size punch_hole zeroing collapsing inserting : FallocMode

-- `FIDEDUPERANGE`: the ioctl fails, the one destination has a negative status, or all is well.
pub data Dedupe : Type 0 where
  ioctl_failed status_failed deduped : Dedupe

-- `copy_file_range`: -1 with `EAGAIN`, -1 with another error, or the number of bytes copied.
pub data Copied : Type 0 where
  again broken : Copied
  bytes : ℕ → Copied

-- A call that returns an error or not gives `false` or `true`; one that returns a count gives
-- `none` for -1. `read` also gives the bytes that it stores from the start of its buffer.
-- A mapping is named by the file offset of its first byte.
pub record Kernel : Type 1 where
  pub State : Type 0
  pub lseek : State → ℕ → Bool × State
  pub seek_end : State → Option ℕ × State
  pub fstat : State → Option ℕ
  pub sys_read : State → ℕ → Option ℕ × Buf × State
  pub sys_write : State → Buf → ℕ → ℕ → Option ℕ × State
  pub ftruncate : State → ℕ → Bool × State
  pub fallocate : State → FallocMode → ℕ → ℕ → Bool × State
  pub clone : State → ℕ → ℕ → ℕ → Bool × State
  pub dedupe : State → ℕ → ℕ → ℕ → Dedupe × State
  pub copy_file_range : State → ℕ → ℕ → ℕ → Copied × State
  pub fsync : State → Bool × State
  pub mmap : State → ℕ → ℕ → Bool × State
  pub map_byte : State → ℕ → ℕ → ℕ
  pub map_store : State → ℕ → ℕ → Buf → ℕ → ℕ → State
  pub msync : State → Bool × State
  pub munmap : State → Bool × State
  pub close_fd : State → Bool × State
  pub open_fd : State → Bool × State
  pub dm_mark : State → Bool × State
  pub open_mark : State → Bool × State

-- The ranges of `n` bytes at `o` and at `d` do not overlap.
abbrev pub Apart : ℕ → ℕ → ℕ → Type 0
Apart o n d = (o + n ≤ d) ⊎ (d + n ≤ o)

-- A file system that does what is documented, and a machine that does not run out of anything.
-- A transfer of at most `most` bytes is made at once; Linux takes 2 ^ 31 - 4096 bytes at most. With
-- `O_DIRECT` it is one of the file systems without alignment restrictions that open(2) speaks of.
-- What is said of a call on the descriptor is meant while it is open: from `close` to `open` the code
-- makes no other call.
pub record IsCorrect (k : Kernel) (page_size block most : ℕ) : Type 0 where
  pub view : k.State → File
  pub pos : k.State → ℕ
  pub lseek_ok : (s : k.State) (o : ℕ) → (k.lseek s o).0 ≡ true
  pub lseek_view : (s : k.State) (o : ℕ) → view (k.lseek s o).1 ≡ view s
  pub lseek_pos : (s : k.State) (o : ℕ) → pos (k.lseek s o).1 ≡ o
  pub seek_end_ok : (s : k.State) → (k.seek_end s).0 ≡ some (view s).size
  pub seek_end_view : (s : k.State) → view (k.seek_end s).1 ≡ view s
  pub fstat_ok : (s : k.State) → k.fstat s ≡ some (view s).size
  pub read_ok :
      (s : k.State) (n : ℕ) → n ≤ most → pos s + n ≤ (view s).size → (k.sys_read s n).0 ≡ some n
  -- A longer `read` inside the file gives at least one byte, and at most all.
  pub count : k.State → ℕ → ℕ
  pub read_some :
      (s : k.State) (n : ℕ)
      → 0 < n
      → pos s + n ≤ (view s).size
      → ((k.sys_read s n).0 ≡ some (count s n)) × (0 < count s n) × (count s n ≤ n)
  pub read_byte :
      (s : k.State) (n m i : ℕ)
      → pos s + n ≤ (view s).size
      → (k.sys_read s n).0 ≡ some m
      → i < m
      → (k.sys_read s n).1 i ≡ (view s).byte (pos s + i)
  pub read_pos :
      (s : k.State) (n m : ℕ) → (k.sys_read s n).0 ≡ some m → pos (k.sys_read s n).2 ≡ pos s + m
  pub read_view : (s : k.State) (n : ℕ) → view (k.sys_read s n).2 ≡ view s
  pub write_ok : (s : k.State) (b : Buf) (i n : ℕ) → n ≤ most → (k.sys_write s b i n).0 ≡ some n
  pub write_view :
      (s : k.State) (b : Buf) (i n : ℕ)
      → n ≤ most
      → Same (view (k.sys_write s b i n).1) (write (view s) (pos s) b i n)
  pub ftruncate_ok : (s : k.State) (n : ℕ) → (k.ftruncate s n).0 ≡ true
  pub ftruncate_view : (s : k.State) (n : ℕ) → Same (view (k.ftruncate s n).1) (resize (view s) n)
  pub plain_ok : (s : k.State) (o n : ℕ) → 0 < n → (k.fallocate s plain o n).0 ≡ true
  pub plain_view :
      (s : k.State) (o n : ℕ)
      → 0 < n
      → Same (view (k.fallocate s plain o n).1) (allocate (view s) o n)
  pub keep_size_ok : (s : k.State) (o n : ℕ) → 0 < n → (k.fallocate s keep_size o n).0 ≡ true
  pub keep_size_view :
      (s : k.State) (o n : ℕ) → 0 < n → Same (view (k.fallocate s keep_size o n).1) (view s)
  pub punch_ok : (s : k.State) (o n : ℕ) → 0 < n → (k.fallocate s punch_hole o n).0 ≡ true
  pub punch_view :
      (s : k.State) (o n : ℕ)
      → 0 < n
      → Same (view (k.fallocate s punch_hole o n).1) (punch (view s) o n)
  pub zero_ok : (s : k.State) (o n : ℕ) → 0 < n → (k.fallocate s zeroing o n).0 ≡ true
  pub zero_view :
      (s : k.State) (o n : ℕ)
      → 0 < n
      → Same (view (k.fallocate s zeroing o n).1) (zero_range (view s) o n)
  -- The unit of a shift is a block; a range that reaches the end of the file is refused.
  pub collapse_ok :
      (s : k.State) (o n : ℕ)
      → 0 < n
      → o % block ≡ 0
      → n % block ≡ 0
      → o + n < (view s).size
      → (k.fallocate s collapsing o n).0 ≡ true
  pub collapse_view :
      (s : k.State) (o n : ℕ)
      → (k.fallocate s collapsing o n).0 ≡ true
      → Same (view (k.fallocate s collapsing o n).1) (collapse (view s) o n)
  pub insert_ok :
      (s : k.State) (o n : ℕ)
      → 0 < n
      → o % block ≡ 0
      → n % block ≡ 0
      → o < (view s).size
      → (k.fallocate s inserting o n).0 ≡ true
  pub insert_view :
      (s : k.State) (o n : ℕ)
      → (k.fallocate s inserting o n).0 ≡ true
      → Same (view (k.fallocate s inserting o n).1) (insert (view s) o n)
  -- A clone takes whole blocks inside the file that do not overlap.
  pub clone_ok :
      (s : k.State) (o n d : ℕ)
      → 0 < n
      → o % block ≡ 0
      → n % block ≡ 0
      → d % block ≡ 0
      → o + n ≤ (view s).size
      → Apart o n d
      → (k.clone s o n d).0 ≡ true
  pub clone_view :
      (s : k.State) (o n d : ℕ)
      → (k.clone s o n d).0 ≡ true
      → Same (view (k.clone s o n d).1) (copy (view s) o n d)
  -- A deduplication takes ranges like those of a clone, both inside the file, and never changes
  -- the bytes.
  pub dedupe_ok :
      (s : k.State) (o n d : ℕ)
      → 0 < n
      → o % block ≡ 0
      → n % block ≡ 0
      → d % block ≡ 0
      → o + n ≤ (view s).size
      → d + n ≤ (view s).size
      → Apart o n d
      → (k.dedupe s o n d).0 ≡ deduped
  pub dedupe_view : (s : k.State) (o n d : ℕ) → Same (view (k.dedupe s o n d).1) (view s)
  -- `copy_file_range` copies at least one byte of a range inside the file to one that does not
  -- overlap it, and at most all.
  pub copied : k.State → ℕ → ℕ → ℕ → ℕ
  pub copy_ok :
      (s : k.State) (o d n : ℕ)
      → 0 < n
      → o + n ≤ (view s).size
      → Apart o n d
      → (k.copy_file_range s o d n).0 ≡ bytes (copied s o d n)
  pub copied_some :
      (s : k.State) (o d n : ℕ)
      → 0 < n
      → o + n ≤ (view s).size
      → Apart o n d
      → (0 < copied s o d n) × (copied s o d n ≤ n)
  pub copy_view :
      (s : k.State) (o d n : ℕ)
      → 0 < n
      → o + n ≤ (view s).size
      → Apart o n d
      → Same (view (k.copy_file_range s o d n).1) (copy (view s) o (copied s o d n) d)
  pub fsync_ok : (s : k.State) → (k.fsync s).0 ≡ true
  pub fsync_view : (s : k.State) → view (k.fsync s).1 ≡ view s
  -- A mapping from a page boundary shows the file, then zeros in the rest of the page that the file
  -- ends in; of a page behind it nothing is said.
  pub mmap_ok : (s : k.State) (o n : ℕ) → 0 < n → o % page_size ≡ 0 → (k.mmap s o n).0 ≡ true
  pub mmap_view : (s : k.State) (o n : ℕ) → view (k.mmap s o n).1 ≡ view s
  pub map_byte_in :
      (s : k.State) (o i : ℕ) → o + i < (view s).size → k.map_byte s o i ≡ (view s).byte (o + i)
  pub map_byte_past :
      (s : k.State) (o i : ℕ)
      → o % page_size ≡ 0
      → (view s).size ≤ o + i
      → 0 < (view s).size % page_size
      → o + i + (view s).size % page_size < (view s).size + page_size
      → k.map_byte s o i ≡ 0
  pub map_store_view :
      (s : k.State) (o i : ℕ) (b : Buf) (at n : ℕ)
      → o + i + n ≤ (view s).size
      → Same (view (k.map_store s o i b at n)) (write (view s) (o + i) b at n)
  pub msync_ok : (s : k.State) → (k.msync s).0 ≡ true
  pub msync_view : (s : k.State) → view (k.msync s).1 ≡ view s
  pub munmap_ok : (s : k.State) → (k.munmap s).0 ≡ true
  pub munmap_view : (s : k.State) → view (k.munmap s).1 ≡ view s
  pub close_ok : (s : k.State) → (k.close_fd s).0 ≡ true
  pub close_view : (s : k.State) → view (k.close_fd s).1 ≡ view s
  pub open_ok : (s : k.State) → (k.open_fd s).0 ≡ true
  pub open_view : (s : k.State) → view (k.open_fd s).1 ≡ view s
  pub mark_ok : (s : k.State) → (k.dm_mark s).0 ≡ true
  pub mark_view : (s : k.State) → view (k.dm_mark s).1 ≡ view s
  pub dump_ok : (s : k.State) → (k.open_mark s).0 ≡ true
  pub dump_view : (s : k.State) → view (k.open_mark s).1 ≡ view s
