-- ===== src/Fsx/Kernel/Reference.antt =====
-- A kernel that does at once what is documented, but for reads of more than a number of bytes,
-- which are short: it shows that the hypotheses on the kernel can be met, and runs the tests.
use mathlib.Core.Option.{some-injective}
use longan_chkout.Base.{ℕ, suc, ◌+◌, ◌≤◌, ◌<◌, ◌≡◌, refl, ap, true, some, arith, leb, if◌then◌else◌}
use longan_chkout.Fsx.File
use longan_chkout.Fsx.File.{File, Same-refl}
use longan_chkout.Fsx.Kernel.{
  Kernel, IsCorrect, FallocMode, plain, keep_size, punch_hole, zeroing, collapsing, inserting,
  deduped, bytes,
}

pub record Disk : Type 0 where
  pub file : File
  pub offset : ℕ

abbrev fallocated : FallocMode → ℕ → ℕ → File → File
fallocated plain o n f = File.allocate f o n
fallocated keep_size o n f = f
fallocated punch_hole o n f = File.punch f o n
fallocated zeroing o n f = File.zero_range f o n
fallocated collapsing o n f = File.collapse f o n
fallocated inserting o n f = File.insert f o n

-- A `read` gives at most `cap + 1` bytes.
abbrev capped : ℕ → ℕ → ℕ
capped cap n = if leb n (suc cap) then n else suc cap

abbrev pub reading : ℕ → Kernel
reading cap = record {
  State = Disk;
  lseek = λ s o. (true, record s { offset = o });
  seek_end = λ s. (some s.file.size, record s { offset = s.file.size });
  fstat = λ s. some s.file.size;
  sys_read = λ s n. (
    some (capped cap n),
    λ i. File.or_zero s.file (s.offset + i),
    record s { offset = s.offset + capped cap n },
  );
  sys_write = λ s b i n. (some n, record s { file = File.write s.file s.offset b i n });
  ftruncate = λ s n. (true, record s { file = File.resize s.file n });
  fallocate = λ s m o n. (true, record s { file = fallocated m o n s.file });
  clone = λ s o n d. (true, record s { file = File.copy s.file o n d });
  dedupe = λ s o n d. (deduped, s);
  copy_file_range = λ s o d n. (bytes n, record s { file = File.copy s.file o n d });
  fsync = λ s. (true, s);
  mmap = λ s o n. (true, s);
  map_byte = λ s o i. File.or_zero s.file (o + i);
  map_store = λ s o i b at n. record s { file = File.write s.file (o + i) b at n };
  msync = λ s. (true, s);
  munmap = λ s. (true, s);
  close_fd = λ s. (true, s);
  open_fd = λ s. (true, s);
  dm_mark = λ s. (true, s);
  open_mark = λ s. (true, s);
}

-- A kernel that reads all of up to 64 bytes at once.
abbrev pub reference : Kernel
reference = reading 63

pub read_lem :
    (f : File) (o n i : ℕ) → o + n ≤ f.size → i < n → File.or_zero f (o + i) ≡ f.byte (o + i)
read_lem f o n i h l = ground arith

pub byte_lem : (f : File) (j : ℕ) → j < f.size → File.or_zero f j ≡ f.byte j
byte_lem f j l = ground arith

pub past_lem : (f : File) (j : ℕ) → f.size ≤ j → File.or_zero f j ≡ 0
past_lem f j l = ground arith

pub capped_all : (cap n : ℕ) → n ≤ suc cap → capped cap n ≡ n
capped_all cap n h = ground arith

pub capped_some : (cap n : ℕ) → 0 < n → (0 < capped cap n) × (capped cap n ≤ n)
capped_some cap n h = ground arith

pub capped-le : (cap n : ℕ) → capped cap n ≤ n
capped-le cap n = ground arith

abbrev pub reading-IsCorrect :
    (cap page_size block : ℕ) → IsCorrect (reading cap) page_size block (suc cap)
reading-IsCorrect cap page_size block = record {
  view = λ s. s.file;
  pos = λ s. s.offset;
  lseek_ok = λ s o. refl;
  lseek_view = λ s o. refl;
  lseek_pos = λ s o. refl;
  seek_end_ok = λ s. refl;
  seek_end_view = λ s. refl;
  fstat_ok = λ s. refl;
  read_ok = λ s n l h. rw (capped_all cap n l) refl;
  count = λ s n. capped cap n;
  read_some = λ s n p h. (refl, (capped_some cap n p).0, (capped_some cap n p).1);
  read_byte = λ s n m i h e l.
      read_lem s.file s.offset n i h
        (omega (arith, capped-le cap n, some-injective (capped cap n) m e, l));
  read_pos = λ s n m e. ap (λ x. s.offset + x) (some-injective (capped cap n) m e);
  read_view = λ s n. refl;
  write_ok = λ s b i n l. refl;
  write_view = λ s b i n l. Same-refl _;
  ftruncate_ok = λ s n. refl;
  ftruncate_view = λ s n. Same-refl _;
  plain_ok = λ s o n p. refl;
  plain_view = λ s o n p. Same-refl _;
  keep_size_ok = λ s o n p. refl;
  keep_size_view = λ s o n p. Same-refl _;
  punch_ok = λ s o n p. refl;
  punch_view = λ s o n p. Same-refl _;
  zero_ok = λ s o n p. refl;
  zero_view = λ s o n p. Same-refl _;
  collapse_ok = λ s o n p ao al h. refl;
  collapse_view = λ s o n e. Same-refl _;
  insert_ok = λ s o n p ao al h. refl;
  insert_view = λ s o n e. Same-refl _;
  clone_ok = λ s o n d p ao al ad h a. refl;
  clone_view = λ s o n d e. Same-refl _;
  dedupe_ok = λ s o n d p ao al ad h hd a. refl;
  dedupe_view = λ s o n d. Same-refl _;
  copied = λ s o d n. n;
  copy_ok = λ s o d n p h a. refl;
  copied_some = λ s o d n p h a. (p, omega arith);
  copy_view = λ s o d n p h a. Same-refl _;
  fsync_ok = λ s. refl;
  fsync_view = λ s. refl;
  mmap_ok = λ s o n p a. refl;
  mmap_view = λ s o n. refl;
  map_byte_in = λ s o i h. byte_lem s.file (o + i) h;
  map_byte_past = λ s o i a h p l. past_lem s.file (o + i) h;
  map_store_view = λ s o i b at n h. Same-refl _;
  msync_ok = λ s. refl;
  msync_view = λ s. refl;
  munmap_ok = λ s. refl;
  munmap_view = λ s. refl;
  close_ok = λ s. refl;
  close_view = λ s. refl;
  open_ok = λ s. refl;
  open_view = λ s. refl;
  mark_ok = λ s. refl;
  mark_view = λ s. refl;
  dump_ok = λ s. refl;
  dump_view = λ s. refl;
}
