-- ===== src/Fsx/Range.antt =====
-- fsx.c: the calls of `fallocate` (punch hole, zero range, collapse range, insert range, and
-- preallocation), with what they do to `good_buf` and `file_size`.
use longan_chkout.Base.{ℕ, Bool, ◌||◌, Outcome, ok, ◌>>=◌, expect, leb, ◌==◌, if◌then◌else◌, add32}
use longan_chkout.Fsx.Kernel.{
  Kernel, FallocMode, plain, keep_size, punch_hole, zeroing, collapsing, inserting,
}
use longan_chkout.Fsx.State.{
  Config, Fsx, op_punch_hole, op_zero_range, op_collapse_range, op_insert_range, op_fallocate,
  fl_none, fl_skipped, fl_keep, fl_skipped_keep, log4,
}
use longan_chkout.Fsx.Model.{
  note_biggest, punch_model, zero_model, collapse_model, insert_model, prealloc_model,
}
use longan_chkout.Fsx.Transfer.{simulated}

module _ (k : Kernel) (c : Config) where
  -- `fallocate` with the exit that all five calls have.
  unfoldable pub falloc : FallocMode → ℕ → ℕ → Fsx k.State → Outcome (Fsx k.State)
  falloc mode offset length s =
      let (done, k1) = k.fallocate s.kernel mode offset length in
      expect done 161 (record s { kernel = k1 })

  unfoldable pub do_punch_hole : ℕ → ℕ → Fsx k.State → Outcome (Fsx k.State)
  unfolding simulated
  do_punch_hole offset length s =
      if length == 0 || leb s.file_size offset
      then ok (log4 op_punch_hole offset length fl_skipped s)
      else (let s1 = log4 op_punch_hole offset length fl_none s in
          if simulated k c s1
          then ok s1
          else do s2 ← falloc punch_hole offset length s1; ok (punch_model offset length s2))

  -- `keep_size` goes to the log and to `biggest`, and not to `fallocate`.
  unfoldable pub do_zero_range : ℕ → ℕ → Bool → Fsx k.State → Outcome (Fsx k.State)
  unfolding simulated
  do_zero_range offset length keep s =
      let end_offset = if keep then 0 else add32 offset length in
      if length == 0
      then ok (log4 op_zero_range offset length (fl_skipped_keep keep) s)
      else (let s1 = log4 op_zero_range offset length (fl_keep keep) (note_biggest end_offset s) in
          if simulated k c s1
          then ok s1
          else do s2 ← falloc zeroing offset length s1; ok (zero_model offset length s2))

  unfoldable pub do_collapse_range : ℕ → ℕ → Fsx k.State → Outcome (Fsx k.State)
  unfolding simulated
  do_collapse_range offset length s =
      if length == 0 || leb s.file_size (add32 offset length)
      then ok (log4 op_collapse_range offset length fl_skipped s)
      else (let s1 = log4 op_collapse_range offset length fl_none s in
          if simulated k c s1
          then ok s1
          else do s2 ← falloc collapsing offset length s1; ok (collapse_model offset length s2))

  unfoldable pub do_insert_range : ℕ → ℕ → Fsx k.State → Outcome (Fsx k.State)
  unfolding simulated
  do_insert_range offset length s =
      if length == 0 || leb s.file_size offset
      then ok (log4 op_insert_range offset length fl_skipped s)
      else (let s1 = log4 op_insert_range offset length fl_none s in
          if simulated k c s1
          then ok s1
          else do s2 ← falloc inserting offset length s1; ok (insert_model offset length s2))

  unfoldable pub do_preallocate : ℕ → ℕ → Bool → Fsx k.State → Outcome (Fsx k.State)
  unfolding simulated
  do_preallocate offset length keep s =
      let end_offset = if keep then 0 else add32 offset length in
      if length == 0
      then ok (log4 op_fallocate offset length (fl_skipped_keep keep) s)
      else (let s1 = log4 op_fallocate offset length (fl_keep keep) (note_biggest end_offset s) in
          let s2 = prealloc_model end_offset s1 in
          if simulated k c s2
          then ok s2
          else falloc (if keep then keep_size else plain) offset length s2)
