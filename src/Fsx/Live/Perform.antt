-- ===== src/Fsx/Live/Perform.antt =====
-- Every operation of `test`, with arguments as `test` draws them, keeps the invariant on a
-- correct file system.
use longan_chkout.Base.{
  ℕ, ◌+◌, ◌%◌, ◌^◌, ◌≤◌, ◌<◌, ◌≡◌, Bool, arith, ltb, ◌==◌, u32, add64, Holds, Holds-if, Holds-bind,
  ◌>>=◌, ◌||◌,
}
use longan_chkout.Fsx.Kernel.{Kernel, IsCorrect, Apart}
use longan_chkout.Fsx.State.{
  Op, op_read, op_write, op_mapread, op_mapwrite, op_truncate, op_fallocate, op_punch_hole,
  op_zero_range, op_collapse_range, op_insert_range, op_clone_range, op_dedupe_range, op_copy_range,
  op_fsync, Config, Fsx, fl_skipped,
}
use longan_chkout.Fsx.Choose.Fit.{Drawn}
use longan_chkout.Fsx.Duplicate.{do_clone_range, do_dedupe_range, do_copy_range}
use longan_chkout.Fsx.Step.{perform, after_op}
use longan_chkout.Fsx.Live.{IsSetUp, Live}
use longan_chkout.Fsx.Live.Basics.{log5-Live}
use longan_chkout.Fsx.Live.Read.{doread-Live, domapread-Live}
use longan_chkout.Fsx.Live.Write.{dowrite-Live}
use longan_chkout.Fsx.Live.MapWrite.{domapwrite-Live, dotruncate-Live}
use longan_chkout.Fsx.Live.Range.{do_punch_hole-Live, do_zero_range-Live, do_preallocate-Live}
use longan_chkout.Fsx.Live.Duplicate.{do_clone_range-Live, do_dedupe_range-Live}
use longan_chkout.Fsx.Live.Copy.{do_copy_range-Live}
use longan_chkout.Fsx.Live.Step.{after_op-Live, dofsync-Live}
use longan_chkout.Fsx.Live.Shift.{u32-id, trimmed, perform_collapse, perform_insert}

module _ (k : Kernel) (c : Config) (w : IsCorrect k c.page_size c.block_size c.maxfilelen)
    (u : IsSetUp c) where
  perform_clone :
      (off len off2 : ℕ) (keep : Bool) (s : Fsx k.State)
      → Drawn c s.file_size op_clone_range off len off2
      → Live k c w s
      → Holds (Live k c w) (perform k c op_clone_range off len off2 keep s)
  unfolding perform
  perform_clone off len off2 keep s d v =
      Holds-if (Live k c w) (len == 0 || ltb c.maxfilelen (add64 off2 len)) _ _
        (λ _. log5-Live k c w u op_clone_range off len off2 fl_skipped s v)
        (λ go. cloned (d (ground (arith, go))))
    where
      cloned :
          (off + len ≤ s.file_size)
            × (off2 + len ≤ c.maxfilelen)
            × (off % c.block_size ≡ 0)
            × (len % c.block_size ≡ 0)
            × (off2 % c.block_size ≡ 0)
            × Apart off len off2
          → Holds
              (Live k c w)
              (do_clone_range k c (u32 off) (u32 len) (u32 off2) s >>= after_op k c)
      cloned (i, j, ao, al, ad, apart) =
          rw
            (
              u32-id off (omega (arith, i, v.bounded, u.small_file)),
              u32-id len (omega (arith, i, v.bounded, u.small_file)),
              u32-id off2 (omega (arith, j, u.small_file)),
            )
            (Holds-bind (Live k c w) (Live k c w) _ _
              (do_clone_range-Live k c w u off len off2 s i j ao al ad apart v)
              (after_op-Live k c w u))

  perform_dedupe :
      (off len off2 : ℕ) (keep : Bool) (s : Fsx k.State)
      → Drawn c s.file_size op_dedupe_range off len off2
      → Live k c w s
      → Holds (Live k c w) (perform k c op_dedupe_range off len off2 keep s)
  unfolding perform
  perform_dedupe off len off2 keep s d v =
      Holds-if (Live k c w) (len == 0 || ltb c.maxfilelen (add64 off2 len)) _ _
        (λ _. log5-Live k c w u op_dedupe_range off len off2 fl_skipped s v)
        (λ go. deduped (d (ground (arith, go))))
    where
      deduped :
          (off + len ≤ s.file_size)
            × (off2 + len ≤ s.file_size)
            × (off % c.block_size ≡ 0)
            × (len % c.block_size ≡ 0)
            × (off2 % c.block_size ≡ 0)
            × Apart off len off2
          → Holds
              (Live k c w)
              (do_dedupe_range k c (u32 off) (u32 len) (u32 off2) s >>= after_op k c)
      deduped (i, j, ao, al, ad, apart) =
          rw
            (
              u32-id off (omega (arith, i, v.bounded, u.small_file)),
              u32-id len (omega (arith, i, v.bounded, u.small_file)),
              u32-id off2 (omega (arith, j, v.bounded, u.small_file)),
            )
            (Holds-bind (Live k c w) (Live k c w) _ _
              (do_dedupe_range-Live k c w u off len off2 s i j ao al ad apart v)
              (after_op-Live k c w u))

  perform_copy :
      (off len off2 : ℕ) (keep : Bool) (s : Fsx k.State)
      → Drawn c s.file_size op_copy_range off len off2
      → Live k c w s
      → Holds (Live k c w) (perform k c op_copy_range off len off2 keep s)
  unfolding perform
  perform_copy off len off2 keep s d v =
      Holds-if (Live k c w) (len == 0 || ltb c.maxfilelen (add64 off2 len)) _ _
        (λ _. log5-Live k c w u op_copy_range off len off2 fl_skipped s v)
        (λ go. copied (d (ground (arith, go))))
    where
      copied :
          (off + len ≤ s.file_size) × (off2 + len ≤ c.maxfilelen) × Apart off len off2
          → Holds (Live k c w) (do_copy_range k c (u32 off) (u32 len) (u32 off2) s >>= after_op k c)
      copied (i, j, apart) =
          rw
            (
              u32-id off (omega (arith, i, v.bounded, u.small_file)),
              u32-id len (omega (arith, i, v.bounded, u.small_file)),
              u32-id off2 (omega (arith, j, u.small_file)),
            )
            (Holds-bind (Live k c w) (Live k c w) _ _
              (do_copy_range-Live k c w u off len off2 s i j apart v) (after_op-Live k c w u))

  -- On a correct file system and for options as set up, every operation of the second switch of
  -- `test`, with offset and size below 2 ^ 31 and arguments that `Drawn` allows for it, ends
  -- without failure and keeps the invariant.
  pub perform-Live :
      (op : Op) (off len off2 : ℕ) (keep : Bool) (s : Fsx k.State)
      → off < 2 ^ 31
      → len < 2 ^ 31
      → Drawn c s.file_size op off len off2
      → Live k c w s
      → Holds (Live k c w) (perform k c op off len off2 keep s)
  unfolding perform
  perform-Live op_read off len off2 keep s ho hl d v =
      Holds-bind (Live k c w) (Live k c w) _ _
        (doread-Live k c w u _ _ s
          (omega (arith, trimmed k c w u off len s.file_size v.bounded hl, v.bounded, u.small_file))
          (omega (arith, trimmed k c w u off len s.file_size v.bounded hl, v.bounded, u.small_file))
          v)
        (after_op-Live k c w u)
  perform-Live op_write off len off2 keep s ho hl d v =
      Holds-bind (Live k c w) (Live k c w) _ _
        (dowrite-Live k c w u _ _ s (trimmed k c w u off len c.maxfilelen (omega arith) hl) v)
        (after_op-Live k c w u)
  perform-Live op_mapread off len off2 keep s ho hl d v =
      Holds-bind (Live k c w) (Live k c w) _ _
        (domapread-Live k c w u _ _ s
          (omega (arith, trimmed k c w u off len s.file_size v.bounded hl, v.bounded, u.small_file))
          (omega (arith, trimmed k c w u off len s.file_size v.bounded hl, v.bounded, u.small_file))
          v)
        (after_op-Live k c w u)
  perform-Live op_mapwrite off len off2 keep s ho hl d v =
      Holds-bind (Live k c w) (Live k c w) _ _
        (domapwrite-Live k c w u _ _ s (trimmed k c w u off len c.maxfilelen (omega arith) hl) v)
        (after_op-Live k c w u)
  perform-Live op_truncate off len off2 keep s ho hl d v =
      Holds-bind (Live k c w) (Live k c w) _ _ (dotruncate-Live k c w u _ s (omega (arith, d)) v)
        (after_op-Live k c w u)
  perform-Live op_fallocate off len off2 keep s ho hl d v =
      Holds-bind (Live k c w) (Live k c w) _ _
        (do_preallocate-Live k c w u _ _ keep s
          (trimmed k c w u off len c.maxfilelen (omega arith) hl) v)
        (after_op-Live k c w u)
  perform-Live op_punch_hole off len off2 keep s ho hl d v =
      Holds-bind (Live k c w) (Live k c w) _ _
        (do_punch_hole-Live k c w u _ _ s
          (omega (arith, trimmed k c w u off len s.file_size v.bounded hl, v.bounded, u.small_file))
          v)
        (after_op-Live k c w u)
  perform-Live op_zero_range off len off2 keep s ho hl d v =
      Holds-bind (Live k c w) (Live k c w) _ _
        (do_zero_range-Live k c w u _ _ keep s (trimmed k c w u off len s.file_size v.bounded hl) v)
        (after_op-Live k c w u)
  perform-Live op_collapse_range off len off2 keep s ho hl d v =
      perform_collapse k c w u off len off2 keep s ho hl v
  perform-Live op_insert_range off len off2 keep s ho hl d v =
      perform_insert k c w u off len off2 keep s ho hl v
  perform-Live op_clone_range off len off2 keep s ho hl d v = perform_clone off len off2 keep s d v
  perform-Live op_dedupe_range off len off2 keep s ho hl d v =
      perform_dedupe off len off2 keep s d v
  perform-Live op_copy_range off len off2 keep s ho hl d v = perform_copy off len off2 keep s d v
  perform-Live op_fsync off len off2 keep s ho hl d v =
      Holds-bind (Live k c w) (Live k c w) _ _ (dofsync-Live k c w u s v) (after_op-Live k c w u)
