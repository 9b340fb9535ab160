-- ===== src/Fsx/Live/Run.antt =====
-- A run of fsx.c on a correct file system reports no failure.
use longan_chkout.Base.{
  ℕ, zero, suc, ◌+◌, ◌^◌, ◌≤◌, ◌<◌, ◌≡◌, ◌⊎◌, inl, inr, refl, Bool, true, false, arith, ltb, ◌==◌,
  ◌&&◌, if◌then◌else◌, Option, none, some, Holds, Holds-if, Holds-bind, Holds-map, Passes,
  Passes-bind, Holds-Passes, Buf, ==-refl, ap, ◌-◌,
}
use longan_chkout.Fsx.File.Congruence.{resize-Same}
use longan_chkout.Fsx.File.{File, Same, Same-trans, Same-sym}
use longan_chkout.Fsx.File
use longan_chkout.Fsx.Kernel.{Kernel, IsCorrect}
use longan_chkout.Fsx.State.{
  Op, op_read, op_write, op_mapread, op_mapwrite, op_fallocate, op_punch_hole, op_zero_range,
  op_collapse_range, op_insert_range, op_clone_range, op_dedupe_range, op_copy_range, Config, Fsx,
  fl_skipped,
}
use longan_chkout.Fsx.Model.Refines.{model}
use longan_chkout.Fsx.Check.{is_size}
use longan_chkout.Fsx.Choose.{Call, choose}
use longan_chkout.Fsx.Choose.Fit.{Drawn, IsDrawable, IsFit, FitsAll}
use longan_chkout.Fsx.Choose.Drawn.{choose-FitsAll}
use longan_chkout.Fsx.Step.{
  perform, have_op, run_call, run_chosen, writefileimage, begin, test, run,
}
use longan_chkout.Fsx.Live.{IsSetUp, Live, Live-same}
use longan_chkout.Fsx.Live.Basics.{log4-Live, log5-Live}
use longan_chkout.Fsx.Live.Step.{finish-Live}
use longan_chkout.Fsx.Live.Perform.{perform-Live}

-- A file written whole and cut there is what was written.
resize-write :
    (g : File) (n : ℕ) (b : Buf)
    → Same (File.resize (File.write g 0 b 0 n) n) (record { size = n; byte = b })
resize-write g n b = record { same_size = refl; same_byte = λ j l. ground (arith, ap b (z j)) }
  where
    z : (j : ℕ) → 0 + (j - 0) ≡ j
    z j = omega arith

module _ (k : Kernel) (c : Config) (w : IsCorrect k c.page_size c.block_size c.maxfilelen)
    (u : IsSetUp c) where
  pub have_op-Live :
      (op : Op) (off len off2 : ℕ) (keep : Bool) (s : Fsx k.State)
      → off < 2 ^ 31
      → len < 2 ^ 31
      → Drawn c s.file_size op off len off2
      → Live k c w s
      → Holds (Live k c w) (have_op k c op off len off2 keep s)
  unfolding have_op
  have_op-Live op_mapread off len off2 keep s ho hl d v =
      elim c.mapped_reads
        as (λ b.
          Holds (Live k c w)
            (perform k c (if b then op_mapread else op_read) off len off2 keep s)) [
              | true ↦ perform-Live k c w u op_mapread off len off2 keep s ho hl d v
              | false ↦ perform-Live k c w u op_read off len off2 keep s ho hl d v
            ]
  have_op-Live op_mapwrite off len off2 keep s ho hl d v =
      elim c.mapped_writes
        as (λ b.
          Holds (Live k c w)
            (perform k c (if b then op_mapwrite else op_write) off len off2 keep s)) [
              | true ↦ perform-Live k c w u op_mapwrite off len off2 keep s ho hl d v
              | false ↦ perform-Live k c w u op_write off len off2 keep s ho hl d v
            ]
  have_op-Live op_fallocate off len off2 keep s ho hl d v =
      Holds-if (Live k c w) c.fallocate_calls _ _
        (λ _. perform-Live k c w u op_fallocate off len off2 keep s ho hl d v)
        (λ _. log4-Live k c w u op_fallocate off len fl_skipped s v)
  have_op-Live op_punch_hole off len off2 keep s ho hl d v =
      Holds-if (Live k c w) c.punch_hole_calls _ _
        (λ _. perform-Live k c w u op_punch_hole off len off2 keep s ho hl d v)
        (λ _. log4-Live k c w u op_punch_hole off len fl_skipped s v)
  have_op-Live op_zero_range off len off2 keep s ho hl d v =
      Holds-if (Live k c w) c.zero_range_calls _ _
        (λ _. perform-Live k c w u op_zero_range off len off2 keep s ho hl d v)
        (λ _. log4-Live k c w u op_zero_range off len fl_skipped s v)
  have_op-Live op_collapse_range off len off2 keep s ho hl d v =
      Holds-if (Live k c w) c.collapse_range_calls _ _
        (λ _. perform-Live k c w u op_collapse_range off len off2 keep s ho hl d v)
        (λ _. log4-Live k c w u op_collapse_range off len fl_skipped s v)
  have_op-Live op_insert_range off len off2 keep s ho hl d v =
      Holds-if (Live k c w) c.insert_range_calls _ _
        (λ _. perform-Live k c w u op_insert_range off len off2 keep s ho hl d v)
        (λ _. log4-Live k c w u op_insert_range off len fl_skipped s v)
  have_op-Live op_clone_range off len off2 keep s ho hl d v =
      Holds-if (Live k c w) c.clone_range_calls _ _
        (λ _. perform-Live k c w u op_clone_range off len off2 keep s ho hl d v)
        (λ _. log5-Live k c w u op_clone_range off len off2 fl_skipped s v)
  have_op-Live op_dedupe_range off len off2 keep s ho hl d v =
      Holds-if (Live k c w) c.dedupe_range_calls _ _
        (λ _. perform-Live k c w u op_dedupe_range off len off2 keep s ho hl d v)
        (λ _. log5-Live k c w u op_dedupe_range off len off2 fl_skipped s v)
  have_op-Live op_copy_range off len off2 keep s ho hl d v =
      Holds-if (Live k c w) c.copy_range_calls _ _
        (λ _. perform-Live k c w u op_copy_range off len off2 keep s ho hl d v)
        (λ _. log5-Live k c w u op_copy_range off len off2 fl_skipped s v)
  have_op-Live op off len off2 keep s ho hl d v =
      perform-Live k c w u op off len off2 keep s ho hl d v

  -- On a correct file system and for options as set up, a fitting operation from a state of the
  -- invariant, with its skips, its checks, and the close and open behind it, ends without failure
  -- in a state of the invariant: the file is what `good_buf` and `file_size` say, and `file_size`
  -- is at most `maxfilelen`.
  pub run_call-Live :
      (call : Call) (s : Fsx k.State)
      → IsFit c s.file_size call
      → Live k c w s
      → Holds (Live k c w) (run_call k c call s)
  unfolding run_call
  run_call-Live call s f v =
      Holds-bind (Live k c w) (Live k c w) _ _
        (have_op-Live call.op call.offset call.size call.offset2 call.keep s f.small_offset
          f.small_size f.drawn v)
        (finish-Live k c w u)

  -- Before a call: the invariant, or all of the run so far was simulated.
  pub record Ready (s : Fsx k.State) : Type 0 where
    pub bounded : s.file_size ≤ c.maxfilelen
    pub reached : c.simulatedopcount ≤ s.testcalls
    pub agrees :
        ((c.simulatedopcount ≡ s.testcalls) × (0 < c.simulatedopcount))
        ⊎ Same (w.view s.kernel) (model s)

  -- The kernel holds the expected file, and only the kernel has changed.
  pub record Imaged (s t : Fsx k.State) : Type 0 where
    pub same : Same (w.view t.kernel) (model t)
    pub only : t ≡ record s { kernel = t.kernel }

  -- On a correct file system and for options as set up, `writefileimage` does not fail if
  -- `file_size` is at most `maxfilelen`, makes any file the expected one, and changes nothing but
  -- the kernel.
  pub writefileimage-Imaged :
      (s : Fsx k.State) → s.file_size ≤ c.maxfilelen → Holds (Imaged s) (writefileimage k c s)
  unfolding writefileimage is_size
  writefileimage-Imaged s h =
      rw (w.lseek_ok s.kernel 0, w.write_ok k1 s.good_buf 0 s.file_size h, ==-refl s.file_size)
        (Holds-if (Imaged s) c.lite _ _ (λ lite. absurd (cc lite_is))
          (λ _. rw (w.ftruncate_ok k2 s.file_size) (record { same = whole; only = refl })))
    where
      lite_is : c.lite ≡ false
      lite_is = u.not_lite

      k1 : k.State
      k1 = (k.lseek s.kernel 0).1

      k2 : k.State
      k2 = (k.sys_write k1 s.good_buf 0 s.file_size).1

      whole : Same (w.view (k.ftruncate k2 s.file_size).1) (model s)
      whole = Same-trans (w.ftruncate_view k2 s.file_size) (
          Same-trans
            (resize-Same s.file_size
              (rw (w.lseek_pos s.kernel 0) at (w.write_view k1 s.good_buf 0 s.file_size h)))
            (resize-write (w.view k1) s.file_size s.good_buf))

  -- On a correct file system and for options as set up, the start of `test` in a ready state ends
  -- without failure in a state of the invariant: where the simulated operations end, it writes the
  -- whole file image first.
  pub begin-Live : (s : Fsx k.State) → Ready s → Holds (Live k c w) (begin k c s)
  unfolding begin
  begin-Live s q =
      Holds-bind
        (λ t.
          Same (w.view t.kernel) (model t)
          × (t.file_size ≡ s.file_size)
          × (t.testcalls ≡ s.testcalls))
        (Live k c w) _ _
        (Holds-if _ (ltb 0 c.simulatedopcount && (s.testcalls == c.simulatedopcount)) _ _
          (λ _. Holds-map (Imaged s) _ _ (writefileimage-Imaged s q.bounded) (λ t r. (
            r.same,
            ap (λ (x : Fsx k.State). x.file_size) r.only,
            ap (λ (x : Fsx k.State). x.testcalls) r.only,
          )))
          (λ off. (settled off q.agrees, refl, refl)))
        (λ t r. record {
          bounded = omega (arith, r.1, q.bounded);
          real = omega (arith, r.2, q.reached);
          same = r.0;
        })
    where
      settled :
          (ltb 0 c.simulatedopcount && (s.testcalls == c.simulatedopcount)) ≡ false
          → ((c.simulatedopcount ≡ s.testcalls) × (0 < c.simulatedopcount))
            ⊎ Same (w.view s.kernel) (model s)
          → Same (w.view s.kernel) (model s)
      settled off (inl (e, p)) = absurd (ground (arith, off, e, p))
      settled off (inr same) = same

  Live-Ready : (s : Fsx k.State) → Live k c w s → Ready s
  Live-Ready s v = record {
    bounded = v.bounded;
    reached = omega (arith, v.real);
    agrees = inr v.same;
  }

  module _ (r : IsDrawable c) where
    run_chosen-Passes :
        (o : Option (Call × ℕ × Bool)) (s : Fsx k.State)
        → FitsAll c s.file_size o
        → Live k c w s
        → Passes (Live k c w) (run_chosen k c o s)
    unfolding run_chosen
    run_chosen-Passes none s f v = tt
    run_chosen-Passes (some (call, draws, close)) s f v = Holds-Passes (Live k c w) _ (
        run_call-Live call (record s { draws = draws; closeopen = close }) f
          (Live-same k c w s _ refl refl refl refl v))

    -- `test` reports no failure, and keeps the agreement.
    pub test-Passes : (fuel : ℕ) (s : Fsx k.State) → Ready s → Passes (Live k c w) (test k c fuel s)
    unfolding test
    test-Passes fuel s q =
        Passes-bind (Live k c w) (Live k c w) _ _ (Holds-Passes (Live k c w) _ (begin-Live s q))
          (λ t v.
            run_chosen-Passes (choose c fuel t.file_size t.closeopen t.draws) t
              (choose-FitsAll c r t.file_size v.bounded fuel t.draws t.closeopen) v)

    -- On a correct file system, for options as set up and drawable, any number of calls of `test`
    -- from a ready state (the simulated operations are over, and the file is the expected one
    -- unless its image is to be written next) reports no failure: the run ends in a ready state, or
    -- a search for a destination has used up its fuel.
    pub run-Passes : (n fuel : ℕ) (s : Fsx k.State) → Ready s → Passes Ready (run k c n fuel s)
    unfolding run
    run-Passes zero fuel s q = q
    run-Passes (suc n) fuel s q =
        Passes-bind (Live k c w) Ready _ _ (test-Passes fuel s q)
          (λ t v. run-Passes n fuel t (Live-Ready t v))
