-- ===== src/Fsx/SetUp/Probes.antt =====
-- What the preparations of `main` do to the file.
use longan_chkout.Base.{ℕ, ◌+◌, ◌<◌, ◌≡◌, refl, inl, true, arith, ◌==◌, Holds}
use longan_chkout.Fsx.File
use longan_chkout.Fsx.File.{File, Same, Same-trans, Same-sym}
use longan_chkout.Fsx.File.Congruence.{resize-Same}
use longan_chkout.Fsx.Kernel.{Kernel, IsCorrect}
use longan_chkout.Fsx.State.{Fsx}
use longan_chkout.Fsx.Model.Refines.{model}
use longan_chkout.Fsx.Check.{is_size}
use longan_chkout.Fsx.SetUp.{Lacks, check_trunc_hack, test_copy_range}

-- A file cut to its size, grown and cut again is the file.
grown_and_cut :
    (f : File) (n : ℕ)
    → Same (File.resize (File.resize (File.resize f f.size) (f.size + n)) f.size) f
grown_and_cut f n = record { same_size = refl; same_byte = λ j l. ground arith }

module _ (k : Kernel) (page_size block most : ℕ) (w : IsCorrect k page_size block most)
    (l : Lacks k.State) where
  -- The kernel holds the expected file, and only the kernel has changed.
  pub record Restored (s t : Fsx k.State) : Type 0 where
    pub same : Same (w.view t.kernel) (model t)
    pub only : t ≡ record s { kernel = t.kernel }

  pub check_trunc_hack-Restored :
      (s : Fsx k.State)
      → Same (w.view s.kernel) (model s)
      → Holds (Restored s) (check_trunc_hack k l s)
  unfolding check_trunc_hack is_size
  check_trunc_hack-Restored s v =
      rw
        (
          w.ftruncate_ok s.kernel s.file_size,
          w.ftruncate_ok k1 (s.file_size + 100000),
          w.fstat_ok k2,
          sized,
          w.ftruncate_ok k2 s.file_size,
        )
        (record { same = back; only = refl })
    where
      k1 : k.State
      k1 = (k.ftruncate s.kernel s.file_size).1

      k2 : k.State
      k2 = (k.ftruncate k1 (s.file_size + 100000)).1

      sized : (s.file_size + 100000 == (w.view k2).size) ≡ true
      sized = ground (arith, (w.ftruncate_view k1 (s.file_size + 100000)).same_size)

      back : Same (w.view (k.ftruncate k2 s.file_size).1) (model s)
      back = Same-trans (w.ftruncate_view k2 s.file_size) (
          Same-trans
            (resize-Same s.file_size (
              Same-trans (w.ftruncate_view k1 (s.file_size + 100000)) (
                resize-Same (s.file_size + 100000) (
                  Same-trans (w.ftruncate_view s.kernel s.file_size) (resize-Same s.file_size v)))))
            (grown_and_cut (model s) 100000))

  -- On a correct file system, with at least one byte in the file, the probe for `copy_file_range`
  -- copies byte 0 over byte 1 of the file.
  pub test_copy_range_lem :
      (s : Fsx k.State)
      → 0 < (w.view s.kernel).size
      → Holds
          (λ r. Same (w.view r.1.kernel) (File.copy (w.view s.kernel) 0 1 1))
          (test_copy_range k l s)
  unfolding test_copy_range
  test_copy_range_lem s p =
      rw one at (w.copy_view s.kernel 0 1 1 (omega arith) p (inl (omega arith)))
    where
      one : w.copied s.kernel 0 1 1 ≡ 1
      one = omega (arith, w.copied_some s.kernel 0 1 1 (omega arith) p (inl (omega arith)))
