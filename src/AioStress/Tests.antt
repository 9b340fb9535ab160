-- ===== src/AioStress/Tests.antt =====
-- The theorems on aio-stress.c at an operation on four megabytes.
use longan_chkout.Base.{◌+◌, ◌*◌, ◌≤◌, ◌≡◌, inl, refl, Bool, true, false, arith}
use longan_chkout.AioStress.{
  Stage, write, read, rwrite, rread, IoOper, random_byte_offset, build_oper, clipped, next_stage,
  restart_oper,
}
use longan_chkout.AioStress.Offsets.{
  AllWithin, IsSequential, random_byte_offset-bounds, build_oper-AllWithin,
}
use longan_chkout.AioStress.Stages.{IsRestarted, restart_oper-IsRestarted}

-- From 1 MiB to 5 MiB, in records of 64 KiB.
abbrev oper : IoOper
oper = record {
  start = 1048576;
  end = 5242880;
  reclen = 65536;
  depth = 64;
  num_pending = 0;
  last_err = 0;
  num_err = 0;
  rw = write;
  total_ios = 64;
  started_ios = 60;
  last_offset = 4980736;
  stonewalled = false;
}

abbrev asked : Stage → Bool
asked write = true
asked read = false
asked rwrite = true
asked rread = true

random_byte_offset-bounds_example :
    (1048576 ≤ random_byte_offset 4096 2147483647 2147483647 oper)
    × (random_byte_offset 4096 2147483647 2147483647 oper + 65536 ≤ 5242880)
random_byte_offset-bounds_example =
    random_byte_offset-bounds 4096 2147483647 2147483647 oper (omega arith) (omega arith) refl
      (omega arith) (omega arith) (omega arith) (omega arith)

build_oper-AllWithin_example :
    AllWithin 1048576 5242880 65536 (build_oper 4096 (λ i. i) 0 8 oper).0
    × ((build_oper 4096 (λ i. i) 0 8 oper).1.last_offset ≡ 1048576 + (60 + clipped 8 oper) * 65536)
build_oper-AllWithin_example =
    build_oper-AllWithin 4096 (λ i. i) 0 8 oper (unfold IsSequential in (inl refl)) (omega arith)
      refl (omega arith) refl

restart_oper-IsRestarted_example :
    IsRestarted asked oper (record oper { started_ios = 0; last_offset = 1048576; rw = rwrite })
restart_oper-IsRestarted_example =
    restart_oper-IsRestarted asked oper
      (record oper { started_ios = 0; last_offset = 1048576; rw = rwrite })
      (unfold restart_oper in (unfold next_stage in refl))
