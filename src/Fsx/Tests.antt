-- ===== src/Fsx/Tests.antt =====
-- A configuration and a state of fsx.c on the reference kernel, at which the theorems are run.
mod Checks
mod CommandLine
mod Models
mod Operations
mod Replaying
mod Runs
mod Start
use longan_chkout.Base.{
  ℕ, ◌+◌, ◌*◌, ◌%◌, ◌^◌, ◌<◌, ◌≤◌, ◌≡◌, ◌≢◌, inl, inr, refl, Bool, true, false, List, [], ◌∷◌, none,
  some, Option, Buf, Outcome, ok, failed, ◌>>=◌, Holds, Passes, arith, tests, ltb, if◌then◌else◌,
}
use longan_chkout.Fsx.File
use longan_chkout.Fsx.File.{File, Same, Same-refl}
use longan_chkout.Fsx.Kernel.{IsCorrect}
use longan_chkout.Fsx.Kernel.Reference.{Disk, reference, reading-IsCorrect}
use longan_chkout.Fsx.State.{
  Config, Fsx, LogEntry, Op, op_read, op_write, op_truncate, op_collapse_range, op_insert_range,
  op_clone_range, op_copy_range, fl_none, log_entry, log_size,
}
use longan_chkout.Fsx.State.Log.{log_entry_lem, log_entry_keeps}
use longan_chkout.Fsx.Model.{
  gen_byte, gendata, put_data, collapse_model, insert_model, copy_model, zero_model,
}
use longan_chkout.Fsx.Model.Refines.{
  model, gendata_lem, put_data_refines, collapse_model_refines, insert_model_refines,
  copy_model_refines, zero_model_refines, punch_model_refines, resize_model_refines,
  prealloc_model_refines,
}
use longan_chkout.Fsx.Check.{check_buffers, check_size, check_whole, check_eofpage, scan_bad}
use longan_chkout.Fsx.Check.Sound.{check_buffers_sound, check_size_sound, scan_bad_lem, Scanned}
use longan_chkout.Fsx.Choose.{Call, choose, pick_dest, pick_dedupe, draw_dest, clashes}
use longan_chkout.Fsx.Choose.Destination.{
  IsFree, pick_dest_sound, pick_dest_ends, pick_dest_hangs, pick_dedupe_sound,
}
use longan_chkout.Fsx.Choose.Fit.{IsDrawable, IsFit, FitsAll}
use longan_chkout.Fsx.Choose.Drawn.{choose-FitsAll}
use longan_chkout.Fsx.Step.{run, test, run_call, begin, perform, writefileimage}
use longan_chkout.Fsx.Live.{IsSetUp, Live}
use longan_chkout.Fsx.Live.Run.{
  Ready, Imaged, run-Passes, run_call-Live, begin-Live, writefileimage-Imaged,
}
use longan_chkout.Fsx.Live.Perform.{perform-Live}

abbrev pub small : Config
small = record {
  original_buf = λ i. i % 256;
  random = λ n. (n * 7919 + 12345) % 100003;
  simulatedopcount = 0;
  closeprob = 0;
  debugstart = 0;
  filldata = 0;
  maxfilelen = 64;
  maxoplen = 16;
  readbdy = 1;
  writebdy = 1;
  truncbdy = 1;
  block_size = 4;
  page_size = 16;
  flush = true;
  do_fsync = true;
  sizechecks = true;
  style = false;
  lite = false;
  randomoplen = true;
  o_direct = false;
  check_file = true;
  integrity = false;
  mapped_reads = true;
  mapped_writes = true;
  fallocate_calls = true;
  keep_size_calls = true;
  punch_hole_calls = true;
  zero_range_calls = true;
  collapse_range_calls = true;
  insert_range_calls = true;
  clone_range_calls = true;
  dedupe_range_calls = true;
  copy_range_calls = true;
}

abbrev no_log : ℕ → LogEntry
no_log i = record { operation = op_read; args = []; flags = fl_none }

-- A file of 20 bytes, each its own offset, as fsx expects it.
abbrev disk : Disk
disk = record { file = record { size = 20; byte = λ j. j }; offset = 0 }

abbrev pub start : Fsx Disk
start = record {
  kernel = disk;
  good_buf = λ j. j;
  temp_buf = λ j. 0;
  file_size = 20;
  biggest = 20;
  testcalls = 5;
  oplog = no_log;
  logptr = 0;
  logcount = 0;
  badoff = none;
  closeopen = false;
  debug = false;
  mark_nr = 0;
  draws = 0;
}

abbrev pub correct : IsCorrect reference 16 4 64
correct = reading-IsCorrect 63 16 4

pub small-IsSetUp : IsSetUp small
small-IsSetUp = record {
  readbdy_pos = omega arith;
  writebdy_pos = omega arith;
  truncbdy_pos = omega arith;
  block_pos = omega arith;
  page_pos = omega arith;
  small_file = omega arith;
  small_page = omega arith;
  not_lite = refl;
}

pub small-IsDrawable : IsDrawable small
small-IsDrawable = record {
  random_small = λ n. omega arith;
  oplen_small = omega arith;
  filelen_small = omega arith;
  filelen_pos = omega arith;
  style_fits = λ e. omega arith;
}

pub start-Live : Live reference small correct start
start-Live = record { bounded = omega arith; real = omega arith; same = Same-refl _ }

pub start-Ready : Ready reference small correct small-IsSetUp start
start-Ready = record { bounded = omega arith; reached = omega arith; agrees = inr (Same-refl _) }
