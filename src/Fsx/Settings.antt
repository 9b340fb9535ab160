-- ===== src/Fsx/Settings.antt =====
-- fsx.c: the options of the command line as `getopt_long` gives them, and the variables of `main`
-- that they set.
use longan_chkout.Base.{ℕ, ◌*◌, Bool, true, false, List, [], Option, none, Buf, ℤ, pos, nat_of}
use longan_chkout.Fsx.State.{Config}

-- The bytes of a string in front of its end.
abbrev pub Text : Type 0
Text = List ℕ

-- What `getopt_long` gives, named for the variables that `main` sets, in the order of its switch.
pub data Opt : Type 0 where
  opt_simulatedopcount opt_closeprob : Text → Opt
  opt_debug opt_flush : Opt
  opt_filldata opt_logdev opt_logid : Text → Opt
  opt_keep : Opt
  opt_maxfilelen opt_monitor : Text → Opt
  opt_sizechecks : Opt
  opt_maxoplen opt_progressinterval : Text → Opt
  opt_quiet : Opt
  opt_readbdy opt_style opt_truncbdy opt_writebdy : Text → Opt
  opt_prealloc opt_do_fsync opt_aio : Opt
  opt_debugstart : Text → Opt
  opt_fallocate opt_keep_size opt_punch_hole opt_zero_range opt_collapse_range : Opt
  opt_insert_range opt_clone_range opt_dedupe_range opt_copy_range opt_lite : Opt
  opt_numops : Text → Opt
  opt_randomoplen : Opt
  opt_dirpath : Text → Opt
  opt_mapped_reads : Opt
  opt_seed : Text → Opt
  opt_mapped_writes opt_check_file opt_o_direct : Opt
  opt_record_ops : Option Text → Opt
  opt_replay_ops : Text → Opt
  opt_unknown : Opt

-- The variables. `numops`, `monitorstart` and `monitorend` are `none` for -1; `truncate` and
-- `create` are the flags in `o_flags`; `style_local` is the variable `style` of `main`.
pub record Options : Type 0 where
  pub simulatedopcount : ℕ
  pub closeprob : ℤ
  pub debug : Bool
  pub flush : Bool
  pub do_fsync : Bool
  pub debugstart : ℕ
  pub filldata : ℕ
  pub logdev : Option Text
  pub logid : Option Text
  pub replayops : Option Text
  pub dname : Text
  pub opsfile : Text
  pub truncate : Bool
  pub create : Bool
  pub integrity : Bool
  pub quiet : Bool
  pub sizechecks : Bool
  pub prealloc : Bool
  pub aio : Bool
  pub lite : Bool
  pub randomoplen : Bool
  pub maxfilelen : ℕ
  pub monitorstart : Option ℕ
  pub monitorend : Option ℕ
  pub numops : Option ℕ
  pub maxoplen : ℤ
  pub readbdy : ℤ
  pub truncbdy : ℤ
  pub writebdy : ℤ
  pub style_local : ℤ
  pub seed : ℤ
  pub progressinterval : ℕ
  pub fallocate_calls : Bool
  pub keep_size_calls : Bool
  pub punch_hole_calls : Bool
  pub zero_range_calls : Bool
  pub collapse_range_calls : Bool
  pub insert_range_calls : Bool
  pub clone_range_calls : Bool
  pub dedupe_range_calls : Bool
  pub copy_range_calls : Bool
  pub mapped_reads : Bool
  pub mapped_writes : Bool
  pub check_file : Bool
  pub o_direct : Bool
  pub record_ops : Bool

-- The globals as they are declared.
abbrev pub defaults : Options
defaults = record {
  simulatedopcount = 0;
  closeprob = pos 0;
  debug = false;
  flush = false;
  do_fsync = false;
  debugstart = 0;
  filldata = 0;
  logdev = none;
  logid = none;
  replayops = none;
  dname = [];
  opsfile = [];
  truncate = true;
  create = true;
  integrity = false;
  quiet = false;
  sizechecks = true;
  prealloc = false;
  aio = false;
  lite = false;
  randomoplen = true;
  maxfilelen = 256 * 1024;
  monitorstart = none;
  monitorend = none;
  numops = none;
  maxoplen = pos (64 * 1024);
  readbdy = pos 1;
  truncbdy = pos 1;
  writebdy = pos 1;
  style_local = pos 0;
  seed = pos 1;
  progressinterval = 0;
  fallocate_calls = true;
  keep_size_calls = true;
  punch_hole_calls = true;
  zero_range_calls = true;
  collapse_range_calls = true;
  insert_range_calls = true;
  clone_range_calls = true;
  dedupe_range_calls = true;
  copy_range_calls = true;
  mapped_reads = true;
  mapped_writes = true;
  check_file = false;
  o_direct = false;
  record_ops = false;
}

-- The globals of a run. `style` is the global one, which nothing sets: `main` has its own.
unfoldable pub config_of : Options → Buf → (ℕ → ℕ) → ℕ → ℕ → Config
config_of o original_buf random block_size page_size = record {
  original_buf = original_buf;
  random = random;
  simulatedopcount = o.simulatedopcount;
  closeprob = nat_of o.closeprob;
  debugstart = o.debugstart;
  filldata = o.filldata;
  maxfilelen = o.maxfilelen;
  maxoplen = nat_of o.maxoplen;
  readbdy = nat_of o.readbdy;
  writebdy = nat_of o.writebdy;
  truncbdy = nat_of o.truncbdy;
  block_size = block_size;
  page_size = page_size;
  flush = o.flush;
  do_fsync = o.do_fsync;
  sizechecks = o.sizechecks;
  style = false;
  lite = o.lite;
  randomoplen = o.randomoplen;
  o_direct = o.o_direct;
  check_file = o.check_file;
  integrity = o.integrity;
  mapped_reads = o.mapped_reads;
  mapped_writes = o.mapped_writes;
  fallocate_calls = o.fallocate_calls;
  keep_size_calls = o.keep_size_calls;
  punch_hole_calls = o.punch_hole_calls;
  zero_range_calls = o.zero_range_calls;
  collapse_range_calls = o.collapse_range_calls;
  insert_range_calls = o.insert_range_calls;
  clone_range_calls = o.clone_range_calls;
  dedupe_range_calls = o.dedupe_range_calls;
  copy_range_calls = o.copy_range_calls;
}
