-- ===== src/Fsx/State.antt =====
-- The options and the state of fsx.c, and its log of operations.
pub mod Log
use longan_chkout.Base.{
  ℕ, Bool, true, false, ◌||◌, ◌+◌, List, [], ◌∷◌, Option, Buf, leb, ◌==◌, if◌then◌else◌,
}

-- The anonymous enum of operations.
pub data Op : Type 0 where
  op_read op_write op_mapread op_mapwrite op_truncate op_fallocate op_punch_hole : Op
  op_zero_range op_collapse_range op_insert_range op_clone_range op_dedupe_range : Op
  op_copy_range op_fsync : Op

-- `enum opflags`, one field for each bit.
pub record OpFlags : Type 0 where
  pub skipped : Bool
  pub close_open : Bool
  pub keeps_size : Bool

abbrev pub fl_none : OpFlags
fl_none = record { skipped = false; close_open = false; keeps_size = false }

abbrev pub fl_skipped : OpFlags
fl_skipped = record { skipped = true; close_open = false; keeps_size = false }

-- `keep_size ? FL_KEEP_SIZE : FL_NONE`
abbrev pub fl_keep : Bool → OpFlags
fl_keep keep = record { skipped = false; close_open = false; keeps_size = keep }

abbrev pub fl_skipped_keep : Bool → OpFlags
fl_skipped_keep keep = record { skipped = true; close_open = false; keeps_size = keep }

-- `struct log_entry`; `nr_args` is the length of `args`.
pub record LogEntry : Type 0 where
  pub operation : Op
  pub args : List ℕ
  pub flags : OpFlags

abbrev pub log_size : ℕ
log_size = 10000

-- The globals that the command line sets, and the stream that `random` gives.
pub record Config : Type 0 where
  pub original_buf : Buf
  pub random : ℕ → ℕ
  pub simulatedopcount : ℕ
  pub closeprob : ℕ
  pub debugstart : ℕ
  pub filldata : ℕ
  pub maxfilelen : ℕ
  pub maxoplen : ℕ
  pub readbdy : ℕ
  pub writebdy : ℕ
  pub truncbdy : ℕ
  pub block_size : ℕ
  pub page_size : ℕ
  pub flush : Bool
  pub do_fsync : Bool
  pub sizechecks : Bool
  pub style : Bool
  pub lite : Bool
  pub randomoplen : Bool
  pub o_direct : Bool
  pub check_file : Bool
  pub integrity : Bool
  pub mapped_reads : Bool
  pub mapped_writes : Bool
  pub fallocate_calls : Bool
  pub keep_size_calls : Bool
  pub punch_hole_calls : Bool
  pub zero_range_calls : Bool
  pub collapse_range_calls : Bool
  pub insert_range_calls : Bool
  pub clone_range_calls : Bool
  pub dedupe_range_calls : Bool
  pub copy_range_calls : Bool

-- The globals that a run changes, with the state of the kernel. `badoff` is `none` for -1, and
-- `draws` counts the calls of `random`.
pub record Fsx (S : Type 0) : Type 0 where
  pub kernel : S
  pub good_buf : Buf
  pub temp_buf : Buf
  pub file_size : ℕ
  pub biggest : ℕ
  pub testcalls : ℕ
  pub oplog : ℕ → LogEntry
  pub logptr : ℕ
  pub logcount : ℕ
  pub badoff : Option ℕ
  pub closeopen : Bool
  pub debug : Bool
  pub mark_nr : ℕ
  pub draws : ℕ

module _ {S : Type 0} where
  -- What `log4` and `log5` share: the entry at `logptr`, and the step round the ring.
  unfoldable pub log_entry : Op → List ℕ → OpFlags → Fsx S → Fsx S
  log_entry op args flags s = record s {
    oplog = λ i.
        if i == s.logptr
        then record {
          operation = op;
          args = args;
          flags = record flags { close_open = flags.close_open || s.closeopen };
        }
        else s.oplog i;
    logptr = if leb log_size (s.logptr + 1) then 0 else s.logptr + 1;
    logcount = s.logcount + 1;
  }

  unfoldable pub log5 : Op → ℕ → ℕ → ℕ → OpFlags → Fsx S → Fsx S
  unfolding log_entry
  log5 op arg0 arg1 arg2 flags s = log_entry op (arg0 ∷ arg1 ∷ arg2 ∷ s.file_size ∷ []) flags s

  unfoldable pub log4 : Op → ℕ → ℕ → OpFlags → Fsx S → Fsx S
  unfolding log_entry
  log4 op arg0 arg1 flags s = log_entry op (arg0 ∷ arg1 ∷ s.file_size ∷ []) flags s
