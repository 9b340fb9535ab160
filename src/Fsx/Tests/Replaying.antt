-- ===== src/Fsx/Tests/Replaying.antt =====
-- The theorems on saved operations and their replay at small runs, with numbers written in unary.
use Prim.Native.String.{String}
use Prim.Native.Char.{code}
use longan_chkout.Base.{
  ℕ, zero, suc, ◌+◌, ◌%◌, ◌^◌, ◌<◌, ◌≡◌, refl, ap, true, false, [], ◌∷◌, Option, none, some, arith,
  ok, ◌≤◌, ltb, ◌==◌, if◌then◌else◌,
}
use longan_chkout.Fsx.Kernel.Reference.{Disk}
use longan_chkout.Fsx.State.{
  op_read, op_write, op_clone_range, fl_none, fl_skipped, LogEntry, Fsx, log4, log5, op_copy_range,
}
use longan_chkout.Fsx.Replay.{entry, parse_error, op_args_count, ops_line, read_op, opnum, dump}
use longan_chkout.Fsx.Replay.RoundTrip.{IsRecorded, read_op-ops_line}
use longan_chkout.Fsx.Replay.Ring.{items, IsRing, dump-items, opnum_lem}
use longan_chkout.Fsx.Rerun.{Rerun, next_op}
use longan_chkout.Fsx.Rerun.Recorded.{next_op-log5, next_op-log4, read_op-log4}
use longan_chkout.Fsx.Tests.{start}

strokes : ℕ → String
strokes zero = String.[]
strokes (suc n) = String.◌∷◌ "x" (strokes n)

unary : ℕ → String
unary n = String.◌∷◌ "x" (strokes n)

strokes_of : String → ℕ
strokes_of String.[] = 0
strokes_of (String.◌∷◌ c w) = suc (strokes_of w)

of_unary : String → Option ℕ
of_unary String.[] = none
of_unary (String.◌∷◌ c w) = if code c == 120 then some (strokes_of w) else none

strokes_of-strokes : (n : ℕ) → strokes_of (strokes n) ≡ n
unfolding strokes strokes_of
strokes_of-strokes zero = refl
strokes_of-strokes (suc n) = ap suc (strokes_of-strokes n)

of_unary-unary : (n : ℕ) → n < 2 ^ 32 → of_unary (unary n) ≡ some n
unfolding unary of_unary
of_unary-unary n l = ap some (strokes_of-strokes n)

abbrev a_write : LogEntry
a_write = record { operation = op_write; args = 3 ∷ 5 ∷ 20 ∷ []; flags = fl_none }

a_write-IsRecorded : IsRecorded a_write
unfolding op_args_count
a_write-IsRecorded = record {
  counted = refl;
  small = (omega arith, (omega arith, (omega arith, tt)));
}

read_op-ops_line_example : read_op of_unary (ops_line unary a_write true ∷ []) ≡ entry a_write []
read_op-ops_line_example =
    read_op-ops_line unary of_unary of_unary-unary a_write true [] a_write-IsRecorded

-- The line of a copy of 5 bytes from 2 to 30, and the line of a write of 5 bytes at 3.
abbrev saved_copy : Rerun Disk
saved_copy = record {
  rest = ops_line unary ((log5 op_copy_range 2 5 30 fl_none start).oplog start.logptr) true ∷ [];
  taken = none;
  fsx = start;
}

abbrev saved_write : Rerun Disk
saved_write = record {
  rest = ops_line unary ((log4 op_write 3 5 fl_none start).oplog start.logptr) false ∷ [];
  taken = none;
  fsx = start;
}

next_op-log5_example :
    next_op of_unary 2 saved_copy
    ≡ ok (record saved_copy {
      rest = [];
      taken =
          some (record { op = op_copy_range; offset = 2; size = 5; offset2 = 30; keep = false });
      fsx = record start { closeopen = false };
    })
next_op-log5_example =
    next_op-log5 unary of_unary of_unary-unary op_copy_range 2 5 30 fl_none start true [] 1
      saved_copy (unfold op_args_count in refl) (omega arith) (omega arith) (omega arith)
      (omega arith) refl refl

next_op-log4_example :
    next_op of_unary 2 saved_write
    ≡ ok (record saved_write {
      rest = [];
      taken = some (record { op = op_write; offset = 3; size = 5; offset2 = 20; keep = false });
      fsx = record start { closeopen = false };
    })
next_op-log4_example =
    next_op-log4 unary of_unary of_unary-unary op_write 3 5 fl_none start false [] 1 saved_write
      (unfold op_args_count in refl) (omega arith) (omega arith) (omega arith) refl refl

read_op-log4_example :
    read_op of_unary
      (ops_line unary ((log4 op_clone_range 4 8 fl_skipped start).oplog start.logptr) true ∷ [])
    ≡ parse_error
read_op-log4_example =
    read_op-log4 unary of_unary of_unary-unary op_clone_range 4 8 start true []
      (unfold op_args_count in refl) (unfold of_unary in refl) (unfold of_unary in refl)

-- The ring behind 12000 operations, its place being 2000.
abbrev history : ℕ → LogEntry
history i = record { operation = op_read; args = i ∷ []; flags = fl_none }

abbrev wrapped : Fsx Disk
wrapped = record start {
  logcount = 12000;
  logptr = 2000;
  oplog = λ j. history (if ltb j 2000 then j + 10000 else j);
}

wrapped-IsRing : IsRing history wrapped
wrapped-IsRing = record { place = refl; kept = λ i l b. ap history (place i l b) }
  where
    place :
        (i : ℕ)
        → i < 12000
        → 12000 ≤ i + 10000
        → (if ltb (i % 10000) 2000 then i % 10000 + 10000 else i % 10000) ≡ i
    place i l b = ground (arith, l, b)

dump-items_example : dump wrapped ≡ items history 2000 10000
dump-items_example = dump-items history wrapped wrapped-IsRing

opnum_lem_example : opnum wrapped 5000 ≡ 15001
opnum_lem_example = opnum_lem history wrapped 5000 wrapped-IsRing (omega arith) (omega arith)
