-- ===== src/Fsx/Rerun/Recorded.antt =====
-- fsx.c: what a replay takes from a file that `logdump` has saved, from the log to the call.
use Prim.Native.String.{String}
use longan_chkout.Base.{
  ℕ, suc, ◌^◌, ◌<◌, ◌≡◌, refl, ap, sym, ◌∙◌, Bool, true, false, ◌||◌, List, [], ◌∷◌, Option, none,
  some, arith, Outcome, ok, u32, ==-refl, lt→ltb,
}
use longan_chkout.Fsx.State.{Op, OpFlags, LogEntry, Fsx, fl_skipped, log4, log5, log_entry}
use longan_chkout.Fsx.Replay.{
  parse_error, op_args_count, ops_line, op_words, read_op, read_entry, read_words, read_args,
  is_passed, as_read, flag_words,
}
use longan_chkout.Fsx.Replay.RoundTrip.{IsRecorded, op_code-op_name, read_op-ops_line}
use longan_chkout.Fsx.Rerun.{Rerun, arg, extended, call_of, next_op, take_read, take_entry}

module _ (hex : ℕ → String) (strtoul : String → Option ℕ)
    (inverse : (n : ℕ) → n < 2 ^ 32 → strtoul (hex n) ≡ some n) where
  taken_entry :
      {S : Type 0} (next : Rerun S → Outcome (Rerun S)) (e : LogEntry) (b : Rerun S)
      → e.flags.skipped ≡ false
      → take_entry next e.flags.skipped e b
        ≡ ok (record b {
          taken = some (call_of e);
          fsx = record b.fsx { closeopen = e.flags.close_open };
        })
  unfolding take_entry
  taken_entry next e b h = ap (λ x. take_entry next x e b) h

  next_op-ops_line :
      {S : Type 0} (e : LogEntry) (overlap : Bool) (rest : List (List String)) (fuel : ℕ)
      (b : Rerun S)
      → IsRecorded e
      → e.flags.skipped ≡ false
      → b.rest ≡ ops_line hex e overlap ∷ rest
      → next_op strtoul (suc fuel) b
        ≡ ok (record b {
          rest = rest;
          taken = some (call_of e);
          fsx = record b.fsx { closeopen = e.flags.close_open };
        })
  unfolding next_op take_read
  next_op-ops_line e overlap rest fuel b r h l =
      rw (l, read_op-ops_line hex strtoul inverse e overlap rest r)
        (taken_entry (next_op strtoul fuel) e (record b { rest = rest }) h)

  -- The call of an entry whose arguments are no negative `int`.
  call_of_lem :
      (op : Op) (off len off2 : ℕ) (more : List ℕ) (flags : OpFlags)
      → off < 2 ^ 31
      → len < 2 ^ 31
      → off2 < 2 ^ 31
      → call_of (record { operation = op; args = off ∷ len ∷ off2 ∷ more; flags = flags })
        ≡ record { op = op; offset = off; size = len; offset2 = off2; keep = flags.keeps_size }
  unfolding call_of arg extended
  call_of_lem op off len off2 more flags a b d =
      rw (lt→ltb off (2 ^ 31) a, lt→ltb len (2 ^ 31) b, lt→ltb off2 (2 ^ 31) d) refl

  -- From the saved line of what `log5` logs of an operation with four arguments that is not
  -- skipped, a replay takes the call with that operation, offset, length, destination and
  -- `keep_size`, and the close and open that was due, if `strtoul` inverts the printing of numbers,
  -- the three numbers are below 2 ^ 31, and the size of the file is below 2 ^ 32.
  pub next_op-log5 :
      {S : Type 0} (op : Op) (off len off2 : ℕ) (flags : OpFlags) (s : Fsx S) (overlap : Bool)
      (rest : List (List String)) (fuel : ℕ) (b : Rerun S)
      → op_args_count op ≡ 4
      → off < 2 ^ 31
      → len < 2 ^ 31
      → off2 < 2 ^ 31
      → s.file_size < 2 ^ 32
      → flags.skipped ≡ false
      → b.rest ≡ ops_line hex ((log5 op off len off2 flags s).oplog s.logptr) overlap ∷ rest
      → next_op strtoul (suc fuel) b
        ≡ ok (record b {
          rest = rest;
          taken = some (record {
            op = op;
            offset = off;
            size = len;
            offset2 = off2;
            keep = flags.keeps_size;
          });
          fsx = record b.fsx { closeopen = flags.close_open || s.closeopen };
        })
  unfolding log5 log_entry
  next_op-log5 op off len off2 flags s overlap rest fuel b n h1 h2 h3 h4 f l =
      next_op-ops_line e overlap rest fuel b recorded f (rw (==-refl s.logptr) at l)
      ∙ rw (call_of_lem op off len off2 (s.file_size ∷ []) e.flags h1 h2 h3) refl
    where
      e : LogEntry
      e = record {
        operation = op;
        args = off ∷ len ∷ off2 ∷ s.file_size ∷ [];
        flags = record flags { close_open = flags.close_open || s.closeopen };
      }

      recorded : IsRecorded e
      recorded = record {
        counted = sym n;
        small = (omega arith, (omega arith, (omega arith, (h4, tt))));
      }

  -- From the saved line of what `log4` logs of an operation with three arguments that is not
  -- skipped, a replay takes the call with that operation, offset, length and `keep_size`, the size
  -- of the file in place of a destination, and the close and open that was due, if `strtoul`
  -- inverts the printing of numbers, and the two numbers and the size of the file are below 2 ^ 31.
  pub next_op-log4 :
      {S : Type 0} (op : Op) (off len : ℕ) (flags : OpFlags) (s : Fsx S) (overlap : Bool)
      (rest : List (List String)) (fuel : ℕ) (b : Rerun S)
      → op_args_count op ≡ 3
      → off < 2 ^ 31
      → len < 2 ^ 31
      → s.file_size < 2 ^ 31
      → flags.skipped ≡ false
      → b.rest ≡ ops_line hex ((log4 op off len flags s).oplog s.logptr) overlap ∷ rest
      → next_op strtoul (suc fuel) b
        ≡ ok (record b {
          rest = rest;
          taken = some (record {
            op = op;
            offset = off;
            size = len;
            offset2 = s.file_size;
            keep = flags.keeps_size;
          });
          fsx = record b.fsx { closeopen = flags.close_open || s.closeopen };
        })
  unfolding log4 log_entry
  next_op-log4 op off len flags s overlap rest fuel b n h1 h2 h3 f l =
      next_op-ops_line e overlap rest fuel b recorded f (rw (==-refl s.logptr) at l)
      ∙ rw (call_of_lem op off len s.file_size [] e.flags h1 h2 h3) refl
    where
      e : LogEntry
      e = record {
        operation = op;
        args = off ∷ len ∷ s.file_size ∷ [];
        flags = record flags { close_open = flags.close_open || s.closeopen };
      }

      recorded : IsRecorded e
      recorded = record { counted = sym n; small = (omega arith, (omega arith, (omega arith, tt))) }

  -- In place of the fourth argument there is the word of a flag, or none.
  no_fourth :
      (c overlap : Bool)
      → strtoul "close_open" ≡ none
      → strtoul "*" ≡ none
      → read_args strtoul 1 (flag_words hex (record fl_skipped { close_open = c }) overlap) ≡ none
  unfolding read_args flag_words
  no_fourth true overlap close_word star = rw close_word refl
  no_fourth false true close_word star = rw star refl
  no_fourth false false close_word star = refl

  -- The entry that `log4` makes of a skipped operation with four arguments is saved as a line that
  -- `read_op` refuses, with or without the mark of an overlap, if `strtoul` inverts the printing of
  -- numbers and refuses `close_open` and `*`.
  pub read_op-log4 :
      {S : Type 0} (op : Op) (a b : ℕ) (s : Fsx S) (overlap : Bool) (rest : List (List String))
      → op_args_count op ≡ 4
      → strtoul "close_open" ≡ none
      → strtoul "*" ≡ none
      → read_op strtoul (ops_line hex ((log4 op a b fl_skipped s).oplog s.logptr) overlap ∷ rest)
        ≡ parse_error
  unfolding log4 log_entry ops_line op_words read_op read_entry is_passed as_read read_words
      read_args
  read_op-log4 op a b s overlap rest h close_word star =
      rw
        (
          ==-refl s.logptr,
          op_code-op_name op,
          h,
          inverse (u32 a) (omega arith),
          inverse (u32 b) (omega arith),
          inverse (u32 s.file_size) (omega arith),
          no_fourth s.closeopen overlap close_word star,
        )
        refl
