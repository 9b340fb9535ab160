-- ===== src/Fsx/Rerun.antt =====
-- fsx.c: `test` and the loop of `main` with a file of operations to replay.
pub mod Recorded
use Prim.Native.String.{String}
use longan_chkout.Base.{
  ℕ, zero, suc, ◌+◌, ◌-◌, ◌^◌, Bool, true, false, not, List, [], ◌∷◌, Option, none, some, Outcome,
  ok, failed, out_of_fuel, ◌>>=◌, ltb, if◌then◌else◌,
}
use longan_chkout.Fsx.Kernel.{Kernel}
use longan_chkout.Fsx.State.{LogEntry, Config, Fsx, log4}
use longan_chkout.Fsx.Choose.{Call}
use longan_chkout.Fsx.Step.{begin, run_call}
use longan_chkout.Fsx.Replay.{Read, entry, ended, parse_error, read_op}

-- The lines that are left, and the operation that was taken from them, if there was one.
pub record Rerun (S : Type 0) : Type 0 where
  pub rest : List (List String)
  pub taken : Option Call
  pub fsx : Fsx S

-- An `int`, given by its 32 bits, as an `unsigned long`.
unfoldable pub extended : ℕ → ℕ
extended a = if ltb a (2 ^ 31) then a else a + 2 ^ 64 - 2 ^ 32

-- `args[i]`, which `read_op` has set to 0 where it reads none.
unfoldable pub arg : ℕ → List ℕ → ℕ
arg i [] = 0
arg zero (a ∷ as1) = a
arg (suc i) (a ∷ as1) = arg i as1

unfoldable pub call_of : LogEntry → Call
unfolding arg extended
call_of e = record {
  op = e.operation;
  offset = extended (arg 0 e.args);
  size = extended (arg 1 e.args);
  offset2 = extended (arg 2 e.args);
  keep = e.flags.keeps_size;
}

-- An entry of the file: a skipped operation is only logged, by `log4` whatever it is, and `next`
-- goes on; another one is taken.
unfoldable pub take_entry :
    {S : Type 0} → (Rerun S → Outcome (Rerun S)) → Bool → LogEntry → Rerun S → Outcome (Rerun S)
unfolding call_of arg
take_entry next true e b =
    next (record b { fsx = log4 e.operation (arg 0 e.args) (arg 1 e.args) e.flags b.fsx })
take_entry next false e b =
    ok
      (record b { taken = some (call_of e); fsx = record b.fsx { closeopen = e.flags.close_open } })

unfoldable pub take_read :
    {S : Type 0} → (Rerun S → Outcome (Rerun S)) → Read → Rerun S → Outcome (Rerun S)
unfolding take_entry
take_read next ended b = ok (record b { rest = []; taken = none })
take_read next parse_error b = failed 100 b
take_read next (entry e rest) b = take_entry next e.flags.skipped e (record b { rest = rest })

-- `while (read_op(&log_entry))`; each round takes a line at least.
unfoldable pub next_op : {S : Type 0} → (String → Option ℕ) → ℕ → Rerun S → Outcome (Rerun S)
unfolding take_read
next_op strtoul zero b = out_of_fuel
next_op strtoul (suc fuel) b = take_read (next_op strtoul fuel) (read_op strtoul b.rest) b

-- A part of `test` on the state of the run.
unfoldable pub on_fsx : {S : Type 0} → Outcome (Fsx S) → Rerun S → Outcome (Rerun S)
on_fsx (ok s) b = ok (record b { fsx = s })
on_fsx (failed code s) b = failed code (record b { fsx = s })
on_fsx out_of_fuel b = out_of_fuel

abbrev pub lines : List (List String) → ℕ
lines [] = 0
lines (l ∷ ls) = suc (lines ls)

module _ (k : Kernel) (c : Config) (strtoul : String → Option ℕ) where
  unfoldable pub run_taken : Option Call → Rerun k.State → Outcome (Rerun k.State)
  unfolding on_fsx
  run_taken none b = ok b
  run_taken (some call) b = on_fsx (run_call k c call b.fsx) b

  unfoldable pub replay_test : Rerun k.State → Outcome (Rerun k.State)
  unfolding on_fsx next_op run_taken
  replay_test b = do
    b1 ← on_fsx (begin k c b.fsx) b
    b2 ← next_op strtoul (lines b1.rest + 1) b1
    run_taken b2.taken b2

  unfoldable pub is_taken : Option Call → Bool
  is_taken none = false
  is_taken (some call) = true

  -- `test` returns 0 at the end of the file, which ends the loop of `main`.
  unfoldable pub replay_run : ℕ → Rerun k.State → Outcome (Rerun k.State)
  unfolding replay_test is_taken
  replay_run zero b = ok b
  replay_run (suc n) b = replay_test b >>= λ b1.
      let rest = replay_run n b1 in if is_taken b1.taken then rest else ok b1
