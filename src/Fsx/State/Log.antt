-- ===== src/Fsx/State/Log.antt =====
-- The ring of the last operations of fsx.c.
use longan_chkout.Base.{ℕ, ◌<◌, ◌+◌, ◌≡◌, ◌≢◌, refl, List, arith, ◌||◌}
use longan_chkout.Fsx.State.{Op, OpFlags, Fsx, log_size, log_entry, log4, log5}

module _ {S : Type 0} where
  pub file_size-log4 :
      (op : Op) (a b : ℕ) (f : OpFlags) (s : Fsx S) → (log4 op a b f s).file_size ≡ s.file_size
  unfolding log4
  file_size-log4 op a b f s = refl

  pub file_size-log5 :
      (op : Op) (a b d : ℕ) (f : OpFlags) (s : Fsx S) → (log5 op a b d f s).file_size ≡ s.file_size
  unfolding log5
  file_size-log5 op a b d f s = refl

  -- From a position inside the ring, an operation is logged at that position with its arguments and
  -- with the flag of the coming close and open, the next position is inside the ring, and the count
  -- goes up by one.
  pub log_entry_lem :
      (op : Op) (args : List ℕ) (f : OpFlags) (s : Fsx S)
      → s.logptr < log_size
      → let t = log_entry op args f s in
        ((t.oplog s.logptr).operation ≡ op)
        × ((t.oplog s.logptr).args ≡ args)
        × ((t.oplog s.logptr).flags.close_open ≡ (f.close_open || s.closeopen))
        × (t.logptr < log_size)
        × (t.logcount ≡ s.logcount + 1)
  unfolding log_entry
  log_entry_lem op args f s h = (ground arith, ground arith, ground arith, ground arith, refl)

  -- Logging an operation keeps every entry but the one at the position.
  pub log_entry_keeps :
      (op : Op) (args : List ℕ) (f : OpFlags) (s : Fsx S) (i : ℕ)
      → i ≢ s.logptr
      → (log_entry op args f s).oplog i ≡ s.oplog i
  unfolding log_entry
  log_entry_keeps op args f s i h = ground arith
