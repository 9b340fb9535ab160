-- ===== src/Fsx/Replay.antt =====
-- fsx.c: the file of operations that `logdump` saves, and the reading of it for a replay. A line
-- is the list of its words; `fprintf` and `strtoul` are parameters.
pub mod RoundTrip
pub mod Ring
use Prim.Native.String.{String}
use text.Mathlib.Text.{◌==◌ as ◌===◌, starts_with}
use longan_chkout.Base.{
  ℕ, zero, suc, ◌+◌, ◌-◌, ◌*◌, ◌/◌, ◌%◌, ◌^◌, Bool, true, false, ◌||◌, List, [], ◌∷◌, ◌++◌, map,
  Option, none, some, ltb, ◌==◌, if◌then◌else◌, u32,
}
use longan_chkout.Fsx.State.{
  Op, op_read, op_write, op_mapread, op_mapwrite, op_truncate, op_fallocate, op_punch_hole,
  op_zero_range, op_collapse_range, op_insert_range, op_clone_range, op_dedupe_range, op_copy_range,
  op_fsync, OpFlags, fl_none, LogEntry, log_size, Fsx,
}
use longan_chkout.Base.Maybe.{◌>>=◌}

unfoldable pub op_name : Op → String
op_name op_read = "read"
op_name op_write = "write"
op_name op_mapread = "mapread"
op_name op_mapwrite = "mapwrite"
op_name op_truncate = "truncate"
op_name op_fallocate = "fallocate"
op_name op_punch_hole = "punch_hole"
op_name op_zero_range = "zero_range"
op_name op_collapse_range = "collapse_range"
op_name op_insert_range = "insert_range"
op_name op_clone_range = "clone_range"
op_name op_dedupe_range = "dedupe_range"
op_name op_copy_range = "copy_range"
op_name op_fsync = "fsync"

-- The table `op_names` in its order.
abbrev pub op_names : List Op
op_names =
    op_read ∷ op_write ∷ op_mapread ∷ op_mapwrite ∷ op_truncate ∷ op_fallocate ∷ op_punch_hole
    ∷ op_zero_range ∷ op_collapse_range ∷ op_insert_range ∷ op_clone_range ∷ op_dedupe_range
    ∷ op_copy_range ∷ op_fsync ∷ []

-- The first operation of a table with the name.
unfoldable pub op_search : String → List Op → Option Op
unfolding op_name
op_search name [] = none
op_search name (op ∷ ops) = if name === (op_name op) then some op else op_search name ops

unfoldable pub op_code : String → Option Op
unfolding op_search
op_code name = op_search name op_names

unfoldable pub op_args_count : Op → ℕ
op_args_count op_clone_range = 4
op_args_count op_dedupe_range = 4
op_args_count op_copy_range = 4
op_args_count op = 3

-- The entries that `logdump` goes through: `count` of them from index `i` on, round the ring.
unfoldable pub dump_from : (ℕ → LogEntry) → ℕ → ℕ → List LogEntry
dump_from oplog i zero = []
dump_from oplog i (suc count) =
    oplog i ∷ dump_from oplog (if i + 1 == log_size then 0 else i + 1) count

unfoldable pub dump : {S : Type 0} → Fsx S → List LogEntry
unfolding dump_from
dump s =
    if ltb s.logcount log_size
    then dump_from s.oplog 0 s.logcount
    else dump_from s.oplog s.logptr log_size

-- The number that `logdump` prints for the entry at index `i`.
unfoldable pub opnum : {S : Type 0} → Fsx S → ℕ → ℕ
opnum s i = i + 1 + s.logcount / log_size * log_size

-- `hex` is the word that `0x%x` prints.
module _ (hex : ℕ → String) where
  -- The words of the flags of an entry, with the mark of an overlap with `badoff`.
  unfoldable pub flag_words : OpFlags → Bool → List String
  flag_words flags overlap =
      (if flags.keeps_size then "keep_size" ∷ [] else [])
      ++ ((if flags.close_open then "close_open" ∷ [] else [])
          ++ (if overlap then "*" ∷ [] else []))

  unfoldable pub op_words : LogEntry → Bool → List String
  unfolding flag_words op_name
  op_words e overlap =
      op_name e.operation ∷ (map (λ a. hex (u32 a)) e.args ++ flag_words e.flags overlap)

  -- The line that `logdump` saves for an entry.
  unfoldable pub ops_line : LogEntry → Bool → List String
  unfolding op_words
  ops_line e overlap = if e.flags.skipped then "skip" ∷ op_words e overlap else op_words e overlap

-- `read_op`: an entry and the lines behind it, the end of the file, or `cleanup(100)`.
pub data Read : Type 0 where
  entry : LogEntry → List (List String) → Read
  ended : Read
  parse_error : Read

-- `strtoul` gives the number, and `none` where it leaves something of the word.
module _ (strtoul : String → Option ℕ) where
  -- The words behind the arguments.
  unfoldable pub read_flags : OpFlags → List String → Option OpFlags
  read_flags flags [] = some flags
  read_flags flags (w ∷ ws) =
      if w === "keep_size"
      then read_flags (record flags { keeps_size = true }) ws
      else (if w === "close_open"
          then read_flags (record flags { close_open = true }) ws
          else (if w === "*" then read_flags flags ws else none))

  -- `n` arguments, each in an `int`, and the words left.
  unfoldable pub read_args : ℕ → List String → Option (List ℕ × List String)
  read_args zero ws = some ([], ws)
  read_args (suc n) [] = none
  read_args (suc n) (w ∷ ws) = do
    a ← strtoul w
    (as1, rest) ← read_args n ws
    some (u32 a ∷ as1, rest)

  unfoldable pub read_words : Bool → Op → List String → Option LogEntry
  unfolding read_args read_flags
  read_words skipped op ws = do
    (args, rest) ← read_args (op_args_count op) ws
    flags ← read_flags (record fl_none { skipped = skipped }) rest
    some (record { operation = op; args = args; flags = flags })

  -- The line behind `skip`, if the word is there.
  unfoldable pub read_entry : List String → Option LogEntry
  unfolding read_words op_code
  read_entry [] = none
  read_entry (w ∷ []) = if w === "skip" then none else (do op ← op_code w; read_words false op [])
  read_entry (w ∷ (v ∷ ws)) =
      if w === "skip"
      then (do op ← op_code v; read_words true op ws)
      else (do op ← op_code w; read_words false op (v ∷ ws))

  -- Lines with no word, and comments, are passed over.
  unfoldable pub is_passed : List String → Bool
  is_passed [] = true
  is_passed (w ∷ ws) = starts_with w "#"

  unfoldable pub as_read : Option LogEntry → List (List String) → Read
  as_read none rest = parse_error
  as_read (some e) rest = entry e rest

  unfoldable pub read_op : List (List String) → Read
  unfolding read_entry is_passed as_read
  read_op [] = ended
  read_op (line ∷ rest) = if is_passed line then read_op rest else as_read (read_entry line) rest
