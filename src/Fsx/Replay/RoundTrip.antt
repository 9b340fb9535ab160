-- ===== src/Fsx/Replay/RoundTrip.antt =====
-- What `logdump` saves, `read_op` reads back.
use Prim.Native.String.{String}
use text.Mathlib.Text.{◌==◌ as ◌===◌, starts_with}
use longan_chkout.Base.{
  ℕ, suc, ◌^◌, ◌<◌, ◌≡◌, refl, ◌∙◌, ap, subst, Bool, true, false, List, [], ◌∷◌, ◌++◌, map, Option,
  some, arith, if◌then◌else◌, u32,
}
use longan_chkout.Base.Maybe.{◌>>=◌}
use longan_chkout.Fsx.State.{
  Op, op_read, op_write, op_mapread, op_mapwrite, op_truncate, op_fallocate, op_punch_hole,
  op_zero_range, op_collapse_range, op_insert_range, op_clone_range, op_dedupe_range, op_copy_range,
  op_fsync, fl_none, LogEntry,
}
use longan_chkout.Fsx.Replay.{
  op_name, op_search, op_code, op_args_count, flag_words, op_words, ops_line, entry, read_flags,
  read_args, read_words, read_entry, is_passed, as_read, read_op,
}

abbrev pub length : List ℕ → ℕ
length [] = 0
length (a ∷ as1) = suc (length as1)

-- Arguments that fit an `int`, as its bits.
abbrev pub AllSmall : List ℕ → Type 0
AllSmall [] = Unit {0}
AllSmall (a ∷ as1) = (a < 2 ^ 32) × AllSmall as1

-- An entry with the arguments of its operation.
pub record IsRecorded (e : LogEntry) : Type 0 where
  pub counted : length e.args ≡ op_args_count e.operation
  pub small : AllSmall e.args

pub op_code-op_name : (op : Op) → op_code (op_name op) ≡ some op
unfolding op_code op_search op_name
op_code-op_name op_read = refl
op_code-op_name op_write = refl
op_code-op_name op_mapread = refl
op_code-op_name op_mapwrite = refl
op_code-op_name op_truncate = refl
op_code-op_name op_fallocate = refl
op_code-op_name op_punch_hole = refl
op_code-op_name op_zero_range = refl
op_code-op_name op_collapse_range = refl
op_code-op_name op_insert_range = refl
op_code-op_name op_clone_range = refl
op_code-op_name op_dedupe_range = refl
op_code-op_name op_copy_range = refl
op_code-op_name op_fsync = refl

-- No name of an operation is `skip`, and none starts a comment.
plain_name : (op : Op) → ((op_name op === "skip") ≡ false) × (starts_with (op_name op) "#" ≡ false)
unfolding op_name
plain_name op_read = (refl, refl)
plain_name op_write = (refl, refl)
plain_name op_mapread = (refl, refl)
plain_name op_mapwrite = (refl, refl)
plain_name op_truncate = (refl, refl)
plain_name op_fallocate = (refl, refl)
plain_name op_punch_hole = (refl, refl)
plain_name op_zero_range = (refl, refl)
plain_name op_collapse_range = (refl, refl)
plain_name op_insert_range = (refl, refl)
plain_name op_clone_range = (refl, refl)
plain_name op_dedupe_range = (refl, refl)
plain_name op_copy_range = (refl, refl)
plain_name op_fsync = (refl, refl)

module _ (hex : ℕ → String) (strtoul : String → Option ℕ)
    (inverse : (n : ℕ) → n < 2 ^ 32 → strtoul (hex n) ≡ some n) where
  read_flags-flag_words :
      (s k c overlap : Bool)
      → read_flags strtoul
          (record fl_none { skipped = s })
          (flag_words hex (record { skipped = s; close_open = c; keeps_size = k }) overlap)
        ≡ some (record { skipped = s; close_open = c; keeps_size = k })
  unfolding read_flags flag_words
  read_flags-flag_words s true true true = refl
  read_flags-flag_words s true true false = refl
  read_flags-flag_words s true false true = refl
  read_flags-flag_words s true false false = refl
  read_flags-flag_words s false true true = refl
  read_flags-flag_words s false true false = refl
  read_flags-flag_words s false false true = refl
  read_flags-flag_words s false false false = refl

  read_args-map :
      (args : List ℕ) (rest : List String)
      → AllSmall args
      → read_args strtoul (length args) (map (λ a. hex (u32 a)) args ++ rest) ≡ some (args, rest)
  unfolding read_args
  read_args-map [] rest h = refl
  read_args-map (a ∷ as1) rest h =
      rw (inverse (u32 a) (omega arith), read_args-map as1 rest h.1)
        (ap (λ (x : ℕ). some (x ∷ as1, rest)) same)
    where
      same : u32 (u32 a) ≡ a
      same = omega (arith, h.0)

  read_words-op_words :
      (e : LogEntry) (overlap : Bool)
      → IsRecorded e
      → read_words strtoul e.flags.skipped e.operation
          (map (λ a. hex (u32 a)) e.args ++ flag_words hex e.flags overlap)
        ≡ some e
  unfolding read_words
  read_words-op_words e overlap r =
      rw
        (
          counted_back,
          read_args-map e.args (flag_words hex e.flags overlap) r.small,
          read_flags-flag_words e.flags.skipped e.flags.keeps_size e.flags.close_open overlap,
        )
        refl
    where
      counted_back : op_args_count e.operation ≡ length e.args
      counted_back = cc (r.counted)

  shifted :
      {skipped : Bool} (e : LogEntry) (overlap : Bool)
      → e.flags.skipped ≡ skipped
      → IsRecorded e
      → read_words strtoul skipped e.operation
          (map (λ a. hex (u32 a)) e.args ++ flag_words hex e.flags overlap)
        ≡ some e
  shifted e overlap h r =
      subst
        (λ b.
          read_words strtoul b e.operation
            (map (λ a. hex (u32 a)) e.args ++ flag_words hex e.flags overlap)
          ≡ some e)
        h (read_words-op_words e overlap r)

  read_entry-plain :
      (w : String) (ws : List String)
      → (w === "skip") ≡ false
      → read_entry strtoul (w ∷ ws) ≡ (op_code w >>= λ op. read_words strtoul false op ws)
  unfolding read_entry
  read_entry-plain w [] h = rw h refl
  read_entry-plain w (v ∷ ws) h = rw h refl

  read_entry-ops_line :
      (skipped : Bool) (e : LogEntry) (overlap : Bool)
      → e.flags.skipped ≡ skipped
      → IsRecorded e
      → read_entry strtoul
          (if skipped then "skip" ∷ op_words hex e overlap else op_words hex e overlap)
        ≡ some e
  unfolding op_words
  read_entry-ops_line false e overlap h r =
      read_entry-plain (op_name e.operation) _ (plain_name e.operation).0
      ∙ rw (op_code-op_name e.operation) (shifted e overlap h r)
  read_entry-ops_line true e overlap h r =
      unfold read_entry in (rw (op_code-op_name e.operation) (shifted e overlap h r))

  passed_not :
      (skipped : Bool) (e : LogEntry) (overlap : Bool)
      → is_passed strtoul
          (if skipped then "skip" ∷ op_words hex e overlap else op_words hex e overlap)
        ≡ false
  unfolding is_passed op_words
  passed_not true e overlap = refl
  passed_not false e overlap = (plain_name e.operation).1

  -- The line that `logdump` saves for an entry with the arguments of its operation, each below 2 ^
  -- 32, is read back by `read_op` as that entry, flags included, if `strtoul` inverts the printing
  -- of numbers.
  pub read_op-ops_line :
      (e : LogEntry) (overlap : Bool) (rest : List (List String))
      → IsRecorded e
      → read_op strtoul (ops_line hex e overlap ∷ rest) ≡ entry e rest
  unfolding read_op ops_line as_read
  read_op-ops_line e overlap rest r =
      rw
        (passed_not e.flags.skipped e overlap, read_entry-ops_line e.flags.skipped e overlap refl r)
        refl
