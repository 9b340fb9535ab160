-- ===== src/Fsx/Choose.antt =====
-- fsx.c: how `test` draws an operation and its arguments.
pub mod Destination
pub mod Fit
pub mod Drawn
use longan_chkout.Base.{
  ℕ, zero, suc, ◌+◌, ◌-◌, ◌%◌, ◌/◌, ◌^◌, Bool, true, false, ◌&&◌, ◌||◌, not, Option, none, some,
  ltb, ◌==◌, if◌then◌else◌, add64, sub64, align_down,
}
use longan_chkout.Fsx.State.{
  Op, op_read, op_write, op_mapread, op_mapwrite, op_truncate, op_fallocate, op_punch_hole,
  op_zero_range, op_collapse_range, op_insert_range, op_clone_range, op_dedupe_range, op_copy_range,
  op_fsync, Config,
}
use longan_chkout.Fsx.Transfer.{trim_direct}

-- The local variables of `test` at `have_op`.
pub record Call : Type 0 where
  pub op : Op
  pub offset : ℕ
  pub size : ℕ
  pub offset2 : ℕ
  pub keep : Bool

-- The enum's numbers.
unfoldable pub op_of : ℕ → Op
op_of n =
    if n == 0
    then op_read
    else if n == 1
    then op_write
    else if n == 2
    then op_mapread
    else if n == 3
    then op_mapwrite
    else if n == 4
    then op_truncate
    else if n == 5
    then op_fallocate
    else if n == 6
    then op_punch_hole
    else if n == 7
    then op_zero_range
    else if n == 8
    then op_collapse_range
    else if n == 9
    then op_insert_range
    else if n == 10
    then op_clone_range
    else if n == 11
    then op_dedupe_range
    else if n == 12
    then op_copy_range
    else op_fsync

-- `OP_MAX_LITE`, `OP_MAX_FULL` and `OP_MAX_INTEGRITY`
unfoldable pub op_max : Config → ℕ
op_max c = if c.lite then 4 else if not c.integrity then 13 else 14

unfoldable pub trim_off : ℕ → ℕ → ℕ
trim_off off size = if size == 0 then 0 else off % size

unfoldable pub trim_len : ℕ → ℕ → ℕ → ℕ
trim_len off len size = if ltb size (add64 off len) then sub64 size off else len

-- `llabs(a - b)`
unfoldable pub distance : ℕ → ℕ → ℕ
distance a b = (a - b) + (b - a)

-- The condition under which a destination is drawn again.
unfoldable pub clashes : ℕ → ℕ → ℕ → ℕ → Bool
unfolding distance
clashes offset size limit offset2 =
    ltb (distance offset2 offset) size || ltb limit (add64 offset2 size)

-- One draw of a destination below `limit`, on a multiple of `bdy`.
unfoldable pub draw_dest : Config → ℕ → ℕ → ℕ → ℕ
unfolding trim_off
draw_dest c bdy limit draws = align_down (trim_off (c.random draws) limit) bdy

-- The `do ... while` of clone and copy: the destination, and the draws made so far; `none` if the
-- fuel is used up.
unfoldable pub pick_dest : Config → ℕ → ℕ → ℕ → ℕ → ℕ → ℕ → Option (ℕ × ℕ)
unfolding clashes draw_dest
pick_dest c bdy limit offset size zero draws = none
pick_dest c bdy limit offset size (suc fuel) draws =
    let rest = pick_dest c bdy limit offset size fuel (draws + 1) in
    let dest = draw_dest c bdy limit draws in
    if clashes offset size limit dest then rest else some (dest, draws + 1)

-- The `do ... while` of dedupe, with the tries left: destination, size and draws. The last
-- destination is kept when the tries are used up, with the size 0.
unfoldable pub pick_dedupe : Config → ℕ → ℕ → ℕ → ℕ → ℕ → ℕ → ℕ × ℕ × ℕ
unfolding clashes draw_dest
pick_dedupe c limit offset size zero last draws = (last, 0, draws)
pick_dedupe c limit offset size (suc tries) last draws =
    let dest = draw_dest c c.block_size limit draws in
    let rest = pick_dedupe c limit offset size tries dest (draws + 1) in
    if clashes offset size limit dest then rest else (dest, size, draws + 1)

abbrev pub dedupe_tries : ℕ
dedupe_tries = 30

-- The call with the destination that was found.
unfoldable pub with_dest : Op → ℕ → ℕ → Option (ℕ × ℕ) → Option (Call × ℕ)
with_dest op offset size none = none
with_dest op offset size (some (dest, d)) =
    some (record { op = op; offset = offset; size = size; offset2 = dest; keep = false }, d)

-- The switch before `have_op`, on the operation, its offset and size, and the draws made.
unfoldable pub draw_args : Config → ℕ → ℕ → Op → ℕ → ℕ → ℕ → Option (Call × ℕ)
unfolding trim_off trim_len trim_direct with_dest
draw_args c fuel file_size op_truncate off len d =
    if c.style
    then some (record { op = op_truncate; offset = off; size = len; offset2 = 0; keep = false }, d)
    else some (
      record {
        op = op_truncate;
        offset = off;
        size = c.random d % c.maxfilelen;
        offset2 = 0;
        keep = false;
      },
      d + 1,
    )
draw_args c fuel file_size op_fallocate off len d =
    if c.fallocate_calls && not (len == 0) && c.keep_size_calls
    then some (
      record {
        op = op_fallocate;
        offset = off;
        size = len;
        offset2 = 0;
        keep = c.random d % 2 == 1;
      },
      d + 1,
    )
    else some (record { op = op_fallocate; offset = off; size = len; offset2 = 0; keep = false }, d)
draw_args c fuel file_size op_zero_range off len d =
    if c.zero_range_calls && not (len == 0) && c.keep_size_calls
    then some (
      record {
        op = op_zero_range;
        offset = off;
        size = len;
        offset2 = 0;
        keep = c.random d % 2 == 1;
      },
      d + 1,
    )
    else some
        (record { op = op_zero_range; offset = off; size = len; offset2 = 0; keep = false }, d)
draw_args c fuel file_size op_clone_range off len d =
    let trimmed = trim_off off file_size in
    let offset = align_down trimmed c.block_size in
    let size = align_down (trim_len trimmed len file_size) c.block_size in
    with_dest op_clone_range offset size (pick_dest c c.block_size c.maxfilelen offset size fuel d)
draw_args c fuel file_size op_dedupe_range off len d =
    let trimmed = trim_off off file_size in
    let offset = align_down trimmed c.block_size in
    let size = align_down (trim_len trimmed len file_size) c.block_size in
    let picked = pick_dedupe c file_size offset size dedupe_tries 0 d in
    some (
      record {
        op = op_dedupe_range;
        offset = offset;
        size = picked.1;
        offset2 = picked.0;
        keep = false;
      },
      picked.2,
    )
draw_args c fuel file_size op_copy_range off len d =
    let trimmed = trim_off off file_size in
    let offset = trimmed - trimmed % c.readbdy in
    let size = trim_direct c.o_direct c.readbdy (trim_len trimmed len file_size) in
    with_dest op_copy_range offset size (pick_dest c c.writebdy c.maxfilelen offset size fuel d)
draw_args c fuel file_size op off len d =
    some (record { op = op; offset = off; size = len; offset2 = 0; keep = false }, d)

unfoldable pub with_close : Bool → Option (Call × ℕ) → Option (Call × ℕ × Bool)
with_close close none = none
with_close close (some (call, d)) = some (call, d, close)

-- `test` from its first `random` to `have_op`: the call, the draws made, and `closeopen`.
unfoldable pub choose : Config → ℕ → ℕ → Bool → ℕ → Option (Call × ℕ × Bool)
unfolding with_close
choose c fuel file_size closeopen draws =
    let rv = c.random draws in
    let close = if c.closeprob == 0 then closeopen else ltb (rv / 2 ^ 3) (2 ^ 28 / c.closeprob) in
    let offset = c.random (draws + 1) in
    let size = if c.randomoplen then c.random (draws + 2) % (c.maxoplen + 1) else c.maxoplen in
    let made = if c.randomoplen then draws + 3 else draws + 2 in
    with_close close (draw_args c fuel file_size (op_of (rv % op_max c)) offset size made)
