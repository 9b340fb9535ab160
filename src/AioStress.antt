-- ===== src/AioStress.antt =====
-- aio-stress.c: an operation on a file, the offsets of its ios, and its stages.
pub mod Offsets
pub mod Ring
pub mod Active
pub mod Pool
pub mod Stages
mod Tests
use longan_chkout.Base.{
  ℕ, zero, suc, ◌+◌, ◌-◌, ◌*◌, ◌/◌, ◌%◌, ◌^◌, Bool, true, false, ◌&&◌, not, List, [], ◌∷◌, Option,
  none, some, ltb, ◌==◌, if◌then◌else◌,
}

-- The values of `rw`, which are the stages too.
pub data Stage : Type 0 where
  write : Stage
  read : Stage
  rwrite : Stage
  rread : Stage

-- `struct io_oper`, without the file, the links and the time.
pub record IoOper : Type 0 where
  pub start : ℕ
  pub end : ℕ
  pub reclen : ℕ
  pub depth : ℕ
  pub num_pending : ℕ
  pub last_err : ℕ
  pub num_err : ℕ
  pub rw : Stage
  pub total_ios : ℕ
  pub started_ios : ℕ
  pub last_offset : ℕ
  pub stonewalled : Bool

unfoldable pub create_oper : Stage → ℕ → ℕ → ℕ → ℕ → IoOper
create_oper rw start end reclen depth = record {
  start = start;
  end = end;
  reclen = reclen;
  depth = depth;
  num_pending = 0;
  last_err = 0;
  num_err = 0;
  rw = rw;
  total_ios = (end - start) / reclen;
  started_ios = 0;
  last_offset = start;
  stonewalled = false;
}

abbrev pub megabyte : ℕ
megabyte = 1048576

-- `1 + (int)((double)range * rand() / (RAND_MAX + 1.0))`
unfoldable pub scaled_rand : ℕ → ℕ → ℕ
scaled_rand range r = 1 + range * r / 2 ^ 31

-- `range` of `random_byte_offset`: the megabytes but those of a page, one at least.
unfoldable pub megabyte_range : ℕ → IoOper → ℕ
megabyte_range page oper =
    (oper.end - oper.start) / megabyte - (if ltb megabyte page then page / megabyte else 1)

-- `page` is `page_size_mask + 1`, and `r` and `r1` are what `rand` gives.
unfoldable pub random_byte_offset : ℕ → ℕ → ℕ → IoOper → ℕ
unfolding scaled_rand megabyte_range
random_byte_offset page r r1 oper =
    let num = scaled_rand megabyte r1 + page - 1 in
    let rand_byte =
      oper.start + scaled_rand (megabyte_range page oper) r * megabyte + (num - num % page) in
    if ltb oper.end (rand_byte + oper.reclen) then rand_byte - oper.reclen else rand_byte

-- The offset that `build_iocb` gives an io, and the operation behind it.
unfoldable pub build_iocb : ℕ → ℕ → ℕ → IoOper → ℕ × IoOper
unfolding random_byte_offset
build_iocb page r r1 oper =
    let random = random_byte_offset page r r1 oper in
    let next : ℕ × IoOper =
      (oper.last_offset, record oper { last_offset = oper.last_offset + oper.reclen }) in
    let drawn : ℕ × IoOper = (random, record oper { last_offset = random }) in
    elim oper.rw [ write ↦ next | read ↦ next | rwrite ↦ drawn | rread ↦ drawn ]

-- The loop of `build_oper`; `rand` is the stream from the draw with number `i` on.
unfoldable pub build_ios : ℕ → (ℕ → ℕ) → ℕ → ℕ → IoOper → List ℕ × IoOper
unfolding build_iocb
build_ios page rand i zero oper = ([], oper)
build_ios page rand i (suc n) oper =
    let io = build_iocb page (rand i) (rand (i + 1)) oper in
    let rest = build_ios page rand (i + 2) n io.1 in (io.0 ∷ rest.0, rest.1)

-- `num_ios`, within the ios that are left.
unfoldable pub clipped : ℕ → IoOper → ℕ
clipped num_ios oper =
    let n = if num_ios == 0 then oper.total_ios else num_ios in
    if ltb oper.total_ios (oper.started_ios + n) then oper.total_ios - oper.started_ios else n

unfoldable pub build_oper : ℕ → (ℕ → ℕ) → ℕ → ℕ → IoOper → List ℕ × IoOper
unfolding build_ios clipped
build_oper page rand i num_ios oper = build_ios page rand i (clipped num_ios oper) oper

-- What the submission of `nr` ios of one operation makes of it.
unfoldable pub update_iou_counters : ℕ → IoOper → IoOper
update_iou_counters nr oper = record oper {
  num_pending = oper.num_pending + nr;
  started_ios = oper.started_ios + nr;
}

-- Whether a stage is among `stages`, and the stage that the switch of `restart_oper` falls to.
unfoldable pub next_stage : (Stage → Bool) → Stage → Option Stage
next_stage stages write =
    if stages read
    then some read
    else if stages rwrite
    then some rwrite
    else if stages rread
    then some rread
    else none
next_stage stages read =
    if stages rwrite then some rwrite else if stages rread then some rread else none
next_stage stages rwrite = if stages rread then some rread else none
next_stage stages rread = none

-- The operation at its next stage, and `none` where there is none or an error has been hit.
unfoldable pub restart_oper : (Stage → Bool) → IoOper → Option IoOper
unfolding next_stage
restart_oper stages oper =
    if oper.last_err == 0
    then elim (next_stage stages oper.rw) [
      | none ↦ none
      | some rw ↦
          some (record oper {
            started_ios = 0;
            last_offset = oper.start;
            stonewalled = false;
            rw = rw;
          })
    ]
    else none
