-- ===== src/Iogen.antt =====
-- iogen.c: what it knows of the files and the calls, the arithmetic of its offsets and lengths, and
-- the requests that come out.
pub mod Form
pub mod Within
pub mod Placing
pub mod Progress
pub mod Requests
pub mod Total
pub mod Maps
pub mod Words
pub mod Files
pub mod Admitted
pub mod Generate
mod Tests
use longan_chkout.Base.{
  ℕ, zero, suc, ◌+◌, ◌-◌, ◌%◌, ◌/◌, Bool, true, false, ◌&&◌, List, [], ◌∷◌, ◌++◌, Option, none,
  some, ltb, ◌==◌, if◌then◌else◌,
}
use longan_chkout.Base.Lists.{length, get_elem?, set_elem}
use longan_chkout.Base.Maybe.{◌>>=◌}

-- `Offset_Mode`
pub data OffsetMode : Type 0 where
  random : OffsetMode
  sequential : OffsetMode
  reverse : OffsetMode

-- What `-o`, `-m`, `-t` and `-T` set.
pub record Options : Type 0 where
  pub o_opt : Bool
  pub offset_mode : OffsetMode
  pub mintrans : ℕ
  pub maxtrans : ℕ

-- `struct file_info`, without the path.
pub record FileInfo : Type 0 where
  pub f_length : ℕ
  pub f_iou : ℕ
  pub f_riou : ℕ
  pub is_regular : Bool
  pub f_lastoffset : ℕ
  pub f_lastlength : ℕ

-- The calls that `Syscall_Map` has.
pub data Call : Type 0 where
  read : Call
  write : Call
  pread : Call
  pwrite : Call
  resvsp : Call
  unresvsp : Call
  readv : Call
  writev : Call
  mmapr : Call
  mmapw : Call
  fsync2 : Call
  fdatasync : Call

-- `m_value` and `m_flags & SY_WRITE`
pub record Syscall : Type 0 where
  pub call : Call
  pub is_write : Bool

-- `m_value` and `m_flags & FLG_RAW`
pub record Flag : Type 0 where
  pub value : ℕ
  pub is_raw : Bool

pub data Access : Type 0 where
  rdonly : Access
  wronly : Access
  rdwr : Access

-- `struct io_req`; the file by its place in `File_List`, and `r_oflags` in its two parts.
pub record Request : Type 0 where
  pub call : Call
  pub file : ℕ
  pub access : Access
  pub flags : ℕ
  pub offset : ℕ
  pub nbytes : ℕ
  pub pattern : ℕ
  pub word_aligned : Bool

-- Where the io is to be. `bad_length` has -1 for its length, and what follows it is left out.
pub data Placed : Type 0 where
  placed : ℕ → ℕ → Placed
  refused : Placed
  bad_length : Placed

pub data Formed : Type 0 where
  formed : Request → List FileInfo → Formed
  refused : Formed
  bad_length : Formed

unfoldable pub multiple : FileInfo → Flag → ℕ
multiple fptr flag = if fptr.is_regular && flag.is_raw then fptr.f_riou else fptr.f_iou

unfoldable pub round_up : ℕ → ℕ → ℕ
round_up offset mult =
    if offset == 0
    then 0
    else if offset % mult == 0
    then offset
    else offset + (mult - offset % mult)

unfoldable pub round_down : ℕ → ℕ → ℕ
round_down offset mult =
    if offset == 0 then 0 else if offset % mult == 0 then offset else offset - offset % mult

unfoldable pub lesser : ℕ → ℕ → ℕ
lesser a b = if ltb b a then b else a

-- `o_opt && lastend > laststart`, by `lastend + 1`
unfoldable pub overlaps : Options → FileInfo → Bool
overlaps o fptr = o.o_opt && ltb (fptr.f_lastoffset + 1) (fptr.f_lastoffset + fptr.f_lastlength)

unfoldable pub minlength_of : Options → ℕ → ℕ
minlength_of o mult = if ltb mult o.mintrans then o.mintrans else mult

unfoldable pub placed_or_refused : Option (ℕ × ℕ) → Placed
placed_or_refused none = refused
placed_or_refused (some at) = placed at.0 at.1

-- The offset that a sequential request is tried at.
unfoldable pub sequential_offset : Options → FileInfo → ℕ → ℕ → ℕ
unfolding round_up minlength_of
sequential_offset o fptr mult start =
    let offset = round_up start mult in
    if ltb fptr.f_length (offset + minlength_of o mult) then 0 else offset

-- Where a reversed request is to end, and the greatest length for it.
unfoldable pub starts_over : Options → FileInfo → ℕ → Bool
unfolding minlength_of lesser
starts_over o fptr mult = ltb (lesser fptr.f_lastoffset o.maxtrans) (minlength_of o mult)

-- The limits of a random offset.
unfoldable pub minoffset_of : Options → FileInfo → ℕ → ℕ
unfolding overlaps
minoffset_of o fptr len = if overlaps o fptr then fptr.f_lastoffset + 1 - len else 0

unfoldable pub maxoffset_of : Options → FileInfo → ℕ → ℕ
unfolding overlaps
maxoffset_of o fptr len =
    let past = fptr.f_lastoffset + fptr.f_lastlength in
    if overlaps o fptr
    then if ltb (fptr.f_length + 1) (past + len) then fptr.f_length - len else past - 1
    else fptr.f_length - len

-- The access of a call, which needs both ways for a mapping that is written.
unfoldable pub access_of : Syscall → Access
access_of sc = elim sc.call [
  | read ↦ rdonly
  | write ↦ wronly
  | mmapr ↦ if sc.is_write then rdwr else rdonly
  | mmapw ↦ if sc.is_write then rdwr else rdonly
  | other ↦ if sc.is_write then wronly else rdonly
]

-- The request with its place, and the file with the place as its last one.
unfoldable pub fill_in : Syscall → ℕ → Flag → ℕ → List FileInfo → FileInfo → Placed → Formed
unfolding access_of set_elem
fill_in sc pattern flag file files fptr (placed offset len) =
    formed
      (record {
        call = sc.call;
        file = file;
        access = access_of sc;
        flags = flag.value;
        offset = offset;
        nbytes = len;
        pattern = pattern;
        word_aligned = flag.is_raw;
      })
      (set_elem files file (record fptr { f_lastoffset = offset; f_lastlength = len }))
fill_in sc pattern flag file files fptr refused = Formed.refused
fill_in sc pattern flag file files fptr bad_length = Formed.bad_length

-- What the loop of `main` writes, and nothing where the model ends.
unfoldable pub written_out : List FileInfo → Formed → Option (List Request × List FileInfo)
written_out files (formed req after) = some (req ∷ [], after)
written_out files refused = some ([], files)
written_out files bad_length = none
