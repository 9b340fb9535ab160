-- ===== src/Iogen/Files.antt =====
-- iogen.c: what `get_file_info` finds out about a file of the command line, and the files that
-- `parse_cmdline` keeps.
use longan_chkout.Base.{
  ℕ, ◌/◌, Bool, true, false, List, [], ◌∷◌, ◌++◌, Option, none, some, ltb, if◌then◌else◌,
}
use longan_chkout.Iogen.{Options, OffsetMode, random, sequential, reverse, FileInfo}

-- The `open` for direct io and the request for what it needs, with the value of `XFS_DIO_MIN`.
pub data Opened : Type 0 where
  not_opened : Opened
  no_dioinfo : Opened
  dioinfo : ℕ → Option ℕ → Opened

-- What `stat` and the device tell of a file.
pub record Found : Type 0 where
  pub is_regular : Bool
  pub st_size : ℕ
  pub opened : Opened

unfoldable pub device_unit : ℕ → ℕ → Opened → ℕ
device_unit bsize bbsize not_opened = bbsize
device_unit bsize bbsize no_dioinfo = bsize
device_unit bsize bbsize (dioinfo d_miniosz none) = d_miniosz
device_unit bsize bbsize (dioinfo d_miniosz (some dio_env)) = dio_env

-- `Rawmult` where `-r` is given.
unfoldable pub riou_of : ℕ → ℕ → Option ℕ → Opened → ℕ
unfolding device_unit
riou_of bsize bbsize (some rawmult) opened = rawmult
riou_of bsize bbsize none opened = device_unit bsize bbsize opened

-- The place in `File_List`, filled in; a special file keeps the `f_iou` that the place had.
unfoldable pub get_file_info : ℕ → ℕ → Option ℕ → FileInfo → Found → FileInfo
unfolding riou_of
get_file_info bsize bbsize rawmult rec found =
    if found.is_regular
    then record rec {
      is_regular = true;
      f_iou = 1;
      f_length = found.st_size;
      f_riou = riou_of bsize bbsize rawmult found.opened;
    }
    else record rec { is_regular = false; f_riou = bsize; f_length = bsize }

unfoldable pub first_last : OffsetMode → ℕ → ℕ
first_last sequential f_length = 0
first_last reverse f_length = f_length
first_last random f_length = f_length / 2

-- A file that is long enough, with the place where its first io is to be next to.
unfoldable pub admit_file : Options → FileInfo → Option FileInfo
unfolding first_last
admit_file o fptr =
    if ltb fptr.f_length o.mintrans
    then none
    else if ltb fptr.f_length o.maxtrans
    then none
    else if ltb 0 fptr.f_length
    then some
        (record fptr { f_lastoffset = first_last o.offset_mode fptr.f_length; f_lastlength = 0 })
    else none

-- `File_List` after `memset`
unfoldable pub cleared : FileInfo
cleared = record {
  f_length = 0;
  f_iou = 0;
  f_riou = 0;
  is_regular = false;
  f_lastoffset = 0;
  f_lastlength = 0;
}

-- One file of the command line for which `stat` succeeds, and the place for the next.
unfoldable pub kept_file : FileInfo → Option FileInfo → List FileInfo × FileInfo
unfolding cleared
kept_file filled none = ([], filled)
kept_file filled (some fptr) = (fptr ∷ [], cleared)

-- The loop over the files of the command line, `none` where `stat` fails; `slot` is the place in
-- `File_List` for the next.
unfoldable pub parse_files :
    ℕ → ℕ → Option ℕ → Options → FileInfo → List (Option Found) → List FileInfo
unfolding get_file_info admit_file kept_file
parse_files bsize bbsize rawmult o slot [] = []
parse_files bsize bbsize rawmult o slot (none ∷ files) =
    parse_files bsize bbsize rawmult o slot files
parse_files bsize bbsize rawmult o slot (some found ∷ files) =
    let filled = get_file_info bsize bbsize rawmult slot found in
    let next = kept_file filled (admit_file o filled) in
    next.0 ++ parse_files bsize bbsize rawmult o next.1 files
