-- ===== src/Fsstress/Operations.antt =====
-- fsstress.c: the operations on the names of files. `made` is whether the call of the kernel
-- succeeds, `v` whether the operation is to print, and `r` and its like are drawn by `random`.
pub mod Kept
pub mod Made
pub mod Removed
pub mod Reached
use longan_chkout.Base.{
  ℕ, zero, suc, ◌+◌, ◌-◌, ◌^◌, Bool, true, false, Option, none, some, List, [], ◌∷◌, ltb, ◌==◌,
  if◌then◌else◌,
}
use longan_chkout.Fsstress.Files.{
  Fent, Flist, Files, ft_dir, ft_reg, ft_sym, ft_dev, ft_rtf, ft_nft, set_flist, add_to_flist,
  del_from_flist,
}
use longan_chkout.Fsstress.Tree.{
  Run, done, crashed, cut_off, ◌>>=◌, Part, part_of, add_part, fent_to_name, fents_ancestor_check,
  fix_parent, find_file, get_fname,
}

abbrev pub ft_dirm : ℕ
ft_dirm = 1

abbrev pub ft_devm : ℕ
ft_devm = 8

abbrev pub ft_anym : ℕ
ft_anym = 31

abbrev pub ft_notdir : ℕ
ft_notdir = 30

-- The entry of a type and a slot.
unfoldable pub fent_at : ℕ × ℕ → Files → Fent
fent_at at s = (s.flist at.0).fents at.1

-- `parid`, which is -1 without a directory
unfoldable pub parent_id : Option (ℕ × ℕ) → Files → Option ℕ
unfolding fent_at
parent_id none s = none
parent_id (some at) s = some (fent_at at s).id

-- The name of a new file, in the directory if there is one: `none` is the return value 0.
unfoldable pub generate_fname : ℕ → Option (ℕ × ℕ) → ℕ → Files → Run (Option (List Part) × Files)
unfolding fent_to_name add_part part_of fent_at
generate_fname fuel none ft s =
    done (some (part_of ft s.nameseq s ∷ []), record s { nameseq = s.nameseq + 1 })
generate_fname fuel (some at) ft s =
    let s1 = record s { nameseq = s.nameseq + 1 } in
    fent_to_name fuel ft_dir (fent_at at s1) s1 >>= λ q. done (add_part (part_of ft s.nameseq s) q)

-- What an operation does without a name: to print it, it asks for the directory's.
unfoldable pub no_filename : ℕ → Bool → Option (ℕ × ℕ) → Files → Run Files
unfolding fent_to_name fent_at
no_filename fuel false at s = done s
no_filename fuel true none s = done s
no_filename fuel true (some at) s = fent_to_name fuel ft_dir (fent_at at s) s >>= λ q. done q.1

-- What follows the name of a new file, `id` and `parid` being known.
unfoldable pub record_file :
    ℕ → Bool → Option (ℕ × ℕ) → Bool → ℕ → Fent → Option (List Part) × Files → Run Files
unfolding no_filename add_to_flist
record_file fuel v dir made ft fep (none, s) = no_filename fuel v dir s
record_file fuel v dir made ft fep (some path, s) = done (if made then add_to_flist ft fep s else s)

-- The common text of `creat_f`, `mkdir_f`, `mknod_f` and `symlink_f`.
unfoldable pub make_file : ℕ → ℕ → ℕ → Bool → Bool → Files → Run Files
unfolding find_file parent_id generate_fname record_file
make_file fuel ft r v made s =
    let dir = find_file ft_dirm r s in
    generate_fname fuel dir ft s
    >>= record_file fuel v dir made ft
        (record { id = s.nameseq; parent = parent_id dir s; xattr_counter = 0 })

unfoldable pub creat_type : ℕ → ℕ → ℕ
creat_type rtpct e1 = if rtpct == 0 then ft_reg else if ltb rtpct e1 then ft_reg else ft_rtf

unfoldable pub creat_f : ℕ → ℕ → ℕ → ℕ → Bool → Bool → Files → Run Files
unfolding creat_type make_file
creat_f fuel rtpct r e1 v made s = make_file fuel (creat_type rtpct e1) r v made s

unfoldable pub mkdir_f : ℕ → ℕ → Bool → Bool → Files → Run Files
unfolding make_file
mkdir_f fuel r v made s = make_file fuel ft_dir r v made s

unfoldable pub mknod_f : ℕ → ℕ → Bool → Bool → Files → Run Files
unfolding make_file
mknod_f fuel r v made s = make_file fuel ft_dev r v made s

unfoldable pub symlink_f : ℕ → ℕ → Bool → Bool → Files → Run Files
unfolding make_file
symlink_f fuel r v made s = make_file fuel ft_sym r v made s

-- `link_f` behind the draw of the file to link to.
unfoldable pub link_to : ℕ → ℕ → Bool → Bool → Option (ℕ × ℕ) × Files → Run Files
unfolding find_file parent_id generate_fname record_file fent_at
link_to fuel r v made (none, s) = done s
link_to fuel r v made (some at, s) =
    let dir = find_file ft_dirm r s in
    generate_fname fuel dir at.0 s
    >>= record_file fuel v dir made at.0 (record {
      id = s.nameseq;
      parent = parent_id dir s;
      xattr_counter = (fent_at at s).xattr_counter;
    })

unfoldable pub link_f : ℕ → ℕ → ℕ → Bool → Bool → Files → Run Files
unfolding get_fname link_to
link_f fuel r r1 v made s = get_fname fuel ft_notdir r s >>= link_to fuel r1 v made

unfoldable pub unlinked : Bool → Option (ℕ × ℕ) × Files → Run Files
unfolding del_from_flist
unlinked made (none, s) = done s
unlinked made (some at, s) = done (if made then del_from_flist at.0 at.1 s else s)

unfoldable pub unlink_f : ℕ → ℕ → Bool → Files → Run Files
unfolding get_fname unlinked
unlink_f fuel r made s = get_fname fuel ft_notdir r s >>= unlinked made

unfoldable pub dir_removed : Bool → Option (ℕ × ℕ) × Files → Run Files
unfolding del_from_flist
dir_removed made (none, s) = done s
dir_removed made (some at, s) = done (if made then del_from_flist ft_dir at.1 s else s)

unfoldable pub rmdir_f : ℕ → ℕ → Bool → Files → Run Files
unfolding get_fname dir_removed
rmdir_f fuel r made s = get_fname fuel ft_dirm r s >>= dir_removed made
