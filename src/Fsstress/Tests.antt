-- ===== src/Fsstress/Tests.antt =====
-- The theorems on fsstress.c at small states: a directory, and a file in it.
use longan_chkout.Base.{
  ℕ, ◌+◌, ◌<◌, ◌≡◌, refl, ◌==◌, ◌&&◌, Bool, true, false, none, some, List, [], ◌∷◌, arith,
}
use longan_chkout.Base.Lists.{length}
use longan_chkout.Fsstress.Files.{
  Files, ft_dir, ft_reg, ft_nft, set_flist, add_to_flist, dcache_init, find_slot, dirid_to_fent,
}
use longan_chkout.Fsstress.Files.WellFormed.{IsWellFormed}
use longan_chkout.Fsstress.Files.Cached.{dirid_to_fent_lem}
use longan_chkout.Fsstress.Tree.{done, add_part, fent_to_name, is_in, totalsum, nth_file, find_file}
use longan_chkout.Fsstress.Tree.Chosen.{IsFile, find_file_reaches}
use longan_chkout.Fsstress.Operations.{
  fent_at, ft_dirm, parent_id, generate_fname, record_file, make_file, rmdir_f,
}
use longan_chkout.Fsstress.Operations.Kept.{IsTree, Ends}
use longan_chkout.Fsstress.Operations.Made.{make_file-IsTree}
use longan_chkout.Fsstress.Operations.Removed.{IsEmptied, rmdir_f-IsTree}
use longan_chkout.Fsstress.Operations.Reached.{no_files, Reached, begun, made, Reached-IsTree}
use longan_chkout.Fsstress.Rename.{plain, do_renameat2}
use longan_chkout.Fsstress.Rename.Ended.{do_renameat2-IsWellFormed}
use longan_chkout.Fsstress.Table.{OpDesc, ops, write_freq, copies, make_freq_table, drawn_op}
use longan_chkout.Fsstress.Table.Drawn.{IsOrdered, drawn_op-write_freq}

abbrev one_dir : Files
one_dir =
    add_to_flist ft_dir (record { id = 0; parent = none; xattr_counter = 0 })
      (record (no_files 0) { nameseq = 1 })

abbrev file_in_dir : Files
file_in_dir =
    add_to_flist ft_reg (record { id = 1; parent = some 0; xattr_counter = 0 })
      (record one_dir { nameseq = 2; dcache = one_dir.dcache })

one_dir_made : make_file 2 ft_dir 0 false true (no_files 0) ≡ done one_dir
unfolding make_file find_file totalsum nth_file is_in generate_fname record_file parent_id no_files
    dcache_init
one_dir_made = refl

file_made : make_file 3 ft_reg 5 false true one_dir ≡ done file_in_dir
unfolding make_file find_file totalsum nth_file is_in generate_fname record_file parent_id no_files
    dcache_init fent_to_name add_part fent_at add_to_flist set_flist
file_made = refl

file_reached : Reached 0 2 file_in_dir
file_reached =
    made 1 one_dir file_in_dir ft_reg 5 false true
      (made 0 (no_files 0) one_dir ft_dir 0 false true begun one_dir_made) file_made

dir-IsTree : IsTree 1 one_dir
dir-IsTree =
    Reached-IsTree 0 1 one_dir (made 0 (no_files 0) one_dir ft_dir 0 false true begun one_dir_made)

file-IsTree : IsTree 2 file_in_dir
file-IsTree = Reached-IsTree 0 2 file_in_dir file_reached

file_inside : 0 < (file_in_dir.flist ft_reg).nfiles
unfolding add_to_flist set_flist no_files dcache_init
file_inside = omega arith

Reached-IsTree_example : IsTree 2 file_in_dir
Reached-IsTree_example = Reached-IsTree 0 2 file_in_dir file_reached

make_file-IsTree_example : Ends (IsTree 3) (make_file 4 ft_dir 7 true true file_in_dir)
make_file-IsTree_example = make_file-IsTree 2 ft_dir 7 true true file_in_dir file-IsTree

no_parents : (i j : ℕ) → j < (one_dir.flist i).nfiles → ((one_dir.flist i).fents j).parent ≡ none
unfolding add_to_flist set_flist no_files dcache_init
no_parents i j l = ground (arith, l)

nothing_in_dir :
    (at : ℕ × ℕ) → find_file ft_dirm 3 one_dir ≡ some at → true ≡ true → IsEmptied at one_dir
unfolding IsEmptied
nothing_in_dir at e m d i j l q = ground (arith, no_parents i j l, q)

rmdir_f-IsTree_example : Ends (IsTree 1) (rmdir_f 3 3 true one_dir)
rmdir_f-IsTree_example = rmdir_f-IsTree 1 3 true one_dir dir-IsTree nothing_in_dir

dirid_to_fent_lem_example :
    (dirid_to_fent 0 file_in_dir).0
    ≡ find_slot (file_in_dir.flist ft_dir).fents 0 0 (file_in_dir.flist ft_dir).nfiles
dirid_to_fent_lem_example = dirid_to_fent_lem 0 file_in_dir file-IsTree.formed

do_renameat2-IsWellFormed_example :
    Ends IsWellFormed (do_renameat2 4 plain 1 5 false true file_in_dir)
do_renameat2-IsWellFormed_example =
    do_renameat2-IsWellFormed 2 plain 1 5 false true file_in_dir file-IsTree

IsFile-IsFile : IsFile 30 file_in_dir (ft_reg, 0)
unfolding is_in
IsFile-IsFile = record { asked = refl; typed = omega arith; inside = file_inside }

find_file_reaches_example :
    (r : ℕ) × (r < totalsum 30 0 ft_nft file_in_dir)
    × (find_file 30 r file_in_dir ≡ some (ft_reg, 0))
find_file_reaches_example = find_file_reaches 30 file_in_dir (ft_reg, 0) IsFile-IsFile

in_order : ℕ → List OpDesc → Bool
in_order i [] = true
in_order i (p ∷ l) = p.op == i && in_order (i + 1) l

in_order_sound : (i : ℕ) (l : List OpDesc) → in_order i l ≡ true → IsOrdered i l
unfolding in_order IsOrdered
in_order_sound i [] h = tt
in_order_sound i (p ∷ l) h = (ground (arith, h), in_order_sound (i + 1) l (ground (arith, h)))

ops-IsOrdered : IsOrdered 0 ops
unfolding in_order
ops-IsOrdered = in_order_sound 0 ops refl

ops_write : 0 < length (make_freq_table (write_freq ops))
unfolding length make_freq_table write_freq copies
ops_write = omega arith

drawn_op-write_freq_example :
    (p : OpDesc) × (drawn_op 1000 (write_freq ops) ≡ some p) × (p.iswrite ≡ true) × (0 < p.freq)
drawn_op-write_freq_example = drawn_op-write_freq 1000 ops ops-IsOrdered ops_write
