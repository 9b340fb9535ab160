-- ===== src/Fsstress/Rename.antt =====
-- fsstress.c: `do_renameat2` and the operations on top of it.
pub mod Exchange
pub mod Moved
pub mod Ended
use longan_chkout.Base.{
  ℕ, ◌+◌, ◌^◌, Bool, true, false, Option, none, some, List, [], ◌∷◌, ◌==◌, if◌then◌else◌,
}
use longan_chkout.Fsstress.Files.{
  Fent, Flist, Files, ft_dir, set_flist, add_to_flist, del_from_flist,
}
use longan_chkout.Fsstress.Tree.{
  Run, done, ◌>>=◌, Part, fents_ancestor_check, fix_parent, find_file, get_fname,
}
use longan_chkout.Fsstress.Operations.{
  fent_at, ft_dirm, ft_devm, ft_anym, parent_id, generate_fname, no_filename,
}

pub data Mode : Type 0 where
  plain : Mode
  noreplace : Mode
  exchange : Mode
  whiteout : Mode

-- `fep->xattr_counter = n`
unfoldable pub set_xattr_counter : ℕ × ℕ → ℕ → Files → Files
unfolding set_flist fent_at
set_xattr_counter at n s =
    set_flist at.0
      (record (s.flist at.0) {
        fents = λ j.
            if j == at.1
            then record (fent_at at s) { xattr_counter = n }
            else (s.flist at.0).fents j;
      })
      s

-- `if (flp - flist == FT_DIR) fix_parent(oldid, id, swap)`
unfoldable pub fix_children : ℕ → ℕ → ℕ → Bool → Files → Files
unfolding fix_parent
fix_children ft oldid id swap s = if ft == ft_dir then fix_parent oldid id swap s else s

unfoldable pub exchanged : ℕ × ℕ → ℕ × ℕ → Files → Files
unfolding fix_children set_xattr_counter fent_at
exchanged src dst s =
    let s1 = fix_children src.0 (fent_at src s).id (fent_at dst s).id true s in
    set_xattr_counter dst (fent_at src s1).xattr_counter
      (set_xattr_counter src (fent_at dst s1).xattr_counter s1)

-- The three modes with a new name, `id` being its identifier and `parid` its directory's.
unfoldable pub moved : Mode → ℕ × ℕ → ℕ → Option ℕ → Files → Files
unfolding fix_children set_xattr_counter fent_at add_to_flist del_from_flist
moved whiteout src id parid s =
    let s1 = fix_children src.0 (fent_at src s).id id false s in
    add_to_flist src.0
      (record { id = id; parent = parid; xattr_counter = (fent_at src s).xattr_counter })
      (set_xattr_counter src 0 s1)
moved mode src id parid s =
    let s1 = fix_children src.0 (fent_at src s).id id false s in
    add_to_flist src.0
      (record { id = id; parent = parid; xattr_counter = (fent_at src s).xattr_counter })
      (del_from_flist src.0 src.1 s1)

-- Whether one of two directories is above the other; the second test waits for the first.
unfoldable pub other_way : ℕ → Fent → Fent → Bool × Files → Run (Bool × Files)
unfolding fents_ancestor_check
other_way fuel fep dfep (true, s) = done (true, s)
other_way fuel fep dfep (false, s) = fents_ancestor_check fuel dfep fep.id s

unfoldable pub are_related : ℕ → ℕ × ℕ → ℕ × ℕ → Files → Run (Bool × Files)
unfolding other_way fents_ancestor_check fent_at
are_related fuel src dst s =
    if src.0 == ft_dir
    then fents_ancestor_check fuel (fent_at src s) (fent_at dst s).id s
      >>= other_way fuel (fent_at src s) (fent_at dst s)
    else done (false, s)

unfoldable pub exchange_unrelated : ℕ × ℕ → ℕ × ℕ → Bool → Bool × Files → Run Files
unfolding exchanged
exchange_unrelated src dst made (true, s) = done s
exchange_unrelated src dst made (false, s) = done (if made then exchanged src dst s else s)

unfoldable pub exchange_with : ℕ → ℕ × ℕ → Bool → Option (ℕ × ℕ) × Files → Run Files
unfolding are_related exchange_unrelated
exchange_with fuel src made (none, s) = done s
exchange_with fuel src made (some dst, s) =
    are_related fuel src dst s >>= exchange_unrelated src dst made

unfoldable pub move_to :
    ℕ
    → Mode
    → Bool
    → Bool
    → ℕ × ℕ
    → Option (ℕ × ℕ)
    → ℕ
    → Option ℕ
    → Option (List Part) × Files
    → Run Files
unfolding no_filename moved
move_to fuel mode v made src dir id parid (none, s) = no_filename fuel v dir s
move_to fuel mode v made src dir id parid (some path, s) =
    done (if made then moved mode src id parid s else s)

unfoldable pub move_from : ℕ → Mode → ℕ → Bool → Bool → ℕ × ℕ → Files → Run Files
unfolding find_file generate_fname parent_id move_to
move_from fuel mode r v made src s =
    let dir = find_file ft_dirm r s in
    generate_fname fuel dir src.0 s >>= move_to fuel mode v made src dir s.nameseq (parent_id dir s)

unfoldable pub rename_from : ℕ → Mode → ℕ → Bool → Bool → Option (ℕ × ℕ) × Files → Run Files
unfolding get_fname exchange_with move_from
rename_from fuel mode r v made (none, s) = done s
rename_from fuel exchange r v made (some src, s) =
    get_fname fuel (2 ^ src.0) r s >>= exchange_with fuel src made
rename_from fuel mode r v made (some src, s) = move_from fuel mode r v made src s

-- The types that can be renamed.
unfoldable pub source_types : Mode → ℕ
source_types whiteout = ft_devm
source_types mode = ft_anym

unfoldable pub do_renameat2 : ℕ → Mode → ℕ → ℕ → Bool → Bool → Files → Run Files
unfolding source_types get_fname rename_from
do_renameat2 fuel mode r r1 v made s =
    get_fname fuel (source_types mode) r s >>= rename_from fuel mode r1 v made
