-- ===== src/Fsstress/Rename/Ended.antt =====
-- From a tree of directories, each of the calls of `do_renameat2` ends in a well-formed state.
use longan_chkout.Base.{
  ℕ, suc, ◌^◌, ◌<◌, ◌≡◌, ◌≢◌, refl, subst, sym, Bool, true, false, Option, none, some, List, arith,
  ◌==◌, inl, inr, Bool-cases,
}
use longan_chkout.Fsstress.Files.{Files, ft_dir}
use longan_chkout.Fsstress.Files.WellFormed.{IsWellFormed}
use longan_chkout.Fsstress.Tree.{Part, find_file}
use longan_chkout.Fsstress.Tree.Chosen.{IsFile, find_file_sound}
use longan_chkout.Fsstress.Operations.{fent_at, ft_dirm, parent_id}
use longan_chkout.Fsstress.Operations.Kept.{
  IsTree, Ends, Ends-bind, Ends-map, IsSame, same-IsTree, same-IsFile, IsGot, get_fname-IsGot,
}
use longan_chkout.Fsstress.Operations.Made.{
  IsNew, taken, generate_fname-Ends, no_filename-Ends, taken-IsTree,
}
use longan_chkout.Fsstress.Rename.Moved.{moved-IsWellFormed, exchanged-IsWellFormed, check-Ends}
use longan_chkout.Fsstress.Rename.{
  Mode, plain, noreplace, exchange, whiteout, other_way, are_related, exchange_unrelated,
  exchange_with, move_to, move_from, rename_from, source_types, do_renameat2,
}

other_way-Ends :
    (depth : ℕ) (src dst : ℕ × ℕ) (s : Files) (q : Bool × Files)
    → IsTree depth s
    → dst.1 < (s.flist dst.0).nfiles
    → IsSame s q.1
    → Ends (λ w. IsSame s w.1) (other_way (suc (suc depth)) (fent_at src s) (fent_at dst s) q)
unfolding other_way Ends
other_way-Ends depth src dst s (true, s1) t l same = same
other_way-Ends depth src dst s (false, s1) t l same =
    check-Ends depth (fent_at src s).id dst s s1 t same l

are_related-Ends :
    (depth : ℕ) (src dst : ℕ × ℕ) (s : Files)
    → IsTree depth s
    → src.1 < (s.flist src.0).nfiles
    → dst.1 < (s.flist dst.0).nfiles
    → Ends (λ w. IsSame s w.1) (are_related (suc (suc depth)) src dst s)
unfolding are_related
are_related-Ends depth src dst s t l m = elim (Bool-cases (src.0 == ft_dir)) [
  | inl dirs ↦ rw dirs (
      Ends-bind (λ w. IsSame s w.1) (λ w. IsSame s w.1) _ _
        (check-Ends depth (fent_at dst s).id src s s t unchanged l)
        (λ q same. other_way-Ends depth src dst s q t m same))
  | inr files ↦ rw files (unfold Ends in unchanged)
]
  where
    unchanged : IsSame s s
    unchanged = record { lists = refl; names = refl; kept = t.formed }

exchange_unrelated-Ends :
    (src dst : ℕ × ℕ) (made : Bool) (q : Bool × Files)
    → IsWellFormed q.1
    → Ends IsWellFormed (exchange_unrelated src dst made q)
unfolding exchange_unrelated Ends
exchange_unrelated-Ends src dst made (true, s) v = v
exchange_unrelated-Ends src dst true (false, s) v = exchanged-IsWellFormed src dst s v
exchange_unrelated-Ends src dst false (false, s) v = v

exchange_with-Ends :
    (depth which : ℕ) (src : ℕ × ℕ) (made : Bool) (q : Option (ℕ × ℕ) × Files)
    → IsTree depth q.1
    → src.1 < (q.1.flist src.0).nfiles
    → ((at : ℕ × ℕ) → q.0 ≡ some at → IsFile which q.1 at)
    → Ends IsWellFormed (exchange_with (suc (suc depth)) src made q)
unfolding exchange_with Ends
exchange_with-Ends depth which src made (none, s) t l file = t.formed
exchange_with-Ends depth which src made (some dst, s) t l file =
    Ends-bind (λ w. IsSame s w.1) IsWellFormed _ _
      (are_related-Ends depth src dst s t l (file dst refl).inside)
      (λ q same. exchange_unrelated-Ends src dst made q same.kept)

move_to-Ends :
    (depth : ℕ) (mode : Mode) (v made : Bool) (src : ℕ × ℕ) (dir : Option (ℕ × ℕ))
    (parid : Option ℕ) (s : Files) (q : Option (List Part) × Files)
    → IsTree depth s
    → src.1 < (s.flist src.0).nfiles
    → ((at : ℕ × ℕ) → dir ≡ some at → IsFile ft_dirm s at)
    → IsSame (taken s) q.1
    → Ends IsWellFormed (move_to (suc (suc depth)) mode v made src dir s.nameseq parid q)
unfolding move_to Ends
move_to-Ends depth mode v made src dir parid s (none, s1) t l file same =
    Ends-map (IsTree depth) IsWellFormed _
      (no_filename-Ends depth v dir s1
        (same-IsTree depth (taken s) s1 (taken-IsTree depth s t) same)
        (λ at e. same-IsFile ft_dirm s s1 at (unfold taken in same.lists) (file at e)))
      (λ a w. w.formed)
move_to-Ends depth mode v true src dir parid s (some path, s1) t l file same =
    moved-IsWellFormed mode src s.nameseq parid s1 in_list below new same.kept
  where
    lists : s1.flist ≡ s.flist
    lists = unfold taken in same.lists

    in_list : src.1 < (s1.flist src.0).nfiles
    in_list = subst (λ x. src.1 < (x src.0).nfiles) (sym lists) l

    below : s.nameseq < s1.nameseq
    below = rw same.names (unfold taken in (omega arith))

    new : IsNew s.nameseq s1
    new =
        unfold IsNew in
        (λ i j m e.
          new_id i j (subst (λ x. j < (x i).nfiles) lists m)
            (subst (λ x. ((x i).fents j).id ≡ s.nameseq) lists e))
      where
        new_id : (i j : ℕ) → j < (s.flist i).nfiles → ((s.flist i).fents j).id ≢ s.nameseq
        new_id i j m e = omega (arith, t.formed.fresh i j m, e)
move_to-Ends depth mode v false src dir parid s (some path, s1) t l file same = same.kept

move_from-Ends :
    (depth : ℕ) (mode : Mode) (r : ℕ) (v made : Bool) (src : ℕ × ℕ) (s : Files)
    → IsTree depth s
    → src.1 < (s.flist src.0).nfiles
    → Ends IsWellFormed (move_from (suc (suc depth)) mode r v made src s)
unfolding move_from
move_from-Ends depth mode r v made src s t l =
    Ends-bind (λ q. IsSame (taken s) q.1) IsWellFormed _ _
      (generate_fname-Ends depth (find_file ft_dirm r s) src.0 s t
        (λ at e. find_file_sound ft_dirm r s at e))
      (λ q same.
        move_to-Ends depth mode v made src (find_file ft_dirm r s)
          (parent_id (find_file ft_dirm r s) s) s q t l (λ at e. find_file_sound ft_dirm r s at e)
          same)

rename_from-Ends :
    (depth which : ℕ) (mode : Mode) (r : ℕ) (v made : Bool) (q : Option (ℕ × ℕ) × Files)
    → IsTree depth q.1
    → ((at : ℕ × ℕ) → q.0 ≡ some at → IsFile which q.1 at)
    → Ends IsWellFormed (rename_from (suc (suc depth)) mode r v made q)
unfolding rename_from Ends
rename_from-Ends depth which mode r v made (none, s) t file = t.formed
rename_from-Ends depth which exchange r v made (some src, s) t file =
    Ends-bind (IsGot (2 ^ src.0) (find_file (2 ^ src.0) r s) s) IsWellFormed _ _
      (get_fname-IsGot depth (2 ^ src.0) r s t)
      (λ q w.
        exchange_with-Ends depth (2 ^ src.0) src made q (same-IsTree depth s q.1 t w.same)
          (subst (λ x. src.1 < (x src.0).nfiles) (sym w.same.lists) (file src refl).inside) w.file)
rename_from-Ends depth which plain r v made (some src, s) t file =
    move_from-Ends depth plain r v made src s t (file src refl).inside
rename_from-Ends depth which noreplace r v made (some src, s) t file =
    move_from-Ends depth noreplace r v made src s t (file src refl).inside
rename_from-Ends depth which whiteout r v made (some src, s) t file =
    move_from-Ends depth whiteout r v made src s t (file src refl).inside

-- From a forest of directories of a depth, with fuel for two levels more, a rename in any of its
-- modes ends, without a read through NULL, with well-formed lists and a well-formed cache.
pub do_renameat2-IsWellFormed :
    (depth : ℕ) (mode : Mode) (r r1 : ℕ) (v made : Bool) (s : Files)
    → IsTree depth s
    → Ends IsWellFormed (do_renameat2 (suc (suc depth)) mode r r1 v made s)
unfolding do_renameat2
do_renameat2-IsWellFormed depth mode r r1 v made s t =
    Ends-bind (IsGot (source_types mode) (find_file (source_types mode) r s) s) IsWellFormed _ _
      (get_fname-IsGot depth (source_types mode) r s t)
      (λ q w.
        rename_from-Ends depth (source_types mode) mode r1 v made q
          (same-IsTree depth s q.1 t w.same) w.file)
