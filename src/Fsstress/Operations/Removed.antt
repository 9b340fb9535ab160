-- ===== src/Fsstress/Operations/Removed.antt =====
-- The operations that remove a file: they end, and leave a tree.
use longan_chkout.Base.{
  ℕ, suc, ◌+◌, ◌-◌, ◌≤◌, ◌<◌, ◌≡◌, ◌≢◌, refl, subst, ◌∙◌, sym, ap, Bool, true, false, Option, none,
  some, arith, ◌==◌, if◌then◌else◌, ◌⊎◌, inl, inr, Bool-cases, tests,
}
use longan_chkout.Fsstress.Files.{Flist, Files, ft_dir, set_flist, purge_dir, del_from_flist}
use longan_chkout.Fsstress.Files.WellFormed.{del_from_flist-IsWellFormed, purge_dir-flist}
use longan_chkout.Fsstress.Tree.{find_file, is_in}
use longan_chkout.Fsstress.Tree.Chosen.{IsFile, dirm_only}
use longan_chkout.Fsstress.Tree.Ranked.{IsDirectory}
use longan_chkout.Fsstress.Operations.{
  ft_dirm, ft_notdir, unlinked, unlink_f, dir_removed, rmdir_f, fent_at,
}
use longan_chkout.Fsstress.Operations.Kept.{
  IsTree, Ends, Ends-bind, same-IsTree, IsGot, get_fname-IsGot,
}

-- A list without one of its slots, the last entry in its place.
unfoldable pub shrunk : Flist → ℕ → Flist
shrunk l slot = if slot + 1 == l.nfiles then record l { nfiles = l.nfiles - 1 } else record l {
  nfiles = l.nfiles - 1;
  fents = λ j. if j == slot then l.fents (l.nfiles - 1) else l.fents j;
}

pub del-flist :
    (ft slot i : ℕ) (s : Files)
    → (del_from_flist ft slot s).flist i ≡ (if i == ft then shrunk (s.flist ft) slot else s.flist i)
unfolding del_from_flist set_flist shrunk
del-flist ft slot i s = ground (arith, first, second)
  where
    last : ℕ
    last = ((s.flist ft).fents ((s.flist ft).nfiles - 1)).id

    s1 : Files
    s1 = purge_dir ft ((s.flist ft).fents slot).id s

    first : s1.flist i ≡ s.flist i
    first = ap (λ f. f i) (purge_dir-flist ft ((s.flist ft).fents slot).id s)

    second : (purge_dir ft last s1).flist i ≡ s1.flist i
    second = ap (λ f. f i) (purge_dir-flist ft last s1)

-- An entry that is left stood in another slot than the one that is gone.
shrunk-entry :
    (l : Flist) (slot j : ℕ)
    → slot < l.nfiles
    → j < (shrunk l slot).nfiles
    → (u : ℕ) × (u < l.nfiles) × ((shrunk l slot).fents j ≡ l.fents u) × (u ≢ slot)
unfolding shrunk
shrunk-entry l slot j in_list at = elim (Bool-cases (j == slot)) [
  | inl here ↦
      (l.nfiles - 1, ground (arith, in_list), ground (arith, here, at), ground (arith, here, at))
  | inr other ↦ (j, ground (arith, other, at), ground (arith, other, at), ground (arith, other, at))
]

-- And each of the others is left.
shrunk-kept :
    (l : Flist) (slot u : ℕ)
    → slot < l.nfiles
    → u < l.nfiles
    → u ≢ slot
    → (j : ℕ) × (j < (shrunk l slot).nfiles) × ((shrunk l slot).fents j ≡ l.fents u)
unfolding shrunk
shrunk-kept l slot u in_list at other = elim (Bool-cases (u + 1 == l.nfiles)) [
  | inl last ↦ (slot, ground (arith, in_list, last, at, other), ground (arith, last, at, other))
  | inr before ↦ (u, ground (arith, before, at), ground (arith, before, at, other))
]

pub del-entry :
    (ft slot i j : ℕ) (s : Files)
    → slot < (s.flist ft).nfiles
    → j < ((del_from_flist ft slot s).flist i).nfiles
    → (u : ℕ) × (u < (s.flist i).nfiles)
      × (((del_from_flist ft slot s).flist i).fents j ≡ (s.flist i).fents u)
del-entry ft slot i j s in_list = rw (del-flist ft slot i s) (cases (Bool-cases (i == ft)))
  where
    cases :
        ((i == ft) ≡ true) ⊎ ((i == ft) ≡ false)
        → j < (if i == ft then shrunk (s.flist ft) slot else s.flist i).nfiles
        → (u : ℕ) × (u < (s.flist i).nfiles)
          × ((if i == ft then shrunk (s.flist ft) slot else s.flist i).fents j
              ≡ (s.flist i).fents u)
    cases (inl here) = rw here (rw (eq here) left)
      where
        eq : (i == ft) ≡ true → i ≡ ft
        eq h = omega (tests, h)

        left :
            j < (shrunk (s.flist ft) slot).nfiles
            → (u : ℕ) × (u < (s.flist ft).nfiles)
              × ((shrunk (s.flist ft) slot).fents j ≡ (s.flist ft).fents u)
        left at = (w.0, w.1, w.2)
          where
            w :
                (u : ℕ) × (u < (s.flist ft).nfiles)
                × ((shrunk (s.flist ft) slot).fents j ≡ (s.flist ft).fents u)
                × (u ≢ slot)
            w = shrunk-entry (s.flist ft) slot j in_list at
    cases (inr other) = rw other (λ at. (j, at, refl))

-- Another directory than the removed file is left.
del-IsDirectory :
    (ft slot p : ℕ) (s : Files)
    → slot < (s.flist ft).nfiles
    → (ft ≡ ft_dir → ((s.flist ft).fents slot).id ≢ p)
    → IsDirectory s.flist p
    → IsDirectory (del_from_flist ft slot s).flist p
del-IsDirectory ft slot p s in_list other d = elim (Bool-cases (ft_dir == ft)) [
  | inl dir ↦ among (omega (tests, dir)) in_list other
  | inr no_dir ↦ record {
    slot = d.slot;
    inside = rw (del-flist ft slot ft_dir s, no_dir) d.inside;
    named = rw (del-flist ft slot ft_dir s, no_dir) d.named;
  }
]
  where
    among :
        {i : ℕ}
        → ft_dir ≡ i
        → slot < (s.flist i).nfiles
        → (i ≡ ft_dir → ((s.flist i).fents slot).id ≢ p)
        → IsDirectory (del_from_flist i slot s).flist p
    among e =
        subst
          (λ i.
            slot < (s.flist i).nfiles
            → (i ≡ ft_dir → ((s.flist i).fents slot).id ≢ p)
            → IsDirectory (del_from_flist i slot s).flist p)
          e left
      where
        left :
            slot < (s.flist ft_dir).nfiles
            → (ft_dir ≡ ft_dir → ((s.flist ft_dir).fents slot).id ≢ p)
            → IsDirectory (del_from_flist ft_dir slot s).flist p
        left l o = record {
          slot = w.0;
          inside = rw (del-flist ft_dir slot ft_dir s) w.1;
          named = rw (del-flist ft_dir slot ft_dir s, w.2) d.named;
        }
          where
            w :
                (j : ℕ) × (j < (shrunk (s.flist ft_dir) slot).nfiles)
                × ((shrunk (s.flist ft_dir) slot).fents j ≡ (s.flist ft_dir).fents d.slot)
            w =
                shrunk-kept (s.flist ft_dir) slot d.slot l d.inside
                  (λ e. o refl (ap (λ i. ((s.flist ft_dir).fents i).id) (sym e) ∙ d.named))

-- What removing a file asks: a directory has no entry in it.
unfoldable pub IsEmptied : ℕ × ℕ → Files → Type 0
IsEmptied at s =
    at.0 ≡ ft_dir
    → (i j : ℕ) → j < (s.flist i).nfiles
    → ((s.flist i).fents j).parent ≢ some (fent_at at s).id

del-IsTree :
    (depth ft slot : ℕ) (s : Files)
    → slot < (s.flist ft).nfiles
    → IsEmptied (ft, slot) s
    → IsTree depth s
    → IsTree depth (del_from_flist ft slot s)
unfolding IsEmptied fent_at
del-IsTree depth ft slot s in_list emptied t = record {
  rank = t.rank;
  formed = del_from_flist-IsWellFormed ft slot s in_list t.formed;
  rooted = record {
    held = λ i j p l e. held i j p e (del-entry ft slot i j s in_list l);
    lower = λ j p l e. lower j p e (del-entry ft slot ft_dir j s in_list l);
  };
  shallow = λ j l. shallow j (del-entry ft slot ft_dir j s in_list l);
}
  where
    s1 : Files
    s1 = del_from_flist ft slot s

    Old : ℕ → ℕ → Type 0
    Old i j = (u : ℕ) × (u < (s.flist i).nfiles) × ((s1.flist i).fents j ≡ (s.flist i).fents u)

    held : (i j p : ℕ) → ((s1.flist i).fents j).parent ≡ some p → Old i j → IsDirectory s1.flist p
    held i j p e w =
        del-IsDirectory ft slot p s in_list (λ d q. emptied d i w.0 w.1 (parent ∙ ap some (sym q)))
          (t.rooted.held i w.0 p w.1 parent)
      where
        parent : ((s.flist i).fents w.0).parent ≡ some p
        parent = ap (λ f. f.parent) (sym w.2) ∙ e

    lower :
        (j p : ℕ)
        → ((s1.flist ft_dir).fents j).parent ≡ some p
        → Old ft_dir j
        → t.rank p < t.rank ((s1.flist ft_dir).fents j).id
    lower j p e w = rw w.2 (t.rooted.lower w.0 p w.1 (ap (λ f. f.parent) (sym w.2) ∙ e))

    shallow : (j : ℕ) → Old ft_dir j → t.rank ((s1.flist ft_dir).fents j).id ≤ depth
    shallow j w = rw w.2 (t.shallow w.0 w.1)

-- A file that is not a directory may go in any case.
notdir-IsEmptied : (at : ℕ × ℕ) (s : Files) → IsFile ft_notdir s at → IsEmptied at s
unfolding IsEmptied is_in
notdir-IsEmptied at s w e = absurd (bool_off (ap (λ x. is_in ft_notdir x) (sym e) ∙ w.asked))
  where
    bool_off : (false ≡ true) → ⊥
    bool_off h = ground (arith, h)

unlinked-IsTree :
    (depth : ℕ) (made : Bool) (q : Option (ℕ × ℕ) × Files)
    → IsTree depth q.1
    → ((at : ℕ × ℕ) → q.0 ≡ some at → IsFile ft_notdir q.1 at)
    → Ends (IsTree depth) (unlinked made q)
unfolding unlinked Ends
unlinked-IsTree depth made (none, s) t file = t
unlinked-IsTree depth true (some at, s) t file =
    del-IsTree depth at.0 at.1 s (file at refl).inside (notdir-IsEmptied at s (file at refl)) t
unlinked-IsTree depth false (some at, s) t file = t

pub unlink_f-IsTree :
    (depth r : ℕ) (made : Bool) (s : Files)
    → IsTree depth s
    → Ends (IsTree depth) (unlink_f (suc (suc depth)) r made s)
unfolding unlink_f
unlink_f-IsTree depth r made s t =
    Ends-bind (IsGot ft_notdir (find_file ft_notdir r s) s) (IsTree depth) _ _
      (get_fname-IsGot depth ft_notdir r s t)
      (λ q w. unlinked-IsTree depth made q (same-IsTree depth s q.1 t w.same) w.file)

dir_removed-IsTree :
    (depth : ℕ) (made : Bool) (q : Option (ℕ × ℕ) × Files)
    → IsTree depth q.1
    → ((at : ℕ × ℕ) → q.0 ≡ some at → IsFile ft_dirm q.1 at)
    → ((at : ℕ × ℕ) → q.0 ≡ some at → made ≡ true → IsEmptied at q.1)
    → Ends (IsTree depth) (dir_removed made q)
unfolding dir_removed Ends
dir_removed-IsTree depth made (none, s) t file emptied = t
dir_removed-IsTree depth true (some at, s) t file emptied =
    subst (λ i. IsTree depth (del_from_flist i at.1 s)) typed
      (del-IsTree depth at.0 at.1 s (file at refl).inside (emptied at refl refl) t)
  where
    typed : at.0 ≡ ft_dir
    typed = dirm_only at.0 (file at refl).typed (file at refl).asked
dir_removed-IsTree depth false (some at, s) t file emptied = t

-- From a forest of directories of a depth, with fuel for two levels more, `rmdir_f` ends in a
-- forest of that depth, if the kernel does not remove a directory that an entry of the lists is in.
pub rmdir_f-IsTree :
    (depth r : ℕ) (made : Bool) (s : Files)
    → IsTree depth s
    → ((at : ℕ × ℕ) → find_file ft_dirm r s ≡ some at → made ≡ true → IsEmptied at s)
    → Ends (IsTree depth) (rmdir_f (suc (suc depth)) r made s)
unfolding rmdir_f IsEmptied fent_at
rmdir_f-IsTree depth r made s t emptied =
    Ends-bind (IsGot ft_dirm (find_file ft_dirm r s) s) (IsTree depth) _ _
      (get_fname-IsGot depth ft_dirm r s t)
      (λ q w. dir_removed-IsTree depth made q (same-IsTree depth s q.1 t w.same) w.file (λ at e m.
        subst
          (λ l.
            at.0 ≡ ft_dir
            → (i j : ℕ) → j < (l i).nfiles
            → ((l i).fents j).parent ≢ some ((l at.0).fents at.1).id)
          (sym w.same.lists) (emptied at (w.drawn at e) m)))
