-- ===== src/Fsstress/Rename/Moved.antt =====
-- A rename ends and keeps the lists and the cache well formed, in each of its modes.
use longan_chkout.Base.{
  ℕ, suc, ◌<◌, ◌≡◌, refl, subst, ◌∙◌, sym, ap, Bool, true, false, Option, arith,
}
use longan_chkout.Fsstress.Files.{Fent, Files, ft_dir, set_flist, add_to_flist, del_from_flist}
use longan_chkout.Fsstress.Files.WellFormed.{
  IsWellFormed, add_to_flist-IsWellFormed, del_from_flist-IsWellFormed, del-nameseq,
}
use longan_chkout.Fsstress.Tree.{fix_parent, fents_ancestor_check}
use longan_chkout.Fsstress.Tree.Ranked.{
  IsRooted, HasParent, IsAnswered, fents_ancestor_check-IsAnswered,
}
use longan_chkout.Fsstress.Operations.{fent_at}
use longan_chkout.Fsstress.Operations.Kept.{IsTree, Ends, IsSame, same-IsTree, tree-HasParent}
use longan_chkout.Fsstress.Operations.Made.{IsNew}
use longan_chkout.Fsstress.Operations.Removed.{del-entry}
use longan_chkout.Fsstress.Rename.{
  Mode, plain, noreplace, exchange, whiteout, set_xattr_counter, fix_children, exchanged, moved,
}

-- The second state has the first's files under the same identifiers.
pub record IsRelabelled (s s1 : Files) : Type 0 where
  pub files : (ft : ℕ) → (s1.flist ft).nfiles ≡ (s.flist ft).nfiles
  pub slots : (ft : ℕ) → (s1.flist ft).nslots ≡ (s.flist ft).nslots
  pub ids : (ft j : ℕ) → ((s1.flist ft).fents j).id ≡ ((s.flist ft).fents j).id
  pub cache : s1.dcache ≡ s.dcache
  pub names : s1.nameseq ≡ s.nameseq

pub relabelled-IsWellFormed : (s s1 : Files) → IsRelabelled s s1 → IsWellFormed s → IsWellFormed s1
relabelled-IsWellFormed s s1 q v = record {
  fits = λ ft. rw (q.files ft, q.slots ft) (v.fits ft);
  fresh = λ ft j l. rw (q.ids ft j, q.names) (v.fresh ft j (rw (q.files ft) at l));
  unique = λ ft i j l m e.
      v.unique ft i j (rw (q.files ft) at l) (rw (q.files ft) at m)
        (sym (q.ids ft i) ∙ e ∙ q.ids ft j);
  inside = λ h t e. rw (q.files ft_dir) (v.inside h t (ap (λ c. c h) (sym q.cache) ∙ e));
  hashed = λ h t e. rw (q.ids ft_dir t) (v.hashed h t (ap (λ c. c h) (sym q.cache) ∙ e));
}

IsRelabelled-twice : (s s1 s2 : Files) → IsRelabelled s s1 → IsRelabelled s1 s2 → IsRelabelled s s2
IsRelabelled-twice s s1 s2 q w = record {
  files = λ ft. w.files ft ∙ q.files ft;
  slots = λ ft. w.slots ft ∙ q.slots ft;
  ids = λ ft j. w.ids ft j ∙ q.ids ft j;
  cache = w.cache ∙ q.cache;
  names = w.names ∙ q.names;
}

fix_children-IsRelabelled :
    (ft oldid id : ℕ) (swap : Bool) (s : Files) → IsRelabelled s (fix_children ft oldid id swap s)
unfolding fix_children fix_parent
fix_children-IsRelabelled ft oldid id swap s = record {
  files = λ i. ground arith;
  slots = λ i. ground arith;
  ids = λ i j. ground arith;
  cache = ground arith;
  names = ground arith;
}

set_xattr_counter-IsRelabelled :
    (at : ℕ × ℕ) (n : ℕ) (s : Files) → IsRelabelled s (set_xattr_counter at n s)
unfolding set_xattr_counter set_flist fent_at
set_xattr_counter-IsRelabelled at n s = record {
  files = λ i. ground arith;
  slots = λ i. ground arith;
  ids = λ i j. ground arith;
  cache = refl;
  names = refl;
}

pub exchanged-IsWellFormed :
    (src dst : ℕ × ℕ) (s : Files) → IsWellFormed s → IsWellFormed (exchanged src dst s)
unfolding exchanged
exchanged-IsWellFormed src dst s v =
    relabelled-IsWellFormed s _
      (IsRelabelled-twice s _ _
        (fix_children-IsRelabelled src.0 (fent_at src s).id (fent_at dst s).id true s)
        (IsRelabelled-twice _ _ _ (set_xattr_counter-IsRelabelled src _ _)
          (set_xattr_counter-IsRelabelled dst _ _)))
      v

pub relabelled-IsNew : (id : ℕ) (s s1 : Files) → IsRelabelled s s1 → IsNew id s → IsNew id s1
unfolding IsNew
relabelled-IsNew id s s1 q new ft j l e = new ft j (rw (q.files ft) at l) (sym (q.ids ft j) ∙ e)

del-IsNew :
    (id ft slot : ℕ) (s : Files)
    → slot < (s.flist ft).nfiles
    → IsNew id s
    → IsNew id (del_from_flist ft slot s)
unfolding IsNew
del-IsNew id ft slot s in_list new i j l e = gone (del-entry ft slot i j s in_list l)
  where
    gone :
        (u : ℕ) × (u < (s.flist i).nfiles)
          × (((del_from_flist ft slot s).flist i).fents j ≡ (s.flist i).fents u)
        → ⊥
    gone w = new i w.0 w.1 (ap (λ f. f.id) (sym w.2) ∙ e)

-- The new entry over the old list, and over the list without the old entry.
add_over :
    (ft : ℕ) (fep : Fent) (s s1 : Files)
    → IsRelabelled s s1
    → fep.id < s.nameseq
    → IsNew fep.id s
    → IsWellFormed s
    → IsWellFormed (add_to_flist ft fep s1)
add_over ft fep s s1 q below new v =
    add_to_flist-IsWellFormed ft fep s1 (rw q.names below)
      (unfold IsNew in (relabelled-IsNew fep.id s s1 q new) ft) (relabelled-IsWellFormed s s1 q v)

replace_over :
    (ft slot : ℕ) (fep : Fent) (s s1 : Files)
    → IsRelabelled s s1
    → slot < (s.flist ft).nfiles
    → fep.id < s.nameseq
    → IsNew fep.id s
    → IsWellFormed s
    → IsWellFormed (add_to_flist ft fep (del_from_flist ft slot s1))
unfolding IsNew
replace_over ft slot fep s s1 q in_list below new v =
    add_to_flist-IsWellFormed ft fep (del_from_flist ft slot s1)
      (rw (del-nameseq ft slot s1, q.names) below)
      (del-IsNew fep.id ft slot s1 in_list1 (relabelled-IsNew fep.id s s1 q new) ft)
      (del_from_flist-IsWellFormed ft slot s1 in_list1 (relabelled-IsWellFormed s s1 q v))
  where
    in_list1 : slot < (s1.flist ft).nfiles
    in_list1 = rw (q.files ft) in_list

pub moved-IsWellFormed :
    (mode : Mode) (src : ℕ × ℕ) (id : ℕ) (parid : Option ℕ) (s : Files)
    → src.1 < (s.flist src.0).nfiles
    → id < s.nameseq
    → IsNew id s
    → IsWellFormed s
    → IsWellFormed (moved mode src id parid s)
unfolding moved
moved-IsWellFormed whiteout src id parid s l below new v =
    add_over src.0 _ s _
      (IsRelabelled-twice s _ _ (fix_children-IsRelabelled src.0 (fent_at src s).id id false s)
        (set_xattr_counter-IsRelabelled src 0 _))
      below new v
moved-IsWellFormed plain src id parid s l below new v =
    replace_over src.0 src.1 _ s _ (fix_children-IsRelabelled src.0 (fent_at src s).id id false s) l
      below new v
moved-IsWellFormed noreplace src id parid s l below new v =
    replace_over src.0 src.1 _ s _ (fix_children-IsRelabelled src.0 (fent_at src s).id id false s) l
      below new v
moved-IsWellFormed exchange src id parid s l below new v =
    replace_over src.0 src.1 _ s _ (fix_children-IsRelabelled src.0 (fent_at src s).id id false s) l
      below new v

-- The walk up from an entry of the tree, in a state of the same lists.
pub check-Ends :
    (depth a : ℕ) (at : ℕ × ℕ) (s s1 : Files)
    → IsTree depth s
    → IsSame s s1
    → at.1 < (s.flist at.0).nfiles
    → Ends (λ q. IsSame s q.1) (fents_ancestor_check (suc (suc depth)) (fent_at at s) a s1)
unfolding Ends
check-Ends depth a at s s1 t same l =
    rw w.ends (record { lists = w.lists ∙ same.lists; names = w.names ∙ same.names; kept = w.kept })
  where
    t1 : IsTree depth s1
    t1 = same-IsTree depth s s1 t same

    w : IsAnswered a (fent_at at s) s1 (fents_ancestor_check (suc (suc depth)) (fent_at at s) a s1)
    w =
        fents_ancestor_check-IsAnswered t.rank (suc depth) a (fent_at at s) s1 same.kept
          (subst (λ x. IsRooted t.rank x) (sym same.lists) t.rooted)
          (subst (λ x. HasParent t.rank x (suc depth) (fent_at at s)) (sym same.lists)
            (tree-HasParent depth s t at l))
