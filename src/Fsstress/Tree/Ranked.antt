-- ===== src/Fsstress/Tree/Ranked.antt =====
-- In a tree of directories without a cycle, the walks up to the root end.
use longan_chkout.Base.{
  ℕ, zero, suc, ◌≤◌, ◌<◌, ◌≡◌, ◌≢◌, refl, subst, ◌∙◌, sym, ap, Bool, true, false, Option, none,
  some, List, [], ◌∷◌, ◌++◌, arith, ◌==◌, inl, inr, Bool-cases, tests, ◌↔◌,
}
use longan_chkout.Base.Lists.{length, length-append}
use longan_chkout.Fsstress.Files.{Fent, Flist, Files, ft_dir, dirid_to_fent}
use longan_chkout.Fsstress.Files.WellFormed.{IsWellFormed}
use longan_chkout.Fsstress.Files.Cached.{
  find_slot_unique, dirid_to_fent_lem, dirid_to_fent-IsWellFormed, dirid_to_fent-same,
}
use longan_chkout.Fsstress.Tree.{
  Run, done, ◌>>=◌, Part, part_of, add_part, fent_to_name, fents_ancestor_check,
}

-- The identifier is that of a directory.
pub record IsDirectory (lists : ℕ → Flist) (p : ℕ) : Type 0 where
  pub slot : ℕ
  pub inside : slot < (lists ft_dir).nfiles
  pub named : ((lists ft_dir).fents slot).id ≡ p

-- Parents are directories, and `rank` falls on the way up.
pub record IsRooted (rank : ℕ → ℕ) (lists : ℕ → Flist) : Type 0 where
  pub held :
      (ft j p : ℕ)
      → j < (lists ft).nfiles
      → ((lists ft).fents j).parent ≡ some p
      → IsDirectory lists p
  pub lower :
      (j p : ℕ)
      → j < (lists ft_dir).nfiles
      → ((lists ft_dir).fents j).parent ≡ some p
      → rank p < rank ((lists ft_dir).fents j).id

-- The parent of the entry is a directory of a rank below `n`.
unfoldable pub HasParent : (ℕ → ℕ) → (ℕ → Flist) → ℕ → Fent → Type 0
HasParent rank lists n fep = (p : ℕ) → fep.parent ≡ some p → IsDirectory lists p × (rank p < n)

-- So has the parent's own.
parent-HasParent :
    (rank : ℕ → ℕ) (lists : ℕ → Flist) (n j : ℕ)
    → IsRooted rank lists
    → j < (lists ft_dir).nfiles
    → rank ((lists ft_dir).fents j).id < suc n
    → HasParent rank lists n ((lists ft_dir).fents j)
unfolding HasParent
parent-HasParent rank lists n j v l b p e =
    (v.held ft_dir j p l e, omega (arith, v.lower j p l e, b))

-- The search for a directory finds it.
pub dirid_to_fent-IsDirectory :
    (p : ℕ) (s : Files)
    → IsWellFormed s
    → (d : IsDirectory s.flist p) → (dirid_to_fent p s).0 ≡ some d.slot
dirid_to_fent-IsDirectory p s v d =
    dirid_to_fent_lem p s v ∙ find_slot_unique s p d.slot v d.inside d.named

-- The call ends with a path of at most `n` parts, and only the cache is another.
pub record IsNamed (n : ℕ) (s : Files) (run : Run (Option (List Part) × Files)) : Type 0 where
  pub path : List Part
  pub after : Files
  pub ends : run ≡ done (some path, after)
  pub short : length path ≤ n
  pub kept : IsWellFormed after
  pub lists : after.flist ≡ s.flist
  pub names : after.nameseq ≡ s.nameseq

fent_to_name-top :
    (n ft : ℕ) (fep : Fent) (s : Files)
    → fep.parent ≡ none
    → fent_to_name (suc n) ft fep s ≡ done (some (part_of ft fep.id s ∷ []), s)
unfolding fent_to_name
fent_to_name-top n ft fep s e = rw e refl

fent_to_name-step :
    (n ft p slot : ℕ) (fep : Fent) (s : Files)
    → fep.parent ≡ some p
    → (dirid_to_fent p s).0 ≡ some slot
    → fent_to_name (suc n) ft fep s ≡ (
        fent_to_name n ft_dir
          (((dirid_to_fent p s).1.flist ft_dir).fents slot)
          (dirid_to_fent p s).1
        >>= λ q. done (add_part (part_of ft fep.id s) q))
unfolding fent_to_name
fent_to_name-step n ft p slot fep s e q = ground (arith, e, q)

-- One more part behind a path.
add_part-IsNamed :
    (n ft : ℕ) (fep : Fent) (s s1 : Files) (run : Run (Option (List Part) × Files))
    → s1.flist ≡ s.flist
    → s1.nameseq ≡ s.nameseq
    → IsNamed n s1 run
    → IsNamed (suc n) s (run >>= λ q. done (add_part (part_of ft fep.id s) q))
unfolding add_part
add_part-IsNamed n ft fep s s1 run lists names w = record {
  path = w.path ++ (part_of ft fep.id s ∷ []);
  after = w.after;
  ends = rw w.ends refl;
  short = rw (length-append w.path (part_of ft fep.id s)) (omega (arith, w.short));
  kept = w.kept;
  lists = w.lists ∙ lists;
  names = w.names ∙ names;
}

fent_to_name-walk :
    (rank : ℕ → ℕ) (n ft : ℕ) (fep : Fent) (s : Files) (parent : Option ℕ)
    → fep.parent ≡ parent
    → IsWellFormed s
    → IsRooted rank s.flist
    → HasParent rank s.flist n fep
    → IsNamed (suc n) s (fent_to_name (suc n) ft fep s)
unfolding HasParent length
fent_to_name-walk rank n ft fep s none e v rooted a = record {
  path = part_of ft fep.id s ∷ [];
  after = s;
  ends = fent_to_name-top n ft fep s e;
  short = omega arith;
  kept = v;
  lists = refl;
  names = refl;
}
fent_to_name-walk rank zero ft fep s (some p) e v rooted a = absurd (omega (arith, (a p e).1))
fent_to_name-walk rank (suc m) ft fep s (some p) e v rooted a =
    rw (fent_to_name-step (suc m) ft p d.slot fep s e (dirid_to_fent-IsDirectory p s v d)) (
      add_part-IsNamed (suc m) ft fep s s1 _ same.0 same.1 (
        fent_to_name-walk rank m ft_dir ((s1.flist ft_dir).fents d.slot) s1 _ refl
          (dirid_to_fent-IsWellFormed p s v) (subst (λ l. IsRooted rank l) (sym same.0) rooted)
          (subst (λ l. HasParent rank l m ((l ft_dir).fents d.slot)) (sym same.0)
            (parent-HasParent rank s.flist m d.slot rooted d.inside (rw d.named (a p e).1)))))
  where
    d : IsDirectory s.flist p
    d = (a p e).0

    s1 : Files
    s1 = (dirid_to_fent p s).1

    same : (s1.flist ≡ s.flist) × (s1.nameseq ≡ s.nameseq)
    same = dirid_to_fent-same p s

pub fent_to_name-IsNamed :
    (rank : ℕ → ℕ) (n ft : ℕ) (fep : Fent) (s : Files)
    → IsWellFormed s
    → IsRooted rank s.flist
    → HasParent rank s.flist n fep
    → IsNamed (suc n) s (fent_to_name (suc n) ft fep s)
fent_to_name-IsNamed rank n ft fep s v rooted above =
    fent_to_name-walk rank n ft fep s fep.parent refl v rooted above

-- The identifier is that of a directory above the entry.
pub data IsBelow (lists : ℕ → Flist) (a : ℕ) : Fent → Type 0 where
  child : (fep : Fent) → fep.parent ≡ some a → IsBelow lists a fep
  deeper :
      (fep : Fent) (p : ℕ) (d : IsDirectory lists p)
      → fep.parent ≡ some p
      → IsBelow lists a ((lists ft_dir).fents d.slot)
      → IsBelow lists a fep

-- The call answers whether the entry is below the directory, and only the cache is another.
pub record IsAnswered (a : ℕ) (fep : Fent) (s : Files) (run : Run (Bool × Files)) : Type 0 where
  pub verdict : Bool
  pub after : Files
  pub ends : run ≡ done (verdict, after)
  pub right : (verdict ≡ true) ↔ IsBelow s.flist a fep
  pub kept : IsWellFormed after
  pub lists : after.flist ≡ s.flist
  pub names : after.nameseq ≡ s.nameseq

ancestor-step :
    (n p a slot : ℕ) (fep : Fent) (s : Files)
    → fep.parent ≡ some p
    → (p == a) ≡ false
    → (dirid_to_fent p s).0 ≡ some slot
    → fents_ancestor_check (suc n) fep a s
      ≡ fents_ancestor_check n
          (((dirid_to_fent p s).1.flist ft_dir).fents slot)
          a
          (dirid_to_fent p s).1
unfolding fents_ancestor_check
ancestor-step n p a slot fep s e f q = ground (arith, e, f, q)

ancestor-top :
    (n a : ℕ) (fep : Fent) (s : Files)
    → fep.parent ≡ none
    → fents_ancestor_check (suc n) fep a s ≡ done (false, s)
unfolding fents_ancestor_check
ancestor-top n a fep s e = ground (arith, e)

ancestor-here :
    (n p a : ℕ) (fep : Fent) (s : Files)
    → fep.parent ≡ some p
    → (p == a) ≡ true
    → fents_ancestor_check (suc n) fep a s ≡ done (true, s)
unfolding fents_ancestor_check
ancestor-here n p a fep s e f = ground (arith, e, f)

-- Nothing is above an entry at the top.
top-IsBelow : (lists : ℕ → Flist) (a : ℕ) (fep : Fent) → fep.parent ≡ none → IsBelow lists a fep → ⊥
top-IsBelow lists a _ e (child fep q) = ground (arith, e, q)
top-IsBelow lists a _ e (deeper fep p d q b) = ground (arith, e, q)

-- An entry that is not a child is below what its parent is below.
parent-IsBelow :
    (s : Files) (a p : ℕ) (fep : Fent) (d : IsDirectory s.flist p)
    → IsWellFormed s
    → fep.parent ≡ some p
    → p ≢ a
    → IsBelow s.flist a fep
    → IsBelow s.flist a ((s.flist ft_dir).fents d.slot)
parent-IsBelow s a p _ d v e o (child fep q) = absurd (o (ground (arith, e, q)))
parent-IsBelow s a p _ d v e o (deeper fep u f q b) =
    subst (λ i. IsBelow s.flist a ((s.flist ft_dir).fents i)) same b
  where
    up : u ≡ p
    up = ground (arith, e, q)

    same : f.slot ≡ d.slot
    same = v.unique ft_dir f.slot d.slot f.inside d.inside (f.named ∙ up ∙ sym d.named)

ancestor-walk :
    (rank : ℕ → ℕ) (n a : ℕ) (fep : Fent) (s : Files) (parent : Option ℕ)
    → fep.parent ≡ parent
    → IsWellFormed s
    → IsRooted rank s.flist
    → HasParent rank s.flist n fep
    → IsAnswered a fep s (fents_ancestor_check (suc n) fep a s)
unfolding HasParent
ancestor-walk rank n a fep s none e v rooted above = record {
  verdict = false;
  after = s;
  ends = ancestor-top n a fep s e;
  right = ((λ q. ground (arith, q)), (λ b. absurd (top-IsBelow s.flist a fep e b)));
  kept = v;
  lists = refl;
  names = refl;
}
ancestor-walk rank zero a fep s (some p) e v rooted above = absurd (omega (arith, (above p e).1))
ancestor-walk rank (suc m) a fep s (some p) e v rooted above = elim (Bool-cases (p == a)) [
  | inl here ↦ record {
    verdict = true;
    after = s;
    ends = ancestor-here (suc m) p a fep s e here;
    right = ((λ q. child fep (e ∙ ap some (omega (tests, here)))), (λ b. refl));
    kept = v;
    lists = refl;
    names = refl;
  }
  | inr on ↦ passed on (
      ancestor-walk rank m a ((s1.flist ft_dir).fents d.slot) s1 _ refl
        (dirid_to_fent-IsWellFormed p s v) (subst (λ l. IsRooted rank l) (sym same.0) rooted)
        (subst (λ l. HasParent rank l m ((l ft_dir).fents d.slot)) (sym same.0)
          (parent-HasParent rank s.flist m d.slot rooted d.inside (rw d.named (above p e).1))))
]
  where
    d : IsDirectory s.flist p
    d = (above p e).0

    s1 : Files
    s1 = (dirid_to_fent p s).1

    same : (s1.flist ≡ s.flist) × (s1.nameseq ≡ s.nameseq)
    same = dirid_to_fent-same p s

    passed :
        (p == a) ≡ false
        → IsAnswered a
            ((s1.flist ft_dir).fents d.slot)
            s1
            (fents_ancestor_check (suc m) ((s1.flist ft_dir).fents d.slot) a s1)
        → IsAnswered a fep s (fents_ancestor_check (suc (suc m)) fep a s)
    passed on w = record {
      verdict = w.verdict;
      after = w.after;
      ends =
          ancestor-step (suc m) p a d.slot fep s e on (dirid_to_fent-IsDirectory p s v d) ∙ w.ends;
      right = (
        (λ q. deeper fep p d e (below (w.right.0 q))),
        (λ b. w.right.1 (below_again (parent-IsBelow s a p fep d v e (omega (tests, on)) b))),
      );
      kept = w.kept;
      lists = w.lists ∙ same.0;
      names = w.names ∙ same.1;
    }
      where
        below :
            IsBelow s1.flist a ((s1.flist ft_dir).fents d.slot)
            → IsBelow s.flist a ((s.flist ft_dir).fents d.slot)
        below b = subst (λ l. IsBelow l a ((l ft_dir).fents d.slot)) same.0 b

        below_again :
            IsBelow s.flist a ((s.flist ft_dir).fents d.slot)
            → IsBelow s1.flist a ((s1.flist ft_dir).fents d.slot)
        below_again b = subst (λ l. IsBelow l a ((l ft_dir).fents d.slot)) (sym same.0) b

pub fents_ancestor_check-IsAnswered :
    (rank : ℕ → ℕ) (n a : ℕ) (fep : Fent) (s : Files)
    → IsWellFormed s
    → IsRooted rank s.flist
    → HasParent rank s.flist n fep
    → IsAnswered a fep s (fents_ancestor_check (suc n) fep a s)
fents_ancestor_check-IsAnswered rank n a fep s v rooted above =
    ancestor-walk rank n a fep s fep.parent refl v rooted above
