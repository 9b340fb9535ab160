-- ===== src/Fsstress/Operations/Made.antt =====
-- The operations that make a file: they end, and leave a tree that is at most one level deeper.
use longan_chkout.Base.{
  ℕ, suc, ◌+◌, ◌≤◌, ◌<◌, ◌≡◌, ◌≢◌, refl, subst, ◌∙◌, sym, ap, Bool, true, false, Option, none, some,
  List, arith, ◌==◌, if◌then◌else◌, ◌⊎◌, inl, inr, Bool-cases, tests,
}
use longan_chkout.Fsstress.Files.{Fent, Files, ft_dir, set_flist, add_to_flist}
use longan_chkout.Fsstress.Files.WellFormed.{add_to_flist-IsWellFormed}
use longan_chkout.Fsstress.Tree.{Part, part_of, add_part, find_file}
use longan_chkout.Fsstress.Tree.Chosen.{IsFile, dirm_only, find_file_sound}
use longan_chkout.Fsstress.Tree.Ranked.{IsDirectory, IsRooted}
use longan_chkout.Fsstress.Operations.{
  fent_at, ft_dirm, ft_notdir, parent_id, generate_fname, no_filename, record_file, make_file,
  link_to, link_f,
}
use longan_chkout.Fsstress.Operations.Kept.{
  IsTree, Ends, Ends-bind, Ends-map, IsSame, same-IsTree, same-IsFile, fent_to_name-Ends, IsGot,
  get_fname-IsGot,
}

-- A directory stays one when a list grows.
add-IsDirectory :
    (ft p : ℕ) (fep : Fent) (s : Files)
    → IsDirectory s.flist p
    → IsDirectory (add_to_flist ft fep s).flist p
unfolding add_to_flist set_flist
add-IsDirectory ft p fep s d = record {
  slot = d.slot;
  inside = ground (arith, d.inside);
  named = ground (arith, d.inside, d.named);
}

-- An entry of the grown list is the new one or one from before.
add-entry :
    (ft i j : ℕ) (fep : Fent) (s : Files)
    → j < ((add_to_flist ft fep s).flist i).nfiles
    → (((add_to_flist ft fep s).flist i).fents j ≡ fep)
      ⊎ ((j < (s.flist i).nfiles)
          × (((add_to_flist ft fep s).flist i).fents j ≡ (s.flist i).fents j))
unfolding add_to_flist set_flist
add-entry ft i j fep s l = elim (Bool-cases (i == ft)) [
  | inl here ↦ elim (Bool-cases (j == (s.flist ft).nfiles)) [
    | inl end ↦ inl (rw (here, end) refl)
    | inr before ↦ inr ((ground (arith, here, before, l)), old_one here before)
  ]
  | inr other ↦ inr ((ground (arith, other, l)), rw other refl)
]
  where
    old_one :
        (i == ft) ≡ true
        → (j == (s.flist ft).nfiles) ≡ false
        → ((add_to_flist ft fep s).flist i).fents j ≡ (s.flist i).fents j
    old_one here before = rw (here, before) (ap (λ x. (s.flist x).fents j) (sym same))
      where
        same : i ≡ ft
        same = omega (tests, here)

-- No entry has the identifier yet.
unfoldable pub IsNew : ℕ → Files → Type 0
IsNew id s = (ft j : ℕ) → j < (s.flist ft).nfiles → ((s.flist ft).fents j).id ≢ id

-- A new entry is of the rank that no other reaches.
new_rank : (ℕ → ℕ) → ℕ → ℕ → ℕ → ℕ
new_rank rank depth id i = if i == id then suc depth else rank i

add-IsRooted :
    (depth ft : ℕ) (fep : Fent) (s : Files) (t : IsTree depth s)
    → IsNew fep.id s
    → ((p : ℕ) → fep.parent ≡ some p → IsDirectory s.flist p)
    → IsRooted (new_rank t.rank depth fep.id) (add_to_flist ft fep s).flist
unfolding IsNew new_rank
add-IsRooted depth ft fep s t new above = record {
  held = λ i j p l e. add-IsDirectory ft p fep s (parent i j p l e);
  lower = λ j p l e. lower j p l e (parent ft_dir j p l e);
}
  where
    s1 : Files
    s1 = add_to_flist ft fep s

    parent :
        (i j p : ℕ)
        → j < (s1.flist i).nfiles
        → ((s1.flist i).fents j).parent ≡ some p
        → IsDirectory s.flist p
    parent i j p l e = elim (add-entry ft i j fep s l) [
      | inl q ↦ above p (ap (λ f. f.parent) (sym q) ∙ e)
      | inr o ↦ t.rooted.held i j p o.0 (ap (λ f. f.parent) (sym o.1) ∙ e)
    ]

    lower :
        (j p : ℕ)
        → j < (s1.flist ft_dir).nfiles
        → ((s1.flist ft_dir).fents j).parent ≡ some p
        → IsDirectory s.flist p
        → new_rank t.rank depth fep.id p
          < new_rank t.rank depth fep.id ((s1.flist ft_dir).fents j).id
    lower j p l e d = elim (add-entry ft ft_dir j fep s l) [
      | inl q ↦ rw q (low_new (rw d.named at (t.shallow d.slot d.inside)))
      | inr o ↦
          rw o.1
            (low_old (new ft_dir j o.0) (t.rooted.lower j p o.0 (ap (λ f. f.parent) (sym o.1) ∙ e)))
    ]
      where
        other : p ≢ fep.id
        other = λ e. new ft_dir d.slot d.inside (d.named ∙ e)

        low_new :
            t.rank p ≤ depth → new_rank t.rank depth fep.id p < new_rank t.rank depth fep.id fep.id
        low_new r = ground (arith, other, r)

        low_old :
            {i : ℕ}
            → i ≢ fep.id
            → t.rank p < t.rank i
            → new_rank t.rank depth fep.id p < new_rank t.rank depth fep.id i
        low_old o r = ground (arith, other, o, r)

add-IsTree :
    (depth ft : ℕ) (fep : Fent) (s : Files)
    → IsTree depth s
    → fep.id < s.nameseq
    → IsNew fep.id s
    → ((p : ℕ) → fep.parent ≡ some p → IsDirectory s.flist p)
    → IsTree (suc depth) (add_to_flist ft fep s)
unfolding IsNew new_rank
add-IsTree depth ft fep s t below new above = record {
  rank = new_rank t.rank depth fep.id;
  formed = add_to_flist-IsWellFormed ft fep s below (new ft) t.formed;
  rooted = add-IsRooted depth ft fep s t new above;
  shallow = λ j l. elim (add-entry ft ft_dir j fep s l) [
    | inl q ↦ rw q (ground arith)
    | inr o ↦ rw o.1 (shallow_old (t.shallow j o.0))
  ];
}
  where
    shallow_old : {i : ℕ} → t.rank i ≤ depth → new_rank t.rank depth fep.id i ≤ suc depth
    shallow_old l = ground (arith, l)

-- A tree of a depth has also a greater one.
pub deeper-IsTree : (depth : ℕ) (s : Files) → IsTree depth s → IsTree (suc depth) s
deeper-IsTree depth s t = record {
  rank = t.rank;
  formed = t.formed;
  rooted = t.rooted;
  shallow = λ j l. omega (arith, t.shallow j l);
}

-- The state with the next identifier taken.
unfoldable pub taken : Files → Files
taken s = record s { nameseq = s.nameseq + 1 }

pub taken-IsTree : (depth : ℕ) (s : Files) → IsTree depth s → IsTree depth (taken s)
unfolding taken
taken-IsTree depth s t = record {
  rank = t.rank;
  formed = record {
    fits = t.formed.fits;
    fresh = λ ft j l. omega (arith, t.formed.fresh ft j l);
    unique = t.formed.unique;
    inside = t.formed.inside;
    hashed = t.formed.hashed;
  };
  rooted = t.rooted;
  shallow = t.shallow;
}

add_part-state : (q : Part) (w : Option (List Part) × Files) → (add_part q w).1 ≡ w.1
unfolding add_part
add_part-state q (none, s) = refl
add_part-state q (some path, s) = refl

pub generate_fname-Ends :
    (depth : ℕ) (dir : Option (ℕ × ℕ)) (ft : ℕ) (s : Files)
    → IsTree depth s
    → ((at : ℕ × ℕ) → dir ≡ some at → IsFile ft_dirm s at)
    → Ends (λ q. IsSame (taken s) q.1) (generate_fname (suc (suc depth)) dir ft s)
unfolding generate_fname Ends taken
generate_fname-Ends depth none ft s t file = record {
  lists = refl;
  names = refl;
  kept = (taken-IsTree depth s t).formed;
}
generate_fname-Ends depth (some at) ft s t file =
    Ends-bind (λ q. IsSame (taken s) q.1) (λ q. IsSame (taken s) q.1) _ _
      (fent_to_name-Ends depth (taken s) ft_dir at (taken-IsTree depth s t) (file at refl).inside)
      (λ q same. rw (add_part-state (part_of ft s.nameseq s) q) same)

pub no_filename-Ends :
    (depth : ℕ) (v : Bool) (dir : Option (ℕ × ℕ)) (s : Files)
    → IsTree depth s
    → ((at : ℕ × ℕ) → dir ≡ some at → IsFile ft_dirm s at)
    → Ends (IsTree depth) (no_filename (suc (suc depth)) v dir s)
unfolding no_filename Ends
no_filename-Ends depth false dir s t file = t
no_filename-Ends depth true none s t file = t
no_filename-Ends depth true (some at) s t file =
    Ends-bind (λ q. IsSame s q.1) (IsTree depth) _ _
      (fent_to_name-Ends depth s ft_dir at t (file at refl).inside)
      (λ q same. same-IsTree depth s q.1 t same)

record_file-Ends :
    (depth : ℕ) (v made : Bool) (dir : Option (ℕ × ℕ)) (ft : ℕ) (fep : Fent)
    (q : Option (List Part) × Files)
    → IsTree depth q.1
    → ((at : ℕ × ℕ) → dir ≡ some at → IsFile ft_dirm q.1 at)
    → fep.id < q.1.nameseq
    → IsNew fep.id q.1
    → ((p : ℕ) → fep.parent ≡ some p → IsDirectory q.1.flist p)
    → Ends (IsTree (suc depth)) (record_file (suc (suc depth)) v dir made ft fep q)
unfolding record_file Ends
record_file-Ends depth v made dir ft fep (none, s) t file below new above =
    Ends-map (IsTree depth) (IsTree (suc depth)) _ (no_filename-Ends depth v dir s t file)
      (deeper-IsTree depth)
record_file-Ends depth v true dir ft fep (some path, s) t file below new above =
    add-IsTree depth ft fep s t below new above
record_file-Ends depth v false dir ft fep (some path, s) t file below new above =
    deeper-IsTree depth s t

-- The directory that is drawn is a parent.
pub parent_id-IsDirectory :
    (p : ℕ) (s : Files) (dir : Option (ℕ × ℕ))
    → ((at : ℕ × ℕ) → dir ≡ some at → IsFile ft_dirm s at)
    → parent_id dir s ≡ some p
    → IsDirectory s.flist p
unfolding parent_id fent_at
parent_id-IsDirectory p s none file e = ground (arith, e)
parent_id-IsDirectory p s (some at) file e = record {
  slot = at.1;
  inside = rw typed at ((file at refl).inside);
  named = ground (arith, typed, e);
}
  where
    typed : at.0 ≡ ft_dir
    typed = dirm_only at.0 (file at refl).typed (file at refl).asked

-- What a state has, one with the same lists and the next identifier taken has.
record_file-same :
    (depth : ℕ) (v made : Bool) (dir : Option (ℕ × ℕ)) (ft : ℕ) (fep : Fent) (s : Files)
    (q : Option (List Part) × Files)
    → IsTree depth s
    → ((at : ℕ × ℕ) → dir ≡ some at → IsFile ft_dirm s at)
    → fep.id ≡ s.nameseq
    → fep.parent ≡ parent_id dir s
    → IsSame (taken s) q.1
    → Ends (IsTree (suc depth)) (record_file (suc (suc depth)) v dir made ft fep q)
unfolding taken IsNew
record_file-same depth v made dir ft fep s q t file named above same =
    record_file-Ends depth v made dir ft fep q
      (same-IsTree depth (taken s) q.1 (taken-IsTree depth s t) same)
      (λ at e. same-IsFile ft_dirm s q.1 at same.lists (file at e))
      (rw same.names (omega (arith, named)))
      (λ i j l e. absurd (
        taken_id i j (subst (λ x. j < (x i).nfiles) same.lists l)
          (subst (λ x. ((x i).fents j).id ≡ fep.id) same.lists e)))
      (λ p e.
        subst (λ x. IsDirectory x p) (sym same.lists)
          (parent_id-IsDirectory p s dir file (sym above ∙ e)))
  where
    taken_id : (i j : ℕ) → j < (s.flist i).nfiles → ((s.flist i).fents j).id ≢ fep.id
    taken_id i j l e = omega (arith, t.formed.fresh i j l, e, named)

-- From a forest of directories of a depth, with fuel for two levels more, an operation that makes a
-- file ends, without a read through NULL, in a forest that is at most one level deeper, whether or
-- not the kernel makes the file and the operation prints.
pub make_file-IsTree :
    (depth ft r : ℕ) (v made : Bool) (s : Files)
    → IsTree depth s
    → Ends (IsTree (suc depth)) (make_file (suc (suc depth)) ft r v made s)
unfolding make_file
make_file-IsTree depth ft r v made s t =
    Ends-bind (λ q. IsSame (taken s) q.1) (IsTree (suc depth)) _ _
      (generate_fname-Ends depth (find_file ft_dirm r s) ft s t
        (λ at e. find_file_sound ft_dirm r s at e))
      (λ q same.
        record_file-same depth v made (find_file ft_dirm r s) ft _ s q t
          (λ at e. find_file_sound ft_dirm r s at e) refl refl same)

link_to-IsTree :
    (depth r : ℕ) (v made : Bool) (q : Option (ℕ × ℕ) × Files)
    → IsTree depth q.1
    → Ends (IsTree (suc depth)) (link_to (suc (suc depth)) r v made q)
unfolding link_to Ends
link_to-IsTree depth r v made (none, s) t = deeper-IsTree depth s t
link_to-IsTree depth r v made (some at, s) t =
    Ends-bind (λ q. IsSame (taken s) q.1) (IsTree (suc depth)) _ _
      (generate_fname-Ends depth (find_file ft_dirm r s) at.0 s t
        (λ at e. find_file_sound ft_dirm r s at e))
      (λ q same.
        record_file-same depth v made (find_file ft_dirm r s) at.0 _ s q t
          (λ at e. find_file_sound ft_dirm r s at e) refl refl same)

pub link_f-IsTree :
    (depth r r1 : ℕ) (v made : Bool) (s : Files)
    → IsTree depth s
    → Ends (IsTree (suc depth)) (link_f (suc (suc depth)) r r1 v made s)
unfolding link_f
link_f-IsTree depth r r1 v made s t =
    Ends-bind (IsGot ft_notdir (find_file ft_notdir r s) s) (IsTree (suc depth)) _ _
      (get_fname-IsGot depth ft_notdir r s t)
      (λ q w. link_to-IsTree depth r1 v made q (same-IsTree depth s q.1 t w.same))
