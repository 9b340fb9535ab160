-- ===== src/Fsstress/Operations/Kept.antt =====
-- The tree of directories through the operations: they end, and leave a tree.
use longan_chkout.Base.{
  ℕ, suc, ◌≤◌, ◌<◌, ◌≡◌, refl, subst, sym, ap, Option, none, some, List, arith,
}
use longan_chkout.Fsstress.Files.{Files, ft_dir}
use longan_chkout.Fsstress.Files.WellFormed.{IsWellFormed}
use longan_chkout.Fsstress.Tree.{
  Run, done, crashed, cut_off, ◌>>=◌, Part, fent_to_name, find_file, only_named, named_file,
  get_fname,
}
use longan_chkout.Fsstress.Tree.Chosen.{IsFile, find_file_sound}
use longan_chkout.Fsstress.Tree.Ranked.{
  IsDirectory, IsRooted, HasParent, IsNamed, fent_to_name-IsNamed,
}
use longan_chkout.Fsstress.Operations.{fent_at}

-- A well-formed state, whose directories are a forest of at most `depth` levels below the top.
pub record IsTree (depth : ℕ) (s : Files) : Type 0 where
  pub rank : ℕ → ℕ
  pub formed : IsWellFormed s
  pub rooted : IsRooted rank s.flist
  pub shallow : (j : ℕ) → j < (s.flist ft_dir).nfiles → rank ((s.flist ft_dir).fents j).id ≤ depth

-- The call ends, with a result that has the property.
unfoldable pub Ends {ℓ} : {A : Type ℓ} → (A → Type 0) → Run A → Type 0
Ends P (done a) = P a
Ends P crashed = ⊥
Ends P cut_off = ⊥

pub Ends-bind {ℓ κ} :
    {A : Type ℓ} {B : Type κ} (P : A → Type 0) (Q : B → Type 0) (m : Run A) (f : A → Run B)
    → Ends P m
    → ((a : A) → P a → Ends Q (f a))
    → Ends Q (m >>= f)
unfolding Ends
Ends-bind P Q (done a) f h k = k a h
Ends-bind P Q crashed f h k = absurd h
Ends-bind P Q cut_off f h k = absurd h

-- The lists and the names are those of `s`; the cache may be another.
pub record IsSame (s s1 : Files) : Type 0 where
  pub lists : s1.flist ≡ s.flist
  pub names : s1.nameseq ≡ s.nameseq
  pub kept : IsWellFormed s1

pub same-IsTree : (depth : ℕ) (s s1 : Files) → IsTree depth s → IsSame s s1 → IsTree depth s1
same-IsTree depth s s1 t same = record {
  rank = t.rank;
  formed = same.kept;
  rooted = subst (λ l. IsRooted t.rank l) (sym same.lists) t.rooted;
  shallow =
      subst (λ l. (j : ℕ) → j < (l ft_dir).nfiles → t.rank ((l ft_dir).fents j).id ≤ depth)
        (sym same.lists) t.shallow;
}

-- The parent of an entry of a tree is one of its directories.
pub tree-HasParent :
    (depth : ℕ) (s : Files) (t : IsTree depth s) (at : ℕ × ℕ)
    → at.1 < (s.flist at.0).nfiles
    → HasParent t.rank s.flist (suc depth) (fent_at at s)
unfolding HasParent fent_at
tree-HasParent depth s t at l p e = (d, low)
  where
    d : IsDirectory s.flist p
    d = t.rooted.held at.0 at.1 p l e

    deep : t.rank p ≤ depth
    deep = rw d.named at (t.shallow d.slot d.inside)

    low : t.rank p < suc depth
    low = omega (arith, deep)

named-Ends :
    (n : ℕ) (s : Files) (run : Run (Option (List Part) × Files))
    → IsNamed n s run
    → Ends (λ q. IsSame s q.1) run
unfolding Ends
named-Ends n s run w = rw w.ends (record { lists = w.lists; names = w.names; kept = w.kept })

-- In a tree, the name of a file is found.
pub fent_to_name-Ends :
    (depth : ℕ) (s : Files) (ft : ℕ) (at : ℕ × ℕ)
    → IsTree depth s
    → at.1 < (s.flist at.0).nfiles
    → Ends (λ q. IsSame s q.1) (fent_to_name (suc (suc depth)) ft (fent_at at s) s)
fent_to_name-Ends depth s ft at t l =
    named-Ends (suc (suc depth)) s (fent_to_name (suc (suc depth)) ft (fent_at at s) s) (
      fent_to_name-IsNamed t.rank (suc depth) ft (fent_at at s) s t.formed t.rooted
        (tree-HasParent depth s t at l))

pub same-IsFile :
    (which : ℕ) (s s1 : Files) (at : ℕ × ℕ)
    → s1.flist ≡ s.flist
    → IsFile which s at
    → IsFile which s1 at
same-IsFile which s s1 at same w = record {
  asked = w.asked;
  typed = w.typed;
  inside = subst (λ l. at.1 < (l at.0).nfiles) (sym same) w.inside;
}

-- What `get_fname` leaves: a file of the types, or nothing.
pub record IsGot (which : ℕ) (o : Option (ℕ × ℕ)) (s : Files) (q : Option (ℕ × ℕ) × Files)
    : Type 0 where
  pub same : IsSame s q.1
  pub file : (at : ℕ × ℕ) → q.0 ≡ some at → IsFile which q.1 at
  pub drawn : (at : ℕ × ℕ) → q.0 ≡ some at → o ≡ some at

only_named-file :
    (at u : ℕ × ℕ) (q : Option (List Part) × Files) → (only_named at q).0 ≡ some u → at ≡ u
unfolding only_named
only_named-file at u (none, s) e = ground (arith, e)
only_named-file at u (some path, s) e = ground (arith, e)

only_named-state : (at : ℕ × ℕ) (q : Option (List Part) × Files) → (only_named at q).1 ≡ q.1
unfolding only_named
only_named-state at (none, s) = refl
only_named-state at (some path, s) = refl

named_file-IsGot :
    (depth which : ℕ) (o : Option (ℕ × ℕ)) (s : Files)
    → IsTree depth s
    → ((at : ℕ × ℕ) → o ≡ some at → IsFile which s at)
    → Ends (IsGot which o s) (named_file (suc (suc depth)) o s)
unfolding named_file Ends fent_at
named_file-IsGot depth which none s t file = record {
  same = record { lists = refl; names = refl; kept = t.formed };
  file = file;
  drawn = λ at e. e;
}
named_file-IsGot depth which (some at) s t file =
    Ends-bind (λ q. IsSame s q.1) (IsGot which (some at) s) _ _
      (fent_to_name-Ends depth s at.0 at t (file at refl).inside) (λ q same. rest q same)
  where
    rest :
        (q : Option (List Part) × Files) → IsSame s q.1 → IsGot which (some at) s (only_named at q)
    rest q same = record {
      same = rw (only_named-state at q) same;
      file = λ u f. rw (only_named-state at q) (
          subst (λ x. IsFile which q.1 x) (only_named-file at u q f)
            (same-IsFile which s q.1 at same.lists (file at refl)));
      drawn = λ u f. ap some (only_named-file at u q f);
    }

pub get_fname-IsGot :
    (depth which r : ℕ) (s : Files)
    → IsTree depth s
    → Ends (IsGot which (find_file which r s) s) (get_fname (suc (suc depth)) which r s)
unfolding get_fname
get_fname-IsGot depth which r s t =
    named_file-IsGot depth which (find_file which r s) s t (λ at e. find_file_sound which r s at e)

pub Ends-map {ℓ} :
    {A : Type ℓ} (P Q : A → Type 0) (m : Run A) → Ends P m → ((a : A) → P a → Q a) → Ends Q m
unfolding Ends
Ends-map P Q (done a) h k = k a h
Ends-map P Q crashed h k = h
Ends-map P Q cut_off h k = h
