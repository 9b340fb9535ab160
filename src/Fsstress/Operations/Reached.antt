-- ===== src/Fsstress/Operations/Reached.antt =====
-- What a process of fsstress comes to, by any sequence of the operations that make and remove.
use longan_chkout.Base.{ℕ, zero, suc, ◌≡◌, Bool, true, some, arith}
use longan_chkout.Fsstress.Files.{Files, dcache_init}
use longan_chkout.Fsstress.Tree.{Run, done, find_file}
use longan_chkout.Fsstress.Operations.{ft_dirm, make_file, link_f, unlink_f, rmdir_f}
use longan_chkout.Fsstress.Operations.Kept.{IsTree, Ends}
use longan_chkout.Fsstress.Operations.Made.{make_file-IsTree, link_f-IsTree, deeper-IsTree}
use longan_chkout.Fsstress.Operations.Removed.{IsEmptied, unlink_f-IsTree, rmdir_f-IsTree}

-- The lists of a process before its first operation: static storage is zero.
unfoldable pub no_files : ℕ → Files
unfolding dcache_init
no_files namerand = dcache_init (record {
  flist = λ ft. record {
    nfiles = 0;
    nslots = 0;
    fents = λ j. record { id = 0; parent = some 0; xattr_counter = 0 };
  };
  dcache = λ h. some 0;
  nameseq = 0;
  namerand = namerand;
})

-- The states behind `n` operations, whose walks have fuel for `n + 2` levels.
pub data Reached (namerand : ℕ) : ℕ → Files → Type 0 where
  begun : Reached namerand zero (no_files namerand)
  made :
      (n : ℕ) (s s1 : Files) (ft r : ℕ) (v ok : Bool)
      → Reached namerand n s
      → make_file (suc (suc n)) ft r v ok s ≡ done s1
      → Reached namerand (suc n) s1
  linked :
      (n : ℕ) (s s1 : Files) (r r1 : ℕ) (v ok : Bool)
      → Reached namerand n s
      → link_f (suc (suc n)) r r1 v ok s ≡ done s1
      → Reached namerand (suc n) s1
  gone_file :
      (n : ℕ) (s s1 : Files) (r : ℕ) (ok : Bool)
      → Reached namerand n s
      → unlink_f (suc (suc n)) r ok s ≡ done s1
      → Reached namerand (suc n) s1
  removed :
      (n : ℕ) (s s1 : Files) (r : ℕ) (ok : Bool)
      → Reached namerand n s
      → ((at : ℕ × ℕ) → find_file ft_dirm r s ≡ some at → ok ≡ true → IsEmptied at s)
      → rmdir_f (suc (suc n)) r ok s ≡ done s1
      → Reached namerand (suc n) s1

no_files-IsTree : (namerand : ℕ) → IsTree zero (no_files namerand)
unfolding no_files dcache_init
no_files-IsTree namerand = record {
  rank = λ id. 0;
  formed = record {
    fits = λ ft. omega arith;
    fresh = λ ft j l. absurd (omega (arith, l));
    unique = λ ft i j l m e. absurd (omega (arith, l));
    inside = λ h slot e. ground (arith, e);
    hashed = λ h slot e. ground (arith, e);
  };
  rooted = record {
    held = λ ft j p l e. absurd (omega (arith, l));
    lower = λ j p l e. absurd (omega (arith, l));
  };
  shallow = λ j l. omega arith;
}

-- A call that ends in the state has what every end of it has.
ends_in : (P : Files → Type 0) (m : Run Files) (s : Files) → Ends P m → m ≡ done s → P s
unfolding Ends
ends_in P m s h e = rw e at h

-- Whatever the kernel answers, as long as it removes no directory with a file of the lists in it,
-- every sequence of operations that make, link, unlink and remove files leads from the empty lists
-- to well-formed lists and a well-formed cache, where each parent is a directory and the
-- directories form a forest with at most as many levels below the top as there were operations.
pub Reached-IsTree : (namerand n : ℕ) (s : Files) → Reached namerand n s → IsTree n s
Reached-IsTree namerand _ _ begun = no_files-IsTree namerand
Reached-IsTree namerand _ _ (made n s s1 ft r v ok h e) =
    ends_in (IsTree (suc n)) _ s1 (make_file-IsTree n ft r v ok s (Reached-IsTree namerand n s h)) e
Reached-IsTree namerand _ _ (linked n s s1 r r1 v ok h e) =
    ends_in (IsTree (suc n)) _ s1 (link_f-IsTree n r r1 v ok s (Reached-IsTree namerand n s h)) e
Reached-IsTree namerand _ _ (gone_file n s s1 r ok h e) =
    deeper-IsTree n s1
      (ends_in (IsTree n) _ s1 (unlink_f-IsTree n r ok s (Reached-IsTree namerand n s h)) e)
Reached-IsTree namerand _ _ (removed n s s1 r ok h k e) =
    deeper-IsTree n s1
      (ends_in (IsTree n) _ s1 (rmdir_f-IsTree n r ok s (Reached-IsTree namerand n s h) k) e)
