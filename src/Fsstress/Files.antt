-- ===== src/Fsstress/Files.antt =====
-- fsstress.c: the lists of files by type (`flist`) and the cache of directories (`dcache`). An
-- array is the map from its indices to its entries, those behind `nfiles` included.
pub mod WellFormed
pub mod Cached
use longan_chkout.Base.{
  ℕ, zero, suc, ◌+◌, ◌-◌, ◌%◌, Bool, true, false, Option, none, some, ◌==◌, if◌then◌else◌,
}

-- `fent_t`; `parent` is `none` for -1.
pub record Fent : Type 0 where
  pub id : ℕ
  pub parent : Option ℕ
  pub xattr_counter : ℕ

-- `flist_t` without its tag, which `tag_of` gives.
pub record Flist : Type 0 where
  pub nfiles : ℕ
  pub nslots : ℕ
  pub fents : ℕ → Fent

abbrev pub ft_dir : ℕ
ft_dir = 0

abbrev pub ft_reg : ℕ
ft_reg = 1

abbrev pub ft_sym : ℕ
ft_sym = 2

abbrev pub ft_dev : ℕ
ft_dev = 3

abbrev pub ft_rtf : ℕ
ft_rtf = 4

abbrev pub ft_nft : ℕ
ft_nft = 5

abbrev pub flist_slot_incr : ℕ
flist_slot_incr = 16

abbrev pub ndcache : ℕ
ndcache = 64

-- The globals of a process: `dcache` has `none` for -1.
pub record Files : Type 0 where
  pub flist : ℕ → Flist
  pub dcache : ℕ → Option ℕ
  pub nameseq : ℕ
  pub namerand : ℕ

unfoldable pub set_flist : ℕ → Flist → Files → Files
set_flist ft l s = record s { flist = λ i. if i == ft then l else s.flist i }

unfoldable pub add_to_flist : ℕ → Fent → Files → Files
unfolding set_flist
add_to_flist ft f s =
    let l = s.flist ft in
    set_flist ft
      (record {
        nfiles = l.nfiles + 1;
        nslots = if l.nfiles == l.nslots then l.nslots + flist_slot_incr else l.nslots;
        fents = λ j. if j == l.nfiles then f else l.fents j;
      })
      s

-- Whether an entry of the cache is for the directory.
unfoldable pub is_for : ℕ → (ℕ → Fent) → Option ℕ → Bool
is_for dirid fents none = false
is_for dirid fents (some slot) = (fents slot).id == dirid

unfoldable pub dcache_init : Files → Files
dcache_init s = record s { dcache = λ h. none }

unfoldable pub dcache_enter : ℕ → ℕ → Files → Files
dcache_enter dirid slot s = record s {
  dcache = λ h. if h == dirid % ndcache then some slot else s.dcache h;
}

unfoldable pub dcache_lookup : ℕ → Files → Option ℕ
unfolding is_for
dcache_lookup dirid s =
    let held = s.dcache (dirid % ndcache) in
    if is_for dirid (s.flist ft_dir).fents held then held else none

unfoldable pub dcache_purge : ℕ → Files → Files
unfolding is_for
dcache_purge dirid s =
    if is_for dirid (s.flist ft_dir).fents (s.dcache (dirid % ndcache))
    then record s { dcache = λ h. if h == dirid % ndcache then none else s.dcache h }
    else s

-- `if (ft == FT_DIR) dcache_purge(id)`
unfoldable pub purge_dir : ℕ → ℕ → Files → Files
unfolding dcache_purge
purge_dir ft id s = if ft == ft_dir then dcache_purge id s else s

-- The last entry moves over the deleted one, unless that is the last.
unfoldable pub del_from_flist : ℕ → ℕ → Files → Files
unfolding purge_dir set_flist
del_from_flist ft slot s =
    let l = s.flist ft in
    let s1 = purge_dir ft (l.fents slot).id s in
    if slot + 1 == l.nfiles
    then set_flist ft (record l { nfiles = l.nfiles - 1 }) s1
    else set_flist ft
        (record l {
          nfiles = l.nfiles - 1;
          fents = λ j. if j == slot then l.fents (l.nfiles - 1) else l.fents j;
        })
        (purge_dir ft (l.fents (l.nfiles - 1)).id s1)

-- The first of `n` entries from `i` on with the identifier.
unfoldable pub find_slot : (ℕ → Fent) → ℕ → ℕ → ℕ → Option ℕ
find_slot fents dirid i zero = none
find_slot fents dirid i (suc n) =
    if (fents i).id == dirid then some i else find_slot fents dirid (i + 1) n

-- What the search gives goes to the cache.
unfoldable pub enter_found : ℕ → Option ℕ → Files → Option ℕ × Files
unfolding dcache_enter
enter_found dirid none s = (none, s)
enter_found dirid (some slot) s = (some slot, dcache_enter dirid slot s)

unfoldable pub or_search : ℕ → Option ℕ → Files → Option ℕ × Files
unfolding enter_found find_slot
or_search dirid (some slot) s = (some slot, s)
or_search dirid none s =
    enter_found dirid (find_slot (s.flist ft_dir).fents dirid 0 (s.flist ft_dir).nfiles) s

-- The slot of a directory, from the cache or else by search.
unfoldable pub dirid_to_fent : ℕ → Files → Option ℕ × Files
unfolding or_search dcache_lookup
dirid_to_fent dirid s = or_search dirid (dcache_lookup dirid s) s
