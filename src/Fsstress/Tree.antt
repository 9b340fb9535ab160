-- ===== src/Fsstress/Tree.antt =====
-- fsstress.c: names of files and the tree of their directories. A path is the list of its parts,
-- each of which stands for the letter of the type, the identifier in hexadecimal and the padding.
pub mod Padding
pub mod Chosen
pub mod Ranked
use longan_chkout.Base.{
  ℕ, zero, suc, ◌+◌, ◌-◌, ◌/◌, ◌%◌, ◌^◌, Bool, true, false, ◌&&◌, Option, none, some, List, [], ◌∷◌,
  ◌++◌, ltb, ◌==◌, if◌then◌else◌,
}
use Prim.Native.Nat.{bit_xor}
use longan_chkout.Fsstress.Files.{Fent, Flist, Files, ft_dir, ft_nft, dirid_to_fent}

-- What a call ends in: a result, a read through NULL, or no fuel for a chain that does not end.
pub data Run {ℓ} (A : Type ℓ) : Type ℓ where
  done : A → Run A
  crashed : Run A
  cut_off : Run A

infixl 5 ◌>>=◌
abbrev pub ◌>>=◌ {ℓ κ} : {A : Type ℓ} {B : Type κ} → Run A → (A → Run B) → Run B
done a >>= f = f a
crashed >>= f = crashed
cut_off >>= f = cut_off

-- One component of a path, as `"%c%x"` and `namerandpad` write it.
pub record Part : Type 0 where
  pub kind : ℕ
  pub id : ℕ
  pub padlen : ℕ

abbrev pub name_max : ℕ
name_max = 255

-- The digits that `"%x"` writes for a number below `16 ^ n`.
unfoldable pub hex_digits : ℕ → ℕ → ℕ
hex_digits zero id = 0
hex_digits (suc n) id = 1 + (let rest = hex_digits n (id / 16) in if ltb id 16 then 0 else rest)

abbrev pub buckets : List ℕ
buckets = 2 ∷ 4 ∷ 8 ∷ 16 ∷ 32 ∷ 64 ∷ 128 ∷ name_max ∷ []

unfoldable pub nth : List ℕ → ℕ → ℕ
nth [] i = 0
nth (x ∷ l) zero = x
nth (x ∷ l) (suc i) = nth l i

-- The number of letters that follow a name of length `i`.
unfoldable pub namerandpad : ℕ → ℕ → ℕ → ℕ
unfolding nth
namerandpad namerand id i =
    let padmod = nth buckets (bit_xor id namerand % 8) + 1 - i in
    if namerand == 0 then 0 else if padmod == 0 then 0 else bit_xor id namerand % padmod

unfoldable pub part_of : ℕ → ℕ → Files → Part
unfolding namerandpad hex_digits
part_of ft id s = record {
  kind = ft;
  id = id;
  padlen = namerandpad s.namerand id (1 + hex_digits 8 id);
}

-- The path of an entry behind that of its parent, where that has one.
unfoldable pub add_part : Part → Option (List Part) × Files → Option (List Part) × Files
add_part q (none, s) = (none, s)
add_part q (some path, s) = (some (path ++ (q ∷ [])), s)

-- The path of an entry, with the caches on the way up; `none` is the return value 0.
unfoldable pub fent_to_name : ℕ → ℕ → Fent → Files → Run (Option (List Part) × Files)
unfolding dirid_to_fent part_of add_part
fent_to_name zero ft fep s = cut_off
fent_to_name (suc n) ft fep s = elim fep.parent [
  | none ↦ done (some (part_of ft fep.id s ∷ []), s)
  | some p ↦
      let r = dirid_to_fent p s in
      elim r.0 [
        | none ↦ done (none, r.1)
        | some slot ↦ fent_to_name n ft_dir ((r.1.flist ft_dir).fents slot) r.1 >>= λ q.
            done (add_part (part_of ft fep.id s) q)
      ]
]

-- Whether an entry has the identifier above it. The parent that is not in the list is read.
unfoldable pub fents_ancestor_check : ℕ → Fent → ℕ → Files → Run (Bool × Files)
unfolding dirid_to_fent
fents_ancestor_check zero fep dfep_id s = cut_off
fents_ancestor_check (suc n) fep dfep_id s = elim fep.parent [
  | none ↦ done (false, s)
  | some p ↦ elim (p == dfep_id) [
    | true ↦ done (true, s)
    | false ↦
        let r = dirid_to_fent p s in
        elim r.0 [
          | none ↦ crashed
          | some slot ↦ fents_ancestor_check n ((r.1.flist ft_dir).fents slot) dfep_id r.1
        ]
  ]
]

unfoldable pub new_parent : ℕ → ℕ → Bool → Option ℕ → Option ℕ
new_parent oldid newid swap none = none
new_parent oldid newid swap (some p) =
    if p == oldid then some newid else if swap && p == newid then some oldid else some p

-- Entries behind `nfiles` keep their parent.
unfoldable pub fix_parent : ℕ → ℕ → Bool → Files → Files
unfolding new_parent
fix_parent oldid newid swap s = record s {
  flist = λ ft.
      if ltb ft ft_nft
      then record (s.flist ft) {
        fents = λ j.
            let fep = (s.flist ft).fents j in
            if ltb j (s.flist ft).nfiles
            then record fep { parent = new_parent oldid newid swap fep.parent }
            else fep;
      }
      else s.flist ft;
}

-- `which & (1 << ft)`
unfoldable pub is_in : ℕ → ℕ → Bool
is_in which ft = which / 2 ^ ft % 2 == 1

-- The files of the types from `i` on, `n` of them, that `which` has.
unfoldable pub totalsum : ℕ → ℕ → ℕ → Files → ℕ
unfolding is_in
totalsum which i zero s = 0
totalsum which i (suc n) s =
    (if is_in which i then (s.flist i).nfiles else 0) + totalsum which (i + 1) n s

-- The type and the slot of the file with number `x`, `partialsum` of them being passed.
unfoldable pub nth_file : ℕ → ℕ → ℕ → ℕ → ℕ → Files → Option (ℕ × ℕ)
unfolding is_in
nth_file which x partialsum i zero s = none
nth_file which x partialsum i (suc n) s =
    let nfiles = (s.flist i).nfiles in
    let later =
      nth_file which x (if is_in which i then partialsum + nfiles else partialsum) (i + 1) n s in
    if is_in which i
    then if ltb x (partialsum + nfiles) then some (i, x - partialsum) else later
    else later

-- The file that `get_fname` finds, when its caller asks for no name.
unfoldable pub find_file : ℕ → ℕ → Files → Option (ℕ × ℕ)
unfolding totalsum nth_file
find_file which r s =
    let total = totalsum which 0 ft_nft s in
    if total == 0 then none else nth_file which (r % total) 0 0 ft_nft s

-- A file whose path is not found is not given to the caller.
unfoldable pub only_named : ℕ × ℕ → Option (List Part) × Files → Option (ℕ × ℕ) × Files
only_named at (none, s) = (none, s)
only_named at (some path, s) = (some at, s)

unfoldable pub named_file : ℕ → Option (ℕ × ℕ) → Files → Run (Option (ℕ × ℕ) × Files)
unfolding fent_to_name only_named
named_file fuel none s = done (none, s)
named_file fuel (some at) s =
    fent_to_name fuel at.0 ((s.flist at.0).fents at.1) s >>= λ q. done (only_named at q)

-- And with its name: `none` is the return value 0.
unfoldable pub get_fname : ℕ → ℕ → ℕ → Files → Run (Option (ℕ × ℕ) × Files)
unfolding find_file named_file
get_fname fuel which r s = named_file fuel (find_file which r s) s
