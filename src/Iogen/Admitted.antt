-- ===== src/Iogen/Admitted.antt =====
-- The files that `parse_cmdline` keeps are ones that a request can be placed in.
use longan_chkout.Base.{
  ℕ, zero, suc, ◌*◌, ◌≤◌, ◌<◌, ◌≡◌, refl, sym, ap, ◌∙◌, subst, true, false, List, [], ◌∷◌, Option,
  none, some, ltb, arith,
}
use longan_chkout.Base.Chain.{behind_test, under_test}
use mathlib.Core.Option.{some-injective}
use longan_chkout.Base.Lists.{get_elem?, Every, Every-append}
use longan_chkout.Iogen.{Options, OffsetMode, random, sequential, reverse, FileInfo, minlength_of}
use longan_chkout.Iogen.Files.{
  Found, riou_of, get_file_info, first_last, admit_file, kept_file, parse_files,
}
use longan_chkout.Iogen.Within.{IsReady}
use longan_chkout.Iogen.Progress.{IsEven}
use longan_chkout.Iogen.Requests.{AreReady}
use longan_chkout.Iogen.Total.{AreEven}

-- A regular file whose raw unit is between the limits; what `stat` fails for is left aside.
unfoldable pub IsPlain : ℕ → ℕ → Option ℕ → Options → Option Found → Type 0
unfolding riou_of
IsPlain bsize bbsize rawmult o none = Unit {0}
IsPlain bsize bbsize rawmult o (some found) =
    (found.is_regular ≡ true)
    × (0 < riou_of bsize bbsize rawmult found.opened)
    × (o.mintrans ≤ riou_of bsize bbsize rawmult found.opened)
    × (riou_of bsize bbsize rawmult found.opened ≤ o.maxtrans)

-- What a file needs for every request.
record IsServed (o : Options) (fptr : FileInfo) : Type 0 where
  ready : IsReady o fptr
  even : IsEven o fptr.f_iou (minlength_of o 1)
  raw_even : IsEven o fptr.f_riou 1

first_last_le : (mode : OffsetMode) (n : ℕ) → first_last mode n ≤ n
unfolding first_last
first_last_le sequential n = omega arith
first_last_le reverse n = omega arith
first_last_le random n = omega arith

not_short : (a b : ℕ) → ltb a b ≡ false → b ≤ a
not_short a b e = ground (arith, e)

admit_file-fields :
    (o : Options) (fptr fptr' : FileInfo)
    → admit_file o fptr ≡ some fptr'
    → (o.maxtrans ≤ fptr.f_length)
      × (record fptr { f_lastoffset = first_last o.offset_mode fptr.f_length; f_lastlength = 0 }
          ≡ fptr')
unfolding admit_file
admit_file-fields o fptr fptr' e =
    let (_, e1) = behind_test (ltb fptr.f_length o.mintrans) _ fptr' e in
    let (wide, e2) = behind_test (ltb fptr.f_length o.maxtrans) _ fptr' e1 in
    let (_, e3) = under_test (ltb 0 fptr.f_length) _ fptr' e2 in
    (not_short fptr.f_length o.maxtrans wide, some-injective _ _ e3)

of_one : (o : Options) (m : ℕ) → m ≡ 1 → minlength_of o m ≡ minlength_of o 1 * m
of_one o m e = ap (minlength_of o) e ∙ (omega arith ∙ ap (λ k. minlength_of o 1 * k) (sym e))

admit_file-IsServed :
    (o : Options) (fptr fptr' : FileInfo)
    → fptr.f_iou ≡ 1
    → 0 < fptr.f_riou
    → o.mintrans ≤ fptr.f_riou
    → fptr.f_riou ≤ o.maxtrans
    → admit_file o fptr ≡ some fptr'
    → IsServed o fptr'
unfolding minlength_of
admit_file-IsServed o fptr fptr' unit raw least most e =
    let (wide, same) = admit_file-fields o fptr fptr' e in
    subst (IsServed o) same (record {
      ready = record {
        wide = wide;
        unit = omega (arith, unit);
        raw_unit = raw;
        last = omega (arith, first_last_le o.offset_mode fptr.f_length);
      };
      even = record {
        whole = of_one o fptr.f_iou unit;
        fitting = ground (arith, unit, raw, least, most);
      };
      raw_even = record { whole = ground (arith, least); fitting = ground (arith, most, least) };
    })

-- What `get_file_info` sets for a regular file.
get_file_info-f_iou :
    (bsize bbsize : ℕ) (rawmult : Option ℕ) (slot : FileInfo) (found : Found)
    → found.is_regular ≡ true
    → (get_file_info bsize bbsize rawmult slot found).f_iou ≡ 1
unfolding get_file_info
get_file_info-f_iou bsize bbsize rawmult slot found e = ground (arith, e)

get_file_info-f_riou :
    (bsize bbsize : ℕ) (rawmult : Option ℕ) (slot : FileInfo) (found : Found)
    → found.is_regular ≡ true
    → (get_file_info bsize bbsize rawmult slot found).f_riou
      ≡ riou_of bsize bbsize rawmult found.opened
unfolding get_file_info
get_file_info-f_riou bsize bbsize rawmult slot found e = ground (arith, e)

kept_file-IsServed :
    (bsize bbsize : ℕ) (rawmult : Option ℕ) (o : Options) (slot rec : FileInfo) (found : Found)
    (r : Option FileInfo)
    → IsPlain bsize bbsize rawmult o (some found)
    → admit_file o (get_file_info bsize bbsize rawmult slot found) ≡ r
    → Every (IsServed o) (kept_file rec r).0
unfolding IsPlain kept_file Every
kept_file-IsServed bsize bbsize rawmult o slot rec found none plain e = tt
kept_file-IsServed bsize bbsize rawmult o slot rec found (some fptr)
      (regular, positive, least, most) e =
    let raw = get_file_info-f_riou bsize bbsize rawmult slot found regular in
    (
      admit_file-IsServed o (get_file_info bsize bbsize rawmult slot found) fptr
          (get_file_info-f_iou bsize bbsize rawmult slot found regular)
          (omega (arith, raw, positive)) (omega (arith, raw, least)) (omega (arith, raw, most)) e,
      tt,
    )

-- The files that are kept, whatever place they are filled in at.
parse_files-IsServed :
    (bsize bbsize : ℕ) (rawmult : Option ℕ) (o : Options) (files : List (Option Found))
    (slot : FileInfo)
    → Every (IsPlain bsize bbsize rawmult o) files
    → Every (IsServed o) (parse_files bsize bbsize rawmult o slot files)
unfolding Every parse_files IsPlain
parse_files-IsServed bsize bbsize rawmult o [] slot plain = tt
parse_files-IsServed bsize bbsize rawmult o (none ∷ files) slot plain =
    parse_files-IsServed bsize bbsize rawmult o files slot plain.1
parse_files-IsServed bsize bbsize rawmult o (some found ∷ files) slot plain =
    Every-append (IsServed o) _ _
      (kept_file-IsServed bsize bbsize rawmult o slot _ found _ plain.0 refl)
      (parse_files-IsServed bsize bbsize rawmult o files _ plain.1)

Every-get_elem? {ℓ μ} :
    {A : Type ℓ} (P : A → Type μ) (l : List A)
    → Every P l
    → (i : ℕ) (x : A) → get_elem? l i ≡ some x
    → P x
unfolding Every get_elem?
Every-get_elem? P [] all i x e = absurd (ground (arith, e))
Every-get_elem? P (y ∷ l) all zero x e = subst P (some-injective y x e) all.0
Every-get_elem? P (y ∷ l) all (suc i) x e = Every-get_elem? P l all.1 i x e

pub parse_files-AreReady :
    (bsize bbsize : ℕ) (rawmult : Option ℕ) (o : Options) (slot : FileInfo)
    (files : List (Option Found))
    → Every (IsPlain bsize bbsize rawmult o) files
    → AreReady o (parse_files bsize bbsize rawmult o slot files)
      × AreEven o (parse_files bsize bbsize rawmult o slot files)
unfolding AreReady AreEven
parse_files-AreReady bsize bbsize rawmult o slot files plain = (
  (λ i fptr e. (served i fptr e).ready),
  (λ i fptr e. ((_, (served i fptr e).even), (1, (served i fptr e).raw_even))),
)
  where
    served :
        (i : ℕ) (fptr : FileInfo)
        → get_elem? (parse_files bsize bbsize rawmult o slot files) i ≡ some fptr
        → IsServed o fptr
    served =
        Every-get_elem? (IsServed o) _
          (parse_files-IsServed bsize bbsize rawmult o files slot plain)
