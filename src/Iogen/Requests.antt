-- ===== src/Iogen/Requests.antt =====
-- The requests that the loop of `main` writes are for places inside the files, and the files keep
-- what `parse_cmdline` checks of them.
use longan_chkout.Base.{
  ℕ, zero, suc, ◌+◌, ◌-◌, ◌<◌, ◌≡◌, refl, subst, ap, ◌∙◌, List, [], ◌∷◌, ◌++◌, Option, some, arith,
}
use longan_chkout.Base.Maybe.{◌>>=◌}
use longan_chkout.Base.Chain.{some_of_bind, every_of_bind, every_of_some}
use longan_chkout.Base.Lists.{length, get_elem?, set_elem, Every, Every-append, Every-map}
use mathlib.Core.Option.{some-injective}
use longan_chkout.Iogen.{
  Options, FileInfo, Syscall, Flag, Request, Placed, placed, refused, bad_length, Formed, formed,
  multiple, fill_in, written_out,
}
use longan_chkout.Iogen.Form.{chosen, pattern_of, form_chosen, form_iorequest, requests_from}
use longan_chkout.Iogen.Within.{IsRandomRange, IsReady, IsWithin}
use longan_chkout.Iogen.Placing.{place-IsWithin}

-- The file with another last io.
abbrev pub at_last : FileInfo → ℕ → ℕ → FileInfo
at_last fptr offset len = record fptr { f_lastoffset = offset; f_lastlength = len }

unfoldable pub AreReady : Options → List FileInfo → Type 0
AreReady o files = (i : ℕ) (fptr : FileInfo) → get_elem? files i ≡ some fptr → IsReady o fptr

-- A request inside a file of the list.
pub record Fits (o : Options) (files : List FileInfo) (req : Request) : Type 0 where
  pub fptr : FileInfo
  pub found : get_elem? files req.file ≡ some fptr
  pub within :
      IsWithin o fptr
        (multiple fptr (record { value = req.flags; is_raw = req.word_aligned }))
        req.offset
        req.nbytes

-- The lists with the same files, up to the last io of each.
unfoldable pub SameFiles : List FileInfo → List FileInfo → Type 0
SameFiles files after =
    (i : ℕ) (g : FileInfo)
    → get_elem? after i ≡ some g
    → (f : FileInfo) × (get_elem? files i ≡ some f) × (g ≡ at_last f g.f_lastoffset g.f_lastlength)

SameFiles-refl : (files : List FileInfo) → SameFiles files files
unfolding SameFiles
SameFiles-refl files i g e = (g, e, refl)

pub SameFiles-trans : (a b c : List FileInfo) → SameFiles a b → SameFiles b c → SameFiles a c
unfolding SameFiles
SameFiles-trans a b c ab bc i g e =
    let (f, found, same) = bc i g e in
    let (f0, found0, same0) = ab i f found in
    (f0, found0, same ∙ ap (λ h. at_last h g.f_lastoffset g.f_lastlength) same0)

pub set_elem-SameFiles :
    (files : List FileInfo) (i : ℕ) (f : FileInfo) (offset len : ℕ)
    → get_elem? files i ≡ some f
    → SameFiles files (set_elem files i (at_last f offset len))
unfolding SameFiles set_elem get_elem?
set_elem-SameFiles [] i f offset len e j g found = (g, found, refl)
set_elem-SameFiles (h ∷ files) zero f offset len e zero g found =
    (f, e, subst (λ x. x ≡ at_last f x.f_lastoffset x.f_lastlength) (some-injective _ _ found) refl)
set_elem-SameFiles (h ∷ files) zero f offset len e (suc j) g found = (g, found, refl)
set_elem-SameFiles (h ∷ files) (suc i) f offset len e zero g found = (g, found, refl)
set_elem-SameFiles (h ∷ files) (suc i) f offset len e (suc j) g found =
    set_elem-SameFiles files i f offset len e j g found

at_last-IsWithin :
    (o : Options) (fptr : FileInfo) (p q : ℕ) (flag : Flag) (offset len : ℕ)
    → IsWithin o (at_last fptr p q) (multiple (at_last fptr p q) flag) offset len
    → IsWithin o fptr (multiple fptr flag) offset len
unfolding multiple
at_last-IsWithin o fptr p q flag offset len at = record {
  inside = at.inside;
  offset_unit = at.offset_unit;
  length_unit = at.length_unit;
  least = at.least;
  most = at.most;
}

Fits-SameFiles :
    (o : Options) (files after : List FileInfo) (req : Request)
    → SameFiles files after
    → Fits o after req
    → Fits o files req
unfolding SameFiles
Fits-SameFiles o files after req same fits =
    let (f, found, e) = same req.file fits.fptr fits.found in
    record {
      fptr = f;
      found = found;
      within =
          at_last-IsWithin o f fits.fptr.f_lastoffset fits.fptr.f_lastlength _ req.offset req.nbytes
            (subst (λ h. IsWithin o h (multiple h _) req.offset req.nbytes) e fits.within);
    }

pub set_elem-AreReady :
    (o : Options) (files : List FileInfo) (i : ℕ) (fptr : FileInfo)
    → AreReady o files
    → IsReady o fptr
    → AreReady o (set_elem files i fptr)
unfolding AreReady set_elem get_elem?
set_elem-AreReady o [] i fptr ready one j g found = ready j g found
set_elem-AreReady o (h ∷ files) zero fptr ready one zero g found =
    subst (IsReady o) (some-injective _ _ found) one
set_elem-AreReady o (h ∷ files) zero fptr ready one (suc j) g found = ready (suc j) g found
set_elem-AreReady o (h ∷ files) (suc i) fptr ready one zero g found = ready zero g found
set_elem-AreReady o (h ∷ files) (suc i) fptr ready one (suc j) g found =
    set_elem-AreReady o files i fptr (λ k. ready (suc k)) one j g found

pub multiple_positive :
    (o : Options) (fptr : FileInfo) (flag : Flag) → IsReady o fptr → 0 < multiple fptr flag
unfolding multiple
multiple_positive o fptr flag ready = ground (arith, ready.unit, ready.raw_unit)

-- What the loop has after a step: the request inside one of the files, and the files as they were
-- admitted.
unfoldable pub IsSound : Options → List FileInfo → Formed → Type 0
unfolding AreReady SameFiles
IsSound o files (formed req after) = Fits o files req × AreReady o after × SameFiles files after
IsSound o files refused = Unit {0}
IsSound o files bad_length = Unit {0}

fill_in-IsSound :
    (o : Options) (files : List FileInfo) (sc : Syscall) (pattern : ℕ) (flag : Flag) (file : ℕ)
    (fptr : FileInfo) (at : Placed)
    → AreReady o files
    → get_elem? files file ≡ some fptr
    → ((offset len : ℕ) → at ≡ placed offset len → IsWithin o fptr (multiple fptr flag) offset len)
    → IsSound o files (fill_in sc pattern flag file files fptr at)
unfolding IsSound fill_in AreReady SameFiles
fill_in-IsSound o files sc pattern flag file fptr refused ready found within = tt
fill_in-IsSound o files sc pattern flag file fptr bad_length ready found within = tt
fill_in-IsSound o files sc pattern flag file fptr (placed offset len) ready found within =
    let at = within offset len refl in
    let old = ready file fptr found in
    (
      record { fptr = fptr; found = found; within = at },
      set_elem-AreReady o files file (at_last fptr offset len) ready
          (record { wide = old.wide; unit = old.unit; raw_unit = old.raw_unit; last = at.inside }),
      set_elem-SameFiles files file fptr offset len found,
    )

module _ (random_range : ℕ → ℕ → ℕ → ℕ → Option ℕ) (range : IsRandomRange random_range) where
  form_chosen-IsSound :
      (o : Options) (d : ℕ) (files : List FileInfo) (sc : Syscall) (pattern : ℕ)
      (file : ℕ × FileInfo) (flag : ℕ × Flag)
      → AreReady o files
      → get_elem? files file.0 ≡ some file.1
      → IsSound o files (form_chosen random_range o d files sc pattern file flag)
  unfolding form_chosen AreReady
  form_chosen-IsSound o d files sc pattern file flag ready found =
      let old = ready file.0 file.1 found in
      fill_in-IsSound o files sc pattern flag.1 file.0 file.1 _ ready found (λ offset len e.
        place-IsWithin random_range range o file.1 (multiple file.1 flag.1) (d + 4) offset len
          (multiple_positive o file.1 flag.1 old) old e)

  -- A choice from a list is one of its entries.
  pub chosen-get_elem? {ℓ} :
      {A : Type ℓ} (l : List A) (d : ℕ) (x : ℕ × A)
      → chosen random_range l d ≡ some x
      → get_elem? l x.0 ≡ some x.1
  unfolding chosen
  chosen-get_elem? l d x e =
      let (i, _, e1) =
        some_of_bind (random_range d 0 (length l - 1) 1) (λ i. get_elem? l i >>= λ y. some (i, y)) x
          e in
      let (y, found, e2) = some_of_bind (get_elem? l i) (λ y. some (i, y)) x e1 in
      subst (λ z. get_elem? l z.0 ≡ some z.1) (some-injective _ _ e2) found

  pub form_iorequest-IsSound :
      (o : Options) (calls : List Syscall) (flags : List Flag) (d : ℕ) (files : List FileInfo)
      (step : Formed)
      → AreReady o files
      → form_iorequest random_range o calls flags d files ≡ some step
      → IsSound o files step
  unfolding form_iorequest
  form_iorequest-IsSound o calls flags d files step ready e =
      every_of_bind (chosen random_range calls d) P step e (λ sc _ e.
        every_of_bind (pattern_of random_range sc.1 (d + 1)) P step e (λ pattern _ e.
          every_of_bind (chosen random_range files (d + 2)) P step e (λ file found e.
            every_of_bind (chosen random_range flags (d + 3)) P step e
              (λ flag _. every_of_some P (sound sc.1 pattern file flag found) step))))
    where
      P : Formed → Type 0
      P = IsSound o files

      sound :
          (sc : Syscall) (pattern : ℕ) (file : ℕ × FileInfo) (flag : ℕ × Flag)
          → chosen random_range files (d + 2) ≡ some file
          → P (form_chosen random_range o d files sc pattern file flag)
      sound sc pattern file flag found =
          form_chosen-IsSound o d files sc pattern file flag ready
            (chosen-get_elem? files (d + 2) file found)

  -- What the loop has written, and the files then.
  unfoldable pub IsWritten : Options → List FileInfo → List Request × List FileInfo → Type 0
  IsWritten o files out = Every (Fits o files) out.0 × AreReady o out.1 × SameFiles files out.1

  written_out-IsWritten :
      (o : Options) (files : List FileInfo) (step : Formed) (out : List Request × List FileInfo)
      → AreReady o files
      → IsSound o files step
      → written_out files step ≡ some out
      → IsWritten o files out
  unfolding IsWritten IsSound written_out Every
  written_out-IsWritten o files (formed req after) out ready sound e =
      every_of_some (IsWritten o files) ((sound.0, tt), sound.1, sound.2) out e
  written_out-IsWritten o files refused out ready sound e =
      every_of_some (IsWritten o files) (tt, ready, SameFiles-refl files) out e
  written_out-IsWritten o files bad_length out ready sound e = absurd (ground (arith, e))

  -- Two parts of the loop.
  IsWritten-trans :
      (o : Options) (files : List FileInfo) (step rest : List Request × List FileInfo)
      → IsWritten o files step
      → IsWritten o step.1 rest
      → IsWritten o files (step.0 ++ rest.0, rest.1)
  unfolding IsWritten
  IsWritten-trans o files step rest first second = (
    Every-append (Fits o files) step.0 rest.0 first.0 (
        Every-map (Fits o step.1) (Fits o files) rest.0
          (λ req. Fits-SameFiles o files step.1 req first.2) second.0),
    second.1,
    SameFiles-trans files step.1 rest.1 first.2 second.2,
  )

  pub requests_from-IsWritten :
      (o : Options) (calls : List Syscall) (flags : List Flag) (n d : ℕ) (files : List FileInfo)
      (out : List Request × List FileInfo)
      → AreReady o files
      → requests_from random_range o calls flags n d files ≡ some out
      → IsWritten o files out
  unfolding IsWritten requests_from Every
  requests_from-IsWritten o calls flags zero d files out ready e =
      every_of_some (IsWritten o files) (tt, ready, SameFiles-refl files) out e
  requests_from-IsWritten o calls flags (suc n) d files out ready e =
      every_of_bind (form_iorequest random_range o calls flags d files >>= written_out files) P out
        e
        (λ step first e.
          every_of_bind (requests_from random_range o calls flags n (d + 8) step.1) P out e
            (λ rest then_rest.
              every_of_some P
                (IsWritten-trans o files step rest (one_step step first) (
                  requests_from-IsWritten o calls flags n (d + 8) step.1 rest
                    (one_step step first).1 then_rest))
                out))
    where
      P : List Request × List FileInfo → Type 0
      P = IsWritten o files

      one_step :
          (step : List Request × List FileInfo)
          → (form_iorequest random_range o calls flags d files >>= written_out files) ≡ some step
          → IsWritten o files step
      one_step step first =
          every_of_bind (form_iorequest random_range o calls flags d files) P step first
            (λ form formed_e.
              written_out-IsWritten o files form step ready
                (form_iorequest-IsSound o calls flags d files form ready formed_e))
