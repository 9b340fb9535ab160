-- ===== src/Iogen/Total.antt =====
-- The loop of `main` writes every request in the modes `sequential` and `reverse`.
use longan_chkout.Base.{
  ℕ, zero, suc, ◌+◌, ◌-◌, ◌<◌, ◌≡◌, refl, sym, subst, ap, Bool, true, false, ◌&&◌, List, [], ◌∷◌,
  Option, some, arith, if◌then◌else◌,
}
use longan_chkout.Base.Maybe.{◌>>=◌}
use longan_chkout.Base.Chain.{bind_some}
use longan_chkout.Base.Lists.{length, get_elem?, get_elem?-inside, length-set_elem}
use longan_chkout.Iogen.{
  Options, random, FileInfo, Syscall, Flag, Request, formed, multiple, fill_in, written_out,
}
use longan_chkout.Iogen.Form.{chosen, pattern_of, form_chosen, form_iorequest, requests_from}
use longan_chkout.Iogen.Within.{IsRandomRange}
use longan_chkout.Iogen.Progress.{IsEven, place-Succeeds}
use longan_chkout.Iogen.Requests.{
  AreReady, SameFiles, at_last, multiple_positive, chosen-get_elem?, IsWritten, IsSound,
  form_iorequest-IsSound, requests_from-IsWritten,
}

-- Both units of each file admit the least length.
unfoldable pub AreEven : Options → List FileInfo → Type 0
AreEven o files =
    (i : ℕ) (fptr : FileInfo)
    → get_elem? files i ≡ some fptr
    → ((k : ℕ) × IsEven o fptr.f_iou k) × ((k : ℕ) × IsEven o fptr.f_riou k)

multiple-IsEven :
    (o : Options) (fptr : FileInfo) (flag : Flag)
    → ((k : ℕ) × IsEven o fptr.f_iou k)
    → ((k : ℕ) × IsEven o fptr.f_riou k)
    → (k : ℕ) × IsEven o (multiple fptr flag) k
unfolding multiple
multiple-IsEven o fptr flag plain raw = either (fptr.is_regular && flag.is_raw)
  where
    either : (b : Bool) → (k : ℕ) × IsEven o (if b then fptr.f_riou else fptr.f_iou) k
    either true = raw
    either false = plain

SameFiles-AreEven :
    (o : Options) (files after : List FileInfo)
    → SameFiles files after
    → AreEven o files
    → AreEven o after
unfolding SameFiles AreEven
SameFiles-AreEven o files after same even i g found =
    let (f, before, e) = same i g found in
    subst (λ h. ((k : ℕ) × IsEven o h.f_iou k) × ((k : ℕ) × IsEven o h.f_riou k)) (sym e)
      (even i f before)

length_positive {ℓ} : {A : Type ℓ} (x : A) (l : List A) → 0 < length (x ∷ l)
unfolding length
length_positive x l = omega arith

module _ (random_range : ℕ → ℕ → ℕ → ℕ → Option ℕ) (range : IsRandomRange random_range) where
  chosen-some {ℓ} :
      {A : Type ℓ} (l : List A) (d : ℕ)
      → 0 < length l
      → (x : ℕ × A) × (chosen random_range l d ≡ some x)
  unfolding chosen
  chosen-some l d long =
      let (i, drawn) =
        range.draws d 0 (length l - 1) 1 0 (omega arith) (omega arith) (omega arith) in
      let (x, found) =
        get_elem?-inside l i
          (omega (arith, long, range.drawn d 0 (length l - 1) 1 i (omega arith) drawn)) in
      ((i, x), ground (arith, drawn, found))

  pattern_of-some : (sc : Syscall) (d : ℕ) → (x : ℕ) × (pattern_of random_range sc d ≡ some x)
  unfolding pattern_of
  pattern_of-some sc d =
      let (k, drawn) = range.draws d 0 25 1 0 (omega arith) (omega arith) (omega arith) in
      if_some sc.is_write k drawn
    where
      if_some :
          (b : Bool) (k : ℕ)
          → random_range d 0 25 1 ≡ some k
          → (x : ℕ) × ((if b then (random_range d 0 25 1 >>= λ k. some (65 + k)) else some 0)
              ≡ some x)
      if_some true k drawn = (65 + k, ap (λ m. m >>= λ k. some (65 + k)) drawn)
      if_some false k drawn = (0, refl)

  -- A request is formed, whatever the choices are.
  form_chosen-formed :
      (o : Options) (d : ℕ) (files : List FileInfo) (sc : Syscall) (pattern : ℕ)
      (file : ℕ × FileInfo) (flag : ℕ × Flag)
      → ¬ (o.offset_mode ≡ random)
      → AreReady o files
      → AreEven o files
      → get_elem? files file.0 ≡ some file.1
      → (req : Request) × (after : List FileInfo) × (form_chosen random_range o d files sc pattern
            file flag
          ≡ formed req after)
        × (length after ≡ length files)
  unfolding form_chosen fill_in AreReady AreEven
  form_chosen-formed o d files sc pattern file flag mode ready even found =
      let old = ready file.0 file.1 found in
      let unit = multiple file.1 flag.1 in
      let units = even file.0 file.1 found in
      let (k, admits) = multiple-IsEven o file.1 flag.1 units.0 units.1 in
      let (at, e, _) =
        place-Succeeds random_range range o file.1 unit k (d + 4) mode
          (multiple_positive o file.1 flag.1 old) old admits in
      (
        _,
        _,
        ap (fill_in sc pattern flag.1 file.0 files file.1) e,
        length-set_elem files file.0 (at_last file.1 at.0 at.1),
      )

  form_iorequest-formed :
      (o : Options) (calls : List Syscall) (flags : List Flag) (d : ℕ) (files : List FileInfo)
      → ¬ (o.offset_mode ≡ random)
      → 0 < length calls
      → 0 < length flags
      → 0 < length files
      → AreReady o files
      → AreEven o files
      → (req : Request) × (after : List FileInfo) × (form_iorequest random_range o calls flags d
            files
          ≡ some (formed req after))
        × (length after ≡ length files)
  unfolding form_iorequest
  form_iorequest-formed o calls flags d files mode some_calls some_flags some_files ready even =
      let (sc, e0) = chosen-some calls d some_calls in
      let (pattern, e1) = pattern_of-some sc.1 (d + 1) in
      let (file, e2) = chosen-some files (d + 2) some_files in
      let (flag, e3) = chosen-some flags (d + 3) some_flags in
      let found = chosen-get_elem? random_range range files (d + 2) file e2 in
      let (req, after, e4, size) =
        form_chosen-formed o d files sc.1 pattern file flag mode ready even found in
      (
        req,
        after,
        bind_some _ e0 (bind_some _ e1 (bind_some _ e2 (bind_some _ e3 (ap some e4)))),
        size,
      )

  -- The loop ends with all the requests.
  requests_from_complete :
      (o : Options) (calls : List Syscall) (flags : List Flag) (n d : ℕ) (files : List FileInfo)
      → ¬ (o.offset_mode ≡ random)
      → 0 < length calls
      → 0 < length flags
      → 0 < length files
      → AreReady o files
      → AreEven o files
      → (out : List Request × List FileInfo) × (requests_from random_range o calls flags n d files
          ≡ some out)
        × (length out.0 ≡ n)
  unfolding requests_from length IsSound written_out AreReady AreEven
  requests_from_complete o calls flags zero d files mode some_calls some_flags some_files ready
        even =
      (([], files), refl, refl)
  requests_from_complete o calls flags (suc n) d files mode some_calls some_flags some_files ready
        even =
      let (req, after, e, size) =
        form_iorequest-formed o calls flags d files mode some_calls some_flags some_files ready
          even in
      let sound =
        form_iorequest-IsSound random_range range o calls flags d files (formed req after) ready
          e in
      let (rest, e_rest, count) =
        requests_from_complete o calls flags n (d + 8) after mode some_calls some_flags
          (subst (λ k. 0 < k) (sym size) some_files) sound.1
          (SameFiles-AreEven o files after sound.2 even) in
      (
        (req ∷ rest.0, rest.1),
        bind_some _ (bind_some _ e refl) (bind_some _ e_rest refl),
        ap suc count,
      )

  pub requests_from-Succeeds :
      (o : Options) (calls : List Syscall) (flags : List Flag) (n d : ℕ) (files : List FileInfo)
      → ¬ (o.offset_mode ≡ random)
      → 0 < length calls
      → 0 < length flags
      → 0 < length files
      → AreReady o files
      → AreEven o files
      → (out : List Request × List FileInfo) × (requests_from random_range o calls flags n d files
          ≡ some out)
        × (length out.0 ≡ n)
        × IsWritten random_range range o files out
  requests_from-Succeeds o calls flags n d files mode some_calls some_flags some_files ready even =
      let (out, e, count) =
        requests_from_complete o calls flags n d files mode some_calls some_flags some_files ready
          even in
      (
        out,
        e,
        count,
        requests_from-IsWritten random_range range o calls flags n d files out ready e,
      )
