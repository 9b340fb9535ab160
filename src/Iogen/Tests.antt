-- ===== src/Iogen/Tests.antt =====
-- The theorems on iogen.c with the least multiple for `random_range`.
use longan_chkout.Base.{
  ℕ, suc, ◌*◌, ◌/◌, ◌%◌, ◌≤◌, ◌<◌, ◌≡◌, refl, true, false, List, [], ◌∷◌, Option, none, some,
  Bool-cases, subst, ltb, if◌then◌else◌, arith, inl, inr,
}
use Prim.Native.String.{String}
use native.Mathlib.Nat.{mod-lt, div-add-mod, mul-suc, mul-le-mul_right, mul_comm}
use mathlib.Core.Option.{some-injective}
use longan_chkout.Base.Chain.{behind_test}
use longan_chkout.Base.Lists.{length, Every}
use longan_chkout.Iogen.{
  Options, random, sequential, reverse, FileInfo, Syscall, Flag, Request, resvsp, mmapr, placed,
  round_up, minlength_of,
}
use longan_chkout.Iogen.Form.{place_before, place_reverse, place_by, place, requests_from}
use longan_chkout.Iogen.Within.{IsRandomRange, IsReady, IsWithin, round_up-mod}
use longan_chkout.Iogen.Placing.{place-IsWithin}
use longan_chkout.Iogen.Progress.{place-Succeeds}
use longan_chkout.Iogen.Requests.{IsWritten}
use longan_chkout.Iogen.Maps.{parse_syscalls}
use longan_chkout.Iogen.Words.{IsSelected, parse_syscalls-IsSelected}
use longan_chkout.Iogen.Files.{Found, not_opened, dioinfo, cleared, parse_files}
use longan_chkout.Iogen.Admitted.{IsPlain}
use longan_chkout.Iogen.Generate.{parse_files-Generates}

-- The least multiple from the lower limit on.
least_multiple : ℕ → ℕ → ℕ → ℕ → Option ℕ
unfolding round_up
least_multiple d low high mult =
    if ltb high (round_up low mult) then none else some (round_up low mult)

round_up_ge : (low mult : ℕ) → low ≤ round_up low mult
unfolding round_up
round_up_ge low mult = ground arith

-- A number between two multiples is rounded up to the second at most.
round_up_least : (low mult k : ℕ) → 0 < mult → low ≤ k * mult → round_up low mult ≤ k * mult
unfolding round_up
round_up_least low mult k p below = elim (Bool-cases (ltb (low / mult) k)) [
  | inl less ↦ ground (
    arith,
    div-add-mod low mult,
    mod-lt low p,
    mul-suc mult (low / mult),
    mul_comm mult (suc (low / mult)),
    mul-le-mul_right mult (below_of less),
  )
  | inr not_less ↦ ground (
    arith,
    below,
    div-add-mod low mult,
    mul_comm mult (low / mult),
    mul-le-mul_right mult (above_of not_less),
  )
]
  where
    below_of : ltb (low / mult) k ≡ true → suc (low / mult) ≤ k
    below_of less = ground (arith, less)

    above_of : ltb (low / mult) k ≡ false → k ≤ low / mult
    above_of not_less = ground (arith, not_less)

least_multiple-IsRandomRange : IsRandomRange least_multiple
unfolding least_multiple
least_multiple-IsRandomRange = record {
  drawn = λ d low high mult x p e.
      let (fits, same) = behind_test (ltb high (round_up low mult)) _ x e in
      subst (λ x. (low ≤ x) × (x ≤ high) × (x % mult ≡ 0)) (some-injective _ _ same)
        (round_up_ge low mult, not_over low high mult fits, round_up-mod low mult p);
  draws = λ d low high mult k p least most. (
    round_up low mult,
    found low high mult (omega (arith, most, round_up_least low mult k p least)),
  );
}
  where
    not_over : (low high mult : ℕ) → ltb high (round_up low mult) ≡ false → round_up low mult ≤ high
    not_over low high mult fits = ground (arith, fits)

    found :
        (low high mult : ℕ)
        → round_up low mult ≤ high
        → (if ltb high (round_up low mult) then none else some (round_up low mult))
          ≡ some (round_up low mult)
    found low high mult room = ground (arith, room)

abbrev opts : Options
opts = record { o_opt = true; offset_mode = sequential; mintrans = 1; maxtrans = 1024 }

abbrev back_opts : Options
back_opts = record { o_opt = true; offset_mode = reverse; mintrans = 1; maxtrans = 1024 }

abbrev one_file : FileInfo
one_file = record {
  f_length = 2048;
  f_iou = 1;
  f_riou = 512;
  is_regular = true;
  f_lastoffset = 512;
  f_lastlength = 1024;
}

one_file-IsReady : (o : Options) → o.maxtrans ≤ 2048 → IsReady o one_file
one_file-IsReady o wide = record {
  wide = wide;
  unit = omega arith;
  raw_unit = omega arith;
  last = omega arith;
}

at_512 : place least_multiple back_opts one_file 512 0 ≡ placed 0 512
unfolding place place_by place_reverse place_before least_multiple
at_512 = refl

place-IsWithin_example : IsWithin back_opts one_file 512 0 512
place-IsWithin_example =
    place-IsWithin least_multiple least_multiple-IsRandomRange back_opts one_file 512 0 0 512
      (omega arith) (one_file-IsReady back_opts (omega arith)) at_512

not_random : ¬ (sequential ≡ random)
not_random e = ground (arith, e)

place-Succeeds_example :
    (at : ℕ × ℕ) × (place least_multiple opts one_file 512 0 ≡ placed at.0 at.1)
    × IsWithin opts one_file 512 at.0 at.1
unfolding minlength_of
place-Succeeds_example =
    place-Succeeds least_multiple least_multiple-IsRandomRange opts one_file 512 1 0 not_random
      (omega arith) (one_file-IsReady opts (omega arith))
      (record { whole = refl; fitting = omega arith })

abbrev found_files : List (Option Found)
found_files =
    some (record { is_regular = true; st_size = 2048; opened = dioinfo 512 none })
    ∷ none
    ∷ some (record { is_regular = true; st_size = 100; opened = not_opened })
    ∷ []

abbrev files : List FileInfo
files = parse_files 512 512 none opts cleared found_files

abbrev words : List String
words = "reserve" ∷ "mmread" ∷ []

abbrev calls : List Syscall
calls = record { call = resvsp; is_write = true } ∷ record { call = mmapr; is_write = false } ∷ []

abbrev flags : List Flag
flags = record { value = 0; is_raw = true } ∷ []

words-calls : parse_syscalls words ≡ some calls
unfolding parse_syscalls
words-calls = refl

parse_syscalls-IsSelected_example : IsSelected words calls
parse_syscalls-IsSelected_example = parse_syscalls-IsSelected words calls words-calls

found_files-IsPlain : Every (IsPlain 512 512 none opts) found_files
unfolding Every IsPlain
found_files-IsPlain = (
  (refl, omega arith, omega arith, omega arith),
  (tt, ((refl, omega arith, omega arith, omega arith), tt)),
)

one_kept : 0 < length files
unfolding length parse_files
one_kept = omega arith

parse_files-Generates_example :
    (out : List Request × List FileInfo) × (requests_from least_multiple opts calls flags 2 0 files
      ≡ some out)
    × (length out.0 ≡ 2)
    × IsWritten least_multiple least_multiple-IsRandomRange opts files out
unfolding length
parse_files-Generates_example =
    parse_files-Generates least_multiple least_multiple-IsRandomRange 512 512 none opts found_files
      words calls flags 2 0 not_random words-calls (omega arith) (omega arith) found_files-IsPlain
      one_kept
