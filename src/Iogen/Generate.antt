-- ===== src/Iogen/Generate.antt =====
-- iogen.c from its command line to the requests that it writes.
use Prim.Native.String.{String}
use longan_chkout.Base.{ℕ, ◌<◌, ◌≡◌, subst, sym, List, Option, some}
use longan_chkout.Base.Lists.{length, Every}
use longan_chkout.Iogen.{Options, random, FileInfo, Syscall, Flag, Request}
use longan_chkout.Iogen.Form.{requests_from}
use longan_chkout.Iogen.Maps.{parse_syscalls}
use longan_chkout.Iogen.Words.{parse_syscalls-IsSelected}
use longan_chkout.Iogen.Files.{Found, cleared, parse_files}
use longan_chkout.Iogen.Admitted.{IsPlain, parse_files-AreReady}
use longan_chkout.Iogen.Within.{IsRandomRange}
use longan_chkout.Iogen.Requests.{IsWritten}
use longan_chkout.Iogen.Total.{requests_from-Succeeds}

module _ (random_range : ℕ → ℕ → ℕ → ℕ → Option ℕ) (range : IsRandomRange random_range) where
  -- In the modes `sequential` and `reverse`, for regular files whose raw unit is positive and
  -- between the limits of the length, of which one at least is kept, and for at least one word of
  -- `-s` and one flag, the loop of `main` writes as many requests as it is run for; each is inside
  -- a file that is kept, in multiples of its unit, with a length between the limits, if
  -- `random_range` gives a multiple between its limits where there is one.
  pub parse_files-Generates :
      (bsize bbsize : ℕ) (rawmult : Option ℕ) (o : Options) (found : List (Option Found))
      (words : List String) (calls : List Syscall) (flags : List Flag) (n d : ℕ)
      → ¬ (o.offset_mode ≡ random)
      → parse_syscalls words ≡ some calls
      → 0 < length words
      → 0 < length flags
      → Every (IsPlain bsize bbsize rawmult o) found
      → 0 < length (parse_files bsize bbsize rawmult o cleared found)
      → (out : List Request × List FileInfo) × (requests_from random_range o calls flags n d
            (parse_files bsize bbsize rawmult o cleared found)
          ≡ some out)
        × (length out.0 ≡ n)
        × IsWritten random_range range o (parse_files bsize bbsize rawmult o cleared found) out
  parse_files-Generates bsize bbsize rawmult o found words calls flags n d mode chosen some_words
        some_flags plain some_files =
      let (ready, even) = parse_files-AreReady bsize bbsize rawmult o cleared found plain in
      requests_from-Succeeds random_range range o calls flags n d _ mode
        (subst (λ k. 0 < k) (sym (parse_syscalls-IsSelected words calls chosen).size) some_words)
        some_flags some_files ready even
