-- ===== src/Fsx/Options.antt =====
-- fsx.c: the options of the command line, from `getnum` to the checks before the file is opened.
pub mod Accepted
use longan_chkout.Base.{
  ℕ, ◌+◌, ◌-◌, ◌*◌, ◌^◌, Bool, true, false, ◌&&◌, ◌||◌, not, List, [], ◌∷◌, ◌++◌, Option, none,
  some, Buf, Outcome, ok, ◌>>=◌, expect, ltb, leb, ◌==◌, if◌then◌else◌, ℤ, pos, int_of, ulong_of,
  times, is_positive, is_negative, nat_of,
}
use longan_chkout.Fsx.Settings.{
  Text, Options, Opt, defaults, opt_simulatedopcount, opt_closeprob, opt_debug, opt_flush,
  opt_filldata, opt_logdev, opt_logid, opt_keep, opt_maxfilelen, opt_monitor, opt_sizechecks,
  opt_maxoplen, opt_progressinterval, opt_quiet, opt_readbdy, opt_style, opt_truncbdy, opt_writebdy,
  opt_prealloc, opt_do_fsync, opt_aio, opt_debugstart, opt_fallocate, opt_keep_size, opt_punch_hole,
  opt_zero_range, opt_collapse_range, opt_insert_range, opt_clone_range, opt_dedupe_range,
  opt_copy_range, opt_lite, opt_numops, opt_randomoplen, opt_dirpath, opt_mapped_reads, opt_seed,
  opt_mapped_writes, opt_check_file, opt_o_direct, opt_record_ops, opt_replay_ops, opt_unknown,
}

-- The suffixes of `getnum`: b, k, m and w, in both cases; 1 for every other character.
unfoldable pub factor : ℕ → ℕ
factor ch =
    if ch == 98 || ch == 66
    then 512
    else (if ch == 107 || ch == 75
        then 1024
        else (if ch == 109 || ch == 77
            then 1024 * 1024
            else (if ch == 119 || ch == 87 then 4 else 1)))

unfoldable pub scaled : ℤ → Text → ℤ × Text
unfolding factor
scaled n [] = (n, [])
scaled n (ch ∷ e) = if factor ch == 1 then (n, ch ∷ e) else (int_of (times n (factor ch)), e)

-- `filldata = *optarg`
unfoldable pub first_of : Text → ℕ
first_of [] = 0
first_of (ch ∷ s) = ch

-- The test of the option `-m` between its two numbers, with what follows the colon.
unfoldable pub after_colon : Text → Option Text
after_colon [] = none
after_colon (ch ∷ s) = if ch == 58 then some s else none

unfoldable pub is_empty : Text → Bool
is_empty [] = true
is_empty (ch ∷ s) = false

module _ (strtol : Text → ℤ × Text) (clock : ℤ) where
  unfoldable pub getnum : Text → ℤ × Text
  unfolding scaled
  getnum s = let (n, e) = strtol s in scaled (int_of n) e

  -- Where the second number of `-m` stands.
  unfoldable pub monitor_end : Option Text → Options → Outcome Options
  unfolding getnum
  monitor_end none o = expect false 90 o
  monitor_end (some s) o = do
    let last = (getnum s).0
    o1 ← expect (not (is_negative last)) 90 o
    ok (record o1 {
      monitorend = if nat_of last == 0 then none else some (nat_of last);
      debug = true;
      sizechecks = false;
    })

  -- The switch of `main`; `usage` exits with 90. `clock` is `time(0) % 10000 + getpid()`, and
  -- `strdup` does not fail here. `dname` has room for its argument.
  unfoldable pub parse_option : Opt → Options → Outcome Options
  unfolding getnum monitor_end after_colon first_of
  parse_option (opt_simulatedopcount s) o = do
    let n = ulong_of (getnum s).0
    o1 ← expect (not (n == 0)) 90 (record o { simulatedopcount = n })
    ok (record o1 { simulatedopcount = n - 1 })
  parse_option (opt_closeprob s) o =
      let n = (getnum s).0 in expect (is_positive n) 90 (record o { closeprob = n })
  parse_option opt_debug o = ok (record o { debug = true })
  parse_option opt_flush o = ok (record o { flush = true })
  parse_option (opt_filldata s) o = ok (record o { filldata = first_of s })
  parse_option (opt_logdev s) o = ok (record o { integrity = true; logdev = some s })
  parse_option (opt_logid s) o = ok (record o { logid = some s })
  parse_option opt_keep o = ok (record o { truncate = false })
  parse_option (opt_maxfilelen s) o =
      let n = ulong_of (getnum s).0 in expect (not (n == 0)) 90 (record o { maxfilelen = n })
  -- There is no `break` behind the case: it goes on into that of `-n`.
  parse_option (opt_monitor s) o = do
    let (first, e) = getnum s
    o1 ← expect (not (is_negative first)) 90 (record o { monitorstart = some (nat_of first) })
    monitor_end (after_colon e) o1
  parse_option opt_sizechecks o = ok (record o { sizechecks = false })
  parse_option (opt_maxoplen s) o =
      let n = (getnum s).0 in expect (is_positive n) 90 (record o { maxoplen = n })
  parse_option (opt_progressinterval s) o =
      let n = ulong_of (getnum s).0 in expect (not (n == 0)) 90 (record o { progressinterval = n })
  parse_option opt_quiet o = ok (record o { quiet = true })
  parse_option (opt_readbdy s) o =
      let n = (getnum s).0 in expect (is_positive n) 90 (record o { readbdy = n })
  parse_option (opt_style s) o =
      let n = (getnum s).0 in
      expect (not (is_negative n) && leb (nat_of n) 1) 90 (record o { style_local = n })
  parse_option (opt_truncbdy s) o =
      let n = (getnum s).0 in expect (is_positive n) 90 (record o { truncbdy = n })
  parse_option (opt_writebdy s) o =
      let n = (getnum s).0 in expect (is_positive n) 90 (record o { writebdy = n })
  parse_option opt_prealloc o = ok (record o { prealloc = true })
  parse_option opt_do_fsync o = ok (record o { do_fsync = true })
  parse_option opt_aio o = ok (record o { aio = true })
  parse_option (opt_debugstart s) o =
      let n = ulong_of (getnum s).0 in expect (not (ltb n 1)) 90 (record o { debugstart = n })
  parse_option opt_fallocate o = ok (record o { fallocate_calls = false })
  parse_option opt_keep_size o = ok (record o { keep_size_calls = false })
  parse_option opt_punch_hole o = ok (record o { punch_hole_calls = false })
  parse_option opt_zero_range o = ok (record o { zero_range_calls = false })
  parse_option opt_collapse_range o = ok (record o { collapse_range_calls = false })
  parse_option opt_insert_range o = ok (record o { insert_range_calls = false })
  parse_option opt_clone_range o = ok (record o { clone_range_calls = false })
  parse_option opt_dedupe_range o = ok (record o { dedupe_range_calls = false })
  parse_option opt_copy_range o = ok (record o { copy_range_calls = false })
  parse_option opt_lite o = ok (record o { lite = true; create = false; truncate = false })
  parse_option (opt_numops s) o =
      let n = (getnum s).0 in
      expect (not (is_negative n)) 90 (record o { numops = some (nat_of n) })
  parse_option opt_randomoplen o = ok (record o { randomoplen = false })
  parse_option (opt_dirpath s) o = ok (record o { dname = s ++ (47 ∷ []) })
  parse_option opt_mapped_reads o = ok (record o { mapped_reads = false })
  parse_option (opt_seed s) o =
      let n = (getnum s).0 in
      let seed = if not (is_negative n) && nat_of n == 0 then clock else n in
      expect (not (is_negative seed)) 90 (record o { seed = seed })
  parse_option opt_mapped_writes o = ok (record o { mapped_writes = false })
  parse_option opt_check_file o = ok (record o { check_file = true })
  parse_option opt_o_direct o = ok (record o { o_direct = true })
  parse_option (opt_record_ops none) o = ok (record o { record_ops = true })
  parse_option (opt_record_ops (some s)) o = ok (record o { record_ops = true; opsfile = s })
  parse_option (opt_replay_ops s) o = ok (record o { replayops = some s })
  parse_option opt_unknown o = expect false 90 o

  unfoldable pub parse_options : List Opt → Options → Outcome Options
  unfolding parse_option
  parse_options [] o = ok o
  parse_options (x ∷ xs) o = parse_option x o >>= parse_options xs

  -- `main` up to the name of the file: `argc` counts the arguments behind the options.
  unfoldable pub main_options : List Opt → ℕ → Outcome Options
  unfolding parse_options is_empty
  main_options opts argc = do
    o ← parse_options opts defaults
    o1 ← expect (argc == 1) 90 o
    expect (not o1.integrity || not (is_empty o1.dname)) 90 o1
