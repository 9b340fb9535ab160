-- ===== src/Fsx/Options/Accepted.antt =====
-- What the options that fsx.c accepts promise to a run.
use longan_chkout.Base.{
  ℕ, ◌*◌, ◌^◌, ◌<◌, ◌≡◌, ◌≢◌, refl, subst, true, false, ◌||◌, not, List, [], ◌∷◌, Option, none,
  some, Buf, ok, Returns, Returns-bind, Returns-expect, ◌==◌, arith, ℤ, pos, negsuc, is_positive,
  is_negative, nat_of, ulong_of,
}
use longan_chkout.Fsx.Settings.{
  Text, Opt, opt_debug, opt_flush, opt_keep, opt_sizechecks, opt_quiet, opt_prealloc, opt_do_fsync,
  opt_aio, opt_fallocate, opt_keep_size, opt_punch_hole, opt_zero_range, opt_collapse_range,
  opt_insert_range, opt_clone_range, opt_dedupe_range, opt_copy_range, opt_lite, opt_randomoplen,
  opt_mapped_reads, opt_mapped_writes, opt_check_file, opt_o_direct, opt_filldata, opt_logdev,
  opt_logid, opt_dirpath, opt_replay_ops, opt_closeprob, opt_progressinterval, opt_style,
  opt_debugstart, opt_numops, opt_seed, opt_maxfilelen, opt_maxoplen, opt_readbdy, opt_truncbdy,
  opt_writebdy, opt_record_ops, opt_unknown, opt_simulatedopcount, opt_monitor, Options, defaults,
  config_of,
}
use longan_chkout.Fsx.Options.{
  factor, scaled, getnum, monitor_end, parse_option, parse_options, main_options, is_empty,
}
use longan_chkout.Fsx.Live.{IsSetUp}

-- The bounds that the checks of the switch establish.
pub record IsAccepted (o : Options) : Type 0 where
  pub maxfilelen_pos : 0 < o.maxfilelen
  pub maxoplen_pos : 0 < nat_of o.maxoplen
  pub readbdy_pos : 0 < nat_of o.readbdy
  pub truncbdy_pos : 0 < nat_of o.truncbdy
  pub writebdy_pos : 0 < nat_of o.writebdy

positive : (z : ℤ) → is_positive z ≡ true → 0 < nat_of z
positive (pos n) h = ground arith
positive (negsuc n) h = cc

-- An option that leaves the five numbers alone.
keeps :
    (o t : Options)
    → t.maxfilelen ≡ o.maxfilelen
    → t.maxoplen ≡ o.maxoplen
    → t.readbdy ≡ o.readbdy
    → t.truncbdy ≡ o.truncbdy
    → t.writebdy ≡ o.writebdy
    → IsAccepted o
    → IsAccepted t
keeps o t a b c d e v = record {
  maxfilelen_pos = rw a v.maxfilelen_pos;
  maxoplen_pos = rw b v.maxoplen_pos;
  readbdy_pos = rw c v.readbdy_pos;
  truncbdy_pos = rw d v.truncbdy_pos;
  writebdy_pos = rw e v.writebdy_pos;
}

module _ (strtol : Text → ℤ × Text) (clock : ℤ) where
  monitor_end-IsAccepted :
      (s : Option Text) (o : Options)
      → IsAccepted o
      → Returns IsAccepted (monitor_end strtol clock s o)
  unfolding monitor_end
  monitor_end-IsAccepted none o v = tt
  monitor_end-IsAccepted (some s) o v =
      Returns-bind IsAccepted IsAccepted _ _
        (Returns-expect IsAccepted (not (is_negative (getnum strtol clock s).0)) 90 o (λ h. v))
        (λ t a. keeps t _ refl refl refl refl refl a)

  pub parse_option-IsAccepted :
      (x : Opt) (o : Options) → IsAccepted o → Returns IsAccepted (parse_option strtol clock x o)
  unfolding parse_option
  parse_option-IsAccepted opt_debug o v = keeps o _ refl refl refl refl refl v
  parse_option-IsAccepted opt_flush o v = keeps o _ refl refl refl refl refl v
  parse_option-IsAccepted opt_keep o v = keeps o _ refl refl refl refl refl v
  parse_option-IsAccepted opt_sizechecks o v = keeps o _ refl refl refl refl refl v
  parse_option-IsAccepted opt_quiet o v = keeps o _ refl refl refl refl refl v
  parse_option-IsAccepted opt_prealloc o v = keeps o _ refl refl refl refl refl v
  parse_option-IsAccepted opt_do_fsync o v = keeps o _ refl refl refl refl refl v
  parse_option-IsAccepted opt_aio o v = keeps o _ refl refl refl refl refl v
  parse_option-IsAccepted opt_fallocate o v = keeps o _ refl refl refl refl refl v
  parse_option-IsAccepted opt_keep_size o v = keeps o _ refl refl refl refl refl v
  parse_option-IsAccepted opt_punch_hole o v = keeps o _ refl refl refl refl refl v
  parse_option-IsAccepted opt_zero_range o v = keeps o _ refl refl refl refl refl v
  parse_option-IsAccepted opt_collapse_range o v = keeps o _ refl refl refl refl refl v
  parse_option-IsAccepted opt_insert_range o v = keeps o _ refl refl refl refl refl v
  parse_option-IsAccepted opt_clone_range o v = keeps o _ refl refl refl refl refl v
  parse_option-IsAccepted opt_dedupe_range o v = keeps o _ refl refl refl refl refl v
  parse_option-IsAccepted opt_copy_range o v = keeps o _ refl refl refl refl refl v
  parse_option-IsAccepted opt_lite o v = keeps o _ refl refl refl refl refl v
  parse_option-IsAccepted opt_randomoplen o v = keeps o _ refl refl refl refl refl v
  parse_option-IsAccepted opt_mapped_reads o v = keeps o _ refl refl refl refl refl v
  parse_option-IsAccepted opt_mapped_writes o v = keeps o _ refl refl refl refl refl v
  parse_option-IsAccepted opt_check_file o v = keeps o _ refl refl refl refl refl v
  parse_option-IsAccepted opt_o_direct o v = keeps o _ refl refl refl refl refl v
  parse_option-IsAccepted (opt_filldata s) o v = keeps o _ refl refl refl refl refl v
  parse_option-IsAccepted (opt_logdev s) o v = keeps o _ refl refl refl refl refl v
  parse_option-IsAccepted (opt_logid s) o v = keeps o _ refl refl refl refl refl v
  parse_option-IsAccepted (opt_dirpath s) o v = keeps o _ refl refl refl refl refl v
  parse_option-IsAccepted (opt_replay_ops s) o v = keeps o _ refl refl refl refl refl v
  parse_option-IsAccepted (opt_record_ops none) o v = keeps o _ refl refl refl refl refl v
  parse_option-IsAccepted (opt_record_ops (some s)) o v = keeps o _ refl refl refl refl refl v
  parse_option-IsAccepted opt_unknown o v = tt
  parse_option-IsAccepted (opt_closeprob s) o v =
      Returns-expect IsAccepted _ 90 _ (λ h. keeps o _ refl refl refl refl refl v)
  parse_option-IsAccepted (opt_progressinterval s) o v =
      Returns-expect IsAccepted _ 90 _ (λ h. keeps o _ refl refl refl refl refl v)
  parse_option-IsAccepted (opt_style s) o v =
      Returns-expect IsAccepted _ 90 _ (λ h. keeps o _ refl refl refl refl refl v)
  parse_option-IsAccepted (opt_debugstart s) o v =
      Returns-expect IsAccepted _ 90 _ (λ h. keeps o _ refl refl refl refl refl v)
  parse_option-IsAccepted (opt_numops s) o v =
      Returns-expect IsAccepted _ 90 _ (λ h. keeps o _ refl refl refl refl refl v)
  parse_option-IsAccepted (opt_seed s) o v =
      Returns-expect IsAccepted _ 90 _ (λ h. keeps o _ refl refl refl refl refl v)
  parse_option-IsAccepted (opt_simulatedopcount s) o v =
      Returns-bind IsAccepted IsAccepted _ _
        (Returns-expect IsAccepted (not (ulong_of (getnum strtol clock s).0 == 0)) 90
          (record o { simulatedopcount = ulong_of (getnum strtol clock s).0 })
          (λ h. keeps o _ refl refl refl refl refl v))
        (λ t a. keeps t _ refl refl refl refl refl a)
  parse_option-IsAccepted (opt_monitor s) o v =
      Returns-bind IsAccepted IsAccepted _ _
        (Returns-expect IsAccepted (not (is_negative (getnum strtol clock s).0)) 90
          (record o { monitorstart = some (nat_of (getnum strtol clock s).0) })
          (λ h. keeps o _ refl refl refl refl refl v))
        (λ t a. monitor_end-IsAccepted _ t a)
  parse_option-IsAccepted (opt_maxfilelen s) o v = Returns-expect IsAccepted _ 90 _ (λ h. record {
    maxfilelen_pos = ground (arith, h);
    maxoplen_pos = v.maxoplen_pos;
    readbdy_pos = v.readbdy_pos;
    truncbdy_pos = v.truncbdy_pos;
    writebdy_pos = v.writebdy_pos;
  })
  parse_option-IsAccepted (opt_maxoplen s) o v = Returns-expect IsAccepted _ 90 _ (λ h. record {
    maxfilelen_pos = v.maxfilelen_pos;
    maxoplen_pos = positive (getnum strtol clock s).0 h;
    readbdy_pos = v.readbdy_pos;
    truncbdy_pos = v.truncbdy_pos;
    writebdy_pos = v.writebdy_pos;
  })
  parse_option-IsAccepted (opt_readbdy s) o v = Returns-expect IsAccepted _ 90 _ (λ h. record {
    maxfilelen_pos = v.maxfilelen_pos;
    maxoplen_pos = v.maxoplen_pos;
    readbdy_pos = positive (getnum strtol clock s).0 h;
    truncbdy_pos = v.truncbdy_pos;
    writebdy_pos = v.writebdy_pos;
  })
  parse_option-IsAccepted (opt_truncbdy s) o v = Returns-expect IsAccepted _ 90 _ (λ h. record {
    maxfilelen_pos = v.maxfilelen_pos;
    maxoplen_pos = v.maxoplen_pos;
    readbdy_pos = v.readbdy_pos;
    truncbdy_pos = positive (getnum strtol clock s).0 h;
    writebdy_pos = v.writebdy_pos;
  })
  parse_option-IsAccepted (opt_writebdy s) o v = Returns-expect IsAccepted _ 90 _ (λ h. record {
    maxfilelen_pos = v.maxfilelen_pos;
    maxoplen_pos = v.maxoplen_pos;
    readbdy_pos = v.readbdy_pos;
    truncbdy_pos = v.truncbdy_pos;
    writebdy_pos = positive (getnum strtol clock s).0 h;
  })

  pub parse_options-IsAccepted :
      (opts : List Opt) (o : Options)
      → IsAccepted o
      → Returns IsAccepted (parse_options strtol clock opts o)
  unfolding parse_options
  parse_options-IsAccepted [] o v = v
  parse_options-IsAccepted (x ∷ xs) o v =
      Returns-bind IsAccepted IsAccepted _ _ (parse_option-IsAccepted x o v)
        (λ t a. parse_options-IsAccepted xs t a)

  defaults-IsAccepted : IsAccepted defaults
  defaults-IsAccepted = record {
    maxfilelen_pos = omega arith;
    maxoplen_pos = omega arith;
    readbdy_pos = omega arith;
    truncbdy_pos = omega arith;
    writebdy_pos = omega arith;
  }

  -- Whatever the options and the number of arguments, `main` exits or goes on with positive limits
  -- on the file and on the operations, and positive boundaries for reads, writes and truncations.
  pub main_options-IsAccepted :
      (opts : List Opt) (argc : ℕ) → Returns IsAccepted (main_options strtol clock opts argc)
  unfolding main_options
  main_options-IsAccepted opts argc =
      Returns-bind IsAccepted IsAccepted _ _
        (parse_options-IsAccepted opts defaults defaults-IsAccepted)
        (λ o a.
          Returns-bind IsAccepted IsAccepted _ _
            (Returns-expect IsAccepted (argc == 1) 90 o (λ h. a))
            (λ t b.
              Returns-expect IsAccepted (not t.integrity || not (is_empty t.dname)) 90 t (λ h. b)))

  -- If `main` accepts the options without `-L`, the limit on the file size is below 2 ^ 31, and the
  -- block and page sizes are positive and the page size below 2 ^ 31, the globals of the run are
  -- set up as the theorems on runs require: no boundary is 0.
  pub main_options-IsSetUp :
      (opts : List Opt) (argc : ℕ) (o : Options) (original_buf : Buf) (random : ℕ → ℕ)
      (block page : ℕ)
      → main_options strtol clock opts argc ≡ ok o
      → o.lite ≡ false
      → o.maxfilelen < 2 ^ 31
      → 0 < block
      → 0 < page
      → page < 2 ^ 31
      → IsSetUp (config_of o original_buf random block page)
  unfolding config_of
  main_options-IsSetUp opts argc o original_buf random block page e l f b p q = record {
    readbdy_pos = accepted.readbdy_pos;
    writebdy_pos = accepted.writebdy_pos;
    truncbdy_pos = accepted.truncbdy_pos;
    block_pos = b;
    page_pos = p;
    small_file = f;
    small_page = q;
    not_lite = l;
  }
    where
      accepted : IsAccepted o
      accepted = subst (Returns IsAccepted) e (main_options-IsAccepted opts argc)

  -- Where `strtol` reads a number that is not negative in front of a suffix that counts, and the
  -- product with the factor of the suffix is below 2 ^ 31, `getnum` gives the product, and ends
  -- behind the suffix.
  pub getnum_lem :
      (s e : Text) (n ch : ℕ)
      → strtol s ≡ (pos n, ch ∷ e)
      → factor ch ≢ 1
      → n * factor ch < 2 ^ 31
      → getnum strtol clock s ≡ (pos (n * factor ch), e)
  unfolding getnum scaled
  getnum_lem s e n ch h f l = rw h (grind arith)
