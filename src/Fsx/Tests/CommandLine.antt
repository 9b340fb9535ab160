-- ===== src/Fsx/Tests/CommandLine.antt =====
-- The options of fsx.c at concrete inputs.
use longan_chkout.Base.{
  ℕ, ◌+◌, ◌-◌, ◌*◌, refl, true, ◌&&◌, List, [], ◌∷◌, leb, if◌then◌else◌, arith, ℤ, pos,
}
use longan_chkout.Fsx.Live.{IsSetUp}
use longan_chkout.Fsx.Settings.{
  Text, Opt, opt_readbdy, opt_maxfilelen, opt_check_file, Options, config_of, defaults,
}
use longan_chkout.Fsx.Options.{
  getnum, scaled, factor, parse_option, parse_options, main_options, is_empty,
}
use longan_chkout.Fsx.Options.Accepted.{main_options-IsSetUp}

-- Decimal numbers without a sign.
decimal : ℕ → Text → ℤ × Text
decimal n [] = (pos n, [])
decimal n (ch ∷ s) =
    if leb 48 ch && leb ch 57 then decimal (n * 10 + (ch - 48)) s else (pos n, ch ∷ s)

abbrev strtol : Text → ℤ × Text
unfolding decimal
strtol = decimal 0

abbrev opts : List Opt
opts = opt_readbdy (52 ∷ 48 ∷ []) ∷ opt_maxfilelen (56 ∷ 107 ∷ []) ∷ opt_check_file ∷ []

abbrev parsed : Options
parsed = record defaults { readbdy = pos 40; maxfilelen = 8192; check_file = true }

main_options-IsSetUp_example : IsSetUp (config_of parsed (λ i. 0) (λ n. n) 4096 4096)
unfolding main_options parse_options parse_option getnum scaled factor is_empty decimal
main_options-IsSetUp_example =
    main_options-IsSetUp strtol (pos 1) opts 1 parsed (λ i. 0) (λ n. n) 4096 4096 refl refl
      (omega arith) (omega arith) (omega arith) (omega arith)
