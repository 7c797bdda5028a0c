-- ===== src/Opt/Total.antt =====
-- The parser ends: no round of its loop goes back in the arguments, so the fuel of `opt_parse`
-- suffices.
use fuse_nt.Prelude.{
  ℕ, zero, suc, ◌+◌, ◌≤◌, ◌<◌, ◌≢◌, Bool, true, false, ◌&&◌, ◌||◌, not, Option, none, some, List,
  [], ◌∷◌, ◌++◌, ltb, ◌==◌, take, get_elem?, length, arith, Bool-cases, ltb→lt, inl, inr,
}
use fuse_nt.Prelude.Int.{ℤ, ◌==ℤ◌}
use fuse_nt.Prelude.Run.{Run}
use fuse_nt.Opt.Args
use fuse_nt.Opt.Args.{Str, Mem, FuseArgs, next_alloc, is_null}
use fuse_nt.Opt.Match.{FuseOpt, match_template, find_opt, space}
use fuse_nt.Opt.Process.{
  Host, Ctx, key_keep, key_discard, key_opt, key_nonopt, starts_percent, is_string, has_format,
  at_char, step_to, process_dash_o, process_dash, dispatch, at_match, if_found, through, at_offset,
  call_proc, process_opt_param, process_opt, next_arg, process_match, process_matches, process_gopt,
  process_option_group, end_of_options, process_one,
}
use fuse_nt.Opt.Parse.{
  one_arg, advance, dash_o, insert_some, program_name, is_last_separator, start_ctx, conclude,
  parse_loop, opt_parse, fuse_opt_parse, parsed, no_fuel,
}
use fuse_nt.Opt.Ahead.{
  Ahead, goes, fails, aborts, Ahead-and_then, Ahead-weaken, Ahead-if, malloc-Ahead, with_out-Ahead,
  keep_arg-Ahead, option_group-Ahead, insert_arg-fuel,
}

module _ {D : Type 0} (host : Host D) where
  through-Ahead :
      (p : Option (D → Str → ℤ → FuseArgs → ℤ × D × FuseArgs)) (arg : Str) (key : ℤ) (iso : Bool)
      {n : ℕ} (c : Ctx D)
      → n ≤ c.argctr
      → Ahead n (through host p arg key iso c)
  through-Ahead none arg key iso c h = keep_arg-Ahead iso arg c h
  through-Ahead (some proc) arg key iso c h =
      Ahead-if (key ==ℤ key_keep) (keep_arg-Ahead iso arg c h)
        (Ahead-if _ fails (Ahead-if _ (goes h) (keep_arg-Ahead iso arg _ h)))

  call_proc-Ahead :
      (arg : Str) (key : ℤ) (iso : Bool) {n : ℕ} (c : Ctx D)
      → n ≤ c.argctr
      → Ahead n (call_proc host arg key iso c)
  unfolding call_proc
  call_proc-Ahead arg key iso c h =
      Ahead-if (key ==ℤ key_discard) (goes h) (through-Ahead host.proc arg key iso c h)

  process_opt_param-Ahead :
      (offset : ℕ) (format param : Str) {n : ℕ} (c : Ctx D)
      → n ≤ c.argctr
      → Ahead n (process_opt_param host offset format param c)
  unfolding process_opt_param
  process_opt_param-Ahead offset format param c h =
      Ahead-if (not (starts_percent host format)) aborts (
        Ahead-if (is_string host format) (Ahead-and_then (malloc-Ahead c h) (λ _ c' g. goes g))
          (Ahead-if (host.scan offset format param c.vars).0 (goes h) fails))

  at_offset-Ahead :
      (o : Option ℕ) (opt : FuseOpt) (sep : ℕ) (arg : Str) (iso : Bool) {n : ℕ} (c : Ctx D)
      → n ≤ c.argctr
      → Ahead n (at_offset host o opt sep arg iso c)
  at_offset-Ahead none opt sep arg iso c h = call_proc-Ahead arg opt.value iso c h
  at_offset-Ahead (some offset) opt sep arg iso c h =
      Ahead-if (has_format host opt sep) (process_opt_param-Ahead offset _ _ c h) (goes h)

  process_opt-Ahead :
      (opt : FuseOpt) (sep : ℕ) (arg : Str) (iso : Bool) {n : ℕ} (c : Ctx D)
      → n ≤ c.argctr
      → Ahead n (process_opt host opt sep arg iso c)
  unfolding process_opt
  process_opt-Ahead opt sep arg iso c h = at_offset-Ahead opt.offset opt sep arg iso c h

  module _ (argv : List Str) where
    step_to-Ahead :
        (o : Option Str) {n : ℕ} (c : Ctx D) → n ≤ c.argctr → Ahead n (step_to host argv o c)
    step_to-Ahead none c h = aborts
    step_to-Ahead (some arg) c h = goes (omega arith)

    next_arg-Ahead : {n : ℕ} (c : Ctx D) → n ≤ c.argctr → Ahead n (next_arg host argv c)
    unfolding next_arg
    next_arg-Ahead c h =
        Ahead-if (ltb (c.argctr + 1) (length argv))
          (step_to-Ahead (get_elem? argv (c.argctr + 1)) c h) fails

    process_match-Ahead :
        (opt : FuseOpt) (sep : ℕ) (arg : Str) (iso : Bool) {n : ℕ} (c : Ctx D)
        → n ≤ c.argctr
        → Ahead n (process_match host argv opt sep arg iso c)
    unfolding process_match
    process_match-Ahead opt sep arg iso c h =
        Ahead-if (not (sep == 0) && (at_char host sep space opt.templ && (length arg == sep)))
          (Ahead-and_then (next_arg-Ahead c h) λ param c₁ h₁.
            Ahead-and_then (malloc-Ahead c₁ h₁)
              λ _ c₂ h₂. process_opt-Ahead opt sep (take sep arg ++ param) iso c₂ h₂)
          (process_opt-Ahead opt sep arg iso c h)

    at_match-Ahead :
        (m : Option ℕ) (o : FuseOpt) (arg : Str) (iso : Bool) {n : ℕ} (c : Ctx D)
        → n ≤ c.argctr
        → Ahead n (at_match host argv m o arg iso c)
    at_match-Ahead none o arg iso c h = goes h
    at_match-Ahead (some sep) o arg iso c h = process_match-Ahead o sep arg iso c h

    process_matches-Ahead :
        (os : List FuseOpt) (arg : Str) (iso : Bool) {n : ℕ} (c : Ctx D)
        → n ≤ c.argctr
        → Ahead n (process_matches host argv os arg iso c)
    unfolding process_matches
    process_matches-Ahead [] arg iso c h = goes h
    process_matches-Ahead (o ∷ os) arg iso c h =
        Ahead-and_then (at_match-Ahead (match_template o.templ arg) o arg iso c h)
          (λ _ c' g. process_matches-Ahead os arg iso c' g)

    module _ (options : List FuseOpt) where
      if_found-Ahead :
          (m : Option (FuseOpt × ℕ)) (arg : Str) (iso : Bool) {n : ℕ} (c : Ctx D)
          → n ≤ c.argctr
          → Ahead n (if_found host argv options m arg iso c)
      if_found-Ahead none arg iso c h = call_proc-Ahead arg key_opt iso c h
      if_found-Ahead (some _) arg iso c h = process_matches-Ahead options arg iso c h

      process_gopt-Ahead :
          (arg : Str) (iso : Bool) {n : ℕ} (c : Ctx D)
          → n ≤ c.argctr
          → Ahead n (process_gopt host argv options arg iso c)
      unfolding process_gopt
      process_gopt-Ahead arg iso c h = if_found-Ahead (find_opt options arg) arg iso c h

      process_option_group-Ahead :
          (opts : Str) {n : ℕ} (c : Ctx D)
          → n ≤ c.argctr
          → Ahead n (process_option_group host argv options opts c)
      unfolding process_option_group
      process_option_group-Ahead opts c h = Ahead-and_then (malloc-Ahead c h) λ _ c₁ h₁.
          option_group-Ahead (λ o. process_gopt host argv options o true)
            (λ o c₂ h₂. process_gopt-Ahead o true c₂ h₂) [] opts c₁ h₁

      process_dash_o-Ahead :
          (rest : Str) {n : ℕ} (c : Ctx D)
          → n ≤ c.argctr
          → Ahead n (process_dash_o host argv options rest c)
      process_dash_o-Ahead [] c h =
          Ahead-and_then (next_arg-Ahead c h)
            (λ group c₁ h₁. process_option_group-Ahead group c₁ h₁)
      process_dash_o-Ahead (d ∷ group) c h = process_option_group-Ahead (d ∷ group) c h

      process_dash-Ahead :
          (arg rest : Str) {n : ℕ} (c : Ctx D)
          → n ≤ c.argctr
          → Ahead n (process_dash host argv options arg rest c)
      unfolding end_of_options
      process_dash-Ahead arg [] c h = process_gopt-Ahead arg false c h
      process_dash-Ahead arg (d ∷ rest) c h = Ahead-if (d == b'o') (process_dash_o-Ahead rest c h) (
          Ahead-if (d == b'-' && (length rest == 0))
            (Ahead-and_then (keep_arg-Ahead false arg c h) (λ _ c₁ h₁. goes h₁))
            (process_gopt-Ahead arg false c h))

      dispatch-Ahead :
          (arg : Str) {n : ℕ} (c : Ctx D)
          → n ≤ c.argctr
          → Ahead n (dispatch host argv options arg c)
      dispatch-Ahead [] c h = call_proc-Ahead [] key_nonopt false c h
      dispatch-Ahead (d ∷ rest) c h =
          Ahead-if (d == b'-') (process_dash-Ahead (d ∷ rest) rest c h)
            (call_proc-Ahead (d ∷ rest) key_nonopt false c h)

      -- An argument is processed with no step back.
      pub process_one-Ahead :
          (arg : Str) {n : ℕ} (c : Ctx D)
          → n ≤ c.argctr
          → Ahead n (process_one host argv options arg c)
      unfolding process_one
      process_one-Ahead arg c h =
          Ahead-if (c.nonopt == 0) (dispatch-Ahead arg c h)
            (call_proc-Ahead arg key_nonopt false c h)

      one_arg-Ahead :
          (o : Option Str) {n : ℕ} (c : Ctx D)
          → n ≤ c.argctr
          → Ahead n (one_arg host options argv o c)
      one_arg-Ahead none c h = aborts
      one_arg-Ahead (some arg) c h = process_one-Ahead arg c h

      pub parse_loop-Ahead :
          (fuel : ℕ) (c : Ctx D)
          → 0 < fuel
          → length argv < c.argctr + fuel
          → Ahead c.argctr (parse_loop host options argv fuel c)
      unfolding parse_loop
      parse_loop-Ahead zero c p h = absurd (omega arith)
      parse_loop-Ahead (suc fuel) c p h = elim (Bool-cases (ltb c.argctr (length argv))) [
        | inr e ↦ rw e (goes (omega arith))
        | inl e ↦
            let more : c.argctr < length argv = ltb→lt c.argctr (length argv) e in
            rw e (
              Ahead-and_then
                (one_arg-Ahead (get_elem? argv c.argctr) {n = c.argctr} c (omega arith))
                λ _ c₁ h₁. Ahead-weaken (omega arith) (
                  parse_loop-Ahead fuel (advance host options argv c₁) (omega arith) (omega arith)))
      ]

  insert_some-Ahead :
      (o : Option Str) {n : ℕ} (c : Ctx D) → n ≤ c.argctr → Ahead n (insert_some o c)
  insert_some-Ahead none c h = goes h
  insert_some-Ahead (some opts) c h =
      Ahead-and_then
        (with_out-Ahead c (Args.insert_arg 1 dash_o (c.out, c.mem))
          (insert_arg-fuel 1 dash_o (c.out, c.mem)) h)
        λ _ c₁ h₁.
          with_out-Ahead c₁ (Args.insert_arg 2 opts (c₁.out, c₁.mem))
            (insert_arg-fuel 2 opts (c₁.out, c₁.mem)) h₁

  program_name-Ahead :
      (argv : List Str) {n : ℕ} (c : Ctx D) → n ≤ c.argctr → Ahead n (program_name argv c)
  program_name-Ahead [] c h = goes h
  program_name-Ahead (arg ∷ argv) c h =
      with_out-Ahead c (Args.add_arg arg (c.out, c.mem)) (unfold Args.add_arg in ground arith) h

  opt_parse-Ahead :
      (options : List FuseOpt) (argv : List Str) (c : Ctx D)
      → Ahead 0 (opt_parse host options argv c)
  unfolding opt_parse
  opt_parse-Ahead options argv c =
      Ahead-and_then (program_name-Ahead argv c (omega arith)) λ _ c₁ h₁.
        Ahead-and_then
          (Ahead-weaken (omega arith) (
            parse_loop-Ahead argv options (length argv + 1) (record c₁ { argctr = 1 }) (omega arith)
              (omega arith)))
          λ _ c₂ h₂.
            Ahead-and_then (insert_some-Ahead c₂.opts c₂ h₂)
              λ _ c₃ h₃. Ahead-if (is_last_separator c₃) (goes (omega arith)) (goes (omega arith))

  conclude-fuel :
      (options : List FuseOpt) (mem : Mem) (args : FuseArgs) {r : Run (Ctx D) (Unit {0})}
      → Ahead 0 r
      → conclude host options mem args r ≢ no_fuel
  unfolding Args.free_args
  conclude-fuel options mem args (goes h) = ground arith
  conclude-fuel options mem args fails = ground arith
  conclude-fuel options mem args aborts = cc

  -- `fuse_opt_parse` ends on every input: whatever the arguments, the options, the processing
  -- function and the outcomes of the allocations, the loop needs no more rounds than there are
  -- arguments.
  pub fuse_opt_parse-ne-no_fuel :
      (options : List FuseOpt) (mem : Mem) (args : FuseArgs) (vars : D)
      → fuse_opt_parse host options mem args vars ≢ no_fuel
  unfolding fuse_opt_parse
  fuse_opt_parse-ne-no_fuel options mem args vars =
      elim (Bool-cases (is_null args.argv || args.argc == 0)) [
        | inl e ↦ rw e parsed-ne
        | inr e ↦ rw e (
            conclude-fuel options mem args (
              opt_parse-Ahead options (take args.argc (Args.entries args.argv))
                (start_ctx host options mem vars)))
      ]
    where
      parsed-ne : parsed true args vars ≢ no_fuel
      parsed-ne = cc
