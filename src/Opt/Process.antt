-- ===== src/Opt/Process.antt =====
-- One argument or option: `call_proc`, `process_opt_param`, `process_opt`, `process_opt_sep_arg`,
-- `process_gopt`, `process_option_group` and `process_one` of fuse-2.8.5/lib/fuse_opt.c.
use fuse_nt.Prelude.{
  ℕ, zero, suc, ◌+◌, Bool, true, false, ◌&&◌, not, Option, none, some, List, [], ◌∷◌, ◌++◌, ltb,
  ◌==◌, if◌then◌else◌, length, take, drop, get_elem?,
}
use fuse_nt.Prelude.Int.{ℤ, pos, negsuc, ◌==ℤ◌}
use fuse_nt.Prelude.Run.{Run, ok, err, abort, out_of_fuel, M, Cmd, ◌>>=◌, ◌>>◌, skip}
use fuse_nt.Opt.Args.{Str, Mem, next_alloc, FuseArgs}
use fuse_nt.Opt.Args
use fuse_nt.Opt.Options
use fuse_nt.Opt.Options.{option_group}
use fuse_nt.Opt.Match.{FuseOpt, equals, space, percent, match_template, find_opt}

-- FUSE_OPT_KEY_OPT, FUSE_OPT_KEY_NONOPT, FUSE_OPT_KEY_KEEP and FUSE_OPT_KEY_DISCARD
abbrev pub key_opt : ℤ
key_opt = negsuc 0

abbrev pub key_nonopt : ℤ
key_nonopt = negsuc 1

abbrev pub key_keep : ℤ
key_keep = negsuc 2

abbrev pub key_discard : ℤ
key_discard = negsuc 3

-- What the caller of the parser brings, over the memory `D` behind its `data` pointer: the
-- processing function, which may be NULL; a write of an `int` and of a string at an offset; and
-- `sscanf`, which tells whether it returned 1.
pub record Host (D : Type 0) : Type 0 where
  pub proc : Option (D → Str → ℤ → FuseArgs → ℤ × D × FuseArgs)
  pub set_int : ℕ → ℤ → D → D
  pub set_str : ℕ → Str → D → D
  pub scan : ℕ → Str → Str → D → Bool × D

-- `struct fuse_opt_context` without its constant part, the options and the arguments
pub record Ctx (D : Type 0) : Type 0 where
  pub vars : D
  pub argctr : ℕ
  pub out : FuseArgs
  pub opts : Option Str
  pub nonopt : ℕ
  pub mem : Mem

abbrev pub nonempty : Str → Bool
nonempty [] = false
nonempty (_ ∷ _) = true

abbrev pub is_char : ℕ → Option ℕ → Bool
is_char c none = false
is_char c (some d) = d == c

module _ {D : Type 0} where
  -- a command on the output arguments, and one on the kept options
  abbrev pub with_out : Ctx D → Run (FuseArgs × Mem) (Unit {0}) → Run (Ctx D) (Unit {0})
  with_out c (ok _ (args, mem)) = ok tt (record c { out = args; mem = mem })
  with_out c (err (args, mem)) = err (record c { out = args; mem = mem })
  with_out c abort = abort
  with_out c out_of_fuel = out_of_fuel

  abbrev pub on_out : Cmd (FuseArgs × Mem) → Cmd (Ctx D)
  on_out m c = with_out c (m (c.out, c.mem))

  abbrev pub with_opts : Ctx D → Run (Option Str × Mem) (Unit {0}) → Run (Ctx D) (Unit {0})
  with_opts c (ok _ (opts, mem)) = ok tt (record c { opts = opts; mem = mem })
  with_opts c (err (opts, mem)) = err (record c { opts = opts; mem = mem })
  with_opts c abort = abort
  with_opts c out_of_fuel = out_of_fuel

  abbrev pub on_opts : Cmd (Option Str × Mem) → Cmd (Ctx D)
  on_opts m c = with_opts c (m (c.opts, c.mem))

  abbrev pub malloc : Cmd (Ctx D)
  malloc c =
      let (got, mem) = next_alloc c.mem in
      if got then ok tt (record c { mem = mem }) else err (record c { mem = mem })

  -- `add_arg` and `add_opt`
  unfoldable pub keep_arg : Bool → Str → Cmd (Ctx D)
  unfolding Args.add_arg Options.add_opt_escaped
  keep_arg iso arg =
      if iso then on_opts (Options.add_opt_escaped arg) else on_out (Args.add_arg arg)

module _ {D : Type 0} (host : Host D) where
  -- the call of the processing function: its result and the new state
  abbrev pub call : (D → Str → ℤ → FuseArgs → ℤ × D × FuseArgs) → Str → ℤ → Ctx D → ℤ × Ctx D
  call proc arg key c =
      let (res, vars, out) = proc c.vars arg key c.out in (res, record c { vars = vars; out = out })

  -- what the result of the processing function means
  abbrev pub after_proc : Str → Bool → ℤ × Ctx D → Run (Ctx D) (Unit {0})
  after_proc arg iso (res, c) =
      if res ==ℤ negsuc 0 then err c else if res ==ℤ pos 0 then ok tt c else keep_arg iso arg c

  abbrev pub through :
      Option (D → Str → ℤ → FuseArgs → ℤ × D × FuseArgs) → Str → ℤ → Bool → Cmd (Ctx D)
  through none arg key iso c = keep_arg iso arg c
  through (some proc) arg key iso c =
      if key ==ℤ key_keep then keep_arg iso arg c else after_proc arg iso (call proc arg key c)

  unfoldable pub call_proc : Str → ℤ → Bool → Cmd (Ctx D)
  unfolding keep_arg
  call_proc arg key iso c = if key ==ℤ key_discard then ok tt c else through host.proc arg key iso c

  -- format[1] == 's'
  abbrev pub is_string : Str → Bool
  is_string (_ ∷ (c ∷ _)) = c == b's'
  is_string _ = false

  abbrev pub starts_percent : Str → Bool
  starts_percent (c ∷ _) = c == percent
  starts_percent [] = false

  unfoldable pub process_opt_param : ℕ → Str → Str → Cmd (Ctx D)
  process_opt_param offset format param c =
      if not (starts_percent format)
      then abort
      else if is_string format
      then (malloc >> λ c'. ok tt (record c' { vars = host.set_str offset param c'.vars })) c
      else let (one, vars) = host.scan offset format param c.vars in
        if one then ok tt (record c { vars = vars }) else err (record c { vars = vars })

  -- `sep && opt->templ[sep + 1]`
  abbrev pub has_format : FuseOpt → ℕ → Bool
  has_format opt zero = false
  has_format opt (suc sep) = nonempty (drop (suc sep + 1) opt.templ)

  abbrev pub at_char : ℕ → ℕ → Str → Bool
  at_char sep c s = is_char c (get_elem? s sep)

  abbrev pub at_offset : Option ℕ → FuseOpt → ℕ → Str → Bool → Cmd (Ctx D)
  at_offset none opt sep arg iso c = call_proc arg opt.value iso c
  at_offset (some offset) opt sep arg iso c =
      if has_format opt sep
      then process_opt_param offset (drop (sep + 1) opt.templ)
          (drop (if at_char sep equals opt.templ then sep + 1 else sep) arg) c
      else ok tt (record c { vars = host.set_int offset opt.value c.vars })

  unfoldable pub process_opt : FuseOpt → ℕ → Str → Bool → Cmd (Ctx D)
  unfolding call_proc process_opt_param
  process_opt opt sep arg iso c = at_offset opt.offset opt sep arg iso c

  module _ (argv : List Str) where
    abbrev pub step_to : Option Str → M (Ctx D) Str
    step_to none c = abort
    step_to (some arg) c = ok arg (record c { argctr = c.argctr + 1 })

    -- the argument behind the one at hand
    unfoldable pub next_arg : M (Ctx D) Str
    next_arg c =
        if ltb (c.argctr + 1) (length argv)
        then step_to (get_elem? argv (c.argctr + 1)) c
        else err c

    unfoldable pub process_opt_sep_arg : FuseOpt → ℕ → Str → Bool → Cmd (Ctx D)
    unfolding next_arg process_opt
    process_opt_sep_arg opt sep arg iso = do
      param ← next_arg
      malloc
      process_opt opt sep (take sep arg ++ param) iso

    -- the body of the loop of `process_gopt`: a template that ends in a space takes the next
    -- argument, if this one ends where the parameter would begin
    unfoldable pub process_match : FuseOpt → ℕ → Str → Bool → Cmd (Ctx D)
    unfolding process_opt_sep_arg
    process_match opt sep arg iso c =
        if not (sep == 0) && (at_char sep space opt.templ && (length arg == sep))
        then process_opt_sep_arg opt sep arg iso c
        else process_opt opt sep arg iso c

    abbrev pub at_match : Option ℕ → FuseOpt → Str → Bool → Cmd (Ctx D)
    at_match none o arg iso = skip
    at_match (some sep) o arg iso = process_match o sep arg iso

    -- `for (; opt; opt = find_opt(opt + 1, arg, &sep))`: every matching option, in order
    unfoldable pub process_matches : List FuseOpt → Str → Bool → Cmd (Ctx D)
    unfolding process_match match_template
    process_matches [] arg iso = skip
    process_matches (o ∷ os) arg iso =
        at_match (match_template o.templ arg) o arg iso >> process_matches os arg iso

    module _ (options : List FuseOpt) where
      abbrev pub if_found : Option (FuseOpt × ℕ) → Str → Bool → Cmd (Ctx D)
      if_found none arg iso = call_proc arg key_opt iso
      if_found (some _) arg iso = process_matches options arg iso

      unfoldable pub process_gopt : Str → Bool → Cmd (Ctx D)
      unfolding process_matches find_opt
      process_gopt arg iso = if_found (find_opt options arg) arg iso

      -- `strdup`, and the loop of `process_real_option_group` from the front
      unfoldable pub process_option_group : Str → Cmd (Ctx D)
      unfolding process_gopt option_group
      process_option_group opts = malloc >> option_group (λ o. process_gopt o true) [] opts

      -- "--": what follows is no option
      unfoldable pub end_of_options : Str → Cmd (Ctx D)
      unfolding keep_arg
      end_of_options arg = keep_arg false arg >> λ c. ok tt (record c { nonopt = c.out.argc })

      -- "-o" with its group in this argument or in the next
      abbrev pub process_dash_o : Str → Cmd (Ctx D)
      process_dash_o [] = next_arg >>= process_option_group
      process_dash_o (d ∷ group) = process_option_group (d ∷ group)

      -- an argument that begins with '-', by what follows
      abbrev pub process_dash : Str → Str → Cmd (Ctx D)
      process_dash arg [] c = process_gopt arg false c
      process_dash arg (d ∷ rest) c =
          if d == b'o'
          then process_dash_o rest c
          else if d == b'-' && (length rest == 0)
          then end_of_options arg c
          else process_gopt arg false c

      abbrev pub dispatch : Str → Cmd (Ctx D)
      dispatch [] c = call_proc [] key_nonopt false c
      dispatch (d ∷ rest) c =
          if d == b'-'
          then process_dash (d ∷ rest) rest c
          else call_proc (d ∷ rest) key_nonopt false c

      unfoldable pub process_one : Str → Cmd (Ctx D)
      unfolding process_option_group end_of_options
      process_one arg c = if c.nonopt == 0 then dispatch arg c else call_proc arg key_nonopt false c
