-- ===== src/Opt/Parse.antt =====
-- The whole parser: `opt_parse` and `fuse_opt_parse` of fuse-2.8.5/lib/fuse_opt.c.
use fuse_nt.Prelude.{
  ℕ, zero, suc, ◌+◌, ◌-◌, Bool, true, false, ◌&&◌, ◌||◌, not, Option, none, some, List, [], ◌∷◌,
  ltb, ◌==◌, if◌then◌else◌, length, take, get_elem?,
}
use fuse_nt.Prelude.Run.{Run, ok, err, abort, out_of_fuel, Cmd, and_then, ◌>>◌}
use fuse_nt.Opt.Args
use fuse_nt.Opt.Args.{Str, Mem, null, array, is_null, entries, FuseArgs, no_args, free_args}
use fuse_nt.Opt.Match.{FuseOpt}
use fuse_nt.Prelude.Strings.{str_eq}
use fuse_nt.Opt.Process.{Host, Ctx, on_out, process_one}

-- "-o" and "--"
abbrev pub dash_o : Str
dash_o = b'-' ∷ b'o' ∷ []

abbrev pub dash_dash : Str
dash_dash = b'-' ∷ b'-' ∷ []

abbrev pub is_dash_dash : Option Str → Bool
is_dash_dash none = false
is_dash_dash (some arg) = str_eq arg dash_dash

module _ {D : Type 0} where
  abbrev pub program_name : List Str → Cmd (Ctx D)
  program_name [] c = ok tt c
  program_name (arg ∷ _) c = on_out (Args.add_arg arg) c

  abbrev pub set_argctr : ℕ → Cmd (Ctx D)
  set_argctr n c = ok tt (record c { argctr = n })

  abbrev pub insert_some : Option Str → Cmd (Ctx D)
  insert_some none c = ok tt c
  insert_some (some opts) c =
      (on_out (Args.insert_arg 1 dash_o) >> on_out (Args.insert_arg 2 opts)) c

  -- the kept options go in at positions 1 and 2
  unfoldable pub insert_opts : Cmd (Ctx D)
  unfolding Args.insert_arg Args.add_arg Args.move_last
  insert_opts c = insert_some c.opts c

  -- `ctx->nonopt == ctx->outargs.argc` and the last output argument is "--"
  abbrev pub is_last_separator : Ctx D → Bool
  is_last_separator c =
      not (c.nonopt == 0)
      && (c.nonopt == c.out.argc && is_dash_dash (get_elem? (entries c.out.argv) (c.out.argc - 1)))

  unfoldable pub drop_separator : Cmd (Ctx D)
  unfolding str_eq
  drop_separator c =
      if is_last_separator c
      then ok tt (record c {
        out = record {
          argc = c.out.argc - 1;
          argv = array (take (c.out.argc - 1) (entries c.out.argv));
          allocated = c.out.allocated;
        };
      })
      else ok tt c

module _ {D : Type 0} (host : Host D) (options : List FuseOpt) (argv : List Str) where
  abbrev pub one_arg : Option Str → Cmd (Ctx D)
  one_arg none c = abort
  one_arg (some arg) c = process_one host argv options arg c

  abbrev pub advance : Ctx D → Ctx D
  advance c = record c { argctr = c.argctr + 1 }

  -- `for (ctx->argctr = 1; ctx->argctr < ctx->argc; ctx->argctr++)`
  unfoldable pub parse_loop : ℕ → Cmd (Ctx D)
  parse_loop zero c = out_of_fuel
  parse_loop (suc fuel) c =
      let rest =
        and_then (one_arg (get_elem? argv c.argctr) c) (λ _ c'. parse_loop fuel (advance c')) in
      if ltb c.argctr (length argv) then rest else ok tt c

  -- Each round raises `argctr`, so one round for each argument and one for the end are enough.
  unfoldable pub opt_parse : Cmd (Ctx D)
  unfolding Args.add_arg process_one parse_loop insert_opts drop_separator
  opt_parse =
      program_name argv
      >> (set_argctr 1 >> (parse_loop (length argv + 1) >> (insert_opts >> drop_separator)))

-- What `fuse_opt_parse` leaves: whether it returned 0, the caller's arguments, and the memory
-- behind `data`; or it went wrong.
pub data Parsed (D : Type 0) : Type 0 where
  parsed : Bool → FuseArgs → D → Parsed D
  crashed : Parsed D
  no_fuel : Parsed D

module _ {D : Type 0} (host : Host D) (options : List FuseOpt) (mem : Mem) where
  abbrev pub start_ctx : D → Ctx D
  start_ctx vars = record {
    vars = vars;
    argctr = 0;
    out = no_args;
    opts = none;
    nonopt = 0;
    mem = mem;
  }

  -- the swap of `*args` and `ctx.outargs`, and the release of what is no longer used
  abbrev pub conclude : FuseArgs → Run (Ctx D) (Unit {0}) → Parsed D
  conclude args (ok _ c) = elim (free_args args) [
    | none ↦ crashed
    | some _ ↦ parsed true c.out c.vars
  ]
  conclude args (err c) = elim (free_args c.out) [
    | none ↦ crashed
    | some _ ↦ parsed false args c.vars
  ]
  conclude args abort = crashed
  conclude args out_of_fuel = no_fuel

  unfoldable pub fuse_opt_parse : FuseArgs → D → Parsed D
  unfolding opt_parse free_args
  fuse_opt_parse args vars =
      if is_null args.argv || args.argc == 0
      then parsed true args vars
      else conclude args
          (opt_parse host options (take args.argc (entries args.argv)) (start_ctx vars))
