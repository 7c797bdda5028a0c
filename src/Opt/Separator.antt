-- ===== src/Opt/Separator.antt =====
-- The end of `opt_parse` of fuse-2.8.5/lib/fuse_opt.c: the kept options and a closing "--".
use fuse_nt.Prelude.{
  ℕ, ◌+◌, ◌-◌, ◌≡◌, refl, Bool, true, false, Option, none, some, List, [], ◌∷◌, ◌++◌, ◌==◌, ==_refl,
  get_elem?, length, arith, length-append, take-append, ◌&&◌, not,
}
use fuse_nt.Prelude.Run.{ok, ◌>>◌}
use fuse_nt.Opt.Args.{Str, FuseArgs}
use fuse_nt.Opt.Insert.{owned, insert_arg-attempt, get_elem?-last}
use fuse_nt.Opt.Process.{Ctx}
use fuse_nt.Opt.Parse.{dash_o, dash_dash, insert_some, insert_opts, drop_separator}

-- the output when the separator is the last argument that the loop put there
abbrev pub separated : Str → List Str → FuseArgs
separated prog rest = owned (prog ∷ (rest ++ dash_dash ∷ []))

-- the arguments that come out
abbrev pub closed : Str → List Str → Option Str → FuseArgs
closed prog rest none = owned (prog ∷ rest)
closed prog rest (some opts) = owned (prog ∷ (dash_o ∷ (opts ∷ (rest ++ dash_dash ∷ []))))

and_false : (b : Bool) → (b && false) ≡ false
and_false true = refl
and_false false = refl

module _ {D : Type 0} where
  -- the state behind the loop, with no failed allocation to come
  abbrev pub at_end : D → ℕ → FuseArgs → Option Str → ℕ → Ctx D
  at_end vars argctr out opts nonopt = record {
    vars = vars;
    argctr = argctr;
    out = out;
    opts = opts;
    nonopt = nonopt;
    mem = [];
  }

  module _ (vars : D) (argctr : ℕ) where
    insert_some-owned :
        (prog : Str) (xs : List Str) (opts : Str) (kept : Option Str) (n : ℕ)
        → insert_some (some opts) (at_end vars argctr (owned (prog ∷ xs)) kept n)
          ≡ ok tt (at_end vars argctr (owned (prog ∷ (dash_o ∷ (opts ∷ xs)))) kept n)
    insert_some-owned prog xs opts kept n =
        rw (insert_arg-attempt 1 (prog ∷ xs) dash_o [] (omega arith))
          (rw (insert_arg-attempt 2 (prog ∷ (dash_o ∷ xs)) opts [] (omega arith)) refl)

    drop_when :
        (xs : List Str) (kept : Option Str)
        → drop_separator (at_end vars argctr (owned (xs ++ dash_dash ∷ [])) kept (length xs + 1))
          ≡ ok tt (at_end vars argctr (owned xs) kept (length xs + 1))
    unfolding drop_separator
    drop_when xs kept =
        let grow : length (xs ++ dash_dash ∷ []) ≡ length xs + 1 =
          length-append xs (dash_dash ∷ []) in
        let last : length xs + 1 - 1 ≡ length xs = omega arith in
        let found : get_elem? (xs ++ dash_dash ∷ []) (length xs + 1 - 1) ≡ some dash_dash =
          rw last (get_elem?-last xs dash_dash) in
        let pos : (length xs + 1 == 0) ≡ false = ground arith in
        rw (grow, found, pos)
          (rw (==_refl (length xs + 1)) (rw (last, take-append xs (dash_dash ∷ [])) refl))

    keep_when :
        (ys : List Str) (kept : Option Str) (n : ℕ)
        → (n == length ys) ≡ false
        → drop_separator (at_end vars argctr (owned ys) kept n)
          ≡ ok tt (at_end vars argctr (owned ys) kept n)
    unfolding drop_separator
    keep_when ys kept n e = rw (e, and_false (not (n == 0)))

    -- Without kept options a closing "--" is dropped. With kept options, which go in front of it,
    -- the count that the parser noted at the "--" is no longer the number of arguments, and the
    -- "--" stays.
    pub drop_separator-closed :
        (prog : Str) (rest : List Str) (kept : Option Str)
        → (insert_opts >> drop_separator)
            (at_end vars argctr (separated prog rest) kept (length rest + 2))
          ≡ ok tt (at_end vars argctr (closed prog rest kept) kept (length rest + 2))
    unfolding insert_opts
    drop_separator-closed prog rest none =
        let two : length rest + 2 ≡ length (prog ∷ rest) + 1 = omega arith in
        rw two (drop_when (prog ∷ rest) none)
    drop_separator-closed prog rest (some opts) =
        let grow = length-append rest (dash_dash ∷ []) in
        rw
          (
            insert_opts,
            insert_some-owned prog (rest ++ dash_dash ∷ []) opts (some opts) (length rest + 2),
          )
          (keep_when (prog ∷ (dash_o ∷ (opts ∷ (rest ++ dash_dash ∷ [])))) (some opts)
            (length rest + 2) (ground (arith, grow)))
