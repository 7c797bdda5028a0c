-- ===== src/Opt/Tests.antt =====
-- Runs of the option parser, and its theorems at concrete arguments.
use fuse_nt.Prelude.{◌≡◌, ◌≢◌, refl, true, false, none, some, List, [], ◌∷◌, arith}
use fuse_nt.Prelude.Int.{pos}
use fuse_nt.Prelude.Run.{ok, Cmd, ◌>>◌}
use fuse_nt.Opt.Args.{Str, insert_arg}
use fuse_nt.Opt.Options.{option_group}
use fuse_nt.Opt.Match.{FuseOpt, match_template, strchr, find_opt}
use fuse_nt.Opt.Process.{Host, Ctx, process_gopt}
use fuse_nt.Opt.Parse.{
  dash_dash, dash_o, insert_opts, drop_separator, fuse_opt_parse, parsed, crashed, no_fuel,
}
use fuse_nt.Opt.Insert.{owned, attempt, insert_arg-attempt}
use fuse_nt.Opt.RoundTrip.{keep_all, for_each, option_group-keep_all}
use fuse_nt.Opt.Total.{fuse_opt_parse-ne-no_fuel}
use fuse_nt.Opt.Template.{stored, string_opt, process_gopt-string}
use fuse_nt.Opt.Matched.{Matched, match_template-Matched}
use fuse_nt.Opt.Separator.{at_end, separated, closed, drop_separator-closed}

-- a caller that collects the strings that are stored
abbrev collect : Host (List Str)
collect = record {
  proc = none;
  set_int = λ _ _ d. d;
  set_str = λ _ s d. s ∷ d;
  scan = λ _ _ _ d. (true, d);
}

abbrev prog : Str
prog = b'p' ∷ []

abbrev file : Str
file = b'f' ∷ []

abbrev name : Str
name = b'n' ∷ []

-- "a,n=b"
abbrev group : Str
group = b'a' ∷ b',' ∷ b'n' ∷ b'=' ∷ b'b' ∷ []

abbrev options : List FuseOpt
options = string_opt collect [] name 0 (pos 0) ∷ []

-- p -o a,n=b f
parse_run :
    fuse_opt_parse collect options [] (owned (prog ∷ (dash_o ∷ (group ∷ (file ∷ []))))) []
    ≡ parsed true (owned (prog ∷ (dash_o ∷ ((b'a' ∷ []) ∷ (file ∷ []))))) ((b'b' ∷ []) ∷ [])
unfolding fuse_opt_parse
parse_run = refl

-- p --
parse_separator :
    fuse_opt_parse collect options [] (owned (prog ∷ (dash_dash ∷ []))) []
    ≡ parsed true (owned (prog ∷ [])) []
unfolding fuse_opt_parse
parse_separator = refl

-- p -o a --
parse_kept_separator :
    fuse_opt_parse collect options []
      (owned (prog ∷ (dash_o ∷ ((b'a' ∷ []) ∷ (dash_dash ∷ [])))))
      []
    ≡ parsed true (owned (prog ∷ (dash_o ∷ ((b'a' ∷ []) ∷ (dash_dash ∷ []))))) []
unfolding fuse_opt_parse
parse_kept_separator = refl

-- the copy of the second argument fails after its array has grown
parse_crash :
    fuse_opt_parse collect options
      (true ∷ (true ∷ (true ∷ (false ∷ []))))
      (owned (prog ∷ (file ∷ [])))
      []
    ≡ crashed
unfolding fuse_opt_parse
parse_crash = refl

insert_arg-attempt_example :
    insert_arg 1 dash_o (owned (prog ∷ (file ∷ [])), true ∷ (false ∷ []))
    ≡ attempt (prog ∷ (file ∷ [])) (prog ∷ (dash_o ∷ (file ∷ []))) (true ∷ (false ∷ []))
insert_arg-attempt_example =
    insert_arg-attempt 1 (prog ∷ (file ∷ [])) dash_o (true ∷ (false ∷ [])) (omega arith)

-- an option with a comma and one with a backslash
option_group-keep_all_example :
    (s : Str) × (keep_all (group ∷ ((92 ∷ []) ∷ [])) (none, []) ≡ ok tt (some s, []))
    × ((S : Type 0) (f : Str → Cmd S) (st : S)
        → option_group f [] s st ≡ for_each f (group ∷ ((92 ∷ []) ∷ [])) st)
option_group-keep_all_example = option_group-keep_all group ((92 ∷ []) ∷ []) (λ e. absurd (ne e))
  where
    ne : group ≡ [] → ⊥
    ne e = cc

fuse_opt_parse-ne-no_fuel_example :
    fuse_opt_parse collect options [] (owned (prog ∷ (dash_o ∷ (group ∷ [])))) [] ≢ no_fuel
fuse_opt_parse-ne-no_fuel_example =
    fuse_opt_parse-ne-no_fuel collect options [] (owned (prog ∷ (dash_o ∷ (group ∷ [])))) []

abbrev start : Ctx (List Str)
start = at_end [] 1 (owned (prog ∷ [])) none 0

process_gopt-string_example :
    process_gopt collect [] options (b'n' ∷ b'=' ∷ b'x' ∷ []) true start
    ≡ stored collect [] 0 (b'x' ∷ []) start
process_gopt-string_example =
    process_gopt-string collect [] b'n' [] (b'x' ∷ []) 0 (pos 0) [] true start
      (unfold strchr in refl) (unfold find_opt in refl)

drop_separator-closed_example :
    (insert_opts >> drop_separator)
      (at_end {D = List Str} [] 3 (separated prog (file ∷ [])) (some group) 3)
    ≡ ok tt (at_end [] 3 (closed prog (file ∷ []) (some group)) (some group) 3)
drop_separator-closed_example = drop_separator-closed [] 3 prog (file ∷ []) (some group)

-- "n=x" and the template "n="
abbrev given : Str
given = b'n' ∷ b'=' ∷ b'x' ∷ []

abbrev template : Str
template = b'n' ∷ b'=' ∷ []

match_template-Matched_example : Matched template given 1
match_template-Matched_example =
    match_template-Matched template given 1 (unfold match_template in refl)
