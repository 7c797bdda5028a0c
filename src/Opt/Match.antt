-- ===== src/Opt/Match.antt =====
-- Option templates: `struct fuse_opt`, `match_template`, `find_opt` and `fuse_opt_match` of
-- fuse-2.8.5/lib/fuse_opt.c.
use fuse_nt.Prelude.{
  ℕ, suc, ◌+◌, Bool, true, false, ◌&&◌, Option, none, some, List, [], ◌∷◌, leb, ◌==◌, if◌then◌else◌,
  length, take, drop,
}
use fuse_nt.Prelude.Int.{ℤ}
use fuse_nt.Prelude.Strings.{str_eq}
use fuse_nt.Opt.Args.{Str}

-- `offset` is `none` for -1U. The closing entry of an array, with no template, is left out.
pub record FuseOpt : Type 0 where
  pub templ : Str
  pub offset : Option ℕ
  pub value : ℤ

abbrev pub equals : ℕ
equals = b'='

abbrev pub space : ℕ
space = b' '

abbrev pub percent : ℕ
percent = b'%'

-- the index of the first `c`, as `strchr` finds it
unfoldable pub strchr : ℕ → Str → Option ℕ
strchr c [] = none
strchr c (d ∷ ds) =
    if d == c then some 0 else elim (strchr c ds) [ none ↦ none | some i ↦ some (suc i) ]

abbrev pub or_space : Option ℕ → Str → Option ℕ
or_space none t = strchr space t
or_space (some i) t = some i

-- strchr(t, '='), or else strchr(t, ' ')
abbrev pub separator_of : Str → Option ℕ
separator_of t = or_space (strchr equals t) t

-- `!sep[1] || sep[1] == '%'`
abbrev pub takes_parameter : Str → Bool
takes_parameter [] = true
takes_parameter (c ∷ _) = c == percent

abbrev pub is_equals : Str → Bool
is_equals [] = false
is_equals (c ∷ _) = c == equals

-- where the parameter begins in an argument that equals the template, 0 for none
abbrev pub whole : Str → Str → Option ℕ
whole t arg = if str_eq t arg then some 0 else none

-- the length that has to agree: with the separator, if that is '='
abbrev pub tlen_of : Str → ℕ → ℕ
tlen_of t sep = if is_equals (drop sep t) then sep + 1 else sep

abbrev pub at_separator : Option ℕ → Str → Str → Option ℕ
at_separator none t arg = whole t arg
at_separator (some sep) t arg =
    if takes_parameter (drop (sep + 1) t)
      && (leb (tlen_of t sep) (length arg)
          && str_eq (take (tlen_of t sep) arg) (take (tlen_of t sep) t))
    then some sep
    else whole t arg

-- `*sepp` of a match, `none` for no match
unfoldable pub match_template : Str → Str → Option ℕ
unfolding str_eq strchr
match_template t arg = at_separator (separator_of t) t arg

abbrev pub or_later : Option ℕ → FuseOpt → Option (FuseOpt × ℕ) → Option (FuseOpt × ℕ)
or_later none o later = later
or_later (some sep) o later = some (o, sep)

-- the first option of the array that matches, with `*sepp`
unfoldable pub find_opt : List FuseOpt → Str → Option (FuseOpt × ℕ)
unfolding match_template
find_opt [] arg = none
find_opt (o ∷ os) arg = or_later (match_template o.templ arg) o (find_opt os arg)

unfoldable pub fuse_opt_match : List FuseOpt → Str → Bool
unfolding find_opt
fuse_opt_match opts opt = elim (find_opt opts opt) [ some _ ↦ true | none ↦ false ]
