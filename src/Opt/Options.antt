-- ===== src/Opt/Options.antt =====
-- Building and taking apart a comma-comma_behind option string: `add_opt_common` with its callers
-- `fuse_opt_add_opt` and `fuse_opt_add_opt_escaped`, and the loop of `process_real_option_group`,
-- of fuse-2.8.5/lib/fuse_opt.c.
use fuse_nt.Prelude.{
  ◌≡◌, refl, ◌⊎◌, inl, inr, ℕ, Bool, true, false, ◌||◌, Option, none, some, [], ◌∷◌, ◌++◌, ◌==◌,
  if◌then◌else◌,
}
use fuse_nt.Prelude.Run.{ok, err, Cmd, ◌>>◌}
use fuse_nt.Opt.Args.{Str, Mem, next_alloc}

abbrev pub comma : ℕ
comma = b','

abbrev pub backslash : ℕ
backslash = 92

-- the copying loop, with `esc` set
unfoldable pub escape : Str → Str
escape [] = []
escape (c ∷ cs) =
    if c == comma || c == backslash then backslash ∷ (c ∷ escape cs) else c ∷ escape cs

-- a comma behind what is there, unless that is empty
abbrev pub comma_behind : Option Str → Str
comma_behind none = []
comma_behind (some []) = []
comma_behind (some (c ∷ cs)) = (c ∷ cs) ++ comma ∷ []

unfoldable pub add_opt_common : Bool → Str → Cmd (Option Str × Mem)
unfolding escape
add_opt_common esc opt (opts, mem) =
    let (got, mem') = next_alloc mem in
    if got
    then ok tt (some (comma_behind opts ++ (if esc then escape opt else opt)), mem')
    else err (opts, mem')

unfoldable pub add_opt : Str → Cmd (Option Str × Mem)
unfolding add_opt_common
add_opt = add_opt_common false

unfoldable pub add_opt_escaped : Str → Cmd (Option Str × Mem)
unfolding add_opt_common
add_opt_escaped = add_opt_common true

-- what the loop of `process_real_option_group` does at the byte `*s`, if another follows
pub data Seen : Type 0 where
  separator escaping plain : Seen

abbrev pub seen : ℕ → Seen
seen c = if c == comma then separator else if c == backslash then escaping else plain

pub Seen-cases : (v : Seen) → (v ≡ separator) ⊎ ((v ≡ escaping) ⊎ (v ≡ plain))
Seen-cases separator = inl refl
Seen-cases escaping = inr (inl refl)
Seen-cases plain = inr (inr refl)

module _ {S : Type 0} (process_gopt : Str → Cmd S) where
  -- `buf` is what stands between `opts` and `d`, the second argument what is left from `s` on
  unfoldable pub option_group : Str → Str → Cmd S
  option_group buf [] st = process_gopt buf st
  option_group buf (c ∷ []) st =
      if c == comma
      then (process_gopt buf >> process_gopt []) st
      else process_gopt (buf ++ c ∷ []) st
  option_group buf (c ∷ (d ∷ s)) st = elim (seen c) [
    | separator ↦ (process_gopt buf >> option_group [] (d ∷ s)) st
    | escaping ↦ option_group (buf ++ d ∷ []) s st
    | plain ↦ option_group (buf ++ c ∷ []) (d ∷ s) st
  ]
