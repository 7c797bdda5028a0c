-- ===== src/Opt/Template.antt =====
-- Templates of the form "name=%s" from the match to the stored value.
use fuse_nt.Prelude.{
  ℕ, suc, ◌+◌, ◌≡◌, refl, ap, Bool, true, false, Option, none, some, List, [], ◌∷◌, ◌++◌, leb, ◌==◌,
  if◌then◌else◌, take, drop, get_elem?, length, arith, Option-cases, inl, inr, drop-append,
  length-append,
}
use native.Mathlib.Nat.{zero-add, suc-add}
use fuse_nt.Prelude.Int.{ℤ}
use fuse_nt.Prelude.Run.{Run, ok, err, Cmd, and_then}
use fuse_nt.Opt.Args.{Str, next_alloc}
use fuse_nt.Prelude.Strings.{str_eq_refl}
use fuse_nt.Opt.Match.{FuseOpt, equals, percent, strchr, takes_parameter, match_template, find_opt}
use fuse_nt.Opt.Process.{Host, Ctx, process_opt_param, process_match, process_matches, process_gopt}

-- the byte does not stand in the string
abbrev pub Lacks : ℕ → Str → Type 0
Lacks c s = strchr c s ≡ none

strchr-append : (c : ℕ) (s t : Str) → Lacks c s → strchr c (s ++ c ∷ t) ≡ some (length s)
unfolding strchr
strchr-append c [] t h = ground arith
strchr-append c (d ∷ s) t h = ground (arith, strchr-append c s t)

pub drop-append_add : (s t : Str) (k : ℕ) → drop (length s + k) (s ++ t) ≡ drop k t
drop-append_add [] t k = rw zero-add
drop-append_add (c ∷ s) t k = rw suc-add (drop-append_add s t k)

pub take-append_add : (s t : Str) (k : ℕ) → take (length s + k) (s ++ t) ≡ s ++ take k t
take-append_add [] t k = rw zero-add
take-append_add (c ∷ s) t k = rw suc-add (ap (λ x. c ∷ x) (take-append_add s t k))

-- A template with '=' and nothing or a format behind it matches an argument that begins with its
-- text up to the '=', and the parameter begins behind that.
match_template-equals :
    (name format param : Str)
    → Lacks equals name
    → takes_parameter format ≡ true
    → match_template (name ++ equals ∷ format) (name ++ equals ∷ param) ≡ some (length name)
unfolding match_template
match_template-equals name format param h f =
    let fits : leb (length name + 1) (length (name ++ equals ∷ param)) ≡ true =
      ground (arith, length-append name (equals ∷ param)) in
    rw (match_template, strchr-append equals name format h)
      (rw (drop-append name (equals ∷ format), drop-append_add name (equals ∷ format) 1, f)
        (rw
          (fits, take-append_add name (equals ∷ format) 1, take-append_add name (equals ∷ param) 1)
          (rw (str_eq_refl (name ++ equals ∷ [])) refl)))

get_elem?-append_at : (s t : Str) (c : ℕ) → get_elem? (s ++ c ∷ t) (length s) ≡ some c
get_elem?-append_at [] t c = refl
get_elem?-append_at (d ∷ s) t c = get_elem?-append_at s t c

-- a step that changes nothing behind a choice of success or failure
through_ok :
    {S : Type 0} (b : Bool) (s t : S) (k : Cmd S)
    → k s ≡ ok tt s
    → and_then (if b then ok tt s else err t) (λ _. k) ≡ (if b then ok tt s else err t)
through_ok true s t k e = e
through_ok false s t k e = refl

module _ {D : Type 0} (host : Host D) (argv : List Str) where
  process_matches-none :
      (os : List FuseOpt) (arg : Str) (iso : Bool) (c : Ctx D)
      → find_opt os arg ≡ none
      → process_matches host argv os arg iso c ≡ ok tt c
  unfolding process_matches find_opt
  process_matches-none [] arg iso c e = refl
  process_matches-none (o ∷ os) arg iso c e = elim (Option-cases (match_template o.templ arg)) [
    | inl q ↦ rw q (process_matches-none os arg iso c (rw q at e))
    | inr (sep, q) ↦ absurd (some-ne-none (rw q at e))
  ]
    where
      some-ne-none : {n : ℕ} → ◌≡◌ {A = Option (FuseOpt × ℕ)} (some (o, n)) none → ⊥
      some-ne-none x = cc

  -- the option "name=%s" at an offset
  abbrev pub string_opt : Str → ℕ → ℤ → FuseOpt
  string_opt name offset value = record {
    templ = name ++ equals ∷ percent ∷ b's' ∷ [];
    offset = some offset;
    value = value;
  }

  -- what storing `param` gives
  abbrev pub stored : ℕ → Str → Ctx D → Run (Ctx D) (Unit {0})
  stored offset param c =
      let (got, mem) = next_alloc c.mem in
      if got
      then ok tt (record c { vars = host.set_str offset param c.vars; mem = mem })
      else err (record c { mem = mem })

  stored-malloc :
      (offset : ℕ) (param : Str) (c : Ctx D)
      → process_opt_param host offset (percent ∷ b's' ∷ []) param c ≡ stored offset param c
  unfolding process_opt_param
  stored-malloc offset param c = ground arith

  process_match-string :
      (d : ℕ) (name param : Str) (offset : ℕ) (value : ℤ) (iso : Bool) (c : Ctx D)
      → process_match host argv
          (string_opt (d ∷ name) offset value)
          (length (d ∷ name))
          ((d ∷ name) ++ equals ∷ param)
          iso
          c
        ≡ stored offset param c
  unfolding process_match
  process_match-string d name param offset value iso c =
      let at = get_elem?-append_at (d ∷ name) (percent ∷ b's' ∷ []) equals in
      let nz : (suc (length name) == 0) ≡ false = ground arith in
      let format = drop-append_add (d ∷ name) (equals ∷ percent ∷ b's' ∷ []) 1 in
      let rest = drop-append_add (d ∷ name) (equals ∷ param) 1 in
      rw (process_match, at, nz) (rw format (rw rest (stored-malloc offset param c)))

  -- An option "name=%s" stores the text behind the '=' in the caller's structure, whatever it
  -- holds, if the copy can be allocated, and fails if not.
  pub process_gopt-string :
      (d : ℕ) (name param : Str) (offset : ℕ) (value : ℤ) (os : List FuseOpt) (iso : Bool)
      (c : Ctx D)
      → Lacks equals (d ∷ name)
      → find_opt os ((d ∷ name) ++ equals ∷ param) ≡ none
      → process_gopt host argv
          (string_opt (d ∷ name) offset value ∷ os)
          ((d ∷ name) ++ equals ∷ param)
          iso
          c
        ≡ stored offset param c
  unfolding process_gopt
  process_gopt-string d name param offset value os iso c h others =
      let arg = (d ∷ name) ++ equals ∷ param in
      let hit = match_template-equals (d ∷ name) (percent ∷ b's' ∷ []) param h refl in
      rw (process_gopt, find_opt, hit)
        (rw (process_matches, hit, process_match-string d name param offset value iso c)
          (through_ok (next_alloc c.mem).0 _ _ _ (process_matches-none os arg iso _ others)))
