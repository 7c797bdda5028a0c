-- ===== src/Opt/RoundTrip.antt =====
-- Options that the parser keeps are joined by `add_opt` and taken apart again by the loop of
-- `process_real_option_group`, in the next library that parses the arguments.
use fuse_nt.Prelude.{
  ℕ, ◌≡◌, ◌≢◌, refl, ◌∙◌, sym, false, ◌||◌, Option, none, some, List, [], ◌∷◌, ◌++◌, ◌==◌, arith,
  Bool-cases, inl, inr, append-nil, append_assoc,
}
use fuse_nt.Prelude.Run.{ok, Cmd, ◌>>◌, skip, and_then-skip, and_then_congr}
use fuse_nt.Opt.Args.{Str, Mem}
use fuse_nt.Opt.Options.{comma, backslash, escape, add_opt_escaped, option_group}

-- the calls of `add_opt` for each option in order
abbrev pub keep_all : List Str → Cmd (Option Str × Mem)
keep_all [] = skip
keep_all (o ∷ os) = add_opt_escaped o >> keep_all os

abbrev pub for_each : {S : Type 0} → (Str → Cmd S) → List Str → Cmd S
for_each f [] = skip
for_each f (o ∷ os) = f o >> for_each f os

-- what the later options add
tail_of : List Str → Str
tail_of [] = []
tail_of (o ∷ os) = comma ∷ (escape o ++ tail_of os)

keep_all-tail :
    (c : ℕ) (cs : Str) (os : List Str)
    → keep_all os (some (c ∷ cs), []) ≡ ok tt (some ((c ∷ cs) ++ tail_of os), [])
unfolding tail_of add_opt_escaped
keep_all-tail c cs [] = rw append-nil
keep_all-tail c cs (o ∷ os) =
    keep_all-tail c ((cs ++ comma ∷ []) ++ escape o) os ∙ simp append_assoc

module _ {S : Type 0} (f : Str → Cmd S) where
  plain_step :
      (c : ℕ) (buf s : Str) (st : S)
      → (c == comma) ≡ false
      → (c == backslash) ≡ false
      → option_group f buf (c ∷ s) st ≡ option_group f (buf ++ c ∷ []) s st
  unfolding option_group
  plain_step c buf [] st p q = rw p
  plain_step c buf (d ∷ s) st p q = ground arith

  escaped_step :
      (c : ℕ) (buf s : Str) (st : S)
      → option_group f buf (backslash ∷ (c ∷ s)) st ≡ option_group f (buf ++ c ∷ []) s st
  unfolding option_group
  escaped_step c buf s st = refl

  comma_step :
      (buf s : Str) (st : S) → option_group f buf (comma ∷ s) st ≡ (f buf >> option_group f [] s) st
  unfolding option_group
  comma_step buf [] st = refl
  comma_step buf (d ∷ s) st = refl

  option_group-escape :
      (o buf s : Str) (st : S)
      → option_group f buf (escape o ++ s) st ≡ option_group f (buf ++ o) s st
  unfolding escape
  option_group-escape [] buf s st = rw append-nil
  option_group-escape (c ∷ cs) buf s st =
      let ih = option_group-escape cs (buf ++ c ∷ []) s st in
      let joined : (buf ++ c ∷ []) ++ cs ≡ buf ++ c ∷ cs = append_assoc buf (c ∷ []) cs in
      elim (Bool-cases (c == comma || c == backslash)) [
        | inl e ↦ rw (e, ← joined) (escaped_step c buf (escape cs ++ s) st ∙ ih)
        | inr e ↦
            rw (e, ← joined)
              (plain_step c buf (escape cs ++ s) st (ground arith) (ground arith) ∙ ih)
      ]

  option_group-end : (buf : Str) (st : S) → option_group f buf [] st ≡ f buf st
  unfolding option_group
  option_group-end buf st = refl

  option_group-tail :
      (o : Str) (os : List Str) (st : S)
      → option_group f [] (escape o ++ tail_of os) st ≡ for_each f (o ∷ os) st
  unfolding tail_of option_group
  option_group-tail o [] st = option_group-escape o [] [] st ∙ sym (and_then-skip (f o st))
  option_group-tail o (p ∷ os) st =
      option_group-escape o [] (comma ∷ (escape p ++ tail_of os)) st
      ∙ (comma_step o (escape p ++ tail_of os) st
          ∙ and_then_congr (f o st) _ _ (λ _ t. option_group-tail p os t))

escape-cons : (c : ℕ) (cs : Str) → (d : ℕ) × (ds : Str) × (escape (c ∷ cs) ≡ d ∷ ds)
unfolding escape
escape-cons c cs = elim (Bool-cases (c == comma || c == backslash)) [
  | inl e ↦ (backslash, c ∷ escape cs, rw e)
  | inr e ↦ (c, escape cs, rw e)
]

-- Options that are kept one after another, the first of them not empty, are read back as they
-- were: with memory, the string that `fuse_opt_add_opt_escaped` builds makes
-- `process_real_option_group` process exactly these options in this order, whatever commas and
-- backslashes they hold and whatever the processing of each does.
pub option_group-keep_all :
    (o : Str) (os : List Str)
    → o ≢ []
    → (s : Str) × (keep_all (o ∷ os) (none, []) ≡ ok tt (some s, []))
      × ((S : Type 0) (f : Str → Cmd S) (st : S) → option_group f [] s st ≡ for_each f (o ∷ os) st)
unfolding add_opt_escaped
option_group-keep_all [] os ne = absurd (ne refl)
option_group-keep_all (c ∷ cs) os ne =
    let (d, ds, e) = escape-cons c cs in
    let kept : keep_all ((c ∷ cs) ∷ os) (none, [])
        ≡ ok tt (some (escape (c ∷ cs) ++ tail_of os), []) =
      rw (e, add_opt_escaped) (keep_all-tail d ds os) in
    (escape (c ∷ cs) ++ tail_of os, kept, (λ S f st. option_group-tail f (c ∷ cs) os st))
