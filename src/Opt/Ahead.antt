-- ===== src/Opt/Ahead.antt =====
-- Runs of the parser of fuse-2.8.5/lib/fuse_opt.c that have fuel and do not go back in the
-- arguments: the rules, and the commands on the output arguments and the kept options.
use fuse_nt.Prelude.{
  ℕ, ◌≤◌, ◌≢◌, refl, Bool, true, false, Option, [], ◌∷◌, ◌++◌, ◌==◌, if◌then◌else◌, arith, inl, inr,
}
use fuse_nt.Prelude.Run.{Run, ok, err, abort, out_of_fuel, Cmd, and_then}
use fuse_nt.Opt.Args
use fuse_nt.Opt.Args.{Str, Mem, FuseArgs, next_alloc, is_null}
use fuse_nt.Opt.Options
use fuse_nt.Opt.Options.{seen, Seen-cases, comma, option_group}
use fuse_nt.Opt.Process.{Ctx, with_out, with_opts, malloc, keep_arg}

-- The run has fuel, and where it goes on, it is not before `n` in the arguments.
pub data Ahead {D A : Type 0} (n : ℕ) : Run (Ctx D) A → Type 0 where
  goes : {a : A} {c : Ctx D} → n ≤ c.argctr → Ahead n (ok a c)
  fails : {c : Ctx D} → Ahead n (err c)
  aborts : Ahead n abort

pub insert_arg-fuel :
    (i : ℕ) (arg : Str) (s : FuseArgs × Mem) → Args.insert_arg i arg s ≢ out_of_fuel
unfolding Args.insert_arg Args.add_arg Args.move_last
insert_arg-fuel i arg (args, mem) = ground arith

module _ {D : Type 0} where
  pub Ahead-and_then :
      {A B : Type 0} {n : ℕ} {r : Run (Ctx D) A} {k : A → Ctx D → Run (Ctx D) B}
      → Ahead n r
      → ((a : A) (c : Ctx D) → n ≤ c.argctr → Ahead n (k a c))
      → Ahead n (and_then r k)
  Ahead-and_then (goes h) g = g _ _ h
  Ahead-and_then fails g = fails
  Ahead-and_then aborts g = aborts

  pub Ahead-weaken : {A : Type 0} {m n : ℕ} {r : Run (Ctx D) A} → n ≤ m → Ahead m r → Ahead n r
  Ahead-weaken le (goes h) = goes (omega arith)
  Ahead-weaken le fails = fails
  Ahead-weaken le aborts = aborts

  -- a choice between two runs
  pub Ahead-if :
      {A : Type 0} {n : ℕ} (b : Bool) {r s : Run (Ctx D) A}
      → Ahead n r
      → Ahead n s
      → Ahead n (if b then r else s)
  Ahead-if true h g = h
  Ahead-if false h g = g

  pub malloc-Ahead : {n : ℕ} (c : Ctx D) → n ≤ c.argctr → Ahead n (malloc c)
  malloc-Ahead c h = Ahead-if (next_alloc c.mem).0 (goes h) fails

  -- a command on the output arguments or on the kept options that has fuel
  pub with_out-Ahead :
      {n : ℕ} (c : Ctx D) (r : Run (FuseArgs × Mem) (Unit {0}))
      → r ≢ out_of_fuel
      → n ≤ c.argctr
      → Ahead n (with_out c r)
  with_out-Ahead c (ok _ s) f h = goes h
  with_out-Ahead c (err s) f h = fails
  with_out-Ahead c abort f h = aborts
  with_out-Ahead c out_of_fuel f h = absurd (f refl)

  pub with_opts-Ahead :
      {n : ℕ} (c : Ctx D) (r : Run (Option Str × Mem) (Unit {0}))
      → r ≢ out_of_fuel
      → n ≤ c.argctr
      → Ahead n (with_opts c r)
  with_opts-Ahead c (ok _ s) f h = goes h
  with_opts-Ahead c (err s) f h = fails
  with_opts-Ahead c abort f h = aborts
  with_opts-Ahead c out_of_fuel f h = absurd (f refl)

  pub keep_arg-Ahead :
      (iso : Bool) (arg : Str) {n : ℕ} (c : Ctx D) → n ≤ c.argctr → Ahead n (keep_arg iso arg c)
  unfolding keep_arg
  keep_arg-Ahead true arg c h =
      with_opts-Ahead c (Options.add_opt_escaped arg (c.opts, c.mem)) (ground arith) h
  keep_arg-Ahead false arg c h = with_out-Ahead c (Args.add_arg arg (c.out, c.mem)) (ground arith) h

  pub option_group-Ahead :
      (f : Str → Cmd (Ctx D)) {n : ℕ}
      → ((buf : Str) (c : Ctx D) → n ≤ c.argctr → Ahead n (f buf c))
      → (buf s : Str) (c : Ctx D) → n ≤ c.argctr
      → Ahead n (option_group f buf s c)
  unfolding option_group
  option_group-Ahead f g buf [] c h = g buf c h
  option_group-Ahead f g buf (d ∷ []) c h =
      Ahead-if (d == comma) (Ahead-and_then (g buf c h) (λ _ c' h'. g [] c' h'))
        (g (buf ++ d ∷ []) c h)
  option_group-Ahead f g buf (d ∷ (e ∷ s)) c h =
      let here = Ahead-and_then (g buf c h) (λ _ c' h'. option_group-Ahead f g [] (e ∷ s) c' h') in
      let past = option_group-Ahead f g (buf ++ e ∷ []) s c h in
      let next = option_group-Ahead f g (buf ++ d ∷ []) (e ∷ s) c h in
      elim (Seen-cases (seen d)) [
        | inl q ↦ rw (q, option_group) here
        | inr (inl q) ↦ rw (q, option_group) past
        | inr (inr q) ↦ rw (q, option_group) next
      ]
