-- ===== src/LowLevel/Interrupts.antt =====
-- Interrupts: `find_interrupted`, `do_interrupt`, `check_interrupt`, `fuse_req_interrupt_func` and
-- `fuse_req_interrupted` of fuse-2.8.5/lib/fuse_lowlevel.c. The unlocking inside
-- `find_interrupted` is left out: no other thread runs in between. The members of the union `u`
-- are fields of their own.
use fuse_nt.Prelude.{
  ℕ, Bool, true, false, Option, none, some, List, [], ◌∷◌, ◌++◌, ◌==◌, if◌then◌else◌,
}
use fuse_nt.Prelude.Int.{pred_int, succ_int}
use fuse_nt.Prelude.Run.{ok, M, Cmd, ◌>>◌, ◌>>=◌, and_then, skip}
use fuse_nt.Prelude.Memory.{Str}
use fuse_nt.LowLevel.{
  Ll, Env, Req, find_req, with_req, read_req, set_req, list_del_req, destroy_req, destroy_last,
}
use fuse_nt.LowLevel.Input.{u64_at}

abbrev pub set_interrupted : Req → Req
set_interrupted r = record r { interrupted = true }

abbrev pub has_unique : ℕ → Req → Bool
has_unique u r = r.unique == u

abbrev pub interrupts_it : ℕ → Req → Bool
interrupts_it u r = r.intr_unique == u

abbrev pub is_found : Option ℕ → Bool
is_found none = false
is_found (some p) = true

module _ {D : Type 0} where
  -- the first request of a list that passes a test; a freed one is undefined
  unfoldable pub first_req : (Req → Bool) → List ℕ → M (Ll D) (Option ℕ)
  first_req test [] f = ok none f
  first_req test (p ∷ ps) f =
      let rest = first_req test ps f in
      with_req (find_req p f.reqs) (λ r _. if test r then ok (some p) f else rest) f

  unfoldable pub interrupted : ℕ → M (Ll D) Bool
  interrupted p = read_req p λ r f. ok r.interrupted f

  abbrev pub take_oldest : ℕ → List ℕ → M (Ll D) (Option ℕ)
  take_oldest p [] f = ok none f
  take_oldest p (q ∷ qs) f = and_then (list_del_req q f) (λ _ f'. ok (some q) f')

  abbrev pub cancel_or_take : ℕ → Option ℕ → M (Ll D) (Option ℕ)
  cancel_or_take p (some q) f =
      (set_req p set_interrupted >> (list_del_req q >> (destroy_req q >> (λ f. ok none f)))) f
  cancel_or_take p none f = take_oldest p f.interrupts f

  -- The oldest interrupt without its request is taken off the list, to be sent back.
  unfoldable pub check_interrupt : ℕ → M (Ll D) (Option ℕ)
  unfolding first_req list_del_req destroy_req
  check_interrupt p =
      read_req p
        λ r f. and_then (first_req (interrupts_it r.unique) f.interrupts f) (cancel_or_take p)

module _ {D : Type 0} (env : Env D) where
  abbrev pub run_func : Option ℕ → ℕ → Cmd (Ll D)
  run_func none p = skip
  run_func (some func) p = env.interrupt_func func p

  -- the request is kept while its interrupt function runs
  abbrev pub interrupt_req : ℕ → Cmd (Ll D)
  interrupt_req p =
      set_req p (λ r. record r { ctr = succ_int r.ctr; interrupted = true })
      >> ((read_req p λ r. run_func r.intr_func p)
          >> (set_req p (λ r. record r { ctr = pred_int r.ctr }) >> destroy_last p))

  abbrev pub or_waiting : ℕ → Option ℕ → M (Ll D) Bool
  or_waiting u (some p) f = and_then (interrupt_req p f) (λ _ f'. ok true f')
  or_waiting u none f =
      and_then (first_req (interrupts_it u) f.interrupts f) (λ o f'. ok (is_found o) f')

  unfoldable pub find_interrupted : ℕ → M (Ll D) Bool
  unfolding first_req destroy_req
  find_interrupted u f = and_then (first_req (has_unique u) f.list f) (or_waiting u)

  abbrev pub interrupts_or_waits : ℕ → Bool → Cmd (Ll D)
  interrupts_or_waits p true f = destroy_req p f
  interrupts_or_waits p false f = ok tt (record f { interrupts = f.interrupts ++ (p ∷ []) })

  unfoldable pub do_interrupt : ℕ → ℕ → Str → Cmd (Ll D)
  unfolding find_interrupted destroy_req
  do_interrupt p nodeid inarg =
      let u = u64_at 0 inarg in
      set_req p (λ r. record r { intr_unique = u })
      >> (find_interrupted u >>= interrupts_or_waits p)

  abbrev pub run_if_interrupted : Bool → Option ℕ → ℕ → Cmd (Ll D)
  run_if_interrupted true func p = run_func func p
  run_if_interrupted false func p = skip

  unfoldable pub interrupt_func : ℕ → Option ℕ → Cmd (Ll D)
  interrupt_func p func =
      set_req p (λ r. record r { intr_func = func })
      >> (read_req p λ r. run_if_interrupted r.interrupted func p)
