-- ===== src/Mt/Relist.antt =====
-- What holds of the threads of fuse-2.8.5/lib/fuse_loop_mt.c between their steps, and that the steps
-- of `fuse_do_work` keep it.
use fuse_nt.Prelude.{
  ◌+◌, ◌≤◌, ◌≡◌, sym, ap, ◌∙◌, Bool, true, false, Option, none, some, List, [], ◌∷◌, ◌++◌, length,
  count, count-append, length-append, arith, Bool-cases, inl, inr,
}
use mathlib.Core.Path.{subst}
use fuse_nt.Prelude.Int.{pos}
use fuse_nt.Prelude.Memory.{has_failure}
use fuse_nt.Mt.{Pc, Worker, Mt, Left}
use fuse_nt.Mt.Schedule.{Main, State, Move, kept, relist}
use fuse_nt.Mt.Counts.{is_free, is_live, AllLive, one_if}
use fuse_nt.Mt.Fits.{free_if, size, LiveIf}
use fuse_nt.Mt.Moves.{Move-Fits, Move-exit}

-- The counts are those of the list, and at most ten threads are free.
pub record Counted (ws : List Worker) (mt : Mt) : Type 0 where
  pub avail : mt.numavail ≡ pos (count is_free ws)
  pub total : mt.numworker ≡ pos (length ws)
  pub few : count is_free ws ≤ 10

-- while the loop waits for the end of the session, `sure` that no allocation fails
pub record Up (sure : Bool) (ws : List Worker) (mt : Mt) : Type 0 where
  pub open_mt : mt.exit ≡ false
  pub live : mt.exited ≡ false → AllLive ws
  pub staffed : sure ≡ true → (1 ≤ count is_free ws) × (has_failure mt.mem ≡ false)

abbrev pub Phase : Bool → Main → List Worker → Mt → Type 0
Phase sure Main.starting ws mt =
    (ws ≡ []) × (mt.exit ≡ false) × (sure ≡ true → has_failure mt.mem ≡ false)
Phase sure Main.testing ws mt = Up sure ws mt
Phase sure Main.waiting ws mt = Up sure ws mt
Phase sure Main.joining ws mt = mt.exit ≡ true
Phase sure _ ws mt = Unit

pub record Inv (sure : Bool) (s : State) : Type 0 where
  pub counted : s.mt.exit ≡ false → Counted s.workers s.mt
  pub phase : Phase sure s.main s.workers s.mt

-- a list around one worker
count-middle :
    (us : List Worker) (w : Worker) (vs : List Worker)
    → count is_free (us ++ (w ∷ vs)) ≡ count is_free us + count is_free vs + one_if (is_free w)
count-middle us w vs = count-append is_free us (w ∷ vs) ∙ omega arith

count-kept :
    (w : Worker) (o : Option Pc) (vs : List Worker)
    → count is_free (kept w o vs) ≡ count is_free vs + free_if o
count-kept w none vs = omega arith
count-kept w (some p) vs = omega arith

length-kept :
    (w : Worker) (o : Option Pc) (vs : List Worker) → length (kept w o vs) ≡ length vs + size o
length-kept w none vs = omega arith
length-kept w (some p) vs = omega arith

AllLive-append : (us vs : List Worker) → AllLive us → AllLive vs → AllLive (us ++ vs)
AllLive-append [] vs a b = b
AllLive-append (u ∷ us) vs a b = (a.0, AllLive-append us vs a.1 b)

pub AllLive-parts : (us vs : List Worker) → AllLive (us ++ vs) → AllLive us × AllLive vs
AllLive-parts [] vs h = (tt, h)
AllLive-parts (u ∷ us) vs h = let ih = AllLive-parts us vs h.1 in ((h.0, ih.0), ih.1)

AllLive-kept :
    (w : Worker) (o : Option Pc) (ws : List Worker)
    → is_live w ≡ true
    → LiveIf o
    → AllLive ws
    → AllLive (kept w o ws)
AllLive-kept w none ws h a b = b
AllLive-kept w (some p) ws h a b = (ground arith, b)

middle-ne-nil : (us : List Worker) (w : Worker) (vs : List Worker) → ¬ (us ++ (w ∷ vs) ≡ [])
middle-ne-nil us w vs e = let h = ap length e in let k = length-append us (w ∷ vs) in omega arith

module _ (us : List Worker) (w : Worker) (vs : List Worker) (l : Left (Option Pc)) where
  count-relist :
      count is_free (relist us w vs l)
      ≡ count is_free us + count is_free vs + free_if l.result + count is_free l.started
  count-relist = omega (
    arith,
    count-append is_free us (kept w l.result (vs ++ l.started)),
    count-kept w l.result (vs ++ l.started),
    count-append is_free vs l.started,
  )

  length-relist :
      length (relist us w vs l) ≡ length us + length vs + size l.result + length l.started
  length-relist = omega (
    arith,
    length-append us (kept w l.result (vs ++ l.started)),
    length-kept w l.result (vs ++ l.started),
    length-append vs l.started,
  )

  module _ (mt : Mt) (mv : Move mt w.cancelled w.pc l) where
    relist-Counted : mt.exit ≡ false → Counted (us ++ (w ∷ vs)) mt → Counted (relist us w vs l) l.mt
    relist-Counted open_mt c =
        let fits =
          Move-Fits (count is_free us + count is_free vs) (length us + length vs) mt w.cancelled
            open_mt mv in
        let a =
          fits.avail (c.avail ∙ ap pos (count-middle us w vs))
            (subst (λ x. x ≤ 10) (count-middle us w vs) c.few) in
        record {
          avail = a.0 ∙ ap pos (sym count-relist);
          total =
              fits.total (c.total ∙ ap pos (length-append us (w ∷ vs) ∙ omega arith))
              ∙ ap pos (sym length-relist);
          few = subst (λ x. x ≤ 10) (sym count-relist) a.1;
        }

    relist-Up :
        (sure : Bool)
        → Counted (us ++ (w ∷ vs)) mt
        → Up sure (us ++ (w ∷ vs)) mt
        → Up sure (relist us w vs l) l.mt
    relist-Up sure c up =
        let fits =
          Move-Fits (count is_free us + count is_free vs) (length us + length vs) mt w.cancelled
            up.open_mt mv in
        record {
          open_mt = fits.exit ∙ up.open_mt;
          live = λ e.
              let parts = AllLive-parts us (w ∷ vs) (up.live (fits.exited e)) in
              let goes = fits.live e parts.1.0 in
              AllLive-append us _ parts.0
                (AllLive-kept w l.result _ parts.1.0 goes.0 (AllLive-append vs _ parts.1.1 goes.1));
          staffed = λ e.
              let st = up.staffed e in
              let got =
                fits.staffed (c.avail ∙ ap pos (count-middle us w vs)) st.1
                  (subst (λ x. 1 ≤ x) (count-middle us w vs) st.0) in
              (subst (λ x. 1 ≤ x) (sym count-relist) got.0, got.1);
        }

    relist-Phase :
        (sure : Bool) (main : Main)
        → (mt.exit ≡ false → Counted (us ++ (w ∷ vs)) mt)
        → Phase sure main (us ++ (w ∷ vs)) mt
        → Phase sure main (relist us w vs l) l.mt
    relist-Phase sure Main.starting c ph = absurd (middle-ne-nil us w vs ph.0)
    relist-Phase sure Main.testing c ph = relist-Up sure (c ph.open_mt) ph
    relist-Phase sure Main.waiting c ph = relist-Up sure (c ph.open_mt) ph
    relist-Phase sure (Main.cancelling o) c ph = tt
    relist-Phase sure Main.joining c ph = elim (Bool-cases l.mt.exit) [
      | inl e ↦ e
      | inr e ↦ absurd (ground (arith, ph, Move-exit mt e mv))
    ]
    relist-Phase sure (Main.returned e) c ph = tt

    pub relist-Inv :
        (sure : Bool) (main : Main)
        → Inv sure (record { main = main; workers = us ++ (w ∷ vs); mt = mt })
        → Inv sure (record { main = main; workers = relist us w vs l; mt = l.mt })
    relist-Inv sure main inv = record {
      counted = λ e. let o = Move-exit mt e mv in relist-Counted o (inv.counted o);
      phase = relist-Phase sure main inv.counted inv.phase;
    }
