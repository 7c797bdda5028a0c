-- ===== src/Mt/Invariant.antt =====
-- That each step of the threads of fuse-2.8.5/lib/fuse_loop_mt.c keeps what holds between them.
use fuse_nt.Prelude.{
  ℕ, ◌≤◌, ◌≡◌, refl, sym, ap, ◌∙◌, Bool, true, false, List, [], ◌∷◌, length, count, arith, not,
}
use mathlib.Core.Path.{subst}
use fuse_nt.Prelude.Int.{ℤ, pos, negsuc}
use fuse_nt.Prelude.Memory.{Mem, has_failure}
use fuse_nt.Mt.{Worker, Mt, Left, start_thread}
use fuse_nt.Mt.Schedule.{
  Main, State, Step, Steps, here, later, initial, work, starts, signal, waits, stops, wakes,
  interrupts, cancels, exits, joins, returns, cancel, first_started,
}
use fuse_nt.Mt.Counts.{is_free, Starts, Succeeds, start_thread-Starts, start_thread-Succeeds}
use fuse_nt.Mt.Relist.{Counted, Up, Phase, Inv, relist-Inv}

count-cancel : (i : ℕ) (ws : List Worker) → count is_free (cancel i ws) ≡ count is_free ws
count-cancel i [] = refl
count-cancel i (w ∷ ws) = let ih = count-cancel i ws in ground arith

length-cancel : (i : ℕ) (ws : List Worker) → length (cancel i ws) ≡ length ws
length-cancel i [] = refl
length-cancel i (w ∷ ws) = omega (arith, length-cancel i ws)

-- the first thread
first_started-Inv :
    (sure : Bool) (mt : Mt) (r : ℤ) (l : Left ℤ)
    → Starts mt l
    → (sure ≡ true → Succeeds l)
    → Counted [] mt
    → mt.exit ≡ false
    → Inv sure (first_started r l)
first_started-Inv sure mt (pos n) l st good c open_mt = record {
  counted = λ _. record {
    avail = st.avail 0 c.avail ∙ ap pos (omega arith);
    total = st.total 0 c.total ∙ ap pos (omega arith);
    few = let h = st.few in omega arith;
  };
  phase = record {
    open_mt = st.exit ∙ open_mt;
    live = λ _. st.live;
    staffed = λ h. let g = good h in ((let k = g.0 in omega arith), g.1);
  };
}
first_started-Inv sure mt (negsuc n) l st good c open_mt = record {
  counted = λ _. record {
    avail = st.avail 0 c.avail ∙ ap pos (omega arith);
    total = st.total 0 c.total ∙ ap pos (omega arith);
    few = let h = st.few in omega arith;
  };
  phase = tt;
}

-- a change of the flags alone
recount :
    {ws : List Worker} (mt mt' : Mt)
    → (mt'.numavail ≡ mt.numavail) × (mt'.numworker ≡ mt.numworker)
    → Counted ws mt
    → Counted ws mt'
recount mt mt' same c = record { avail = same.0 ∙ c.avail; total = same.1 ∙ c.total; few = c.few }

signal-Up :
    (sure : Bool) (ws : List Worker) (mt : Mt)
    → Up sure ws mt
    → Up sure ws (record mt { exited = true })
signal-Up sure ws mt up = record {
  open_mt = up.open_mt;
  live = λ e. absurd (ground (arith, e));
  staffed = up.staffed;
}

signal-Phase :
    (sure : Bool) (main : Main) (ws : List Worker) (mt : Mt)
    → Phase sure main ws mt
    → Phase sure main ws (record mt { exited = true })
signal-Phase sure Main.starting ws mt ph = ph
signal-Phase sure Main.testing ws mt up = signal-Up sure ws mt up
signal-Phase sure Main.waiting ws mt up = signal-Up sure ws mt up
signal-Phase sure (Main.cancelling o) ws mt ph = tt
signal-Phase sure Main.joining ws mt ph = ph
signal-Phase sure (Main.returned e) ws mt ph = tt

module _ (sure : Bool) {s : State} (inv : Inv sure s) where
  at-Phase : (main : Main) → s.main ≡ main → Phase sure main s.workers s.mt
  at-Phase main e = subst (λ m. Phase sure m s.workers s.mt) e inv.phase

  -- the main thread goes on without the lists
  main-Inv :
      (main : Main) (mt : Mt)
      → (mt.exit ≡ false → Counted s.workers mt)
      → Phase sure main s.workers mt
      → Inv sure (record { main = main; workers = s.workers; mt = mt })
  main-Inv main mt c ph = record { counted = c; phase = ph }

  pub Step-Inv : {t : State} → Step s t → Inv sure t
  Step-Inv (work us w vs {l} e mv) =
      relist-Inv us w vs l s.mt mv sure s.main
        (subst (λ ws. Inv sure (record { main = s.main; workers = ws; mt = s.mt })) e inv)
  Step-Inv (starts e) =
      let ph = at-Phase Main.starting e in
      first_started-Inv sure s.mt (start_thread s.mt).result (start_thread s.mt)
        (start_thread-Starts s.mt) (λ h. start_thread-Succeeds s.mt (ph.2 h))
        (subst (λ ws. Counted ws s.mt) ph.0 (inv.counted ph.1)) ph.1
  Step-Inv signal =
      main-Inv s.main (record s.mt { exited = true })
        (λ h. recount s.mt _ (refl, refl) (inv.counted h))
        (signal-Phase sure s.main s.workers s.mt inv.phase)
  Step-Inv (waits e x) = main-Inv Main.waiting s.mt inv.counted (at-Phase Main.testing e)
  Step-Inv (stops e x) = main-Inv (Main.cancelling _) s.mt inv.counted tt
  Step-Inv (wakes n e x) =
      let up = at-Phase Main.waiting e in
      main-Inv Main.testing (record s.mt { finish = n })
        (λ h. recount s.mt _ (refl, refl) (inv.counted h))
        (record { open_mt = up.open_mt; live = up.live; staffed = up.staffed })
  Step-Inv (interrupts e) = main-Inv Main.testing s.mt inv.counted (at-Phase Main.waiting e)
  Step-Inv (cancels i next e x) = record {
    counted = λ h.
        let c = inv.counted h in
        record {
          avail = c.avail ∙ ap pos (sym (count-cancel i s.workers));
          total = c.total ∙ ap pos (sym (length-cancel i s.workers));
          few = subst (λ x. x ≤ 10) (sym (count-cancel i s.workers)) c.few;
        };
    phase = tt;
  }
  Step-Inv (exits e) = record { counted = λ h. absurd (ground (arith, h)); phase = refl }
  Step-Inv (joins w ws e x y) = record {
    counted = λ h. absurd (ground (arith, h, at-Phase Main.joining e));
    phase = subst (λ m. Phase sure m ws s.mt) (sym e) (at-Phase Main.joining e);
  }
  Step-Inv (returns e x) =
      main-Inv (Main.returned s.mt.error) (record s.mt { exited = false })
        (λ h. recount s.mt _ (refl, refl) (inv.counted h)) tt

initial-Inv : (mem : Mem) → Inv (not (has_failure mem)) (initial mem)
initial-Inv mem = record {
  counted = λ h. record { avail = refl; total = refl; few = omega arith };
  phase = (refl, refl, λ h. ground (arith, h));
}

pub Steps-Inv : (mem : Mem) {t : State} → Steps (initial mem) t → Inv (not (has_failure mem)) t
Steps-Inv mem here = initial-Inv mem
Steps-Inv mem (later path step) = Step-Inv (not (has_failure mem)) (Steps-Inv mem path) step

-- In every state that `fuse_session_loop_mt` reaches before it sets `exit`, `numworker` is the
-- number of threads in the list, `numavail` the number of those that are not at work on a message
-- other than FUSE_FORGET, and that is at most 10.
pub Steps-Counted :
    (mem : Mem) (t : State) → Steps (initial mem) t → t.mt.exit ≡ false → Counted t.workers t.mt
Steps-Counted mem t path e = (Steps-Inv mem path).counted e
