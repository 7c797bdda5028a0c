-- ===== src/Mt/Awake.antt =====
-- That the threads of fuse-2.8.5/lib/fuse_loop_mt.c do not all wait for the file system.
use fuse_nt.Prelude.{
  ◌≤◌, ◌≡◌, refl, ap, Bool, true, false, ◌&&◌, List, [], ◌∷◌, ◌++◌, count, arith, Bool-cases, inl,
  inr,
}
use mathlib.Core.Path.{subst}
use fuse_nt.Mt.{Worker, Mt}
use fuse_nt.Mt.Schedule.{Main}
use fuse_nt.Mt.Counts.{is_free, is_live, AllLive}
use fuse_nt.Mt.Relist.{Up, Phase, AllLive-parts}

-- a worker that passes a test, with those before and behind it
pub record Found (q : Worker → Bool) (ws : List Worker) : Type 0 where
  pub before : List Worker
  pub worker : Worker
  pub behind : List Worker
  pub split : ws ≡ before ++ (worker ∷ behind)
  pub passes : q worker ≡ true

pub count-Found : (q : Worker → Bool) (ws : List Worker) → 1 ≤ count q ws → Found q ws
count-Found q [] h = absurd (ground arith)
count-Found q (w ∷ ws) h = elim (Bool-cases (q w)) [
  | inl e ↦ record { before = []; worker = w; behind = ws; split = refl; passes = e }
  | inr e ↦
      let ih = count-Found q ws (ground (arith, e, h)) in
      record {
        before = w ∷ ih.before;
        worker = ih.worker;
        behind = ih.behind;
        split = ap (λ x. w ∷ x) ih.split;
        passes = ih.passes;
      }
]

-- `fuse_session_loop_mt` waits for the end of the session
abbrev pub is_up : Main → Bool
is_up Main.testing = true
is_up Main.waiting = true
is_up _ = false

pub Phase-Up :
    (sure : Bool) (main : Main) (ws : List Worker) (mt : Mt)
    → is_up main ≡ true
    → Phase sure main ws mt
    → Up sure ws mt
Phase-Up sure Main.testing ws mt e ph = ph
Phase-Up sure Main.waiting ws mt e ph = ph
Phase-Up sure Main.starting ws mt e ph = absurd (ground (arith, e))
Phase-Up sure (Main.cancelling o) ws mt e ph = absurd (ground (arith, e))
Phase-Up sure Main.joining ws mt e ph = absurd (ground (arith, e))
Phase-Up sure (Main.returned r) ws mt e ph = absurd (ground (arith, e))

-- in the loop, and not at work on a message other than FUSE_FORGET
abbrev pub is_ready : Worker → Bool
is_ready w = is_free w && is_live w

pub Up-Found : (ws : List Worker) (mt : Mt) → Up true ws mt → mt.exited ≡ false → Found is_ready ws
Up-Found ws mt up e =
    let f = count-Found is_free ws (up.staffed refl).0 in
    let parts = AllLive-parts f.before (f.worker ∷ f.behind) (subst AllLive f.split (up.live e)) in
    record {
      before = f.before;
      worker = f.worker;
      behind = f.behind;
      split = f.split;
      passes = ground (arith, f.passes, parts.1.0);
    }
