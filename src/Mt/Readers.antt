-- ===== src/Mt/Readers.antt =====
-- That a free thread of fuse-2.8.5/lib/fuse_loop_mt.c comes to read the device, unless it has a
-- message to begin.
use fuse_nt.Prelude.{
  ℕ, ◌≤◌, ◌≡◌, refl, sym, ap, ◌∙◌, Bool, true, false, ◌||◌, Option, List, [], ◌∷◌, ◌++◌, arith,
  ge→ltb, ◌==◌, if◌then◌else◌,
}
use mathlib.Core.Path.{subst}
use fuse_nt.Prelude.Int.{pos, ◌==ℤ◌}
use fuse_nt.Mt.{
  Pc, Worker, Mt, Left, start_thread, start_if_none, take_message, leave_if_many, end_message,
  stays, too_many, del_worker, goes_on,
}
use fuse_nt.Mt.Schedule.{State, Move, relist, work, goes_in, takes, processes, ends}
use fuse_nt.Mt.Relist.{Counted, Up, Inv}
use fuse_nt.Mt.Invariant.{Step-Inv}
use fuse_nt.Mt.Awake.{Found, is_up, Phase-Up}

-- a step that does not wait for the end of a message other than FUSE_FORGET
abbrev pub is_quick : Pc → Bool
is_quick (Pc.processing forget) = forget
is_quick _ = true

pub data QuickSteps : State → State → Type 0 where
  stop : {s : State} → QuickSteps s s
  step :
      {s t : State} (us : List Worker) (w : Worker) (vs : List Worker) {l : Left (Option Pc)}
      → s.workers ≡ us ++ (w ∷ vs)
      → Move s.mt w.cancelled w.pc l
      → is_quick w.pc ≡ true
      → QuickSteps (record { main = s.main; workers = relist us w vs l; mt = l.mt }) t
      → QuickSteps s t

abbrev pub is_receiving : Worker → Bool
is_receiving w = elim w.pc [ Pc.receiving ↦ true | _ ↦ false ]

pub record Reads (s : State) : Type 0 where
  pub target : State
  pub path : QuickSteps s target
  pub reader : Found is_receiving target.workers

-- the states of the theorem
pub record Running (s : State) : Type 0 where
  pub inv : Inv true s
  pub up : is_up s.main ≡ true
  pub on : s.mt.exited ≡ false

pub Running-Up : {s : State} → Running s → Up true s.workers s.mt
Running-Up {s} r = Phase-Up true s.main s.workers s.mt r.up r.inv.phase

Running-Counted : {s : State} → Running s → Counted s.workers s.mt
Running-Counted r = r.inv.counted (Running-Up r).open_mt

-- a worker in its place
pub record At (s : State) (p : Pc) : Type 0 where
  pub us : List Worker
  pub w : Worker
  pub vs : List Worker
  pub split : s.workers ≡ us ++ (w ∷ vs)
  pub pc : w.pc ≡ p

abbrev pub after : (s : State) {p : Pc} → At s p → Left (Option Pc) → State
after s a l = record { main = s.main; workers = relist a.us a.w a.vs l; mt = l.mt }

module _ (s : State) (p : Pc) (a : At s p) (l : Left (Option Pc))
    (mv : Move s.mt a.w.cancelled p l) where
  own_move : Move s.mt a.w.cancelled a.w.pc l
  own_move = subst (λ q. Move s.mt a.w.cancelled q l) (sym a.pc) mv

  pub step-Reads : is_quick p ≡ true → Reads (after s a l) → Reads s
  step-Reads h r = record {
    target = r.target;
    path = step a.us a.w a.vs a.split own_move (ap is_quick a.pc ∙ h) r.path;
    reader = r.reader;
  }

  pub step-Running : Running s → l.mt.exited ≡ false → Running (after s a l)
  step-Running r e = record {
    inv = Step-Inv true r.inv (work a.us a.w a.vs a.split own_move);
    up = r.up;
    on = e;
  }

stays-At : (s : State) (p q : Pc) (a : At s p) (mt : Mt) → At (after s a (stays q mt)) q
stays-At s p q a mt = record {
  us = a.us;
  w = record a.w { pc = q };
  vs = a.vs ++ [];
  split = refl;
  pc = refl;
}

pub receiving-Reads : (s : State) → At s Pc.receiving → Reads s
receiving-Reads s a = record {
  target = s;
  path = stop;
  reader = record {
    before = a.us;
    worker = a.w;
    behind = a.vs;
    split = a.split;
    passes = ap (λ p. elim p [ Pc.receiving ↦ true | _ ↦ false ]) a.pc;
  };
}

pub looping-Reads : (s : State) → At s Pc.looping → s.mt.exited ≡ false → Reads s
looping-Reads s a e = step-Reads s Pc.looping a _ (goes_in e) refl (
    receiving-Reads (after s a (stays Pc.receiving s.mt))
      (stays-At s Pc.looping Pc.receiving a s.mt))

-- the second critical section after a FUSE_FORGET
end_forget :
    (mt : Mt) (n : ℕ) → mt.numavail ≡ pos n → n ≤ 10 → end_message true mt ≡ stays Pc.looping mt
unfolding end_message leave_if_many
end_forget mt n e h =
    ap
      (λ b.
        if b then (if mt.exit then stays Pc.ended mt else del_worker mt) else stays Pc.looping mt)
      (ap too_many e ∙ ge→ltb 10 n h)

pub processed-Reads : (s : State) → At s (Pc.processed true) → Running s → Reads s
processed-Reads s a r =
    let c = Running-Counted r in
    step-Reads s (Pc.processed true) a (stays Pc.looping s.mt)
      (subst (Move s.mt a.w.cancelled (Pc.processed true)) (end_forget s.mt _ c.avail c.few)
        (ends true))
      refl
      (looping-Reads (after s a (stays Pc.looping s.mt))
        (stays-At s (Pc.processed true) Pc.looping a s.mt) r.on)

pub processing-Reads : (s : State) → At s (Pc.processing true) → Running s → Reads s
processing-Reads s a r =
    let mt = record s.mt { exited = s.mt.exited || false } in
    let mv = processes true false in
    step-Reads s (Pc.processing true) a (stays (Pc.processed true) mt) mv refl (
      processed-Reads (after s a (stays (Pc.processed true) mt))
        (stays-At s (Pc.processing true) (Pc.processed true) a mt)
        (step-Running s (Pc.processing true) a _ mv r (ap (λ b. b || false) r.on)))

-- the first critical section, where a thread is free
take_forget :
    (mt : Mt) (n : ℕ)
    → mt.exit ≡ false
    → mt.numavail ≡ pos n
    → 1 ≤ n
    → take_message true mt ≡ stays (Pc.processing true) mt
unfolding take_message start_if_none
take_forget mt n o e h =
    ap (λ b. if b then stays Pc.ended mt else start_if_none true mt) o
    ∙ ap
        (λ b.
          if b
          then goes_on (Pc.processing true) (start_thread mt)
          else stays (Pc.processing true) mt)
        (let z : (n == 0) ≡ false = ground arith in ap (λ i. i ==ℤ pos 0) e ∙ z)

pub received-Reads : (s : State) → At s (Pc.received true) → Running s → Reads s
received-Reads s a r =
    let c = Running-Counted r in
    let up = Running-Up r in
    let mv : Move s.mt a.w.cancelled (Pc.received true) (stays (Pc.processing true) s.mt) =
      subst (Move s.mt a.w.cancelled (Pc.received true))
        (take_forget s.mt _ up.open_mt c.avail (up.staffed refl).0) (takes true) in
    step-Reads s (Pc.received true) a _ mv refl (
      processing-Reads (after s a (stays (Pc.processing true) s.mt))
        (stays-At s (Pc.received true) (Pc.processing true) a s.mt)
        (step-Running s (Pc.received true) a _ mv r r.on))
