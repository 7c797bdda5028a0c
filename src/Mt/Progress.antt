-- ===== src/Mt/Progress.antt =====
-- That some thread of fuse-2.8.5/lib/fuse_loop_mt.c comes to read the device, however long the
-- messages take that the others are at work on.
use fuse_nt.Prelude.{
  ℕ, zero, suc, ◌+◌, ◌≤◌, ◌≡◌, refl, sym, ap, ◌∙◌, Bool, true, false, not, ◌&&◌, Option, some, List,
  [], ◌∷◌, ◌++◌, All, count, count-append, arith, Bool-cases, inl, inr, if◌then◌else◌,
}
use mathlib.Core.Path.{subst}
use fuse_nt.Prelude.Int.{pos, ◌==ℤ◌, pred_int}
use fuse_nt.Prelude.Memory.{Mem, has_failure}
use fuse_nt.Mt.{Pc, Worker, Mt, Left, start_thread, start_if_none, take_message, stays}
use fuse_nt.Mt.Schedule.{State, relist, kept, Steps, initial, takes}
use fuse_nt.Mt.Counts.{live_pc, free_pc, start_thread-Starts}
use fuse_nt.Mt.Relist.{Inv}
use fuse_nt.Mt.Invariant.{Steps-Inv}
use fuse_nt.Mt.Awake.{is_up, Up-Found}
use fuse_nt.Mt.Readers.{
  Reads, Running, At, after, step-Reads, step-Running, Running-Up, receiving-Reads, looping-Reads,
  processed-Reads, processing-Reads, received-Reads,
}

-- a thread with a message it has not begun
abbrev is_holding : Worker → Bool
is_holding w = elim w.pc [ Pc.received _ ↦ true | _ ↦ false ]

all-looping : (ws : List Worker) → All (λ w. w.pc ≡ Pc.looping) ws → count is_holding ws ≡ 0
all-looping [] h = refl
all-looping (w ∷ ws) h = let ih = all-looping ws h.1 in rw (h.0, ih) refl

-- what the first critical section leaves
record Taken (mt : Mt) (l : Left (Option Pc)) : Type 0 where
  goes : l.result ≡ some (Pc.processing false)
  none_holds : count is_holding l.started ≡ 0
  on : l.mt.exited ≡ mt.exited

start_if_none-Taken : (mt mt' : Mt) → mt'.exited ≡ mt.exited → Taken mt (start_if_none false mt')
unfolding start_if_none
start_if_none-Taken mt mt' e =
    let st = start_thread-Starts mt' in
    elim (Bool-cases (mt'.numavail ==ℤ pos 0)) [
      | inl z ↦ rw z (record {
        goes = refl;
        none_holds = all-looping (start_thread mt').started st.fresh;
        on = st.exited ∙ e;
      })
      | inr z ↦ rw z (record { goes = refl; none_holds = refl; on = e })
    ]

take_message-Taken : (mt : Mt) → mt.exit ≡ false → Taken mt (take_message false mt)
unfolding take_message
take_message-Taken mt o =
    subst
      (λ b. Taken mt (
        if b
        then stays Pc.ended mt
        else start_if_none false (record mt { numavail = pred_int mt.numavail })))
      (sym o) (start_if_none-Taken mt (record mt { numavail = pred_int mt.numavail }) refl)

count-holding :
    (us : List Worker) (w : Worker) (vs ts : List Worker)
    → w.pc ≡ Pc.received false
    → count is_holding ts ≡ 0
    → count is_holding (us ++ kept w (some (Pc.processing false)) (vs ++ ts)) + 1
      ≡ count is_holding (us ++ (w ∷ vs))
count-holding us w vs ts e h =
    let h1 = count-append is_holding us (kept w (some (Pc.processing false)) (vs ++ ts)) in
    let h2 = count-append is_holding us (w ∷ vs) in
    let h3 = count-append is_holding vs ts in
    let h4 : is_holding w ≡ true = ap (λ p. elim p [ Pc.received _ ↦ true | _ ↦ false ]) e in
    ground arith

-- The thread that is found takes its message, and there is one fewer that holds one.
held-Reads :
    (s : State)
    → At s (Pc.received false)
    → Running s
    → ((t : State)
        → Running t
        → count is_holding t.workers + 1 ≤ count is_holding s.workers
        → Reads t)
    → Reads s
held-Reads s a r ih =
    let mv = takes false in
    let l = take_message false s.mt in
    let taken = take_message-Taken s.mt (Running-Up r).open_mt in
    let fewer : count is_holding (relist a.us a.w a.vs l) + 1 ≡ count is_holding s.workers =
      subst
        (λ o.
          count is_holding (a.us ++ kept a.w o (a.vs ++ l.started)) + 1
          ≡ count is_holding s.workers)
        (sym taken.goes)
        (count-holding a.us a.w a.vs l.started a.pc taken.none_holds
          ∙ sym (ap (count is_holding) a.split)) in
    step-Reads s (Pc.received false) a l mv refl (
      ih (after s a l) (step-Running s (Pc.received false) a l mv r (taken.on ∙ r.on))
        (omega arith))

found-Reads :
    (s : State) (p : Pc)
    → At s p
    → (free_pc p && live_pc p) ≡ true
    → Running s
    → ((t : State)
        → Running t
        → count is_holding t.workers + 1 ≤ count is_holding s.workers
        → Reads t)
    → Reads s
found-Reads s Pc.looping a h r ih = looping-Reads s a r.on
found-Reads s Pc.receiving a h r ih = receiving-Reads s a
found-Reads s (Pc.received true) a h r ih = received-Reads s a r
found-Reads s (Pc.received false) a h r ih = held-Reads s a r ih
found-Reads s (Pc.processing true) a h r ih = processing-Reads s a r
found-Reads s (Pc.processed true) a h r ih = processed-Reads s a r
found-Reads s (Pc.processing false) a h r ih = absurd (ground (arith, h))
found-Reads s (Pc.processed false) a h r ih = absurd (ground (arith, h))
found-Reads s Pc.leaving a h r ih = absurd (ground (arith, h))
found-Reads s Pc.paused a h r ih = absurd (ground (arith, h))
found-Reads s Pc.ended a h r ih = absurd (ground (arith, h))

run-Reads :
    (s : State)
    → Running s
    → ((t : State)
        → Running t
        → count is_holding t.workers + 1 ≤ count is_holding s.workers
        → Reads t)
    → Reads s
run-Reads s r ih =
    let f = Up-Found s.workers s.mt (Running-Up r) r.on in
    found-Reads s f.worker.pc
      (record { us = f.before; w = f.worker; vs = f.behind; split = f.split; pc = refl })
      (ground (arith, f.passes)) r ih

fuel-Reads : (n : ℕ) (s : State) → Running s → count is_holding s.workers ≤ n → Reads s
fuel-Reads zero s r h = run-Reads s r (λ t rt less. absurd (omega arith))
fuel-Reads (suc n) s r h = run-Reads s r (λ t rt less. fuel-Reads n t rt (omega arith))

-- If no allocation and no `pthread_create` fails, then in every state in which
-- `fuse_session_loop_mt` waits and the session has not ended, steps of the threads lead to a state
-- in which one of them reads the device, and none of these steps is the end of
-- `fuse_session_process` for a message other than FUSE_FORGET.
pub Steps-Reads :
    (mem : Mem) (t : State)
    → has_failure mem ≡ false
    → Steps (initial mem) t
    → is_up t.main ≡ true
    → t.mt.exited ≡ false
    → Reads t
Steps-Reads mem t sure path up on =
    fuel-Reads (count is_holding t.workers) t
      (record { inv = subst (λ b. Inv b t) (ap not sure) (Steps-Inv mem path); up = up; on = on })
      (omega arith)
