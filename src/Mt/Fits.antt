-- ===== src/Mt/Fits.antt =====
-- What the critical sections of fuse-2.8.5/lib/fuse_loop_mt.c do to the counts of all threads.
use fuse_nt.Prelude.{
  ℕ, ◌+◌, ◌≤◌, ◌≡◌, refl, sym, ap, ◌∙◌, inl, inr, Bool-cases, Bool, true, false, not, ◌&&◌, Option,
  none, some, length, count, arith, if◌then◌else◌,
}
use fuse_nt.Prelude.Int.{pos, ◌==ℤ◌, ==ℤ-eq, pred_int, succ_int}
use fuse_nt.Prelude.Memory.{has_failure}
use fuse_nt.Mt.{
  too_many, Pc, Mt, Left, start_if_none, take_message, leave_if_many, end_message, stays,
}
use mathlib.Core.Path.{subst}
use fuse_nt.Mt.Counts.{
  free_pc, is_free, live_pc, AllLive, one_if, pred_int-suc, pos-injective, start_thread-Starts,
  start_thread-Succeeds,
}

abbrev pub free_if : Option Pc → ℕ
free_if none = 0
free_if (some p) = one_if (free_pc p)

abbrev pub size : Option Pc → ℕ
size none = 0
size (some p) = 1

abbrev pub LiveIf : Option Pc → Type 0
LiveIf none = Unit
LiveIf (some p) = live_pc p ≡ true

-- the thread goes on in the loop, and so do those it started
abbrev pub Goes : Left (Option Pc) → Type 0
Goes l = LiveIf l.result × AllLive l.started

-- Beside a thread at `p` there are `k` others, of which `n` are free: a step that leaves `l` keeps
-- the counts, leaves the list staffed, and keeps the threads in the loop.
pub record Fits (n k : ℕ) (mt : Mt) (cancelled : Bool) (p : Pc) (l : Left (Option Pc))
    : Type 0 where
  pub avail :
      mt.numavail ≡ pos (n + one_if (free_pc p))
      → n + one_if (free_pc p) ≤ 10
      → (l.mt.numavail ≡ pos (n + free_if l.result + count is_free l.started))
        × (n + free_if l.result + count is_free l.started ≤ 10)
  pub total :
      mt.numworker ≡ pos (k + 1) → l.mt.numworker ≡ pos (k + size l.result + length l.started)
  pub exit : l.mt.exit ≡ mt.exit
  pub exited : l.mt.exited ≡ false → mt.exited ≡ false
  pub live : l.mt.exited ≡ false → (live_pc p && not cancelled) ≡ true → Goes l
  pub staffed :
      mt.numavail ≡ pos (n + one_if (free_pc p))
      → has_failure mt.mem ≡ false
      → 1 ≤ n + one_if (free_pc p)
      → (1 ≤ n + free_if l.result + count is_free l.started) × (has_failure l.mt.mem ≡ false)

module _ (n k : ℕ) (mt : Mt) (c : Bool) where
  -- a step that leaves the counts
  pub stays-Fits :
      (p q : Pc) (mt' : Mt)
      → free_pc q ≡ free_pc p
      → (mt'.numavail ≡ mt.numavail) × (mt'.numworker ≡ mt.numworker)
      → (mt'.exit ≡ mt.exit) × (mt'.mem ≡ mt.mem)
      → (mt'.exited ≡ false → mt.exited ≡ false)
      → (mt'.exited ≡ false → (live_pc p && not c) ≡ true → live_pc q ≡ true)
      → Fits n k mt c p (stays q mt')
  stays-Fits p q mt' same counts rest flag live = record {
    avail = λ a b. (rw same (counts.0 ∙ (a ∙ ap pos (omega arith))), rw same (omega arith));
    total = λ a. counts.1 ∙ (a ∙ ap pos (omega arith));
    exit = rest.0;
    exited = flag;
    live = λ e h. (live e h, tt);
    staffed = λ a b h. (rw same (omega arith), ap has_failure rest.1 ∙ b);
  }

  -- after the counting of a message other than FUSE_FORGET
  start_if_none-Fits :
      (p : Pc) (forget : Bool) (mt' : Mt)
      → (mt.numavail ≡ pos (n + one_if (free_pc p)) → mt'.numavail ≡ pos (n + one_if forget))
      → (mt'.numworker ≡ mt.numworker) × (mt'.exit ≡ mt.exit) × (mt'.mem ≡ mt.mem)
      → mt'.exited ≡ mt.exited
      → (one_if forget ≤ one_if (free_pc p))
      → Fits n k mt c p (start_if_none forget mt')
  unfolding start_if_none
  start_if_none-Fits p forget mt' counts rest flag h = elim (Bool-cases (mt'.numavail ==ℤ pos 0)) [
    | inl e ↦
        let S = start_thread-Starts mt' in
        let z = ==ℤ-eq mt'.numavail (pos 0) e in
        rw e (record {
          avail = λ a b. (
            S.avail (n + one_if forget) (counts a),
            (let q = pos-injective (sym (counts a) ∙ z) in let w = S.few in omega arith),
          );
          total = λ a. S.total (k + 1) (rest.0 ∙ a);
          exit = S.exit ∙ rest.1;
          exited = λ x. sym flag ∙ (sym S.exited ∙ x);
          live = λ x y. (refl, S.live);
          staffed = λ a b x.
              let w = start_thread-Succeeds mt' (ap has_failure rest.2 ∙ b) in
              ((let v = w.0 in omega arith), w.1);
        })
    | inr e ↦ rw e (record {
      avail = λ a b. (counts a ∙ ap pos (omega arith), omega arith);
      total = λ a. rest.0 ∙ (a ∙ ap pos (omega arith));
      exit = rest.1;
      exited = λ x. sym flag ∙ x;
      live = λ x y. (refl, tt);
      staffed = λ a b x. (
        (let v = ap (λ i. i ==ℤ pos 0) (sym (counts a)) ∙ e in ground arith),
        ap has_failure rest.2 ∙ b,
      );
    })
  ]

  if_open-Fits :
      (p : Pc) (l l' : Left (Option Pc))
      → mt.exit ≡ false
      → Fits n k mt c p l
      → Fits n k mt c p (if mt.exit then l' else l)
  if_open-Fits p l l' open_mt fits =
      subst (λ b. Fits n k mt c p (if b then l' else l)) (sym open_mt) fits

  pub take_message-Fits :
      (forget : Bool)
      → mt.exit ≡ false
      → Fits n k mt c (Pc.received forget) (take_message forget mt)
  unfolding take_message
  take_message-Fits true open_mt =
      if_open-Fits (Pc.received true) _ (stays Pc.ended mt) open_mt (
        start_if_none-Fits (Pc.received true) true mt (λ a. a) (refl, refl, refl) refl
          (omega arith))
  take_message-Fits false open_mt = if_open-Fits (Pc.received false) _ (stays Pc.ended mt) open_mt (
      start_if_none-Fits (Pc.received false) false (record mt { numavail = pred_int mt.numavail })
        (λ a. ap pred_int a ∙ (pred_int-suc n ∙ ap pos (omega arith))) (refl, refl, refl) refl
        (omega arith))

  leave_if_many-Fits :
      (p : Pc) (mt' : Mt)
      → (mt.numavail ≡ pos (n + one_if (free_pc p)) → mt'.numavail ≡ pos (n + 1))
      → (mt'.numworker ≡ mt.numworker) × (mt'.exit ≡ mt.exit) × (mt'.mem ≡ mt.mem)
      → mt'.exited ≡ mt.exited
      → mt'.exit ≡ false
      → Fits n k mt c p (leave_if_many mt')
  unfolding leave_if_many
  leave_if_many-Fits p mt' counts rest flag open_mt = elim (Bool-cases (too_many mt'.numavail)) [
    | inl e ↦
        rw (e, open_mt)
          (record {
            avail = λ a b.
                (ap pred_int (counts a) ∙ (pred_int-suc n ∙ ap pos (omega arith)), omega arith);
            total = λ a. ap pred_int (rest.0 ∙ a) ∙ (pred_int-suc k ∙ ap pos (omega arith));
            exit = sym open_mt ∙ rest.1;
            exited = λ x. sym flag ∙ x;
            live = λ x y. (tt, tt);
            staffed = λ a b x. (
              (let v = ap too_many (sym (counts a)) ∙ e in ground arith),
              ap has_failure rest.2 ∙ b,
            );
          })
    | inr e ↦ rw e (record {
      avail = λ a b. (
        counts a ∙ ap pos (omega arith),
        (let v = ap too_many (sym (counts a)) ∙ e in ground arith),
      );
      total = λ a. rest.0 ∙ (a ∙ ap pos (omega arith));
      exit = rest.1;
      exited = λ x. sym flag ∙ x;
      live = λ x y. (refl, tt);
      staffed = λ a b x. (omega arith, ap has_failure rest.2 ∙ b);
    })
  ]

  pub end_message-Fits :
      (forget : Bool)
      → mt.exit ≡ false
      → Fits n k mt c (Pc.processed forget) (end_message forget mt)
  unfolding end_message
  end_message-Fits true open_mt =
      leave_if_many-Fits (Pc.processed true) mt (λ a. a) (refl, refl, refl) refl open_mt
  end_message-Fits false open_mt =
      leave_if_many-Fits (Pc.processed false) (record mt { numavail = succ_int mt.numavail })
        (λ a. ap succ_int a ∙ ap pos (omega arith)) (refl, refl, refl) refl open_mt
