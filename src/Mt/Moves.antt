-- ===== src/Mt/Moves.antt =====
-- What a step of one thread of fuse-2.8.5/lib/fuse_loop_mt.c does to the counts and to `exit`.
use fuse_nt.Prelude.{
  ℕ, ◌+◌, ◌≡◌, refl, sym, ◌∙◌, inl, inr, Bool-cases, Bool, true, false, ◌||◌, Option, arith,
  if◌then◌else◌,
}
use fuse_nt.Prelude.Int.{pos, negsuc, ◌==ℤ◌, pred_int, succ_int}
use fuse_nt.Mt.{Pc, Mt, Left, start_if_none, take_message, leave_if_many, end_message, stays}
use fuse_nt.Mt.Schedule.{
  Move, goes_in, goes_out, interrupted, fails, closed, receives, takes, processes, ends, posts,
  dies_receiving, dies_paused,
}
use mathlib.Core.Path.{subst}
use fuse_nt.Mt.Counts.{start_thread-Starts}
use fuse_nt.Mt.Fits.{Fits, stays-Fits, take_message-Fits, end_message-Fits}

module _ (n k : ℕ) (mt : Mt) (c : Bool) where
  pub Move-Fits :
      {p : Pc} {l : Left (Option Pc)} → mt.exit ≡ false → Move mt c p l → Fits n k mt c p l
  Move-Fits open_mt (goes_in e) =
      stays-Fits n k mt c Pc.looping Pc.receiving mt refl (refl, refl) (refl, refl) (λ x. x)
        (λ x y. refl)
  Move-Fits open_mt (goes_out e) =
      stays-Fits n k mt c Pc.looping Pc.leaving mt refl (refl, refl) (refl, refl) (λ x. x)
        (λ x y. absurd (ground arith))
  Move-Fits open_mt interrupted =
      stays-Fits n k mt c Pc.receiving Pc.looping mt refl (refl, refl) (refl, refl) (λ x. x)
        (λ x y. refl)
  Move-Fits open_mt fails =
      stays-Fits n k mt c Pc.receiving Pc.leaving (record mt { exited = true; error = negsuc 0 })
        refl (refl, refl) (refl, refl) (λ x. absurd (ground arith)) (λ x y. absurd (ground arith))
  Move-Fits open_mt closed =
      stays-Fits n k mt c Pc.receiving Pc.leaving (record mt { exited = true }) refl (refl, refl)
        (refl, refl) (λ x. absurd (ground arith)) (λ x y. absurd (ground arith))
  Move-Fits open_mt (receives forget) =
      stays-Fits n k mt c Pc.receiving (Pc.received forget) mt refl (refl, refl) (refl, refl)
        (λ x. x) (λ x y. refl)
  Move-Fits open_mt (takes forget) = take_message-Fits n k mt c forget open_mt
  Move-Fits open_mt (processes forget b) =
      stays-Fits n k mt c (Pc.processing forget) (Pc.processed forget)
        (record mt { exited = mt.exited || b }) refl (refl, refl) (refl, refl) (λ x. ground arith)
        (λ x y. refl)
  Move-Fits open_mt (ends forget) = end_message-Fits n k mt c forget open_mt
  Move-Fits open_mt posts =
      stays-Fits n k mt c Pc.leaving Pc.paused (record mt { finish = mt.finish + 1 }) refl
        (refl, refl) (refl, refl) (λ x. x) (λ x y. absurd (ground arith))
  Move-Fits open_mt (dies_receiving d) =
      stays-Fits n k mt c Pc.receiving Pc.ended mt refl (refl, refl) (refl, refl) (λ x. x)
        (λ x y. absurd (ground arith))
  Move-Fits open_mt (dies_paused d) =
      stays-Fits n k mt c Pc.paused Pc.ended mt refl (refl, refl) (refl, refl) (λ x. x)
        (λ x y. absurd (ground arith))

start_if_none-exit : (forget : Bool) (mt : Mt) → (start_if_none forget mt).mt.exit ≡ mt.exit
unfolding start_if_none
start_if_none-exit forget mt = elim (Bool-cases (mt.numavail ==ℤ pos 0)) [
  | inl e ↦ rw e ((start_thread-Starts mt).exit)
  | inr e ↦ rw e refl
]

leave_if_many-exit : (mt : Mt) → (leave_if_many mt).mt.exit ≡ mt.exit
unfolding leave_if_many
leave_if_many-exit mt = ground arith

take_message-exit :
    (forget : Bool) (mt : Mt) → (take_message forget mt).mt.exit ≡ false → mt.exit ≡ false
unfolding take_message
take_message-exit forget mt h = elim (Bool-cases mt.exit) [
  | inl e ↦
      subst
        (λ b.
          (if b
            then stays Pc.ended mt
            else start_if_none forget
                (if forget then mt else record mt { numavail = pred_int mt.numavail })).mt.exit
          ≡ false)
        e h
  | inr e ↦ e
]

-- a thread leaves `exit` as it is
pub Move-exit :
    (mt : Mt) {c : Bool} {p : Pc} {l : Left (Option Pc)}
    → l.mt.exit ≡ false
    → Move mt c p l
    → mt.exit ≡ false
unfolding leave_if_many end_message
Move-exit mt h (takes forget) = take_message-exit forget mt h
Move-exit mt h (ends true) = sym (leave_if_many-exit mt) ∙ h
Move-exit mt h (ends false) =
    sym (leave_if_many-exit (record mt { numavail = succ_int mt.numavail })) ∙ h
Move-exit mt h _ = h
