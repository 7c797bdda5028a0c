-- ===== src/Session/Loop.antt =====
-- The loop of a session, `fuse_session_loop` of fuse-2.8.5/lib/fuse_loop.c.
use fuse_nt.Prelude.{
  ℕ, zero, suc, ◌+◌, ◌<◌, ◌≢◌, Bool, true, false, List, [], ◌∷◌, ltb, ◌==◌, if◌then◌else◌, length,
  arith,
}
use fuse_nt.Session.{
  Session, Ops, on_read, Read, bytes, failed, Event, Result, message, nothing, error, enoent,
  enodev, eintr, in_header_size, Received, received, blocked, Ended, no_fuel, session_exited,
  during, receive, leave, after_receive, loop, session_loop,
}

-- one event at least is taken
data Takes {D : Type 0} (n : ℕ) : Received D → Type 0 where
  takes :
      (res : Result) (evs : List Event) (se : Session D)
      → length evs < n
      → Takes n (received res evs se)
  takes_none : Takes n blocked

module _ {D : Type 0} (ops : Ops D) where
  Takes-more : (n : ℕ) (r : Received D) → Takes n r → Takes (suc n) r
  Takes-more n (received res evs se) (takes _ _ _ h) = takes res evs se (omega arith)
  Takes-more n blocked takes_none = takes_none

  Takes-if :
      (n : ℕ) (b : Bool) (r s : Received D) → Takes n r → Takes n s → Takes n (if b then r else s)
  Takes-if n true r s h k = h
  Takes-if n false r s h k = k

  on_read-Takes :
      (r : Read) (again : Received D) (evs : List Event) (se : Session D)
      → Takes (suc (length evs)) again
      → Takes (suc (length evs)) (on_read ops r again evs se)
  on_read-Takes (bytes b) again evs se h =
      Takes-if _ (ltb (length b) in_header_size) _ _ (takes _ _ _ (omega arith))
        (takes _ _ _ (omega arith))
  on_read-Takes (failed e) again evs se h =
      Takes-if _ (e == enoent) _ _ h
        (Takes-if _ (e == enodev) _ _ (takes _ _ _ (omega arith)) (takes _ _ _ (omega arith)))

  receive-Takes : (evs : List Event) (se : Session D) → Takes (length evs) (receive ops evs se)
  unfolding receive
  receive-Takes [] se = takes_none
  receive-Takes (ev ∷ evs) se =
      let se' = during ops ev se in
      let again = Takes-more _ _ (receive-Takes evs se') in
      Takes-if _ (session_exited ops se') _ _ (takes _ _ _ (omega arith))
        (on_read-Takes ev.result _ evs se' again)

  leave-ne-no_fuel : (res : Result) (se : Session D) → leave ops res se ≢ no_fuel
  leave-ne-no_fuel res se = λ e. cc

  if-ne-no_fuel :
      (b : Bool) (x y : Ended D) → x ≢ no_fuel → y ≢ no_fuel → (if b then x else y) ≢ no_fuel
  if-ne-no_fuel true x y h k = h
  if-ne-no_fuel false x y h k = k

  after_receive-ne-no_fuel :
      (n : ℕ) (r : Received D) (next : Result → List Event → Session D → Ended D)
      → Takes n r
      → ((res : Result) (evs : List Event) (se : Session D)
          → length evs < n
          → next res evs se ≢ no_fuel)
      → after_receive ops r next ≢ no_fuel
  after_receive-ne-no_fuel n blocked next h k = λ e. cc
  after_receive-ne-no_fuel n (received (message b) evs se) next (takes _ _ _ l) k =
      k (message b) evs (ops.process b se) l
  after_receive-ne-no_fuel n (received nothing evs se) next (takes _ _ _ l) k =
      leave-ne-no_fuel nothing se
  after_receive-ne-no_fuel n (received (error e) evs se) next (takes _ _ _ l) k =
      if-ne-no_fuel (e == eintr) _ _ (k (error e) evs se l) (leave-ne-no_fuel (error e) se)

  loop-ne-no_fuel :
      (fuel : ℕ) (res : Result) (evs : List Event) (se : Session D)
      → length evs < fuel
      → loop ops fuel res evs se ≢ no_fuel
  unfolding loop
  loop-ne-no_fuel zero res evs se h = absurd (omega arith)
  loop-ne-no_fuel (suc fuel) res evs se h =
      if-ne-no_fuel (session_exited ops se) _ _ (leave-ne-no_fuel res se) (
        after_receive-ne-no_fuel (length evs) (receive ops evs se) (loop ops fuel)
          (receive-Takes evs se)
          (λ res' evs' se' l. loop-ne-no_fuel fuel res' evs' se' (omega arith)))

  -- Whatever is read and whatever the handlers do, the loop returns or waits for the device; a round
  -- more than there are events is enough.
  session_loop-ne-no_fuel :
      (got : Bool) (evs : List Event) (se : Session D) → session_loop ops got evs se ≢ no_fuel
  unfolding session_loop
  session_loop-ne-no_fuel got evs se =
      if-ne-no_fuel got _ _ (loop-ne-no_fuel (length evs + 1) nothing evs se (omega arith))
        (λ e. cc)
