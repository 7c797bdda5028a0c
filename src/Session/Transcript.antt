-- ===== src/Session/Transcript.antt =====
-- What a session serves until it ends: `fuse_session_loop` of fuse-2.8.5/lib/fuse_loop.c with
-- `fuse_kern_chan_receive` of fuse-2.8.5/lib/fuse_kern_chan.c.
use fuse_nt.Prelude.{
  ℕ, zero, suc, ◌+◌, ◌<◌, ◌≡◌, refl, sym, ◌∙◌, true, false, ◌||◌, none, List, [], ◌∷◌, ltb, ◌==◌,
  if◌then◌else◌, length, arith, Bool-cases, inl, inr,
}
use fuse_nt.Session.{
  Session, Ops, Read, bytes, failed, Event, Result, message, nothing, error, enoent, enodev, eintr,
  in_header_size, on_read, Ended, ended, waiting, session_exit, session_reset, session_exited,
  receive, after_receive, loop, session_loop,
}

-- how the events of a device end a session: the file system is unmounted, a read fails, or
-- nothing more comes
pub data Ending : Type 0 where
  unmounted broken waits : Ending

-- the messages in front of the end, the first read and then the others
abbrev pub with_read : Read → List (List ℕ) → List (List ℕ)
with_read (bytes b) rest = if ltb (length b) in_header_size then [] else b ∷ rest
with_read (failed e) rest = if e == enoent || e == eintr then rest else []

abbrev pub messages : List Event → List (List ℕ)
messages [] = []
messages (ev ∷ evs) = with_read ev.result (messages evs)

abbrev pub end_with : Read → Ending → Ending
end_with (bytes b) rest = if ltb (length b) in_header_size then broken else rest
end_with (failed e) rest =
    if e == enoent || e == eintr then rest else if e == enodev then unmounted else broken

abbrev pub ending : List Event → Ending
ending [] = waits
ending (ev ∷ evs) = end_with ev.result (ending evs)

-- a session without the callbacks `exit` and `exited`
abbrev pub plain : {D : Type 0} → (List ℕ → Session D → Session D) → Ops D
plain process = record { exit = none; is_exited = none; process = process }

abbrev pub NoExits : List Event → Type 0
NoExits [] = Unit {0}
NoExits (ev ∷ evs) = (ev.exits ≡ false) × NoExits evs

other : (c : ℕ) → (c == eintr) ≡ true → (c == enodev) ≡ false
other c h = ground arith

module _ {D : Type 0} (process : List ℕ → Session D → Session D) where
  -- one message after the other
  abbrev pub serve : List (List ℕ) → Session D → Session D
  serve [] se = se
  serve (b ∷ bs) se = serve bs (process b se)

  abbrev pub outcome : Ending → Session D → Ended D
  outcome unmounted se = ended true (record se { exited = false })
  outcome broken se = ended false (record se { exited = false })
  outcome waits se = waiting

  -- no handler ends the session
  abbrev pub Keeps : Type 0
  Keeps = (b : List ℕ) (se : Session D) → se.exited ≡ false → (process b se).exited ≡ false

  loop-round :
      (fuel : ℕ) (res : Result) (evs : List Event) (se : Session D)
      → se.exited ≡ false
      → loop (plain process) (suc fuel) res evs se
        ≡ after_receive (plain process) (receive (plain process) evs se) (loop (plain process) fuel)
  unfolding loop session_exited
  loop-round fuel res evs se e = rw e

  receive-read :
      (ev : Event) (evs : List Event) (se : Session D)
      → ev.exits ≡ false
      → se.exited ≡ false
      → receive (plain process) (ev ∷ evs) se
        ≡ on_read (plain process) ev.result (receive (plain process) evs se) evs se
  unfolding receive session_exited
  receive-read ev evs se x e = rw (x, e)

  -- one read, for the events behind it
  abbrev Served : ℕ → Result → List Event → Session D → Type 0
  Served fuel res evs se =
      loop (plain process) fuel res evs se ≡ outcome (ending evs) (serve (messages evs) se)

  after_bytes :
      (fuel : ℕ) (b : List ℕ) (evs : List Event) (se : Session D)
      → Served fuel (message b) evs (process b se)
      → after_receive
          (plain process)
          (on_read (plain process) (bytes b) (receive (plain process) evs se) evs se)
          (loop (plain process) fuel)
        ≡ outcome (end_with (bytes b) (ending evs)) (serve (with_read (bytes b) (messages evs)) se)
  unfolding session_reset
  after_bytes fuel b evs se h = elim (Bool-cases (ltb (length b) in_header_size)) [
    | inl s ↦ rw s refl
    | inr s ↦ rw s h
  ]

  after_failed :
      (fuel : ℕ) (c : ℕ) (evs : List Event) (se : Session D)
      → after_receive (plain process) (receive (plain process) evs se) (loop (plain process) fuel)
        ≡ outcome (ending evs) (serve (messages evs) se)
      → Served fuel (error c) evs se
      → after_receive
          (plain process)
          (on_read (plain process) (failed c) (receive (plain process) evs se) evs se)
          (loop (plain process) fuel)
        ≡ outcome
            (end_with (failed c) (ending evs))
            (serve (with_read (failed c) (messages evs)) se)
  unfolding session_reset session_exit
  after_failed fuel c evs se again h = elim (Bool-cases (c == enoent)) [
    | inl s ↦ rw s again
    | inr s ↦ elim (Bool-cases (c == eintr)) [
      | inl t ↦ rw (s, t, other c t, t) h
      | inr t ↦ elim (Bool-cases (c == enodev)) [
        | inl u ↦ rw (s, t, u) refl
        | inr u ↦ rw (s, t, u, t) refl
      ]
    ]
  ]

  after_read :
      (fuel : ℕ) (r : Read) (evs : List Event) (se : Session D)
      → after_receive (plain process) (receive (plain process) evs se) (loop (plain process) fuel)
        ≡ outcome (ending evs) (serve (messages evs) se)
      → ((res : Result) (se' : Session D) → se'.exited ≡ false → Served fuel res evs se')
      → Keeps
      → se.exited ≡ false
      → after_receive
          (plain process)
          (on_read (plain process) r (receive (plain process) evs se) evs se)
          (loop (plain process) fuel)
        ≡ outcome (end_with r (ending evs)) (serve (with_read r (messages evs)) se)
  after_read fuel (bytes b) evs se again h k e =
      after_bytes fuel b evs se (h (message b) (process b se) (k b se e))
  after_read fuel (failed c) evs se again h k e =
      after_failed fuel c evs se again (h (error c) se e)

  loop-serves :
      (fuel : ℕ) (res : Result) (evs : List Event) (se : Session D)
      → Keeps
      → NoExits evs
      → se.exited ≡ false
      → length evs < fuel
      → Served fuel res evs se
  unfolding receive
  loop-serves zero res evs se k x e h = absurd (omega arith)
  loop-serves (suc fuel) res [] se k x e h = loop-round fuel res [] se e
  loop-serves (suc fuel) res (ev ∷ evs) se k x e h =
      loop-round fuel res (ev ∷ evs) se e
      ∙ rw (receive-read ev evs se x.0 e) (
          after_read fuel ev.result evs se
            (sym (loop-round fuel res evs se e)
              ∙ loop-serves (suc fuel) res evs se k x.1 e (omega arith))
            (λ r se' e'. loop-serves fuel r evs se' k x.1 e' (omega arith)) k e)

  -- The loop hands each message to the handler, in the order of the reads, and returns 0 when the
  -- file system is unmounted and -1 when a read fails or gives less than a header; it starts
  -- over at ENOENT and EINTR. The session has not ended before, neither a handler nor a signal ends
  -- it, it has no callbacks of its own, and the buffer could be allocated.
  pub session_loop-serves :
      (evs : List Event) (se : Session D)
      → Keeps
      → NoExits evs
      → se.exited ≡ false
      → session_loop (plain process) true evs se ≡ outcome (ending evs) (serve (messages evs) se)
  unfolding session_loop
  session_loop-serves evs se k x e = loop-serves (length evs + 1) nothing evs se k x e (omega arith)
