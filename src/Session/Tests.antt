-- ===== src/Session/Tests.antt =====
-- Runs of a session, and its theorems at a session with two messages.
use fuse_nt.Prelude.{ℕ, ◌+◌, ◌≡◌, refl, true, false, List, [], ◌∷◌, suc, zero}
use fuse_nt.Session.{
  Session, bytes, failed, Event, enoent, eintr, enodev, ended, session_loop, loop, receive,
  session_exit, session_reset, session_exited,
}
use fuse_nt.Session.Transcript.{messages, ending, plain, serve, outcome, session_loop-serves}

-- the number of messages that were served
abbrev count : List ℕ → Session ℕ → Session ℕ
count b se = record se { data_of = se.data_of + 1 }

abbrev header : ℕ → List ℕ
header zero = []
header (suc n) = 0 ∷ header n

abbrev read_event : List ℕ → Event
read_event b = record { exits = false; result = bytes b }

abbrev error_event : ℕ → Event
error_event e = record { exits = false; result = failed e }

abbrev fresh : Session ℕ
fresh = record { data_of = 0; exited = false }

abbrev events : List Event
events =
    read_event (header 40)
    ∷ (error_event enoent
        ∷ (error_event eintr ∷ (read_event (header 56) ∷ (error_event enodev ∷ []))))

loop_run :
    session_loop (plain count) true events fresh
    ≡ ended true (record { data_of = 2; exited = false })
unfolding session_loop loop receive session_exit session_reset session_exited
loop_run = refl

-- a read that is too short ends the session with -1
short_run :
    session_loop (plain count) true (read_event (header 39) ∷ events) fresh ≡ ended false fresh
unfolding session_loop loop receive session_exit session_reset session_exited
short_run = refl

-- a signal handler that ends the session while the device is read
signal_run :
    session_loop
      (plain count)
      true
      (read_event (header 40) ∷ (record { exits = true; result = failed eintr } ∷ []))
      fresh
    ≡ ended true (record { data_of = 1; exited = false })
unfolding session_loop loop receive session_exit session_reset session_exited
signal_run = refl

session_loop-serves_example :
    session_loop (plain count) true events fresh
    ≡ outcome count (ending events) (serve count (messages events) fresh)
session_loop-serves_example =
    session_loop-serves count events fresh (λ b se e. e) (refl, (refl, (refl, (refl, (refl, tt)))))
      refl
