-- ===== src/Session.antt =====
-- A session: `fuse_session_exit`, `fuse_session_reset`, `fuse_session_exited` of
-- fuse-2.8.5/lib/fuse_session.c, `fuse_kern_chan_receive` of fuse-2.8.5/lib/fuse_kern_chan.c and
-- `fuse_session_loop` of fuse-2.8.5/lib/fuse_loop.c.
pub mod Loop
pub mod Transcript
mod Tests
use fuse_nt.Prelude.{
  ℕ, zero, suc, ◌+◌, Bool, true, false, ◌||◌, Option, none, some, List, [], ◌∷◌, ltb, ◌==◌,
  if◌then◌else◌, length,
}

pub record Session (D : Type 0) : Type 0 where
  pub data_of : D
  pub exited : Bool

-- the callbacks of `struct fuse_session_ops`; a handler may change the session
pub record Ops (D : Type 0) : Type 0 where
  pub exit : Option (Bool → D → D)
  pub is_exited : Option (D → Bool)
  pub process : List ℕ → Session D → Session D

-- What one `read` of the device gives: bytes or an error number; `exits` tells whether a signal
-- handler or another thread calls `fuse_session_exit` meanwhile.
pub data Read : Type 0 where
  bytes : List ℕ → Read
  failed : ℕ → Read

pub record Event : Type 0 where
  pub exits : Bool
  pub result : Read

-- what `receive` returns: a number of bytes above 0, 0, or -errno
pub data Result : Type 0 where
  message : List ℕ → Result
  nothing : Result
  error : ℕ → Result

abbrev pub enoent : ℕ
enoent = 2

abbrev pub eintr : ℕ
eintr = 4

abbrev pub eio : ℕ
eio = 5

abbrev pub enodev : ℕ
enodev = 19

-- `sizeof(struct fuse_in_header)`
abbrev pub in_header_size : ℕ
in_header_size = 40

-- `blocked` where the device has nothing more to read
pub data Received (D : Type 0) : Type 0 where
  received : Result → List Event → Session D → Received D
  blocked : Received D

-- how the loop ends: with 0 (`true`) or -1, still waiting, or without fuel
pub data Ended (D : Type 0) : Type 0 where
  ended : Bool → Session D → Ended D
  waiting : Ended D
  no_fuel : Ended D

module _ {D : Type 0} (ops : Ops D) where
  abbrev pub call_exit : Option (Bool → D → D) → Bool → D → D
  call_exit none b d = d
  call_exit (some f) b d = f b d

  unfoldable pub session_exit : Session D → Session D
  session_exit se = record { data_of = call_exit ops.exit true se.data_of; exited = true }

  unfoldable pub session_reset : Session D → Session D
  session_reset se = record { data_of = call_exit ops.exit false se.data_of; exited = false }

  abbrev pub ask : Option (D → Bool) → Session D → Bool
  ask none se = se.exited
  ask (some f) se = f se.data_of

  unfoldable pub session_exited : Session D → Bool
  session_exited se = ask ops.is_exited se

  -- the session when `read` returns
  abbrev pub during : Event → Session D → Session D
  during ev se = if ev.exits then session_exit se else se

  -- an error of `read`; `again` is the run from `restart` on
  abbrev pub on_error : ℕ → Received D → List Event → Session D → Received D
  on_error e again evs se =
      if e == enoent
      then again
      else if e == enodev
      then received nothing evs (session_exit se)
      else received (error e) evs se

  abbrev pub on_bytes : List ℕ → List Event → Session D → Received D
  on_bytes b evs se =
      if ltb (length b) in_header_size
      then received (error eio) evs se
      else received (message b) evs se

  abbrev pub on_read : Read → Received D → List Event → Session D → Received D
  on_read (bytes b) again evs se = on_bytes b evs se
  on_read (failed e) again evs se = on_error e again evs se

  unfoldable pub receive : List Event → Session D → Received D
  receive [] se = blocked
  receive (ev ∷ evs) se =
      let se' = during ev se in
      let again = receive evs se' in
      if session_exited se' then received nothing evs se' else on_read ev.result again evs se'

  -- `return res < 0 ? -1 : 0`
  abbrev pub is_ok : Result → Bool
  is_ok (message b) = true
  is_ok nothing = true
  is_ok (error e) = false

  abbrev pub leave : Result → Session D → Ended D
  leave res se = ended (is_ok res) (session_reset se)

  -- the rest of a round, given the rounds behind it
  abbrev pub after_receive : Received D → (Result → List Event → Session D → Ended D) → Ended D
  after_receive blocked next = waiting
  after_receive (received (message b) evs se) next = next (message b) evs (ops.process b se)
  after_receive (received nothing evs se) next = leave nothing se
  after_receive (received (error e) evs se) next =
      if e == eintr then next (error e) evs se else leave (error e) se

  unfoldable pub loop : ℕ → Result → List Event → Session D → Ended D
  loop zero res evs se = no_fuel
  loop (suc fuel) res evs se =
      let round = after_receive (receive evs se) (loop fuel) in
      if session_exited se then leave res se else round

  -- Each round takes an event, so one round more than there are events is enough. The first argument
  -- tells whether the buffer could be allocated.
  unfoldable pub session_loop : Bool → List Event → Session D → Ended D
  session_loop got evs se = if got then loop (length evs + 1) nothing evs se else ended false se
