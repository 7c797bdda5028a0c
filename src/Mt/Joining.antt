-- ===== src/Mt/Joining.antt =====
-- That no thread of fuse-2.8.5/lib/fuse_loop_mt.c changes the list of workers under
-- `fuse_session_loop_mt` while this joins them.
use fuse_nt.Prelude.{ℕ, ◌≡◌, Bool, true, false, Option, some, List, [], ◌∷◌}
use fuse_nt.Mt.{Pc, Worker, Mt, Left}
use fuse_nt.Mt.Schedule.{Main, State}

abbrev pub ids : List Worker → List ℕ
ids [] = []
ids (w ∷ ws) = w.thread_id ∷ ids ws

-- the thread stays in the list, and starts no other
record Keeps (l : Left (Option Pc)) : Type 0 where
  goes_on_at : Pc
  stays_in : l.result ≡ some goes_on_at
  starts_none : l.started ≡ []

-- the first worker of the list has ended, and is taken out
pub record Joins (s t : State) : Type 0 where
  pub worker : Worker
  pub first : s.workers ≡ worker ∷ t.workers
  pub has_ended : worker.pc ≡ Pc.ended

abbrev is_joining : Main → Bool
is_joining Main.joining = true
is_joining _ = false
