-- ===== src/Mt/Schedule.antt =====
-- The threads of fuse-2.8.5/lib/fuse_loop_mt.c, interleaved in any order: the steps of
-- `fuse_do_work` outside its critical sections, `fuse_join_worker`, and `fuse_session_loop_mt`.
-- What `fuse_chan_recv` returns and whether `fuse_session_process` ends the session is open. The
-- code walks the list of workers to cancel them while others may take themselves out of it; from a
-- worker that is freed the walk cannot go on.
use fuse_nt.Prelude.{
  ℕ, ◌+◌, ◌≡◌, Bool, true, false, ◌||◌, Option, none, some, List, [], ◌∷◌, ◌++◌, ◌==◌,
  if◌then◌else◌,
}
use fuse_nt.Prelude.Int.{ℤ, pos, negsuc}
use fuse_nt.Prelude.Memory.{Mem}
use fuse_nt.Mt.{Pc, Worker, Mt, Left, start_thread, take_message, end_message, stays, init}

-- Where `fuse_session_loop_mt` is: before the first thread, at the test before `sem_wait`, in it,
-- at a worker of the walk that cancels them or at the end of it, in the joining, and back with its
-- result.
pub data Main : Type 0 where
  starting : Main
  testing : Main
  waiting : Main
  cancelling : Option ℕ → Main
  joining : Main
  returned : ℤ → Main

pub record State : Type 0 where
  pub main : Main
  pub workers : List Worker
  pub mt : Mt

-- a step of a thread from `pc`: what it leaves, and where it goes on unless it is freed
pub data Move (mt : Mt) (cancelled : Bool) : Pc → Left (Option Pc) → Type 0 where
  goes_in : mt.exited ≡ false → Move mt cancelled Pc.looping (stays Pc.receiving mt)
  goes_out : mt.exited ≡ true → Move mt cancelled Pc.looping (stays Pc.leaving mt)
  interrupted : Move mt cancelled Pc.receiving (stays Pc.looping mt)
  fails :
      Move mt cancelled Pc.receiving
        (stays Pc.leaving (record mt { exited = true; error = negsuc 0 }))
  -- the channel has set `exited` when it returns 0
  closed : Move mt cancelled Pc.receiving (stays Pc.leaving (record mt { exited = true }))
  receives : (forget : Bool) → Move mt cancelled Pc.receiving (stays (Pc.received forget) mt)
  takes : (forget : Bool) → Move mt cancelled (Pc.received forget) (take_message forget mt)
  processes :
      (forget ends : Bool)
      → Move mt cancelled
          (Pc.processing forget)
          (stays (Pc.processed forget) (record mt { exited = mt.exited || ends }))
  ends : (forget : Bool) → Move mt cancelled (Pc.processed forget) (end_message forget mt)
  posts : Move mt cancelled Pc.leaving (stays Pc.paused (record mt { finish = mt.finish + 1 }))
  dies_receiving : cancelled ≡ true → Move mt cancelled Pc.receiving (stays Pc.ended mt)
  dies_paused : cancelled ≡ true → Move mt cancelled Pc.paused (stays Pc.ended mt)

abbrev pub kept : Worker → Option Pc → List Worker → List Worker
kept w none ws = ws
kept w (some p) ws = record w { pc = p } ∷ ws

-- the list after a step of the worker between `us` and `vs`
abbrev pub relist : List Worker → Worker → List Worker → Left (Option Pc) → List Worker
relist us w vs l = us ++ kept w l.result (vs ++ l.started)

abbrev pub first_worker : List Worker → Option ℕ
first_worker [] = none
first_worker (w ∷ ws) = some w.thread_id

-- the worker after `i`, if `i` is in the list
abbrev pub next_worker : ℕ → List Worker → Option (Option ℕ)
next_worker i [] = none
next_worker i (w ∷ ws) = if w.thread_id == i then some (first_worker ws) else next_worker i ws

abbrev pub cancel : ℕ → List Worker → List Worker
cancel i [] = []
cancel i (w ∷ ws) = (if w.thread_id == i then record w { cancelled = true } else w) ∷ cancel i ws

-- the result of the first `fuse_start_thread`; an error goes to the end, which resets the session
abbrev pub first_started : ℤ → Left ℤ → State
first_started (pos n) l = record { main = Main.testing; workers = l.started; mt = l.mt }
first_started (negsuc n) l = record {
  main = Main.returned (negsuc n);
  workers = l.started;
  mt = record l.mt { exited = false };
}

pub data Step (s : State) : State → Type 0 where
  work :
      (us : List Worker) (w : Worker) (vs : List Worker) {l : Left (Option Pc)}
      → s.workers ≡ us ++ (w ∷ vs)
      → Move s.mt w.cancelled w.pc l
      → Step s (record { main = s.main; workers = relist us w vs l; mt = l.mt })
  starts :
      s.main ≡ Main.starting → Step s (first_started (start_thread s.mt).result (start_thread s.mt))
  -- a signal handler or another thread ends the session
  signal : Step s (record s { mt = record s.mt { exited = true } })
  waits : s.main ≡ Main.testing → s.mt.exited ≡ false → Step s (record s { main = Main.waiting })
  stops :
      s.main ≡ Main.testing
      → s.mt.exited ≡ true
      → Step s (record s { main = Main.cancelling (first_worker s.workers) })
  -- `sem_wait` takes one, or a signal interrupts it
  wakes :
      (n : ℕ)
      → s.main ≡ Main.waiting
      → s.mt.finish ≡ n + 1
      → Step s (record s { main = Main.testing; mt = record s.mt { finish = n } })
  interrupts : s.main ≡ Main.waiting → Step s (record s { main = Main.testing })
  cancels :
      (i : ℕ) (next : Option ℕ)
      → s.main ≡ Main.cancelling (some i)
      → next_worker i s.workers ≡ some next
      → Step s (record s { main = Main.cancelling next; workers = cancel i s.workers })
  exits :
      s.main ≡ Main.cancelling none
      → Step s (record s { main = Main.joining; mt = record s.mt { exit = true } })
  joins :
      (w : Worker) (ws : List Worker)
      → s.main ≡ Main.joining
      → s.workers ≡ w ∷ ws
      → w.pc ≡ Pc.ended
      → Step s (record s { workers = ws })
  returns :
      s.main ≡ Main.joining
      → s.workers ≡ []
      → Step s (record s { main = Main.returned s.mt.error; mt = record s.mt { exited = false } })

pub data Steps (s : State) : State → Type 0 where
  here : Steps s s
  later : {t u : State} → Steps s t → Step t u → Steps s u

abbrev pub initial : Mem → State
initial mem = record { main = Main.starting; workers = []; mt = init mem }
