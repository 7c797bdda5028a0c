-- ===== src/Mt/Tests.antt =====
-- Runs of the threads of fuse-2.8.5/lib/fuse_loop_mt.c.
use fuse_nt.Prelude.{◌≡◌, refl, true, false, none, [], ◌∷◌}
use fuse_nt.Prelude.Int.{pos}
use fuse_nt.Mt.{Pc, Worker, Mt, start_thread, take_message, end_message}
use fuse_nt.Mt.Schedule.{
  Main, State, Steps, here, later, initial, starts, work, goes_in, stops, cancels, exits,
  dies_receiving, joins, returns, signal, receives, takes,
}
use fuse_nt.Mt.Relist.{Counted}
use fuse_nt.Mt.Invariant.{Steps-Counted}
use fuse_nt.Mt.Readers.{Reads}
use fuse_nt.Mt.Progress.{Steps-Reads}

-- one thread has taken a message, so a second one is started
abbrev busy : Worker
busy = record { thread_id = 0; pc = Pc.processing false; cancelled = false }

abbrev second : Worker
second = record { thread_id = 1; pc = Pc.looping; cancelled = false }

abbrev two_threads : State
two_threads = record {
  main = Main.testing;
  workers = busy ∷ second ∷ [];
  mt = record {
    numworker = pos 2;
    numavail = pos 1;
    exit = false;
    error = pos 0;
    exited = false;
    finish = 0;
    fresh_id = 2;
    mem = [];
  };
}

abbrev first : Pc → Worker
first p = record { thread_id = 0; pc = p; cancelled = false }

to_two_threads : Steps (initial []) two_threads
unfolding start_thread take_message
to_two_threads =
    later
      (later (later (later here (starts refl)) (work [] (first Pc.looping) [] refl (goes_in refl)))
        (work [] (first Pc.receiving) [] refl (receives false)))
      (work [] (first (Pc.received false)) [] refl (takes false))

Steps-Counted_example : Counted two_threads.workers two_threads.mt
Steps-Counted_example = Steps-Counted [] two_threads to_two_threads refl

Steps-Reads_example : Reads two_threads
Steps-Reads_example = Steps-Reads [] two_threads refl to_two_threads refl refl

-- `exit` is set while the only thread reads the device
abbrev joining_mt : Mt
joining_mt = record {
  numworker = pos 1;
  numavail = pos 1;
  exit = true;
  error = pos 0;
  exited = true;
  finish = 0;
  fresh_id = 1;
  mem = [];
}

abbrev cancelled_at : Pc → Worker
cancelled_at p = record { thread_id = 0; pc = p; cancelled = true }

abbrev joining_at : Pc → State
joining_at p = record { main = Main.joining; workers = cancelled_at p ∷ []; mt = joining_mt }

to_reading : Steps (initial []) (record two_threads {
  workers = first Pc.receiving ∷ [];
  mt = record two_threads.mt { numworker = pos 1; fresh_id = 1 };
})
unfolding start_thread
to_reading = later (later here (starts refl)) (work [] (first Pc.looping) [] refl (goes_in refl))

to_joining : Steps (initial []) (joining_at Pc.receiving)
to_joining =
    later (later (later (later to_reading signal) (stops refl refl)) (cancels 0 none refl refl))
      (exits refl)

to_back : Steps (initial []) (record {
  main = Main.returned (pos 0);
  workers = [];
  mt = record joining_mt { exited = false };
})
to_back =
    later
      (later (later to_joining (work [] (cancelled_at Pc.receiving) [] refl (dies_receiving refl)))
        (joins (cancelled_at Pc.ended) [] refl refl refl))
      (returns refl refl)

-- the eleventh free thread takes itself out of the list
abbrev many : Mt
many = record {
  numworker = pos 11;
  numavail = pos 10;
  exit = false;
  error = pos 0;
  exited = false;
  finish = 0;
  fresh_id = 11;
  mem = [];
}

end_message-many : (end_message false many).result ≡ none
unfolding end_message
end_message-many = refl
