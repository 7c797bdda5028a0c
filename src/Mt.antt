-- ===== src/Mt.antt =====
-- The multi-threaded loop of fuse-2.8.5/lib/fuse_loop_mt.c: `struct fuse_worker`, `struct fuse_mt`,
-- `fuse_start_thread` and the two critical sections of `fuse_do_work`, each of which holds the
-- lock and so is one function. The linked list of workers is a list beside `Mt`, its head the
-- `main.next` of the code; `exited` is the flag of the session and `finish` the count of the
-- semaphore. `mem` has a Boolean for each `malloc` and each `pthread_create`.
pub mod Schedule
pub mod Counts
pub mod Fits
pub mod Moves
pub mod Relist
pub mod Invariant
pub mod Awake
pub mod Readers
pub mod Progress
pub mod Joining
mod Tests
use fuse_nt.Prelude.{
  ℕ, ◌+◌, Bool, true, false, not, Option, none, some, List, [], ◌∷◌, ltb, if◌then◌else◌,
}
use fuse_nt.Prelude.Int.{ℤ, pos, negsuc, ◌==ℤ◌, pred_int, succ_int}
use fuse_nt.Prelude.Memory.{Mem, next_alloc}

-- Where a thread is in `fuse_do_work`: at the test of the loop, in `fuse_chan_recv`, before the
-- first critical section, in `fuse_session_process`, before the second one, after the loop, in
-- `pause`, and at its end. The Boolean is `isforget`.
pub data Pc : Type 0 where
  looping : Pc
  receiving : Pc
  received : Bool → Pc
  processing : Bool → Pc
  processed : Bool → Pc
  leaving : Pc
  paused : Pc
  ended : Pc

-- `cancelled`: a `pthread_cancel` waits for the thread
pub record Worker : Type 0 where
  pub thread_id : ℕ
  pub pc : Pc
  pub cancelled : Bool

pub record Mt : Type 0 where
  pub numworker : ℤ
  pub numavail : ℤ
  pub exit : Bool
  pub error : ℤ
  pub exited : Bool
  pub finish : ℕ
  pub fresh_id : ℕ
  pub mem : Mem

-- what a function with the lock leaves: its result, the shared state, and the threads it started,
-- which stand at the end of the list
pub record Left (A : Type 0) : Type 0 where
  pub result : A
  pub mt : Mt
  pub started : List Worker

abbrev pub new_worker : ℕ → Worker
new_worker i = record { thread_id = i; pc = Pc.looping; cancelled = false }

abbrev pub with_mem : Mt → Mem → Mt
with_mem mt mem = record mt { mem = mem }

abbrev pub not_started : Mt → Left ℤ
not_started mt = record { result = negsuc 0; mt = mt; started = [] }

-- `list_add_worker` and the counts
abbrev pub add_worker : Mt → Left ℤ
add_worker mt = record {
  result = pos 0;
  mt = record mt {
    numavail = succ_int mt.numavail;
    numworker = succ_int mt.numworker;
    fresh_id = mt.fresh_id + 1;
  };
  started = new_worker mt.fresh_id ∷ [];
}

-- `pthread_create`
abbrev pub create_thread : Mt → Bool × Mem → Left ℤ
create_thread mt (true, mem) = add_worker (with_mem mt mem)
create_thread mt (false, mem) = not_started (with_mem mt mem)

abbrev pub alloc_buf : Mt → Bool × Mem → Left ℤ
alloc_buf mt (true, mem) = create_thread mt (next_alloc mem)
alloc_buf mt (false, mem) = not_started (with_mem mt mem)

abbrev pub alloc_worker : Mt → Bool × Mem → Left ℤ
alloc_worker mt (true, mem) = alloc_buf mt (next_alloc mem)
alloc_worker mt (false, mem) = not_started (with_mem mt mem)

unfoldable pub start_thread : Mt → Left ℤ
start_thread mt = alloc_worker mt (next_alloc mt.mem)

-- the thread goes on at `p`
abbrev pub goes_on : {A : Type 0} → Pc → Left A → Left (Option Pc)
goes_on p l = record { result = some p; mt = l.mt; started = l.started }

abbrev pub stays : Pc → Mt → Left (Option Pc)
stays p mt = record { result = some p; mt = mt; started = [] }

-- the thread is not in the list any more
abbrev pub freed : Mt → Left (Option Pc)
freed mt = record { result = none; mt = mt; started = [] }

-- `numavail == 0`
unfoldable pub start_if_none : Bool → Mt → Left (Option Pc)
unfolding start_thread
start_if_none forget mt =
    if mt.numavail ==ℤ pos 0
    then goes_on (Pc.processing forget) (start_thread mt)
    else stays (Pc.processing forget) mt

-- the first critical section
unfoldable pub take_message : Bool → Mt → Left (Option Pc)
unfolding start_if_none
take_message forget mt =
    if mt.exit
    then stays Pc.ended mt
    else start_if_none forget (if forget then mt else record mt { numavail = pred_int mt.numavail })

-- `mt->numavail > 10`
abbrev pub too_many : ℤ → Bool
too_many (pos n) = ltb 10 n
too_many (negsuc n) = false

abbrev pub del_worker : Mt → Left (Option Pc)
del_worker mt =
    freed (record mt { numavail = pred_int mt.numavail; numworker = pred_int mt.numworker })

unfoldable pub leave_if_many : Mt → Left (Option Pc)
leave_if_many mt =
    if too_many mt.numavail
    then (if mt.exit then stays Pc.ended mt else del_worker mt)
    else stays Pc.looping mt

-- the second critical section
unfoldable pub end_message : Bool → Mt → Left (Option Pc)
unfolding leave_if_many
end_message forget mt =
    leave_if_many (if forget then mt else record mt { numavail = succ_int mt.numavail })

-- the locals of `fuse_session_loop_mt` at its start
abbrev pub init : Mem → Mt
init mem = record {
  numworker = pos 0;
  numavail = pos 0;
  exit = false;
  error = pos 0;
  exited = false;
  finish = 0;
  fresh_id = 0;
  mem = mem;
}
