-- ===== src/Lib.antt =====
-- The FUSE library of FUSE-NT, as a model with its correctness theorems.
--
-- FUSE-NT is the FUSE 2.8.5 library, ported to Windows (fuse-2.8.5/), and a Windows file system
-- driver that passes requests on to it (ifs/fuse/wxp/). A file system program hands its command
-- line to the option parser, which keeps, rewrites or reads off its options; the library then
-- serves the requests of the kernel, among them those for POSIX record locks.
--
-- Which file is about which code:
-- - Prelude: Boolean tests, lists and integers over the native numbers, and in Prelude/Run the
--   result of a function: it returns with a value, returns an error, aborts, or has run out of
--   fuel, each with the state it leaves.
-- - Locks, Locks/: the record locks of fuse-2.8.5/lib/fuse.c. `locks_insert`, `locks_conflict`,
--   `flock_to_lock` and `lock_to_flock` have the names of their C functions; the jumps of
--   the loop of `locks_insert` are the constructors of `Action`. Locks/Table says what a table
--   means, the type each owner holds on each byte; Locks/Handlers has the requests
--   `fuse_lib_getlk`, `fuse_lib_setlk` and `fuse_flush_common`.
-- - Opt, Opt/: fuse-2.8.5/lib/fuse_opt.c. Opt/Args has `fuse_opt_add_arg` and
--   `fuse_opt_insert_arg`, Opt/Options the option strings, Opt/Match the templates, Opt/Process
--   `process_one` and what it calls, Opt/Parse the loop and `fuse_opt_parse`.
-- - Dir, Dir/: the directory buffer, `fill_dir`, `readdir_fill` and `fuse_lib_readdir` of
--   fuse-2.8.5/lib/fuse.c, with `fuse_add_direntry` of fuse-2.8.5/lib/fuse_lowlevel.c. A file
--   system is a `Program` that calls the filler and goes on with its answer.
-- - Session, Session/: `fuse_session_loop` of fuse-2.8.5/lib/fuse_loop.c, the exited flag of
--   fuse-2.8.5/lib/fuse_session.c and `fuse_kern_chan_receive` of
--   fuse-2.8.5/lib/fuse_kern_chan.c. The reads of the device are a list of events.
-- - Subdir, Subdir/: the stacked file system fuse-2.8.5/lib/modules/subdir.c; each handler has the
--   name of its C function, and `Call` has a constructor for each operation of the table but
--   readlink, init and destroy.
-- - Fs, Fs/: the functions `fuse_fs_getattr` and so on of fuse-2.8.5/lib/fuse.c, through which the
--   library and stacked file systems call the operations of a program.
-- - Nodes, Nodes/: the nodes of fuse-2.8.5/lib/fuse.c with their two hash tables, from
--   `get_node_nocheck` to `find_node` and `rename_node`. A pointer to a node is its `nodeid`, and
--   `nodes` are those that are not freed, so that a read of a freed node aborts. Nodes/Ops has
--   the operations, Nodes/Invariant what holds between them: both tables hold each node just
--   once, and a reference count is the number of children and one for the lookups of the kernel.
-- - LowLevel, LowLevel/: fuse-2.8.5/lib/fuse_lowlevel.c. LowLevel has the requests, named by a
--   `ptr`, with their reference counts and lists; LowLevel/Messages what goes to the kernel and to
--   the file system, LowLevel/Replies the functions `fuse_reply_...` without their prefix,
--   LowLevel/Input the reading of a message's bytes, the lowest first, LowLevel/Calls and
--   LowLevel/Files the handlers `do_lookup` and so on, LowLevel/Init the negotiation of FUSE_INIT,
--   LowLevel/Interrupts the interrupts and LowLevel/Process the table of handlers and
--   `fuse_ll_process`. What is written to the channel is kept in `sent`. A timeout is a pair of
--   seconds and nanoseconds.
-- - Mt, Mt/: the multi-threaded loop of fuse-2.8.5/lib/fuse_loop_mt.c. Mt has `fuse_start_thread`
--   and the critical sections of `fuse_do_work`, Mt/Schedule the interleaved steps of the threads
--   and of `fuse_session_loop_mt`, Mt/Counts to Mt/Invariant the counts of the threads, and
--   Mt/Awake to Mt/Progress which of them come to read the device, Mt/Joining the end.
-- - PathName, PathName/: `add_name` of fuse-2.8.5/lib/fuse.c, which writes a path from its end.
--
-- Fuel: `insert_loop` has one round for each element of the list and two more, for the element a
-- split makes and for the end; the loop of `opt_parse` has one round for each argument and one for
-- the end; the doubling in `extend_contents` and `add_name` has 33 rounds, since it starts at 1 at
-- least and stops at 2^32 - 1; the loop of a session has one round for each event and one for the
-- end; `next_id` has one round for each node and three, for 0, for `FUSE_UNKNOWN_INO` and for the
-- number that is free. Lemmas show that these are enough.
--
-- Parameters: whether each allocation and each `pthread_create` succeeds is a list
-- of Booleans; the processing function of a
-- program, its option structure and `sscanf` are fields of `Host`; the operations of the file
-- system behind a lock request are functions, and so is `lookup_node` for a directory; the handler
-- of a session is a function on its state, and so are the file system below `subdir` and the
-- operations of a program; what `realloc` leaves in new bytes is a function `junk`;
-- `default_statfs` writes a buffer of the caller; the operations of a low-level file system, its
-- interrupt functions, and the channel with the size of its buffer are fields of `Env`.
--
-- Not modelled: the path locks (`forget_node` is run on a node that none holds) and the other
-- requests of fuse.c, the notifications, the options and the constructor of fuse_lowlevel.c with
-- `fuse_req_getgroups` and the rounding of a timeout, the channels of a session, the
-- stack size and the signal mask of a thread, mounting, the lock server, the module iconv,
-- `subdir_readlink` and `subdir_new`, the utilities, the examples, and the driver. Messages on
-- stderr are left out, and so are the mutexes of a `struct fuse`, of a `struct fuse_ll` and of a
-- request: each operation that holds one is one step.
pub mod Prelude
pub mod Dir
pub mod Fs
pub mod Locks
pub mod LowLevel
pub mod Mt
pub mod Nodes
pub mod Opt
pub mod PathName
pub mod Session
pub mod Subdir
