-- ===== src/LowLevel/Process.antt =====
-- A message of the kernel: the table `fuse_ll_ops` and `fuse_ll_process` of
-- fuse-2.8.5/lib/fuse_lowlevel.c.
use fuse_nt.Prelude.{
  ℕ, ◌+◌, Bool, true, false, ◌&&◌, ◌||◌, not, Option, none, some, [], ◌∷◌, ◌++◌, ◌==◌,
  if◌then◌else◌,
}
use fuse_nt.Prelude.Int.{ℤ, pos}
use fuse_nt.Prelude.Run.{ok, Cmd, ◌>>◌, ◌>>=◌, skip}
use fuse_nt.Prelude.Memory.{Str, next_alloc}
use fuse_nt.LowLevel.{Ll, Env, Req, discard, reply_err}
use fuse_nt.LowLevel.Args.{enosys_code}
use fuse_nt.LowLevel.Calls.{
  do_lookup, do_forget, do_getattr, do_setattr, do_access, do_readlink, do_mknod, do_mkdir,
  do_unlink, do_rmdir, do_symlink, do_rename, do_link, do_create,
}
use fuse_nt.LowLevel.Files.{
  do_open, do_read, do_write, do_flush, do_release, do_fsync, do_opendir, do_readdir, do_releasedir,
  do_fsyncdir, do_statfs, do_setxattr, do_getxattr, do_listxattr, do_removexattr, do_getlk,
  do_setlk, do_setlkw, do_bmap, do_ioctl, do_poll,
}
use fuse_nt.LowLevel.Init.{do_init, do_destroy}
use fuse_nt.LowLevel.Interrupts.{do_interrupt, check_interrupt}

-- `struct fuse_in_header`
pub record InHeader : Type 0 where
  pub opcode : ℕ
  pub in_unique : ℕ
  pub nodeid : ℕ
  pub in_uid : ℕ
  pub in_gid : ℕ
  pub in_pid : ℕ

abbrev pub init_opcode : ℕ
init_opcode = 26

abbrev pub interrupt_opcode : ℕ
interrupt_opcode = 36

abbrev pub cuse_init_opcode : ℕ
cuse_init_opcode = 4096

abbrev pub new_req : ℕ → InHeader → Req
new_req p h = record {
  ptr = p;
  unique = h.in_unique;
  ctr = pos 1;
  uid = h.in_uid;
  gid = h.in_gid;
  pid = h.in_pid;
  umask = 0;
  interrupted = false;
  intr_unique = 0;
  intr_func = none;
}

-- FUSE_INIT, READ, WRITE, FSYNC, RELEASE, READDIR, FSYNCDIR and RELEASEDIR
abbrev pub for_all_users : ℕ → Bool
for_all_users n =
    n == 26 || n == 15 || n == 16 || n == 20 || n == 18 || n == 28 || n == 30 || n == 29

abbrev pub eio_code : ℤ
eio_code = pos 5

abbrev pub eacces_code : ℤ
eacces_code = pos 13

abbrev pub eagain_code : ℤ
eagain_code = pos 11

module _ {D : Type 0} (env : Env D) where
  -- the table by opcode; `none` past its end and at its gaps
  unfoldable pub ll_op : ℕ → Option (ℕ → ℕ → Str → Cmd (Ll D))
  ll_op n =
      if n == 1
      then some (do_lookup env)
      else if n == 2
      then some (do_forget env)
      else if n == 3
      then some (do_getattr env)
      else if n == 4
      then some (do_setattr env)
      else if n == 5
      then some (do_readlink env)
      else if n == 6
      then some (do_symlink env)
      else if n == 8
      then some (do_mknod env)
      else if n == 9
      then some (do_mkdir env)
      else if n == 10
      then some (do_unlink env)
      else if n == 11
      then some (do_rmdir env)
      else if n == 12
      then some (do_rename env)
      else if n == 13
      then some (do_link env)
      else if n == 14
      then some (do_open env)
      else if n == 15
      then some (do_read env)
      else if n == 16
      then some (do_write env)
      else if n == 17
      then some (do_statfs env)
      else if n == 18
      then some (do_release env)
      else if n == 20
      then some (do_fsync env)
      else if n == 21
      then some (do_setxattr env)
      else if n == 22
      then some (do_getxattr env)
      else if n == 23
      then some (do_listxattr env)
      else if n == 24
      then some (do_removexattr env)
      else if n == 25
      then some (do_flush env)
      else if n == 26
      then some (do_init env)
      else if n == 27
      then some (do_opendir env)
      else if n == 28
      then some (do_readdir env)
      else if n == 29
      then some (do_releasedir env)
      else if n == 30
      then some (do_fsyncdir env)
      else if n == 31
      then some (do_getlk env)
      else if n == 32
      then some (do_setlk env)
      else if n == 33
      then some (do_setlkw env)
      else if n == 34
      then some (do_access env)
      else if n == 35
      then some (do_create env)
      else if n == 36
      then some (do_interrupt env)
      else if n == 37
      then some (do_bmap env)
      else if n == 38
      then some (do_destroy env)
      else if n == 39
      then some (do_ioctl env)
      else if n == 40
      then some (do_poll env)
      else if n == 4096
      then some (λ p nodeid inarg. env.cuse_init p)
      else none

  abbrev pub unexpected : Ll D → ℕ → Bool
  unexpected f opcode =
      if f.got_init
      then opcode == init_opcode || opcode == cuse_init_opcode
      else not (opcode == (if f.is_cuse then cuse_init_opcode else init_opcode))

  abbrev pub forbidden : Ll D → InHeader → Bool
  forbidden f h =
      f.allow_root
      && not (h.in_uid == f.owner)
      && not (h.in_uid == 0)
      && not (for_all_users h.opcode)

  abbrev pub send_back : Option ℕ → Cmd (Ll D)
  send_back none f = skip f
  send_back (some q) f = discard (reply_err env q eagain_code) f

  abbrev pub join_list : ℕ → Cmd (Ll D)
  join_list p f = ok tt (record f { list = f.list ++ (p ∷ []) })

  abbrev pub enlist : ℕ → Cmd (Ll D)
  enlist p = check_interrupt p >>= λ intr. join_list p >> send_back intr

  abbrev pub run_handler : Option (ℕ → ℕ → Str → Cmd (Ll D)) → ℕ → InHeader → Str → Cmd (Ll D)
  run_handler none p h inarg = discard (reply_err env p enosys_code)
  run_handler (some func) p h inarg =
      if h.opcode == interrupt_opcode
      then func p h.nodeid inarg
      else enlist p >> func p h.nodeid inarg

  -- the checks of a request that is allocated
  abbrev pub handle : ℕ → InHeader → Str → Cmd (Ll D)
  handle p h inarg f =
      if unexpected f h.opcode
      then discard (reply_err env p eio_code) f
      else if forbidden f h
      then discard (reply_err env p eacces_code) f
      else run_handler (ll_op h.opcode) p h inarg f

  abbrev pub with_new_req : Bool → InHeader → Str → Cmd (Ll D)
  with_new_req false h inarg f = ok tt f
  with_new_req true h inarg f =
      let p = f.fresh_ptr in
      handle p h inarg (record f { reqs = new_req p h ∷ f.reqs; fresh_ptr = p + 1 })

  -- Without memory for the request nothing is done.
  unfoldable pub ll_process : InHeader → Str → Cmd (Ll D)
  ll_process h inarg f =
      let (got, mem') = next_alloc f.mem in with_new_req got h inarg (record f { mem = mem' })
