-- ===== src/LowLevel/Files.antt =====
-- The handlers `do_open` to `do_poll` of fuse-2.8.5/lib/fuse_lowlevel.c but `do_interrupt`, mostly
-- for open files: each reads its arguments and calls an operation.
use fuse_nt.Prelude.{ℕ, Bool, true, false, ltb, if◌then◌else◌, drop, take}
use fuse_nt.Prelude.Int.{pos}
use fuse_nt.Prelude.Run.{Cmd}
use fuse_nt.Prelude.Memory.{Str}
use fuse_nt.LowLevel.{Ll, Env, discard, reply_err}
use fuse_nt.LowLevel.Messages.{OpName, Call}
use fuse_nt.LowLevel.Replies.{reply_open, reply_statfs}
use fuse_nt.LowLevel.Input.{
  u32_at, u64_at, has_bit, c_string, behind_string, fi_of, file_lock_at, convert_file_lock,
}
use fuse_nt.LowLevel.Args.{
  default_vfs, open_fi, read_fi, write_fi, flush_fi, release_fi, releasedir_fi, lk_fi, in_buf,
  call_or, no_op, by_minor, poll_with,
}

module _ {D : Type 0} (env : Env D) where
  unfoldable pub do_open : ℕ → ℕ → Str → Cmd (Ll D)
  unfolding reply_open
  do_open p nodeid inarg =
      call_or env OpName.op_open (Call.open_file nodeid (open_fi inarg)) p
        (discard (reply_open env p (open_fi inarg)))

  unfoldable pub do_read : ℕ → ℕ → Str → Cmd (Ll D)
  unfolding reply_err
  do_read p nodeid inarg = by_minor env λ minor.
      call_or env OpName.op_read
        (Call.read nodeid (u32_at 16 inarg) (u64_at 8 inarg) (read_fi minor inarg)) p (no_op env p)

  unfoldable pub do_write : ℕ → ℕ → Str → Cmd (Ll D)
  unfolding reply_err
  do_write p nodeid inarg = by_minor env λ minor.
      let param = drop (if ltb minor 9 then 24 else 40) inarg in
      call_or env OpName.op_write
        (Call.write nodeid (take (u32_at 16 inarg) param) (u32_at 16 inarg) (u64_at 8 inarg)
          (write_fi minor inarg))
        p (no_op env p)

  unfoldable pub do_flush : ℕ → ℕ → Str → Cmd (Ll D)
  unfolding reply_err
  do_flush p nodeid inarg = by_minor env λ minor.
      call_or env OpName.op_flush (Call.flush nodeid (flush_fi minor inarg)) p (no_op env p)

  unfoldable pub do_release : ℕ → ℕ → Str → Cmd (Ll D)
  unfolding reply_err
  do_release p nodeid inarg = by_minor env λ minor.
      call_or env OpName.op_release (Call.release nodeid (release_fi minor inarg)) p
        (discard (reply_err env p (pos 0)))

  unfoldable pub do_fsync : ℕ → ℕ → Str → Cmd (Ll D)
  unfolding reply_err
  do_fsync p nodeid inarg =
      call_or env OpName.op_fsync
        (Call.fsync nodeid (has_bit 0 (u32_at 8 inarg)) (fi_of (u64_at 0 inarg))) p (no_op env p)

  unfoldable pub do_opendir : ℕ → ℕ → Str → Cmd (Ll D)
  unfolding reply_open
  do_opendir p nodeid inarg =
      call_or env OpName.op_opendir (Call.opendir nodeid (open_fi inarg)) p
        (discard (reply_open env p (open_fi inarg)))

  unfoldable pub do_readdir : ℕ → ℕ → Str → Cmd (Ll D)
  unfolding reply_err
  do_readdir p nodeid inarg =
      call_or env OpName.op_readdir
        (Call.readdir nodeid (u32_at 16 inarg) (u64_at 8 inarg) (fi_of (u64_at 0 inarg))) p
        (no_op env p)

  unfoldable pub do_releasedir : ℕ → ℕ → Str → Cmd (Ll D)
  unfolding reply_err
  do_releasedir p nodeid inarg =
      call_or env OpName.op_releasedir (Call.releasedir nodeid (releasedir_fi inarg)) p
        (discard (reply_err env p (pos 0)))

  unfoldable pub do_fsyncdir : ℕ → ℕ → Str → Cmd (Ll D)
  unfolding reply_err
  do_fsyncdir p nodeid inarg =
      call_or env OpName.op_fsyncdir
        (Call.fsyncdir nodeid (has_bit 0 (u32_at 8 inarg)) (fi_of (u64_at 0 inarg))) p (no_op env p)

  unfoldable pub do_statfs : ℕ → ℕ → Str → Cmd (Ll D)
  unfolding reply_statfs
  do_statfs p nodeid inarg =
      call_or env OpName.op_statfs (Call.statfs nodeid) p (discard (reply_statfs env p default_vfs))

  unfoldable pub do_setxattr : ℕ → ℕ → Str → Cmd (Ll D)
  unfolding reply_err
  do_setxattr p nodeid inarg =
      let name = drop 8 inarg in
      call_or env OpName.op_setxattr
        (Call.setxattr nodeid (c_string name) (take (u32_at 0 inarg) (behind_string name))
          (u32_at 0 inarg) (u32_at 4 inarg))
        p (no_op env p)

  unfoldable pub do_getxattr : ℕ → ℕ → Str → Cmd (Ll D)
  unfolding reply_err
  do_getxattr p nodeid inarg =
      call_or env OpName.op_getxattr
        (Call.getxattr nodeid (c_string (drop 8 inarg)) (u32_at 0 inarg)) p (no_op env p)

  unfoldable pub do_listxattr : ℕ → ℕ → Str → Cmd (Ll D)
  unfolding reply_err
  do_listxattr p nodeid inarg =
      call_or env OpName.op_listxattr (Call.listxattr nodeid (u32_at 0 inarg)) p (no_op env p)

  unfoldable pub do_removexattr : ℕ → ℕ → Str → Cmd (Ll D)
  unfolding reply_err
  do_removexattr p nodeid inarg =
      call_or env OpName.op_removexattr (Call.removexattr nodeid (c_string inarg)) p (no_op env p)

  unfoldable pub do_getlk : ℕ → ℕ → Str → Cmd (Ll D)
  unfolding reply_err convert_file_lock
  do_getlk p nodeid inarg =
      call_or env OpName.op_getlk
        (Call.getlk nodeid (lk_fi inarg) (convert_file_lock (file_lock_at 16 inarg))) p
        (no_op env p)

  unfoldable pub do_setlk_common : ℕ → ℕ → Str → Bool → Cmd (Ll D)
  unfolding reply_err convert_file_lock
  do_setlk_common p nodeid inarg sleep =
      call_or env OpName.op_setlk
        (Call.setlk nodeid (lk_fi inarg) (convert_file_lock (file_lock_at 16 inarg)) sleep) p
        (no_op env p)

  unfoldable pub do_bmap : ℕ → ℕ → Str → Cmd (Ll D)
  unfolding reply_err
  do_bmap p nodeid inarg =
      call_or env OpName.op_bmap (Call.bmap nodeid (u32_at 8 inarg) (u64_at 0 inarg)) p
        (no_op env p)

  unfoldable pub do_ioctl : ℕ → ℕ → Str → Cmd (Ll D)
  unfolding reply_err
  do_ioctl p nodeid inarg =
      call_or env OpName.op_ioctl
        (Call.ioctl nodeid (u32_at 12 inarg) (u64_at 16 inarg) (fi_of (u64_at 0 inarg))
          (u32_at 8 inarg) (in_buf inarg) (u32_at 24 inarg) (u32_at 28 inarg))
        p (no_op env p)

  unfoldable pub do_poll : ℕ → ℕ → Str → Cmd (Ll D)
  unfolding reply_err
  do_poll p nodeid inarg = poll_with env (env.op OpName.op_poll) p nodeid inarg

  unfoldable pub do_setlk : ℕ → ℕ → Str → Cmd (Ll D)
  unfolding do_setlk_common
  do_setlk p nodeid inarg = do_setlk_common p nodeid inarg false

  unfoldable pub do_setlkw : ℕ → ℕ → Str → Cmd (Ll D)
  unfolding do_setlk_common
  do_setlkw p nodeid inarg = do_setlk_common p nodeid inarg true
