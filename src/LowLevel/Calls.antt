-- ===== src/LowLevel/Calls.antt =====
-- The handlers `do_lookup` to `do_create` of fuse-2.8.5/lib/fuse_lowlevel.c, for the nodes of a
-- file system: each reads its arguments and calls an operation.
use fuse_nt.Prelude.{ℕ, ltb, if◌then◌else◌, drop}
use fuse_nt.Prelude.Run.{Cmd, ◌>>◌}
use fuse_nt.Prelude.Memory.{Str}
use fuse_nt.LowLevel.{Ll, Env, reply_err, reply_none}
use fuse_nt.LowLevel.Messages.{OpName, Call}
use fuse_nt.LowLevel.Input.{u32_at, u64_at, c_string, behind_string, convert_attr, valid_bits}
use fuse_nt.LowLevel.Args.{
  getattr_fi, setattr_fi, open_fi, call_or, no_op, by_minor, set_umask, run_create,
}

module _ {D : Type 0} (env : Env D) where
  unfoldable pub do_lookup : ℕ → ℕ → Str → Cmd (Ll D)
  unfolding reply_err
  do_lookup p nodeid inarg =
      call_or env OpName.op_lookup (Call.lookup nodeid (c_string inarg)) p (no_op env p)

  unfoldable pub do_forget : ℕ → ℕ → Str → Cmd (Ll D)
  unfolding reply_none
  do_forget p nodeid inarg =
      call_or env OpName.op_forget (Call.forget nodeid (u64_at 0 inarg)) p (reply_none env p)

  unfoldable pub do_getattr : ℕ → ℕ → Str → Cmd (Ll D)
  unfolding reply_err
  do_getattr p nodeid inarg = by_minor env λ minor.
      call_or env OpName.op_getattr (Call.getattr nodeid (getattr_fi minor inarg)) p (no_op env p)

  unfoldable pub do_setattr : ℕ → ℕ → Str → Cmd (Ll D)
  unfolding reply_err convert_attr
  do_setattr p nodeid inarg =
      call_or env OpName.op_setattr
        (Call.setattr nodeid (convert_attr inarg) (valid_bits (u32_at 0 inarg)) (setattr_fi inarg))
        p (no_op env p)

  unfoldable pub do_access : ℕ → ℕ → Str → Cmd (Ll D)
  unfolding reply_err
  do_access p nodeid inarg =
      call_or env OpName.op_access (Call.access nodeid (u32_at 0 inarg)) p (no_op env p)

  unfoldable pub do_readlink : ℕ → ℕ → Str → Cmd (Ll D)
  unfolding reply_err
  do_readlink p nodeid inarg = call_or env OpName.op_readlink (Call.readlink nodeid) p (no_op env p)

  unfoldable pub do_mknod : ℕ → ℕ → Str → Cmd (Ll D)
  unfolding reply_err
  do_mknod p nodeid inarg = by_minor env λ minor.
      if ltb minor 12
      then call_or env OpName.op_mknod
          (Call.mknod nodeid (c_string (drop 8 inarg)) (u32_at 0 inarg) (u32_at 4 inarg)) p
          (no_op env p)
      else set_umask env p (u32_at 8 inarg)
        >> call_or env OpName.op_mknod
            (Call.mknod nodeid (c_string (drop 16 inarg)) (u32_at 0 inarg) (u32_at 4 inarg)) p
            (no_op env p)

  unfoldable pub do_mkdir : ℕ → ℕ → Str → Cmd (Ll D)
  unfolding reply_err
  do_mkdir p nodeid inarg = by_minor env λ minor.
      let mk =
        call_or env OpName.op_mkdir (Call.mkdir nodeid (c_string (drop 8 inarg)) (u32_at 0 inarg)) p
          (no_op env p) in
      if ltb minor 12 then mk else set_umask env p (u32_at 4 inarg) >> mk

  unfoldable pub do_unlink : ℕ → ℕ → Str → Cmd (Ll D)
  unfolding reply_err
  do_unlink p nodeid inarg =
      call_or env OpName.op_unlink (Call.unlink nodeid (c_string inarg)) p (no_op env p)

  unfoldable pub do_rmdir : ℕ → ℕ → Str → Cmd (Ll D)
  unfolding reply_err
  do_rmdir p nodeid inarg =
      call_or env OpName.op_rmdir (Call.rmdir nodeid (c_string inarg)) p (no_op env p)

  unfoldable pub do_symlink : ℕ → ℕ → Str → Cmd (Ll D)
  unfolding reply_err
  do_symlink p nodeid inarg =
      call_or env OpName.op_symlink
        (Call.symlink (c_string (behind_string inarg)) nodeid (c_string inarg)) p (no_op env p)

  unfoldable pub do_rename : ℕ → ℕ → Str → Cmd (Ll D)
  unfolding reply_err
  do_rename p nodeid inarg =
      let names = drop 8 inarg in
      call_or env OpName.op_rename
        (Call.rename nodeid (c_string names) (u64_at 0 inarg) (c_string (behind_string names))) p
        (no_op env p)

  unfoldable pub do_link : ℕ → ℕ → Str → Cmd (Ll D)
  unfolding reply_err
  do_link p nodeid inarg =
      call_or env OpName.op_link (Call.link (u64_at 0 inarg) nodeid (c_string (drop 8 inarg))) p
        (no_op env p)

  unfoldable pub do_create : ℕ → ℕ → Str → Cmd (Ll D)
  unfolding reply_err
  do_create p nodeid inarg = by_minor env λ minor.
      if ltb minor 12
      then call_or env OpName.op_create
          (Call.create nodeid (c_string (drop 8 inarg)) (u32_at 4 inarg) (open_fi inarg)) p
          (no_op env p)
      else run_create env (env.op OpName.op_create) p nodeid inarg
