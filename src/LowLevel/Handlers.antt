-- ===== src/LowLevel/Handlers.antt =====
-- Each handler of fuse-2.8.5/lib/fuse_lowlevel.c answers its request once, if the operations do.
use fuse_nt.Prelude.{
  ℕ, refl, Bool, true, false, none, some, ltb, if◌then◌else◌, Bool-cases, Option-cases, inl, inr,
  drop, take,
}
use fuse_nt.Prelude.Int.{pos}
use fuse_nt.Prelude.Memory.{Str, next_alloc}
use fuse_nt.LowLevel.{Env, discard, reply_none}
use fuse_nt.LowLevel.Replies.{reply_open, reply_statfs}
use fuse_nt.LowLevel.Messages.{OpName, Call}
use fuse_nt.LowLevel.Input.{
  u32_at, u64_at, has_bit, c_string, behind_string, fi_of, convert_attr, valid_bits, file_lock_at,
  convert_file_lock,
}
use fuse_nt.LowLevel.Args.{
  enosys_code, enomem_int, default_vfs, getattr_fi, setattr_fi, open_fi, read_fi, write_fi,
  flush_fi, release_fi, releasedir_fi, lk_fi, in_buf, call_or, no_op,
}
use fuse_nt.LowLevel.Calls.{
  do_lookup, do_forget, do_getattr, do_setattr, do_access, do_readlink, do_mknod, do_mkdir,
  do_unlink, do_rmdir, do_symlink, do_rename, do_link, do_create,
}
use fuse_nt.LowLevel.Files.{
  do_open, do_read, do_write, do_flush, do_release, do_fsync, do_opendir, do_readdir, do_releasedir,
  do_fsyncdir, do_statfs, do_setxattr, do_getxattr, do_listxattr, do_removexattr, do_getlk,
  do_setlk_common, do_bmap, do_ioctl, do_poll, do_setlk, do_setlkw,
}
use fuse_nt.LowLevel.Answered.{IsOpen, Reply, run_reply}
use fuse_nt.LowLevel.Done.{
  Finishes, Answering, reply-Finishes, reply_none-Finishes, call_or-Finishes, call-Finishes,
  umask-Finishes, changed-Done,
}

module _ {D : Type 0} (env : Env D) (ans : Answering env) (nodeid : ℕ) (inarg : Str) where
  pub do_lookup-Finishes : Finishes false (λ p. do_lookup env p nodeid inarg)
  unfolding do_lookup
  do_lookup-Finishes p r f o =
      call-Finishes env ans OpName.op_lookup (Call.lookup nodeid (c_string inarg)) p r f o

  pub do_forget-Finishes : Finishes true (λ p. do_forget env p nodeid inarg)
  unfolding do_forget
  do_forget-Finishes p r f o =
      call_or-Finishes env ans OpName.op_forget (Call.forget nodeid (u64_at 0 inarg))
        (reply_none env) (reply_none-Finishes env) p r f o

  pub do_getattr-Finishes : Finishes false (λ p. do_getattr env p nodeid inarg)
  unfolding do_getattr
  do_getattr-Finishes p r f o =
      call-Finishes env ans OpName.op_getattr
        (Call.getattr nodeid (getattr_fi f.conn.proto_minor inarg)) p r f o

  pub do_setattr-Finishes : Finishes false (λ p. do_setattr env p nodeid inarg)
  unfolding do_setattr convert_attr
  do_setattr-Finishes p r f o =
      call-Finishes env ans OpName.op_setattr
        (Call.setattr nodeid (convert_attr inarg) (valid_bits (u32_at 0 inarg)) (setattr_fi inarg))
        p r f o

  pub do_access-Finishes : Finishes false (λ p. do_access env p nodeid inarg)
  unfolding do_access
  do_access-Finishes p r f o =
      call-Finishes env ans OpName.op_access (Call.access nodeid (u32_at 0 inarg)) p r f o

  pub do_readlink-Finishes : Finishes false (λ p. do_readlink env p nodeid inarg)
  unfolding do_readlink
  do_readlink-Finishes p r f o =
      call-Finishes env ans OpName.op_readlink (Call.readlink nodeid) p r f o

  pub do_unlink-Finishes : Finishes false (λ p. do_unlink env p nodeid inarg)
  unfolding do_unlink
  do_unlink-Finishes p r f o =
      call-Finishes env ans OpName.op_unlink (Call.unlink nodeid (c_string inarg)) p r f o

  pub do_rmdir-Finishes : Finishes false (λ p. do_rmdir env p nodeid inarg)
  unfolding do_rmdir
  do_rmdir-Finishes p r f o =
      call-Finishes env ans OpName.op_rmdir (Call.rmdir nodeid (c_string inarg)) p r f o

  pub do_symlink-Finishes : Finishes false (λ p. do_symlink env p nodeid inarg)
  unfolding do_symlink
  do_symlink-Finishes p r f o =
      call-Finishes env ans OpName.op_symlink
        (Call.symlink (c_string (behind_string inarg)) nodeid (c_string inarg)) p r f o

  pub do_rename-Finishes : Finishes false (λ p. do_rename env p nodeid inarg)
  unfolding do_rename
  do_rename-Finishes p r f o =
      let names = drop 8 inarg in
      call-Finishes env ans OpName.op_rename
        (Call.rename nodeid (c_string names) (u64_at 0 inarg) (c_string (behind_string names))) p r
        f o

  pub do_link-Finishes : Finishes false (λ p. do_link env p nodeid inarg)
  unfolding do_link
  do_link-Finishes p r f o =
      call-Finishes env ans OpName.op_link
        (Call.link (u64_at 0 inarg) nodeid (c_string (drop 8 inarg))) p r f o

  pub do_open-Finishes : Finishes false (λ p. do_open env p nodeid inarg)
  unfolding do_open reply_open
  do_open-Finishes p r f o =
      call_or-Finishes env ans OpName.op_open (Call.open_file nodeid (open_fi inarg))
        (λ p. discard (run_reply env p (Reply.open_reply (open_fi inarg))))
        (reply-Finishes env (Reply.open_reply (open_fi inarg))) p r f o

  pub do_read-Finishes : Finishes false (λ p. do_read env p nodeid inarg)
  unfolding do_read
  do_read-Finishes p r f o =
      call-Finishes env ans OpName.op_read
        (Call.read nodeid (u32_at 16 inarg) (u64_at 8 inarg) (read_fi f.conn.proto_minor inarg)) p r
        f o

  pub do_write-Finishes : Finishes false (λ p. do_write env p nodeid inarg)
  unfolding do_write
  do_write-Finishes p r f o =
      let param = drop (if ltb f.conn.proto_minor 9 then 24 else 40) inarg in
      call-Finishes env ans OpName.op_write
        (Call.write nodeid (take (u32_at 16 inarg) param) (u32_at 16 inarg) (u64_at 8 inarg)
          (write_fi f.conn.proto_minor inarg))
        p r f o

  pub do_flush-Finishes : Finishes false (λ p. do_flush env p nodeid inarg)
  unfolding do_flush
  do_flush-Finishes p r f o =
      call-Finishes env ans OpName.op_flush (Call.flush nodeid (flush_fi f.conn.proto_minor inarg))
        p r f o

  pub do_release-Finishes : Finishes false (λ p. do_release env p nodeid inarg)
  unfolding do_release
  do_release-Finishes p r f o =
      call_or-Finishes env ans OpName.op_release
        (Call.release nodeid (release_fi f.conn.proto_minor inarg))
        (λ p. discard (run_reply env p (Reply.error_reply (pos 0))))
        (reply-Finishes env (Reply.error_reply (pos 0))) p r f o

  pub do_fsync-Finishes : Finishes false (λ p. do_fsync env p nodeid inarg)
  unfolding do_fsync
  do_fsync-Finishes p r f o =
      call-Finishes env ans OpName.op_fsync
        (Call.fsync nodeid (has_bit 0 (u32_at 8 inarg)) (fi_of (u64_at 0 inarg))) p r f o

  pub do_opendir-Finishes : Finishes false (λ p. do_opendir env p nodeid inarg)
  unfolding do_opendir reply_open
  do_opendir-Finishes p r f o =
      call_or-Finishes env ans OpName.op_opendir (Call.opendir nodeid (open_fi inarg))
        (λ p. discard (run_reply env p (Reply.open_reply (open_fi inarg))))
        (reply-Finishes env (Reply.open_reply (open_fi inarg))) p r f o

  pub do_readdir-Finishes : Finishes false (λ p. do_readdir env p nodeid inarg)
  unfolding do_readdir
  do_readdir-Finishes p r f o =
      call-Finishes env ans OpName.op_readdir
        (Call.readdir nodeid (u32_at 16 inarg) (u64_at 8 inarg) (fi_of (u64_at 0 inarg))) p r f o

  pub do_releasedir-Finishes : Finishes false (λ p. do_releasedir env p nodeid inarg)
  unfolding do_releasedir
  do_releasedir-Finishes p r f o =
      call_or-Finishes env ans OpName.op_releasedir (Call.releasedir nodeid (releasedir_fi inarg))
        (λ p. discard (run_reply env p (Reply.error_reply (pos 0))))
        (reply-Finishes env (Reply.error_reply (pos 0))) p r f o

  pub do_fsyncdir-Finishes : Finishes false (λ p. do_fsyncdir env p nodeid inarg)
  unfolding do_fsyncdir
  do_fsyncdir-Finishes p r f o =
      call-Finishes env ans OpName.op_fsyncdir
        (Call.fsyncdir nodeid (has_bit 0 (u32_at 8 inarg)) (fi_of (u64_at 0 inarg))) p r f o

  pub do_statfs-Finishes : Finishes false (λ p. do_statfs env p nodeid inarg)
  unfolding do_statfs reply_statfs
  do_statfs-Finishes p r f o =
      call_or-Finishes env ans OpName.op_statfs (Call.statfs nodeid)
        (λ p. discard (run_reply env p (Reply.statfs_reply default_vfs)))
        (reply-Finishes env (Reply.statfs_reply default_vfs)) p r f o

  pub do_setxattr-Finishes : Finishes false (λ p. do_setxattr env p nodeid inarg)
  unfolding do_setxattr
  do_setxattr-Finishes p r f o =
      let name = drop 8 inarg in
      call-Finishes env ans OpName.op_setxattr
        (Call.setxattr nodeid (c_string name) (take (u32_at 0 inarg) (behind_string name))
          (u32_at 0 inarg) (u32_at 4 inarg))
        p r f o

  pub do_getxattr-Finishes : Finishes false (λ p. do_getxattr env p nodeid inarg)
  unfolding do_getxattr
  do_getxattr-Finishes p r f o =
      call-Finishes env ans OpName.op_getxattr
        (Call.getxattr nodeid (c_string (drop 8 inarg)) (u32_at 0 inarg)) p r f o

  pub do_listxattr-Finishes : Finishes false (λ p. do_listxattr env p nodeid inarg)
  unfolding do_listxattr
  do_listxattr-Finishes p r f o =
      call-Finishes env ans OpName.op_listxattr (Call.listxattr nodeid (u32_at 0 inarg)) p r f o

  pub do_removexattr-Finishes : Finishes false (λ p. do_removexattr env p nodeid inarg)
  unfolding do_removexattr
  do_removexattr-Finishes p r f o =
      call-Finishes env ans OpName.op_removexattr (Call.removexattr nodeid (c_string inarg)) p r f o

  pub do_getlk-Finishes : Finishes false (λ p. do_getlk env p nodeid inarg)
  unfolding do_getlk convert_file_lock
  do_getlk-Finishes p r f o =
      call-Finishes env ans OpName.op_getlk
        (Call.getlk nodeid (lk_fi inarg) (convert_file_lock (file_lock_at 16 inarg))) p r f o

  do_setlk_common-Finishes :
      (sleep : Bool) → Finishes false (λ p. do_setlk_common env p nodeid inarg sleep)
  unfolding do_setlk_common convert_file_lock
  do_setlk_common-Finishes sleep p r f o =
      call-Finishes env ans OpName.op_setlk
        (Call.setlk nodeid (lk_fi inarg) (convert_file_lock (file_lock_at 16 inarg)) sleep) p r f o

  pub do_bmap-Finishes : Finishes false (λ p. do_bmap env p nodeid inarg)
  unfolding do_bmap
  do_bmap-Finishes p r f o =
      call-Finishes env ans OpName.op_bmap (Call.bmap nodeid (u32_at 8 inarg) (u64_at 0 inarg)) p r
        f o

  pub do_ioctl-Finishes : Finishes false (λ p. do_ioctl env p nodeid inarg)
  unfolding do_ioctl
  do_ioctl-Finishes p r f o =
      call-Finishes env ans OpName.op_ioctl
        (Call.ioctl nodeid (u32_at 12 inarg) (u64_at 16 inarg) (fi_of (u64_at 0 inarg))
          (u32_at 8 inarg) (in_buf inarg) (u32_at 24 inarg) (u32_at 28 inarg))
        p r f o

  pub do_mknod-Finishes : Finishes false (λ p. do_mknod env p nodeid inarg)
  unfolding do_mknod
  do_mknod-Finishes p r f o = elim (Bool-cases (ltb f.conn.proto_minor 12)) [
    | inl h ↦ rw h (
        call-Finishes env ans OpName.op_mknod
          (Call.mknod nodeid (c_string (drop 8 inarg)) (u32_at 0 inarg) (u32_at 4 inarg)) p r f o)
    | inr h ↦ rw h (
        umask-Finishes env (u32_at 8 inarg)
          (λ p.
            call_or env OpName.op_mknod
              (Call.mknod nodeid (c_string (drop 16 inarg)) (u32_at 0 inarg) (u32_at 4 inarg)) p
              (no_op env p))
          (call-Finishes env ans OpName.op_mknod
            (Call.mknod nodeid (c_string (drop 16 inarg)) (u32_at 0 inarg) (u32_at 4 inarg)))
          p r f o)
  ]

  pub do_mkdir-Finishes : Finishes false (λ p. do_mkdir env p nodeid inarg)
  unfolding do_mkdir
  do_mkdir-Finishes p r f o =
      let mk =
        call-Finishes env ans OpName.op_mkdir
          (Call.mkdir nodeid (c_string (drop 8 inarg)) (u32_at 0 inarg)) in
      elim (Bool-cases (ltb f.conn.proto_minor 12)) [
        | inl h ↦ rw h (mk p r f o)
        | inr h ↦ rw h (
            umask-Finishes env (u32_at 4 inarg)
              (λ p.
                call_or env OpName.op_mkdir
                  (Call.mkdir nodeid (c_string (drop 8 inarg)) (u32_at 0 inarg)) p (no_op env p))
              mk p r f o)
      ]

  no_op-Finishes : Finishes false (no_op env)
  no_op-Finishes = reply-Finishes env (Reply.error_reply enosys_code)

  pub do_create-Finishes : Finishes false (λ p. do_create env p nodeid inarg)
  unfolding do_create
  do_create-Finishes p r f o = elim (Bool-cases (ltb f.conn.proto_minor 12)) [
    | inl h ↦ rw h (
        call-Finishes env ans OpName.op_create
          (Call.create nodeid (c_string (drop 8 inarg)) (u32_at 4 inarg) (open_fi inarg)) p r f o)
    | inr h ↦ rw h (elim (Option-cases (env.op OpName.op_create)) [
      | inl e ↦ rw e (no_op-Finishes p r f o)
      | inr (op, e) ↦
          let call =
            Call.create nodeid (c_string (drop 16 inarg)) (u32_at 4 inarg) (open_fi inarg) in
          rw e (
            umask-Finishes env (u32_at 8 inarg) (op call)
              (ans.op_finishes OpName.op_create op call e) p r f o)
    ])
  ]

  pub do_poll-Finishes : Finishes false (λ p. do_poll env p nodeid inarg)
  unfolding do_poll
  do_poll-Finishes p r f o = elim (Option-cases (env.op OpName.op_poll)) [
    | inl e ↦ rw e (no_op-Finishes p r f o)
    | inr (op, e) ↦ elim (Bool-cases (has_bit 0 (u32_at 16 inarg))) [
      | inr h ↦
          rw (e, h)
            (ans.op_finishes OpName.op_poll op (Call.poll nodeid (fi_of (u64_at 0 inarg)) none) e p
              r f o)
      | inl h ↦
          let f' = record f { mem = (next_alloc f.mem).1 } in
          let o' : IsOpen f' p r = record { there = o.there; one_ref = o.one_ref } in
          let call = Call.poll nodeid (fi_of (u64_at 0 inarg)) (some (u64_at 8 inarg)) in
          elim (Bool-cases (next_alloc f.mem).0) [
            | inl a ↦
                rw (e, h, a)
                  (changed-Done env p r.unique f f' (op call p f') refl refl refl refl refl
                    (ans.op_finishes OpName.op_poll op call e p r f' o'))
            | inr a ↦
                rw (e, h, a)
                  (changed-Done env p r.unique f f'
                    (discard (run_reply env p (Reply.error_reply enomem_int)) f') refl refl refl
                    refl refl (reply-Finishes env (Reply.error_reply enomem_int) p r f' o'))
          ]
    ]
  ]

  pub do_setlk-Finishes : Finishes false (λ p. do_setlk env p nodeid inarg)
  unfolding do_setlk
  do_setlk-Finishes = do_setlk_common-Finishes false

  pub do_setlkw-Finishes : Finishes false (λ p. do_setlkw env p nodeid inarg)
  unfolding do_setlkw
  do_setlkw-Finishes = do_setlk_common-Finishes true
