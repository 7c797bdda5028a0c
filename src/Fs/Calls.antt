-- ===== src/Fs/Calls.antt =====
-- The functions `fuse_fs_getattr` and so on of fuse-2.8.5/lib/fuse.c. In `fs_call` a `Call` stands for
-- the name of the function and its arguments.
use fuse_nt.Prelude.{ℕ}
use fuse_nt.Prelude.Int.{pos}
use fuse_nt.Subdir.{
  PathArg, Call, getattr, fgetattr, access, opendir, readdir, releasedir, mknod, mkdir, unlink,
  rmdir, chmod, chown, truncate, ftruncate, utimens, create, open_file, read, write, statfs, flush,
  release, fsync, fsyncdir, setxattr, getxattr, listxattr, removexattr, lock, bmap, symlink, rename,
  link,
}
use fuse_nt.Fs.{Operation, Fs, answer, enosys, try_op, if_path, in_fs}

module _ {P D World : Type 0} (default_statfs : P → World → World) (fs : Fs P D World) where
  -- without the operation, `f_namemax` and `f_bsize` of the buffer are set
  abbrev pub plain_statfs : P → Operation D World
  plain_statfs buf ctx = (pos 0, record ctx { world = default_statfs buf ctx.world })

  abbrev pub fuse_fs_getattr : PathArg → P → Operation D World
  fuse_fs_getattr path a = in_fs fs (try_op fs.op.op_getattr (λ f. f path a) enosys)

  abbrev pub fuse_fs_fgetattr : PathArg → P → P → Operation D World
  fuse_fs_fgetattr path a b = in_fs fs (
      try_op fs.op.op_fgetattr (λ f. f path a b)
        (if_path path (try_op fs.op.op_getattr (λ f. f path a) enosys)))

  abbrev pub fuse_fs_access : PathArg → ℕ → Operation D World
  fuse_fs_access path a = in_fs fs (try_op fs.op.op_access (λ f. f path a) enosys)

  abbrev pub fuse_fs_opendir : PathArg → P → Operation D World
  fuse_fs_opendir path a = in_fs fs (try_op fs.op.op_opendir (λ f. f path a) (answer (pos 0)))

  abbrev pub fuse_fs_readdir : PathArg → P → P → ℕ → P → Operation D World
  fuse_fs_readdir path a b c d = in_fs fs (
      try_op fs.op.op_readdir (λ f. f path a b c d)
        (try_op fs.op.op_getdir (λ f. f path a b) enosys))

  abbrev pub fuse_fs_releasedir : PathArg → P → Operation D World
  fuse_fs_releasedir path a = in_fs fs (try_op fs.op.op_releasedir (λ f. f path a) (answer (pos 0)))

  abbrev pub fuse_fs_mknod : PathArg → ℕ → ℕ → Operation D World
  fuse_fs_mknod path a b = in_fs fs (try_op fs.op.op_mknod (λ f. f path a b) enosys)

  abbrev pub fuse_fs_mkdir : PathArg → ℕ → Operation D World
  fuse_fs_mkdir path a = in_fs fs (try_op fs.op.op_mkdir (λ f. f path a) enosys)

  abbrev pub fuse_fs_unlink : PathArg → Operation D World
  fuse_fs_unlink path = in_fs fs (try_op fs.op.op_unlink (λ f. f path) enosys)

  abbrev pub fuse_fs_rmdir : PathArg → Operation D World
  fuse_fs_rmdir path = in_fs fs (try_op fs.op.op_rmdir (λ f. f path) enosys)

  abbrev pub fuse_fs_chmod : PathArg → ℕ → Operation D World
  fuse_fs_chmod path a = in_fs fs (try_op fs.op.op_chmod (λ f. f path a) enosys)

  abbrev pub fuse_fs_chown : PathArg → ℕ → ℕ → Operation D World
  fuse_fs_chown path a b = in_fs fs (try_op fs.op.op_chown (λ f. f path a b) enosys)

  abbrev pub fuse_fs_truncate : PathArg → ℕ → Operation D World
  fuse_fs_truncate path a = in_fs fs (try_op fs.op.op_truncate (λ f. f path a) enosys)

  abbrev pub fuse_fs_ftruncate : PathArg → ℕ → P → Operation D World
  fuse_fs_ftruncate path a b = in_fs fs (
      try_op fs.op.op_ftruncate (λ f. f path a b)
        (if_path path (try_op fs.op.op_truncate (λ f. f path a) enosys)))

  abbrev pub fuse_fs_utimens : PathArg → ℕ → ℕ → ℕ → ℕ → Operation D World
  fuse_fs_utimens path a b c d = in_fs fs (
      try_op fs.op.op_utimens (λ f. f path a b c d)
        (try_op fs.op.op_utime (λ f. f path a c) enosys))

  abbrev pub fuse_fs_create : PathArg → ℕ → P → Operation D World
  fuse_fs_create path a b = in_fs fs (try_op fs.op.op_create (λ f. f path a b) enosys)

  abbrev pub fuse_fs_open : PathArg → P → Operation D World
  fuse_fs_open path a = in_fs fs (try_op fs.op.op_open (λ f. f path a) (answer (pos 0)))

  abbrev pub fuse_fs_read : PathArg → P → ℕ → ℕ → P → Operation D World
  fuse_fs_read path a b c d = in_fs fs (try_op fs.op.op_read (λ f. f path a b c d) enosys)

  abbrev pub fuse_fs_write : PathArg → P → ℕ → ℕ → P → Operation D World
  fuse_fs_write path a b c d = in_fs fs (try_op fs.op.op_write (λ f. f path a b c d) enosys)

  abbrev pub fuse_fs_statfs : PathArg → P → Operation D World
  fuse_fs_statfs path a = in_fs fs (try_op fs.op.op_statfs (λ f. f path a) (plain_statfs a))

  abbrev pub fuse_fs_flush : PathArg → P → Operation D World
  fuse_fs_flush path a = in_fs fs (try_op fs.op.op_flush (λ f. f path a) enosys)

  abbrev pub fuse_fs_release : PathArg → P → Operation D World
  fuse_fs_release path a = in_fs fs (try_op fs.op.op_release (λ f. f path a) (answer (pos 0)))

  abbrev pub fuse_fs_fsync : PathArg → ℕ → P → Operation D World
  fuse_fs_fsync path a b = in_fs fs (try_op fs.op.op_fsync (λ f. f path a b) enosys)

  abbrev pub fuse_fs_fsyncdir : PathArg → ℕ → P → Operation D World
  fuse_fs_fsyncdir path a b = in_fs fs (try_op fs.op.op_fsyncdir (λ f. f path a b) enosys)

  abbrev pub fuse_fs_setxattr : PathArg → P → P → ℕ → ℕ → Operation D World
  fuse_fs_setxattr path a b c d = in_fs fs (try_op fs.op.op_setxattr (λ f. f path a b c d) enosys)

  abbrev pub fuse_fs_getxattr : PathArg → P → P → ℕ → Operation D World
  fuse_fs_getxattr path a b c = in_fs fs (try_op fs.op.op_getxattr (λ f. f path a b c) enosys)

  abbrev pub fuse_fs_listxattr : PathArg → P → ℕ → Operation D World
  fuse_fs_listxattr path a b = in_fs fs (try_op fs.op.op_listxattr (λ f. f path a b) enosys)

  abbrev pub fuse_fs_removexattr : PathArg → P → Operation D World
  fuse_fs_removexattr path a = in_fs fs (try_op fs.op.op_removexattr (λ f. f path a) enosys)

  abbrev pub fuse_fs_lock : PathArg → P → ℕ → P → Operation D World
  fuse_fs_lock path a b c = in_fs fs (try_op fs.op.op_lock (λ f. f path a b c) enosys)

  abbrev pub fuse_fs_bmap : PathArg → ℕ → P → Operation D World
  fuse_fs_bmap path a b = in_fs fs (try_op fs.op.op_bmap (λ f. f path a b) enosys)

  abbrev pub fuse_fs_symlink : PathArg → PathArg → Operation D World
  fuse_fs_symlink linkname path = in_fs fs (try_op fs.op.op_symlink (λ f. f linkname path) enosys)

  abbrev pub fuse_fs_rename : PathArg → PathArg → Operation D World
  fuse_fs_rename oldpath newpath = in_fs fs (try_op fs.op.op_rename (λ f. f oldpath newpath) enosys)

  abbrev pub fuse_fs_link : PathArg → PathArg → Operation D World
  fuse_fs_link oldpath newpath = in_fs fs (try_op fs.op.op_link (λ f. f oldpath newpath) enosys)

  -- the function for a call
  unfoldable pub fs_call : Call P → Operation D World
  fs_call (getattr path a) = fuse_fs_getattr path a
  fs_call (fgetattr path a b) = fuse_fs_fgetattr path a b
  fs_call (access path a) = fuse_fs_access path a
  fs_call (opendir path a) = fuse_fs_opendir path a
  fs_call (readdir path a b c d) = fuse_fs_readdir path a b c d
  fs_call (releasedir path a) = fuse_fs_releasedir path a
  fs_call (mknod path a b) = fuse_fs_mknod path a b
  fs_call (mkdir path a) = fuse_fs_mkdir path a
  fs_call (unlink path) = fuse_fs_unlink path
  fs_call (rmdir path) = fuse_fs_rmdir path
  fs_call (chmod path a) = fuse_fs_chmod path a
  fs_call (chown path a b) = fuse_fs_chown path a b
  fs_call (truncate path a) = fuse_fs_truncate path a
  fs_call (ftruncate path a b) = fuse_fs_ftruncate path a b
  fs_call (utimens path a b c d) = fuse_fs_utimens path a b c d
  fs_call (create path a b) = fuse_fs_create path a b
  fs_call (open_file path a) = fuse_fs_open path a
  fs_call (read path a b c d) = fuse_fs_read path a b c d
  fs_call (write path a b c d) = fuse_fs_write path a b c d
  fs_call (statfs path a) = fuse_fs_statfs path a
  fs_call (flush path a) = fuse_fs_flush path a
  fs_call (release path a) = fuse_fs_release path a
  fs_call (fsync path a b) = fuse_fs_fsync path a b
  fs_call (fsyncdir path a b) = fuse_fs_fsyncdir path a b
  fs_call (setxattr path a b c d) = fuse_fs_setxattr path a b c d
  fs_call (getxattr path a b c) = fuse_fs_getxattr path a b c
  fs_call (listxattr path a b) = fuse_fs_listxattr path a b
  fs_call (removexattr path a) = fuse_fs_removexattr path a
  fs_call (lock path a b c) = fuse_fs_lock path a b c
  fs_call (bmap path a b) = fuse_fs_bmap path a b
  fs_call (symlink linkname path) = fuse_fs_symlink linkname path
  fs_call (rename oldpath newpath) = fuse_fs_rename oldpath newpath
  fs_call (link oldpath newpath) = fuse_fs_link oldpath newpath
