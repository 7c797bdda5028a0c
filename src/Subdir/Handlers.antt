-- ===== src/Subdir/Handlers.antt =====
-- The handlers of `subdir`, fuse-2.8.5/lib/modules/subdir.c, but for `subdir_readlink`.
use fuse_nt.Prelude.{ℕ}
use fuse_nt.Prelude.Int.{ℤ}
use fuse_nt.Prelude.Memory.{Str}
use fuse_nt.Subdir.{
  PathArg, Call, Env, on_path, getattr, fgetattr, access, opendir, readdir, releasedir, mknod,
  mkdir, unlink, rmdir, chmod, chown, truncate, ftruncate, utimens, create, open_file, read, write,
  statfs, flush, release, fsync, fsyncdir, setxattr, getxattr, listxattr, removexattr, lock, bmap,
  symlink, rename, link,
}

module _ {World P : Type 0} (next : Call P → World → ℤ × World) (base : Str) where
  -- a call of the next file system
  abbrev pub call_next : Call P → Env World → ℤ × Env World
  call_next c env = let (r, world') = next c env.world in (r, record env { world = world' })

  abbrev pub subdir_getattr : PathArg → P → Env World → ℤ × Env World
  subdir_getattr path a = on_path base path (λ p. call_next (getattr p a))

  abbrev pub subdir_fgetattr : PathArg → P → P → Env World → ℤ × Env World
  subdir_fgetattr path a b = on_path base path (λ p. call_next (fgetattr p a b))

  abbrev pub subdir_access : PathArg → ℕ → Env World → ℤ × Env World
  subdir_access path a = on_path base path (λ p. call_next (access p a))

  abbrev pub subdir_opendir : PathArg → P → Env World → ℤ × Env World
  subdir_opendir path a = on_path base path (λ p. call_next (opendir p a))

  abbrev pub subdir_readdir : PathArg → P → P → ℕ → P → Env World → ℤ × Env World
  subdir_readdir path a b c d = on_path base path (λ p. call_next (readdir p a b c d))

  abbrev pub subdir_releasedir : PathArg → P → Env World → ℤ × Env World
  subdir_releasedir path a = on_path base path (λ p. call_next (releasedir p a))

  abbrev pub subdir_mknod : PathArg → ℕ → ℕ → Env World → ℤ × Env World
  subdir_mknod path a b = on_path base path (λ p. call_next (mknod p a b))

  abbrev pub subdir_mkdir : PathArg → ℕ → Env World → ℤ × Env World
  subdir_mkdir path a = on_path base path (λ p. call_next (mkdir p a))

  abbrev pub subdir_unlink : PathArg → Env World → ℤ × Env World
  subdir_unlink path = on_path base path (λ p. call_next (unlink p))

  abbrev pub subdir_rmdir : PathArg → Env World → ℤ × Env World
  subdir_rmdir path = on_path base path (λ p. call_next (rmdir p))

  abbrev pub subdir_chmod : PathArg → ℕ → Env World → ℤ × Env World
  subdir_chmod path a = on_path base path (λ p. call_next (chmod p a))

  abbrev pub subdir_chown : PathArg → ℕ → ℕ → Env World → ℤ × Env World
  subdir_chown path a b = on_path base path (λ p. call_next (chown p a b))

  abbrev pub subdir_truncate : PathArg → ℕ → Env World → ℤ × Env World
  subdir_truncate path a = on_path base path (λ p. call_next (truncate p a))

  abbrev pub subdir_ftruncate : PathArg → ℕ → P → Env World → ℤ × Env World
  subdir_ftruncate path a b = on_path base path (λ p. call_next (ftruncate p a b))

  abbrev pub subdir_utimens : PathArg → ℕ → ℕ → ℕ → ℕ → Env World → ℤ × Env World
  subdir_utimens path a b c d = on_path base path (λ p. call_next (utimens p a b c d))

  abbrev pub subdir_create : PathArg → ℕ → P → Env World → ℤ × Env World
  subdir_create path a b = on_path base path (λ p. call_next (create p a b))

  abbrev pub subdir_open : PathArg → P → Env World → ℤ × Env World
  subdir_open path a = on_path base path (λ p. call_next (open_file p a))

  abbrev pub subdir_read : PathArg → P → ℕ → ℕ → P → Env World → ℤ × Env World
  subdir_read path a b c d = on_path base path (λ p. call_next (read p a b c d))

  abbrev pub subdir_write : PathArg → P → ℕ → ℕ → P → Env World → ℤ × Env World
  subdir_write path a b c d = on_path base path (λ p. call_next (write p a b c d))

  abbrev pub subdir_statfs : PathArg → P → Env World → ℤ × Env World
  subdir_statfs path a = on_path base path (λ p. call_next (statfs p a))

  abbrev pub subdir_flush : PathArg → P → Env World → ℤ × Env World
  subdir_flush path a = on_path base path (λ p. call_next (flush p a))

  abbrev pub subdir_release : PathArg → P → Env World → ℤ × Env World
  subdir_release path a = on_path base path (λ p. call_next (release p a))

  abbrev pub subdir_fsync : PathArg → ℕ → P → Env World → ℤ × Env World
  subdir_fsync path a b = on_path base path (λ p. call_next (fsync p a b))

  abbrev pub subdir_fsyncdir : PathArg → ℕ → P → Env World → ℤ × Env World
  subdir_fsyncdir path a b = on_path base path (λ p. call_next (fsyncdir p a b))

  abbrev pub subdir_setxattr : PathArg → P → P → ℕ → ℕ → Env World → ℤ × Env World
  subdir_setxattr path a b c d = on_path base path (λ p. call_next (setxattr p a b c d))

  abbrev pub subdir_getxattr : PathArg → P → P → ℕ → Env World → ℤ × Env World
  subdir_getxattr path a b c = on_path base path (λ p. call_next (getxattr p a b c))

  abbrev pub subdir_listxattr : PathArg → P → ℕ → Env World → ℤ × Env World
  subdir_listxattr path a b = on_path base path (λ p. call_next (listxattr p a b))

  abbrev pub subdir_removexattr : PathArg → P → Env World → ℤ × Env World
  subdir_removexattr path a = on_path base path (λ p. call_next (removexattr p a))

  abbrev pub subdir_lock : PathArg → P → ℕ → P → Env World → ℤ × Env World
  subdir_lock path a b c = on_path base path (λ p. call_next (lock p a b c))

  abbrev pub subdir_bmap : PathArg → ℕ → P → Env World → ℤ × Env World
  subdir_bmap path a b = on_path base path (λ p. call_next (bmap p a b))

  -- the target of the link is not translated
  abbrev pub subdir_symlink : PathArg → PathArg → Env World → ℤ × Env World
  subdir_symlink from path = on_path base path (λ p. call_next (symlink from p))

  abbrev pub subdir_rename : PathArg → PathArg → Env World → ℤ × Env World
  subdir_rename from to =
      on_path base from (λ newfrom. on_path base to (λ newto. call_next (rename newfrom newto)))

  abbrev pub subdir_link : PathArg → PathArg → Env World → ℤ × Env World
  subdir_link from to =
      on_path base from (λ newfrom. on_path base to (λ newto. call_next (link newfrom newto)))

  -- the table of the operations
  unfoldable pub subdir_oper : Call P → Env World → ℤ × Env World
  subdir_oper (getattr path a) = subdir_getattr path a
  subdir_oper (fgetattr path a b) = subdir_fgetattr path a b
  subdir_oper (access path a) = subdir_access path a
  subdir_oper (opendir path a) = subdir_opendir path a
  subdir_oper (readdir path a b c d) = subdir_readdir path a b c d
  subdir_oper (releasedir path a) = subdir_releasedir path a
  subdir_oper (mknod path a b) = subdir_mknod path a b
  subdir_oper (mkdir path a) = subdir_mkdir path a
  subdir_oper (unlink path) = subdir_unlink path
  subdir_oper (rmdir path) = subdir_rmdir path
  subdir_oper (chmod path a) = subdir_chmod path a
  subdir_oper (chown path a b) = subdir_chown path a b
  subdir_oper (truncate path a) = subdir_truncate path a
  subdir_oper (ftruncate path a b) = subdir_ftruncate path a b
  subdir_oper (utimens path a b c d) = subdir_utimens path a b c d
  subdir_oper (create path a b) = subdir_create path a b
  subdir_oper (open_file path a) = subdir_open path a
  subdir_oper (read path a b c d) = subdir_read path a b c d
  subdir_oper (write path a b c d) = subdir_write path a b c d
  subdir_oper (statfs path a) = subdir_statfs path a
  subdir_oper (flush path a) = subdir_flush path a
  subdir_oper (release path a) = subdir_release path a
  subdir_oper (fsync path a b) = subdir_fsync path a b
  subdir_oper (fsyncdir path a b) = subdir_fsyncdir path a b
  subdir_oper (setxattr path a b c d) = subdir_setxattr path a b c d
  subdir_oper (getxattr path a b c) = subdir_getxattr path a b c
  subdir_oper (listxattr path a b) = subdir_listxattr path a b
  subdir_oper (removexattr path a) = subdir_removexattr path a
  subdir_oper (lock path a b c) = subdir_lock path a b c
  subdir_oper (bmap path a b) = subdir_bmap path a b
  subdir_oper (symlink from to) = subdir_symlink from to
  subdir_oper (rename from to) = subdir_rename from to
  subdir_oper (link from to) = subdir_link from to
