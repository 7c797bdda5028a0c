-- ===== src/Fs/Context.antt =====
-- The private data that an operation sees: the functions `fuse_fs_getattr` and so on of
-- fuse-2.8.5/lib/fuse.c.
use fuse_nt.Prelude.{◌≡◌, refl, none}
use fuse_nt.Subdir.{
  Call, getattr, fgetattr, access, opendir, readdir, releasedir, mknod, mkdir, unlink, rmdir, chmod,
  chown, truncate, ftruncate, utimens, create, open_file, read, write, statfs, flush, release,
  fsync, fsyncdir, setxattr, getxattr, listxattr, removexattr, lock, bmap, symlink, rename, link,
}
use fuse_nt.Fs.{Fs, Operations, in_fs}
use fuse_nt.Fs.Calls.{fs_call}

-- the table without operations
abbrev pub no_operations : {P D World : Type 0} → Operations P D World
no_operations = record {
  op_getattr = none;
  op_fgetattr = none;
  op_access = none;
  op_opendir = none;
  op_readdir = none;
  op_releasedir = none;
  op_mknod = none;
  op_mkdir = none;
  op_unlink = none;
  op_rmdir = none;
  op_chmod = none;
  op_chown = none;
  op_truncate = none;
  op_ftruncate = none;
  op_utimens = none;
  op_create = none;
  op_open = none;
  op_read = none;
  op_write = none;
  op_statfs = none;
  op_flush = none;
  op_release = none;
  op_fsync = none;
  op_fsyncdir = none;
  op_setxattr = none;
  op_getxattr = none;
  op_listxattr = none;
  op_removexattr = none;
  op_lock = none;
  op_bmap = none;
  op_symlink = none;
  op_rename = none;
  op_link = none;
  op_getdir = none;
  op_utime = none;
}

module _ {P D World : Type 0} (default_statfs : P → World → World) where
  -- Whatever the private data was before, left behind perhaps by a file system that is stacked on
  -- this one, a call runs in the same way: each function sets the private data of its own.
  pub fs_call-own_data :
      (fs : Fs P D World) (c : Call P) (before other : D) (world : World)
      → fs_call default_statfs fs c (record { private_data = before; world = world })
        ≡ fs_call default_statfs fs c (record { private_data = other; world = world })
  unfolding fs_call in_fs
  fs_call-own_data fs (getattr path a) before other world = refl
  fs_call-own_data fs (fgetattr path a b) before other world = refl
  fs_call-own_data fs (access path a) before other world = refl
  fs_call-own_data fs (opendir path a) before other world = refl
  fs_call-own_data fs (readdir path a b c d) before other world = refl
  fs_call-own_data fs (releasedir path a) before other world = refl
  fs_call-own_data fs (mknod path a b) before other world = refl
  fs_call-own_data fs (mkdir path a) before other world = refl
  fs_call-own_data fs (unlink path) before other world = refl
  fs_call-own_data fs (rmdir path) before other world = refl
  fs_call-own_data fs (chmod path a) before other world = refl
  fs_call-own_data fs (chown path a b) before other world = refl
  fs_call-own_data fs (truncate path a) before other world = refl
  fs_call-own_data fs (ftruncate path a b) before other world = refl
  fs_call-own_data fs (utimens path a b c d) before other world = refl
  fs_call-own_data fs (create path a b) before other world = refl
  fs_call-own_data fs (open_file path a) before other world = refl
  fs_call-own_data fs (read path a b c d) before other world = refl
  fs_call-own_data fs (write path a b c d) before other world = refl
  fs_call-own_data fs (statfs path a) before other world = refl
  fs_call-own_data fs (flush path a) before other world = refl
  fs_call-own_data fs (release path a) before other world = refl
  fs_call-own_data fs (fsync path a b) before other world = refl
  fs_call-own_data fs (fsyncdir path a b) before other world = refl
  fs_call-own_data fs (setxattr path a b c d) before other world = refl
  fs_call-own_data fs (getxattr path a b c) before other world = refl
  fs_call-own_data fs (listxattr path a b) before other world = refl
  fs_call-own_data fs (removexattr path a) before other world = refl
  fs_call-own_data fs (lock path a b c) before other world = refl
  fs_call-own_data fs (bmap path a b) before other world = refl
  fs_call-own_data fs (symlink linkname path) before other world = refl
  fs_call-own_data fs (rename oldpath newpath) before other world = refl
  fs_call-own_data fs (link oldpath newpath) before other world = refl
