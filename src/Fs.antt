-- ===== src/Fs.antt =====
-- A file system under the library: `struct fuse_fs` of fuse-2.8.5/lib/fuse.c with the table of its
-- operations, each of which may be missing (`compat` is 0, `debug` is off).
pub mod Calls
pub mod Context
mod Tests
use fuse_nt.Prelude.{ℕ, Option, none, some}
use fuse_nt.Prelude.Int.{ℤ, pos, negsuc}
use fuse_nt.Subdir.{PathArg}

-- `fuse_get_context()->private_data`, and the world behind the file systems
pub record FsContext (D World : Type 0) : Type 0 where
  pub private_data : D
  pub world : World

abbrev pub Operation : Type 0 → Type 0 → Type 0
Operation D World = FsContext D World → ℤ × FsContext D World

-- `struct fuse_operations`: NULL is `none`, and `P` are pointers
pub record Operations (P D World : Type 0) : Type 0 where
  pub op_getattr : Option (PathArg → P → Operation D World)
  pub op_fgetattr : Option (PathArg → P → P → Operation D World)
  pub op_access : Option (PathArg → ℕ → Operation D World)
  pub op_opendir : Option (PathArg → P → Operation D World)
  pub op_readdir : Option (PathArg → P → P → ℕ → P → Operation D World)
  pub op_releasedir : Option (PathArg → P → Operation D World)
  pub op_mknod : Option (PathArg → ℕ → ℕ → Operation D World)
  pub op_mkdir : Option (PathArg → ℕ → Operation D World)
  pub op_unlink : Option (PathArg → Operation D World)
  pub op_rmdir : Option (PathArg → Operation D World)
  pub op_chmod : Option (PathArg → ℕ → Operation D World)
  pub op_chown : Option (PathArg → ℕ → ℕ → Operation D World)
  pub op_truncate : Option (PathArg → ℕ → Operation D World)
  pub op_ftruncate : Option (PathArg → ℕ → P → Operation D World)
  pub op_utimens : Option (PathArg → ℕ → ℕ → ℕ → ℕ → Operation D World)
  pub op_create : Option (PathArg → ℕ → P → Operation D World)
  pub op_open : Option (PathArg → P → Operation D World)
  pub op_read : Option (PathArg → P → ℕ → ℕ → P → Operation D World)
  pub op_write : Option (PathArg → P → ℕ → ℕ → P → Operation D World)
  pub op_statfs : Option (PathArg → P → Operation D World)
  pub op_flush : Option (PathArg → P → Operation D World)
  pub op_release : Option (PathArg → P → Operation D World)
  pub op_fsync : Option (PathArg → ℕ → P → Operation D World)
  pub op_fsyncdir : Option (PathArg → ℕ → P → Operation D World)
  pub op_setxattr : Option (PathArg → P → P → ℕ → ℕ → Operation D World)
  pub op_getxattr : Option (PathArg → P → P → ℕ → Operation D World)
  pub op_listxattr : Option (PathArg → P → ℕ → Operation D World)
  pub op_removexattr : Option (PathArg → P → Operation D World)
  pub op_lock : Option (PathArg → P → ℕ → P → Operation D World)
  pub op_bmap : Option (PathArg → ℕ → P → Operation D World)
  pub op_symlink : Option (PathArg → PathArg → Operation D World)
  pub op_rename : Option (PathArg → PathArg → Operation D World)
  pub op_link : Option (PathArg → PathArg → Operation D World)
  pub op_getdir : Option (PathArg → P → P → Operation D World)
  pub op_utime : Option (PathArg → ℕ → ℕ → Operation D World)

pub record Fs (P D World : Type 0) : Type 0 where
  pub op : Operations P D World
  pub user_data : D

-- -ENOSYS
abbrev pub enosys_code : ℤ
enosys_code = negsuc 37

module _ {D World : Type 0} where
  -- `return` with a number
  abbrev pub answer : ℤ → Operation D World
  answer r ctx = (r, ctx)

  abbrev pub enosys : Operation D World
  enosys = answer enosys_code

  -- the call of an operation that is there, else the other branch
  abbrev pub try_op :
      {A : Type 0} → Option A → (A → Operation D World) → Operation D World → Operation D World
  try_op none call other = other
  try_op (some f) call other = call f

  -- `else if (path && ...)`
  abbrev pub if_path : PathArg → Operation D World → Operation D World
  if_path none act = enosys
  if_path (some p) act = act

-- the line that each function begins with
unfoldable pub in_fs : {P D World : Type 0} → Fs P D World → Operation D World → Operation D World
in_fs fs act ctx = act (record ctx { private_data = fs.user_data })
