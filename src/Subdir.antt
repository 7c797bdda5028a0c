-- ===== src/Subdir.antt =====
-- The stacked file system `subdir`, fuse-2.8.5/lib/modules/subdir.c: it puts a directory in front of
-- each path and calls the next file system. A path is NULL or a string.
pub mod Handlers
pub mod Forward
mod Tests
use fuse_nt.Prelude.{
  ℕ, ◌+◌, ◌-◌, Bool, true, false, Option, none, some, List, [], ◌∷◌, ◌++◌, ◌==◌, if◌then◌else◌,
}
use fuse_nt.Prelude.Int.{ℤ, negsuc}
use fuse_nt.Prelude.Memory.{Str, Mem, next_alloc}

abbrev pub PathArg : Type 0
PathArg = Option Str

-- A call of a file system operation with its arguments; `P` are the pointers that are passed on.
pub data Call (P : Type 0) : Type 0 where
  getattr : PathArg → P → Call P
  fgetattr : PathArg → P → P → Call P
  access : PathArg → ℕ → Call P
  opendir : PathArg → P → Call P
  readdir : PathArg → P → P → ℕ → P → Call P
  releasedir : PathArg → P → Call P
  mknod : PathArg → ℕ → ℕ → Call P
  mkdir : PathArg → ℕ → Call P
  unlink : PathArg → Call P
  rmdir : PathArg → Call P
  chmod : PathArg → ℕ → Call P
  chown : PathArg → ℕ → ℕ → Call P
  truncate : PathArg → ℕ → Call P
  ftruncate : PathArg → ℕ → P → Call P
  utimens : PathArg → ℕ → ℕ → ℕ → ℕ → Call P
  create : PathArg → ℕ → P → Call P
  open_file : PathArg → P → Call P
  read : PathArg → P → ℕ → ℕ → P → Call P
  write : PathArg → P → ℕ → ℕ → P → Call P
  statfs : PathArg → P → Call P
  flush : PathArg → P → Call P
  release : PathArg → P → Call P
  fsync : PathArg → ℕ → P → Call P
  fsyncdir : PathArg → ℕ → P → Call P
  setxattr : PathArg → P → P → ℕ → ℕ → Call P
  getxattr : PathArg → P → P → ℕ → Call P
  listxattr : PathArg → P → ℕ → Call P
  removexattr : PathArg → P → Call P
  lock : PathArg → P → ℕ → P → Call P
  bmap : PathArg → ℕ → P → Call P
  symlink : PathArg → PathArg → Call P
  rename : PathArg → PathArg → Call P
  link : PathArg → PathArg → Call P

-- the world behind the file systems, the outcomes of allocations, and how many blocks are in use
pub record Env (World : Type 0) : Type 0 where
  pub world : World
  pub mem : Mem
  pub live : ℕ

abbrev slash : ℕ
slash = b'/'

abbrev dot : ℕ
dot = b'.'

abbrev pub without_slash : Str → Str
without_slash [] = []
without_slash (c ∷ cs) = if c == slash then cs else c ∷ cs

abbrev pub or_dot : Str → Str
or_dot [] = dot ∷ []
or_dot (c ∷ cs) = c ∷ cs

-- the string that `subdir_addpath` builds
unfoldable pub prefixed : Str → Str → Str
prefixed base path = or_dot (base ++ without_slash path)

-- -ENOMEM
abbrev pub enomem : ℤ
enomem = negsuc 11

module _ {World : Type 0} where
  -- `none` for -ENOMEM
  unfoldable pub addpath : Str → PathArg → Env World → Option PathArg × Env World
  addpath base none env = (some none, env)
  addpath base (some path) env =
      let (got, mem') = next_alloc env.mem in
      if got
      then (some (some (prefixed base path)), record env { mem = mem'; live = env.live + 1 })
      else (none, record env { mem = mem' })

  -- `free(newpath)`
  abbrev pub free_arg : PathArg → Env World → Env World
  free_arg none env = env
  free_arg (some p) env = record env { live = env.live - 1 }

  abbrev pub free_after : PathArg → ℤ × Env World → ℤ × Env World
  free_after p (r, env) = (r, free_arg p env)

  abbrev pub with_newpath :
      Option PathArg × Env World → (PathArg → Env World → ℤ × Env World) → ℤ × Env World
  with_newpath (none, env) k = (enomem, env)
  with_newpath (some p, env) k = free_after p (k p env)

  -- what every handler does with a path: translate, go on unless that failed, and free
  unfoldable pub on_path :
      Str → PathArg → (PathArg → Env World → ℤ × Env World) → Env World → ℤ × Env World
  on_path base path k env = with_newpath (addpath base path env) k
