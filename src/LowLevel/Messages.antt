-- ===== src/LowLevel/Messages.antt =====
-- What goes to the kernel and to the file system: the structures of
-- fuse-2.8.5/include/fuse_kernel.h that replies carry, with their sizes, and the calls of the
-- operations of `struct fuse_lowlevel_ops`.
use fuse_nt.Prelude.{ℕ, Bool, Option, List}
use fuse_nt.Prelude.Int.{ℤ}
use fuse_nt.Prelude.Memory.{Str}

pub record OutHeader : Type 0 where
  pub unique : ℕ
  pub error : ℤ
  pub len : ℕ

-- `struct stat`
pub record StatBuf : Type 0 where
  pub st_ino : ℕ
  pub st_mode : ℕ
  pub st_nlink : ℕ
  pub st_uid : ℕ
  pub st_gid : ℕ
  pub st_rdev : ℕ
  pub st_size : ℕ
  pub st_blksize : ℕ
  pub st_blocks : ℕ
  pub st_atime : ℕ
  pub st_mtime : ℕ
  pub st_ctime : ℕ
  pub st_atimensec : ℕ
  pub st_mtimensec : ℕ
  pub st_ctimensec : ℕ

pub record FuseAttr : Type 0 where
  pub ino : ℕ
  pub size : ℕ
  pub blocks : ℕ
  pub atime : ℕ
  pub mtime : ℕ
  pub ctime : ℕ
  pub atimensec : ℕ
  pub mtimensec : ℕ
  pub ctimensec : ℕ
  pub mode : ℕ
  pub nlink : ℕ
  pub uid : ℕ
  pub gid : ℕ
  pub rdev : ℕ
  pub blksize : ℕ

-- a timeout, as the two functions `calc_timeout_sec` and `calc_timeout_nsec` round the `double`
pub record Timeout : Type 0 where
  pub sec : ℕ
  pub nsec : ℕ

pub record EntryParam : Type 0 where
  pub ino : ℕ
  pub generation : ℕ
  pub attr : StatBuf
  pub attr_timeout : Timeout
  pub entry_timeout : Timeout

-- `struct fuse_file_info`
pub record FileInfo : Type 0 where
  pub flags : ℕ
  pub fh_old : ℕ
  pub writepage : ℕ
  pub direct_io : Bool
  pub keep_cache : Bool
  pub flush : Bool
  pub nonseekable : Bool
  pub fh : ℕ
  pub lock_owner : ℕ

-- `struct statvfs`, which `convert_statfs` copies
pub record StatVfs : Type 0 where
  pub f_bsize : ℕ
  pub f_frsize : ℕ
  pub f_blocks : ℕ
  pub f_bfree : ℕ
  pub f_bavail : ℕ
  pub f_files : ℕ
  pub f_ffree : ℕ
  pub f_namemax : ℕ

-- `struct fuse_file_lock`
pub record FileLock : Type 0 where
  pub start : ℕ
  pub end : ℕ
  pub type : ℕ
  pub lock_pid : ℕ

-- `struct flock` with its `l_whence` SEEK_SET
pub record FlockBuf : Type 0 where
  pub fl_type : ℕ
  pub fl_start : ℕ
  pub fl_len : ℕ
  pub fl_pid : ℕ

pub record EntryOut : Type 0 where
  pub nodeid : ℕ
  pub out_generation : ℕ
  pub entry_valid : Timeout
  pub attr_valid : Timeout
  pub out_attr : FuseAttr

pub record OpenOut : Type 0 where
  pub out_fh : ℕ
  pub open_flags : ℕ

-- the capabilities as bits of a word
pub record Caps : Type 0 where
  pub cap_async_read : Bool
  pub cap_posix_locks : Bool
  pub cap_atomic_o_trunc : Bool
  pub cap_export_support : Bool
  pub cap_big_writes : Bool
  pub cap_dont_mask : Bool

pub record InitOut : Type 0 where
  pub major : ℕ
  pub minor : ℕ
  pub out_max_readahead : ℕ
  pub out_flags : Caps
  pub out_max_write : ℕ

-- what a piece of a message is made of
pub data Content : Type 0 where
  null : Content
  bytes : Str → Content
  entry_out : EntryOut → Content
  create_out : EntryOut → OpenOut → Content
  attr_out : Timeout → FuseAttr → Content
  open_out : OpenOut → Content
  write_out : ℕ → Content
  statfs_out : StatVfs → Content
  getxattr_out : ℕ → Content
  lk_out : FileLock → Content
  bmap_out : ℕ → Content
  ioctl_out : ℤ → ℕ → ℕ → ℕ → Content
  iovecs : ℕ → Content
  poll_out : ℕ → Content
  init_out : InitOut → Content

-- an element of `iov`
pub record Piece : Type 0 where
  pub base : Content
  pub iov_len : ℕ

-- what is written to the channel: the header with the other pieces, or nothing at all
pub data Sent : Type 0 where
  message : OutHeader → List Piece → Sent
  empty : Sent

-- a pointer to a `struct fuse_file_info` on the stack, or NULL
abbrev pub Fi : Type 0
Fi = Option FileInfo

-- the calls of the operations, with their arguments
pub data Call : Type 0 where
  lookup : ℕ → Str → Call
  forget : ℕ → ℕ → Call
  getattr : ℕ → Fi → Call
  setattr : ℕ → StatBuf → ℕ → Fi → Call
  readlink : ℕ → Call
  mknod : ℕ → Str → ℕ → ℕ → Call
  mkdir : ℕ → Str → ℕ → Call
  unlink : ℕ → Str → Call
  rmdir : ℕ → Str → Call
  symlink : Str → ℕ → Str → Call
  rename : ℕ → Str → ℕ → Str → Call
  link : ℕ → ℕ → Str → Call
  open_file : ℕ → FileInfo → Call
  read : ℕ → ℕ → ℕ → FileInfo → Call
  write : ℕ → Str → ℕ → ℕ → FileInfo → Call
  flush : ℕ → FileInfo → Call
  release : ℕ → FileInfo → Call
  fsync : ℕ → Bool → FileInfo → Call
  opendir : ℕ → FileInfo → Call
  readdir : ℕ → ℕ → ℕ → FileInfo → Call
  releasedir : ℕ → FileInfo → Call
  fsyncdir : ℕ → Bool → FileInfo → Call
  statfs : ℕ → Call
  setxattr : ℕ → Str → Str → ℕ → ℕ → Call
  getxattr : ℕ → Str → ℕ → Call
  listxattr : ℕ → ℕ → Call
  removexattr : ℕ → Str → Call
  access : ℕ → ℕ → Call
  create : ℕ → Str → ℕ → FileInfo → Call
  getlk : ℕ → FileInfo → FlockBuf → Call
  setlk : ℕ → FileInfo → FlockBuf → Bool → Call
  bmap : ℕ → ℕ → ℕ → Call
  ioctl : ℕ → ℕ → ℕ → FileInfo → ℕ → Option Str → ℕ → ℕ → Call
  poll : ℕ → FileInfo → Option ℕ → Call

-- the fields of `struct fuse_lowlevel_ops`
pub data OpName : Type 0 where
  op_lookup op_forget op_getattr op_setattr op_readlink op_mknod op_mkdir op_unlink : OpName
  op_rmdir op_symlink op_rename op_link op_open op_read op_write op_flush op_release : OpName
  op_fsync op_opendir op_readdir op_releasedir op_fsyncdir op_statfs op_setxattr : OpName
  op_getxattr op_listxattr op_removexattr op_access op_create op_getlk op_setlk : OpName
  op_bmap op_ioctl op_poll : OpName
