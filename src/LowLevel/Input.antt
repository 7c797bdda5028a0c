-- ===== src/LowLevel/Input.antt =====
-- The arguments of a request, read off the bytes behind its header: little-endian numbers at the
-- offsets of the structures of fuse-2.8.5/include/fuse_kernel.h, strings up to a 0 byte, and the
-- conversions `convert_attr` and `convert_fuse_file_lock` of fuse-2.8.5/lib/fuse_lowlevel.c.
-- Bytes past the end are read as 0.
use fuse_nt.Prelude.{
  ℕ, zero, suc, ◌+◌, ◌-◌, ◌*◌, ◌/◌, ◌%◌, ◌^◌, Bool, false, [], ◌∷◌, ◌==◌, if◌then◌else◌, length,
  drop,
}
use fuse_nt.Prelude.Memory.{Str}
use fuse_nt.LowLevel.Messages.{StatBuf, FileInfo, FileLock, FlockBuf}

abbrev pub number : ℕ → Str → ℕ
number zero s = 0
number (suc k) [] = 0
number (suc k) (b ∷ s) = b + 256 * number k s

abbrev pub u32_at : ℕ → Str → ℕ
u32_at off s = number 4 (drop off s)

abbrev pub u64_at : ℕ → Str → ℕ
u64_at off s = number 8 (drop off s)

-- bit `k` of a word
abbrev pub has_bit : ℕ → ℕ → Bool
has_bit k n = n / 2 ^ k % 2 == 1

-- the string at a pointer
abbrev pub c_string : Str → Str
c_string [] = []
c_string (c ∷ cs) = if c == 0 then [] else c ∷ c_string cs

-- `s + strlen(s) + 1`
abbrev pub behind_string : Str → Str
behind_string s = drop (length (c_string s) + 1) s

abbrev pub zero_fi : FileInfo
zero_fi = record {
  flags = 0;
  fh_old = 0;
  writepage = 0;
  direct_io = false;
  keep_cache = false;
  flush = false;
  nonseekable = false;
  fh = 0;
  lock_owner = 0;
}

abbrev pub fi_of : ℕ → FileInfo
fi_of fh = record zero_fi { fh = fh; fh_old = fh }

-- from a `struct fuse_setattr_in`, the other fields cleared
unfoldable pub convert_attr : Str → StatBuf
convert_attr attr = record {
  st_ino = 0;
  st_mode = u32_at 68 attr;
  st_nlink = 0;
  st_uid = u32_at 76 attr;
  st_gid = u32_at 80 attr;
  st_rdev = 0;
  st_size = u64_at 16 attr;
  st_blksize = 0;
  st_blocks = 0;
  st_atime = u64_at 32 attr;
  st_mtime = u64_at 40 attr;
  st_ctime = 0;
  st_atimensec = u32_at 56 attr;
  st_mtimensec = u32_at 60 attr;
  st_ctimensec = 0;
}

-- the bits of `valid` that an operation sees: `FUSE_SET_ATTR_MODE` to `FUSE_SET_ATTR_MTIME`,
-- `FUSE_SET_ATTR_ATIME_NOW` and `FUSE_SET_ATTR_MTIME_NOW`
abbrev pub valid_bits : ℕ → ℕ
valid_bits valid = valid % 64 + valid / 128 % 4 * 128

-- the `struct fuse_file_lock` of a `struct fuse_lk_in`
abbrev pub file_lock_at : ℕ → Str → FileLock
file_lock_at off s = record {
  start = u64_at off s;
  end = u64_at (off + 8) s;
  type = u32_at (off + 16) s;
  lock_pid = u32_at (off + 20) s;
}

abbrev pub last_offset : ℕ
last_offset = 9223372036854775807

unfoldable pub convert_file_lock : FileLock → FlockBuf
convert_file_lock fl = record {
  fl_type = fl.type;
  fl_start = fl.start;
  fl_len = if fl.end == last_offset then 0 else (fl.end + 2 ^ 64 - fl.start + 1) % 2 ^ 64;
  fl_pid = fl.lock_pid;
}
