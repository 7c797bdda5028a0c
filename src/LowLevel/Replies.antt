-- ===== src/LowLevel/Replies.antt =====
-- The replies of a file system: `convert_stat`, `fill_entry`, `fill_open` and the functions
-- `fuse_reply_*` of fuse-2.8.5/lib/fuse_lowlevel.c. `reply_iov` and `reply_ioctl_iov` allocate.
use fuse_nt.Prelude.{
  ℕ, ◌+◌, ◌-◌, ◌*◌, ◌%◌, ◌^◌, Bool, true, false, ◌&&◌, List, [], ◌∷◌, ◌++◌, ltb, ◌==◌,
  if◌then◌else◌, length,
}
use fuse_nt.Prelude.Int.{ℤ, pos, negsuc}
use fuse_nt.Prelude.Run.{M}
use fuse_nt.Prelude.Memory.{Str, next_alloc}
use fuse_nt.LowLevel.{Ll, Env, read_req, send_reply_ok, send_reply_iov, reply_err, piece_if}
use fuse_nt.LowLevel.Messages.{
  StatBuf, FuseAttr, Timeout, EntryParam, EntryOut, OpenOut, FileInfo, StatVfs, FlockBuf, FileLock,
  Content, Piece, bytes, entry_out, create_out, attr_out, open_out, write_out, statfs_out,
  getxattr_out, lk_out, bmap_out, ioctl_out, iovecs, poll_out,
}

abbrev pub low32 : ℕ → ℕ
low32 n = n % 2 ^ 32

unfoldable pub convert_stat : StatBuf → FuseAttr
convert_stat stbuf = record {
  ino = stbuf.st_ino;
  size = stbuf.st_size;
  blocks = stbuf.st_blocks;
  atime = stbuf.st_atime;
  mtime = stbuf.st_mtime;
  ctime = stbuf.st_ctime;
  atimensec = low32 stbuf.st_atimensec;
  mtimensec = low32 stbuf.st_mtimensec;
  ctimensec = low32 stbuf.st_ctimensec;
  mode = low32 stbuf.st_mode;
  nlink = low32 stbuf.st_nlink;
  uid = low32 stbuf.st_uid;
  gid = low32 stbuf.st_gid;
  rdev = low32 stbuf.st_rdev;
  blksize = low32 stbuf.st_blksize;
}

unfoldable pub fill_entry : EntryParam → EntryOut
unfolding convert_stat
fill_entry e = record {
  nodeid = e.ino;
  out_generation = e.generation;
  entry_valid = e.entry_timeout;
  attr_valid = e.attr_timeout;
  out_attr = convert_stat e.attr;
}

abbrev flag : ℕ → Bool → ℕ
flag n b = if b then n else 0

-- FOPEN_DIRECT_IO, FOPEN_KEEP_CACHE and FOPEN_NONSEEKABLE
unfoldable pub fill_open : FileInfo → OpenOut
fill_open fi = record {
  out_fh = fi.fh;
  open_flags = flag 1 fi.direct_io + flag 2 fi.keep_cache + flag 4 fi.nonseekable;
}

abbrev pub enoent_code : ℤ
enoent_code = pos 2

abbrev pub minus_enomem : ℤ
minus_enomem = negsuc 11

-- with the compatible size before minor version 9
abbrev pub entry_size : ℕ → ℕ
entry_size minor = if ltb minor 9 then 120 else 128

abbrev pub attr_size : ℕ → ℕ
attr_size minor = if ltb minor 9 then 96 else 104

abbrev pub statfs_size : ℕ → ℕ
statfs_size minor = if ltb minor 4 then 48 else 80

-- `F_UNLCK`
abbrev pub f_unlck : ℕ
f_unlck = 2

abbrev pub end_of_lock : FlockBuf → ℕ
end_of_lock lock =
    if lock.fl_len == 0 then 2 ^ 63 - 1 else (lock.fl_start + lock.fl_len + 2 ^ 64 - 1) % 2 ^ 64

abbrev pub lk_reply : FlockBuf → FileLock
lk_reply lock = record {
  start = if lock.fl_type == f_unlck then 0 else lock.fl_start;
  end = if lock.fl_type == f_unlck then 0 else end_of_lock lock;
  type = lock.fl_type;
  lock_pid = lock.fl_pid;
}

abbrev pub sized : Content → ℕ → Piece
sized c n = record { base = c; iov_len = n }

-- `in_count` and `out_count` elements of `struct iovec`
abbrev pub iovec_pieces : ℕ → List Piece
iovec_pieces count = if count == 0 then [] else sized (iovecs count) (16 * count) ∷ []

module _ {D : Type 0} (env : Env D) where
  unfoldable pub reply_entry : ℕ → EntryParam → M (Ll D) ℤ
  unfolding fill_entry reply_err send_reply_ok
  reply_entry p e = read_req p λ _ f.
      if e.ino == 0 && ltb f.conn.proto_minor 4
      then reply_err env p enoent_code f
      else send_reply_ok env p (sized (entry_out (fill_entry e)) (entry_size f.conn.proto_minor)) f

  unfoldable pub reply_create : ℕ → EntryParam → FileInfo → M (Ll D) ℤ
  unfolding fill_entry fill_open send_reply_ok
  reply_create p e fi = read_req p λ _ f.
      send_reply_ok env p
        (sized (create_out (fill_entry e) (fill_open fi)) (entry_size f.conn.proto_minor + 16)) f

  unfoldable pub reply_attr : ℕ → StatBuf → Timeout → M (Ll D) ℤ
  unfolding convert_stat send_reply_ok
  reply_attr p attr timeout = read_req p λ _ f.
      send_reply_ok env p
        (sized (attr_out timeout (convert_stat attr)) (attr_size f.conn.proto_minor)) f

  unfoldable pub reply_readlink : ℕ → Str → M (Ll D) ℤ
  unfolding send_reply_ok
  reply_readlink p linkname = send_reply_ok env p (sized (bytes linkname) (length linkname))

  unfoldable pub reply_open : ℕ → FileInfo → M (Ll D) ℤ
  unfolding fill_open send_reply_ok
  reply_open p fi = send_reply_ok env p (sized (open_out (fill_open fi)) 16)

  unfoldable pub reply_write : ℕ → ℕ → M (Ll D) ℤ
  unfolding send_reply_ok
  reply_write p count = send_reply_ok env p (sized (write_out (low32 count)) 8)

  unfoldable pub reply_buf : ℕ → Str → M (Ll D) ℤ
  unfolding send_reply_ok
  reply_buf p buf = send_reply_ok env p (sized (bytes buf) (length buf))

  unfoldable pub reply_statfs : ℕ → StatVfs → M (Ll D) ℤ
  unfolding send_reply_ok
  reply_statfs p st =
      read_req p
        λ _ f. send_reply_ok env p (sized (statfs_out st) (statfs_size f.conn.proto_minor)) f

  unfoldable pub reply_xattr : ℕ → ℕ → M (Ll D) ℤ
  unfolding send_reply_ok
  reply_xattr p count = send_reply_ok env p (sized (getxattr_out (low32 count)) 8)

  unfoldable pub reply_lock : ℕ → FlockBuf → M (Ll D) ℤ
  unfolding send_reply_ok
  reply_lock p lock = send_reply_ok env p (sized (lk_out (lk_reply lock)) 24)

  unfoldable pub reply_bmap : ℕ → ℕ → M (Ll D) ℤ
  unfolding send_reply_ok
  reply_bmap p idx = send_reply_ok env p (sized (bmap_out idx) 8)

  unfoldable pub reply_ioctl_retry : ℕ → ℕ → ℕ → M (Ll D) ℤ
  unfolding send_reply_iov
  reply_ioctl_retry p in_count out_count = send_reply_iov env p (pos 0) (
      sized (ioctl_out (pos 0) 4 (low32 in_count) (low32 out_count)) 16
      ∷ (iovec_pieces in_count ++ iovec_pieces out_count))

  unfoldable pub reply_ioctl : ℕ → ℤ → Str → M (Ll D) ℤ
  unfolding send_reply_iov
  reply_ioctl p result buf =
      send_reply_iov env p (pos 0)
        (sized (ioctl_out result 0 0 0) 16 ∷ piece_if (sized (bytes buf) (length buf)))

  -- `malloc` of the padded vector, with what the code replies where it fails
  abbrev pub if_padded : ℕ → Bool → M (Ll D) ℤ → M (Ll D) ℤ
  if_padded p false k = reply_err env p minus_enomem
  if_padded p true k = k

  abbrev pub padded : ℕ → M (Ll D) ℤ → M (Ll D) ℤ
  padded p k f = let (got, mem') = next_alloc f.mem in if_padded p got k (record f { mem = mem' })

  unfoldable pub reply_iov : ℕ → List Piece → M (Ll D) ℤ
  unfolding send_reply_iov reply_err
  reply_iov p iov = padded p (send_reply_iov env p (pos 0) iov)

  unfoldable pub reply_ioctl_iov : ℕ → ℤ → List Piece → M (Ll D) ℤ
  unfolding send_reply_iov reply_err
  reply_ioctl_iov p result iov =
      padded p (send_reply_iov env p (pos 0) (sized (ioctl_out result 0 0 0) 16 ∷ iov))

  unfoldable pub reply_poll : ℕ → ℕ → M (Ll D) ℤ
  unfolding send_reply_ok
  reply_poll p revents = send_reply_ok env p (sized (poll_out revents) 8)
