-- ===== src/Dir.antt =====
-- The directory buffer of an open directory: `struct fuse_dh`, `extend_contents`, `fill_dir`,
-- `readdir_fill` and `fuse_lib_readdir` of fuse-2.8.5/lib/fuse.c, with `fuse_dirent_size`,
-- `fuse_add_dirent` and `fuse_add_direntry` of fuse-2.8.5/lib/fuse_lowlevel.c. An
-- `unsigned` number wraps around at 2^32.
pub mod Read
pub mod Grow
pub mod Fill
pub mod Listing
pub mod Reply
pub mod Bounded
mod Tests
use fuse_nt.Prelude.{
  ℕ, zero, suc, ◌+◌, ◌-◌, ◌*◌, ◌/◌, ◌%◌, Bool, true, false, ◌&&◌, not, Option, none, some, List, [],
  ◌∷◌, ◌++◌, ltb, leb, ◌==◌, if◌then◌else◌, length, take, drop,
}
use fuse_nt.Prelude.Int.{ℤ, pos, negsuc, ◌==ℤ◌}
use fuse_nt.Prelude.Run.{Run, ok, err, abort, out_of_fuel, M, Cmd, ◌>>◌, ◌>>=◌, and_then}
use fuse_nt.Prelude.Memory.{Str, Mem, next_alloc}

-- `unsigned`
abbrev pub u32 : ℕ → ℕ
u32 n = n % 4294967296

-- the lowest bytes of a number, the lowest first
abbrev pub little_endian : ℕ → ℕ → List ℕ
little_endian zero n = []
little_endian (suc k) n = n % 256 ∷ little_endian k (n / 256)

abbrev pub zeros : ℕ → List ℕ
zeros zero = []
zeros (suc n) = 0 ∷ zeros n

-- what a directory entry tells of its file
pub record Stat : Type 0 where
  pub ino : ℕ
  pub mode : ℕ

-- `offsetof(struct fuse_dirent, name)`
abbrev pub name_offset : ℕ
name_offset = 24

-- up to a multiple of eight
unfoldable pub dirent_size : ℕ → ℕ
dirent_size namelen = (name_offset + namelen + 7) / 8 * 8

-- the bytes that `fuse_add_dirent` writes
unfoldable pub add_dirent : Str → Stat → ℕ → List ℕ
unfolding dirent_size
add_dirent name stbuf off =
    let namelen = u32 (length name) in
    let entlen = u32 (name_offset + namelen) in
    let entsize = u32 (dirent_size namelen) in
    little_endian 8 stbuf.ino
    ++ (little_endian 8 off
        ++ (little_endian 4 namelen
            ++ (little_endian 4 (stbuf.mode / 4096 % 16)
                ++ (take namelen name ++ zeros (u32 (entsize + 4294967296 - entlen))))))

-- the returned size, and what is written to a buffer that is there
unfoldable pub add_direntry : Bool → ℕ → Str → Stat → ℕ → ℕ × List ℕ
unfolding dirent_size add_dirent
add_direntry buf bufsize name stbuf off =
    let entsize = dirent_size (length name) in
    (entsize, if leb entsize bufsize && buf then add_dirent name stbuf off else [])

-- `contents` holds the bytes in front of `len`, `size` is the size of its block (0 for NULL), and
-- `enomem` tells whether `error` is -ENOMEM or 0.
pub record Dh : Type 0 where
  pub contents : List ℕ
  pub len : ℕ
  pub size : ℕ
  pub needlen : ℕ
  pub filled : Bool
  pub enomem : Bool

abbrev pub State : Type 0
State = Dh × Mem

-- the `while` of `extend_contents`
unfoldable pub grow : ℕ → ℕ → ℕ → Option ℕ
grow zero newsize minsize = none
grow (suc fuel) newsize minsize =
    let rest = grow fuel (if leb 2147483648 newsize then 4294967295 else newsize * 2) minsize in
    if ltb newsize minsize then rest else some newsize

abbrev pub extended : Option ℕ → Cmd State
extended none st = out_of_fuel
extended (some newsize) (dh, mem) =
    let (got, mem') = next_alloc mem in
    if got
    then ok tt (record dh { size = newsize }, mem')
    else err (record dh { enomem = true }, mem')

-- The size doubles from at least 1, so 33 rounds suffice.
unfoldable pub extend_contents : ℕ → Cmd State
extend_contents minsize (dh, mem) =
    if ltb dh.size minsize
    then extended (grow 33 (if dh.size == 0 then 1024 else dh.size) minsize) (dh, mem)
    else ok tt (dh, mem)

-- bytes written at `contents + len`, which must lie in the block
abbrev pub write_at_len : List ℕ → Cmd State
write_at_len bytes (dh, mem) =
    if leb (dh.len + length bytes) dh.size
    then ok tt (record dh { contents = take dh.len dh.contents ++ bytes }, mem)
    else abort

abbrev pub set_len : ℕ → M State Bool
set_len newlen (dh, mem) = ok false (record dh { len = u32 newlen }, mem)

abbrev pub set_unfilled : Cmd State
set_unfilled (dh, mem) = ok tt (record dh { filled = false }, mem)

-- `return 1` when a call returned -1
abbrev pub or_full : M State Bool → M State Bool
or_full m st = elim (m st) [
  | ok b st' ↦ ok b st'
  | err st' ↦ ok true st'
  | abort ↦ abort
  | out_of_fuel ↦ out_of_fuel
]

-- The configuration of the `struct fuse`, and `lookup_node` in the directory that is read.
pub record Names : Type 0 where
  pub use_ino : Bool
  pub readdir_ino : Bool
  pub child_ino : Str → Option ℕ

abbrev pub unknown_ino : ℕ
unknown_ino = 4294967295

abbrev pub node_ino : Option ℕ → ℕ
node_ino none = unknown_ino
node_ino (some n) = n

abbrev pub stat_or_empty : Option Stat → Stat
stat_or_empty none = record { ino = unknown_ino; mode = 0 }
stat_or_empty (some st) = st

-- `stbuf` as `fill_dir` completes it
unfoldable pub fill_stat : Names → Str → Option Stat → Stat
fill_stat names name statp =
    let stbuf = stat_or_empty statp in
    if names.use_ino then stbuf else record stbuf {
      ino = if names.readdir_ino then node_ino (names.child_ino name) else unknown_ino;
    }

-- an entry with an offset: it must fit into what the reader asked for
abbrev pub fill_at : Str → Stat → ℕ → M State Bool
fill_at name stbuf off (dh, mem) =
    let (entsize, bytes) =
      add_direntry (not (dh.size == 0)) (u32 (dh.needlen + 4294967296 - dh.len)) name stbuf off in
    if ltb dh.needlen (dh.len + entsize)
    then (write_at_len bytes >> (λ st. ok true st)) (dh, mem)
    else (write_at_len bytes >> set_len (dh.len + entsize)) (dh, mem)

-- an entry without: the buffer grows, and the entry's offset is the end of the entry
abbrev pub fill_end : Str → Stat → ℕ → M State Bool
fill_end name stbuf newlen (dh, mem) =
    let (_, bytes) = add_direntry true (u32 (dh.size + 4294967296 - dh.len)) name stbuf newlen in
    (write_at_len bytes >> set_len newlen) (dh, mem)

-- `true` for the return value 1, at which a file system has to stop
unfoldable pub fill_dir : Names → Str → Option Stat → ℕ → M State Bool
unfolding dirent_size
fill_dir names name statp off (dh, mem) =
    let stbuf = fill_stat names name statp in
    let newlen = dh.len + dirent_size (length name) in
    if not (off == 0)
    then or_full (extend_contents dh.needlen >> (set_unfilled >> fill_at name stbuf off)) (dh, mem)
    else or_full (extend_contents (u32 newlen) >> fill_end name stbuf newlen) (dh, mem)
