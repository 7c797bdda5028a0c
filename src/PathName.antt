-- ===== src/PathName.antt =====
-- `add_name` of fuse-2.8.5/lib/fuse.c: a path is written from its end, into a buffer that grows.
-- `offset` is `s - *buf`. The bytes that `realloc` adds are unspecified, a parameter.
pub mod Added
pub mod Tests
use fuse_nt.Prelude.{
  ℕ, ◌+◌, ◌-◌, Option, none, some, List, [], ◌∷◌, ◌++◌, leb, if◌then◌else◌, length, take, drop,
}
use fuse_nt.Prelude.Run.{Run, ok, err, out_of_fuel, M, Cmd, ◌>>◌, and_then, skip}
use fuse_nt.Prelude.Memory.{Str, Mem, next_alloc}
use fuse_nt.Dir.{grow}

pub record PathBuf : Type 0 where
  pub block : List ℕ
  pub bufsize : ℕ
  pub offset : ℕ

abbrev pub PathState : Type 0
PathState = PathBuf × Mem

-- bytes copied into the block
abbrev pub write_at : ℕ → List ℕ → List ℕ → List ℕ
write_at off bytes block = take off block ++ (bytes ++ drop (off + length bytes) block)

-- the block after `realloc`
abbrev pub reallocated : (ℕ → List ℕ) → ℕ → PathBuf → List ℕ
reallocated junk newbufsize b = b.block ++ junk (newbufsize - b.bufsize)

-- the path at the end of the new block, after `memmove`
abbrev pub move_path : (ℕ → List ℕ) → ℕ → ℕ → PathBuf → PathBuf
move_path junk newbufsize pathlen b =
    let newbuf = reallocated junk newbufsize b in
    let s = newbufsize - pathlen in
    record {
      block = write_at s (take pathlen (drop (b.bufsize - pathlen) newbuf)) newbuf;
      bufsize = newbufsize;
      offset = s;
    }

abbrev pub make_room : (ℕ → List ℕ) → ℕ → Option ℕ → Cmd PathState
make_room junk pathlen none st = out_of_fuel
make_room junk pathlen (some newbufsize) (b, mem) =
    let (got, mem') = next_alloc mem in
    if got then ok tt (move_path junk newbufsize pathlen b, mem') else err (b, mem')

abbrev pub slash_char : ℕ
slash_char = b'/'

abbrev pub write_name : Str → Cmd PathState
write_name name (b, mem) =
    let s = b.offset - length name in
    ok tt (
      record b {
        block = write_at (s - 1) (slash_char ∷ []) (write_at s name b.block);
        offset = s - 1;
      },
      mem,
    )

-- `return NULL` without memory is `err`. The loop is the `grow` of `extend_contents`; it doubles from at least 1, so 33 rounds suffice.
unfoldable pub add_name : (ℕ → List ℕ) → Str → Cmd PathState
add_name junk name (b, mem) =
    let pathlen = b.bufsize - b.offset in
    if leb b.offset (length name)
    then (make_room junk pathlen (grow 33 b.bufsize (pathlen + length name + 1)) >> write_name name)
        (b, mem)
    else write_name name (b, mem)
