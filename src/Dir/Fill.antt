-- ===== src/Dir/Fill.antt =====
-- The entries of a directory in its buffer: `fill_dir`, `readdir_fill` and `fuse_lib_readdir` of
-- fuse-2.8.5/lib/fuse.c.
use fuse_nt.Prelude.{
  ℕ, zero, suc, ◌+◌, ◌-◌, ◌/◌, ◌≤◌, ◌<◌, ◌≡◌, refl, Bool, true, false, arith, sym, le→leb, List,
  ◌++◌, Option, length, take, length-append, take-length, length-take,
}
use fuse_nt.Prelude.Run.{ok, err, M, Cmd, ◌>>◌}
use fuse_nt.Prelude.Memory.{Str, Mem, has_failure}
use fuse_nt.Dir.{
  or_full, write_at_len, fill_end, add_direntry, Stat, Dh, State, u32, zeros, little_endian,
  name_offset, dirent_size, add_dirent, Names, fill_stat, fill_dir, extend_contents,
}
use fuse_nt.Dir.Grow.{extended_to, no_memory, extend_contents-Extended}

pub length-little_endian : (k n : ℕ) → length (little_endian k n) ≡ k
length-little_endian zero n = refl
length-little_endian (suc k) n = omega (arith, length-little_endian k (n / 256))

pub length-zeros : (n : ℕ) → length (zeros n) ≡ n
length-zeros zero = refl
length-zeros (suc n) = omega (arith, length-zeros n)

-- a name of the length that a file system can have
abbrev pub IsName : Str → Type 0
IsName name = length name < 4096

-- an entry takes up the size that `fuse_dirent_size` gives
pub length-add_dirent :
    (name : Str) (stbuf : Stat) (off : ℕ)
    → IsName name
    → length (add_dirent name stbuf off) ≡ dirent_size (length name)
unfolding add_dirent dirent_size
length-add_dirent name stbuf off h =
    let a = length-little_endian in
    let n = u32 (length name) in
    let p = u32 (u32 (dirent_size n) + 4294967296 - u32 (name_offset + n)) in
    omega (arith, h, length-append (take n name) (zeros p), length-take n name, length-zeros p)

-- the buffer: `len` counts the bytes of `contents`, which lie in the block
pub record IsBuffer (dh : Dh) : Type 0 where
  pub counted : length dh.contents ≡ dh.len
  pub inside : dh.len ≤ dh.size
  pub bounded : dh.size < 4294967296

-- what one entry without an offset leaves
pub data Appended (names : Names) (name : Str) (statp : Option Stat) (dh : Dh) (mem : Mem)
    : Type 0 where
  appended :
      (size : ℕ) (mem' : Mem)
      → fill_dir names name statp 0 (dh, mem)
        ≡ ok false (
          record dh {
            contents =
                dh.contents
                ++ add_dirent name
                    (fill_stat names name statp)
                    (dh.len + dirent_size (length name));
            len = dh.len + dirent_size (length name);
            size = size;
          },
          mem',
        )
      → dh.len + dirent_size (length name) ≤ size
      → size < 4294967296
      → (has_failure mem' ≡ true → has_failure mem ≡ true)
      → Appended names name statp dh mem
  refused :
      (mem' : Mem)
      → fill_dir names name statp 0 (dh, mem) ≡ ok true (record dh { enomem = true }, mem')
      → has_failure mem ≡ true
      → Appended names name statp dh mem

pub u32_small : (n : ℕ) → n < 4294967296 → u32 n ≡ n
u32_small n h = omega arith

pub u32-minus : (a b : ℕ) → b ≤ a → a < 4294967296 → u32 (a + 4294967296 - b) ≡ a - b
u32-minus a b h ha = omega arith

pub add_direntry-fits :
    (bufsize : ℕ) (name : Str) (stbuf : Stat) (off : ℕ)
    → dirent_size (length name) ≤ bufsize
    → add_direntry true bufsize name stbuf off
      ≡ (dirent_size (length name), add_dirent name stbuf off)
unfolding add_direntry
add_direntry-fits bufsize name stbuf off h = rw (le→leb (dirent_size (length name)) bufsize h)

-- bytes that fit go behind those of the buffer
pub write_at_len-fits :
    (bytes : List ℕ) (dh : Dh) (mem : Mem)
    → length dh.contents ≡ dh.len
    → dh.len + length bytes ≤ dh.size
    → write_at_len bytes (dh, mem) ≡ ok tt (record dh { contents = dh.contents ++ bytes }, mem)
write_at_len-fits bytes dh mem e h =
    rw (le→leb (dh.len + length bytes) dh.size h, sym e, take-length dh.contents)

fill_end-fits :
    (name : Str) (stbuf : Stat) (dh : Dh) (mem : Mem)
    → length dh.contents ≡ dh.len
    → IsName name
    → dh.len + dirent_size (length name) ≤ dh.size
    → dh.size < 4294967296
    → fill_end name stbuf (dh.len + dirent_size (length name)) (dh, mem)
      ≡ ok false (
        record dh {
          contents = dh.contents ++ add_dirent name stbuf (dh.len + dirent_size (length name));
          len = dh.len + dirent_size (length name);
        },
        mem,
      )
fill_end-fits name stbuf dh mem e hn h hs =
    let bytes = add_dirent name stbuf (dh.len + dirent_size (length name)) in
    let l = length-add_dirent name stbuf (dh.len + dirent_size (length name)) hn in
    rw (
      u32-minus dh.size dh.len (omega arith) hs,
      add_direntry-fits (dh.size - dh.len) name stbuf (dh.len + dirent_size (length name))
          (omega arith),
      write_at_len-fits bytes dh mem e (omega arith),
      u32_small (dh.len + dirent_size (length name)) (omega arith),
    )

-- an entry whose space is there, or for which there is no memory
pub or_full-done :
    (m : Cmd State) (k : M State Bool) (st st' st'' : State) (b : Bool)
    → m st ≡ ok tt st'
    → k st' ≡ ok b st''
    → or_full (m >> k) st ≡ ok b st''
or_full-done m k st st' st'' b e e' = rw (or_full, e, e')

pub or_full-err :
    (m : Cmd State) (k : M State Bool) (st st' : State)
    → m st ≡ err st'
    → or_full (m >> k) st ≡ ok true st'
or_full-err m k st st' e = rw (or_full, e)

pub fill_dir-Appended :
    (names : Names) (name : Str) (statp : Option Stat) (dh : Dh) (mem : Mem)
    → IsBuffer dh
    → IsName name
    → dh.len + dirent_size (length name) < 4294967296
    → Appended names name statp dh mem
unfolding fill_dir
fill_dir-Appended names name statp dh mem b h hl =
    let newlen = dh.len + dirent_size (length name) in
    let stbuf = fill_stat names name statp in
    let m = extend_contents newlen in
    let k = fill_end name stbuf newlen in
    elim (extend_contents-Extended newlen dh mem hl b.bounded) [
      | extended_to size mem' e le _ lt q ↦
          let d = record dh { size = size } in
          let f = fill_end-fits name stbuf d mem' b.counted h le lt in
          appended size mem'
            (rw (u32_small newlen hl) (or_full-done m k (dh, mem) (d, mem') _ false e f)) le lt q
      | no_memory mem' e q ↦
          refused mem' (rw (u32_small newlen hl) (or_full-err m k (dh, mem) _ e)) q
    ]
