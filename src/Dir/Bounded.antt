-- ===== src/Dir/Bounded.antt =====
-- A directory that is read in parts, each entry with its offset: `fill_dir` and `readdir_fill` of
-- fuse-2.8.5/lib/fuse.c.
use fuse_nt.Prelude.{
  ℕ, ◌+◌, ◌-◌, ◌≤◌, ◌<◌, ◌≡◌, refl, Bool, true, false, not, ltb, ◌==◌, arith, ◌∙◌, Bool-cases,
  lt→ltb, ltb→lt, ge→ltb, ltb→ge, gt→leb, inl, inr, [], ◌++◌, Option, length, length-append,
  append-nil,
}
use fuse_nt.Prelude.Int.{ℤ}
use fuse_nt.Prelude.Run.{Run, ok, ◌>>◌}
use fuse_nt.Prelude.Memory.{Str, Mem}
use fuse_nt.Dir.{
  Stat, Dh, State, dirent_size, add_dirent, add_direntry, Names, fill_stat, fill_at, fill_dir,
  set_unfilled, extend_contents,
}
use fuse_nt.Dir.Grow.{extended_to, no_memory, extend_contents-Extended}
use fuse_nt.Dir.Fill.{
  IsName, length-add_dirent, or_full-done, or_full-err, u32_small, u32-minus, add_direntry-fits,
  write_at_len-fits,
}
use fuse_nt.Dir.Read.{Program, return, offer, run_readdir}

-- Every entry has an offset; whatever the filler returned, the program may go on.
pub data HasOffsets : Program → Type 0 where
  returns : (r : ℤ) → HasOffsets (return r)
  offers :
      (name : Str) (statp : Option Stat) (off : ℕ) (next : Bool → Program)
      → (off == 0) ≡ false
      → IsName name
      → ((full : Bool) → HasOffsets (next full))
      → HasOffsets (offer name statp off next)

-- `len` counts the bytes, and they are at most what the reader asked for
pub record IsPart (dh : Dh) : Type 0 where
  pub counted : length dh.contents ≡ dh.len
  pub asked : dh.len ≤ dh.needlen
  pub size_bounded : dh.size < 4294967296
  pub needlen_bounded : dh.needlen < 4294967296

-- what is returned with a buffer that is a part again, for the same reader
abbrev Part : {A : Type 0} → Run State A → ℕ → Type 0
Part {A = A} run needlen =
    (a : A) × (dh : Dh) × (mem : Mem) × (run ≡ ok a (dh, mem)) × IsPart dh × (dh.needlen ≡ needlen)

add_direntry-omits :
    (buf : Bool) (bufsize : ℕ) (name : Str) (stbuf : Stat) (off : ℕ)
    → bufsize < dirent_size (length name)
    → add_direntry buf bufsize name stbuf off ≡ (dirent_size (length name), [])
unfolding add_direntry
add_direntry-omits buf bufsize name stbuf off h = rw (gt→leb (dirent_size (length name)) bufsize h)

fill_at-fits :
    (name : Str) (stbuf : Stat) (off : ℕ) (dh : Dh) (mem : Mem)
    → IsPart dh
    → IsName name
    → dh.needlen ≤ dh.size
    → dh.len + dirent_size (length name) ≤ dh.needlen
    → (dh.size == 0) ≡ false
    → fill_at name stbuf off (dh, mem)
      ≡ ok false (
        record dh {
          contents = dh.contents ++ add_dirent name stbuf off;
          len = dh.len + dirent_size (length name);
        },
        mem,
      )
fill_at-fits name stbuf off dh mem p hn hs h z =
    let bytes = add_dirent name stbuf off in
    let n = dirent_size (length name) in
    let l = length-add_dirent name stbuf off hn in
    rw (
      u32-minus dh.needlen dh.len p.asked p.needlen_bounded,
      z,
      add_direntry-fits (dh.needlen - dh.len) name stbuf off (omega arith),
      ge→ltb dh.needlen (dh.len + n) h,
      write_at_len-fits bytes dh mem p.counted (omega arith),
      u32_small (dh.len + n) (omega arith),
    )

fill_at-omits :
    (name : Str) (stbuf : Stat) (off : ℕ) (dh : Dh) (mem : Mem)
    → IsPart dh
    → dh.needlen ≤ dh.size
    → dh.needlen < dh.len + dirent_size (length name)
    → fill_at name stbuf off (dh, mem) ≡ ok true (dh, mem)
fill_at-omits name stbuf off dh mem p hs h =
    let n = dirent_size (length name) in
    rw (
      u32-minus dh.needlen dh.len p.asked p.needlen_bounded,
      add_direntry-omits (not (dh.size == 0)) (dh.needlen - dh.len) name stbuf off (omega arith),
      lt→ltb dh.needlen (dh.len + n) h,
      write_at_len-fits [] dh mem p.counted (omega arith),
      append-nil dh.contents,
    )

not_empty : (name : Str) (size : ℕ) → dirent_size (length name) ≤ size → (size == 0) ≡ false
unfolding dirent_size
not_empty name size h = ground arith

fill_at-Part :
    (name : Str) (stbuf : Stat) (off : ℕ) (dh : Dh) (mem : Mem)
    → IsPart dh
    → IsName name
    → dh.needlen ≤ dh.size
    → Part (fill_at name stbuf off (dh, mem)) dh.needlen
fill_at-Part name stbuf off dh mem p hn hs =
    let n = dirent_size (length name) in
    elim (Bool-cases (ltb dh.needlen (dh.len + n))) [
      | inl e ↦ (true, dh, mem, fill_at-omits name stbuf off dh mem p hs (ltb→lt _ _ e), p, refl)
      | inr e ↦ (
        false,
        record dh { contents = dh.contents ++ add_dirent name stbuf off; len = dh.len + n },
        mem,
        fill_at-fits name stbuf off dh mem p hn hs (ltb→ge _ _ e)
            (not_empty name dh.size (omega (arith, ltb→ge _ _ e))),
        record {
          counted = omega (
            arith,
            length-append dh.contents (add_dirent name stbuf off),
            length-add_dirent name stbuf off hn,
            p.counted,
          );
          asked = ltb→ge _ _ e;
          size_bounded = p.size_bounded;
          needlen_bounded = p.needlen_bounded;
        },
        refl,
      )
    ]

fill_dir-Part :
    (names : Names) (name : Str) (statp : Option Stat) (off : ℕ) (dh : Dh) (mem : Mem)
    → (off == 0) ≡ false
    → IsPart dh
    → IsName name
    → Part (fill_dir names name statp off (dh, mem)) dh.needlen
unfolding fill_dir
fill_dir-Part names name statp off dh mem z p hn =
    let stbuf = fill_stat names name statp in
    let m = extend_contents dh.needlen in
    let k = set_unfilled >> fill_at name stbuf off in
    elim (extend_contents-Extended dh.needlen dh mem p.needlen_bounded p.size_bounded) [
      | no_memory mem' e q ↦ (
        true,
        record dh { enomem = true },
        mem',
        rw (z) (or_full-err m k (dh, mem) _ e),
        record {
          counted = p.counted;
          asked = p.asked;
          size_bounded = p.size_bounded;
          needlen_bounded = p.needlen_bounded;
        },
        refl,
      )
      | extended_to size mem' e le _ lt q ↦
          let d = record dh { size = size; filled = false } in
          let part : IsPart d = record {
            counted = p.counted;
            asked = p.asked;
            size_bounded = lt;
            needlen_bounded = p.needlen_bounded;
          } in
          let (full, dh', mem'', e', p', n') = fill_at-Part name stbuf off d mem' part hn le in
          (full, dh', mem'', rw (z) (or_full-done m k (dh, mem) _ (dh', mem'') full e e'), p', n')
    ]

-- Whatever a file system offers with offsets, and whether memory is there or not, its run ends, no
-- byte is written outside the buffer, and `len` stays within what the reader asked for, if it
-- is so at first. The names are shorter than 4096 bytes and the sizes below 2^32.
pub run_readdir-Part :
    (names : Names) (program : Program) (dh : Dh) (mem : Mem)
    → HasOffsets program
    → IsPart dh
    → (r : ℤ) × (dh' : Dh) × (mem' : Mem) × (run_readdir names program (dh, mem) ≡ ok r (dh', mem'))
      × IsPart dh'
      × (dh'.needlen ≡ dh.needlen)
unfolding run_readdir
run_readdir-Part names (return r) dh mem h p = (r, dh, mem, refl, p, refl)
run_readdir-Part names (offer name statp off next) dh mem (offers _ _ _ _ z hn h) p =
    let (full, dh1, mem1, e, p1, n1) = fill_dir-Part names name statp off dh mem z p hn in
    let (r, dh2, mem2, e', p2, n2) = run_readdir-Part names (next full) dh1 mem1 (h full) p1 in
    (r, dh2, mem2, rw (e, e'), p2, n2 ∙ n1)
