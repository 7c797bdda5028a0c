-- ===== src/PathName/Added.antt =====
-- What `add_name` of fuse-2.8.5/lib/fuse.c leaves in the buffer.
use fuse_nt.Prelude.{
  ℕ, zero, suc, ◌+◌, ◌-◌, ◌≤◌, ◌<◌, ◌≡◌, refl, ap, ◌∙◌, true, List, [], ◌∷◌, ◌++◌, leb, length,
  take, drop, arith, Bool-cases, inl, inr, length-append, length-drop,
}
use mathlib.Core.List.{append-nil}
use fuse_nt.Prelude.Run.{ok, err}
use fuse_nt.Prelude.Memory.{Str, Mem, next_alloc, has_failure, has_failure-now}
use fuse_nt.Dir.Grow.{grow-some}
use fuse_nt.PathName.{PathBuf, write_at, move_path, reallocated, add_name, slash_char}

-- the block has the size, and the closing 0 lies behind the path
pub record IsBuf (b : PathBuf) : Type 0 where
  pub has_size : length b.block ≡ b.bufsize
  pub inside : b.offset < b.bufsize
  pub fits : b.bufsize < 4294967296

drop-append_front : (k : ℕ) (xs ys : List ℕ) → k ≤ length xs → drop k (xs ++ ys) ≡ drop k xs ++ ys
drop-append_front zero xs ys h = refl
drop-append_front (suc k) [] ys h = absurd (omega arith)
drop-append_front (suc k) (x ∷ xs) ys h = drop-append_front k xs ys (omega arith)

drop_all : (k : ℕ) (xs : List ℕ) → length xs ≤ k → drop k xs ≡ []
drop_all zero [] h = refl
drop_all zero (x ∷ xs) h = absurd (omega arith)
drop_all (suc k) [] h = refl
drop_all (suc k) (x ∷ xs) h = drop_all k xs (omega arith)

take-append_front : (k : ℕ) (xs ys : List ℕ) → length xs ≡ k → take k (xs ++ ys) ≡ xs
take-append_front zero [] ys h = refl
take-append_front zero (x ∷ xs) ys h = absurd (omega arith)
take-append_front (suc k) [] ys h = absurd (omega arith)
take-append_front (suc k) (x ∷ xs) ys h =
    ap (λ zs. x ∷ zs) (take-append_front k xs ys (omega arith))

drop-append_back : (k : ℕ) (xs ys : List ℕ) → length xs ≡ k → drop k (xs ++ ys) ≡ ys
drop-append_back zero [] ys h = refl
drop-append_back zero (x ∷ xs) ys h = absurd (omega arith)
drop-append_back (suc k) [] ys h = absurd (omega arith)
drop-append_back (suc k) (x ∷ xs) ys h = drop-append_back k xs ys (omega arith)

length-take_front : (k : ℕ) (xs : List ℕ) → k ≤ length xs → length (take k xs) ≡ k
length-take_front zero xs h = refl
length-take_front (suc k) [] h = absurd (omega arith)
length-take_front (suc k) (x ∷ xs) h = ap suc (length-take_front k xs (omega arith))

drop-write_at :
    (off : ℕ) (bytes block : List ℕ)
    → off ≤ length block
    → drop off (write_at off bytes block) ≡ bytes ++ drop (off + length bytes) block
drop-write_at off bytes block h =
    drop-append_back off (take off block) _ (length-take_front off block h)

length-write_at :
    (off : ℕ) (bytes block : List ℕ)
    → off + length bytes ≤ length block
    → length (write_at off bytes block) ≡ length block
length-write_at off bytes block h =
    let a = length-append (take off block) (bytes ++ drop (off + length bytes) block) in
    let b = length-append bytes (drop (off + length bytes) block) in
    let c = length-take_front off block (omega arith) in
    let d = length-drop (off + length bytes) block in omega arith

-- the name in front of what was there
abbrev with_name : Str → PathBuf → PathBuf
with_name name b =
    let s = b.offset - length name in
    record b {
      block = write_at (s - 1) (slash_char ∷ []) (write_at s name b.block);
      offset = s - 1;
    }

with_name-IsBuf :
    (name : Str) (b : PathBuf) → length name < b.offset → IsBuf b → IsBuf (with_name name b)
with_name-IsBuf name b h v =
    let s = b.offset - length name in
    let a = v.has_size in
    let i = v.inside in
    let e = length-write_at s name b.block (omega arith) in
    let e' = length-write_at (s - 1) (slash_char ∷ []) (write_at s name b.block) (ground arith) in
    record { has_size = e' ∙ (e ∙ a); inside = omega arith; fits = v.fits }

with_name-path :
    (name : Str) (b : PathBuf)
    → length name < b.offset
    → IsBuf b
    → drop (with_name name b).offset (with_name name b).block
      ≡ slash_char ∷ (name ++ drop b.offset b.block)
with_name-path name b h v =
    let s = b.offset - length name in
    let a = v.has_size in
    let i = v.inside in
    let e = length-write_at s name b.block (omega arith) in
    let o : s - 1 + 1 ≡ s = omega arith in
    let o' : s + length name ≡ b.offset = omega arith in
    drop-write_at (s - 1) (slash_char ∷ []) (write_at s name b.block) (omega arith)
    ∙ ap (λ k. slash_char ∷ drop k (write_at s name b.block)) o
    ∙ ap (λ xs. slash_char ∷ xs) (drop-write_at s name b.block (omega arith))
    ∙ ap (λ k. slash_char ∷ (name ++ drop k b.block)) o'

module _ (junk : ℕ → List ℕ) (whole : (n : ℕ) → length (junk n) ≡ n) (b : PathBuf)
    (v : IsBuf b) where
  -- The block grows, and the path moves to its end.
  module _ (size : ℕ) (h : b.bufsize ≤ size) (h' : size < 4294967296) where
    abbrev pathlen : ℕ
    pathlen = b.bufsize - b.offset

    length-reallocated : length (reallocated junk size b) ≡ size
    length-reallocated =
        let a = length-append b.block (junk (size - b.bufsize)) in
        let w = whole (size - b.bufsize) in let z = v.has_size in omega arith

    path_moved :
        take pathlen (drop (b.bufsize - pathlen) (reallocated junk size b)) ≡ drop b.offset b.block
    path_moved =
        let i = v.inside in
        let z = v.has_size in
        let o : b.bufsize - pathlen ≡ b.offset = omega arith in
        ap (λ k. take pathlen (drop k (reallocated junk size b))) o
        ∙ ap (take pathlen)
            (drop-append_front b.offset b.block (junk (size - b.bufsize)) (omega arith))
        ∙ take-append_front pathlen (drop b.offset b.block) (junk (size - b.bufsize))
            (length-drop b.offset b.block ∙ ap (λ k. k - b.offset) z)

    length-path :
        length (take pathlen (drop (b.bufsize - pathlen) (reallocated junk size b))) ≡ pathlen
    length-path =
        ap length path_moved ∙ (length-drop b.offset b.block ∙ ap (λ k. k - b.offset) v.has_size)

    move_path-IsBuf : IsBuf (move_path junk size pathlen b)
    move_path-IsBuf =
        let l = length-path in
        let i = v.inside in
        let r = length-reallocated in
        record {
          has_size = length-write_at (size - pathlen) _ (reallocated junk size b) (omega arith) ∙ r;
          inside = omega arith;
          fits = h';
        }

    move_path-path :
        drop (move_path junk size pathlen b).offset (move_path junk size pathlen b).block
        ≡ drop b.offset b.block
    move_path-path =
        let l = length-path in
        let i = v.inside in
        let r = length-reallocated in
        drop-write_at (size - pathlen) _ (reallocated junk size b) (omega arith)
        ∙ ap (λ xs. take pathlen (drop (b.bufsize - pathlen) (reallocated junk size b)) ++ xs)
            (drop_all _ (reallocated junk size b) (omega arith))
        ∙ append-nil _
        ∙ path_moved

  -- what `add_name` does
  pub data Added (name : Str) (mem : Mem) : Type 0 where
    added :
        (b' : PathBuf) (mem' : Mem)
        → add_name junk name (b, mem) ≡ ok tt (b', mem')
        → IsBuf b'
        → drop b'.offset b'.block ≡ slash_char ∷ (name ++ drop b.offset b.block)
        → Added name mem
    no_memory :
        (mem' : Mem)
        → add_name junk name (b, mem) ≡ err (b, mem')
        → has_failure mem ≡ true
        → Added name mem

  -- For a buffer whose block has its size, with the path inside, and a name with which the path
  -- stays below 2^32 bytes, `add_name` always returns. Either the buffer then holds '/', the name
  -- and the old path with its closing 0, all inside its block, or an allocation has failed and the
  -- buffer is as it was. What `realloc` leaves in the new bytes makes no difference.
  pub add_name-Added :
      (name : Str) (mem : Mem)
      → b.bufsize - b.offset + length name + 1 < 4294967296
      → Added name mem
  unfolding add_name
  add_name-Added name mem h = elim (Bool-cases (leb b.offset (length name))) [
    | inr e ↦
        let l : length name < b.offset = ground arith in
        added (with_name name b) mem (rw e refl) (with_name-IsBuf name b l v)
          (with_name-path name b l v)
    | inl e ↦
        let i = v.inside in
        let (size, g, x, y, z) =
          grow-some b.bufsize (b.bufsize - b.offset + length name + 1) (omega arith) v.fits h in
        let c = move_path junk size (b.bufsize - b.offset) b in
        let l : length name < c.offset = omega arith in
        let w = move_path-IsBuf size y z in
        elim (Bool-cases (next_alloc mem).0) [
          | inl a ↦
              added (with_name name c) (next_alloc mem).1 (rw (e, g, a) refl)
                (with_name-IsBuf name c l w)
                (with_name-path name c l w
                  ∙ ap (λ xs. slash_char ∷ (name ++ xs)) (move_path-path size y z))
          | inr a ↦ no_memory (next_alloc mem).1 (rw (e, g, a) refl) (has_failure-now mem a)
        ]
  ]
