-- ===== src/Dir/Reply.antt =====
-- What `fuse_lib_readdir` of fuse-2.8.5/lib/fuse.c replies of a directory that is read as a whole.
use fuse_nt.Prelude.{
  ℕ, zero, suc, ◌+◌, ◌-◌, ◌≤◌, ◌<◌, ◌≡◌, refl, true, false, ltb, ◌==◌, arith, sym, ap, ◌∙◌,
  Bool-cases, inl, inr, List, [], ◌∷◌, ◌++◌, Option, none, length, take, drop, length-append,
  length-drop, append_assoc, drop-append,
}
use fuse_nt.Prelude.Int.{ℤ, pos}
use fuse_nt.Prelude.Run.{ok}
use fuse_nt.Prelude.Memory.{Mem, has_failure}
use fuse_nt.Dir.{Dh, State, u32, dirent_size, add_dirent, Names, fill_stat}
use fuse_nt.Dir.Fill.{length-add_dirent}
use fuse_nt.Dir.Listing.{
  Entry, listing, total, packed, AreNames, complete, incomplete, listing-Listed, plus_assoc,
}
use fuse_nt.Dir.Read.{
  Program, reply_err, reply_buf, slice, reply_from, rewound, reply_filled, start_fill, enomem_code,
  readdir_fill, lib_readdir,
}

-- the buffer that holds these entries
pub record IsRead (names : Names) (xs : List Entry) (dh : Dh) : Type 0 where
  pub bytes : dh.contents ≡ packed names 0 xs
  pub counted : dh.len ≡ total xs
  pub is_filled : dh.filled ≡ true

AreNames-front : (xs ys : List Entry) → AreNames (xs ++ ys) → AreNames xs
AreNames-front [] ys h = tt
AreNames-front (x ∷ xs) ys h = (h.0, AreNames-front xs ys h.1)

length-packed :
    (names : Names) (at : ℕ) (xs : List Entry)
    → AreNames xs
    → length (packed names at xs) ≡ total xs
length-packed names at [] h = refl
length-packed names at ((name, statp) ∷ xs) h =
    let next = at + dirent_size (length name) in
    let bytes = add_dirent name (fill_stat names name statp) next in
    omega (
      arith,
      length-append bytes (packed names next xs),
      length-add_dirent name (fill_stat names name statp) next h.0,
      length-packed names next xs h.1,
    )

packed-append :
    (names : Names) (at : ℕ) (xs ys : List Entry)
    → packed names at (xs ++ ys) ≡ packed names at xs ++ packed names (at + total xs) ys
packed-append names at [] ys = ap (λ n. packed names n ys) (omega arith)
packed-append names at ((name, statp) ∷ xs) ys =
    let n = dirent_size (length name) in
    let a = add_dirent name (fill_stat names name statp) (at + n) in
    let p = packed names (at + n) xs in
    ap (λ t. a ++ t) (packed-append names (at + n) xs ys)
    ∙ sym (append_assoc a p (packed names (at + n + total xs) ys))
    ∙ ap (λ k. (a ++ p) ++ packed names k ys) (plus_assoc at n (total xs))

take_all : {A : Type 0} (n : ℕ) (xs : List A) → length xs ≤ n → take n xs ≡ xs
take_all zero [] h = refl
take_all zero (x ∷ xs) h = absurd (omega arith)
take_all (suc n) [] h = refl
take_all (suc n) (x ∷ xs) h = ap (λ t. x ∷ t) (take_all n xs (omega arith))

drop_all : {A : Type 0} (n : ℕ) (xs : List A) → length xs ≤ n → drop n xs ≡ []
drop_all zero [] h = refl
drop_all zero (x ∷ xs) h = absurd (omega arith)
drop_all (suc n) [] h = refl
drop_all (suc n) (x ∷ xs) h = drop_all n xs (omega arith)

take_nil : {A : Type 0} (n : ℕ) → take {A = A} n [] ≡ []
take_nil zero = refl
take_nil (suc n) = refl

-- The reply from a filled buffer is the slice, clipped at its end.
reply_from-slice :
    (size off : ℕ) (dh : Dh)
    → length dh.contents ≡ dh.len
    → dh.filled ≡ true
    → reply_from size off dh ≡ reply_buf (slice off size dh.contents)
unfolding reply_from
reply_from-slice size off dh e f = elim (Bool-cases (ltb off dh.len)) [
  | inr h ↦ rw (f, h, drop_all off dh.contents (ground arith), take_nil {A = ℕ} size)
  | inl h ↦ elim (Bool-cases (ltb dh.len (off + size))) [
    | inr h' ↦ rw (f, h, h')
    | inl h' ↦
        let l = length-drop off dh.contents in
        rw (
          f,
          h,
          h',
          take_all (dh.len - off) (drop off dh.contents) (omega (arith, l, e)),
          take_all size (drop off dh.contents) (ground (arith, l, e)),
        )
  ]
]

-- the two ways in which a reading request for a directory ends
pub data Answered (names : Names) (xs : List Entry) (size off : ℕ) (dh : Dh) (mem : Mem)
    : Type 0 where
  replied :
      (dh' : Dh) (mem' : Mem)
      → lib_readdir names none (listing xs) size off (dh, mem)
        ≡ ok (reply_buf (slice off size (packed names 0 xs))) (dh', mem')
      → IsRead names xs dh'
      → Answered names xs size off dh mem
  out_of_memory :
      (dh' : Dh) (mem' : Mem)
      → lib_readdir names none (listing xs) size off (dh, mem)
        ≡ ok (reply_err enomem_code) (dh', mem')
      → dh'.filled ≡ false
      → has_failure mem ≡ true
      → Answered names xs size off dh mem

rewound-later : (off : ℕ) (dh : Dh) → 1 ≤ off → rewound off dh ≡ dh
rewound-later off dh h = elim (Bool-cases (off == 0)) [
  | inl e ↦ absurd (ground arith)
  | inr e ↦ rw e
]

lib_readdir-fresh :
    (names : Names) (path : Option ℤ) (program : Program) (size off : ℕ) (dh : Dh) (mem : Mem)
    (r : ℤ) (st : State)
    → (rewound off dh).filled ≡ false
    → readdir_fill names path program size (rewound off dh, mem) ≡ ok r st
    → lib_readdir names path program size off (dh, mem) ≡ reply_filled size off r st
unfolding lib_readdir
lib_readdir-fresh names path program size off dh mem r st f e = rw (lib_readdir, f, e)

lib_readdir-kept :
    (names : Names) (path : Option ℤ) (program : Program) (size off : ℕ) (dh : Dh) (mem : Mem)
    → (rewound off dh).filled ≡ true
    → lib_readdir names path program size off (dh, mem)
      ≡ ok (reply_from size off (rewound off dh)) (rewound off dh, mem)
unfolding lib_readdir
lib_readdir-kept names path program size off dh mem f = rw (lib_readdir, f)

-- the buffer behind a listing that was read from its beginning
abbrev read_buffer : Names → List Entry → ℕ → ℕ → Dh
read_buffer names xs size needlen = record {
  contents = packed names 0 xs;
  len = 0 + total xs;
  size = size;
  needlen = needlen;
  filled = true;
  enomem = false;
}

-- A directory that is not in the buffer, or is rewound, is read as a whole; the reply is the part
-- of its entries that was asked for. Only a failed allocation gives -ENOMEM instead, and then
-- the next request reads the directory again. The path resolves, the block of the buffer has
-- less than 2^32 bytes, the names are shorter than 4096 bytes, and the
-- entries take up less than 2^32 bytes.
pub lib_readdir-Answered :
    (names : Names) (xs : List Entry) (size off : ℕ) (dh : Dh) (mem : Mem)
    → AreNames xs
    → total xs < 4294967296
    → dh.size < 4294967296
    → (rewound off dh).filled ≡ false
    → Answered names xs size off dh mem
unfolding readdir_fill
lib_readdir-Answered names xs size off dh mem h ht hs hf =
    elim (listing-Listed names xs (start_fill size (rewound off dh)) mem
      (record { counted = refl; inside = omega arith; bounded = ground arith }) h (omega arith)) [
        | complete size' mem' e ↦
            let d = read_buffer names xs size' (u32 size) in
            replied d mem'
              (lib_readdir-fresh names none (listing xs) size off dh mem (pos 0) (d, mem') hf (rw e)
                ∙ ap (λ x. ok x (d, mem'))
                    (reply_from-slice size off d (omega (arith, length-packed names 0 xs h)) refl))
              (record { bytes = refl; counted = omega arith; is_filled = refl })
        | incomplete dh' mem' e en q ↦
            out_of_memory (record dh' { filled = false }) mem'
              (lib_readdir-fresh names none (listing xs) size off dh mem enomem_code
                (record dh' { filled = false }, mem') hf (rw (e, en)))
              refl q
      ]

-- The next request starts where a reply ended: if the buffer holds `xs` and then `ys`, a request
-- from the offset of the last of `xs` gets `ys`, up to its size, and leaves the buffer as it is.
-- There is an entry in `xs`, and the names are shorter than 4096 bytes.
pub lib_readdir_continues :
    (names : Names) (xs ys : List Entry) (size : ℕ) (path : Option ℤ) (program : Program) (dh : Dh)
    (mem : Mem)
    → AreNames (xs ++ ys)
    → 1 ≤ total xs
    → IsRead names (xs ++ ys) dh
    → lib_readdir names path program size (total xs) (dh, mem)
      ≡ ok (reply_buf (take size (packed names (total xs) ys))) (dh, mem)
lib_readdir_continues names xs ys size path program dh mem h ht r =
    let off = total xs in
    let same = rewound-later off dh ht in
    let a = packed names 0 xs in
    let l = length-packed names 0 (xs ++ ys) h in
    lib_readdir-kept names path program size off dh mem (ap (λ d. d.filled) same ∙ r.is_filled)
    ∙ ap (λ d. ok (reply_from size off d) (d, mem)) same
    ∙ ap (λ x. ok x (dh, mem))
        (reply_from-slice size off dh (ap length r.bytes ∙ l ∙ sym r.counted) r.is_filled
          ∙ ap (λ b. reply_buf (slice off size b)) (r.bytes ∙ packed-append names 0 xs ys)
          ∙ ap (λ b. reply_buf (take size b))
              (ap (λ n. drop n (a ++ packed names (0 + off) ys))
                  (sym (length-packed names 0 xs (AreNames-front xs ys h)))
                ∙ drop-append a (packed names (0 + off) ys)
                ∙ ap (λ k. packed names k ys) (omega arith)))
