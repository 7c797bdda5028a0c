-- ===== src/Opt/Insert.antt =====
-- `fuse_opt_add_arg` and `fuse_opt_insert_arg` on arguments that own their memory, on every outcome
-- of the two allocations.
use fuse_nt.Prelude.{
  ℕ, zero, suc, ◌+◌, ◌-◌, ◌≤◌, ◌≡◌, refl, ap, true, false, some, List, [], ◌∷◌, ◌++◌, leb, ◌==◌,
  if◌then◌else◌, take, drop, get_elem?, length, length-append, take-length, take-append, arith,
  Bool-cases, inl, inr, length-take, length-drop,
}
use fuse_nt.Prelude.Run.{Run, ok, err, Cmd, and_then}
use fuse_nt.Opt.Args.{
  Str, Mem, next_alloc, array, stale, FuseArgs, add_arg, move_last, place_last, insert_arg,
}

-- the allocated array of the strings `xs`
abbrev pub owned : List Str → FuseArgs
owned xs = record { argc = length xs; argv = array xs; allocated = true }

-- What an attempt to turn `xs` into `ys` gives, by the outcomes of `realloc` and `strdup`: the new
-- arguments, the old address of memory given back, or the old arguments.
abbrev pub attempt : List Str → List Str → Mem → Run (FuseArgs × Mem) (Unit {0})
attempt xs ys mem =
    let (grown, mem') = next_alloc mem in
    let (copied, mem'') = next_alloc mem' in
    if grown
    then (if copied
        then ok tt (owned ys, mem'')
        else err (record { argc = length xs; argv = stale; allocated = true }, mem''))
    else err (owned xs, mem')

pub add_arg-attempt :
    (xs : List Str) (arg : Str) (mem : Mem)
    → add_arg arg (owned xs, mem) ≡ attempt xs (xs ++ arg ∷ []) mem
unfolding add_arg
add_arg-attempt xs arg mem =
    let grow : length (xs ++ arg ∷ []) ≡ length xs + 1 = length-append xs (arg ∷ []) in
    rw (grow, take-length xs) refl

pub get_elem?-last :
    {A : Type 0} (xs : List A) (x : A) → get_elem? (xs ++ x ∷ []) (length xs) ≡ some x
get_elem?-last [] x = refl
get_elem?-last (y ∷ xs) x = get_elem?-last xs x

-- the block that `memmove` moves
between :
    {A : Type 0} (pos : ℕ) (xs : List A) (x : A)
    → pos ≤ length xs
    → take (length xs - pos) (drop pos (xs ++ x ∷ [])) ≡ drop pos xs
between zero xs x h =
    let e : length xs - 0 ≡ length xs = omega arith in rw e (take-append xs (x ∷ []))
between (suc pos) [] x h = absurd (omega arith)
between (suc pos) (y ∷ xs) x h =
    let e : suc (length xs) - suc pos ≡ length xs - pos = omega arith in
    rw e (between pos xs x (omega arith))

take-append_left :
    {A : Type 0} (pos : ℕ) (xs ys : List A) → pos ≤ length xs → take pos (xs ++ ys) ≡ take pos xs
take-append_left zero xs ys h = refl
take-append_left (suc pos) [] ys h = absurd (omega arith)
take-append_left (suc pos) (x ∷ xs) ys h =
    ap (λ t. x ∷ t) (take-append_left pos xs ys (omega arith))

length-insert :
    {A : Type 0} (pos : ℕ) (xs : List A) (x : A)
    → pos ≤ length xs
    → length (take pos xs ++ x ∷ drop pos xs) ≡ length xs + 1
length-insert pos xs x h =
    omega
      (arith, length-append (take pos xs) (x ∷ drop pos xs), length-take pos xs, length-drop pos xs)

move_last_lem :
    (pos n : ℕ) (ys : List Str) (v : Str) (mem : Mem)
    → get_elem? ys (n - 1) ≡ some v
    → move_last pos (record { argc = n; argv = array ys; allocated = true }, mem)
      ≡ ok tt (
        record {
          argc = n;
          argv = array (take pos ys ++ v ∷ take (n - pos - 1) (drop pos ys));
          allocated = true;
        },
        mem,
      )
unfolding move_last
move_last_lem pos n ys v mem e = rw (e, move_last)

-- `memmove` and the store put the last string at `pos`, in front of what stood there
move_last-owned :
    (pos : ℕ) (xs : List Str) (arg : Str) (mem : Mem)
    → pos ≤ length xs
    → move_last pos (owned (xs ++ arg ∷ []), mem)
      ≡ ok tt (owned (take pos xs ++ arg ∷ drop pos xs), mem)
move_last-owned pos xs arg mem h =
    let grow : length (xs ++ arg ∷ []) ≡ length xs + 1 = length-append xs (arg ∷ []) in
    let last : length xs + 1 - 1 ≡ length xs = omega arith in
    let rest : length xs + 1 - pos - 1 ≡ length xs - pos = omega arith in
    let found : get_elem? (xs ++ arg ∷ []) (length xs + 1 - 1) ≡ some arg =
      rw last (get_elem?-last xs arg) in
    let moved = move_last_lem pos (length xs + 1) (xs ++ arg ∷ []) arg mem found in
    rw (length-insert pos xs arg h, grow)
      (rw (rest, between pos xs arg h, take-append_left pos xs (arg ∷ []) h) at moved)

drop_all : {A : Type 0} (n : ℕ) (xs : List A) → n ≡ length xs → drop n xs ≡ []
drop_all zero [] e = refl
drop_all zero (x ∷ xs) e = absurd (omega arith)
drop_all (suc n) [] e = refl
drop_all (suc n) (x ∷ xs) e = drop_all n xs (omega arith)

pub take_all : {A : Type 0} (n : ℕ) (xs : List A) → n ≡ length xs → take n xs ≡ xs
take_all n xs e = rw e (take-length xs)

place_last-owned :
    (pos : ℕ) (xs : List Str) (arg : Str) (mem : Mem)
    → pos ≤ length xs
    → place_last pos (owned (xs ++ arg ∷ []), mem)
      ≡ ok tt (owned (take pos xs ++ arg ∷ drop pos xs), mem)
place_last-owned pos xs arg mem h =
    let grow : length (xs ++ arg ∷ []) ≡ length xs + 1 = length-append xs (arg ∷ []) in
    let last : length xs + 1 - 1 ≡ length xs = omega arith in
    elim (Bool-cases (pos == length xs)) [
      | inl e ↦
          let at : pos ≡ length xs = ground arith in
          rw (drop_all pos xs at, take_all pos xs at) (rw (grow, last, e))
      | inr e ↦ rw (grow, last, e) (rw (← grow) (move_last-owned pos xs arg mem h))
    ]

-- what comes behind a successful attempt
attempt-then :
    (xs ys zs : List Str) (k : Cmd (FuseArgs × Mem)) (mem : Mem)
    → ((m : Mem) → k (owned ys, m) ≡ ok tt (owned zs, m))
    → and_then (attempt xs ys mem) (λ _. k) ≡ attempt xs zs mem
attempt-then xs ys zs k [] h = h []
attempt-then xs ys zs k (false ∷ m) h = refl
attempt-then xs ys zs k (true ∷ []) h = h []
attempt-then xs ys zs k (true ∷ (true ∷ m)) h = h m
attempt-then xs ys zs k (true ∷ (false ∷ m)) h = refl

-- `fuse_opt_insert_arg` at a position that is not behind the end puts the string in front of the
-- one that stood there and keeps the order of the others, for each outcome of the allocations: if
-- `realloc` fails the arguments are as before, and if only `strdup` fails they point to memory that
-- was given back.
pub insert_arg-attempt :
    (pos : ℕ) (xs : List Str) (arg : Str) (mem : Mem)
    → pos ≤ length xs
    → insert_arg pos arg (owned xs, mem) ≡ attempt xs (take pos xs ++ arg ∷ drop pos xs) mem
unfolding insert_arg
insert_arg-attempt pos xs arg mem h =
    let pass : leb pos (length xs) ≡ true = ground arith in
    rw pass (
      rw (add_arg-attempt xs arg mem) (
        attempt-then xs (xs ++ arg ∷ []) _ (place_last pos) mem
          (λ m. place_last-owned pos xs arg m h)))
