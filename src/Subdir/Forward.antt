-- ===== src/Subdir/Forward.antt =====
-- What `subdir` (fuse-2.8.5/lib/modules/subdir.c) passes on, and that it frees what it allocates.
use fuse_nt.Prelude.{
  ℕ, suc, ◌+◌, ◌-◌, ◌≡◌, refl, ap, ◌∙◌, Bool, false, Bool-cases, inl, inr, none, some, [], ◌∷◌,
  ◌++◌, ◌==◌, if◌then◌else◌, length, drop, arith,
}
use fuse_nt.Prelude.Int.{ℤ}
use fuse_nt.Prelude.Memory.{Str, next_alloc}
use fuse_nt.Subdir.{
  PathArg, Call, Env, without_slash, or_dot, prefixed, addpath, on_path, getattr, fgetattr, access,
  opendir, readdir, releasedir, mknod, mkdir, unlink, rmdir, chmod, chown, truncate, ftruncate,
  utimens, create, open_file, read, write, statfs, flush, release, fsync, fsyncdir, setxattr,
  getxattr, listxattr, removexattr, lock, bmap, symlink, rename, link,
}
use fuse_nt.Subdir.Handlers.{call_next, subdir_oper}

abbrev starts_with_slash : Str → Bool
starts_with_slash [] = false
starts_with_slash (c ∷ cs) = c == b'/'

-- a path without the '/' at its front
abbrev pub relative : Str → Str
relative path = drop (if starts_with_slash path then 1 else 0) path

-- A path below the directory: NULL stays NULL; else the directory stands in front of the path
-- without its first '/', and "." for nothing at all.
abbrev pub below : Str → PathArg → PathArg
below base none = none
below base (some path) =
    some (if length base + length (relative path) == 0 then b'.' ∷ [] else base ++ relative path)

without_slash-relative : (path : Str) → without_slash path ≡ relative path
without_slash-relative [] = refl
without_slash-relative (c ∷ cs) = elim (Bool-cases (c == b'/')) [
  | inl e ↦ rw e refl
  | inr e ↦ rw e refl
]

or_dot-length :
    (s t : Str) → or_dot (s ++ t) ≡ (if length s + length t == 0 then b'.' ∷ [] else s ++ t)
or_dot-length [] [] = refl
or_dot-length [] (c ∷ t) = let e : (0 + suc (length t) == 0) ≡ false = ground arith in rw e refl
or_dot-length (c ∷ s) t =
    let e : (suc (length s) + length t == 0) ≡ false = ground arith in rw e refl

prefixed-below : (base path : Str) → some (prefixed base path) ≡ below base (some path)
unfolding prefixed
prefixed-below base path = ap some (
    ap (λ s. or_dot (base ++ s)) (without_slash-relative path) ∙ or_dot-length base (relative path))

-- the call with all its paths below the directory, and the target of a symbolic link as it is
abbrev pub translated : {P : Type 0} → Str → Call P → Call P
translated base (getattr path a) = getattr (below base path) a
translated base (fgetattr path a b) = fgetattr (below base path) a b
translated base (access path a) = access (below base path) a
translated base (opendir path a) = opendir (below base path) a
translated base (readdir path a b c d) = readdir (below base path) a b c d
translated base (releasedir path a) = releasedir (below base path) a
translated base (mknod path a b) = mknod (below base path) a b
translated base (mkdir path a) = mkdir (below base path) a
translated base (unlink path) = unlink (below base path)
translated base (rmdir path) = rmdir (below base path)
translated base (chmod path a) = chmod (below base path) a
translated base (chown path a b) = chown (below base path) a b
translated base (truncate path a) = truncate (below base path) a
translated base (ftruncate path a b) = ftruncate (below base path) a b
translated base (utimens path a b c d) = utimens (below base path) a b c d
translated base (create path a b) = create (below base path) a b
translated base (open_file path a) = open_file (below base path) a
translated base (read path a b c d) = read (below base path) a b c d
translated base (write path a b c d) = write (below base path) a b c d
translated base (statfs path a) = statfs (below base path) a
translated base (flush path a) = flush (below base path) a
translated base (release path a) = release (below base path) a
translated base (fsync path a b) = fsync (below base path) a b
translated base (fsyncdir path a b) = fsyncdir (below base path) a b
translated base (setxattr path a b c d) = setxattr (below base path) a b c d
translated base (getxattr path a b c) = getxattr (below base path) a b c
translated base (listxattr path a b) = listxattr (below base path) a b
translated base (removexattr path a) = removexattr (below base path) a
translated base (lock path a b c) = lock (below base path) a b c
translated base (bmap path a b) = bmap (below base path) a b
translated base (symlink from path) = symlink from (below base path)
translated base (rename from to) = rename (below base from) (below base to)
translated base (link from to) = link (below base from) (below base to)

module _ {World P : Type 0} (next : Call P → World → ℤ × World) (base : Str) where
  -- the environment of a call with enough memory
  abbrev pub env : World → ℕ → Env World
  env world live = record { world = world; mem = []; live = live }

  plus-minus : (n : ℕ) → n + 1 - 1 ≡ n
  plus-minus n = omega arith

  on_path-forwards :
      (path : PathArg) (k : PathArg → Env World → ℤ × Env World) (c : PathArg → Call P)
      (world : World)
      → ((p : PathArg) (live : ℕ)
          → k p (env world live) ≡ call_next next base (c p) (env world live))
      → (live : ℕ)
      → on_path base path k (env world live)
        ≡ call_next next base (c (below base path)) (env world live)
  unfolding on_path addpath
  on_path-forwards none k c world h live = h none live
  on_path-forwards (some path) k c world h live =
      let e = prefixed-below base path in
      rw (h (some (prefixed base path)) (live + 1), plus-minus live, e) refl

  on_path-balanced :
      (path : PathArg) (k : PathArg → Env World → ℤ × Env World) (e : Env World)
      → ((p : PathArg) (e' : Env World) → (k p e').1.live ≡ e'.live)
      → (on_path base path k e).1.live ≡ e.live
  unfolding on_path addpath
  on_path-balanced none k e h = h none e
  on_path-balanced (some path) k e h = elim (Bool-cases (next_alloc e.mem).0) [
    | inl t ↦
        let e' : Env World = record {
          world = e.world;
          mem = (next_alloc e.mem).1;
          live = e.live + 1;
        } in
        rw t (omega (arith, h (some (prefixed base path)) e'))
    | inr t ↦ rw t refl
  ]

  -- With memory, a call of `subdir` is the call of the next file system with every path below the
  -- directory: NULL stays NULL, else the directory stands in front of the path without its first
  -- '/', and "." for nothing at all. The result is its result, and no block stays in use.
  pub subdir_oper-translated :
      (c : Call P) (world : World) (live : ℕ)
      → subdir_oper next base c (env world live)
        ≡ call_next next base (translated base c) (env world live)
  unfolding subdir_oper
  subdir_oper-translated (getattr path a) world live =
      on_path-forwards path _ (λ p. getattr p a) world (λ p l. refl) live
  subdir_oper-translated (fgetattr path a b) world live =
      on_path-forwards path _ (λ p. fgetattr p a b) world (λ p l. refl) live
  subdir_oper-translated (access path a) world live =
      on_path-forwards path _ (λ p. access p a) world (λ p l. refl) live
  subdir_oper-translated (opendir path a) world live =
      on_path-forwards path _ (λ p. opendir p a) world (λ p l. refl) live
  subdir_oper-translated (readdir path a b c d) world live =
      on_path-forwards path _ (λ p. readdir p a b c d) world (λ p l. refl) live
  subdir_oper-translated (releasedir path a) world live =
      on_path-forwards path _ (λ p. releasedir p a) world (λ p l. refl) live
  subdir_oper-translated (mknod path a b) world live =
      on_path-forwards path _ (λ p. mknod p a b) world (λ p l. refl) live
  subdir_oper-translated (mkdir path a) world live =
      on_path-forwards path _ (λ p. mkdir p a) world (λ p l. refl) live
  subdir_oper-translated (unlink path) world live =
      on_path-forwards path _ (λ p. unlink p) world (λ p l. refl) live
  subdir_oper-translated (rmdir path) world live =
      on_path-forwards path _ (λ p. rmdir p) world (λ p l. refl) live
  subdir_oper-translated (chmod path a) world live =
      on_path-forwards path _ (λ p. chmod p a) world (λ p l. refl) live
  subdir_oper-translated (chown path a b) world live =
      on_path-forwards path _ (λ p. chown p a b) world (λ p l. refl) live
  subdir_oper-translated (truncate path a) world live =
      on_path-forwards path _ (λ p. truncate p a) world (λ p l. refl) live
  subdir_oper-translated (ftruncate path a b) world live =
      on_path-forwards path _ (λ p. ftruncate p a b) world (λ p l. refl) live
  subdir_oper-translated (utimens path a b c d) world live =
      on_path-forwards path _ (λ p. utimens p a b c d) world (λ p l. refl) live
  subdir_oper-translated (create path a b) world live =
      on_path-forwards path _ (λ p. create p a b) world (λ p l. refl) live
  subdir_oper-translated (open_file path a) world live =
      on_path-forwards path _ (λ p. open_file p a) world (λ p l. refl) live
  subdir_oper-translated (read path a b c d) world live =
      on_path-forwards path _ (λ p. read p a b c d) world (λ p l. refl) live
  subdir_oper-translated (write path a b c d) world live =
      on_path-forwards path _ (λ p. write p a b c d) world (λ p l. refl) live
  subdir_oper-translated (statfs path a) world live =
      on_path-forwards path _ (λ p. statfs p a) world (λ p l. refl) live
  subdir_oper-translated (flush path a) world live =
      on_path-forwards path _ (λ p. flush p a) world (λ p l. refl) live
  subdir_oper-translated (release path a) world live =
      on_path-forwards path _ (λ p. release p a) world (λ p l. refl) live
  subdir_oper-translated (fsync path a b) world live =
      on_path-forwards path _ (λ p. fsync p a b) world (λ p l. refl) live
  subdir_oper-translated (fsyncdir path a b) world live =
      on_path-forwards path _ (λ p. fsyncdir p a b) world (λ p l. refl) live
  subdir_oper-translated (setxattr path a b c d) world live =
      on_path-forwards path _ (λ p. setxattr p a b c d) world (λ p l. refl) live
  subdir_oper-translated (getxattr path a b c) world live =
      on_path-forwards path _ (λ p. getxattr p a b c) world (λ p l. refl) live
  subdir_oper-translated (listxattr path a b) world live =
      on_path-forwards path _ (λ p. listxattr p a b) world (λ p l. refl) live
  subdir_oper-translated (removexattr path a) world live =
      on_path-forwards path _ (λ p. removexattr p a) world (λ p l. refl) live
  subdir_oper-translated (lock path a b c) world live =
      on_path-forwards path _ (λ p. lock p a b c) world (λ p l. refl) live
  subdir_oper-translated (bmap path a b) world live =
      on_path-forwards path _ (λ p. bmap p a b) world (λ p l. refl) live
  subdir_oper-translated (symlink from path) world live =
      on_path-forwards path _ (λ p. symlink from p) world (λ p l. refl) live
  subdir_oper-translated (rename from to) world live =
      on_path-forwards from _ (λ p. rename p (below base to)) world
        (λ p l. on_path-forwards to _ (λ q. rename p q) world (λ q m. refl) l) live
  subdir_oper-translated (link from to) world live =
      on_path-forwards from _ (λ p. link p (below base to)) world
        (λ p l. on_path-forwards to _ (λ q. link p q) world (λ q m. refl) l) live

  -- On every outcome of the allocations, a call of `subdir` frees what it allocated.
  pub subdir_oper-balanced :
      (c : Call P) (e : Env World) → (subdir_oper next base c e).1.live ≡ e.live
  unfolding subdir_oper
  subdir_oper-balanced (getattr path a) e = on_path-balanced path _ e (λ p e'. refl)
  subdir_oper-balanced (fgetattr path a b) e = on_path-balanced path _ e (λ p e'. refl)
  subdir_oper-balanced (access path a) e = on_path-balanced path _ e (λ p e'. refl)
  subdir_oper-balanced (opendir path a) e = on_path-balanced path _ e (λ p e'. refl)
  subdir_oper-balanced (readdir path a b c d) e = on_path-balanced path _ e (λ p e'. refl)
  subdir_oper-balanced (releasedir path a) e = on_path-balanced path _ e (λ p e'. refl)
  subdir_oper-balanced (mknod path a b) e = on_path-balanced path _ e (λ p e'. refl)
  subdir_oper-balanced (mkdir path a) e = on_path-balanced path _ e (λ p e'. refl)
  subdir_oper-balanced (unlink path) e = on_path-balanced path _ e (λ p e'. refl)
  subdir_oper-balanced (rmdir path) e = on_path-balanced path _ e (λ p e'. refl)
  subdir_oper-balanced (chmod path a) e = on_path-balanced path _ e (λ p e'. refl)
  subdir_oper-balanced (chown path a b) e = on_path-balanced path _ e (λ p e'. refl)
  subdir_oper-balanced (truncate path a) e = on_path-balanced path _ e (λ p e'. refl)
  subdir_oper-balanced (ftruncate path a b) e = on_path-balanced path _ e (λ p e'. refl)
  subdir_oper-balanced (utimens path a b c d) e = on_path-balanced path _ e (λ p e'. refl)
  subdir_oper-balanced (create path a b) e = on_path-balanced path _ e (λ p e'. refl)
  subdir_oper-balanced (open_file path a) e = on_path-balanced path _ e (λ p e'. refl)
  subdir_oper-balanced (read path a b c d) e = on_path-balanced path _ e (λ p e'. refl)
  subdir_oper-balanced (write path a b c d) e = on_path-balanced path _ e (λ p e'. refl)
  subdir_oper-balanced (statfs path a) e = on_path-balanced path _ e (λ p e'. refl)
  subdir_oper-balanced (flush path a) e = on_path-balanced path _ e (λ p e'. refl)
  subdir_oper-balanced (release path a) e = on_path-balanced path _ e (λ p e'. refl)
  subdir_oper-balanced (fsync path a b) e = on_path-balanced path _ e (λ p e'. refl)
  subdir_oper-balanced (fsyncdir path a b) e = on_path-balanced path _ e (λ p e'. refl)
  subdir_oper-balanced (setxattr path a b c d) e = on_path-balanced path _ e (λ p e'. refl)
  subdir_oper-balanced (getxattr path a b c) e = on_path-balanced path _ e (λ p e'. refl)
  subdir_oper-balanced (listxattr path a b) e = on_path-balanced path _ e (λ p e'. refl)
  subdir_oper-balanced (removexattr path a) e = on_path-balanced path _ e (λ p e'. refl)
  subdir_oper-balanced (lock path a b c) e = on_path-balanced path _ e (λ p e'. refl)
  subdir_oper-balanced (bmap path a b) e = on_path-balanced path _ e (λ p e'. refl)
  subdir_oper-balanced (symlink from path) e = on_path-balanced path _ e (λ p e'. refl)
  subdir_oper-balanced (rename from to) e =
      on_path-balanced from _ e (λ p e'. on_path-balanced to _ e' (λ q e''. refl))
  subdir_oper-balanced (link from to) e =
      on_path-balanced from _ e (λ p e'. on_path-balanced to _ e' (λ q e''. refl))
