-- ===== src/Locks/Overwrite.antt =====
-- `locks_insert` and the `struct flock` conversions of fuse-2.8.5/lib/fuse.c.
use fuse_nt.Prelude.{
  ℕ, ◌+◌, ◌≤◌, ◌≡◌, refl, inl, inr, Bool, true, false, List, ◌==◌, if◌then◌else◌, arith, length,
  Bool-cases,
}
use fuse_nt.Locks.{
  LockType, offset_max, Lock, insert_loop, Inserted, inserted, enolck, unlocks_all, finish,
  locks_insert, Flock, flock_to_lock, lock_to_flock,
}
use fuse_nt.Locks.Table.{holds, IsRange, IsTable, overwrite}
use fuse_nt.Locks.Insert.{Outcome, insert_loop-Outcome}

-- `r` is `ls` with `lock` written over it, as a table again.
pub record Overwritten (lock : Lock) (ls : List Lock) (r : Inserted) : Type 0 where
  pub rows : List Lock
  pub returned : r ≡ inserted rows
  pub table : IsTable rows
  pub reads :
      (o : ℕ) (t : LockType) (b : ℕ) → holds o t b rows ≡ overwrite lock o t b (holds o t b ls)

of_Outcome :
    {lock : Lock} {ls : List Lock} (fuel : ℕ) (spare : Bool)
    → Outcome lock ls (insert_loop fuel spare lock ls)
    → Overwritten lock ls (finish (insert_loop fuel spare lock ls))
of_Outcome fuel spare out = record {
  rows = out.rows;
  returned = rw out.ran;
  table = out.table;
  reads = out.reads;
}

-- With memory, `locks_insert` returns 0 for every range, reads nothing through a null pointer, and
-- leaves a table of ascending disjoint ranges, in which the owner of the new lock has the new type
-- (or nothing, for F_UNLCK) on every byte of its range, while each other byte and each other owner
-- has what it had.
pub locks_insert-Overwritten :
    (ls : List Lock) (lock : Lock)
    → IsTable ls
    → IsRange lock
    → Overwritten lock ls (locks_insert true ls lock)
unfolding locks_insert
locks_insert-Overwritten ls lock t range = elim (Bool-cases (unlocks_all lock)) [
  | inl e ↦ rw e (
      of_Outcome (length ls + 2) false (
        insert_loop-Outcome (length ls + 2) false lock ls (omega arith) (inr (ground arith)) range
          t))
  | inr e ↦ rw e (
      of_Outcome (length ls + 2) true
        (insert_loop-Outcome (length ls + 2) true lock ls (omega arith) (inl refl) range t))
]

-- An owner that gives up the whole range needs no memory: whether or not the allocations succeed,
-- `locks_insert` returns 0, the owner has no lock left on any byte, and the others have what they
-- had.
pub locks_insert-unlocks_all :
    (allocated : Bool) (ls : List Lock) (lock : Lock)
    → IsTable ls
    → unlocks_all lock ≡ true
    → (rows : List Lock) × (locks_insert allocated ls lock ≡ inserted rows)
      × IsTable rows
      × ((o : ℕ) (t : LockType) (b : ℕ)
          → b ≤ offset_max
          → holds o t b rows ≡ (if o == lock.owner then false else holds o t b ls))
unfolding locks_insert
locks_insert-unlocks_all allocated ls lock t e =
    let out = of_Outcome {lock = lock} (length ls + 2) false (
      insert_loop-Outcome (length ls + 2) false lock ls (omega arith) (inr (ground arith))
        (ground arith) t) in
    (out.rows, rw (e, out.returned), out.table, λ o ty b h. ground (arith, out.reads o ty b))

-- Without memory any other call returns -ENOLCK and leaves the list as it was; it never crashes.
pub locks_insert-enolck :
    (ls : List Lock) (lock : Lock)
    → unlocks_all lock ≡ false
    → locks_insert false ls lock ≡ enolck ls
unfolding locks_insert
locks_insert-enolck ls lock e = rw e

-- A lock on a range survives the way to the kernel's `struct flock` and back, but for its owner.
pub flock_to_lock-lock_to_flock :
    (l : Lock) → IsRange l → flock_to_lock (lock_to_flock l) ≡ record l { owner = 0 }
unfolding flock_to_lock lock_to_flock
flock_to_lock-lock_to_flock l r = ground arith

-- A `struct flock` that ends within the file's largest offset survives the way back, but that a
-- length which reaches the very end comes back as 0.
pub lock_to_flock-flock_to_lock :
    (f : Flock)
    → f.l_start + f.l_len ≤ offset_max + 1
    → f.l_start ≤ offset_max
    → lock_to_flock (flock_to_lock f)
      ≡ record f { l_len = if f.l_start + f.l_len == offset_max + 1 then 0 else f.l_len }
unfolding flock_to_lock lock_to_flock
lock_to_flock-flock_to_lock f h g = ground arith
