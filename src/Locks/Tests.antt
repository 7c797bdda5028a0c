-- ===== src/Locks/Tests.antt =====
-- Runs of the lock table, and its theorems at a table with two owners.
use fuse_nt.Prelude.{
  ◌&&◌, ◌||◌, ◌↔◌, ◌||◌, ℕ, ◌≡◌, refl, true, false, List, [], ◌∷◌, arith, none, some, ◌==◌,
  if◌then◌else◌, ◌≤◌,
}
use fuse_nt.Locks.{
  unlocks_all, LockType, rdlck, wrlck, unlck, same_type, offset_max, Lock, conflicts,
  locks_conflict, inserted, locks_insert, Flock, flock_to_lock, lock_to_flock,
}
use fuse_nt.Locks.Table.{holds, IsTable, overwrite}
use fuse_nt.Locks.Overwrite.{
  Overwritten, locks_insert-Overwritten, locks_insert-unlocks_all, flock_to_lock-lock_to_flock,
}
use fuse_nt.Locks.Conflict.{
  Exclusive, IsFree, locks_conflict_iff, locks_conflict-found, locks_insert-Exclusive,
}
use fuse_nt.Locks.Handlers.{
  request, lock_common, lib_setlk, lib_setlk-overwrite, flush_common, flush_common-releases,
}

abbrev lock : LockType → ℕ → ℕ → ℕ → Lock
lock t s e o = record { type = t; start = s; end = e; pid = 7; owner = o }

abbrev rows : List Lock
rows = lock rdlck 0 99 1 ∷ lock rdlck 50 59 2 ∷ []

-- a write lock in the middle splits the read lock
split_run :
    locks_insert true (lock rdlck 0 99 1 ∷ []) (lock wrlck 10 19 1)
    ≡ inserted (lock rdlck 0 9 1 ∷ lock wrlck 10 19 1 ∷ lock rdlck 20 99 1 ∷ [])
unfolding locks_insert
split_run = refl

rows-IsTable : IsTable rows
rows-IsTable = (
  omega arith,
  omega arith,
  refl,
  ((λ e. absurd (ground arith)), tt),
  (omega arith, omega arith, refl, tt, tt),
)

abbrev write : Lock
write = lock wrlck 40 120 1

abbrev unlock : Lock
unlock = record { type = unlck; start = 0; end = offset_max; pid = 7; owner = 1 }

locks_insert-unlocks_all_example :
    (new : List Lock) × (locks_insert false rows unlock ≡ inserted new)
    × IsTable new
    × ((o : ℕ) (t : LockType) (b : ℕ)
        → b ≤ offset_max
        → holds o t b new ≡ (if o == 1 then false else holds o t b rows))
locks_insert-unlocks_all_example = locks_insert-unlocks_all false rows unlock rows-IsTable refl

flock_to_lock-lock_to_flock_example :
    flock_to_lock (lock_to_flock write) ≡ record write { owner = 0 }
flock_to_lock-lock_to_flock_example = flock_to_lock-lock_to_flock write (omega arith, omega arith)

locks_conflict_iff_example : (locks_conflict rows write ≡ none) ↔ IsFree rows write
locks_conflict_iff_example = locks_conflict_iff rows write (omega arith, omega arith) rows-IsTable

locks_conflict-found_example :
    ((2 == 1) ≡ false)
    × (40 ≤ 59)
    × (50 ≤ 120)
    × ((same_type rdlck wrlck || same_type wrlck wrlck) ≡ true)
    × ((b : ℕ) → 50 ≤ b → b ≤ 59 → holds 2 rdlck b rows ≡ true)
locks_conflict-found_example =
    locks_conflict-found rows write {l = lock rdlck 50 59 2}
      (unfold locks_conflict conflicts in refl)

one_reader : Exclusive (lock rdlck 0 9 1 ∷ [])
unfolding holds
one_reader o p t u b ne h k = ground arith

locks_insert-Exclusive_example :
    (new : List Lock) × (locks_insert true (lock rdlck 0 9 1 ∷ []) (lock wrlck 10 19 2)
      ≡ inserted new)
    × Exclusive new
locks_insert-Exclusive_example =
    locks_insert-Exclusive (lock rdlck 0 9 1 ∷ []) (lock wrlck 10 19 2)
      (omega arith, omega arith, refl, tt, tt) (omega arith, omega arith)
      (unfold locks_conflict conflicts in refl) one_reader

-- a file system that grants every lock
abbrev grant : Flock → ℕ × Flock
grant f = (0, f)

abbrev wanted : Flock
wanted = record { l_type = wrlck; l_start = 40; l_len = 81; l_pid = 7 }

lib_setlk-overwrite_example :
    (new : List Lock) × (lib_setlk true 0 grant 1 rows wanted ≡ (some new, 0))
    × IsTable new
    × ((o : ℕ) (t : LockType) (b : ℕ)
        → holds o t b new ≡ (
            if 0 == 0 && (true || unlocks_all (request wanted 1))
            then overwrite (request wanted 1) o t b (holds o t b rows)
            else holds o t b rows))
lib_setlk-overwrite_example =
    lib_setlk-overwrite true 0 grant 1 rows wanted refl rows-IsTable
      (unfold request in (omega arith, omega arith))

-- without memory the lock is granted and the table is as it was
setlk_no_memory : lib_setlk false 0 grant 1 rows wanted ≡ (some rows, 0)
unfolding lib_setlk lock_common request locks_insert flock_to_lock
setlk_no_memory = refl

flush_common-releases_example :
    (new : List Lock) × ((flush_common false 38 grant 1 rows).0 ≡ some new)
    × IsTable new
    × ((o : ℕ) (t : LockType) (b : ℕ)
        → b ≤ offset_max
        → holds o t b new ≡ (if o == 1 then false else holds o t b rows))
flush_common-releases_example =
    flush_common-releases false 38 grant 1 rows (λ f. refl) refl rows-IsTable

locks_insert-Overwritten_example :
    Overwritten (lock wrlck 40 120 1) rows (locks_insert true rows (lock wrlck 40 120 1))
locks_insert-Overwritten_example =
    locks_insert-Overwritten rows (lock wrlck 40 120 1) rows-IsTable (omega arith, omega arith)
