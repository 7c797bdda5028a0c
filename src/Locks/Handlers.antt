-- ===== src/Locks/Handlers.antt =====
-- The lock requests of fuse-2.8.5/lib/fuse.c: `fuse_lock_common`, `fuse_lib_getlk`,
-- `fuse_lib_setlk` and the unlocking at a flush, `fuse_flush_common`. The table is that of the
-- inode. Errors are positive errno values, 0 for success. Parameters: `path_err`, what
-- `get_path_nullok` returned; `fs_lock`, the file system's `lock` operation with its `struct flock`
-- before and after; `fs_flush`, what its `flush` operation returned; `allocated`, whether malloc
-- succeeds.
use fuse_nt.Prelude.{
  ℕ, ◌≤◌, ◌≡◌, refl, ap, ◌∙◌, arith, ◌&&◌, ◌||◌, Bool, true, false, List, ◌==◌, if◌then◌else◌,
  Option, none, some, Bool-cases, inl, inr,
}
use fuse_nt.Locks.{
  LockType, unlck, offset_max, Lock, locks_conflict, unlocks_all, Inserted, inserted, enolck,
  crashed, locks_insert, Flock, flock_to_lock, lock_to_flock,
}
use fuse_nt.Locks.Table.{holds, IsTable, IsRange, overwrite}
use fuse_nt.Locks.Overwrite.{
  locks_insert-Overwritten, locks_insert-unlocks_all, locks_insert-enolck,
}

abbrev pub enosys : ℕ
enosys = 38

-- what is sent to the kernel
pub data Reply : Type 0 where
  reply_lock : Flock → Reply
  reply_err : ℕ → Reply

-- `flock_to_lock(lock, &l); l.owner = fi->lock_owner;`
unfoldable pub request : Flock → ℕ → Lock
unfolding flock_to_lock
request flock owner = record (flock_to_lock flock) { owner = owner }

unfoldable pub lock_common : ℕ → (Flock → ℕ × Flock) → Flock → ℕ × Flock
lock_common path_err fs_lock flock = if path_err == 0 then fs_lock flock else (path_err, flock)

unfoldable pub lib_getlk : ℕ → (Flock → ℕ × Flock) → ℕ → List Lock → Flock → Reply
unfolding request lock_common lock_to_flock
lib_getlk path_err fs_lock owner ls flock = elim (locks_conflict ls (request flock owner)) [
  | some l ↦ reply_lock (lock_to_flock l)
  | none ↦
      let (err, flock') = lock_common path_err fs_lock flock in
      if err == 0 then reply_lock flock' else reply_err err
]

-- the table after `locks_insert`, whose return value the callers do not look at
abbrev pub rows_after : Inserted → Option (List Lock)
rows_after (inserted rows) = some rows
rows_after (enolck rows) = some rows
rows_after crashed = none

-- The new table, `none` if `locks_insert` crashed, and the error that is replied.
unfoldable pub lib_setlk :
    Bool → ℕ → (Flock → ℕ × Flock) → ℕ → List Lock → Flock → Option (List Lock) × ℕ
unfolding request lock_common
lib_setlk allocated path_err fs_lock owner ls flock =
    let (err, flock') = lock_common path_err fs_lock flock in
    if err == 0
    then (rows_after (locks_insert allocated ls (request flock' owner)), err)
    else (some ls, err)

-- the `struct flock` that a flush passes to the file system
abbrev pub flush_flock : Flock
flush_flock = record { l_type = unlck; l_start = 0; l_len = 0; l_pid = 0 }

unfoldable pub flush_common :
    Bool → ℕ → (Flock → ℕ × Flock) → ℕ → List Lock → Option (List Lock) × ℕ
unfolding request
flush_common allocated fs_flush fs_lock owner ls =
    let (errlock, flock) = fs_lock flush_flock in
    if errlock == enosys then (some ls, fs_flush) else (
      rows_after (locks_insert allocated ls (request flock owner)),
      if fs_flush == enosys then 0 else fs_flush,
    )

-- `l` stands where the file system leaves the lock as it is
abbrev pub Leaves : (Flock → ℕ × Flock) → Type 0
Leaves fs_lock = (f : Flock) → (fs_lock f).1 ≡ f

-- where no allocation is needed, its outcome does not matter
insert_allocated :
    (allocated : Bool) (ls : List Lock) (lock : Lock)
    → (allocated || unlocks_all lock) ≡ true
    → locks_insert allocated ls lock ≡ locks_insert true ls lock
unfolding locks_insert
insert_allocated true ls lock h = refl
insert_allocated false ls lock h = rw h refl

insert_rows :
    (allocated : Bool) (ls : List Lock) (lock : Lock)
    → IsTable ls
    → IsRange lock
    → (rows : List Lock) × (rows_after (locks_insert allocated ls lock) ≡ some rows)
      × IsTable rows
      × ((o : ℕ) (t : LockType) (b : ℕ)
          → holds o t b rows ≡ (
              if allocated || unlocks_all lock
              then overwrite lock o t b (holds o t b ls)
              else holds o t b ls))
insert_rows allocated ls lock t r = elim (Bool-cases (allocated || unlocks_all lock)) [
  | inl e ↦
      let w = locks_insert-Overwritten ls lock t r in
      (
        w.rows,
        ap rows_after (insert_allocated allocated ls lock e ∙ w.returned),
        w.table,
        (λ o ty b. rw e (w.reads o ty b)),
      )
  | inr e ↦
      let a : allocated ≡ false = ground arith in
      let u : unlocks_all lock ≡ false = ground arith in
      (ls, rw a (ap rows_after (locks_insert-enolck ls lock u)), t, (λ o ty b. rw e refl))
]

-- A set-lock request on a path that resolves, where the lock that the file system leaves is a
-- range, replies the file system's result. If the file system accepts the lock, and the allocations
-- succeed or the whole range is unlocked, the owner has the type of that lock on every byte of its
-- range, and all else is as before. If the file system refuses the lock, or the allocations fail
-- where they are needed, the table means what it did, so that without memory a lock is granted that
-- the table does not hold.
pub lib_setlk-overwrite :
    (allocated : Bool) (path_err : ℕ) (fs_lock : Flock → ℕ × Flock) (owner : ℕ) (ls : List Lock)
    (flock : Flock)
    → path_err ≡ 0
    → IsTable ls
    → IsRange (request (fs_lock flock).1 owner)
    → (rows : List Lock) × (lib_setlk allocated path_err fs_lock owner ls flock
        ≡ (some rows, (fs_lock flock).0))
      × IsTable rows
      × ((o : ℕ) (t : LockType) (b : ℕ)
          → holds o t b rows ≡ (
              if (fs_lock flock).0 == 0
                && (allocated || unlocks_all (request (fs_lock flock).1 owner))
              then overwrite (request (fs_lock flock).1 owner) o t b (holds o t b ls)
              else holds o t b ls))
unfolding lib_setlk
lib_setlk-overwrite allocated path_err fs_lock owner ls flock p t r =
    elim (Bool-cases ((fs_lock flock).0 == 0)) [
      | inl e ↦
          let (rows, ran, table, reads) =
            insert_rows allocated ls (request (fs_lock flock).1 owner) t r in
          (rows, rw p (rw (e, ran) refl), table, (λ o ty b. rw e (reads o ty b)))
      | inr e ↦ (ls, rw p (rw e refl), t, (λ o ty b. rw e refl))
    ]

-- A flush of a file system that implements locks releases every lock of the flushed owner, also
-- when no memory is left, and no lock of another owner.
pub flush_common-releases :
    (allocated : Bool) (fs_flush : ℕ) (fs_lock : Flock → ℕ × Flock) (owner : ℕ) (ls : List Lock)
    → Leaves fs_lock
    → ((fs_lock flush_flock).0 == enosys) ≡ false
    → IsTable ls
    → (rows : List Lock) × ((flush_common allocated fs_flush fs_lock owner ls).0 ≡ some rows)
      × IsTable rows
      × ((o : ℕ) (t : LockType) (b : ℕ)
          → b ≤ offset_max
          → holds o t b rows ≡ (if o == owner then false else holds o t b ls))
unfolding flush_common
flush_common-releases allocated fs_flush fs_lock owner ls same e t =
    let (rows, ran, table, reads) =
      locks_insert-unlocks_all allocated ls (request flush_flock owner) t refl in
    (rows, rw (e, same flush_flock) (rw ran refl), table, reads)
