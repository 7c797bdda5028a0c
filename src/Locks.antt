-- ===== src/Locks.antt =====
-- The table of POSIX record locks of one inode: `struct lock` and `locks_conflict`, `delete_lock`,
-- `insert_lock`, `locks_insert`, `flock_to_lock`, `lock_to_flock` of fuse-2.8.5/lib/fuse.c.
-- `node->locks` is the list of its elements; `lp` is a position in it, so the loop recurs on
-- what is left from `lp` on and returns the new list from there.
pub mod Table
pub mod Step
pub mod Insert
pub mod Overwrite
pub mod Conflict
pub mod Handlers
mod Tests
use fuse_nt.Prelude.{
  ℕ, zero, suc, ◌+◌, ◌-◌, ◌^◌, Bool, true, false, ◌&&◌, ◌||◌, not, Option, none, some, List, [],
  ◌∷◌, ltb, leb, ◌==◌, if◌then◌else◌, length,
}

-- F_RDLCK, F_WRLCK and F_UNLCK
pub data LockType : Type 0 where
  rdlck wrlck unlck : LockType

abbrev pub same_type : LockType → LockType → Bool
same_type rdlck rdlck = true
same_type wrlck wrlck = true
same_type unlck unlck = true
same_type _ _ = false

abbrev pub offset_max : ℕ
offset_max = 2 ^ 63 - 1

-- `start` and `end` are both inside the range
pub record Lock : Type 0 where
  pub type : LockType
  pub start : ℕ
  pub end : ℕ
  pub pid : ℕ
  pub owner : ℕ

-- the test inside the loop of `locks_conflict`
unfoldable pub conflicts : Lock → Lock → Bool
conflicts lock l =
    not (l.owner == lock.owner)
    && (leb lock.start l.end
        && (leb l.start lock.end && (same_type l.type wrlck || same_type lock.type wrlck)))

unfoldable pub locks_conflict : List Lock → Lock → Option Lock
locks_conflict [] lock = none
locks_conflict (l ∷ ls) lock = if conflicts lock l then some l else locks_conflict ls lock

-- where the loop body of `locks_insert` goes
pub data Action : Type 0 where
  skip : Action
  stop : Action
  covered : Action
  merge : Lock → Action
  discard : Action
  cut_tail : Lock → Action
  cut_head : Lock → Action
  split : Lock → Lock → Action

-- same type: `goto skip`, `break`, `goto out`, or widen `lock` and `goto delete`
unfoldable pub same_kind : Lock → Lock → Action
same_kind lock l =
    if ltb l.end (lock.start - 1)
    then skip
    else if ltb lock.end (l.start - 1)
    then stop
    else if leb l.start lock.start && leb lock.end l.end
    then covered
    else merge (record lock {
      start = if ltb l.start lock.start then l.start else lock.start;
      end = if ltb lock.end l.end then l.end else lock.end;
    })

-- different types: `goto skip`, `break`, `goto delete`, shorten `l` on the right or on the left,
-- or split it in two
unfoldable pub other_kind : Lock → Lock → Action
other_kind lock l =
    if ltb l.end lock.start
    then skip
    else if ltb lock.end l.start
    then stop
    else if leb lock.start l.start && leb l.end lock.end
    then discard
    else if leb l.end lock.end
    then cut_tail (record l { end = lock.start - 1 })
    else if leb lock.start l.start
    then cut_head (record l { start = lock.end + 1 })
    else split (record l { end = lock.start - 1 }) (record l { start = lock.end + 1 })

unfoldable pub body : Lock → Lock → Action
unfolding same_kind other_kind
body lock l =
    if l.owner == lock.owner
    then (if same_type lock.type l.type then same_kind lock l else other_kind lock l)
    else skip

-- the code behind the loop: `insert_lock(lp, newl1)` unless the lock is F_UNLCK
unfoldable pub place : Lock → List Lock → List Lock
place lock ls = if same_type lock.type unlck then ls else lock ∷ ls

-- A run of the loop: the list from `lp` on, `fault` for a write through `newl2 == NULL`, or no
-- fuel left.
pub data Walk : Type 0 where
  done : List Lock → Walk
  fault : Walk
  out_of_fuel : Walk

-- what was passed stays in front of the rest
abbrev pub keep : Lock → Walk → Walk
keep l (done ls) = done (l ∷ ls)
keep l fault = fault
keep l out_of_fuel = out_of_fuel

-- `spare` tells whether `newl2` is still there. After a split `lp` is at the new element.
unfoldable pub insert_loop : ℕ → Bool → Lock → List Lock → Walk
insert_loop zero spare lock ls = out_of_fuel
insert_loop (suc fuel) spare lock [] = done (place lock [])
insert_loop (suc fuel) spare lock (l ∷ ls) = elim (body lock l) [
  | skip ↦ keep l (insert_loop fuel spare lock ls)
  | stop ↦ done (place lock (l ∷ ls))
  | covered ↦ done (l ∷ ls)
  | merge lock' ↦ insert_loop fuel spare lock' ls
  | discard ↦ insert_loop fuel spare lock ls
  | cut_tail l' ↦ keep l' (insert_loop fuel spare lock ls)
  | cut_head l' ↦ done (place lock (l' ∷ ls))
  | split l' r ↦ if spare then keep l' (insert_loop fuel false lock (r ∷ ls)) else fault
]

-- what `locks_insert` returns: 0 with the new list, or -ENOLCK with the old one
pub data Inserted : Type 0 where
  inserted : List Lock → Inserted
  enolck : List Lock → Inserted
  crashed : Inserted

-- the whole range of F_UNLCK, for which nothing is allocated
abbrev pub unlocks_all : Lock → Bool
unlocks_all lock = same_type lock.type unlck && (lock.start == 0 && lock.end == offset_max)

abbrev pub finish : Walk → Inserted
finish (done ls) = inserted ls
finish fault = crashed
finish out_of_fuel = crashed

-- `allocated` tells whether both calls of `malloc` succeed. The fuel is one round for each
-- element, one for the element that a split adds, and one for the end.
unfoldable pub locks_insert : Bool → List Lock → Lock → Inserted
unfolding insert_loop body place
locks_insert allocated ls lock =
    if unlocks_all lock
    then finish (insert_loop (length ls + 2) false lock ls)
    else if allocated
    then finish (insert_loop (length ls + 2) true lock ls)
    else enolck ls

-- `struct flock`; `l_whence` is SEEK_SET throughout, and a length of 0 reaches to the end
pub record Flock : Type 0 where
  pub l_type : LockType
  pub l_start : ℕ
  pub l_len : ℕ
  pub l_pid : ℕ

-- `owner` is 0 from the `memset`, and each caller sets it next
unfoldable pub flock_to_lock : Flock → Lock
flock_to_lock flock = record {
  type = flock.l_type;
  start = flock.l_start;
  end = if flock.l_len == 0 then offset_max else flock.l_start + flock.l_len - 1;
  pid = flock.l_pid;
  owner = 0;
}

unfoldable pub lock_to_flock : Lock → Flock
lock_to_flock lock = record {
  l_type = lock.type;
  l_start = lock.start;
  l_len = if lock.end == offset_max then 0 else lock.end - lock.start + 1;
  l_pid = lock.pid;
}
