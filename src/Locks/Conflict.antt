-- ===== src/Locks/Conflict.antt =====
-- `locks_conflict` of fuse-2.8.5/lib/fuse.c against the bytes that the owners hold.
use fuse_nt.Prelude.{
  ℕ, ◌≤◌, ◌≡◌, refl, ◌↔◌, inl, inr, Bool, true, false, ◌&&◌, ◌||◌, List, [], ◌∷◌, ◌==◌, arith,
  Bool-cases, none, some,
}
use fuse_nt.Locks.{
  LockType, wrlck, same_type, Lock, conflicts, locks_conflict, inserted, locks_insert,
}
use fuse_nt.Locks.Table.{covers, same_type_refl, holds, IsRange, IsTable}
use fuse_nt.Locks.Overwrite.{locks_insert-Overwritten}

-- No other owner holds a byte of the range, unless both locks are for reading.
abbrev pub IsFree : List Lock → Lock → Type 0
IsFree ls lock =
    (o : ℕ) (t : LockType) (b : ℕ)
    → (o == lock.owner) ≡ false
    → lock.start ≤ b
    → b ≤ lock.end
    → holds o t b ls ≡ true
    → (same_type t wrlck ≡ false) × (same_type lock.type wrlck ≡ false)

conflict-IsFree : (ls : List Lock) (lock : Lock) → locks_conflict ls lock ≡ none → IsFree ls lock
unfolding locks_conflict conflicts holds
conflict-IsFree [] lock e o t b ne lo hi h = cc
conflict-IsFree (l ∷ ls) lock e o t b ne lo hi h = elim (Bool-cases (conflicts lock l)) [
  | inl c ↦ absurd (hit_not_none (rw c at e))
  | inr c ↦ elim (Bool-cases (covers o b l && same_type t l.type)) [
    | inl here ↦ ground arith
    | inr later ↦ conflict-IsFree ls lock (rw c at e) o t b ne lo hi (rw later at h)
  ]
]
  where
    hit_not_none : {l : Lock} → some l ≡ none → ⊥
    hit_not_none e = cc

or_true : (a : Bool) → (a || true) ≡ true
or_true true = refl
or_true false = refl

IsFree-conflict :
    (ls : List Lock) (lock : Lock)
    → IsRange lock
    → IsTable ls
    → IsFree ls lock
    → locks_conflict ls lock ≡ none
unfolding locks_conflict holds
IsFree-conflict [] lock r t free = refl
IsFree-conflict (l ∷ ls) lock r t free = elim (Bool-cases (conflicts lock l)) [
  | inl e ↦ absurd (no_conflict l ls lock r t.0 (free l.owner l.type) e)
  | inr e ↦
      rw e
        (IsFree-conflict ls lock r t.4 λ o ty b ne lo hi h. free o ty b ne lo hi (rw h (or_true _)))
]
  where
    no_conflict :
        (l : Lock) (ls : List Lock) (lock : Lock)
        → IsRange lock
        → l.start ≤ l.end
        → ((b : ℕ)
            → (l.owner == lock.owner) ≡ false
            → lock.start ≤ b
            → b ≤ lock.end
            → holds l.owner l.type b (l ∷ ls) ≡ true
            → (same_type l.type wrlck ≡ false) × (same_type lock.type wrlck ≡ false))
        → conflicts lock l ≡ true
        → ⊥
    no_conflict l ls lock r t free e =
        unfold conflicts in ground (arith, free l.start, free lock.start, same_type_refl l.type)

-- For a range and a table, `locks_conflict` finds no lock exactly when no other owner holds a byte
-- of the range, or both hold it for reading.
pub locks_conflict_iff :
    (ls : List Lock) (lock : Lock)
    → IsRange lock
    → IsTable ls
    → (locks_conflict ls lock ≡ none) ↔ IsFree ls lock
locks_conflict_iff ls lock r t = (conflict-IsFree ls lock, IsFree-conflict ls lock r t)

-- A lock that `locks_conflict` returns is of another owner, which holds every byte of it, meets the
-- range, and one of the two is for writing.
pub locks_conflict-found :
    (ls : List Lock) (lock : Lock) {l : Lock}
    → locks_conflict ls lock ≡ some l
    → ((l.owner == lock.owner) ≡ false)
      × (lock.start ≤ l.end)
      × (l.start ≤ lock.end)
      × ((same_type l.type wrlck || same_type lock.type wrlck) ≡ true)
      × ((b : ℕ) → l.start ≤ b → b ≤ l.end → holds l.owner l.type b ls ≡ true)
unfolding locks_conflict holds
locks_conflict-found [] lock e = absurd (none_not_some e)
  where
    none_not_some : {l : Lock} → none ≡ some l → ⊥
    none_not_some e = cc
locks_conflict-found (k ∷ ls) lock {l} e = elim (Bool-cases (conflicts lock k)) [
  | inl hit ↦ at_head k l lock ls hit (rw hit at e)
  | inr miss ↦
      let (a, b, c, d, h) = locks_conflict-found ls lock (rw miss at e) in
      (a, b, c, d, (λ x lo hi. rw (h x lo hi) (or_true _)))
]
  where
    at_head :
        (k l lock : Lock) (ls : List Lock)
        → conflicts lock k ≡ true
        → some k ≡ some l
        → ((l.owner == lock.owner) ≡ false)
          × (lock.start ≤ l.end)
          × (l.start ≤ lock.end)
          × ((same_type l.type wrlck || same_type lock.type wrlck) ≡ true)
          × ((b : ℕ) → l.start ≤ b → b ≤ l.end → holds l.owner l.type b (k ∷ ls) ≡ true)
    at_head k l lock ls c e =
        let p : k ≡ l = ground arith in
        unfold conflicts in
        (
          ground arith,
          ground arith,
          ground arith,
          ground arith,
          (λ b lo hi. ground (arith, same_type_refl l.type)),
        )

-- A byte that one owner holds for writing is held by no other.
abbrev pub Exclusive : List Lock → Type 0
Exclusive ls =
    (o p : ℕ) (t u : LockType) (b : ℕ)
    → (o == p) ≡ false
    → holds o t b ls ≡ true
    → holds p u b ls ≡ true
    → same_type t wrlck ≡ false

-- A lock for which `locks_conflict` finds nothing can be inserted: no byte that one owner holds
-- for writing comes to be held by two.
pub locks_insert-Exclusive :
    (ls : List Lock) (lock : Lock)
    → IsTable ls
    → IsRange lock
    → locks_conflict ls lock ≡ none
    → Exclusive ls
    → (rows : List Lock) × (locks_insert true ls lock ≡ inserted rows) × Exclusive rows
locks_insert-Exclusive ls lock t r free x =
    let w = locks_insert-Overwritten ls lock t r in
    let f = conflict-IsFree ls lock free in
    (
      w.rows,
      w.returned,
      λ o p ty u b ne h k.
          ground (arith, w.reads o ty b, w.reads p u b, x o p ty u b, f o ty b, f p u b),
    )
