-- ===== src/Locks/Table.antt =====
-- What a list of record locks means: who holds which byte, and the lists that
-- `locks_insert` of fuse-2.8.5/lib/fuse.c keeps.
use fuse_nt.Prelude.{
  ℕ, ◌≤◌, ◌<◌, ◌≡◌, refl, Bool, true, false, ◌&&◌, ◌||◌, not, List, [], ◌∷◌, leb, ◌==◌,
  if◌then◌else◌, arith,
}
use fuse_nt.Locks.{LockType, rdlck, wrlck, unlck, same_type, offset_max, Lock}

abbrev pub covers : ℕ → ℕ → Lock → Bool
covers o b l = (l.owner == o) && (leb l.start b && leb b l.end)

-- Owner `o` has a lock of type `t` on byte `b`.
unfoldable pub holds : ℕ → LockType → ℕ → List Lock → Bool
holds o t b [] = false
holds o t b (l ∷ ls) = (covers o b l && same_type t l.type) || holds o t b ls

pub same_type_refl : (t : LockType) → same_type t t ≡ true
same_type_refl rdlck = refl
same_type_refl wrlck = refl
same_type_refl unlck = refl

abbrev pub IsRange : Lock → Type 0
IsRange l = (l.start ≤ l.end) × (l.end ≤ offset_max)

-- the locks of owner `o` begin behind byte `k`
abbrev pub After : ℕ → ℕ → List Lock → Type 0
After o k [] = Unit
After o k (l ∷ ls) = ((l.owner == o) ≡ true → k < l.start) × After o k ls

-- Every element is a lock on a range, and the ranges of one owner are ascending and disjoint.
abbrev pub IsTable : List Lock → Type 0
IsTable [] = Unit
IsTable (l ∷ ls) =
    (l.start ≤ l.end)
    × (l.end ≤ offset_max)
    × (same_type l.type unlck ≡ false)
    × After l.owner l.end ls
    × IsTable ls

-- what byte `b` has after `lock`, if it had `before`
abbrev pub overwrite : Lock → ℕ → LockType → ℕ → Bool → Bool
overwrite lock o t b before =
    if covers o b lock then same_type t lock.type && not (same_type lock.type unlck) else before

pub After-move :
    (p k o j : ℕ) (ls : List Lock) → After p k ls → (p == o) ≡ true → j ≤ k → After o j ls
After-move p k o j [] a e h = tt
After-move p k o j (l ∷ ls) a e h = ((λ q. ground (arith, a.0)), After-move p k o j ls a.1 e h)

-- A byte up to `k` is free of owner `p`, whose locks begin behind `k`.
pub holds_clear :
    (p k : ℕ) (ls : List Lock) (a : After p k ls) (o : ℕ) (t : LockType) (b : ℕ)
    → (p == o) ≡ true
    → b ≤ k
    → holds o t b ls ≡ false
unfolding holds
holds_clear p k [] a o t b e h = refl
holds_clear p k (l ∷ ls) a o t b e h = ground (arith, a.0, holds_clear p k ls a.1 o t b)
