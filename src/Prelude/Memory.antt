-- ===== src/Prelude/Memory.antt =====
-- C strings, and the allocations of a run.
use Prim.Native.Nat.{ℕ}
use mathlib.Core.Path.{◌≡◌, refl}
use mathlib.Core.Bool.{Bool, true, false}
use native.Mathlib.Omega.{arith}
use mathlib.Core.List.{List, [], ◌∷◌}

-- the bytes of a string, its closing 0 left out
abbrev pub Str : Type 0
Str = List ℕ

-- whether each of the next allocations succeeds; past the end of the list all do
abbrev pub Mem : Type 0
Mem = List Bool

-- the outcome of one allocation
abbrev pub next_alloc : Mem → Bool × Mem
next_alloc [] = (true, [])
next_alloc (b ∷ bs) = (b, bs)

abbrev pub has_failure : Mem → Bool
has_failure [] = false
has_failure (true ∷ bs) = has_failure bs
has_failure (false ∷ bs) = true

-- a failure among the later allocations is one of all
pub has_failure-later : (mem : Mem) → has_failure (next_alloc mem).1 ≡ true → has_failure mem ≡ true
has_failure-later [] e = e
has_failure-later (true ∷ bs) e = e
has_failure-later (false ∷ bs) e = refl

pub has_failure-now : (mem : Mem) → (next_alloc mem).0 ≡ false → has_failure mem ≡ true
has_failure-now [] e = absurd (ground arith)
has_failure-now (true ∷ bs) e = absurd (ground arith)
has_failure-now (false ∷ bs) e = refl
