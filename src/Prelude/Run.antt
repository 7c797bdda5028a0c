-- ===== src/Prelude/Run.antt =====
-- Code that changes a state and can fail: a run gives a result and the new state, returns -1 with
-- the state as far as it got, stops at a failed `assert` or at undefined behaviour, or is out of
-- fuel.
use mathlib.Core.Path.{◌≡◌, refl}
use mathlib.Core.Bool.{Bool, true, false}

pub data Run (S A : Type 0) : Type 0 where
  ok : A → S → Run S A
  err : S → Run S A
  abort : Run S A
  out_of_fuel : Run S A

abbrev pub M : Type 0 → Type 0 → Type 0
M S A = S → Run S A

abbrev pub Cmd : Type 0 → Type 0
Cmd S = S → Run S (Unit {0})

abbrev pub and_then : {S A B : Type 0} → Run S A → (A → S → Run S B) → Run S B
and_then (ok a s) k = k a s
and_then (err s) k = err s
and_then abort k = abort
and_then out_of_fuel k = out_of_fuel

infixl 5 ◌>>=◌ ◌>>◌
abbrev pub ◌>>=◌ : {S A B : Type 0} → M S A → (A → M S B) → M S B
◌>>=◌ m k s = and_then (m s) k

abbrev pub ◌>>◌ : {S B : Type 0} → Cmd S → M S B → M S B
◌>>◌ m k s = and_then (m s) (λ _. k)

-- return 0
abbrev pub skip : {S : Type 0} → Cmd S
skip s = ok tt s

-- return -1
abbrev pub fail : {S A : Type 0} → M S A
fail s = err s

-- `assert(b)`
abbrev pub assert : {S : Type 0} → Bool → Cmd S
assert true s = ok tt s
assert false s = abort

pub and_then-skip : {S : Type 0} (r : Run S (Unit {0})) → and_then r (λ _. skip) ≡ r
and_then-skip (ok a s) = refl
and_then-skip (err s) = refl
and_then-skip abort = refl
and_then-skip out_of_fuel = refl

-- two continuations that agree everywhere
pub and_then_congr :
    {S A B : Type 0} (r : Run S A) (k h : A → S → Run S B)
    → ((a : A) (s : S) → k a s ≡ h a s)
    → and_then r k ≡ and_then r h
and_then_congr (ok a s) k h e = e a s
and_then_congr (err s) k h e = refl
and_then_congr abort k h e = refl
and_then_congr out_of_fuel k h e = refl
