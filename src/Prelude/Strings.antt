-- ===== src/Prelude/Strings.antt =====
-- The comparison of C strings.
use mathlib.Core.Path.{◌≡◌, refl}
use mathlib.Core.Bool.{Bool, true, false, ◌&&◌}
use mathlib.Core.List.{[], ◌∷◌}
use native.Mathlib.Omega.{arith}
use fuse_nt.Prelude.Tests.{◌==◌}
use fuse_nt.Prelude.Memory.{Str}

-- strcmp(a, b) == 0
unfoldable pub str_eq : Str → Str → Bool
str_eq [] [] = true
str_eq (a ∷ s) (b ∷ t) = a == b && str_eq s t
str_eq _ _ = false

pub str_eq_refl : (s : Str) → str_eq s s ≡ true
unfolding str_eq
str_eq_refl [] = refl
str_eq_refl (c ∷ s) = ground (arith, str_eq_refl s)

pub str_eq-eq : (s t : Str) → str_eq s t ≡ true → s ≡ t
unfolding str_eq
str_eq-eq [] [] e = refl
str_eq-eq [] (d ∷ t) e = cc
str_eq-eq (c ∷ s) [] e = cc
str_eq-eq (c ∷ s) (d ∷ t) e = ground (arith, str_eq-eq s t)
