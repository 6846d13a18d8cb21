-- ===== src/Prelude/Ints.antt =====
-- What the tests of integers decide.
use mathlib.Core.Bool.{true}
use mathlib.Core.Path.{◌≡◌}
use mathlib.Core.Logic.{◌↔◌}
use native.Mathlib.Omega.{arith}
use ai_arena.Prelude.Int.{ℤ, pos, negsuc, same_int, lt_int}

pub same_int_lem : (i j : ℤ) → same_int i j ≡ true ↔ i ≡ j
unfolding same_int lt_int
same_int_lem (pos m) (pos n) = ground arith
same_int_lem (pos m) (negsuc n) = ground arith
same_int_lem (negsuc m) (pos n) = ground arith
same_int_lem (negsuc m) (negsuc n) = ground arith
