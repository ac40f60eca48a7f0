-- ===== src/Prelude/Ints.antt =====
-- Go's signed machine integers, as integers over the native numbers.
use Prim.Native.Nat.{ℕ}
use mathlib.Core.Path.{◌≡◌}
use mathlib.Core.Logic.{◌↔◌}
use mathlib.Core.Bool.{Bool, true, false}
use native.Mathlib.Omega.{arith}
use specd.Prelude.Tests.{ltb, eqb, eqb_iff}

-- `negsuc n` is - (n + 1).
pub data ℤ : Type 0 where
  pos : ℕ → ℤ
  negsuc : ℕ → ℤ

abbrev pub is_negative : ℤ → Bool
is_negative (pos n) = false
is_negative (negsuc n) = true

-- `a == b`.
abbrev pub same_int : ℤ → ℤ → Bool
same_int (pos m) (pos n) = eqb m n
same_int (negsuc m) (negsuc n) = eqb m n
same_int _ _ = false

-- `a < b`.
abbrev pub less_int : ℤ → ℤ → Bool
less_int (pos m) (pos n) = ltb m n
less_int (pos m) (negsuc n) = false
less_int (negsuc m) (pos n) = true
less_int (negsuc m) (negsuc n) = ltb n m

pub same_int_iff : (a b : ℤ) → (same_int a b ≡ true) ↔ (a ≡ b)
same_int_iff (pos m) (pos n) = ground (arith, eqb_iff m n)
same_int_iff (pos m) (negsuc n) = ground arith
same_int_iff (negsuc m) (pos n) = ground arith
same_int_iff (negsuc m) (negsuc n) = ground (arith, eqb_iff m n)
