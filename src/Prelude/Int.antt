-- ===== src/Prelude/Int.antt =====
-- Signed integers over the native numbers, and the checked 64-bit operations of Rust's `i64`.
use Prim.Native.Nat.{ℕ, suc, ◌+◌, ◌-◌, ◌*◌, ◌/◌, ◌%◌, ◌^◌, ◌≤◌, compare, Ordering}
use mathlib.Core.Path.{◌≡◌}
use mathlib.Core.Bool.{Bool, true, false, ◌&&◌}
use mathlib.Core.Option.{Option, none, some}
use native.Mathlib.Omega.{arith}
use net_lang.Prelude.Tests.{leb, ◌==◌, if◌then◌else◌}

-- `negsuc n` is -(n + 1).
pub data ℤ : Type 0 where
  pos : ℕ → ℤ
  negsuc : ℕ → ℤ

abbrev pub pos_part : ℤ → ℕ
pos_part (pos n) = n
pos_part (negsuc n) = 0

abbrev pub neg_part : ℤ → ℕ
neg_part (pos n) = 0
neg_part (negsuc n) = suc n

-- a - b, as an integer.
abbrev pub sub_ℕ : ℕ → ℕ → ℤ
sub_ℕ a b = if leb b a then pos (a - b) else negsuc (b - a - 1)

infixl 65 ◌+ℤ◌ ◌-ℤ◌
infixl 70 ◌*ℤ◌
unfoldable pub ◌+ℤ◌ : ℤ → ℤ → ℤ
a +ℤ b = sub_ℕ (pos_part a + pos_part b) (neg_part a + neg_part b)

unfoldable pub ◌-ℤ◌ : ℤ → ℤ → ℤ
a -ℤ b = sub_ℕ (pos_part a + neg_part b) (neg_part a + pos_part b)

unfoldable pub ◌*ℤ◌ : ℤ → ℤ → ℤ
a *ℤ b =
    sub_ℕ (pos_part a * pos_part b + neg_part a * neg_part b)
      (pos_part a * neg_part b + neg_part a * pos_part b)

-- The distance from zero.
abbrev pub magnitude : ℤ → ℕ
magnitude a = pos_part a + neg_part a

-- Division that rounds towards zero, and the remainder with the dividend's sign.
unfoldable pub div_ℤ : ℤ → ℤ → ℤ
div_ℤ (pos a) (pos b) = pos (a / b)
div_ℤ (pos a) (negsuc b) = sub_ℕ 0 (a / suc b)
div_ℤ (negsuc a) (pos b) = sub_ℕ 0 (suc a / b)
div_ℤ (negsuc a) (negsuc b) = pos (suc a / suc b)

unfoldable pub mod_ℤ : ℤ → ℤ → ℤ
mod_ℤ (pos a) b = pos (a % magnitude b)
mod_ℤ (negsuc a) b = sub_ℕ 0 (suc a % magnitude b)

unfoldable pub compare_ℤ : ℤ → ℤ → Ordering
compare_ℤ a b = compare (pos_part a + neg_part b) (pos_part b + neg_part a)

unfoldable pub eq_ℤ : ℤ → ℤ → Bool
eq_ℤ (pos a) (pos b) = a == b
eq_ℤ (negsuc a) (negsuc b) = a == b
eq_ℤ _ _ = false

abbrev pub i64_bound : ℕ
i64_bound = 2 ^ 63

-- A value of the type `i64`: from -2^63 to 2^63 - 1.
abbrev pub IsI64 : ℤ → Type 0
IsI64 z = (pos_part z + 1 ≤ i64_bound) × (neg_part z ≤ i64_bound)

abbrev pub in_i64 : ℤ → Bool
in_i64 z = leb (pos_part z + 1) i64_bound && leb (neg_part z) i64_bound

-- `checked_add` and its like: the exact result, or nothing where it does not fit.
unfoldable pub checked : ℤ → Option ℤ
checked z = if in_i64 z then some z else none

unfoldable pub i64_checked_add : ℤ → ℤ → Option ℤ
unfolding checked
i64_checked_add a b = checked (a +ℤ b)

unfoldable pub i64_checked_sub : ℤ → ℤ → Option ℤ
unfolding checked
i64_checked_sub a b = checked (a -ℤ b)

unfoldable pub i64_checked_mul : ℤ → ℤ → Option ℤ
unfolding checked
i64_checked_mul a b = checked (a *ℤ b)

unfoldable pub i64_checked_div : ℤ → ℤ → Option ℤ
unfolding checked
i64_checked_div a b = if eq_ℤ b (pos 0) then none else checked (div_ℤ a b)

-- The remainder of the least integer by -1 is refused like the quotient.
unfoldable pub i64_checked_rem : ℤ → ℤ → Option ℤ
unfolding checked
i64_checked_rem a b =
    if eq_ℤ b (pos 0) then none else if in_i64 (div_ℤ a b) then some (mod_ℤ a b) else none

unfoldable pub i64_checked_neg : ℤ → Option ℤ
unfolding checked
i64_checked_neg a = checked (pos 0 -ℤ a)

pub checked-IsI64 : (z w : ℤ) → checked z ≡ some w → (w ≡ z) × IsI64 w
unfolding checked
checked-IsI64 z w h = ground arith

pub eq_ℤ→eq : (a b : ℤ) → eq_ℤ a b ≡ true → a ≡ b
unfolding eq_ℤ
eq_ℤ→eq (pos a) (pos b) h = ground arith
eq_ℤ→eq (negsuc a) (negsuc b) h = ground arith
eq_ℤ→eq (pos a) (negsuc b) h = cc
eq_ℤ→eq (negsuc a) (pos b) h = cc
