-- ===== src/Interp/Operations/Integers.antt =====
-- The integer arithmetic of src/interpreter/operations.rs: exact results that fit an `i64`.
use native.Mathlib.Nat.{mod-le}
use net_lang.Prelude.{
  suc, ◌≡◌, refl, arith, Option, none, some, if◌then◌else◌, Bool-cases, inl, inr,
}
use net_lang.Prelude.Int.{
  ℤ, pos, negsuc, ◌+ℤ◌, ◌-ℤ◌, ◌*ℤ◌, magnitude, div_ℤ, mod_ℤ, eq_ℤ, IsI64, in_i64, checked,
  checked-IsI64, i64_checked_add, i64_checked_sub, i64_checked_mul, i64_checked_div,
  i64_checked_rem,
}
use net_lang.Ast.{BinaryOp, add, subtract, multiply, divide, remainder}
use net_lang.Runtime.Value.{Value}
use net_lang.Runtime.Host.{Message, Result, ok, err, of_option, ◌>>=◌}
use net_lang.Interp.Operations.{integer_binary}

-- An exact result, and the error where it does not fit.
abbrev pub exact : ℤ → Result Value
exact z = if in_i64 z then ok (Value.integer z) else err Message.invalid_integer_operation

-- The result of an operation that may overflow.
settled :
    (r : Option ℤ) (m : Message) (v : Value)
    → (of_option r m >>= λ z. ok (Value.integer z)) ≡ ok v
    → (z : ℤ) × ((r ≡ some z) × (v ≡ Value.integer z))
settled none m v h = absurd (cc h)
settled (some z) m v h = (z, (refl, cc h))

mod_ℤ-IsI64 : (a b : ℤ) → IsI64 a → IsI64 (mod_ℤ a b)
unfolding mod_ℤ
mod_ℤ-IsI64 (pos a) b h = ground (arith, mod-le a (magnitude b))
mod_ℤ-IsI64 (negsuc a) b h = ground (arith, mod-le (suc a) (magnitude b))

in_range :
    (r : ℤ) (v : Value) (z : ℤ)
    → checked r ≡ some z
    → v ≡ Value.integer z
    → (z : ℤ) × ((v ≡ Value.integer z) × IsI64 z)
in_range r v z e at = (z, (at, (checked-IsI64 r z e).1))

-- What an operation on two integers of the type `i64` returns, where it returns a result, is an
-- integer of that type.
pub integer_binary-IsI64 :
    (a b : ℤ) (op : BinaryOp) (v : Value)
    → IsI64 a
    → integer_binary a op b ≡ ok v
    → (z : ℤ) × ((v ≡ Value.integer z) × IsI64 z)
unfolding integer_binary i64_checked_add i64_checked_sub i64_checked_mul i64_checked_div
    i64_checked_rem
integer_binary-IsI64 a b add v ha h =
    let (z, (e, at)) = settled _ _ v h in in_range (a +ℤ b) v z e at
integer_binary-IsI64 a b subtract v ha h =
    let (z, (e, at)) = settled _ _ v h in in_range (a -ℤ b) v z e at
integer_binary-IsI64 a b multiply v ha h =
    let (z, (e, at)) = settled _ _ v h in in_range (a *ℤ b) v z e at
integer_binary-IsI64 a b divide v ha h = elim (Bool-cases (eq_ℤ b (pos 0))) [
  | inl e ↦ absurd (cc (h, e))
  | inr e ↦
      let (z, (f, at)) =
        settled (checked (div_ℤ a b)) Message.invalid_integer_operation v (cc (h, e)) in
      in_range (div_ℤ a b) v z f at
]
integer_binary-IsI64 a b remainder v ha h = elim (Bool-cases (eq_ℤ b (pos 0))) [
  | inl e ↦ absurd (cc (h, e))
  | inr e ↦ elim (Bool-cases (in_i64 (div_ℤ a b))) [
    | inl f ↦ (mod_ℤ a b, (cc (h, e, f), mod_ℤ-IsI64 a b ha))
    | inr f ↦ absurd (cc (h, e, f))
  ]
]
integer_binary-IsI64 a b _ v ha h = absurd (cc h)

-- Addition, subtraction and multiplication of two integers give the exact result where it fits an
-- `i64`, and the error of an invalid operation where it does not: nothing wraps around.
pub integer_binary-exact :
    (a b : ℤ)
    → (integer_binary a add b ≡ exact (a +ℤ b))
      × ((integer_binary a subtract b ≡ exact (a -ℤ b))
          × (integer_binary a multiply b ≡ exact (a *ℤ b)))
unfolding integer_binary checked i64_checked_add i64_checked_sub i64_checked_mul
integer_binary-exact a b = (once (a +ℤ b), (once (a -ℤ b), once (a *ℤ b)))
  where
    once :
        (z : ℤ)
        → (of_option (checked z) Message.invalid_integer_operation >>= λ w. ok (Value.integer w))
          ≡ exact z
    once z = elim (Bool-cases (in_i64 z)) [ inl e ↦ cc e | inr e ↦ cc e ]
