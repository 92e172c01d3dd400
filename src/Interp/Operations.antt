-- ===== src/Interp/Operations.antt =====
-- Operators on values: src/interpreter/operations.rs, and the unary operators of
-- src/interpreter/expression.rs.
pub mod Binary
pub mod Integers
use Prim.Native.Nat.{compare, Ordering}
use net_lang.Prelude.{
  ℕ, zero, suc, ◌+◌, ◌-◌, ◌*◌, ◌^◌, ◌≤◌, String, Bool, true, false, not, ◌&&◌, ◌||◌, Option, none,
  some, List, [], ◌∷◌, ◌==◌, leb, if◌then◌else◌,
}
use Prim.Native.String.{◌++◌ as str_append}
use mathlib.Core.List.{◌++◌}
use net_lang.Prelude.Int.{
  ℤ, pos, negsuc, eq_ℤ, compare_ℤ, i64_checked_add, i64_checked_sub, i64_checked_mul,
  i64_checked_div, i64_checked_rem, i64_checked_neg,
}
use net_lang.Prelude.Text.{str_eq, compare_str}
use net_lang.Source.{usize_max}
use net_lang.Ast.{BinaryOp, UnaryOp, F64, add, subtract, multiply, divide, remainder}
use net_lang.Runtime.Value.{Value, Values, Fields, Builtin, nil, cons, end, entry, value_type_name}
use net_lang.Runtime.Builtin.{builtin_name}
use net_lang.Runtime.Display.{display}
use net_lang.Runtime.Host.{Message, Result, FloatUnit, TextUnit, ok, err, of_option, ◌>>=◌}

abbrev pub is_eq : Ordering → Bool
is_eq Ordering.eq = true
is_eq _ = false

abbrev pub is_lt : Ordering → Bool
is_lt Ordering.lt = true
is_lt _ = false

abbrev pub is_gt : Ordering → Bool
is_gt Ordering.gt = true
is_gt _ = false

abbrev pub reverse_ordering : Ordering → Ordering
reverse_ordering Ordering.lt = Ordering.gt
reverse_ordering Ordering.eq = Ordering.eq
reverse_ordering Ordering.gt = Ordering.lt

abbrev pub map_ordering : (Ordering → Ordering) → Option Ordering → Option Ordering
map_ordering f (some o) = some (f o)
map_ordering f none = none

-- `is_some_and`.
abbrev pub holds : (Ordering → Bool) → Option Ordering → Bool
holds p (some o) = p o
holds p none = false

unfoldable pub bytes_eq : List ℕ → List ℕ → Bool
bytes_eq [] [] = true
bytes_eq (a ∷ as_) (b ∷ bs) = a == b && bytes_eq as_ bs
bytes_eq _ _ = false

abbrev pub bool_eq : Bool → Bool → Bool
bool_eq true b = b
bool_eq false b = not b

module _ (fl : FloatUnit) where
  -- The derived `PartialEq`; two records are equal where type and fields are, whatever the name.
  unfoldable mutual
    unfolding builtin_name

    pub value_eq : Value → Value → Bool
    value_eq (Value.record_ i t _ fs) (Value.record_ j u _ gs) =
        i == j && (t == u && fields_eq fs gs)
    value_eq (Value.integer a) (Value.integer b) = eq_ℤ a b
    value_eq (Value.float a) (Value.float b) = fl.eq a b
    value_eq (Value.string a) (Value.string b) = str_eq a b
    value_eq (Value.bytes a) (Value.bytes b) = bytes_eq a b
    value_eq (Value.connection a) (Value.connection b) = a == b
    value_eq (Value.boolean a) (Value.boolean b) = bool_eq a b
    value_eq Value.null Value.null = true
    value_eq (Value.duration a) (Value.duration b) = a == b
    value_eq (Value.array a) (Value.array b) = values_eq a b
    value_eq (Value.object a) (Value.object b) = fields_eq a b
    value_eq (Value.function a) (Value.function b) = a == b
    value_eq Value.print Value.print = true
    value_eq (Value.builtin a) (Value.builtin b) = str_eq (builtin_name a) (builtin_name b)
    value_eq _ _ = false

    pub values_eq : Values → Values → Bool
    values_eq nil nil = true
    values_eq (cons v vs) (cons w ws) = value_eq v w && values_eq vs ws
    values_eq _ _ = false

    pub fields_eq : Fields → Fields → Bool
    fields_eq end end = true
    fields_eq (entry k v fs) (entry j w gs) = str_eq k j && (value_eq v w && fields_eq fs gs)
    fields_eq _ _ = false

  -- 2^63 as a double, the least that no `i64` reaches.
  abbrev pub float_bound : F64
  float_bound = fl.of_integer (pos (2 ^ 63))

  abbrev pub negative_float_bound : F64
  negative_float_bound = fl.of_integer (negsuc (2 ^ 63 - 1))

  unfoldable pub compare_int_float : ℤ → F64 → Option Ordering
  unfolding compare_ℤ
  compare_int_float integer float =
      if fl.is_nan float
      then none
      else if holds (λ o. not (is_lt o)) (fl.partial_cmp float float_bound)
      then some Ordering.lt
      else if holds is_lt (fl.partial_cmp float negative_float_bound)
      then some Ordering.gt
      else elim (compare_ℤ integer (fl.to_i64 float)) [
        | Ordering.eq ↦ fl.partial_cmp (fl.of_integer (pos 0)) (fl.fract float)
        | order ↦ some order
      ]

  -- The equality of `==` and `!=`, which compares an integer with a float exactly.
  unfoldable pub equal_values : Value → Value → Bool
  unfolding value_eq compare_int_float
  equal_values (Value.integer a) (Value.float b) = holds is_eq (compare_int_float a b)
  equal_values (Value.float b) (Value.integer a) = holds is_eq (compare_int_float a b)
  equal_values left right = value_eq left right

  unfoldable pub order_values : Value → Value → Option Ordering
  unfolding compare_int_float compare_ℤ compare_str
  order_values (Value.integer a) (Value.integer b) = some (compare_ℤ a b)
  order_values (Value.float a) (Value.float b) = fl.partial_cmp a b
  order_values (Value.integer a) (Value.float b) = compare_int_float a b
  order_values (Value.float a) (Value.integer b) =
      map_ordering reverse_ordering (compare_int_float b a)
  order_values (Value.string a) (Value.string b) = some (compare_str a b)
  order_values (Value.duration a) (Value.duration b) = some (compare a b)
  order_values _ _ = none

  unfoldable pub exact_float : ℤ → Result F64
  exact_float value =
      let float = fl.of_integer value in
      if eq_ℤ (fl.to_i128 float) value then ok float else err Message.inexact_integer

  abbrev finite : F64 → Result Value
  finite value = if fl.is_finite value then ok (Value.float value) else err Message.float_not_finite

  abbrev is_zero_float : F64 → Bool
  is_zero_float b = fl.eq b (fl.of_integer (pos 0))

  unfoldable pub float_binary : F64 → BinaryOp → F64 → Result Value
  float_binary a add b = finite (fl.add a b)
  float_binary a subtract b = finite (fl.sub a b)
  float_binary a multiply b = finite (fl.mul a b)
  float_binary a divide b =
      if is_zero_float b then err Message.division_by_zero else finite (fl.div a b)
  float_binary a remainder b =
      if is_zero_float b then err Message.division_by_zero else finite (fl.rem a b)
  float_binary a _ b = err Message.invalid_float_operation

unfoldable pub integer_binary : ℤ → BinaryOp → ℤ → Result Value
unfolding i64_checked_add i64_checked_sub i64_checked_mul i64_checked_div i64_checked_rem eq_ℤ
integer_binary a op b =
    let overflow : Option ℤ → Result Value =
      λ r. of_option r Message.invalid_integer_operation >>= λ v. ok (Value.integer v) in
    let guarded : Option ℤ → Result Value =
      λ r. if eq_ℤ b (pos 0) then err Message.division_by_zero else overflow r in
    elim op [
      | BinaryOp.add ↦ overflow (i64_checked_add a b)
      | BinaryOp.subtract ↦ overflow (i64_checked_sub a b)
      | BinaryOp.multiply ↦ overflow (i64_checked_mul a b)
      | BinaryOp.divide ↦ guarded (i64_checked_div a b)
      | BinaryOp.remainder ↦ guarded (i64_checked_rem a b)
      | _ ↦ overflow none
    ]

abbrev pub u64_max : ℕ
u64_max = 2 ^ 64 - 1

unfoldable pub duration_binary : ℕ → BinaryOp → ℕ → Result Value
duration_binary a add b =
    if leb (a + b) u64_max
    then ok (Value.duration (a + b))
    else err Message.invalid_duration_operation
duration_binary a subtract b =
    if leb b a then ok (Value.duration (a - b)) else err Message.invalid_duration_operation
duration_binary a _ b = err Message.invalid_duration_operation
