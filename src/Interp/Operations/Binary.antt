-- ===== src/Interp/Operations/Binary.antt =====
-- The method `binary` of src/interpreter/operations.rs: its groups of operators in their order.
use Prim.Native.Nat.{Ordering}
use Prim.Native.String
use net_lang.Prelude.{Bool, true, false, not, ◌||◌, ◌++◌, if◌then◌else◌}
use net_lang.Prelude.Int.{i64_checked_neg}
use net_lang.Ast.{BinaryOp, UnaryOp, add}
use net_lang.Runtime.Value.{Value, value_type_name}
use net_lang.Runtime.Display.{display}
use net_lang.Runtime.Host.{Message, Result, FloatUnit, TextUnit, ok, err, of_option, ◌>>=◌}
use net_lang.Interp.Operations.{
  is_lt, is_gt, equal_values, order_values, exact_float, float_binary, integer_binary,
  duration_binary,
}

-- The values that `+` does not join to a text.
abbrev pub is_compound : Value → Bool
is_compound (Value.array _) = true
is_compound (Value.record_ _ _ _ _) = true
is_compound (Value.object _) = true
is_compound (Value.function _) = true
is_compound Value.print = true
is_compound (Value.builtin _) = true
is_compound (Value.bytes _) = true
is_compound (Value.connection _) = true
is_compound _ = false

abbrev pub is_text : Value → Bool
is_text (Value.string _) = true
is_text _ = false

module _ (fl : FloatUnit) (tx : TextUnit) where
  unfoldable pub concatenate : Value → Value → Result Value
  concatenate left right =
      if is_compound left || is_compound right
      then err Message.concatenation_scalar
      else ok (Value.string (String.◌++◌ (display tx left) (display tx right)))

  -- The final `match`, on two values.
  unfoldable pub arithmetic : Value → BinaryOp → Value → Result Value
  unfolding integer_binary duration_binary float_binary exact_float value_type_name
  arithmetic (Value.bytes a) add (Value.bytes b) = ok (Value.bytes (a ++ b))
  arithmetic (Value.integer a) op (Value.integer b) = integer_binary a op b
  arithmetic (Value.duration a) op (Value.duration b) = duration_binary a op b
  arithmetic (Value.float a) op (Value.float b) = float_binary fl a op b
  arithmetic (Value.integer a) op (Value.float b) = exact_float fl a >>= λ f. float_binary fl f op b
  arithmetic (Value.float a) op (Value.integer b) = exact_float fl b >>= λ f. float_binary fl a op f
  arithmetic left op right =
      err (Message.invalid_binary (value_type_name left) (value_type_name right))

  unfoldable pub ordered : (Ordering → Bool) → Value → Value → Result Value
  unfolding order_values
  ordered test left right = of_option (order_values fl left right) Message.unordered_values >>= λ o.
      ok (Value.boolean (test o))

  unfoldable pub binary : Value → BinaryOp → Value → Result Value
  unfolding equal_values ordered concatenate arithmetic
  binary left BinaryOp.equal right = ok (Value.boolean (equal_values fl left right))
  binary left BinaryOp.not_equal right = ok (Value.boolean (not (equal_values fl left right)))
  binary left BinaryOp.less right = ordered is_lt left right
  binary left BinaryOp.less_equal right = ordered (λ o. not (is_gt o)) left right
  binary left BinaryOp.greater right = ordered is_gt left right
  binary left BinaryOp.greater_equal right = ordered (λ o. not (is_lt o)) left right
  binary left add right =
      if is_text left || is_text right then concatenate left right else arithmetic left add right
  binary left op right = arithmetic left op right

  unfoldable pub unary : UnaryOp → Value → Result Value
  unfolding i64_checked_neg value_type_name
  unary UnaryOp.not (Value.boolean v) = ok (Value.boolean (not v))
  unary UnaryOp.negate (Value.integer v) =
      of_option (i64_checked_neg v) Message.integer_overflow >>= λ n. ok (Value.integer n)
  unary UnaryOp.negate (Value.float v) = ok (Value.float (fl.neg v))
  unary op v = err (Message.invalid_unary (value_type_name v))
