-- ===== src/Runtime/Host.antt =====
-- The host interface: the trait `Runtime` of src/runtime/mod.rs, as operations that take the host's
-- state and return it with their result; the floating-point unit and Rust's text formatting, which
-- the interpreter calls; and the texts of the errors, each format string a constructor that keeps
-- its arguments.
use Prim.Native.Nat.{Ordering}
use net_lang.Prelude.{ℕ, String, Bool, Option, none, some, List}
use net_lang.Prelude.Int.{ℤ}
use net_lang.Ast.{F64, HttpMethod, Transport}
use net_lang.Runtime.Value.{Value}

pub data Message : Type 0 where
  -- A text that the host returned.
  host : String → Message
  step_limit expression_depth_limit call_depth_limit : Message
  undefined_name : String → Message
  -- The expected and the actual type.
  type_mismatch : String → String → Message
  uninitialized_binding : Message
  expected_boolean : String → Message
  for_requires_array parallel_requires_array : Message
  invalid_function_handle : Message
  -- A function's name, its arity and the number of arguments.
  argument_count : String → ℕ → ℕ → Message
  cannot_call : String → Message
  control_exits_function : Message
  unknown_named_type : String → Message
  protocol_with_configuration : Message
  configuration_field address_field : String → Message
  address_string destination_string url_string : Message
  integer_overflow invalid_integer_operation : Message
  invalid_unary : String → Message
  invalid_binary : String → String → Message
  unordered_values division_by_zero : Message
  concatenation_scalar byte_capacity : Message
  invalid_duration_operation : Message
  inexact_integer invalid_float_operation float_not_finite : Message
  byte_index_integer byte_index_negative byte_index_bounds : Message
  immutable_function_binding read_only_capture unrooted_assignment : Message
  -- A type's name and a key.
  no_record_field : String → String → Message
  no_object_field missing_field : String → Message
  negative_index : Message
  -- The index and the length.
  index_bounds : ℕ → ℕ → Message
  invalid_access : String → Message
  invalid_assignment_access foreign_record : Message
  parallel_output_limit : Message
  parallel_break parallel_return : Message
  -- The number of the iteration, counted from 1, and what it reported.
  parallel_iteration : ℕ → Message → Message
  parallel_panicked : ℕ → Message
  main_parameters worker_limit : Message
  timeout_duration bytes_range : Message
  -- The offset of the first invalid byte.
  invalid_utf8 : ℕ → Message
  byte_length_range : Message
  unsupported_argument : String → String → Message

pub data Reply (A : Type 0) : Type 0 where
  ok : A → Reply A
  err : String → Reply A

-- IEEE 754 doubles on their bit patterns.
pub record FloatUnit : Type 0 where
  pub add : F64 → F64 → F64
  pub sub : F64 → F64 → F64
  pub mul : F64 → F64 → F64
  pub div : F64 → F64 → F64
  pub rem : F64 → F64 → F64
  pub neg : F64 → F64
  pub fract : F64 → F64
  pub eq : F64 → F64 → Bool
  -- Nothing where a side is not a number.
  pub partial_cmp : F64 → F64 → Option Ordering
  pub is_nan : F64 → Bool
  pub is_finite : F64 → Bool
  -- The nearest double to an integer.
  pub of_integer : ℤ → F64
  -- The integer part, saturated to an `i64` and to an `i128`.
  pub to_i64 : F64 → ℤ
  pub to_i128 : F64 → ℤ

-- Rust's own formatting and text encoding.
pub record TextUnit : Type 0 where
  pub show_integer : ℤ → String
  pub show_float : F64 → String
  pub show_natural : ℕ → String
  -- `{:?}` of a text and of a byte vector.
  pub debug_string : String → String
  pub debug_bytes : List ℕ → String
  pub utf8 : String → List ℕ
  -- The text, or the offset of the first invalid byte.
  pub from_utf8 : List ℕ → record { text : Option String; valid_up_to : ℕ }

-- `H` is the state of a host. The trait's `fork` stands in `Platform`, since it makes a host and
-- not a handle on this one.
pub record Runtime (H : Type 0) : Type 0 where
  pub listen_tcp : String → H → Reply Value × H
  pub accept : Value → H → Reply Value × H
  pub local_address : Value → H → Reply String × H
  pub set_timeout : Value → ℕ → H → Reply (Unit {0}) × H
  pub bind_udp : String → H → Reply Value × H
  pub print : String → H → Reply (Unit {0}) × H
  pub close : Value → H → Reply (Unit {0}) × H
  pub connect : Transport → String → Option String → H → Reply Value × H
  pub send : Value → Value → Option String → H → Reply Value × H
  pub receive : Value → H → Reply Value × H
  pub request : HttpMethod → String → Value → H → Reply Value × H

-- All that the interpreter calls and does not implement.
pub record Platform (H : Type 0) : Type 0 where
  pub floats : FloatUnit
  pub texts : TextUnit
  pub runtime : Runtime H
  pub fork : H → Reply H × H

-- What a fallible operation without a state returns; `panicked` is a failed index or `unwrap`.
pub data Result (A : Type 0) : Type 0 where
  ok : A → Result A
  err : Message → Result A
  panicked : Result A

abbrev pub of_reply : {A : Type 0} → Reply A → Result A
of_reply (ok a) = ok a
of_reply (err text) = err (Message.host text)

abbrev pub of_option : {A : Type 0} → Option A → Message → Result A
of_option (some a) m = ok a
of_option none m = err m

infixl 5 ◌>>=◌
abbrev pub ◌>>=◌ : {A B : Type 0} → Result A → (A → Result B) → Result B
ok a >>= f = f a
err m >>= f = err m
panicked >>= f = panicked
