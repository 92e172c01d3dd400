-- ===== src/Ast/Annotation.antt =====
-- Type annotations and primitive types: src/ast/types.rs.
use net_lang.Prelude.{String, Option, none, some, if◌then◌else◌}
use net_lang.Prelude.Text.{str_eq}
use net_lang.Source.{Span}

pub record TypeAnnotation : Type 0 where
  pub name : String
  pub span : Option Span

pub record TypeField : Type 0 where
  pub name : String
  pub annotation : TypeAnnotation

pub record Parameter : Type 0 where
  pub name : String
  pub annotation : Option TypeAnnotation

pub data PrimitiveType : Type 0 where
  int float bool string duration bytes : PrimitiveType

unfoldable pub from_name : String → Option PrimitiveType
from_name name =
    if str_eq name "int"
    then some int
    else if str_eq name "float"
    then some float
    else if str_eq name "bool"
    then some bool
    else if str_eq name "string"
    then some string
    else if str_eq name "duration"
    then some duration
    else if str_eq name "bytes"
    then some bytes
    else none

unfoldable pub primitive_name : PrimitiveType → String
primitive_name int = "int"
primitive_name float = "float"
primitive_name bool = "bool"
primitive_name string = "string"
primitive_name duration = "duration"
primitive_name bytes = "bytes"
