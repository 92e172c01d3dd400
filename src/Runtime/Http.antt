-- ===== src/Runtime/Http.antt =====
-- The HTTP requests of a runtime: src/runtime/http.rs. The client, the URL parser and the tests on
-- header names and values are those of other packages, and parameters.
pub mod Config
pub mod Request
pub mod Bounds
use net_lang.Prelude.{ℕ, String, Bool, Option, none, some, List}
use net_lang.Prelude.Int.{ℤ}
use net_lang.Ast.{F64, HttpMethod}
use net_lang.Runtime.Host.{Reply}

mutual
  pub data Json : Type 0 where
    null : Json
    boolean : Bool → Json
    integer : ℤ → Json
    float : F64 → Json
    string : String → Json
    array : JsonItems → Json
    object : JsonFields → Json

  pub data JsonItems : Type 0 where
    no_items : JsonItems
    item : Json → JsonItems → JsonItems

  pub data JsonFields : Type 0 where
    no_fields : JsonFields
    field : String → Json → JsonFields → JsonFields

-- The timeout is in milliseconds.
pub record Options : Type 0 where
  pub headers : List (String × String)
  pub query : List (String × String)
  pub json : Option Json
  pub timeout : ℕ
  pub retries : ℕ

-- What a client hands back: the status, the headers, each with its text if it is one, and the body,
-- read up to one byte more than the limit.
pub record Response : Type 0 where
  pub status : ℕ
  pub headers : List (String × Option String)
  pub body : Reply (List ℕ)

pub record RequestError : Type 0 where
  pub is_timeout : Bool
  pub is_connect : Bool
  pub message : String

pub data Sent : Type 0 where
  responded : Response → Sent
  refused : RequestError → Sent

pub record Client (W : Type 0) : Type 0 where
  -- The URL as it is sent, with its scheme and whether it names a host.
  pub parse_url : String → Option (record { url : String; scheme : String; has_host : Bool })
  -- The normal form of a name or a value, if it is one.
  pub header_name : String → Option String
  pub header_value : String → Option String
  pub is_finite : F64 → Bool
  pub from_utf8 : List ℕ → Option String
  pub build : W → Reply (Unit {0}) × W
  pub send : HttpMethod → String → Options → W → Sent × W

-- Nothing but an error text is known of a failure.
pub data Result (A : Type 0) : Type 0 where
  ok : A → Result A
  err : String → Result A

infixl 5 ◌>>=◌
abbrev pub ◌>>=◌ : {A B : Type 0} → Result A → (A → Result B) → Result B
ok a >>= f = f a
err e >>= f = err e
