-- ===== src/Types/Names.antt =====
-- Resolving the names of types: `TypeRegistry::resolve` and `name` of src/types.rs.
use net_lang.Prelude.{
  ℕ, suc, ◌+◌, ◌≡◌, arith, String, some, List, [], ◌∷◌, get_elem?, Option-cases, Bool-cases, inl,
  inr,
}
use text.Mathlib.TextEquality.{eq_iff}
use net_lang.Prelude.Text.{str_eq}
use net_lang.Ast.{PrimitiveType, from_name, primitive_name, TypeField}
use net_lang.Types.{ResolvedType, TypeRegistry, Definitions, position, resolve, type_name}

-- A definition found from `i` on stands at its position, under its name.
position-get :
    (name : String) (i : ℕ) (definitions : Definitions) (id : ℕ)
    → position name i definitions ≡ some id
    → (k : ℕ) × ((id ≡ i + k)
        × ((fields : List TypeField) × (get_elem? definitions k ≡ some (name, fields))))
unfolding position
position-get name i [] id h = ground arith
position-get name i ((n, fields) ∷ rest) id h = elim (Bool-cases (str_eq n name)) [
  | inl e ↦ (0, (ground (arith, e), (fields, ground (arith, e, eq_iff n name))))
  | inr e ↦
      let (k, (at, (found, there))) = position-get name (suc i) rest id (cc (h, e)) in
      (suc k, (omega (arith, at), (found, there)))
]

-- The place of a primitive type's name.
primitive_name-from_name :
    (name : String) (p : PrimitiveType) → from_name name ≡ some p → primitive_name p ≡ name
unfolding from_name primitive_name
primitive_name-from_name name p h = ground (
  arith,
  eq_iff name "int",
  eq_iff name "float",
  eq_iff name "bool",
  eq_iff name "string",
  eq_iff name "duration",
  eq_iff name "bytes",
)

-- What a name resolves to is displayed by that name.
pub type_name-resolve :
    (types : TypeRegistry) (name : String) (ty : ResolvedType)
    → resolve types name ≡ some ty
    → type_name types ty ≡ some name
unfolding resolve type_name
type_name-resolve types name ty h = elim (Option-cases (from_name name)) [
  | inr (p, e) ↦ cc (h, e, primitive_name-from_name name p e)
  | inl e ↦ elim (Option-cases (position name 0 types.definitions)) [
    | inl gone ↦ absurd (cc (h, e, gone))
    | inr (id, found) ↦
        let (k, (at, (fields, there))) = position-get name 0 types.definitions id found in
        let same : id ≡ k = omega (arith, at) in cc (h, e, found, same, there)
  ]
]
