-- ===== src/Types.antt =====
-- The registry of declared types: src/types.rs. A definition's position is its number, and the
-- registry's identity (an `Arc<()>` compared by pointer) is the number of its allocation.
pub mod Cycle
pub mod Names
pub mod Registry
use net_lang.Prelude.{
  ℕ, zero, suc, ◌+◌, String, Bool, true, false, Option, none, some, List, [], ◌∷◌, ◌++◌, get_elem?,
  length, if◌then◌else◌, ◌==◌,
}
use net_lang.Prelude.Text.{str_eq}
use net_lang.Ast.{
  PrimitiveType, from_name, primitive_name, TypeField, Stmt, Stmts, no_stmts, stmt_cons, Program,
  unspanned_stmt,
}

pub data ResolvedType : Type 0 where
  primitive : PrimitiveType → ResolvedType
  named : ℕ → ResolvedType

abbrev pub Definitions : Type 0
Definitions = List (String × List TypeField)

pub record TypeRegistry : Type 0 where
  pub identity : ℕ
  pub definitions : Definitions

-- The position of the first definition of that name, counted from `i`.
unfoldable pub position : String → ℕ → Definitions → Option ℕ
position name i [] = none
position name i ((n, _) ∷ rest) = if str_eq n name then some i else position name (suc i) rest

unfoldable pub resolve : TypeRegistry → String → Option ResolvedType
unfolding from_name position
resolve types name = elim (from_name name) [
  | some p ↦ some (primitive p)
  | none ↦ elim (position name 0 types.definitions) [ some id ↦ some (named id) | none ↦ none ]
]

-- The loop of `TypeRegistry::new`: the first declaration of a name counts.
unfoldable pub collect_definitions : Stmts → Definitions → Definitions
unfolding unspanned_stmt position
collect_definitions no_stmts found = found
collect_definitions (stmt_cons statement rest) found =
    collect_definitions rest (elim (unspanned_stmt statement) [
      | Stmt.type name fields ↦ elim (position name 0 found) [
        | some _ ↦ found
        | none ↦ found ++ (name, fields) ∷ []
      ]
      | _ ↦ found
    ])

unfoldable pub new_registry : ℕ → Program → TypeRegistry
unfolding collect_definitions
new_registry identity program = record {
  identity = identity;
  definitions = collect_definitions program.statements [];
}

-- The fields of a definition; the code's indexing panics where there is none.
unfoldable pub fields_of : TypeRegistry → ℕ → Option (List TypeField)
fields_of types id = elim (get_elem? types.definitions id) [ some (_, fs) ↦ some fs | none ↦ none ]

-- `definition.iter().find(|field| field.name == key)`.
unfoldable pub find_field : String → List TypeField → Option TypeField
find_field key [] = none
find_field key (f ∷ fields) = if str_eq f.name key then some f else find_field key fields

-- Nothing is a panic: the index is out of range.
unfoldable pub type_name : TypeRegistry → ResolvedType → Option String
unfolding primitive_name
type_name types (primitive p) = some (primitive_name p)
type_name types (named id) = elim (get_elem? types.definitions id) [
  | some (name, _) ↦ some name
  | none ↦ none
]

-- The numbers of the named types that the fields require.
unfoldable pub required : TypeRegistry → List TypeField → List ℕ
unfolding resolve
required types [] = []
required types (field ∷ fields) = elim (resolve types field.annotation.name) [
  | some (named next) ↦ next ∷ required types fields
  | _ ↦ required types fields
]

-- The loop over the fields of one definition: nothing where a field requires `start`, and
-- otherwise the stack with the fields pushed, its top first.
unfoldable pub push_required : ℕ → List ℕ → List ℕ → Option (List ℕ)
push_required start [] pending = some pending
push_required start (next ∷ rest) pending =
    if next == start then none else push_required start rest (next ∷ pending)

unfoldable pub is_seen : ℕ → List ℕ → Bool
is_seen id [] = false
is_seen id (j ∷ seen) = if j == id then true else is_seen id seen

-- How the search ends. `panicked` is an index out of range, and `out_of_fuel` the model's own.
pub data Search : Type 0 where
  answer : Bool → Search
  panicked out_of_fuel : Search

-- The `while` loop over the stack, on fuel.
unfoldable pub search_cycle : ℕ → TypeRegistry → ℕ → List ℕ → List ℕ → Search
search_cycle zero types start pending seen = out_of_fuel
search_cycle (suc f) types start [] seen = answer false
search_cycle (suc f) types start (id ∷ pending) seen =
    let skip = search_cycle f types start pending seen in
    let scan : Search = elim (fields_of types id) [
      | none ↦ panicked
      | some fields ↦ elim (push_required start (required types fields) pending) [
        | none ↦ answer true
        | some pending' ↦ search_cycle f types start pending' (id ∷ seen)
      ]
    ] in
    if is_seen id seen then skip else scan

-- The edges out of a definition of the graph that is searched.
unfoldable pub edges_of : TypeRegistry → ℕ → List ℕ
edges_of types id = elim (fields_of types id) [ some fs ↦ required types fs | none ↦ [] ]

-- The edges out of the definitions numbered below `n`: no more are pushed.
unfoldable pub edges_below : TypeRegistry → ℕ → ℕ
edges_below types zero = 0
edges_below types (suc n) = length (edges_of types n) + edges_below types n

abbrev pub cycle_fuel : TypeRegistry → ℕ
cycle_fuel types = edges_below types (length types.definitions) + 3

unfoldable pub has_required_cycle : TypeRegistry → String → Search
has_required_cycle types name = elim (resolve types name) [
  | some (named start) ↦ search_cycle (cycle_fuel types) types start (start ∷ []) []
  | _ ↦ answer false
]
