-- ===== src/Types/Registry.antt =====
-- The registry of a program: `TypeRegistry::new` of src/types.rs keeps one definition for a name.
use net_lang.Prelude.{
  ℕ, suc, ◌+◌, ◌<◌, ◌≡◌, refl, arith, String, Option, none, some, List, [], ◌∷◌, ◌++◌, length,
  length-append, get_elem?, get_elem?-append_left, get_elem?-append_here, get_elem?-bound, ◌⊎◌, inl,
  inr,
}
use text.Mathlib.TextEquality.{eq_iff}
use net_lang.Ast.{from_name, TypeField, Stmt, Stmts, no_stmts, stmt_cons, Program, unspanned_stmt}
use net_lang.Types.{named, Definitions, position, resolve, collect_definitions, new_registry}

old_or_last : (i n : ℕ) → i < suc n → (i < n) ⊎ (i ≡ n)
old_or_last i n h = ground arith

zero_sum : (n : ℕ) → 0 + n ≡ n
zero_sum n = omega arith

position-append :
    (name : String) (i : ℕ) (definitions more : Definitions) (id : ℕ)
    → position name i definitions ≡ some id
    → position name i (definitions ++ more) ≡ some id
unfolding position
position-append name i [] more id h = absurd (cc h)
position-append name i ((n, fields) ∷ rest) more id h =
    ground (arith, position-append name (suc i) rest more id)

position-append_new :
    (name : String) (fields : List TypeField) (i : ℕ) (definitions : Definitions)
    → position name i definitions ≡ none
    → position name i (definitions ++ (name, fields) ∷ []) ≡ some (i + length definitions)
unfolding position
position-append_new name fields i [] h = ground (arith, eq_iff name name)
position-append_new name fields i ((n, fs) ∷ rest) h =
    ground (arith, position-append_new name fields (suc i) rest)

-- Each definition is the first of its name.
IsFirst : Definitions → Type 0
IsFirst definitions =
    (id : ℕ) (name : String) (fields : List TypeField)
    → get_elem? definitions id ≡ some (name, fields)
    → position name 0 definitions ≡ some id

append-IsFirst :
    (name : String) (fields : List TypeField) (definitions : Definitions)
    → position name 0 definitions ≡ none
    → IsFirst definitions
    → IsFirst (definitions ++ (name, fields) ∷ [])
unfolding IsFirst
append-IsFirst name fields definitions new first id n fs h =
    elim (old_or_last id (length definitions) below) [
      | inl old ↦
          position-append n 0 definitions ((name, fields) ∷ []) id
            (first id n fs (cc (h, get_elem?-append_left definitions ((name, fields) ∷ []) id old)))
      | inr last ↦ cc (
        h,
        last,
        get_elem?-append_here definitions (name, fields),
        position-append_new name fields 0 definitions new,
        zero_sum (length definitions),
      )
    ]
  where
    below : id < suc (length definitions)
    below = omega (
      arith,
      get_elem?-bound (definitions ++ (name, fields) ∷ []) id h,
      length-append definitions ((name, fields) ∷ []),
    )

-- The registry after one more declaration of a type.
added-IsFirst :
    (name : String) (fields : List TypeField) (found : Definitions) (o : Option ℕ)
    → position name 0 found ≡ o
    → IsFirst found
    → IsFirst (elim o [ some _ ↦ found | none ↦ found ++ (name, fields) ∷ [] ])
added-IsFirst name fields found (some i) e h = h
added-IsFirst name fields found none e h = append-IsFirst name fields found e h

collect_definitions-IsFirst :
    (statements : Stmts) (found : Definitions)
    → IsFirst found
    → IsFirst (collect_definitions statements found)
unfolding collect_definitions
collect_definitions-IsFirst no_stmts found h = h
collect_definitions-IsFirst (stmt_cons s rest) found h =
    collect_definitions-IsFirst rest _ (go (unspanned_stmt s))
  where
    go :
        (s : Stmt)
        → IsFirst (elim s [
          | Stmt.type name fields ↦ elim (position name 0 found) [
            | some _ ↦ found
            | none ↦ found ++ (name, fields) ∷ []
          ]
          | _ ↦ found
        ])
    go (Stmt.type name fields) = added-IsFirst name fields found (position name 0 found) refl h
    go _ = h

-- Each definition of a program's registry is found under its name, if that is not the name of a
-- primitive type: no two definitions have one name.
pub resolve-new_registry :
    (identity : ℕ) (program : Program) (id : ℕ) (name : String) (fields : List TypeField)
    → from_name name ≡ none
    → get_elem? (new_registry identity program).definitions id ≡ some (name, fields)
    → resolve (new_registry identity program) name ≡ some (named id)
unfolding resolve new_registry IsFirst
resolve-new_registry identity program id name fields free h = cc (
  free,
  collect_definitions-IsFirst program.statements [] (λ i n fs e. absurd (cc e)) id name fields h,
)
