-- ===== src/Types/Cycle/Inside.antt =====
-- The search of `has_required_cycle` in src/types.rs stays inside the registry: it indexes no
-- definition that is not there.
use net_lang.Prelude.{
  ℕ, zero, suc, ◌+◌, ◌<◌, ◌≡◌, ◌≢◌, refl, subst, arith, String, Bool, false, Option, none, some,
  List, [], ◌∷◌, length, get_elem?, Option-cases, Bool-cases, inl, inr,
}
use net_lang.Prelude.Text.{str_eq}
use net_lang.Ast.{from_name, TypeField}
use net_lang.Types.{
  TypeRegistry, Definitions, ResolvedType, primitive, named, position, resolve, fields_of, required,
  is_seen, push_required, Search, answer, panicked, out_of_fuel, search_cycle, cycle_fuel,
  has_required_cycle,
}
use net_lang.Types.Cycle.{search_cycle-fuel}

position-below :
    (name : String) (i : ℕ) (definitions : Definitions) (id : ℕ)
    → position name i definitions ≡ some id
    → id < i + length definitions
unfolding position
position-below name i [] id h = absurd (cc h)
position-below name i ((n, fields) ∷ rest) id h = elim (Bool-cases (str_eq n name)) [
  | inl e ↦ ground (arith, e)
  | inr e ↦ omega (arith, position-below name (suc i) rest id (cc (h, e)))
]

present : {A : Type 0} (xs : List A) (i : ℕ) → i < length xs → get_elem? xs i ≢ none
present [] i h = absurd (omega arith)
present (x ∷ xs) zero h = λ e. cc
present (x ∷ xs) (suc i) h = present xs i (omega arith)

module _ (types : TypeRegistry) where
  -- A name resolves to a definition that is there.
  resolve-below :
      (name : String) (id : ℕ)
      → resolve types name ≡ some (named id)
      → id < length types.definitions
  unfolding resolve
  resolve-below name id h = elim (Option-cases (from_name name)) [
    | inr (p, e) ↦ absurd (cc (h, e))
    | inl e ↦ elim (Option-cases (position name 0 types.definitions)) [
      | inl gone ↦ absurd (cc (h, e, gone))
      | inr (j, found) ↦
          let same : j ≡ id = cc (h, e, found) in
          omega (arith, position-below name 0 types.definitions j found, same)
    ]
  ]

  fields_of-there : (id : ℕ) → id < length types.definitions → fields_of types id ≢ none
  unfolding fields_of
  fields_of-there id l e = elim (Option-cases (get_elem? types.definitions id)) [
    | inl gone ↦ present types.definitions id l gone
    | inr (d, there) ↦ cc (e, there)
  ]

  abbrev Inside : List ℕ → Type 0
  Inside [] = Unit
  Inside (id ∷ ids) = (id < length types.definitions) × Inside ids

  required-Inside : (fields : List TypeField) → Inside (required types fields)
  unfolding required
  required-Inside [] = tt
  required-Inside (field ∷ fields) =
      go (resolve types field.annotation.name) refl (required-Inside fields)
    where
      go :
          (o : Option ResolvedType)
          → resolve types field.annotation.name ≡ o
          → Inside (required types fields)
          → Inside (elim o [
            | some (named next) ↦ next ∷ required types fields
            | _ ↦ required types fields
          ])
      go none e rest = rest
      go (some (primitive p)) e rest = rest
      go (some (named id)) e rest = (resolve-below field.annotation.name id e, rest)

  push_required-Inside :
      (start : ℕ) (next pending : List ℕ) {pending' : List ℕ}
      → push_required start next pending ≡ some pending'
      → Inside next
      → Inside pending
      → Inside pending'
  unfolding push_required
  push_required-Inside start [] pending h n p = subst Inside (ground arith) p
  push_required-Inside start (i ∷ next) pending h (l, n) p =
      push_required-Inside start next (i ∷ pending) (ground arith) n (l, p)

  search_cycle-Inside :
      (f start : ℕ) (pending seen : List ℕ)
      → Inside pending
      → search_cycle f types start pending seen ≢ panicked
  unfolding search_cycle
  search_cycle-Inside zero start pending seen p = λ e. cc
  search_cycle-Inside (suc f) start [] seen p = λ e. cc
  search_cycle-Inside (suc f) start (id ∷ pending) seen (l, p) =
      elim (Bool-cases (is_seen id seen)) [
        | inl old ↦ rw old (search_cycle-Inside f start pending seen p)
        | inr new ↦ elim (Option-cases (fields_of types id)) [
          | inl gone ↦ absurd (fields_of-there id l gone)
          | inr (fields, there) ↦
              elim (Option-cases (push_required start (required types fields) pending)) [
                | inl found ↦ λ e. cc (new, there, found, e)
                | inr (pending', more) ↦ λ e.
                    search_cycle-Inside f start pending' (id ∷ seen)
                      (push_required-Inside start (required types fields) pending more
                        (required-Inside fields) p)
                      (cc (new, there, more, e))
              ]
        ]
      ]

answered : (r : Search) → r ≢ panicked → r ≢ out_of_fuel → (found : Bool) × (r ≡ answer found)
answered (answer found) p f = (found, refl)
answered panicked p f = absurd (p refl)
answered out_of_fuel p f = absurd (f refl)

-- For every name, the search of a registry for a cycle of required fields has an answer: its loop
-- ends, and it indexes no definition that is not there.
pub has_required_cycle-answers :
    (types : TypeRegistry) (name : String)
    → (found : Bool) × (has_required_cycle types name ≡ answer found)
unfolding has_required_cycle
has_required_cycle-answers types name = go (resolve types name) refl
  where
    go :
        (o : Option ResolvedType)
        → resolve types name ≡ o
        → (found : Bool) × ((elim o [
          | some (named start) ↦ search_cycle (cycle_fuel types) types start (start ∷ []) []
          | _ ↦ answer false
        ])
            ≡ answer found)
    go none e = (false, refl)
    go (some (primitive p)) e = (false, refl)
    go (some (named start)) e =
        answered (search_cycle (cycle_fuel types) types start (start ∷ []) [])
          (search_cycle-Inside types (cycle_fuel types) start (start ∷ []) []
            (resolve-below types name start e, tt))
          (search_cycle-fuel types start)
